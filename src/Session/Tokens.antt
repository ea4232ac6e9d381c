-- ===== src/Session/Tokens.antt =====
-- The calls of the token store on a device that grants all calls.
use coffix.Prelude.{◌≡◌, refl, ◌∙◌, ap, subst, Bool, true, Text}
use coffix.Storage.{Outcome, ok, failed, SecureStore, SecureStoreLaws, Items, put, delete, Post}
use coffix.Service.IntakeStore.{Drafts, clear_all}
use coffix.Service.IntakeStore.Invariant.{Tracked}
use coffix.Service.IntakeStore.Logout.{Erased, clear_all-Runs}
use coffix.Session.{access_token_key, refresh_token_key, both, delete_tokens, get_refresh_token}

-- The items without the tokens.
abbrev pub without_tokens : Items → Items
without_tokens s = delete refresh_token_key (delete access_token_key s)

module _ {S : SecureStore} (laws : SecureStoreLaws S) where
  open laws use {items, grants}

  -- A call that has returned, and left the device granting.
  pub record Returns {A : Type 0} (Q : A → Items → Type 0) (r : Outcome A × S.Device) : Type 0 where
    pub value : A
    pub result : r.0 ≡ ok value
    pub good : Q value (items r.1)
    pub granting : grants r.1 ≡ true

  Post-Returns :
      {A : Type 0} (Q : A → Items → Type 0) (E : Items → Type 0) (r : Outcome A × S.Device)
      → Post items grants Q E true r
      → Returns Q r
  Post-Returns Q E (ok a, d) post = record {
    value = a;
    result = refl;
    good = post.0;
    granting = post.1;
  }
  Post-Returns Q E (failed, d) post = cc (post.1)

  granted :
      {A : Type 0} (Q : A → Items → Type 0) (E : Items → Type 0) (b : Bool)
      (r : Outcome A × S.Device)
      → b ≡ true
      → Post items grants Q E b r
      → Returns Q r
  granted Q E b r e post = Post-Returns Q E r (subst (λ g. Post items grants Q E g r) e post)

  pub delete_item-Returns :
      (key : Text) (d : S.Device)
      → grants d ≡ true
      → Returns (λ _ s. s ≡ delete key (items d)) (S.delete_item key d)
  delete_item-Returns key d grant =
      granted _ (λ kept. kept ≡ items d) (grants d) (S.delete_item key d) grant
        (laws.delete_item_lem key d)

  pub set_item-Returns :
      (key value : Text) (d : S.Device)
      → grants d ≡ true
      → Returns (λ _ s. s ≡ put key value (items d)) (S.set_item key value d)
  set_item-Returns key value d grant =
      granted _ (λ kept. kept ≡ items d) (grants d) (S.set_item key value d) grant
        (laws.set_item_lem key value d)

  pub get_refresh_token-Returns :
      (d : S.Device)
      → grants d ≡ true
      → Returns
          (λ value s. (value ≡ items d refresh_token_key) × (s ≡ items d))
          (get_refresh_token S d)
  unfolding get_refresh_token
  get_refresh_token-Returns d grant =
      granted _ (λ kept. kept ≡ items d) (grants d) (S.get_item refresh_token_key d) grant
        (laws.get_item_lem refresh_token_key d)

  pub clear_all-Returns :
      {Draft : Type 0} (J : Drafts Draft) (d : S.Device)
      → grants d ≡ true
      → Tracked J (items d)
      → Returns (λ _. Erased) (clear_all S J d)
  clear_all-Returns J d grant h =
      granted _ (Tracked J) (grants d) (clear_all S J d) grant ((clear_all-Runs laws J).at d h)

  -- Two calls under `Promise.all`.
  both-Returns :
      (m n : S.Device → Outcome (Unit {0}) × S.Device) (f g : Items → Items) (d : S.Device)
      → Returns (λ _ s. s ≡ f (items d)) (m d)
      → ((e : S.Device) → grants e ≡ true → Returns (λ _ s. s ≡ g (items e)) (n e))
      → Returns (λ _ s. s ≡ g (f (items d))) (both m n d)
  both-Returns m n f g d first later =
      let second = later (m d).1 first.granting in
      record {
        value = tt;
        result = rw (first.result, second.result) refl;
        good = second.good ∙ ap g first.good;
        granting = second.granting;
      }

  pub delete_tokens-Returns :
      (d : S.Device)
      → grants d ≡ true
      → Returns (λ _ s. s ≡ without_tokens (items d)) (delete_tokens S d)
  delete_tokens-Returns d grant =
      both-Returns (S.delete_item access_token_key) (S.delete_item refresh_token_key)
        (delete access_token_key) (delete refresh_token_key) d
        (delete_item-Returns access_token_key d grant) (delete_item-Returns refresh_token_key)
