-- ===== src/Service/IntakeStore/Clearing.antt =====
-- Loading a draft after it was cleared gives an empty draft.
use coffix.Prelude.{◌≡◌, refl, sym, none, some, Text}
use mathlib.Core.Path.{subst}
use coffix.Storage.{SecureStore, SecureStoreLaws, Task, Items, ◌>>=◌, or_raise, Post}
use coffix.Storage.Rules
use coffix.Storage.Rules.{Runs}
use coffix.Service.IntakeStore.{
  count_of, Drafts, DraftsLaws, key_for, load_stored, load, clear, clear_key,
}
use coffix.Service.IntakeStore.Keys.{dots, dots-key_for}
use coffix.Service.IntakeStore.Invariant.{IsKey, Tracked}
use coffix.Service.IntakeStore.Removal.{Gone}
use coffix.Service.IntakeStore.Logout.{clear_key-Runs}

module _ {S : SecureStore} (laws : SecureStoreLaws S) {Draft : Type 0} (J : Drafts Draft)
    (json_laws : DraftsLaws J) (scope machine_id key : Text)
    (there : key_for scope machine_id ≡ some key) where
  -- A task that needs the key of the draft, which exists.
  keyed-Runs :
      {A : Type 0} {P E : Items → Type 0} {Q : A → Items → Type 0} (f : Text → Task S.Device A)
      → Runs laws P (f key) Q E
      → Runs laws P (or_raise (key_for scope machine_id) >>= f) Q E
  keyed-Runs {P} {E} {Q} f runs =
      subst (λ o. Runs laws P (or_raise o >>= f) Q E) (sym there) (record { at = runs.at })

  load_missing-Runs :
      Runs laws
        (λ s. Tracked J s × Gone key s)
        (load S J scope machine_id)
        (λ loaded s. (loaded ≡ J.empty_draft machine_id) × Tracked J s)
        (Tracked J)
  unfolding load
  load_missing-Runs =
      keyed-Runs (λ k. S.get_item k >>= λ stored. load_stored S J k machine_id (count_of stored))
        (Rules.bind laws (λ stored s. (stored ≡ none) × Tracked J s)
          (Rules.get_item-Runs laws key (λ s h. (h.1, h.0)) (λ s h. h.0))
          λ stored. record {
            at = λ d p.
                subst
                  (λ o.
                    Post laws.items laws.grants
                      (λ loaded s. (loaded ≡ J.empty_draft machine_id) × Tracked J s) (Tracked J)
                      (laws.grants d) (load_stored S J key machine_id (count_of o) d))
                  (sym p.0) ((refl, p.1), refl);
          })

  clear-Runs :
      IsKey key
      → Runs laws
          (Tracked J)
          (clear S J scope machine_id)
          (λ _ s. Tracked J s × Gone key s)
          (Tracked J)
  unfolding clear
  clear-Runs four = keyed-Runs (clear_key S J) (clear_key-Runs laws J json_laws key four)

  -- From items that the registry accounts for, a draft whose scope and machine have no dot and are
  -- sequences of Unicode characters: a clear followed by a load of the same machine returns an empty
  -- draft, and does return it when the device grants all calls; where a call is rejected, the
  -- registry still accounts for the items.
  pub load-clear :
      (d : S.Device)
      → dots scope ≡ 0
      → dots machine_id ≡ 0
      → Tracked J (laws.items d)
      → Post laws.items laws.grants
          (λ loaded s. (loaded ≡ J.empty_draft machine_id) × Tracked J s)
          (Tracked J)
          (laws.grants d)
          ((clear S J scope machine_id >>= λ _. load S J scope machine_id) d)
  load-clear d p q h =
      (Rules.bind laws (λ _ s. Tracked J s × Gone key s)
          (clear-Runs (dots-key_for scope machine_id key p q there)) λ _. load_missing-Runs).at
        d h
