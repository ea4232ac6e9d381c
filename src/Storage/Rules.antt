-- ===== src/Storage/Rules.antt =====
-- Reasoning about operations on a device that may reject any call.
use coffix.Prelude.{◌≡◌, refl, sym, Bool, Option, none, some, Text}
use mathlib.Core.Path.{subst, subst₂}
use coffix.Storage.{
  Outcome, ok, failed, SecureStore, SecureStoreLaws, Task, Items, put, delete, Post, pure, continue,
  ◌>>=◌, or_raise,
}

module _ {S : SecureStore} (laws : SecureStoreLaws S) where
  open laws use {items, grants, get_item_lem, set_item_lem, delete_item_lem}

  -- From items with `P` the operation either succeeds, with `Q` of its result and the items, or is
  -- rejected, with `E` of the items; where all calls are granted it succeeds.
  pub record Runs {A : Type 0} (P : Items → Type 0) (m : Task S.Device A) (Q : A → Items → Type 0)
      (E : Items → Type 0) : Type 0 where
    pub at : (d : S.Device) → P (items d) → Post items grants Q E (grants d) (m d)

  Post-continue :
      {A B : Type 0} (Q : A → Items → Type 0) (R : B → Items → Type 0) (E : Items → Type 0)
      (f : A → Task S.Device B) (granted : Bool) (r : Outcome A × S.Device)
      → ((a : A) → Runs (Q a) (f a) R E)
      → Post items grants Q E granted r
      → Post items grants R E granted (continue f r)
  Post-continue Q R E f granted (ok a, d) runs (q, same) =
      subst (λ g. Post items grants R E g (f a d)) same ((runs a).at d q)
  Post-continue Q R E f granted (failed, d) runs post = post

  pub bind :
      {A B : Type 0} {P : Items → Type 0} (Q : A → Items → Type 0) {R : B → Items → Type 0}
      {E : Items → Type 0} {m : Task S.Device A} {f : A → Task S.Device B}
      → Runs P m Q E
      → ((a : A) → Runs (Q a) (f a) R E)
      → Runs P (m >>= f) R E
  bind Q {R} {E} {m} {f} first later = record {
    at = λ d p. Post-continue Q R E f (grants d) (m d) later (first.at d p);
  }

  pub pure-Runs :
      {A : Type 0} {P : Items → Type 0} {Q : A → Items → Type 0} {E : Items → Type 0} (a : A)
      → ((s : Items) → P s → Q a s)
      → Runs P (pure a) Q E
  pure-Runs a keep = record { at = λ d p. (keep (items d) p, refl) }

  -- A call with its law, from a stronger to a weaker postcondition.
  weaken :
      {A : Type 0} (Q R : A → Items → Type 0) (E F : Items → Type 0) (granted : Bool)
      (r : Outcome A × S.Device)
      → ((a : A) (s : Items) → Q a s → R a s)
      → ((s : Items) → E s → F s)
      → Post items grants Q E granted r
      → Post items grants R F granted r
  weaken Q R E F granted (ok a, d) good bad (q, same) = (good a (items d) q, same)
  weaken Q R E F granted (failed, d) good bad (e, no_grant) = (bad (items d) e, no_grant)

  pub get_item-Runs :
      {P E : Items → Type 0} {Q : Option Text → Items → Type 0} (key : Text)
      → ((s : Items) → P s → Q (s key) s)
      → ((s : Items) → P s → E s)
      → Runs P (S.get_item key) Q E
  get_item-Runs {P} {E} {Q} key good bad = record {
    at = λ d p.
        weaken (λ value s. (value ≡ items d key) × (s ≡ items d)) Q (λ s. s ≡ items d) E (grants d)
          (S.get_item key d)
          (λ value s (law : (value ≡ items d key) × (s ≡ items d)).
            subst₂ Q (sym law.0) (sym law.1) (good (items d) p))
          (λ s same. subst E (sym same) (bad (items d) p)) (get_item_lem key d);
  }

  pub set_item-Runs :
      {P E : Items → Type 0} {Q : Items → Type 0} (key value : Text)
      → ((s : Items) → P s → Q (put key value s))
      → ((s : Items) → P s → E s)
      → Runs P (S.set_item key value) (λ _. Q) E
  set_item-Runs {P} {E} {Q} key value good bad = record {
    at = λ d p.
        weaken (λ _ s. s ≡ put key value (items d)) (λ _. Q) (λ s. s ≡ items d) E (grants d)
          (S.set_item key value d) (λ _ s same. subst Q (sym same) (good (items d) p))
          (λ s same. subst E (sym same) (bad (items d) p)) (set_item_lem key value d);
  }

  pub delete_item-Runs :
      {P E : Items → Type 0} {Q : Items → Type 0} (key : Text)
      → ((s : Items) → P s → Q (delete key s))
      → ((s : Items) → P s → E s)
      → Runs P (S.delete_item key) (λ _. Q) E
  delete_item-Runs {P} {E} {Q} key good bad = record {
    at = λ d p.
        weaken (λ _ s. s ≡ delete key (items d)) (λ _. Q) (λ s. s ≡ items d) E (grants d)
          (S.delete_item key d) (λ _ s same. subst Q (sym same) (good (items d) p))
          (λ s same. subst E (sym same) (bad (items d) p)) (delete_item_lem key d);
  }

  -- A weaker precondition of the operation, stronger promises after it.
  pub consequence :
      {A : Type 0} {P P' : Items → Type 0} {Q R : A → Items → Type 0} {E F : Items → Type 0}
      {m : Task S.Device A}
      → Runs P m Q E
      → ((s : Items) → P' s → P s)
      → ((a : A) (s : Items) → Q a s → R a s)
      → ((s : Items) → E s → F s)
      → Runs P' m R F
  consequence {Q} {R} {E} {F} {m} runs before good bad = record {
    at = λ d p. weaken Q R E F (grants d) (m d) good bad (runs.at d (before (items d) p));
  }

  -- A value that is there, whatever the items are.
  pub or_raise-Runs :
      {A : Type 0} {P E : Items → Type 0} {Q : A → Items → Type 0} (o : Option A) (a : A)
      → ((s : Items) → P s → (o ≡ some a) × Q a s)
      → Runs P (or_raise o) Q E
  or_raise-Runs {P} {E} {Q} o a there = record {
    at = λ d p.
        subst (λ v. Post items grants Q E (grants d) (or_raise v d)) (sym (there (items d) p).0)
          ((there (items d) p).1, refl);
  }

  -- The operation keeps `P`, whether it succeeds or not.
  pub record Keeps {A : Type 0} (P : Items → Type 0) (m : Task S.Device A) : Type 0 where
    pub kept : (d : S.Device) → P (items d) → P (items (m d).1)

  Post-keeps :
      {A : Type 0} (P : Items → Type 0) (granted : Bool) (r : Outcome A × S.Device)
      → Post items grants (λ _. P) P granted r
      → P (items r.1)
  Post-keeps P granted (ok a, d) post = post.0
  Post-keeps P granted (failed, d) post = post.0

  pub Runs-Keeps :
      {A : Type 0} {P : Items → Type 0} {m : Task S.Device A} → Runs P m (λ _. P) P → Keeps P m
  Runs-Keeps {P} {m} runs = record { kept = λ d p. Post-keeps P (grants d) (m d) (runs.at d p) }

  Keeps-continue :
      {A B : Type 0} (P : Items → Type 0) (f : A → Task S.Device B) (r : Outcome A × S.Device)
      → ((a : A) → Keeps P (f a))
      → P (items r.1)
      → P (items (continue f r).1)
  Keeps-continue P f (ok a, d) keep p = (keep a).kept d p
  Keeps-continue P f (failed, d) keep p = p

  pub Keeps-bind :
      {A B : Type 0} {P : Items → Type 0} {m : Task S.Device A} {f : A → Task S.Device B}
      → Keeps P m
      → ((a : A) → Keeps P (f a))
      → Keeps P (m >>= f)
  Keeps-bind {P} {m} {f} first later = record {
    kept = λ d p. Keeps-continue P f (m d) later (first.kept d p);
  }

  pub Keeps-pure : {A : Type 0} {P : Items → Type 0} (a : A) → Keeps P (pure a)
  Keeps-pure a = record { kept = λ d p. p }

  pub Keeps-or_raise : {A : Type 0} {P : Items → Type 0} (o : Option A) → Keeps P (or_raise o)
  Keeps-or_raise none = record { kept = λ d p. p }
  Keeps-or_raise (some a) = record { kept = λ d p. p }

  pub Keeps-get_item : {P : Items → Type 0} (key : Text) → Keeps P (S.get_item key)
  Keeps-get_item {P} key = Runs-Keeps (get_item-Runs {Q = λ _. P} key (λ s p. p) (λ s p. p))
