-- ===== src/Storage.antt =====
-- expo-secure-store, which the program calls and does not implement: asynchronous calls that get,
-- set and delete one text under a key, and may be rejected. A device is known by the items that it
-- holds; the laws say what a call does to them.
pub mod Rules
pub mod Memory
use coffix.Prelude.{◌≡◌, Bool, true, false, Option, none, some, Text, text_eq, if◌then◌else◌}

-- How a promise settles.
pub data Outcome {ℓ} (A : Type ℓ) : Type ℓ where
  ok : A → Outcome A
  failed : Outcome A

-- An asynchronous operation on a device.
abbrev pub Task : Type 0 → Type 0 → Type 0
Task D A = D → Outcome A × D

pub record SecureStore : Type 1 where
  pub Device : Type 0
  pub get_item : Text → Task Device (Option Text)
  pub set_item : Text → Text → Task Device (Unit {0})
  pub delete_item : Text → Task Device (Unit {0})

abbrev pub Items : Type 0
Items = Text → Option Text

abbrev pub put : Text → Text → Items → Items
put key value items j = if text_eq key j then some value else items j

abbrev pub delete : Text → Items → Items
delete key items j = if text_eq key j then none else items j

-- How a call ends from a device whose calls are all granted (`granted`) or may be rejected.
abbrev pub Post {ℓ} :
    {A : Type 0} {D : Type 0}
    → (D → Items)
    → (D → Bool)
    → (A → Items → Type ℓ)
    → (Items → Type ℓ)
    → Bool
    → Outcome A × D
    → Type ℓ
Post items grants Q E granted (ok a, d) = Q a (items d) × (grants d ≡ granted)
Post items grants Q E granted (failed, d) = E (items d) × (granted ≡ false)

-- The documented behaviour: a call that is granted has its effect, one that is rejected has none.
pub record SecureStoreLaws (S : SecureStore) : Type 0 where
  pub items : S.Device → Items
  pub grants : S.Device → Bool
  pub get_item_lem :
      (key : Text) (d : S.Device)
      → Post items grants
          (λ value kept. (value ≡ items d key) × (kept ≡ items d))
          (λ kept. kept ≡ items d)
          (grants d)
          (S.get_item key d)
  pub set_item_lem :
      (key value : Text) (d : S.Device)
      → Post items grants
          (λ _ kept. kept ≡ put key value (items d))
          (λ kept. kept ≡ items d)
          (grants d)
          (S.set_item key value d)
  pub delete_item_lem :
      (key : Text) (d : S.Device)
      → Post items grants
          (λ _ kept. kept ≡ delete key (items d))
          (λ kept. kept ≡ items d)
          (grants d)
          (S.delete_item key d)

module _ {D : Type 0} where
  abbrev pub pure : {A : Type 0} → A → Task D A
  pure a d = (ok a, d)

  abbrev pub raise : {A : Type 0} → Task D A
  raise d = (failed, d)

  abbrev pub continue : {A B : Type 0} → (A → Task D B) → Outcome A × D → Outcome B × D
  continue f (ok a, d) = f a d
  continue f (failed, d) = (failed, d)

  infixl 5 ◌>>=◌ ◌>>◌
  -- `await`: a rejection ends the function.
  abbrev pub ◌>>=◌ : {A B : Type 0} → Task D A → (A → Task D B) → Task D B
  ◌>>=◌ m f d = continue f (m d)

  abbrev pub ◌>>◌ : {B : Type 0} → Task D (Unit {0}) → Task D B → Task D B
  m >> k = m >>= λ _. k

  -- A value that may be an exception.
  abbrev pub or_raise : {A : Type 0} → Option A → Task D A
  or_raise none = raise
  or_raise (some a) = pure a
