-- ===== src/Prelude/Map.antt =====
-- `Map` and `Set` with string keys: association lists in insertion order, at most one entry a key.
use Prim.Native.String.{String}
use mathlib.Core.Path.{◌≡◌, refl}
use mathlib.Core.Bool.{Bool, true, false, not, ◌&&◌, ◌||◌}
use mathlib.Core.List.{List, [], ◌∷◌}
use mathlib.Core.Option.{Option, none, some}
use native.Mathlib.Omega.{arith}
use text.Mathlib.Text.{◌==◌ as str_eq}
use text.Mathlib.TextEquality.{eq_iff}
use coffix.Prelude.Tests.{if◌then◌else◌}

module _ {ℓ} {V : Type ℓ} where
  -- `m.has(key)`
  unfoldable pub has : String → List (String × V) → Bool
  has key [] = false
  has key ((own, value) ∷ more) = str_eq own key || has key more

  -- `m.delete(key)`
  unfoldable pub erase : String → List (String × V) → List (String × V)
  erase key [] = []
  erase key ((own, value) ∷ more) =
      let rest = erase key more in if str_eq own key then rest else (own, value) ∷ rest

  -- `m.get(key)`
  unfoldable pub lookup : String → List (String × V) → Option V
  lookup key [] = none
  lookup key ((own, value) ∷ more) =
      let later = lookup key more in if str_eq own key then some value else later

  -- `m.set(key, value)` keeps the place of a key that is there.
  unfoldable pub insert : String → V → List (String × V) → List (String × V)
  insert key value [] = (key, value) ∷ []
  insert key value ((own, old) ∷ more) =
      let later = insert key value more in
      if str_eq own key then (key, value) ∷ more else (own, old) ∷ later

  pub has-erase :
      (k j : String) (m : List (String × V)) → has j (erase k m) ≡ (not (str_eq k j) && has j m)
  unfolding has erase
  has-erase k j [] = ground arith
  has-erase k j ((own, value) ∷ more) =
      ground (arith, has-erase k j more, eq_iff own j, eq_iff own k, eq_iff k j)

  pub has-insert :
      (k j : String) (v : V) (m : List (String × V))
      → has j (insert k v m) ≡ (str_eq k j || has j m)
  unfolding has insert
  has-insert k j v [] = ground arith
  has-insert k j v ((own, value) ∷ more) =
      ground (arith, has-insert k j v more, eq_iff own j, eq_iff own k, eq_iff k j)

  pub lookup-insert :
      (k j : String) (v : V) (m : List (String × V))
      → lookup j (insert k v m) ≡ (if str_eq k j then some v else lookup j m)
  unfolding lookup insert
  lookup-insert k j v [] = ground arith
  lookup-insert k j v ((own, value) ∷ more) =
      ground (arith, lookup-insert k j v more, eq_iff own j, eq_iff own k, eq_iff k j)

  -- A key is there exactly when a lookup finds it.
  pub has-lookup-none : (k : String) (m : List (String × V)) → lookup k m ≡ none → has k m ≡ false
  unfolding has lookup
  has-lookup-none k [] e = refl
  has-lookup-none k ((own, value) ∷ m) e = ground (arith, has-lookup-none k m)

  pub has-lookup-some :
      (k : String) (m : List (String × V)) {v : V} → lookup k m ≡ some v → has k m ≡ true
  unfolding has lookup
  has-lookup-some k [] e = cc
  has-lookup-some k ((own, value) ∷ m) {v} e = ground (arith, has-lookup-some k m {v = v})
