-- ===== src/Checkout/Laws.antt =====
-- Which address the page of the delivery selects.
use coffix.Prelude.{
  ◌≡◌, ◌⊎◌, inl, inr, refl, ap, Bool, true, ◌||◌, Option, none, some, List, [], ◌∷◌, Text,
  text_eq_iff, is_empty, find, first, or_option, if_ind, arith,
}
use coffix.Checkout.{Address, is_listed, id_or_empty, selected_address_id}

-- No address, or one of the list.
abbrev IsFrom : List Address → Option Address → Type 0
IsFrom addresses none = Unit
IsFrom addresses (some address) = is_listed address.id addresses ≡ true

IsFrom-cons :
    (address : Address) (addresses : List Address) (found : Option Address)
    → IsFrom addresses found
    → IsFrom (address ∷ addresses) found
IsFrom-cons address addresses none h = tt
IsFrom-cons address addresses (some other) h = ground (arith, h)

pub is_listed-head :
    (address : Address) (addresses : List Address)
    → is_listed address.id (address ∷ addresses) ≡ true
is_listed-head address addresses =
    ap (λ b. b || is_listed address.id addresses) ((text_eq_iff address.id address.id).1 refl)

find-IsFrom :
    (test : Address → Bool) (addresses : List Address) → IsFrom addresses (find test addresses)
find-IsFrom test [] = tt
find-IsFrom test (address ∷ addresses) =
    if_ind (IsFrom (address ∷ addresses)) (test address) _ _ (λ e. is_listed-head address addresses)
      (λ e. IsFrom-cons address addresses (find test addresses) (find-IsFrom test addresses))

first-IsFrom : (addresses : List Address) → IsFrom addresses (first addresses)
first-IsFrom [] = tt
first-IsFrom (address ∷ addresses) = is_listed-head address addresses

or_option-IsFrom :
    (addresses : List Address) (a b : Option Address)
    → IsFrom addresses a
    → IsFrom addresses b
    → IsFrom addresses (or_option a b)
or_option-IsFrom addresses none b ha hb = hb
or_option-IsFrom addresses (some a) b ha hb = ha

id_or_empty-listed :
    (addresses : List Address) (found : Option Address)
    → IsFrom addresses found
    → (is_empty (id_or_empty found) ≡ true) ⊎ (is_listed (id_or_empty found) addresses ≡ true)
id_or_empty-listed addresses none h = inl refl
id_or_empty-listed addresses (some address) h = inr h

-- The selected address is one of the shown ones, unless the selection is empty.
pub selected_address_id-listed :
    (addresses : List Address) (chosen : Text)
    → (is_empty (selected_address_id addresses chosen) ≡ true)
      ⊎ (is_listed (selected_address_id addresses chosen) addresses ≡ true)
unfolding selected_address_id
selected_address_id-listed addresses chosen =
    if_ind (λ id. (is_empty id ≡ true) ⊎ (is_listed id addresses ≡ true))
      (is_listed chosen addresses) _ _ (λ e. inr e)
      (λ e. id_or_empty-listed addresses _ (
        or_option-IsFrom addresses _ _ (find-IsFrom (λ address. address.is_default) addresses)
          (first-IsFrom addresses)))
