-- ===== src/Phone/Laws.antt =====
-- The form of a normalized number.
use coffix.Prelude.{
  ◌≡◌, refl, sym, true, none, some, [], ◌∷◌, ◌++◌, Text, codes, is_digit, filter, all, length, drop,
  ◌==◌, arith, Bool-cases, inl, inr, subst,
}
use coffix.Phone.{digits_of, is_local, is_international, normalize_israeli_phone}

-- The mobile numbers in the international form.
pub data IsMobile (phone : Text) : Type 0 where
  mobile :
      (rest : Text)
      → all is_digit rest ≡ true
      → length rest ≡ 8
      → phone ≡ codes "+9725" ++ rest
      → IsMobile phone

filter-all : (s : Text) → all is_digit s ≡ true → filter is_digit s ≡ s
filter-all [] h = refl
filter-all (c ∷ s) h = ground (arith, filter-all s)

local-IsMobile : (s : Text) → is_local s ≡ true → IsMobile (codes "+972" ++ drop 1 s)
unfolding is_local
local-IsMobile [] h = cc
local-IsMobile (a ∷ []) h = cc
local-IsMobile (a ∷ b ∷ rest) h =
    mobile rest (ground (arith, h)) (ground (arith, h)) (ground (arith, h))

international-IsMobile : (s : Text) → is_international s ≡ true → IsMobile (b'+' ∷ s)
unfolding is_international
international-IsMobile [] h = cc
international-IsMobile (a ∷ []) h = cc
international-IsMobile (a ∷ b ∷ []) h = cc
international-IsMobile (a ∷ b ∷ c ∷ []) h = cc
international-IsMobile (a ∷ b ∷ c ∷ d ∷ rest) h =
    mobile rest (ground (arith, h)) (ground (arith, h)) (ground (arith, h))

none_ne : {s : Text} → none ≡ some s → ⊥
none_ne e = cc

some_injective : {s t : Text} → some s ≡ some t → s ≡ t
some_injective e = cc

-- Whatever was typed, a normalized number is +9725 and eight digits.
pub normalize_israeli_phone-IsMobile :
    (value phone : Text) → normalize_israeli_phone value ≡ some phone → IsMobile phone
unfolding normalize_israeli_phone
normalize_israeli_phone-IsMobile value phone e = elim (Bool-cases (is_local (digits_of value))) [
  | inl good ↦
      subst IsMobile (some_injective (rw good at e)) (local-IsMobile (digits_of value) good)
  | inr bad ↦ elim (Bool-cases (is_international (digits_of value))) [
    | inl good ↦
        subst IsMobile (some_injective (rw (bad, good) at e))
          (international-IsMobile (digits_of value) good)
    | inr never ↦ absurd (none_ne (rw (bad, never) at e))
  ]
]

mobile-normalized :
    (rest : Text)
    → all is_digit rest ≡ true
    → length rest ≡ 8
    → normalize_israeli_phone (codes "+9725" ++ rest) ≡ some (codes "+9725" ++ rest)
unfolding normalize_israeli_phone is_international is_local is_digit
mobile-normalized rest digits eight = rw (filter-all rest digits, digits, eight)

-- A normalized number is normalized to itself.
pub normalize_israeli_phone_idempotent :
    (value phone : Text)
    → normalize_israeli_phone value ≡ some phone
    → normalize_israeli_phone phone ≡ some phone
normalize_israeli_phone_idempotent value phone e =
    again phone (normalize_israeli_phone-IsMobile value phone e)
  where
    again : (p : Text) → IsMobile p → normalize_israeli_phone p ≡ some p
    again p (mobile rest digits eight at) =
        subst (λ q. normalize_israeli_phone q ≡ some q) (sym at)
          (mobile-normalized rest digits eight)

-- A local number is normalized, to its digits after the first.
pub local-normalized :
    (phone : Text)
    → is_local phone ≡ true
    → normalize_israeli_phone phone ≡ some (codes "+972" ++ drop 1 phone)
unfolding normalize_israeli_phone is_local is_digit
local-normalized [] h = cc
local-normalized (a ∷ []) h = cc
local-normalized (a ∷ b ∷ rest) h =
    let rest_digits : all is_digit rest ≡ true = ground (arith, h) in
    let first : (a ≡ 48) × (b ≡ 53) = ground (arith, h) in
    let eight : (length rest == 8) ≡ true = ground (arith, h) in
    rw (first.0, first.1, filter-all rest rest_digits, rest_digits, eight)
