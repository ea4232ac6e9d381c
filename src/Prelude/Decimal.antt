-- ===== src/Prelude/Decimal.antt =====
-- `String(n)` and `Number(s)` for whole numbers: decimal digits, the least significant last.
use Prim.Native.Nat.{ℕ, zero, suc, ◌+◌, ◌-◌, ◌*◌, ◌/◌, ◌%◌, ◌<◌}
use mathlib.Core.Path.{◌≡◌, refl, ap, sym, ◌∙◌}
use mathlib.Core.Bool.{◌&&◌}
use mathlib.Core.Logic.{◌≢◌, inl, inr}
use mathlib.Core.Option.{Option, none, some}
use mathlib.Core.List.{[], ◌∷◌, ◌++◌}
use Prim.Native.Nat.{◌≤◌}
use native.Mathlib.Omega.{arith}
use coffix.Prelude.Tests.{ltb, leb, if◌then◌else◌, Bool-cases}
use coffix.Prelude.Lists.{All, All-append}
use coffix.Prelude.Strings.{Text}

-- One digit for each unit of fuel; `n + 1` units are enough for `n`.
decimal_fuel : ℕ → ℕ → Text
decimal_fuel zero n = []
decimal_fuel (suc f) n =
    let more = decimal_fuel f (n / 10) ++ (b'0' + n % 10) ∷ [] in
    if ltb n 10 then (b'0' + n) ∷ [] else more

unfoldable pub decimal : ℕ → Text
unfolding decimal_fuel
decimal n = decimal_fuel (suc n) n

parse_from : ℕ → Text → Option ℕ
parse_from n [] = some n
parse_from n (c ∷ s) =
    let rest = parse_from (n * 10 + (c - b'0')) s in if leb b'0' c && leb c b'9' then rest else none

-- `Number(s)` on a text of digits; any other text gives `none` (the store holds no such count).
unfoldable pub number : Text → Option ℕ
unfolding parse_from
number [] = none
number (c ∷ s) = parse_from 0 (c ∷ s)

parse_from-append :
    (n : ℕ) (s : Text) (m d : ℕ)
    → d < 10
    → parse_from n s ≡ some m
    → parse_from n (s ++ (b'0' + d) ∷ []) ≡ some (m * 10 + d)
unfolding parse_from
parse_from-append n [] m d h e = ground arith
parse_from-append n (c ∷ s) m d h e =
    ground (arith, parse_from-append (n * 10 + (c - b'0')) s m d h)

parse_from-decimal_fuel : (f n : ℕ) → n < f → parse_from 0 (decimal_fuel f n) ≡ some n
unfolding decimal_fuel parse_from
parse_from-decimal_fuel zero n h = elim h [ ]
parse_from-decimal_fuel (suc f) n h = elim (Bool-cases (ltb n 10)) [
  | inl small ↦ rw small (ground arith)
  | inr large ↦ rw large (
      parse_from-append 0 (decimal_fuel f (n / 10)) (n / 10) (n % 10) (omega arith)
        (parse_from-decimal_fuel f (n / 10) (ground arith))
      ∙ ap (λ (k : ℕ). some k) (omega arith))
]

concat-ne-nil : (s : Text) (c : ℕ) → s ++ c ∷ [] ≢ []
concat-ne-nil [] c e = cc
concat-ne-nil (d ∷ s) c e = cc

decimal_fuel-ne-nil : (f n : ℕ) → decimal_fuel (suc f) n ≢ []
unfolding decimal_fuel
decimal_fuel-ne-nil f n = ground (arith, concat-ne-nil (decimal_fuel f (n / 10)) (b'0' + n % 10))

number-eq-parse_from : (s : Text) (n : ℕ) → s ≢ [] → parse_from 0 s ≡ some n → number s ≡ some n
unfolding number
number-eq-parse_from [] n h e = absurd (h refl)
number-eq-parse_from (c ∷ s) n h e = e

-- Printing a count and reading it back.
pub number-decimal : (n : ℕ) → number (decimal n) ≡ some n
unfolding decimal
number-decimal n =
    number-eq-parse_from _ n (decimal_fuel-ne-nil n n)
      (parse_from-decimal_fuel (suc n) n (omega arith))

pub decimal-injective : (m n : ℕ) → decimal m ≡ decimal n → m ≡ n
decimal-injective m n e =
    let p : some m ≡ some n = sym (number-decimal m) ∙ ap number e ∙ number-decimal n in
    ground arith

-- `s.padStart(2, '0')`
abbrev pub pad_two : Text → Text
pad_two [] = b'0' ∷ b'0' ∷ []
pad_two (c ∷ []) = b'0' ∷ c ∷ []
pad_two (c ∷ d ∷ s) = c ∷ d ∷ s

one_digit : (f n : ℕ) → n < 10 → decimal_fuel (suc f) n ≡ (b'0' + n) ∷ []
unfolding decimal_fuel
one_digit f n h = ground arith

two_digits : (n : ℕ) → n < 100 → pad_two (decimal n) ≡ (b'0' + n / 10) ∷ (b'0' + n % 10) ∷ []
unfolding decimal decimal_fuel
two_digits zero h = ground arith
two_digits (suc n) h = elim (Bool-cases (ltb (suc n) 10)) [
  | inl small ↦ rw small (ground arith)
  | inr large ↦ rw (large, one_digit n (suc n / 10) (omega arith))
]

-- Below 100 the padded text has two digits, which read as the number.
pub pad_two-decimal :
    (n : ℕ)
    → n < 100
    → (pad_two (decimal n) ≡ (b'0' + n / 10) ∷ (b'0' + n % 10) ∷ [])
      × (number (pad_two (decimal n)) ≡ some n)
unfolding number
pad_two-decimal n h = (two_digits n h, rw (two_digits n h) (ground arith))

abbrev pub IsDigit : ℕ → Type 0
IsDigit c = (48 ≤ c) × (c ≤ 57)

decimal_fuel-IsDigit : (f n : ℕ) → All IsDigit (decimal_fuel f n)
unfolding decimal_fuel
decimal_fuel-IsDigit zero n = tt
decimal_fuel-IsDigit (suc f) n =
    let rest =
      All-append IsDigit (decimal_fuel f (n / 10)) ((b'0' + n % 10) ∷ [])
        (decimal_fuel-IsDigit f (n / 10)) (omega arith) in
    elim (Bool-cases (ltb n 10)) [ inl small ↦ rw small (ground arith) | inr large ↦ rw large rest ]

pub decimal-IsDigit : (n : ℕ) → All IsDigit (decimal n)
unfolding decimal
decimal-IsDigit n = decimal_fuel-IsDigit (suc n) n
