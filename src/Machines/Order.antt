-- ===== src/Machines/Order.antt =====
-- The order of texts on ISO dates is that of the calendar.
use coffix.Prelude.{
  ℕ, suc, ◌+◌, ◌-◌, ◌*◌, ◌≤◌, ◌<◌, ◌≡◌, ◌↔◌, refl, ap, Bool, true, false, ◌&&◌, ◌||◌, List, [], ◌∷◌,
  Text, is_digit, ltb, ◌==◌, map, Bool-cases, inl, inr, arith,
}
use native.Mathlib.Nat.{mul-le-mul_right}
use coffix.Machines.{matches, is_dash, iso_date, text_gtb}

-- A pattern of digits (true) and dashes, and what a text says by its digits.
abbrev test_of : Bool → ℕ → Bool
test_of true = is_digit
test_of false = is_dash

abbrev weight : List Bool → ℕ
weight [] = 1
weight (true ∷ p) = 10 * weight p
weight (false ∷ p) = weight p

abbrev pub value : List Bool → Text → ℕ
value [] s = 0
value (b ∷ p) [] = 0
value (true ∷ p) (c ∷ s) = (c - 48) * weight p + value p s
value (false ∷ p) (c ∷ s) = value p s

value_bound : (p : List Bool) (s : Text) → matches (map test_of p) s ≡ true → value p s < weight p
unfolding is_digit
value_bound [] [] e = omega arith
value_bound [] (c ∷ s) e = cc
value_bound (b ∷ p) [] e = cc
value_bound (true ∷ p) (c ∷ s) e =
    let rest = value_bound p s (ground (arith, e)) in
    let digit : c ≤ 57 = ground (arith, e) in
    let at_most : c - 48 ≤ 9 = omega arith in omega (arith, mul-le-mul_right (weight p) at_most)
value_bound (false ∷ p) (c ∷ s) e = value_bound p s (ground (arith, e))

lead_order : (a b w x y : ℕ) → b < a → y < w → b * w + y < a * w + x
lead_order a b w x y lead bound =
    let step : suc b * w ≤ a * w = mul-le-mul_right w (omega arith) in omega (arith, step)

digit_order :
    (c d w x y : ℕ) (rest : Bool)
    → 48 ≤ c
    → 48 ≤ d
    → x < w
    → y < w
    → rest ≡ ltb y x
    → (ltb d c || (c == d && rest)) ≡ ltb ((d - 48) * w + y) ((c - 48) * w + x)
digit_order c d w x y rest hc hd hx hy e = elim (Bool-cases (ltb c d)) [
  | inl less ↦
      let below : c - 48 < d - 48 = ground (arith, less) in
      let order = lead_order (d - 48) (c - 48) w y x below hx in ground (arith, less, order)
  | inr not_less ↦ elim (Bool-cases (ltb d c)) [
    | inl more ↦
        let above : d - 48 < c - 48 = ground (arith, more) in
        let order = lead_order (c - 48) (d - 48) w x y above hy in ground (arith, more, order)
    | inr not_more ↦
        let same : c ≡ d = ground (arith, not_less, not_more) in
        let scaled : (c - 48) * w ≡ (d - 48) * w = ap (λ n. (n - 48) * w) same in
        ground (arith, e, same, scaled)
  ]
]

text_gtb-value :
    (p : List Bool) (s t : Text)
    → matches (map test_of p) s ≡ true
    → matches (map test_of p) t ≡ true
    → text_gtb s t ≡ ltb (value p t) (value p s)
unfolding text_gtb is_digit
text_gtb-value [] [] [] hs ht = refl
text_gtb-value [] [] (d ∷ t) hs ht = cc
text_gtb-value [] (c ∷ s) t hs ht = cc
text_gtb-value (b ∷ p) [] t hs ht = cc
text_gtb-value (b ∷ p) (c ∷ s) [] hs ht = cc
text_gtb-value (true ∷ p) (c ∷ s) (d ∷ t) hs ht =
    let ih = text_gtb-value p s t (ground (arith, hs)) (ground (arith, ht)) in
    digit_order c d (weight p) (value p s) (value p t) (text_gtb s t) (ground (arith, hs))
      (ground (arith, ht)) (value_bound p s (ground (arith, hs)))
      (value_bound p t (ground (arith, ht))) ih
text_gtb-value (false ∷ p) (c ∷ s) (d ∷ t) hs ht =
    let ih = text_gtb-value p s t (ground (arith, hs)) (ground (arith, ht)) in
    ground (arith, hs, ht, ih)

-- The date of an ISO text, as the number that its digits write.
abbrev pub date_number : Text → ℕ
date_number date =
    value (true ∷ true ∷ true ∷ true ∷ false ∷ true ∷ true ∷ false ∷ true ∷ true ∷ []) date

-- Of two texts that are written as ISO dates, one is after the other, by code units, exactly when its
-- year, month and day make the larger number.
pub text_gtb_iff :
    (date today : Text)
    → matches iso_date date ≡ true
    → matches iso_date today ≡ true
    → (text_gtb date today ≡ false) ↔ (date_number date ≤ date_number today)
text_gtb_iff date today hd ht =
    let order =
      text_gtb-value (true ∷ true ∷ true ∷ true ∷ false ∷ true ∷ true ∷ false ∷ true ∷ true ∷ [])
        date today hd ht in
    (λ e. ground (arith, order, e), λ h. ground (arith, order, h))
