-- ===== src/Service/IntakeStore/Keys.antt =====
-- The keys of a draft are told apart by their dots: two in the registry's key, four in the key of a
-- draft, five in the key of a chunk.
use coffix.Prelude.{
  ℕ, ◌+◌, ◌/◌, ◌%◌, ◌<◌, ◌≡◌, ◌≢◌, refl, ap, true, ◌&&◌, Option, none, some, [], ◌∷◌, ◌++◌, Text,
  arith, ◌==◌, if◌then◌else◌, decimal, decimal-injective, Option-cases, Bool-cases, inl, inr, leb,
  All, IsDigit, decimal-IsDigit,
}
use coffix.Service.IntakeStore.{
  hex_digit, percent, encode_unit, encode_pair, map_option, encode_from, underscored, draft_key,
  key_for, chunk_key,
}

abbrev pub dots : Text → ℕ
dots [] = 0
dots (c ∷ s) = (if c == b'.' then 1 else 0) + dots s

pub dots-append : (s t : Text) → dots (s ++ t) ≡ dots s + dots t
dots-append [] t = omega arith
dots-append (c ∷ s) t = omega (arith, dots-append s t)

dots-hex_digit : (n : ℕ) (s : Text) → dots (hex_digit n ∷ s) ≡ dots s
dots-hex_digit n s = ground arith

dots-percent : (byte : ℕ) (s : Text) → dots (percent byte s) ≡ dots s
dots-percent byte s =
    omega
      (arith, dots-hex_digit (byte / 16) (hex_digit (byte % 16) ∷ s), dots-hex_digit (byte % 16) s)

dots-encode_unit :
    (c : ℕ) (s : Text) → dots (encode_unit c s) ≡ (if c == b'.' then 1 else 0) + dots s
dots-encode_unit c s = ground (
  arith,
  dots-percent c s,
  dots-percent (0xc0 + c / 64) (percent (0x80 + c % 64) s),
  dots-percent (0x80 + c % 64) s,
  dots-percent (0xe0 + c / 4096) (percent (0x80 + c / 64 % 64) (percent (0x80 + c % 64) s)),
  dots-percent (0x80 + c / 64 % 64) (percent (0x80 + c % 64) s),
)

dots-encode_pair : (high low : ℕ) (s : Text) → dots (encode_pair high low s) ≡ dots s
dots-encode_pair high low s = simp dots-percent

abbrev count_some : Option Text → ℕ
count_some none = 0
count_some (some t) = dots t

dots-map_option :
    (f : Text → Text) (k n : ℕ) (o : Option Text) (t : Text)
    → ((u : Text) → dots (f u) ≡ k + dots u)
    → ((u : Text) → o ≡ some u → dots u ≡ n)
    → map_option f o ≡ some t
    → dots t ≡ k + n
dots-map_option f k n none t grows counted e = cc
dots-map_option f k n (some u) t grows counted e =
    ground (arith, grows u, counted u refl, ap {B = ℕ} (λ (o : Option Text). count_some o) e)

high_above : (c : ℕ) → (leb 0xd800 c && leb c 0xdbff) ≡ true → b'.' < c
high_above c h = ground arith

none_ne : {t : Text} → none ≡ some t → ⊥
none_ne e = cc

dots-encode_from : (high : Option ℕ) (s t : Text) → encode_from high s ≡ some t → dots t ≡ dots s
unfolding encode_from
dots-encode_from none [] t e = ground arith
dots-encode_from (some high) [] t e = cc
dots-encode_from none (c ∷ s) t e = elim (Bool-cases (leb 0xd800 c && leb c 0xdbff)) [
  | inl high ↦
      let ih = dots-encode_from (some c) s t (rw high at e) in
      let plain : b'.' < c = high_above c high in ground (arith, ih)
  | inr low ↦ elim (Bool-cases (leb 0xdc00 c && leb c 0xdfff)) [
    | inl lone ↦ absurd (none_ne (rw (low, lone) at e))
    | inr other ↦
        dots-map_option (encode_unit c) (if c == b'.' then 1 else 0) (dots s) (encode_from none s) t
          (dots-encode_unit c) (dots-encode_from none s) (rw (low, other) at e)
  ]
]
dots-encode_from (some high) (c ∷ s) t e = ground (
  arith,
  dots-map_option (encode_pair high c) 0 (dots s) (encode_from none s) t
      (λ u. omega (arith, dots-encode_pair high c u)) (dots-encode_from none s),
)

dots-underscored : (s : Text) → dots (underscored s) ≡ dots s
dots-underscored [] = refl
dots-underscored (c ∷ s) = ground (arith, dots-underscored s)

dots-draft_key :
    (scope machine : Text) → dots (draft_key scope machine) ≡ dots scope + dots machine + 4
dots-draft_key scope machine = omega (
  arith,
  dots-append (underscored scope) (b'.' ∷ underscored machine),
  dots-underscored scope,
  dots-underscored machine,
)

-- Where neither the scope nor the machine has a dot, the key of the draft has four.
pub dots-key_for :
    (scope machine_id key : Text)
    → dots scope ≡ 0
    → dots machine_id ≡ 0
    → key_for scope machine_id ≡ some key
    → dots key ≡ 4
unfolding key_for
dots-key_for scope machine_id key p q e = elim (Option-cases (encode_from none scope)) [
  | inl bad ↦ absurd (ground (arith, bad))
  | inr (s, good) ↦
      let counted = dots-encode_from none scope s good in
      let whole =
        dots-map_option (draft_key s) (dots s + 4) (dots machine_id) (encode_from none machine_id)
          key (λ u. omega (arith, dots-draft_key s u)) (dots-encode_from none machine_id) in
      ground (arith, counted, whole)
]

dots-digits : (s : Text) → All IsDigit s → dots s ≡ 0
dots-digits [] h = refl
dots-digits (c ∷ s) h = ground (arith, dots-digits s h.1)

pub dots-chunk_key : (key : Text) (i : ℕ) → dots (chunk_key key i) ≡ dots key + 1
unfolding chunk_key
dots-chunk_key key i =
    omega (arith, dots-append key (b'.' ∷ decimal i), dots-digits (decimal i) (decimal-IsDigit i))

append-cancel_left : (s t u : Text) → s ++ t ≡ s ++ u → t ≡ u
append-cancel_left [] t u e = e
append-cancel_left (c ∷ s) t u e = append-cancel_left s t u (cc e)

-- The chunks of one draft have different keys.
pub chunk_key-injective : (key : Text) (i j : ℕ) → chunk_key key i ≡ chunk_key key j → i ≡ j
unfolding chunk_key
chunk_key-injective key i j e =
    decimal-injective i j (cc (append-cancel_left key (b'.' ∷ decimal i) (b'.' ∷ decimal j) e))

-- Keys with different dots differ.
pub ne_of_dots : (s t : Text) → dots s ≢ dots t → s ≢ t
ne_of_dots s t h e = h (ap dots e)
