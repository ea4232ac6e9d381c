-- ===== src/Service/IntakeStore/Invariant.antt =====
-- Every item of the device is the registry, the count of a registered draft, or a chunk below such
-- a count, so that whatever a partial write left behind can be found again.
use coffix.Prelude.{
  ℕ, ◌≤◌, ◌<◌, ◌≡◌, ◌≢◌, refl, sym, ap, ◌∙◌, ◌⊎◌, inl, inr, true, false, not, ◌||◌, none, some,
  List, [], ◌∷◌, ◌++◌, Text, text_eq, text_eq_iff, codes, arith, or_else, filter, if◌then◌else◌,
  All, Bool-cases,
}
use mathlib.Core.Path.{subst}
use native.Mathlib.Decide.{dec_lt}
use coffix.Storage.{Items, put, delete}
use coffix.Service.IntakeStore.{registry_key, chunk_key, count_of, Drafts, includes}
use coffix.Service.IntakeStore.Keys.{dots, dots-chunk_key}

abbrev pub IsKey : Text → Type 0
IsKey key = dots key ≡ 4

-- `j` is the key of an item that the registered keys account for.
pub data Covered (keys : List Text) (s : Items) (j : Text) : Type 0 where
  is_registry : j ≡ registry_key → Covered keys s j
  is_count : includes keys j ≡ true → Covered keys s j
  is_chunk :
      (key : Text) (i : ℕ)
      → includes keys key ≡ true
      → j ≡ chunk_key key i
      → i < count_of (s key)
      → Covered keys s j

pub put_ne : (key value j : Text) (s : Items) → key ≢ j → put key value s j ≡ s j
put_ne key value j s h = ground (arith, text_eq_iff key j)

pub put_self : (key value : Text) (s : Items) → put key value s key ≡ some value
put_self key value s = rw ((text_eq_iff key key).1 refl)

pub delete_ne : (key j : Text) (s : Items) → key ≢ j → delete key s j ≡ s j
delete_ne key j s h = ground (arith, text_eq_iff key j)

-- What is there after a deletion was there before, and is another key's.
pub delete-present : (key j : Text) (s : Items) → delete key s j ≢ none → (key ≢ j) × (s j ≢ none)
delete-present key j s h = elim (Bool-cases (text_eq key j)) [
  | inl same ↦ absurd (h (rw same))
  | inr other ↦ (
    λ e. ground (arith, (text_eq_iff key j).1 e),
    subst (λ b. (if b then none else s j) ≢ none) other h,
  )
]

put-present :
    (key value j : Text) (s : Items)
    → put key value s j ≢ none
    → (key ≡ j) ⊎ ((key ≢ j) × (s j ≢ none))
put-present key value j s h = elim (Bool-cases (text_eq key j)) [
  | inl same ↦ inl ((text_eq_iff key j).0 same)
  | inr other ↦ inr (
    λ e. ground (arith, (text_eq_iff key j).1 e),
    subst (λ b. (if b then some value else s j) ≢ none) other h,
  )
]

pub includes-IsKey :
    (keys : List Text) (key : Text) → All IsKey keys → includes keys key ≡ true → IsKey key
includes-IsKey [] key h e = cc
includes-IsKey (other ∷ keys) key h e = elim (Bool-cases (text_eq other key)) [
  | inl same ↦ subst IsKey ((text_eq_iff other key).0 same) h.0
  | inr differs ↦ includes-IsKey keys key h.1 (rw differs at e)
]

Covered-change :
    (keys : List Text) (s t : Items) (j : Text)
    → ((key : Text) → includes keys key ≡ true → count_of (s key) ≤ count_of (t key))
    → Covered keys s j
    → Covered keys t j
Covered-change keys s t j grows (is_registry e) = is_registry e
Covered-change keys s t j grows (is_count e) = is_count e
Covered-change keys s t j grows (is_chunk key i e p h) =
    is_chunk key i e p (omega (arith, grows key e))

false_ne : false ≡ true → ⊥
false_ne e = cc

le_of_same : (m n : ℕ) → m ≡ n → m ≤ n
le_of_same m n e = omega arith

module _ (keys : List Text) (s : Items) (key : Text) (t : Items)
    (same : (j : Text) → key ≢ j → t j ≡ s j)
    (fits : (i : ℕ)
      → count_of (t key) ≤ i
      → i < count_of (s key)
      → s (chunk_key key i) ≡ none) where
  recount_chunk :
      (j other : Text) (i : ℕ)
      → s j ≢ none
      → includes keys other ≡ true
      → j ≡ chunk_key other i
      → i < count_of (s other)
      → key ≡ other
      → Covered keys t j
  recount_chunk j other i was c at below e = elim (dec_lt i (count_of (t other))) [
    | yes fit ↦ is_chunk other i c at fit
    | no out ↦
        let at' : j ≡ chunk_key key i = rw e at in
        let out' : count_of (t key) ≤ i = rw e (omega arith) in
        let below' : i < count_of (s key) = rw e below in
        absurd (was (ap s at' ∙ fits i out' below'))
  ]

  recount : (j : Text) → s j ≢ none → Covered keys s j → Covered keys t j
  recount j was (is_registry r) = is_registry r
  recount j was (is_count c) = is_count c
  recount j was (is_chunk other i c at below) = elim (Bool-cases (text_eq key other)) [
    | inl e ↦ recount_chunk j other i was c at below ((text_eq_iff key other).0 e)
    | inr differs ↦ is_chunk other i c at (
        subst (λ o. i < count_of o)
          (sym (same other (λ eq. false_ne (sym differs ∙ (text_eq_iff key other).1 eq)))) below)
  ]

module _ {Draft : Type 0} (J : Drafts Draft) where
  pub record IsTracked (keys : List Text) (s : Items) : Type 0 where
    pub listed : J.parse_keys (or_else (s registry_key) (codes "[]")) ≡ some keys
    pub are_keys : All IsKey keys
    pub covered : (j : Text) → s j ≢ none → Covered keys s j

  -- Some list of keys accounts for every item.
  abbrev pub Tracked : Items → Type 0
  Tracked s = (keys : List Text) × IsTracked keys s

  module _ (keys : List Text) (s : Items) (h : IsTracked keys s) where
    -- A chunk may go at any time.
    pub delete_chunk-IsTracked : (x : Text) → dots x ≡ 5 → IsTracked keys (delete x s)
    delete_chunk-IsTracked x five = record {
      listed = rw (delete_ne x registry_key s (λ e. omega (arith, ap dots e, five))) h.listed;
      are_keys = h.are_keys;
      covered = λ j here.
          Covered-change keys s (delete x s) j (λ key e. kept key e)
            (h.covered j (delete-present x j s here).1);
    }
      where
        kept :
            (key : Text) → includes keys key ≡ true → count_of (s key) ≤ count_of (delete x s key)
        kept key e =
            rw
              (delete_ne x key s
                (λ same. omega (arith, ap dots same, five, includes-IsKey keys key h.are_keys e)))
              (omega arith)

    -- A chunk below the count may be written.
    pub put_chunk-IsTracked :
        (key value : Text) (i : ℕ)
        → includes keys key ≡ true
        → i < count_of (s key)
        → IsTracked keys (put (chunk_key key i) value s)
    put_chunk-IsTracked key value i e p =
        let five : dots (chunk_key key i) ≡ 5 =
          omega (arith, dots-chunk_key key i, includes-IsKey keys key h.are_keys e) in
        let kept = λ (other : Text) (m : includes keys other ≡ true).
          put_ne (chunk_key key i) value other s
            (λ same. omega (arith, ap dots same, five, includes-IsKey keys other h.are_keys m)) in
        let grows = λ (other : Text) (m : includes keys other ≡ true).
          le_of_same (count_of (s other)) (count_of (put (chunk_key key i) value s other))
            (ap count_of (sym (kept other m))) in
        record {
          listed =
              rw
                (put_ne (chunk_key key i) value registry_key s
                  (λ same. omega (arith, ap dots same, five)))
                h.listed;
          are_keys = h.are_keys;
          covered = λ j here. elim (put-present (chunk_key key i) value j s here) [
            | inl same ↦ is_chunk key i e (sym same) (omega (arith, grows key e))
            | inr (ne, was) ↦
                Covered-change keys s (put (chunk_key key i) value s) j grows (h.covered j was)
          ];
        }

    -- The count of a registered key may change, as long as no chunk is left out.
    pub change_count-IsTracked :
        (key : Text) (t : Items)
        → includes keys key ≡ true
        → ((j : Text) → key ≢ j → t j ≡ s j)
        → ((i : ℕ) → count_of (t key) ≤ i → i < count_of (s key) → s (chunk_key key i) ≡ none)
        → IsTracked keys t
    change_count-IsTracked key t e same fits = record {
      listed =
          rw
            (same registry_key
              (λ eq. omega (arith, ap dots eq, includes-IsKey keys key h.are_keys e)))
            h.listed;
      are_keys = h.are_keys;
      covered = λ j here. elim (Bool-cases (text_eq key j)) [
        | inl is_key ↦
            is_count (subst (λ k. includes keys k ≡ true) ((text_eq_iff key j).0 is_key) e)
        | inr other ↦
            let ne : key ≢ j = λ eq. false_ne (sym other ∙ (text_eq_iff key j).1 eq) in
            let was : s j ≢ none = subst (λ o. o ≢ none) (same j ne) here in
            recount keys s key t same fits j was (h.covered j was)
      ];
    }

    -- The registry may be replaced by one whose keys still account for every item.
    pub change_registry-IsTracked :
        (value : Text) (keys' : List Text)
        → J.parse_keys value ≡ some keys'
        → All IsKey keys'
        → ((j : Text) → s j ≢ none → Covered keys s j → Covered keys' s j)
        → IsTracked keys' (put registry_key value s)
    change_registry-IsTracked value keys' parsed are_keys cover =
        let grows = λ (other : Text) (m : includes keys' other ≡ true).
          le_of_same (count_of (s other)) (count_of (put registry_key value s other)) (
            ap count_of (
              sym (
                put_ne registry_key value other s
                  (λ same. omega (arith, ap dots same, includes-IsKey keys' other are_keys m))))) in
        record {
          listed = rw (put_self registry_key value s) parsed;
          are_keys = are_keys;
          covered = λ j here. elim (put-present registry_key value j s here) [
            | inl same ↦ is_registry (sym same)
            | inr (ne, was) ↦
                Covered-change keys' s (put registry_key value s) j grows
                  (cover j was (h.covered j was))
          ];
        }

includes-append :
    (keys : List Text) (x key : Text)
    → includes (keys ++ x ∷ []) key ≡ (includes keys key || text_eq x key)
includes-append [] x key = ground arith
includes-append (other ∷ keys) x key = ground (arith, includes-append keys x key)

pub includes-concat_self : (keys : List Text) (x : Text) → includes (keys ++ x ∷ []) x ≡ true
includes-concat_self keys x = ground (arith, includes-append keys x x, text_eq_iff x x)

pub Covered-concat :
    (keys : List Text) (x : Text) (s : Items) (j : Text)
    → Covered keys s j
    → Covered (keys ++ x ∷ []) s j
Covered-concat keys x s j (is_registry e) = is_registry e
Covered-concat keys x s j (is_count e) = is_count (ground (arith, includes-append keys x j))
Covered-concat keys x s j (is_chunk key i e at below) =
    is_chunk key i (ground (arith, includes-append keys x key)) at below

abbrev pub without : Text → List Text → List Text
without key keys = filter (λ item. not (text_eq item key)) keys

includes-without :
    (key : Text) (keys : List Text) (other : Text)
    → includes keys other ≡ true
    → (key ≡ other) ⊎ (includes (without key keys) other ≡ true)
includes-without key [] other e = cc
includes-without key (item ∷ keys) other e =
    ground (arith, text_eq_iff item other, text_eq_iff item key, includes-without key keys other)

pub All-without : (key : Text) (keys : List Text) → All IsKey keys → All IsKey (without key keys)
All-without key [] h = tt
All-without key (item ∷ keys) h = ground (arith, All-without key keys h.1)

-- A key with no count accounts for nothing but itself.
pub Covered-without :
    (key : Text) (keys : List Text) (s : Items) (j : Text)
    → s key ≡ none
    → s j ≢ none
    → Covered keys s j
    → Covered (without key keys) s j
Covered-without key keys s j gone here (is_registry e) = is_registry e
Covered-without key keys s j gone here (is_count e) = elim (includes-without key keys j e) [
  | inl same ↦ absurd (here (subst (λ k. s k ≡ none) same gone))
  | inr stays ↦ is_count stays
]
Covered-without key keys s j gone here (is_chunk other i e at below) =
    elim (includes-without key keys other e) [
      | inl same ↦
          let empty : s other ≡ none = subst (λ k. s k ≡ none) same gone in
          absurd (omega (arith, below, ap count_of empty))
      | inr stays ↦ is_chunk other i stays at below
    ]
