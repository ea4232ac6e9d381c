-- ===== src/Service/IntakeStore/Logout.antt =====
-- Clearing one draft, and clearing all at logout after any operations before.
use coffix.Prelude.{
  ◌≡◌, ◌≢◌, sym, ap, ◌∙◌, fun_ext, true, false, none, some, List, [], ◌∷◌, Text, text_eq,
  text_eq_iff, arith, All, Option-cases, Bool-cases, inl, inr,
}
use mathlib.Core.Path.{subst}
use coffix.Storage.{SecureStore, SecureStoreLaws, Items, delete, ◌>>=◌, Post}
use coffix.Storage.Rules
use coffix.Storage.Rules.{Runs, Keeps}
use coffix.Service.IntakeStore.{
  registry_key, count_of, Drafts, DraftsLaws, includes, delete_chunks, remove, clear_key, clear_all,
}
use coffix.Service.IntakeStore.Keys.{dots, dots-chunk_key}
use coffix.Service.IntakeStore.Invariant.{
  IsKey, Covered, is_registry, is_count, is_chunk, delete-present, IsTracked, Tracked, without,
  change_registry-IsTracked, includes-IsKey, All-without, Covered-without, put_ne,
}
use coffix.Service.IntakeStore.Removal.{Gone, registry-Runs, remove-Runs, remove_all-Runs}

abbrev pub Erased : Items → Type 0
Erased s = (j : Text) → s j ≡ none

All-includes_self :
    (keys more : List Text)
    → All (λ k. includes more k ≡ true) keys
    → (j : Text) → All (λ k. includes (j ∷ more) k ≡ true) keys
All-includes_self [] more h j = tt
All-includes_self (key ∷ keys) more h j = (ground (arith, h.0), All-includes_self keys more h.1 j)

includes-All : (keys : List Text) → All (λ k. includes keys k ≡ true) keys
includes-All [] = tt
includes-All (key ∷ keys) =
    (ground (arith, text_eq_iff key key), All-includes_self keys keys (includes-All keys) key)

All-Gone_at :
    (keys : List Text) (s : Items) (j : Text)
    → All (λ k. Gone k s) keys
    → includes keys j ≡ true
    → Gone j s
All-Gone_at [] s j h e = cc
All-Gone_at (key ∷ keys) s j h e = elim (Bool-cases (text_eq key j)) [
  | inl same ↦ subst (λ k. Gone k s) ((text_eq_iff key j).0 same) h.0
  | inr other ↦ All-Gone_at keys s j h.1 (rw other at e)
]

-- With every registered key gone nothing but the registry is left.
only_registry :
    (keys : List Text) (s : Items) (j : Text)
    → All (λ k. Gone k s) keys
    → s j ≢ none
    → Covered keys s j
    → j ≡ registry_key
only_registry keys s j gone here (is_registry e) = e
only_registry keys s j gone here (is_count e) = absurd (here (All-Gone_at keys s j gone e))
only_registry keys s j gone here (is_chunk key i e at below) =
    absurd (omega (arith, below, ap count_of (All-Gone_at keys s key gone e)))

some_ne : {v : Text} → some v ≡ none → ⊥
some_ne e = cc

delete_registry-Erased :
    (keys : List Text) (s : Items)
    → All (λ k. Gone k s) keys
    → ((j : Text) → s j ≢ none → Covered keys s j)
    → Erased (delete registry_key s)
delete_registry-Erased keys s gone cover j = elim (Option-cases (delete registry_key s j)) [
  | inl missing ↦ missing
  | inr (v, found) ↦
      let here : delete registry_key s j ≢ none = λ e. some_ne (sym found ∙ e) in
      let (ne, was) = delete-present registry_key j s here in
      absurd (ne (sym (only_registry keys s j gone was (cover j was))))
]

uncovered :
    (keys : List Text) (key : Text) (s : Items)
    → IsKey key
    → includes keys key ≡ false
    → Covered keys s key
    → All IsKey keys
    → ⊥
uncovered keys key s four new (is_registry e) all = omega (arith, ap dots e, four)
uncovered keys key s four new (is_count e) all = cc
uncovered keys key s four new (is_chunk other i e at below) all =
    omega (arith, ap dots at, dots-chunk_key other i, four, includes-IsKey keys other all e)

delete-absent : (key : Text) (s : Items) → Gone key s → delete key s ≡ s
delete-absent key s gone = fun_ext λ j. elim (Bool-cases (text_eq key j)) [
  | inl same ↦ rw same (sym (subst (λ k. s k ≡ none) ((text_eq_iff key j).0 same) gone))
  | inr other ↦ rw other
]

module _ {S : SecureStore} (laws : SecureStoreLaws S) {Draft : Type 0} (J : Drafts Draft) where
  clear_all-Runs_at :
      (keys : List Text) → Runs laws (IsTracked J keys) (clear_all S J) (λ _. Erased) (Tracked J)
  unfolding clear_all
  clear_all-Runs_at keys =
      Rules.bind laws (λ found s. (found ≡ keys) × IsTracked J keys s × Unit {0})
        (Rules.consequence laws (registry-Runs laws J keys (λ s. Unit {0})) (λ s h. (h, tt))
          (λ a s q. q) (λ s q. q))
        λ found.
          Rules.bind laws
            (λ _ s. IsTracked J found s × All (λ k. Gone k s) found × All (λ k. Gone k s) [])
            (Rules.consequence laws (remove_all-Runs laws J found found [] (includes-All found))
              (λ s p. (subst (λ k. IsTracked J k s) (sym p.0) p.1, tt)) (λ a s q. q) (λ s q. q))
            λ _.
              Rules.delete_item-Runs laws registry_key
                (λ s q. delete_registry-Erased found s q.1 q.0.covered) (λ s q. (found, q.0))

  -- From tracked items, `clearAll` ends with nothing in the store; rejected anywhere, it leaves
  -- tracked items.
  pub clear_all-Runs : Runs laws (Tracked J) (clear_all S J) (λ _. Erased) (Tracked J)
  clear_all-Runs = record { at = λ d p. (clear_all-Runs_at p.0).at d p.1 }

  -- A key that no draft has taken has no items.
  unregistered-Gone :
      (keys : List Text) (key : Text) (s : Items)
      → IsKey key
      → includes keys key ≡ false
      → IsTracked J keys s
      → Gone key s
  unregistered-Gone keys key s four new h = elim (Option-cases (s key)) [
    | inl missing ↦ missing
    | inr (v, found) ↦
        absurd
          (uncovered keys key s four new (h.covered key (λ e. some_ne (sym found ∙ e))) h.are_keys)
  ]

  remove-Runs_unregistered :
      (keys : List Text) (key : Text)
      → IsKey key
      → includes keys key ≡ false
      → Runs laws
          (IsTracked J keys)
          (remove S J key)
          (λ _ s. IsTracked J keys s × Gone key s)
          (Tracked J)
  unfolding remove delete_chunks
  remove-Runs_unregistered keys key four new =
      Rules.bind laws (λ stored s. (stored ≡ none) × IsTracked J keys s × Gone key s)
        (Rules.get_item-Runs laws key
          (λ s h. let gone = unregistered-Gone keys key s four new h in (gone, h, gone))
          (λ s h. (keys, h)))
        λ stored. record {
          at = λ d p.
              subst
                (λ o.
                  Post laws.items laws.grants (λ _ s. IsTracked J keys s × Gone key s) (Tracked J)
                    (laws.grants d)
                    ((delete_chunks S J key 0 (count_of o) >>= λ _. S.delete_item key) d))
                (sym p.0)
                ((Rules.delete_item-Runs laws {P = λ s. IsTracked J keys s × Gone key s}
                    {E = Tracked J} {Q = λ s. IsTracked J keys s × Gone key s} key
                    (λ s q.
                      subst (λ t. IsTracked J keys t × Gone key t) (sym (delete-absent key s q.1))
                        q)
                    (λ s q. (keys, q.0))).at
                  d (p.1, p.2));
        }

  remove-Runs_any :
      (keys : List Text) (key : Text)
      → IsKey key
      → Runs laws
          (IsTracked J keys)
          (remove S J key)
          (λ _ s. IsTracked J keys s × Gone key s)
          (Tracked J)
  remove-Runs_any keys key four = elim (Bool-cases (includes keys key)) [
    | inl known ↦
        Rules.consequence laws (remove-Runs laws J keys key [] known) (λ s h. (h, tt))
          (λ a s q. (q.0, q.1)) (λ s q. q)
    | inr new ↦ remove-Runs_unregistered keys key four new
  ]

  clear_key-Runs_at :
      (json_laws : DraftsLaws J) (keys : List Text) (key : Text)
      → IsKey key
      → Runs laws
          (IsTracked J keys)
          (clear_key S J key)
          (λ _ s. Tracked J s × Gone key s)
          (Tracked J)
  unfolding clear_key
  clear_key-Runs_at json_laws keys key four =
      Rules.bind laws (λ _ s. IsTracked J keys s × Gone key s) (remove-Runs_any keys key four)
        λ _.
          Rules.bind laws (λ found s. (found ≡ keys) × IsTracked J keys s × Gone key s)
            (registry-Runs laws J keys (Gone key))
            λ found.
              Rules.set_item-Runs laws registry_key (J.stringify_keys (without key found))
                (λ s q.
                  let tracked : IsTracked J found s = subst (λ k. IsTracked J k s) (sym q.0) q.1 in
                  (
                    (
                      without key found,
                      change_registry-IsTracked J found s tracked
                          (J.stringify_keys (without key found)) (without key found)
                          (json_laws.parse-stringify_keys (without key found))
                          (All-without key found tracked.are_keys)
                          (λ j here. Covered-without key found s j q.2 here),
                    ),
                    put_ne registry_key (J.stringify_keys (without key found)) key s
                          (λ e. omega (arith, ap dots e, four))
                        ∙ q.2,
                  ))
                (λ s q. (keys, q.1))

  -- From tracked items, `clear` of a draft's key ends with the count of that draft gone; rejected
  -- anywhere, it leaves tracked items.
  pub clear_key-Runs :
      (json_laws : DraftsLaws J) (key : Text)
      → IsKey key
      → Runs laws (Tracked J) (clear_key S J key) (λ _ s. Tracked J s × Gone key s) (Tracked J)
  clear_key-Runs json_laws key four = record {
    at = λ d p. (clear_key-Runs_at json_laws p.0 key four).at d p.1;
  }
