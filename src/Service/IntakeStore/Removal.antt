-- ===== src/Service/IntakeStore/Removal.antt =====
-- Removing drafts: `remove`, `clear` and `clearAll`, from any tracked items.
use coffix.Prelude.{
  ℕ, zero, suc, ◌+◌, ◌<◌, ◌≡◌, refl, sym, ap, ◌∙◌, true, none, some, List, [], ◌∷◌, Text,
  text_eq_iff, codes, arith, or_else, All,
}
use mathlib.Core.Path.{subst}
use native.Mathlib.Decide.{dec_lt}
use coffix.Storage.{SecureStore, SecureStoreLaws, Items, delete}
use coffix.Storage.Rules
use coffix.Storage.Rules.{Runs}
use coffix.Service.IntakeStore.{
  registry_key, chunk_key, count_of, Drafts, includes, registry, delete_chunks, remove, remove_all,
}
use coffix.Service.IntakeStore.Keys.{dots, dots-chunk_key}
use coffix.Service.IntakeStore.Invariant.{
  delete_ne, includes-IsKey, IsTracked, Tracked, delete_chunk-IsTracked, change_count-IsTracked,
}

pub delete_self : (key : Text) (s : Items) → delete key s key ≡ none
delete_self key s = rw ((text_eq_iff key key).1 refl)

pub delete-none : (x key : Text) (s : Items) → s key ≡ none → delete x s key ≡ none
delete-none x key s h = ground arith

abbrev pub Gone : Text → Items → Type 0
Gone key s = s key ≡ none

pub All-Gone-delete :
    (x : Text) (keys : List Text) (s : Items)
    → All (λ k. Gone k s) keys
    → All (λ k. Gone k (delete x s)) keys
All-Gone-delete x [] s h = tt
All-Gone-delete x (key ∷ keys) s h = (delete-none x key s h.0, All-Gone-delete x keys s h.1)

module _ {S : SecureStore} (laws : SecureStoreLaws S) {Draft : Type 0} (J : Drafts Draft) where
  pub registry-Runs :
      (keys : List Text) (P : Items → Type 0)
      → Runs laws
          (λ s. IsTracked J keys s × P s)
          (registry S J)
          (λ found s. (found ≡ keys) × IsTracked J keys s × P s)
          (Tracked J)
  unfolding registry
  registry-Runs keys P =
      Rules.bind laws (λ stored s. (stored ≡ s registry_key) × IsTracked J keys s × P s)
        (Rules.get_item-Runs laws registry_key (λ s p. (refl, p.0, p.1)) (λ s p. (keys, p.0)))
        λ stored. Rules.or_raise-Runs laws (J.parse_keys (or_else stored (codes "[]"))) keys λ s p.
          (
            subst (λ o. J.parse_keys (or_else o (codes "[]")) ≡ some keys) (sym p.0) p.1.listed,
            (refl, p.1, p.2),
          )

  -- A loop of deletions, by an invariant of its rounds.
  pub delete_chunks-Runs :
      (key : Text) (I : ℕ → Items → Type 0) (E : Items → Type 0) (i n m : ℕ)
      → ((j : ℕ) (s : Items) → I j s → I (suc j) (delete (chunk_key key j) s))
      → ((j : ℕ) (s : Items) → I j s → E s)
      → i + n ≡ m
      → Runs laws (I i) (delete_chunks S J key i n) (λ _. I m) E
  unfolding delete_chunks
  delete_chunks-Runs key I E i zero m step leave e =
      Rules.pure-Runs laws tt (λ s p. subst (λ k. I k s) (omega arith) p)
  delete_chunks-Runs key I E i (suc n) m step leave e =
      Rules.bind laws (λ _. I (suc i))
        (Rules.delete_item-Runs laws (chunk_key key i) (step i) (leave i))
        λ _. delete_chunks-Runs key I E (suc i) n m step leave (omega arith)

  -- The rounds of `remove`: the chunks before the round are gone, and so are the keys `done`.
  record Removing (keys : List Text) (key : Text) (count : ℕ) (done : List Text) (i : ℕ) (s : Items)
      : Type 0 where
    tracked : IsTracked J keys s
    counted : count_of (s key) ≡ count
    missing : (j : ℕ) → j < i → s (chunk_key key j) ≡ none
    finished : All (λ k. Gone k s) done

  Removing-step :
      (keys : List Text) (key : Text) (count : ℕ) (done : List Text)
      → includes keys key ≡ true
      → (i : ℕ) (s : Items) → Removing keys key count done i s
      → Removing keys key count done (suc i) (delete (chunk_key key i) s)
  Removing-step keys key count done e i s h =
      let four : dots key ≡ 4 = includes-IsKey keys key h.tracked.are_keys e in
      let five : dots (chunk_key key i) ≡ 5 = omega (arith, dots-chunk_key key i) in
      record {
        tracked = delete_chunk-IsTracked J keys s h.tracked (chunk_key key i) five;
        counted =
            ap count_of
              (delete_ne (chunk_key key i) key s (λ same. omega (arith, ap dots same, five, four)))
            ∙ h.counted;
        missing = λ j below. elim (dec_lt j i) [
          | yes earlier ↦ delete-none (chunk_key key i) (chunk_key key j) s (h.missing j earlier)
          | no late ↦
              let same : i ≡ j = omega arith in
              subst (λ k. delete (chunk_key key i) s (chunk_key key k) ≡ none) same
                (delete_self (chunk_key key i) s)
        ];
        finished = All-Gone-delete (chunk_key key i) done s h.finished;
      }

  -- `remove` of a registered key: its count goes last, so that the items stay tracked throughout.
  pub remove-Runs :
      (keys : List Text) (key : Text) (done : List Text)
      → includes keys key ≡ true
      → Runs laws
          (λ s. IsTracked J keys s × All (λ k. Gone k s) done)
          (remove S J key)
          (λ _ s. IsTracked J keys s × Gone key s × All (λ k. Gone k s) done)
          (Tracked J)
  unfolding remove
  remove-Runs keys key done e =
      Rules.bind laws (λ stored s. (stored ≡ s key) × IsTracked J keys s × All (λ k. Gone k s) done)
        (Rules.get_item-Runs laws key (λ s p. (refl, p.0, p.1)) (λ s p. (keys, p.0)))
        λ stored.
          Rules.bind laws (λ _. Removing keys key (count_of stored) done (count_of stored))
            (Rules.consequence laws
              (delete_chunks-Runs key (Removing keys key (count_of stored) done) (Tracked J) 0
                (count_of stored) (count_of stored)
                (Removing-step keys key (count_of stored) done e) (λ j s h. (keys, h.tracked))
                (omega arith))
              (λ s p. record {
                tracked = p.1;
                counted = ap count_of (sym p.0);
                missing = λ j below. absurd (omega arith);
                finished = p.2;
              })
              (λ a s q. q) (λ s q. q))
            λ _.
              Rules.delete_item-Runs laws key
                (λ s h. (
                  change_count-IsTracked J keys s h.tracked key (delete key s) e
                      (λ j ne. delete_ne key j s ne)
                      (λ i lower upper. h.missing i (omega (arith, h.counted))),
                  delete_self key s,
                  All-Gone-delete key done s h.finished,
                ))
                (λ s h. (keys, h.tracked))

  pub remove_all-Runs :
      (keys : List Text) (left done : List Text)
      → All (λ k. includes keys k ≡ true) left
      → Runs laws
          (λ s. IsTracked J keys s × All (λ k. Gone k s) done)
          (remove_all S J left)
          (λ _ s. IsTracked J keys s × All (λ k. Gone k s) left × All (λ k. Gone k s) done)
          (Tracked J)
  unfolding remove_all
  remove_all-Runs keys [] done e = Rules.pure-Runs laws tt (λ s p. (p.0, tt, p.1))
  remove_all-Runs keys (key ∷ left) done e =
      Rules.bind laws (λ _ s. IsTracked J keys s × All (λ k. Gone k s) (key ∷ done))
        (Rules.consequence laws (remove-Runs keys key done e.0) (λ s p. p)
          (λ a s q. (q.0, (q.1, q.2))) (λ s q. q))
        λ _.
          Rules.consequence laws (remove_all-Runs keys left (key ∷ done) e.1) (λ s p. p)
            (λ a s q. (q.0, (q.2.0, q.1), q.2.1)) (λ s q. q)
