-- ===== src/Service/IntakeStore/Saving.antt =====
-- Saving a draft: what holds in each round, and what the items are at the end.
use coffix.Prelude.{
  ℕ, zero, suc, ◌+◌, ◌-◌, ◌≤◌, ◌<◌, max, ◌≡◌, ◌≢◌, refl, sym, ap, ◌∙◌, true, none, some, List, [],
  ◌∷◌, ◌++◌, Text, arith, decimal, number-decimal, All-append, Bool-cases, inl, inr,
}
use mathlib.Core.Path.{subst}
use native.Mathlib.Decide.{dec_lt}
use coffix.Storage.{SecureStore, SecureStoreLaws, Items, put, delete}
use coffix.Storage.Rules
use coffix.Storage.Rules.{Runs}
use coffix.Service.IntakeStore.{
  registry_key, chunk_key, chunk, chunk_count, count_of, Drafts, DraftsLaws, includes, write_chunks,
  add_key, save_json, store_json,
}
use coffix.Service.IntakeStore.Keys.{dots, dots-chunk_key, chunk_key-injective}
use coffix.Service.IntakeStore.Invariant.{
  IsKey, put_ne, put_self, delete_ne, includes-IsKey, IsTracked, Tracked, delete_chunk-IsTracked,
  put_chunk-IsTracked, change_count-IsTracked, change_registry-IsTracked, includes-concat_self,
  Covered-concat,
}
use coffix.Service.IntakeStore.Removal.{registry-Runs, delete_chunks-Runs, delete_self, delete-none}

count_of-decimal : (n : ℕ) → count_of (some (decimal n)) ≡ n
count_of-decimal n = rw number-decimal

module _ {S : SecureStore} (laws : SecureStoreLaws S) {Draft : Type 0} (J : Drafts Draft)
    (json_laws : DraftsLaws J) (key json : Text) where
  -- Some list of keys with this key accounts for the items.
  pub record Registered (s : Items) : Type 0 where
    pub keys : List Text
    pub tracked : IsTracked J keys s
    pub member : includes keys key ≡ true

  abbrev count : ℕ
  count = chunk_count json

  -- The rounds of `write_chunks`: the count covers the old chunks and the new ones, of which those
  -- before the round are written.
  record Writing (old i : ℕ) (s : Items) : Type 0 where
    registered : Registered s
    counted : count_of (s key) ≡ max count old
    written : (j : ℕ) → j < i → s (chunk_key key j) ≡ some (chunk json j)

  -- The rounds of the deletion: the old chunks from the new count up to the round are gone.
  record Trimming (old i : ℕ) (s : Items) : Type 0 where
    above : count ≤ i
    registered : Registered s
    counted : count_of (s key) ≡ max count old
    written : (j : ℕ) → j < count → s (chunk_key key j) ≡ some (chunk json j)
    trimmed : (j : ℕ) → count ≤ j → j < i → s (chunk_key key j) ≡ none

  -- The items after a save.
  pub record Saved (s : Items) : Type 0 where
    pub registered : Registered s
    pub counted : count_of (s key) ≡ count
    pub written : (j : ℕ) → j < count → s (chunk_key key j) ≡ some (chunk json j)

  Registered-Tracked : (s : Items) → Registered s → Tracked J s
  Registered-Tracked s h = (h.keys, h.tracked)

  key_ne_chunk : (s : Items) → Registered s → (i : ℕ) → chunk_key key i ≢ key
  key_ne_chunk s h i e = omega (
    arith,
    ap dots e,
    dots-chunk_key key i,
    includes-IsKey h.keys key h.tracked.are_keys h.member,
  )

  add_key-Runs :
      (keys : List Text)
      → IsKey key
      → Runs laws (IsTracked J keys) (add_key S J keys key) (λ _. Registered) (Tracked J)
  unfolding add_key
  add_key-Runs keys is_key = elim (Bool-cases (includes keys key)) [
    | inl known ↦
        rw known
          (Rules.pure-Runs laws tt (λ s h. record { keys = keys; tracked = h; member = known }))
    | inr new ↦ rw new (
        Rules.set_item-Runs laws registry_key (J.stringify_keys (keys ++ key ∷ []))
          (λ s h. record {
            keys = keys ++ key ∷ [];
            tracked =
                change_registry-IsTracked J keys s h (J.stringify_keys (keys ++ key ∷ []))
                  (keys ++ key ∷ []) (json_laws.parse-stringify_keys (keys ++ key ∷ []))
                  (All-append IsKey keys (key ∷ []) h.are_keys (is_key, tt))
                  (λ j here. Covered-concat keys key s j);
            member = includes-concat_self keys key;
          })
          (λ s h. (keys, h)))
  ]

  write_step :
      (old i : ℕ) (s : Items)
      → i < count
      → Writing old i s
      → Writing old (suc i) (put (chunk_key key i) (chunk json i) s)
  write_step old i s below h =
      let r = h.registered in
      record {
        registered = record {
          keys = r.keys;
          tracked =
              put_chunk-IsTracked J r.keys s r.tracked key (chunk json i) i r.member
                (omega (arith, below, h.counted));
          member = r.member;
        };
        counted =
            ap count_of (put_ne (chunk_key key i) (chunk json i) key s (key_ne_chunk s r i))
            ∙ h.counted;
        written = λ j earlier. elim (dec_lt j i) [
          | yes before ↦
              put_ne (chunk_key key i) (chunk json i) (chunk_key key j) s
                (λ e. omega (arith, chunk_key-injective key i j e, before))
              ∙ h.written j before
          | no late ↦
              let same : i ≡ j = omega arith in
              subst
                (λ k.
                  put (chunk_key key i) (chunk json i) s (chunk_key key k) ≡ some (chunk json k))
                same (put_self (chunk_key key i) (chunk json i) s)
        ];
      }

  write_chunks-Runs :
      (old i n : ℕ)
      → i + n ≡ count
      → Runs laws
          (Writing old i)
          (write_chunks S J key json i n)
          (λ _. Writing old count)
          (Tracked J)
  unfolding write_chunks
  write_chunks-Runs old i zero e =
      Rules.pure-Runs laws tt (λ s h. subst (λ k. Writing old k s) (omega arith) h)
  write_chunks-Runs old i (suc n) e =
      Rules.bind laws (λ _. Writing old (suc i))
        (Rules.set_item-Runs laws (chunk_key key i) (chunk json i)
          (λ s. write_step old i s (omega arith)) (λ s h. Registered-Tracked s h.registered))
        λ _. write_chunks-Runs old (suc i) n (omega arith)

  trim_step :
      (old i : ℕ) (s : Items) → Trimming old i s → Trimming old (suc i) (delete (chunk_key key i) s)
  trim_step old i s h =
      let r = h.registered in
      let five : dots (chunk_key key i) ≡ 5 =
        omega
          (arith, dots-chunk_key key i, includes-IsKey r.keys key r.tracked.are_keys r.member) in
      record {
        above = omega (arith, h.above);
        registered = record {
          keys = r.keys;
          tracked = delete_chunk-IsTracked J r.keys s r.tracked (chunk_key key i) five;
          member = r.member;
        };
        counted = ap count_of (delete_ne (chunk_key key i) key s (key_ne_chunk s r i)) ∙ h.counted;
        written = λ j below.
            delete_ne (chunk_key key i) (chunk_key key j) s
              (λ e. omega (arith, chunk_key-injective key i j e, below, h.above))
            ∙ h.written j below;
        trimmed = λ j lower upper. elim (dec_lt j i) [
          | yes before ↦
              delete-none (chunk_key key i) (chunk_key key j) s (h.trimmed j lower before)
          | no late ↦
              let same : i ≡ j = omega arith in
              subst (λ k. delete (chunk_key key i) s (chunk_key key k) ≡ none) same
                (delete_self (chunk_key key i) s)
        ];
      }

  -- The first count covers the old chunks and those to come.
  first_count-Runs :
      (old : ℕ)
      → Runs laws
          (λ s. (count_of (s key) ≡ old) × Registered s)
          (S.set_item key (decimal (max count old)))
          (λ _. Writing old 0)
          (Tracked J)
  first_count-Runs old =
      Rules.set_item-Runs laws key (decimal (max count old))
        (λ s p.
          let value : count_of (put key (decimal (max count old)) s key) ≡ max count old =
            ap count_of (put_self key (decimal (max count old)) s)
            ∙ count_of-decimal (max count old) in
          record {
            registered = record {
              keys = p.1.keys;
              tracked =
                  change_count-IsTracked J p.1.keys s p.1.tracked key
                    (put key (decimal (max count old)) s) p.1.member
                    (λ j ne. put_ne key (decimal (max count old)) j s ne)
                    (λ i lower upper. absurd (omega (arith, value, lower, upper, p.0)));
              member = p.1.member;
            };
            counted = value;
            written = λ j below. absurd (omega arith);
          })
        (λ s p. Registered-Tracked s p.1)

  -- The last count leaves out the chunks that are gone.
  last_count-Runs :
      (old m : ℕ)
      → max count old ≤ m
      → Runs laws (Trimming old m) (S.set_item key (decimal count)) (λ _. Saved) (Tracked J)
  last_count-Runs old m enough =
      Rules.set_item-Runs laws key (decimal count)
        (λ s h.
          let r = h.registered in
          let value : count_of (put key (decimal count) s key) ≡ count =
            ap count_of (put_self key (decimal count) s) ∙ count_of-decimal count in
          record {
            registered = record {
              keys = r.keys;
              tracked =
                  change_count-IsTracked J r.keys s r.tracked key (put key (decimal count) s)
                    r.member (λ j ne. put_ne key (decimal count) j s ne)
                    (λ i lower upper.
                      h.trimmed i (omega (arith, value, lower))
                        (omega (arith, upper, h.counted, enough)));
              member = r.member;
            };
            counted = value;
            written = λ j below.
                put_ne key (decimal count) (chunk_key key j) s (λ e. key_ne_chunk s r j (sym e))
                ∙ h.written j below;
          })
        (λ s h. Registered-Tracked s h.registered)

  store_json-Runs : Runs laws Registered (store_json S J key json) (λ _. Saved) (Tracked J)
  unfolding store_json
  store_json-Runs =
      Rules.bind laws (λ stored s. (count_of (s key) ≡ count_of stored) × Registered s)
        (Rules.get_item-Runs laws key (λ s r. (refl, r)) Registered-Tracked)
        λ stored.
          let old : ℕ = count_of stored in
          Rules.bind laws (λ _. Writing old 0) (first_count-Runs old)
            λ _.
              Rules.bind laws (λ _. Writing old count) (write_chunks-Runs old 0 count (omega arith))
                λ _.
                  Rules.bind laws (λ _. Trimming old (count + (old - count)))
                    (Rules.consequence laws
                      (delete_chunks-Runs laws J key (Trimming old) (Tracked J) count (old - count)
                        (count + (old - count)) (trim_step old)
                        (λ j s h. Registered-Tracked s h.registered) refl)
                      (λ s h. record {
                        above = omega arith;
                        registered = h.registered;
                        counted = h.counted;
                        written = h.written;
                        trimmed = λ j lower upper. absurd (omega arith);
                      })
                      (λ a s h. h) (λ s h. h))
                    λ _. last_count-Runs old (count + (old - count)) (omega arith)

  save_json-Runs_at :
      (keys : List Text)
      → IsKey key
      → Runs laws (IsTracked J keys) (save_json S J key json) (λ _. Saved) (Tracked J)
  unfolding save_json
  save_json-Runs_at keys is_key =
      Rules.bind laws (λ found s. (found ≡ keys) × IsTracked J keys s × Unit {0})
        (Rules.consequence laws (registry-Runs laws J keys (λ s. Unit {0})) (λ s h. (h, tt))
          (λ a s q. q) (λ s q. q))
        λ found.
          Rules.bind laws (λ _. Registered)
            (Rules.consequence laws (add_key-Runs found is_key)
              (λ s p. subst (λ k. IsTracked J k s) (sym p.0) p.1) (λ a s q. q) (λ s q. q))
            λ _. store_json-Runs

  -- From tracked items, `save` of a draft with this key and this JSON text ends with its chunks and
  -- its count in place; rejected anywhere, it leaves tracked items.
  pub save_json-Runs :
      IsKey key → Runs laws (Tracked J) (save_json S J key json) (λ _. Saved) (Tracked J)
  save_json-Runs is_key = record { at = λ d p. (save_json-Runs_at p.0 is_key).at d p.1 }
