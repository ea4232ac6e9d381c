-- ===== src/Service/IntakeStore/Loading.antt =====
-- Loading a draft after a save gives the draft back.
use coffix.Prelude.{
  ℕ, zero, suc, ◌+◌, ◌*◌, ◌≤◌, ◌≡◌, refl, sym, ap, ◌∙◌, some, [], ◌∷◌, ◌++◌, Text, text_eq_iff,
  arith, or_else, length, drop, take-append-drop, append-nil, append_assoc,
}
use mathlib.Core.Path.{subst}
use coffix.Storage.{SecureStore, SecureStoreLaws, Items, ◌>>=◌, Post}
use coffix.Storage.Rules
use coffix.Storage.Rules.{Runs}
use coffix.Service.IntakeStore.{
  chunk_key, chunk, chunk_count, count_of, Drafts, DraftsLaws, key_for, read_chunks, load_stored,
  check_machine, load, save, save_json,
}
use coffix.Service.IntakeStore.Keys.{dots, dots-key_for}
use coffix.Service.IntakeStore.Invariant.{IsKey, Tracked}
use coffix.Service.IntakeStore.Saving.{Saved, save_json-Runs}

drop-nil : (m : ℕ) → drop {A = ℕ} m [] ≡ []
drop-nil zero = refl
drop-nil (suc m) = refl

suc_add : (n m : ℕ) → suc n + m ≡ suc (n + m)
suc_add n m = omega arith

drop-drop : (m n : ℕ) (s : Text) → drop m (drop n s) ≡ drop (n + m) s
drop-drop m zero s = ap (λ n. drop n s) (omega arith)
drop-drop m (suc n) [] =
    drop-nil m ∙ sym (ap (λ k. drop {A = ℕ} k []) (suc_add n m) ∙ drop-nil (suc (n + m)))
drop-drop m (suc n) (c ∷ s) = drop-drop m n s ∙ sym (ap (λ k. drop k (c ∷ s)) (suc_add n m))

drop-all : (n : ℕ) (s : Text) → length s ≤ n → drop n s ≡ []
drop-all zero [] h = refl
drop-all zero (c ∷ s) h = absurd (omega (arith, h))
drop-all (suc n) [] h = refl
drop-all (suc n) (c ∷ s) h = drop-all n s (omega (arith, h))

-- A chunk and what comes after it.
append-chunk : (json : Text) (i : ℕ) → chunk json i ++ drop (suc i * 400) json ≡ drop (i * 400) json
append-chunk json i =
    let next : i * 400 + 400 ≡ suc i * 400 = omega arith in
    ap (λ t. chunk json i ++ t)
      (ap (λ n. drop n json) (sym next) ∙ sym (drop-drop 400 (i * 400) json))
    ∙ take-append-drop 400 (drop (i * 400) json)

-- Nothing is left after the last chunk.
drop-chunk_count : (json : Text) → drop (chunk_count json * 400) json ≡ []
drop-chunk_count json = drop-all (chunk_count json * 400) json (omega arith)

module _ {S : SecureStore} (laws : SecureStoreLaws S) {Draft : Type 0} (J : Drafts Draft)
    (json_laws : DraftsLaws J) (scope : Text) where
  Saved-Tracked : (key json : Text) (s : Items) → Saved laws J json_laws key json s → Tracked J s
  Saved-Tracked key json s h = (h.registered.keys, h.registered.tracked)

  -- The rounds from `i` on read what is left of the JSON.
  read_chunks-Runs :
      (key json : Text) (i n : ℕ) (before : Text)
      → i + n ≡ chunk_count json
      → Runs laws
          (Saved laws J json_laws key json)
          (read_chunks S J key i n before)
          (λ text s. (text ≡ before ++ drop (i * 400) json) × Saved laws J json_laws key json s)
          (Tracked J)
  unfolding read_chunks
  read_chunks-Runs key json i zero before e = Rules.pure-Runs laws before λ s h.
      let same : chunk_count json ≡ i = omega arith in
      let rest : drop (i * 400) json ≡ [] =
        subst (λ k. drop (k * 400) json ≡ []) same (drop-chunk_count json) in
      (sym (ap (λ t. before ++ t) rest ∙ append-nil before), h)
  read_chunks-Runs key json i (suc n) before e =
      Rules.bind laws (λ piece s. (piece ≡ some (chunk json i)) × Saved laws J json_laws key json s)
        (Rules.get_item-Runs laws (chunk_key key i) (λ s h. (h.written i (omega arith), h))
          (Saved-Tracked key json))
        λ piece. record {
          at = λ d p.
              let joined : (text : Text) (s : Items)
                  → (text ≡ (before ++ chunk json i) ++ drop (suc i * 400) json)
                    × Saved laws J json_laws key json s
                  → (text ≡ before ++ drop (i * 400) json) × Saved laws J json_laws key json s =
                λ text s q. (
                  q.0
                      ∙ append_assoc before (chunk json i) (drop (suc i * 400) json)
                      ∙ ap (λ t. before ++ t) (append-chunk json i),
                  q.1,
                ) in
              let rest =
                Rules.consequence laws
                  (read_chunks-Runs key json (suc i) n (before ++ chunk json i) (omega arith))
                  (λ s h. h) joined (λ s h. h) in
              let step = rest.at d p.1 in
              subst
                (λ o.
                  Post laws.items laws.grants
                    (λ text s.
                      (text ≡ before ++ drop (i * 400) json) × Saved laws J json_laws key json s)
                    (Tracked J) (laws.grants d)
                    (read_chunks S J key (suc i) n (before ++ or_else o []) d))
                (sym p.0) step;
        }

  check_machine-pure :
      (draft : Draft) (d : S.Device)
      → Tracked J (laws.items d)
      → Post laws.items laws.grants
          (λ loaded s. (loaded ≡ draft) × Tracked J s)
          (Tracked J)
          (laws.grants d)
          (check_machine S J (J.machine_id draft) draft d)
  check_machine-pure draft d h =
      rw ((text_eq_iff (J.machine_id draft) (J.machine_id draft)).1 refl)
        ((json_laws.spread_lem (J.empty_draft (J.machine_id draft)) draft, h), refl)

  load-Saved-Runs_at :
      (key : Text) (draft : Draft) (n : ℕ)
      → n ≡ chunk_count (J.stringify draft)
      → Runs laws
          (Saved laws J json_laws key (J.stringify draft))
          (load_stored S J key (J.machine_id draft) n)
          (λ loaded s. (loaded ≡ draft) × Tracked J s)
          (Tracked J)
  load-Saved-Runs_at key draft zero e =
      absurd (omega (arith, e, json_laws.stringify-Nonempty draft))
  load-Saved-Runs_at key draft (suc n) e =
      let json = J.stringify draft in
      Rules.bind laws (λ text s. (text ≡ json) × Saved laws J json_laws key json s)
        (read_chunks-Runs key json 0 (suc n) [] (omega (arith, e)))
        λ text.
          Rules.bind laws (λ loaded s. (loaded ≡ draft) × Tracked J s)
            (Rules.or_raise-Runs laws {Q = λ loaded s. (loaded ≡ draft) × Tracked J s}
              (J.parse text) draft
              λ s h. (
                ap J.parse h.0 ∙ json_laws.parse-stringify draft,
                (refl, Saved-Tracked key json s h.1),
              ))
            λ loaded. record {
              at = λ d p.
                  subst
                    (λ x.
                      Post laws.items laws.grants (λ loaded s. (loaded ≡ draft) × Tracked J s)
                        (Tracked J) (laws.grants d) (check_machine S J (J.machine_id draft) x d))
                    (sym p.0) (check_machine-pure draft d p.1);
            }

  load-Saved-Runs :
      (key : Text) (draft : Draft)
      → key_for scope (J.machine_id draft) ≡ some key
      → Runs laws
          (Saved laws J json_laws key (J.stringify draft))
          (load S J scope (J.machine_id draft))
          (λ loaded s. (loaded ≡ draft) × Tracked J s)
          (Tracked J)
  unfolding load
  load-Saved-Runs key draft there =
      let json = J.stringify draft in
      Rules.bind laws (λ k s. (k ≡ key) × Saved laws J json_laws key json s)
        (Rules.or_raise-Runs laws {Q = λ k s. (k ≡ key) × Saved laws J json_laws key json s}
          (key_for scope (J.machine_id draft)) key (λ s h. (there, (refl, h))))
        λ k. record {
          at = λ d p.
              subst
                (λ x.
                  Post laws.items laws.grants (λ loaded s. (loaded ≡ draft) × Tracked J s)
                    (Tracked J) (laws.grants d)
                    ((S.get_item x >>= λ stored.
                        load_stored S J x (J.machine_id draft) (count_of stored))
                      d))
                (sym p.0)
                ((Rules.bind laws
                    (λ stored s.
                      (count_of stored ≡ chunk_count json) × Saved laws J json_laws key json s)
                    {R = λ loaded s. (loaded ≡ draft) × Tracked J s}
                    (Rules.get_item-Runs laws key (λ s h. (h.counted, h)) (Saved-Tracked key json))
                    λ stored. record {
                      at = λ d p. (load-Saved-Runs_at key draft (count_of stored) p.0).at d p.1;
                    }).at
                  d p.1);
        }

  save-Runs :
      (key : Text) (draft : Draft)
      → key_for scope (J.machine_id draft) ≡ some key
      → IsKey key
      → Runs laws
          (Tracked J)
          (save S J scope draft)
          (λ _. Saved laws J json_laws key (J.stringify draft))
          (Tracked J)
  unfolding save
  save-Runs key draft there four =
      Rules.bind laws (λ k s. (k ≡ key) × Tracked J s)
        (Rules.or_raise-Runs laws {Q = λ k s. (k ≡ key) × Tracked J s}
          (key_for scope (J.machine_id draft)) key (λ s h. (there, (refl, h))))
        λ k. record {
          at = λ d p.
              subst
                (λ x.
                  Post laws.items laws.grants (λ _. Saved laws J json_laws key (J.stringify draft))
                    (Tracked J) (laws.grants d) (save_json S J x (J.stringify draft) d))
                (sym p.0) ((save_json-Runs laws J json_laws key (J.stringify draft) four).at d p.1);
        }

  -- From items that the registry accounts for, a draft whose scope and machine have no dot and are
  -- sequences of Unicode characters: a save followed by a load of the same machine returns the saved
  -- draft, chunk by chunk, and does return it when the device grants all calls; where a call is
  -- rejected, the registry still accounts for the items.
  pub load-save :
      (draft : Draft) (key : Text) (d : S.Device)
      → key_for scope (J.machine_id draft) ≡ some key
      → dots scope ≡ 0
      → dots (J.machine_id draft) ≡ 0
      → Tracked J (laws.items d)
      → Post laws.items laws.grants
          (λ loaded s. (loaded ≡ draft) × Tracked J s)
          (Tracked J)
          (laws.grants d)
          ((save S J scope draft >>= λ _. load S J scope (J.machine_id draft)) d)
  load-save draft key d there p q h =
      (Rules.bind laws (λ _. Saved laws J json_laws key (J.stringify draft))
          (save-Runs key draft there (dots-key_for scope (J.machine_id draft) key p q there))
          λ _. load-Saved-Runs key draft there).at
        d h
