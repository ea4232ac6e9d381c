-- ===== src/Service/IntakeStore/Session.antt =====
-- Whatever the store's operations were, and wherever they were rejected, logout erases every draft.
use coffix.Prelude.{
  if◌then◌else◌, text_eq, Bool-cases, ℕ, zero, suc, ◌≡◌, sym, List, [], ◌∷◌, Text, All,
  Option-cases, inl, inr,
}
use mathlib.Core.Path.{subst}
use coffix.Storage.{SecureStore, SecureStoreLaws, Task, Items, pure, raise, ◌>>=◌, or_raise, Post}
use coffix.Storage.Rules
use coffix.Storage.Rules.{Runs, Keeps}
use coffix.Service.IntakeStore.{
  registry_key, Drafts, DraftsLaws, Operation, loading, saving, clearing, clearing_all, key_for,
  read_chunks, load_stored, check_machine, load, save, save_json, clear, clear_key, clear_all,
  perform, run_all,
}
use coffix.Service.IntakeStore.Keys.{dots, dots-key_for}
use coffix.Service.IntakeStore.Invariant.{IsKey, Tracked}
use coffix.Service.IntakeStore.Saving.{save_json-Runs}
use coffix.Service.IntakeStore.Logout.{Erased, clear_all-Runs, clear_key-Runs}

-- Sessions and machines are named by identifiers, which have no dot.
abbrev pub HasPlainKeys : {Draft : Type 0} → Drafts Draft → Operation Draft → Type 0
HasPlainKeys J (loading scope machine_id) = Unit
HasPlainKeys J (saving scope draft) = (dots scope ≡ 0) × (dots (J.machine_id draft) ≡ 0)
HasPlainKeys J (clearing scope machine_id) = (dots scope ≡ 0) × (dots machine_id ≡ 0)
HasPlainKeys J clearing_all = Unit

module _ {S : SecureStore} (laws : SecureStoreLaws S) {Draft : Type 0} (J : Drafts Draft)
    (json_laws : DraftsLaws J) where
  -- An operation on the key of a draft, where the key exists.
  keyed-Keeps :
      (scope machine_id : Text) (f : Text → Task S.Device (Unit {0}))
      → dots scope ≡ 0
      → dots machine_id ≡ 0
      → ((key : Text) → IsKey key → Keeps laws (Tracked J) (f key))
      → Keeps laws (Tracked J) (or_raise (key_for scope machine_id) >>= f)
  keyed-Keeps scope machine_id f p q keep = elim (Option-cases (key_for scope machine_id)) [
    | inl bad ↦
        subst (λ o. Keeps laws (Tracked J) (or_raise o >>= f)) (sym bad)
          (record { kept = λ d t. t })
    | inr (key, good) ↦
        subst (λ o. Keeps laws (Tracked J) (or_raise o >>= f)) (sym good)
          (record { kept = (keep key (dots-key_for scope machine_id key p q good)).kept })
  ]

  read_chunks-Keeps :
      (key : Text) (i n : ℕ) (json : Text) → Keeps laws (Tracked J) (read_chunks S J key i n json)
  unfolding read_chunks
  read_chunks-Keeps key i zero json = Rules.Keeps-pure laws json
  read_chunks-Keeps key i (suc n) json =
      Rules.Keeps-bind laws (Rules.Keeps-get_item laws _) λ piece. read_chunks-Keeps key (suc i) n _

  check_machine-Keeps :
      (machine_id : Text) (draft : Draft)
      → Keeps laws (Tracked J) (check_machine S J machine_id draft)
  check_machine-Keeps machine_id draft =
      elim (Bool-cases (text_eq (J.machine_id draft) machine_id)) [
        | inl e ↦
            subst
              (λ b.
                Keeps laws (Tracked J)
                  (if b then pure (J.spread (J.empty_draft machine_id) draft) else raise))
              (sym e) (record { kept = λ d t. t })
        | inr e ↦
            subst
              (λ b.
                Keeps laws (Tracked J)
                  (if b then pure (J.spread (J.empty_draft machine_id) draft) else raise))
              (sym e) (record { kept = λ d t. t })
      ]

  load_stored-Keeps :
      (key machine_id : Text) (n : ℕ) → Keeps laws (Tracked J) (load_stored S J key machine_id n)
  load_stored-Keeps key machine_id zero = Rules.Keeps-pure laws _
  load_stored-Keeps key machine_id (suc n) =
      Rules.Keeps-bind laws (read_chunks-Keeps key 0 (suc n) []) λ json.
        Rules.Keeps-bind laws (Rules.Keeps-or_raise laws _)
          λ draft. check_machine-Keeps machine_id draft

  load-Keeps : (scope machine_id : Text) → Keeps laws (Tracked J) (load S J scope machine_id)
  unfolding load
  load-Keeps scope machine_id = Rules.Keeps-bind laws (Rules.Keeps-or_raise laws _) λ key.
      Rules.Keeps-bind laws (Rules.Keeps-get_item laws _)
        λ stored. load_stored-Keeps key machine_id _

  pub Erased-Tracked : (s : Items) → Erased s → Tracked J s
  Erased-Tracked s e = (
    [],
    record {
      listed = rw (e registry_key) json_laws.parse_no_keys;
      are_keys = tt;
      covered = λ j here. absurd (here (e j));
    },
  )

  perform-Keeps :
      (operation : Operation Draft)
      → HasPlainKeys J operation
      → Keeps laws (Tracked J) (perform S J operation)
  unfolding perform save clear
  perform-Keeps (loading scope machine_id) h =
      Rules.Keeps-bind laws (load-Keeps scope machine_id) λ _. Rules.Keeps-pure laws tt
  perform-Keeps (saving scope draft) h =
      keyed-Keeps scope (J.machine_id draft) (λ key. save_json S J key (J.stringify draft)) h.0 h.1
        λ key four. Rules.Runs-Keeps laws (
          Rules.consequence laws (save_json-Runs laws J json_laws key (J.stringify draft) four)
            (λ s t. t) (λ a s q. (q.registered.keys, q.registered.tracked)) (λ s t. t))
  perform-Keeps (clearing scope machine_id) h =
      keyed-Keeps scope machine_id (clear_key S J) h.0 h.1 λ key four. Rules.Runs-Keeps laws (
        Rules.consequence laws (clear_key-Runs laws J json_laws key four) (λ s t. t) (λ a s q. q.0)
          (λ s t. t))
  perform-Keeps clearing_all h = Rules.Runs-Keeps laws (
      Rules.consequence laws (clear_all-Runs laws J) (λ s t. t) (λ a s e. Erased-Tracked s e)
        (λ s t. t))

  pub run_all-Tracked :
      (operations : List (Operation Draft)) (d : S.Device)
      → All (HasPlainKeys J) operations
      → Tracked J (laws.items d)
      → Tracked J (laws.items (run_all S J operations d))
  unfolding run_all
  run_all-Tracked [] d h t = t
  run_all-Tracked (operation ∷ operations) d h t =
      run_all-Tracked operations (perform S J operation d).1 h.1
        ((perform-Keeps operation h.0).kept d t)

  -- From an empty store, whatever loads, saves, clears and logouts were called with identifiers that
  -- have no dot, and at whichever call of the device each of them was rejected: a logout that then
  -- returns leaves no item in the store; it returns when the device grants all calls; and where it
  -- is rejected, the items it leaves are still accounted for by the registry.
  pub logout_erases :
      (operations : List (Operation Draft)) (d : S.Device)
      → All (HasPlainKeys J) operations
      → Erased (laws.items d)
      → Post laws.items laws.grants
          (λ _. Erased)
          (Tracked J)
          (laws.grants (run_all S J operations d))
          (clear_all S J (run_all S J operations d))
  logout_erases operations d h e =
      (clear_all-Runs laws J).at (run_all S J operations d)
        (run_all-Tracked operations d h (Erased-Tracked (laws.items d) e))
