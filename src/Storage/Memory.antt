-- ===== src/Storage/Memory.antt =====
-- A device of which one call may be rejected, as an example of a secure store.
use coffix.Prelude.{ℕ, zero, suc, ◌≡◌, refl, Bool, true, false, Option, none, some}
use coffix.Storage.{Outcome, ok, failed, SecureStore, SecureStoreLaws, Items, put, delete, Post}

-- The items, and the number of calls until the next one that is rejected, if one will be.
abbrev pub Memory : Type 0
Memory = Items × Option ℕ

abbrev never : Option ℕ → Bool
never none = true
never (some n) = false

abbrev call : {A : Type 0} → A → Items → Memory → Outcome A × Memory
call a after (held, none) = (ok a, (after, none))
call a after (held, some zero) = (failed, (held, none))
call a after (held, some (suc n)) = (ok a, (after, some n))

abbrev pub memory : SecureStore
memory = record {
  Device = Memory;
  get_item = λ key d. call (d.0 key) d.0 d;
  set_item = λ key value d. call tt (put key value d.0) d;
  delete_item = λ key d. call tt (delete key d.0) d;
}

pub call-Post :
    {A : Type 0} (Q : A → Items → Type 0) (a : A) (after : Items) (d : Memory)
    → Q a after
    → Post (λ e. e.0) (λ e. never e.1) Q (λ kept. kept ≡ d.0) (never d.1) (call a after d)
call-Post Q a after (held, none) q = (q, refl)
call-Post Q a after (held, some zero) q = (refl, refl)
call-Post Q a after (held, some (suc n)) q = (q, refl)

abbrev pub memory_laws : SecureStoreLaws memory
memory_laws = record {
  items = λ d. d.0;
  grants = λ d. never d.1;
  get_item_lem = λ key d.
      call-Post (λ value kept. (value ≡ d.0 key) × (kept ≡ d.0)) (d.0 key) d.0 d (refl, refl);
  set_item_lem =
      λ key value d. call-Post (λ _ kept. kept ≡ put key value d.0) tt (put key value d.0) d refl;
  delete_item_lem = λ key d. call-Post (λ _ kept. kept ≡ delete key d.0) tt (delete key d.0) d refl;
}
