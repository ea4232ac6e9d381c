-- ===== src/Cart/Queue/Invariant.antt =====
-- The queues, the running processes and the pending marks always speak of the same SKUs.
use coffix.Prelude.{
  ℕ, suc, ◌≤◌, ◌≡◌, refl, true, false, Option, none, some, List, [], ◌∷◌, String, str_eq, eq_iff,
  arith, if◌then◌else◌, lookup, insert, erase, has, has-insert, has-erase, has-lookup-none,
  has-lookup-some,
}
use coffix.Api.{ApiError}
use coffix.Cart.{Cart, CartAction}
use coffix.Cart.Queue.{
  QueueEntry, Phase, sending, refetching, State, mark_pending, enqueue_at, enqueue, next_round,
  succeed, fail, Event, act, answer, reject, refetched, written, on_answer, on_reject, on_refetched,
  step, run, idle, show_action, end_process, with_cache,
}

-- How many processes run for a SKU.
abbrev pub running {ℓ} : {V : Type ℓ} → String → List (String × V) → ℕ
running sku_id [] = 0
running sku_id ((j, v) ∷ m) = if str_eq j sku_id then suc (running sku_id m) else running sku_id m

running-insert {ℓ} :
    {V : Type ℓ} (k j : String) (v : V) (m : List (String × V))
    → has k m ≡ true
    → running j (insert k v m) ≡ running j m
unfolding insert has
running-insert k j v [] e = cc
running-insert k j v ((i, w) ∷ m) e =
    ground (arith, eq_iff k j, eq_iff i k, eq_iff i j, running-insert k j v m)

running-erase {ℓ} :
    {V : Type ℓ} (k j : String) (m : List (String × V))
    → running j (erase k m) ≡ (if str_eq k j then 0 else running j m)
unfolding erase
running-erase k j [] = ground arith
running-erase k j ((i, w) ∷ m) =
    ground (arith, eq_iff k j, eq_iff i k, eq_iff i j, running-erase k j m)

running-absent {ℓ} :
    {V : Type ℓ} (k : String) (m : List (String × V)) → has k m ≡ false → running k m ≡ 0
unfolding has
running-absent k [] e = refl
running-absent k ((i, w) ∷ m) e = ground (arith, running-absent k m)

-- For one SKU: a queue entry, a process and a pending mark stand or fall together, and at most one
-- process runs.
pub record IsAligned (sku_id : String) (s : State) : Type 0 where
  pub same_process : has sku_id s.queues ≡ has sku_id s.processes
  pub same_pending : has sku_id s.queues ≡ has sku_id s.pending_skus
  pub single : running sku_id s.processes ≤ 1

-- The invariant does not read the cache, the message or the log of requests.
module _ (j k : String) (s : State) (h : IsAligned j s) where
  enqueue_at-IsAligned :
      (action : CartAction) (confirmed : Option Cart) (existing : Option QueueEntry)
      → lookup k s.queues ≡ existing
      → IsAligned j (enqueue_at k action confirmed existing s)
  unfolding enqueue_at has
  enqueue_at-IsAligned action confirmed none e = ground (
    arith,
    eq_iff k j,
    has-lookup-none k s.queues e,
    has-insert k j (record { confirmed = confirmed; latest = none }) s.queues,
    has-insert k j tt s.pending_skus,
    running-absent j s.processes,
  )
  enqueue_at-IsAligned action confirmed (some existing) e = ground (
    arith,
    eq_iff k j,
    has-lookup-some k s.queues e,
    has-insert k j (record existing { latest = some action }) s.queues,
  )

  end_process-IsAligned : IsAligned j (end_process k s)
  unfolding mark_pending
  end_process-IsAligned = ground (
    arith,
    eq_iff k j,
    has-erase k j s.queues,
    has-erase k j s.processes,
    has-erase k j s.pending_skus,
    running-erase k j s.processes,
  )

  -- The entry and the phase of a queue that is there are replaced.
  replace-IsAligned :
      (entry : QueueEntry) (phase : Phase)
      → has k s.queues ≡ true
      → has k s.processes ≡ true
      → IsAligned j
          (record s { queues = insert k entry s.queues; processes = insert k phase s.processes })
  replace-IsAligned entry phase q p = ground (
    arith,
    eq_iff k j,
    has-insert k j entry s.queues,
    has-insert k j phase s.processes,
    running-insert k j phase s.processes p,
  )

next_round-IsAligned :
    (j k : String) (s : State) (latest : Option CartAction) (cart : Cart)
    → IsAligned j s
    → has k s.processes ≡ true
    → IsAligned j (next_round k latest cart s)
unfolding next_round
next_round-IsAligned j k s none cart h p =
    end_process-IsAligned j k (record s { cache = some cart })
      (record { same_process = h.same_process; same_pending = h.same_pending; single = h.single })
next_round-IsAligned j k s (some action) cart h p = ground (
  arith,
  eq_iff k j,
  has-insert k j (sending action) s.processes,
  running-insert k j (sending action) s.processes p,
)

insert_entry-IsAligned :
    (j k : String) (s : State) (entry : QueueEntry)
    → IsAligned j s
    → has k s.queues ≡ true
    → IsAligned j (record s { queues = insert k entry s.queues })
insert_entry-IsAligned j k s entry h q = ground (arith, eq_iff k j, has-insert k j entry s.queues)

with_cache-IsAligned :
    (j : String) (cart : Option Cart) (s : State) → IsAligned j s → IsAligned j (with_cache cart s)
with_cache-IsAligned j none s h = h
with_cache-IsAligned j (some cart) s h = ground arith

module _ (j k : String) (s : State) (h : IsAligned j s) where
  on_answer-IsAligned :
      (cart : Cart) (phase : Option Phase) (entry : Option QueueEntry)
      → lookup k s.processes ≡ phase
      → lookup k s.queues ≡ entry
      → IsAligned j (on_answer k cart phase entry s)
  unfolding on_answer succeed
  on_answer-IsAligned cart (some (sending action)) (some entry) p q =
      next_round-IsAligned j k _ entry.latest cart
        (ground (
          arith,
          insert_entry-IsAligned j k s (record { confirmed = some cart; latest = none }) h
              (has-lookup-some k s.queues q),
        ))
        (has-lookup-some k s.processes p)
  on_answer-IsAligned cart _ _ p q = h

  on_reject-IsAligned :
      (error : ApiError) (phase : Option Phase) (entry : Option QueueEntry)
      → lookup k s.processes ≡ phase
      → lookup k s.queues ≡ entry
      → IsAligned j (on_reject k error phase entry s)
  unfolding on_reject fail
  on_reject-IsAligned error (some (sending action)) (some entry) p q = ground (
    arith,
    replace-IsAligned j k s h (record entry { latest = none }) refetching
        (has-lookup-some k s.queues q) (has-lookup-some k s.processes p),
  )
  on_reject-IsAligned error _ _ p q = h

  on_refetched-IsAligned :
      (cart : Option Cart) (phase : Option Phase) → IsAligned j (on_refetched k cart phase s)
  unfolding on_refetched
  on_refetched-IsAligned cart (some refetching) =
      end_process-IsAligned j k (with_cache cart s) (with_cache-IsAligned j cart s h)
  on_refetched-IsAligned cart _ = h

enqueue-IsAligned :
    (j k : String) (action : CartAction) (s : State)
    → IsAligned j s
    → IsAligned j (enqueue k action s)
unfolding enqueue
enqueue-IsAligned j k action s h =
    enqueue_at-IsAligned j k (show_action k action s)
      (record { same_process = h.same_process; same_pending = h.same_pending; single = h.single })
      action s.cache (lookup k s.queues) refl

step-IsAligned :
    (j : String) (event : Event) (s : State) → IsAligned j s → IsAligned j (step event s)
unfolding step
step-IsAligned j (act k action) s h = enqueue-IsAligned j k action s h
step-IsAligned j (answer k cart) s h =
    on_answer-IsAligned j k s h cart (lookup k s.processes) (lookup k s.queues) refl refl
step-IsAligned j (reject k error) s h =
    on_reject-IsAligned j k s h error (lookup k s.processes) (lookup k s.queues) refl refl
step-IsAligned j (refetched k cart) s h = on_refetched-IsAligned j k s h cart (lookup k s.processes)
step-IsAligned j (written cart) s h = with_cache-IsAligned j (some cart) s h

run-IsAligned_from :
    (j : String) (events : List Event) (s : State) → IsAligned j s → IsAligned j (run events s)
unfolding run
run-IsAligned_from j [] s h = h
run-IsAligned_from j (event ∷ events) s h =
    run-IsAligned_from j events (step event s) (step-IsAligned j event s h)

-- After any events from an idle hook, for every SKU: it has a queue exactly when a process runs for
-- it and exactly when it is marked pending, and at most one process runs for it.
pub run-IsAligned :
    (cart : Option Cart) (events : List Event) (sku_id : String)
    → IsAligned sku_id (run events (idle cart))
unfolding has
run-IsAligned cart events sku_id =
    run-IsAligned_from sku_id events (idle cart)
      (record { same_process = refl; same_pending = refl; single = omega arith })
