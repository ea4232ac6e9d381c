-- ===== src/Cart/Queue/Delivery.antt =====
-- Which actions of a line reach the server, and what the cache holds then.
use coffix.Prelude.{
  ◌≡◌, refl, ap, ◌∙◌, false, Option, none, some, List, [], ◌∷◌, ◌++◌, map, String, eq_refl, lookup,
  has, lookup-insert, has-erase, or_option, Option-cases, inl, inr, arith,
}
use coffix.Api.{ApiError}
use coffix.Cart.{Cart, CartAction, optimistic_cart, cart_message}
use coffix.Cart.Queue.{
  QueueEntry, sending, refetching, State, mark_pending, enqueue_at, enqueue, next_round, succeed,
  fail, act, answer, reject, refetched, on_answer, on_reject, on_refetched, step, run,
}

-- The actions of one line, one after the other.
abbrev pub acts : String → List CartAction → State → State
acts sku_id actions s = run (map (act sku_id) actions) s

-- The action that waits after these, `latest` before them.
abbrev pub last_or : Option CartAction → List CartAction → Option CartAction
last_or latest [] = latest
last_or latest (action ∷ actions) = last_or (some action) actions

last_or-concat :
    (latest : Option CartAction) (actions : List CartAction) (action : CartAction)
    → last_or latest (actions ++ action ∷ []) ≡ some action
last_or-concat latest [] action = refl
last_or-concat latest (other ∷ actions) action = last_or-concat (some other) actions action

-- What actions leave alone while a process of the line runs, and what waits after them.
record IsWaiting (sku_id : String) (s t : State) (entry : QueueEntry) : Type 0 where
  processes : t.processes ≡ s.processes
  requests : t.requests ≡ s.requests
  entry_at : lookup sku_id t.queues ≡ some entry

enqueue-IsWaiting :
    (k : String) (action : CartAction) (s : State) (entry : QueueEntry)
    → lookup k s.queues ≡ some entry
    → IsWaiting k s (enqueue k action s) (record entry { latest = some action })
unfolding enqueue enqueue_at
enqueue-IsWaiting k action s entry e = record {
  processes = rw (e, enqueue_at);
  requests = rw (e, enqueue_at);
  entry_at = rw (e, enqueue_at) (simp (lookup-insert, eq_refl));
}

acts-IsWaiting :
    (k : String) (actions : List CartAction) (s : State) (entry : QueueEntry)
    → lookup k s.queues ≡ some entry
    → IsWaiting k s (acts k actions s) (record entry { latest = last_or entry.latest actions })
unfolding run step
acts-IsWaiting k [] s entry e = record { processes = refl; requests = refl; entry_at = e }
acts-IsWaiting k (action ∷ actions) s entry e =
    let first = enqueue-IsWaiting k action s entry e in
    let rest =
      acts-IsWaiting k actions (enqueue k action s) (record entry { latest = some action })
        first.entry_at in
    record {
      processes = rest.processes ∙ first.processes;
      requests = rest.requests ∙ first.requests;
      entry_at = rest.entry_at;
    }

step-answered :
    (k : String) (cart : Cart) (t : State) (a : CartAction) (entry : QueueEntry)
    → lookup k t.processes ≡ some (sending a)
    → lookup k t.queues ≡ some entry
    → step (answer k cart) t ≡ succeed k cart entry t
unfolding step on_answer
step-answered k cart t a entry p q = rw (p, q, on_answer)

-- The outcome of an answer, by what waits.
succeed-some :
    (k : String) (cart : Cart) (t : State) (entry : QueueEntry) (b : CartAction)
    → entry.latest ≡ some b
    → ((succeed k cart entry t).requests ≡ t.requests ++ (k, b) ∷ [])
      × ((succeed k cart entry t).cache ≡ optimistic_cart (some cart) k b)
      × (lookup k (succeed k cart entry t).processes ≡ some (sending b))
unfolding succeed next_round
succeed-some k cart t entry b e = rw (e, next_round) (refl, refl, simp (lookup-insert, eq_refl))

succeed-none :
    (k : String) (cart : Cart) (t : State) (entry : QueueEntry)
    → entry.latest ≡ none
    → ((succeed k cart entry t).requests ≡ t.requests)
      × ((succeed k cart entry t).cache ≡ some cart)
      × (has k (succeed k cart entry t).pending_skus ≡ false)
unfolding succeed next_round mark_pending
succeed-none k cart t entry e = rw (e, next_round) (refl, refl, simp (has-erase, eq_refl))

refetched_step :
    (k : String) (cart : Option Cart) (t : State)
    → lookup k t.processes ≡ some refetching
    → ((step (refetched k cart) t).requests ≡ t.requests)
      × (has k (step (refetched k cart) t).queues ≡ false)
      × (has k (step (refetched k cart) t).pending_skus ≡ false)
unfolding step on_refetched mark_pending
refetched_step k none t p =
    rw (p, on_refetched) (refl, simp (has-erase, eq_refl), simp (has-erase, eq_refl))
refetched_step k (some cart) t p =
    rw (p, on_refetched) (refl, simp (has-erase, eq_refl), simp (has-erase, eq_refl))

reject_step :
    (k : String) (error : ApiError) (t : State) (a : CartAction) (entry : QueueEntry)
    → lookup k t.processes ≡ some (sending a)
    → lookup k t.queues ≡ some entry
    → step (reject k error) t ≡ fail k error entry t
unfolding step on_reject
reject_step k error t a entry p q = rw (p, q, on_reject)

-- The first action of a line starts its process and remembers the cart.
enqueue_first :
    (k : String) (a : CartAction) (s : State)
    → lookup k s.queues ≡ none
    → (lookup k (enqueue k a s).processes ≡ some (sending a))
      × ((enqueue k a s).requests ≡ s.requests ++ (k, a) ∷ [])
      × (lookup k (enqueue k a s).queues ≡ some (record { confirmed = s.cache; latest = none }))
unfolding enqueue enqueue_at lookup mark_pending
enqueue_first k a s e = rw (e, enqueue_at) (simp eq_refl, refl, simp (lookup-insert, eq_refl))

module _ (k : String) (s : State) (sent : CartAction) (entry : QueueEntry) where
  -- While a request of the line is in flight, any further actions send nothing; its answer then
  -- sends the last of them, alone, and the cache shows that action on the answered cart.
  pub answer_sends_latest :
      (earlier : List CartAction) (action : CartAction) (cart : Cart)
      → lookup k s.processes ≡ some (sending sent)
      → lookup k s.queues ≡ some entry
      → ((step (answer k cart) (acts k (earlier ++ action ∷ []) s)).requests
          ≡ s.requests ++ (k, action) ∷ [])
        × ((step (answer k cart) (acts k (earlier ++ action ∷ []) s)).cache
            ≡ optimistic_cart (some cart) k action)
        × (lookup k (step (answer k cart) (acts k (earlier ++ action ∷ []) s)).processes
            ≡ some (sending action))
  answer_sends_latest earlier action cart p q =
      let t = acts k (earlier ++ action ∷ []) s in
      let w = acts-IsWaiting k (earlier ++ action ∷ []) s entry q in
      let waits = record entry { latest = last_or entry.latest (earlier ++ action ∷ []) } in
      let (sends, shows, runs) =
        succeed-some k cart t waits action (last_or-concat entry.latest earlier action) in
      rw (step-answered k cart t sent waits (ap (lookup k) w.processes ∙ p) w.entry_at)
        (sends ∙ ap (λ r. r ++ (k, action) ∷ []) w.requests, shows, runs)

  -- With no further action the answered cart is what the cache holds, nothing more is sent and the
  -- line is no longer pending.
  pub answer_settles :
      (cart : Cart)
      → lookup k s.processes ≡ some (sending sent)
      → lookup k s.queues ≡ some entry
      → entry.latest ≡ none
      → ((step (answer k cart) s).requests ≡ s.requests)
        × ((step (answer k cart) s).cache ≡ some cart)
        × (has k (step (answer k cart) s).pending_skus ≡ false)
  answer_settles cart p q e =
      rw (step-answered k cart s sent entry p q) (succeed-none k cart s entry e)

  -- While the refetch after an error runs, an action of the line is shown and never sent: when the
  -- refetch ends its queue is gone, and so is the pending mark.
  pub action_lost_in_refetch :
      (actions : List CartAction) (cart : Option Cart)
      → lookup k s.processes ≡ some refetching
      → lookup k s.queues ≡ some entry
      → ((step (refetched k cart) (acts k actions s)).requests ≡ s.requests)
        × (has k (step (refetched k cart) (acts k actions s)).queues ≡ false)
        × (has k (step (refetched k cart) (acts k actions s)).pending_skus ≡ false)
  action_lost_in_refetch actions cart p q =
      let w = acts-IsWaiting k actions s entry q in
      let (sends, gone, unmarked) =
        refetched_step k cart (acts k actions s) (ap (lookup k) w.processes ∙ p) in
      (sends ∙ w.requests, gone, unmarked)

-- Without a cart in the cache an action shows nothing.
enqueue-no_cart :
    (k : String) (action : CartAction) (s : State)
    → s.cache ≡ none
    → (enqueue k action s).cache ≡ none
unfolding enqueue enqueue_at mark_pending optimistic_cart
enqueue-no_cart k action s e = ground arith

acts-no_cart :
    (k : String) (actions : List CartAction) (s : State)
    → s.cache ≡ none
    → (acts k actions s).cache ≡ none
unfolding run step
acts-no_cart k [] s e = e
acts-no_cart k (action ∷ actions) s e =
    acts-no_cart k actions (enqueue k action s) (enqueue-no_cart k action s e)

-- What an error puts back is the cart of before, and without one there is none still.
rolled_back :
    (k : String) (actions : List CartAction) (s : State)
    → or_option s.cache (acts k actions s).cache ≡ s.cache
rolled_back k actions s = elim (Option-cases s.cache) [
  | inl e ↦ simp e (acts-no_cart k actions s e)
  | inr (cart, e) ↦ simp e
]

module _ (k : String) (s : State) (sent : CartAction) where
  -- A first action of a line, any further ones, then an error: the cache is what it was before the
  -- first action, the first action alone was sent, and the message tells the error.
  pub reject_rolls_back :
      (actions : List CartAction) (error : ApiError)
      → lookup k s.queues ≡ none
      → ((step (reject k error) (acts k (sent ∷ actions) s)).cache ≡ s.cache)
        × ((step (reject k error) (acts k (sent ∷ actions) s)).requests
            ≡ s.requests ++ (k, sent) ∷ [])
        × ((step (reject k error) (acts k (sent ∷ actions) s)).message ≡ cart_message error)
  unfolding run step
  reject_rolls_back actions error e =
      let first = enqueue_first k sent s e in
      let entry : QueueEntry = record { confirmed = s.cache; latest = none } in
      let w = acts-IsWaiting k actions (enqueue k sent s) entry first.2 in
      let waits = record entry { latest = last_or none actions } in
      rw
        (reject_step k error (acts k actions (enqueue k sent s)) sent waits
          (ap (lookup k) w.processes ∙ first.0) w.entry_at)
        (rolled_back k (sent ∷ actions) s, w.requests ∙ first.1, refl)
