-- ===== src/Cart/Queue.antt =====
-- mobile/src/features/cart/mutations.ts, `useCartMutations`: one queue for each SKU. The awaits of
-- `process` cut it into the events below; between two events the code runs without interruption.
-- `existing.latest = action` and the writes of `process` go to one shared entry, which stands in
-- `queues` exactly as long as its process runs (proved in Queue/Invariant).
pub mod Invariant
pub mod Delivery
mod Tests
use coffix.Prelude.{
  ℕ, Bool, true, false, Option, none, some, List, [], ◌∷◌, ◌++◌, String, if◌then◌else◌, lookup,
  insert, erase, is_some, or_option,
}
use coffix.Api.{ApiError}
use coffix.Cart.{
  Cart, CartAction, CartMessage, no_message, price_updated, optimistic_cart, price_changed,
  cart_message,
}

pub record QueueEntry : Type 0 where
  pub confirmed : Option Cart
  pub latest : Option CartAction

-- Where a running `process` waits: for the answer to a request, or for the refetch after an error.
pub data Phase : Type 0 where
  sending : CartAction → Phase
  refetching : Phase

pub record State : Type 0 where
  -- the query cache under `cartKeys.cart(scope)`
  pub cache : Option Cart
  pub queues : List (String × QueueEntry)
  -- the running `process` coroutines, the newest first
  pub processes : List (String × Phase)
  pub pending_skus : List (String × Unit {0})
  pub message : CartMessage
  -- the requests sent so far, the oldest first
  pub requests : List (String × CartAction)

unfoldable pub mark_pending : String → Bool → State → State
mark_pending sku_id true s = record s { pending_skus = insert sku_id tt s.pending_skus }
mark_pending sku_id false s = record s { pending_skus = erase sku_id s.pending_skus }

-- The first lines of `enqueue`: clear the message, show the action at once.
abbrev pub show_action : String → CartAction → State → State
show_action sku_id action s = record s {
  message = no_message;
  cache = optimistic_cart s.cache sku_id action;
}

-- `process` starts, and runs up to its first request.
abbrev pub start_process : String → CartAction → State → State
start_process sku_id action s = record s {
  processes = (sku_id, sending action) ∷ s.processes;
  requests = s.requests ++ (sku_id, action) ∷ [];
}

-- `existing` is the entry of the queue, `confirmed` the cart before the action was shown.
unfoldable pub enqueue_at : String → CartAction → Option Cart → Option QueueEntry → State → State
unfolding mark_pending
enqueue_at sku_id action confirmed (some existing) s = record s {
  queues = insert sku_id (record existing { latest = some action }) s.queues;
}
enqueue_at sku_id action confirmed none s = start_process sku_id action (
    mark_pending sku_id true (record s {
      queues = insert sku_id (record { confirmed = confirmed; latest = none }) s.queues;
    }))

unfoldable pub enqueue : String → CartAction → State → State
unfolding enqueue_at
enqueue sku_id action s =
    enqueue_at sku_id action s.cache (lookup sku_id s.queues) (show_action sku_id action s)

-- The end of `process`.
abbrev pub end_process : String → State → State
end_process sku_id s =
    mark_pending sku_id false
      (record s { queues = erase sku_id s.queues; processes = erase sku_id s.processes })

-- The rest of a round, once the request succeeded: the next action is the latest one, if any.
unfoldable pub next_round : String → Option CartAction → Cart → State → State
unfolding mark_pending
next_round sku_id none server_cart s = end_process sku_id (record s { cache = some server_cart })
next_round sku_id (some action) server_cart s = record s {
  cache = optimistic_cart (some server_cart) sku_id action;
  processes = insert sku_id (sending action) s.processes;
  requests = s.requests ++ (sku_id, action) ∷ [];
}

unfoldable pub succeed : String → Cart → QueueEntry → State → State
unfolding next_round
succeed sku_id server_cart entry s = next_round sku_id entry.latest server_cart (record s {
  message = if price_changed entry.confirmed server_cart then price_updated else s.message;
  queues = insert sku_id (record { confirmed = some server_cart; latest = none }) s.queues;
})

-- `setQueryData(key, undefined)` leaves the cache as it is.
unfoldable pub fail : String → ApiError → QueueEntry → State → State
fail sku_id error entry s = record s {
  queues = insert sku_id (record entry { latest = none }) s.queues;
  cache = or_option entry.confirmed s.cache;
  message = cart_message error;
  processes = insert sku_id refetching s.processes;
}

-- What the environment does: the user acts on a line, a request is answered, the refetch that
-- `invalidateQueries` awaits ends (with the cart that it put into the cache, if it succeeded), and
-- another part of the application writes the cart into the cache.
pub data Event : Type 0 where
  act : String → CartAction → Event
  answer : String → Cart → Event
  reject : String → ApiError → Event
  refetched : String → Option Cart → Event
  written : Cart → Event

abbrev pub with_cache : Option Cart → State → State
with_cache none s = s
with_cache (some cart) s = record s { cache = some cart }

-- An answer reaches the process that waits for it; without such a process there is no such event.
unfoldable pub on_answer : String → Cart → Option Phase → Option QueueEntry → State → State
unfolding succeed
on_answer sku_id server_cart (some (sending action)) (some entry) s =
    succeed sku_id server_cart entry s
on_answer sku_id server_cart _ _ s = s

unfoldable pub on_reject : String → ApiError → Option Phase → Option QueueEntry → State → State
unfolding fail
on_reject sku_id error (some (sending action)) (some entry) s = fail sku_id error entry s
on_reject sku_id error _ _ s = s

-- `currentAction = null` ends the loop.
unfoldable pub on_refetched : String → Option Cart → Option Phase → State → State
unfolding mark_pending
on_refetched sku_id cart (some refetching) s = end_process sku_id (with_cache cart s)
on_refetched sku_id cart _ s = s

unfoldable pub step : Event → State → State
unfolding enqueue on_answer on_reject on_refetched
step (act sku_id action) s = enqueue sku_id action s
step (answer sku_id cart) s =
    on_answer sku_id cart (lookup sku_id s.processes) (lookup sku_id s.queues) s
step (reject sku_id error) s =
    on_reject sku_id error (lookup sku_id s.processes) (lookup sku_id s.queues) s
step (refetched sku_id cart) s = on_refetched sku_id cart (lookup sku_id s.processes) s
step (written cart) s = record s { cache = some cart }

unfoldable pub run : List Event → State → State
run [] s = s
run (event ∷ events) s = run events (step event s)

abbrev pub idle : Option Cart → State
idle cart = record {
  cache = cart;
  queues = [];
  processes = [];
  pending_skus = [];
  message = no_message;
  requests = [];
}
