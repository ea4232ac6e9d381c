-- ===== src/Payments/Hook.antt =====
-- mobile/src/features/payments/usePayment.ts: the hook `usePayment` as a state and events. The order
-- of the query cache is known by its state; the checkout is there or not.
pub mod Laws
use coffix.Prelude.{
  ℕ, suc, ◌+◌, Bool, true, false, not, ◌&&◌, ◌||◌, Option, none, some, List, [], ◌∷◌, if◌then◌else◌,
}
use coffix.Storage.{Outcome, ok, failed}
use coffix.Orders.{OrderStatus, payment_expired, cancelled, pending_payment}
use coffix.Payments.{
  PaymentMessage, no_message, payment_sent, payment_unknown, payment_window_closed, order_cancelled,
  PaymentClientResult, submitted, declined, unknown, is_verified_order,
}

pub data CheckoutPaymentStatus : Type 0 where
  status_declined status_expired status_failed status_idle status_processing : CheckoutPaymentStatus
  status_submitting status_unknown status_verified : CheckoutPaymentStatus

-- `confirms` counts the calls of the confirmer, `cart_refreshes` the invalidations of the cart.
pub record State : Type 0 where
  pub message : PaymentMessage
  pub client_status : CheckoutPaymentStatus
  pub in_flight : Bool
  pub order_state : Option OrderStatus
  pub confirms : ℕ
  pub cart_refreshes : ℕ

abbrev pub initial : Option OrderStatus → State
initial order_state = record {
  message = no_message;
  client_status = status_idle;
  in_flight = false;
  order_state = order_state;
  confirms = 0;
  cart_refreshes = if is_verified_order order_state then 1 else 0;
}

abbrev pub is_expired : Option OrderStatus → Bool
is_expired (some payment_expired) = true
is_expired _ = false

abbrev pub is_cancelled : Option OrderStatus → Bool
is_cancelled (some cancelled) = true
is_cancelled _ = false

-- What the hook returns as `status` and `message`.
unfoldable pub status : State → CheckoutPaymentStatus
status s =
    if is_verified_order s.order_state
    then status_verified
    else if is_expired s.order_state
    then status_expired
    else if is_cancelled s.order_state
    then status_failed
    else s.client_status

abbrev pub message_for : CheckoutPaymentStatus → State → PaymentMessage
message_for status_verified s = no_message
message_for status_expired s = payment_window_closed
message_for _ s = if is_cancelled s.order_state then order_cancelled else s.message

unfoldable pub display_message : State → PaymentMessage
unfolding status
display_message s = message_for (status s) s

-- `execute`, up to the confirmer.
unfoldable pub execute : Bool → State → State
execute has_checkout s = if not has_checkout || s.in_flight then s else record s {
  in_flight = true;
  message = no_message;
  client_status = status_submitting;
  confirms = s.confirms + 1;
}

abbrev pub show_result : Outcome PaymentClientResult → State → State
show_result (ok submitted) s = record s {
  client_status = status_processing;
  message = payment_sent;
}
show_result (ok (declined text)) s = record s { client_status = status_declined; message = text }
show_result (ok (unknown text)) s = record s { client_status = status_unknown; message = text }
show_result failed s = record s { client_status = status_unknown; message = payment_unknown }

unfoldable pub on_confirmed : Outcome PaymentClientResult → State → State
on_confirmed result s =
    if s.in_flight then record (show_result result s) { in_flight = false } else s

-- The effect on `verified` runs when it becomes true.
unfoldable pub on_order : OrderStatus → State → State
on_order order_state s = record s {
  order_state = some order_state;
  cart_refreshes =
      if is_verified_order (some order_state) && not (is_verified_order s.order_state)
      then s.cart_refreshes + 1
      else s.cart_refreshes;
}

-- `useOrder`: the next poll is planned while the payment is pending.
abbrev pub refetch_interval : ℕ → Option OrderStatus → Option ℕ
refetch_interval interval (some pending_payment) = some interval
refetch_interval interval _ = none

pub data Event : Type 0 where
  pressed : Bool → Event
  confirmed : Outcome PaymentClientResult → Event
  order_fetched : OrderStatus → Event

unfoldable pub step : Event → State → State
unfolding execute on_confirmed on_order
step (pressed has_checkout) s = execute has_checkout s
step (confirmed result) s = on_confirmed result s
step (order_fetched order_state) s = on_order order_state s

unfoldable pub run : List Event → State → State
unfolding step
run [] s = s
run (event ∷ events) s = run events (step event s)
