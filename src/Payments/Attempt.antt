-- ===== src/Payments/Attempt.antt =====
-- mobile/app/(tabs)/(shop)/payment.tsx: `startPayment`, which opens the payment of a cart. The
-- idempotency key of an attempt is kept until the server says that the shipping fee has changed.
pub mod Laws
use coffix.Prelude.{
  ℕ, suc, ◌+◌, Bool, true, false, not, ◌&&◌, ◌||◌, Option, none, some, List, [], ◌∷◌, ◌++◌, Text,
  codes, decimal, is_empty, str_eq, ◌==◌, if◌then◌else◌,
}
use coffix.Api.{ApiError, problem, other}
use coffix.Payments.{PaymentMessage, no_message, shipping_changed, payment_not_opened}

-- A checkout request: the review that its key names and the shipping fee that it expects.
pub record Attempt : Type 0 where
  pub review : ℕ
  pub shipping : ℕ

-- The parameters of the page, the shipping fee of the cart in the cache, the refs and the state, and
-- what was sent and opened, the last one first.
pub record State : Type 0 where
  pub address_id : Text
  pub checkout_key : Text
  pub cart_shipping : Option ℕ
  pub in_flight : Bool
  pub is_submitting : Bool
  pub refetching : Bool
  pub message : PaymentMessage
  pub attempt : Option Attempt
  pub review_number : ℕ
  pub requests : List Attempt
  pub opened : List Text

abbrev pub initial : Text → Text → Option ℕ → State
initial address_id checkout_key cart_shipping = record {
  address_id = address_id;
  checkout_key = checkout_key;
  cart_shipping = cart_shipping;
  in_flight = false;
  is_submitting = false;
  refetching = false;
  message = no_message;
  attempt = none;
  review_number = 0;
  requests = [];
  opened = [];
}

-- `reviewNumber ? `${checkoutKey}-review-${reviewNumber}` : checkoutKey`
unfoldable pub key_of : Text → ℕ → Text
key_of checkout_key review =
    if review == 0 then checkout_key else checkout_key ++ codes "-review-" ++ decimal review

abbrev pub attempt_or_new : Option Attempt → ℕ → ℕ → Attempt
attempt_or_new (some attempt) review shipping = attempt
attempt_or_new none review shipping = record { review = review; shipping = shipping }

abbrev pub send_attempt : Attempt → State → State
send_attempt current s = record s {
  in_flight = true;
  is_submitting = true;
  message = no_message;
  attempt = some current;
  requests = current ∷ s.requests;
}

unfoldable pub start_with : Option ℕ → State → State
start_with none s = s
start_with (some shipping) s =
    if is_empty s.address_id || is_empty s.checkout_key || s.in_flight
    then s
    else send_attempt (attempt_or_new s.attempt s.review_number shipping) s

abbrev pub is_shipping_change : ApiError → Bool
is_shipping_change (problem p) = str_eq p.code "SHIPPING_FEE_CHANGED"
is_shipping_change other = false

abbrev pub finished : State → State
finished s = record s { in_flight = false; is_submitting = false; refetching = false }

unfoldable pub on_rejected : ApiError → State → State
on_rejected error s =
    if is_shipping_change error
    then record s { attempt = none; review_number = s.review_number + 1; refetching = true }
    else record (finished s) { message = payment_not_opened }

-- The page is told how `cartApi.checkout` settles, that the refetch of the cart ended, and that the
-- cart of the cache changed.
pub data Event : Type 0 where
  pressed : Event
  checked_out : Text → Event
  rejected : ApiError → Event
  cart_refetched : Event
  cart_changed : Option ℕ → Event

unfoldable pub step : Event → State → State
unfolding start_with on_rejected
step pressed s = start_with s.cart_shipping s
step (checked_out order_id) s =
    if s.in_flight && not s.refetching
    then record (finished s) { opened = order_id ∷ s.opened }
    else s
step (rejected error) s = if s.in_flight && not s.refetching then on_rejected error s else s
step cart_refetched s =
    if s.refetching then record (finished s) { message = shipping_changed } else s
step (cart_changed shipping) s = record s { cart_shipping = shipping }

unfoldable pub run : List Event → State → State
unfolding step
run [] s = s
run (event ∷ events) s = run events (step event s)
