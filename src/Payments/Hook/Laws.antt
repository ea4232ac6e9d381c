-- ===== src/Payments/Hook/Laws.antt =====
-- What the hook may show, and how often it asks the confirmer.
use coffix.Prelude.{
  ◌≡◌, ◌↔◌, refl, ◌∙◌, Bool, true, false, not, Option, List, [], ◌∷◌, if_ind, arith, Bool-cases,
  inl, inr, All, ◌||◌, ◌+◌,
}
use coffix.Storage.{Outcome, ok, failed}
use coffix.Orders.{OrderStatus}
use coffix.Payments.{
  no_message, PaymentClientResult, submitted, declined, unknown, is_verified_order,
}
use coffix.Payments.Hook.{
  CheckoutPaymentStatus, status_expired, status_failed, status_verified, status_submitting, State,
  initial, status, execute, show_result, on_confirmed, on_order, Event, pressed, confirmed,
  order_fetched, step, run,
}

-- What the client alone may set.
abbrev IsOwn : CheckoutPaymentStatus → Type 0
IsOwn status_verified = ⊥
IsOwn status_expired = ⊥
IsOwn status_failed = ⊥
IsOwn _ = Unit

show_result-IsOwn :
    (result : Outcome PaymentClientResult) (s : State) → IsOwn (show_result result s).client_status
show_result-IsOwn (ok submitted) s = tt
show_result-IsOwn (ok (declined text)) s = tt
show_result-IsOwn (ok (unknown text)) s = tt
show_result-IsOwn failed s = tt

step-IsOwn :
    (event : Event) (s : State) → IsOwn s.client_status → IsOwn (step event s).client_status
unfolding step execute on_confirmed on_order
step-IsOwn (pressed has_checkout) s h =
    if_ind (λ (t : State). IsOwn t.client_status) (not has_checkout || s.in_flight) s
      (record s {
        in_flight = true;
        message = no_message;
        client_status = status_submitting;
        confirms = s.confirms + 1;
      })
      (λ _. h) (λ _. tt)
step-IsOwn (confirmed result) s h =
    if_ind (λ (t : State). IsOwn t.client_status) s.in_flight
      (record (show_result result s) { in_flight = false }) s (λ _. show_result-IsOwn result s)
      (λ _. h)
step-IsOwn (order_fetched order_state) s h = h

run-IsOwn :
    (events : List Event) (s : State) → IsOwn s.client_status → IsOwn (run events s).client_status
unfolding run
run-IsOwn [] s h = h
run-IsOwn (event ∷ events) s h = run-IsOwn events (step event s) (step-IsOwn event s h)

own_ne_verified : (status : CheckoutPaymentStatus) → IsOwn status → status ≡ status_verified → ⊥
own_ne_verified status_verified h e = h
own_ne_verified status_expired h e = h
own_ne_verified status_failed h e = h
own_ne_verified _ h e = cc

status-verified :
    (s : State)
    → IsOwn s.client_status
    → status s ≡ status_verified
    → is_verified_order s.order_state ≡ true
unfolding status
status-verified s h e = elim (Bool-cases (is_verified_order s.order_state)) [
  | inl good ↦ good
  | inr bad ↦ absurd (refused s h bad e)
]
  where
    refused :
        (s : State)
        → IsOwn s.client_status
        → is_verified_order s.order_state ≡ false
        → status s ≡ status_verified
        → ⊥
    refused s h bad e = own_ne_verified s.client_status h (ground arith)

-- Whatever the confirmer returned and however the presses, answers and fetched orders are ordered: the
-- hook shows a verified payment exactly when the order of the server is paid or further.
pub run-verified :
    (order_state : Option OrderStatus) (events : List Event)
    → (status (run events (initial order_state)) ≡ status_verified)
      ↔ (is_verified_order (run events (initial order_state)).order_state ≡ true)
unfolding status
run-verified order_state events =
    let s = run events (initial order_state) in
    (status-verified s (run-IsOwn events (initial order_state) tt), λ good. rw good)

abbrev pub is_confirmed : Event → Bool
is_confirmed (confirmed result) = true
is_confirmed _ = false

step_in_flight :
    (event : Event) (s : State)
    → is_confirmed event ≡ false
    → s.in_flight ≡ true
    → ((step event s).confirms ≡ s.confirms) × ((step event s).in_flight ≡ true)
unfolding step execute on_order
step_in_flight (pressed has_checkout) s e h = ground arith
step_in_flight (confirmed result) s e h = cc
step_in_flight (order_fetched order_state) s e h = (refl, h)

-- While the confirmer has not answered, presses do not ask it again, whatever order is fetched.
pub run_in_flight :
    (events : List Event) (s : State)
    → All (λ event. is_confirmed event ≡ false) events
    → s.in_flight ≡ true
    → ((run events s).confirms ≡ s.confirms) × ((run events s).in_flight ≡ true)
unfolding run
run_in_flight [] s all h = (refl, h)
run_in_flight (event ∷ events) s all h =
    let next = step_in_flight event s all.0 h in
    let rest = run_in_flight events (step event s) all.1 next.1 in (rest.0 ∙ next.0, rest.1)
