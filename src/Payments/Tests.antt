-- ===== src/Payments/Tests.antt =====
-- A payment that the server confirms, one that is pressed twice, a fee that changes and a service that
-- is paid.
use coffix.Prelude.{◌≡◌, ◌↔◌, refl, true, none, some, List, [], ◌∷◌, codes}
use coffix.Storage.{ok, failed}
use coffix.Api.{ApiProblem, problem}
use coffix.Orders.{pending_payment, paid}
use coffix.Payments.{submitted, no_message, is_verified_order}
use coffix.Payments.Hook
use coffix.Payments.Hook.{pressed, confirmed, order_fetched}
use coffix.Payments.Hook.Laws.{run-verified}
use coffix.Payments.Attempt
use coffix.Payments.Attempt.{checked_out, rejected, cart_refetched, cart_changed}
use coffix.Payments.Attempt.Laws.{AllAgree, run-AllAgree}
use coffix.Payments.Service.{
  diagnostic, ServiceRequest, ServicePaymentResult, verified, has_verified_service_payment, allows,
  settled, after_payment, pay_for_service,
}
use coffix.Payments.Service.Laws.{IsTrue, pay_for_service-IsTrue}

abbrev paid_events : List Hook.Event
paid_events =
    pressed true
    ∷ confirmed (ok submitted)
    ∷ order_fetched pending_payment
    ∷ order_fetched paid
    ∷ []

run-verified_example :
    (Hook.status (Hook.run paid_events (Hook.initial none)) ≡ Hook.status_verified)
    ↔ (is_verified_order (Hook.run paid_events (Hook.initial none)).order_state ≡ true)
run-verified_example = run-verified none paid_events

abbrev submitting : Hook.State
submitting = record {
  message = no_message;
  client_status = Hook.status_submitting;
  in_flight = true;
  order_state = none;
  confirms = 1;
  cart_refreshes = 0;
}

abbrev shipping_problem : ApiProblem
shipping_problem = record {
  type_uri = "about:blank";
  title = "Conflict";
  status = 409;
  code = "SHIPPING_FEE_CHANGED";
  detail = none;
  correlation_id = "c";
  errors = none;
}

abbrev fee_changed : List Attempt.Event
fee_changed =
    Attempt.pressed
    ∷ rejected (problem shipping_problem)
    ∷ cart_changed (some 4000)
    ∷ cart_refetched
    ∷ Attempt.pressed
    ∷ checked_out (codes "o1")
    ∷ []

two_requests :
    (Attempt.run fee_changed (Attempt.initial (codes "a") (codes "k") (some 2500))).requests
    ≡ record { review = 1; shipping = 4000 } ∷ record { review = 0; shipping = 2500 } ∷ []
unfolding Attempt.run Attempt.step Attempt.start_with Attempt.on_rejected
two_requests = refl

run-AllAgree_example :
    AllAgree
      (Attempt.run fee_changed (Attempt.initial (codes "a") (codes "k") (some 2500))).requests
run-AllAgree_example = run-AllAgree (codes "a") (codes "k") (some 2500) fee_changed

abbrev paid_request : ServiceRequest
paid_request = record {
  history =
      record {
        source = "system";
        from_state = "awaiting_diagnostic_payment";
        to_state = "awaiting_admin_review";
      }
      ∷ [];
  allowed_actions = [];
}

abbrev unpaid_request : ServiceRequest
unpaid_request = record { history = []; allowed_actions = "pay_diagnostic" ∷ [] }

abbrev paid_result : ServicePaymentResult
paid_result = record { request = paid_request; status = verified; message = no_message }

-- The confirmer's answer is lost, but the server has the payment.
pay_verifies :
    (pay_for_service
      (codes "s1")
      diagnostic
      (ok unpaid_request)
      (ok (record { state = "pending" }))
      failed
      (ok paid_request)).0
    ≡ ok paid_result
unfolding pay_for_service settled allows has_verified_service_payment after_payment
pay_verifies = refl

pay_for_service-IsTrue_example : IsTrue diagnostic paid_result
pay_for_service-IsTrue_example =
    pay_for_service-IsTrue (codes "s1") diagnostic (ok unpaid_request)
      (ok (record { state = "pending" })) failed (ok paid_request) paid_result pay_verifies
