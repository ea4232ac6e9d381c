-- ===== src/Payments/Service/Laws.antt =====
-- What a result of payForService says of the request that it returns.
use coffix.Prelude.{
  ◌≡◌, subst, Bool, true, false, not, Option, none, some, Text, if◌then◌else◌, if_ind, or_else,
  str_eq, arith,
}
use coffix.Storage.{Outcome, ok, failed}
use coffix.Payments.{
  PaymentMessage, no_message, payment_sent, PaymentClientResult, submitted, declined, unknown,
}
use coffix.Payments.Service.{
  PaymentKind, ServiceRequest, ServicePayment, ServicePaymentStatus, verified, pending, retry,
  unavailable, ServicePaymentResult, has_verified_service_payment, allows, settled, after_confirm,
  after_payment, finish, pay_unsettled, pay_for_service,
}

-- What each status promises of the request that it stands beside.
abbrev pub Promises : ServicePaymentStatus → Bool → Bool → Type 0
Promises verified paid allowed = paid ≡ true
Promises unavailable paid allowed = (paid ≡ false) × (allowed ≡ false)
Promises _ paid allowed = (paid ≡ false) × (allowed ≡ true)

abbrev pub IsTrue : PaymentKind → ServicePaymentResult → Type 0
IsTrue kind result =
    Promises result.status (has_verified_service_payment result.request kind)
      (allows result.request kind)

abbrev IsWaiting : ServicePaymentStatus → Type 0
IsWaiting pending = Unit
IsWaiting retry = Unit
IsWaiting _ = ⊥

abbrev IfSome {ℓ κ} : {A : Type ℓ} → (A → Type κ) → Type κ → Option A → Type κ
IfSome P Q none = Q
IfSome P Q (some a) = P a

abbrev IfOk {ℓ κ} : {A : Type ℓ} → (A → Type κ) → Outcome A → Type κ
IfOk P (ok a) = P a
IfOk P failed = Unit

settled_lem :
    (kind : PaymentKind) (request : ServiceRequest)
    → IfSome
        (IsTrue kind)
        ((has_verified_service_payment request kind ≡ false) × (allows request kind ≡ true))
        (settled kind request)
unfolding settled
settled_lem kind request =
    if_ind
      (IfSome (IsTrue kind)
        ((has_verified_service_payment request kind ≡ false) × (allows request kind ≡ true)))
      (has_verified_service_payment request kind)
      (some (record { request = request; status = verified; message = no_message }))
      (if not (allows request kind)
        then some (record { request = request; status = unavailable; message = no_message })
        else none)
      (λ paid. paid)
      (λ unpaid.
        if_ind
          (IfSome (IsTrue kind)
            ((has_verified_service_payment request kind ≡ false) × (allows request kind ≡ true)))
          (not (allows request kind))
          (some (record { request = request; status = unavailable; message = no_message })) none
          (λ closed. (unpaid, ground arith)) (λ allowed. (unpaid, ground arith)))

Promises-IsWaiting :
    (status : ServicePaymentStatus) (paid allowed : Bool)
    → IsWaiting status
    → paid ≡ false
    → allowed ≡ true
    → Promises status paid allowed
Promises-IsWaiting pending paid allowed h unpaid is_open = (unpaid, is_open)
Promises-IsWaiting retry paid allowed h unpaid is_open = (unpaid, is_open)
Promises-IsWaiting verified paid allowed h unpaid is_open = absurd h
Promises-IsWaiting unavailable paid allowed h unpaid is_open = absurd h

after_confirm-IsWaiting :
    (confirmed : Outcome PaymentClientResult) → IsWaiting (after_confirm confirmed).0
after_confirm-IsWaiting (ok submitted) = tt
after_confirm-IsWaiting (ok (declined text)) = tt
after_confirm-IsWaiting (ok (unknown text)) = tt
after_confirm-IsWaiting failed = tt

after_payment-IsWaiting :
    (payment : Outcome ServicePayment) (confirmed : Outcome PaymentClientResult)
    → IsWaiting (after_payment payment confirmed).0
unfolding after_payment
after_payment-IsWaiting failed confirmed = tt
after_payment-IsWaiting (ok payment) confirmed =
    if_ind (λ (t : ServicePaymentStatus × PaymentMessage). IsWaiting t.0)
      (str_eq payment.state "confirmed") (pending, payment_sent) (after_confirm confirmed) (λ _. tt)
      (λ _. after_confirm-IsWaiting confirmed)

or_else-IsTrue :
    (kind : PaymentKind) (updated : ServiceRequest)
    (attempt : ServicePaymentStatus × PaymentMessage) (o : Option ServicePaymentResult)
    → IsWaiting attempt.0
    → IfSome
        (IsTrue kind)
        ((has_verified_service_payment updated kind ≡ false) × (allows updated kind ≡ true))
        o
    → IsTrue kind
        (or_else o (record { request = updated; status = attempt.0; message = attempt.1 }))
or_else-IsTrue kind updated attempt none h allowed =
    Promises-IsWaiting attempt.0 (has_verified_service_payment updated kind) (allows updated kind) h
      allowed.0 allowed.1
or_else-IsTrue kind updated attempt (some result) h good = good

finish-IsTrue :
    (kind : PaymentKind) (attempt : ServicePaymentStatus × PaymentMessage)
    (updated : Outcome ServiceRequest)
    → IsWaiting attempt.0
    → IfOk (IsTrue kind) (finish kind attempt updated)
finish-IsTrue kind attempt failed h = tt
finish-IsTrue kind attempt (ok updated) h =
    or_else-IsTrue kind updated attempt (settled kind updated) h (settled_lem kind updated)

pay_unsettled-IsTrue :
    (request_id : Text) (kind : PaymentKind) (current : ServiceRequest)
    (o : Option ServicePaymentResult) (payment : Outcome ServicePayment)
    (confirmed : Outcome PaymentClientResult) (updated : Outcome ServiceRequest)
    → IfSome
        (IsTrue kind)
        ((has_verified_service_payment current kind ≡ false) × (allows current kind ≡ true))
        o
    → IfOk (IsTrue kind) (pay_unsettled request_id kind o payment confirmed updated).0
pay_unsettled-IsTrue request_id kind current none payment confirmed updated h =
    finish-IsTrue kind (after_payment payment confirmed) updated
      (after_payment-IsWaiting payment confirmed)
pay_unsettled-IsTrue request_id kind current (some result) payment confirmed updated h = h

pay_for_service-IfOk :
    (request_id : Text) (kind : PaymentKind) (current : Outcome ServiceRequest)
    (payment : Outcome ServicePayment) (confirmed : Outcome PaymentClientResult)
    (updated : Outcome ServiceRequest)
    → IfOk (IsTrue kind) (pay_for_service request_id kind current payment confirmed updated).0
unfolding pay_for_service
pay_for_service-IfOk request_id kind failed payment confirmed updated = tt
pay_for_service-IfOk request_id kind (ok current) payment confirmed updated =
    pay_unsettled-IsTrue request_id kind current (settled kind current) payment confirmed updated
      (settled_lem kind current)

-- However the calls of a service payment settle: a result that says verified returns a request whose
-- history has the transition of the server for this payment, one that says unavailable returns a
-- request without it that does not allow the payment, and one that says pending or retry returns a
-- request without it that still allows the payment.
pub pay_for_service-IsTrue :
    (request_id : Text) (kind : PaymentKind) (current : Outcome ServiceRequest)
    (payment : Outcome ServicePayment) (confirmed : Outcome PaymentClientResult)
    (updated : Outcome ServiceRequest) (result : ServicePaymentResult)
    → (pay_for_service request_id kind current payment confirmed updated).0 ≡ ok result
    → IsTrue kind result
pay_for_service-IsTrue request_id kind current payment confirmed updated result e =
    subst (IfOk (IsTrue kind)) e
      (pay_for_service-IfOk request_id kind current payment confirmed updated)
