-- ===== src/Payments/Service.antt =====
-- mobile/src/features/service/payments.ts: the payment of a service request. The calls settle as the
-- arguments say; those that are made are recorded.
pub mod Laws
use coffix.Prelude.{
  Bool, true, false, not, ◌&&◌, ◌||◌, Option, none, some, List, [], ◌∷◌, ◌++◌, Text, codes, String,
  str_eq, or_else, if◌then◌else◌, any,
}
use coffix.Storage.{Outcome, ok, failed}
use coffix.Payments.{
  PaymentMessage, no_message, payment_sent, still_unknown, PaymentClientResult, submitted, declined,
  unknown,
}

pub data PaymentKind : Type 0 where
  diagnostic additional : PaymentKind

pub record HistoryEntry : Type 0 where
  pub source : String
  pub from_state : String
  pub to_state : String

-- The fields that are read.
pub record ServiceRequest : Type 0 where
  pub history : List HistoryEntry
  pub allowed_actions : List String

pub record ServicePayment : Type 0 where
  pub state : String

pub data ServicePaymentStatus : Type 0 where
  verified pending retry unavailable : ServicePaymentStatus

pub record ServicePaymentResult : Type 0 where
  pub request : ServiceRequest
  pub status : ServicePaymentStatus
  pub message : PaymentMessage

abbrev pub kind_name : PaymentKind → Text
kind_name diagnostic = codes "diagnostic"
kind_name additional = codes "additional"

abbrev pub service_payment_key : Text → PaymentKind → Text
service_payment_key request_id kind =
    codes "mobile-service-" ++ request_id ++ codes "-" ++ kind_name kind

abbrev pub is_transition : PaymentKind → HistoryEntry → Bool
is_transition diagnostic entry =
    str_eq entry.from_state "awaiting_diagnostic_payment"
    && str_eq entry.to_state "awaiting_admin_review"
is_transition additional entry =
    str_eq entry.from_state "awaiting_additional_payment"
    && str_eq entry.to_state "repair_in_progress"

unfoldable pub has_verified_service_payment : ServiceRequest → PaymentKind → Bool
has_verified_service_payment request kind =
    any (λ entry. str_eq entry.source "system" && is_transition kind entry) request.history

abbrev pub action_of : PaymentKind → String
action_of diagnostic = "pay_diagnostic"
action_of additional = "pay_additional"

unfoldable pub allows : ServiceRequest → PaymentKind → Bool
allows request kind = any (λ action. str_eq action (action_of kind)) request.allowed_actions

-- The two early returns that follow each `serviceApi.get`.
unfoldable pub settled : PaymentKind → ServiceRequest → Option ServicePaymentResult
settled kind request =
    if has_verified_service_payment request kind
    then some (record { request = request; status = verified; message = no_message })
    else if not (allows request kind)
    then some (record { request = request; status = unavailable; message = no_message })
    else none

pub data Call : Type 0 where
  get_request : Text → Call
  request_payment : Text → PaymentKind → Text → Call
  confirm_payment : Call

-- The `status` and the `message` that a confirmation leaves.
abbrev pub after_confirm : Outcome PaymentClientResult → ServicePaymentStatus × PaymentMessage
after_confirm (ok submitted) = (pending, payment_sent)
after_confirm (ok (declined text)) = (retry, text)
after_confirm (ok (unknown text)) = (retry, still_unknown)
after_confirm failed = (retry, still_unknown)

unfoldable pub after_payment :
    Outcome ServicePayment → Outcome PaymentClientResult → ServicePaymentStatus × PaymentMessage
after_payment failed confirmed = (retry, still_unknown)
after_payment (ok payment) confirmed =
    if str_eq payment.state "confirmed" then (pending, payment_sent) else after_confirm confirmed

abbrev pub confirm_calls : Outcome ServicePayment → List Call
confirm_calls failed = []
confirm_calls (ok payment) = if str_eq payment.state "confirmed" then [] else confirm_payment ∷ []

abbrev pub finish :
    PaymentKind
    → ServicePaymentStatus × PaymentMessage
    → Outcome ServiceRequest
    → Outcome ServicePaymentResult
finish kind attempt failed = failed
finish kind attempt (ok updated) = ok (
    or_else (settled kind updated)
      (record { request = updated; status = attempt.0; message = attempt.1 }))

-- The attempt to pay, unless the first answer settled it.
abbrev pub pay_unsettled :
    Text
    → PaymentKind
    → Option ServicePaymentResult
    → Outcome ServicePayment
    → Outcome PaymentClientResult
    → Outcome ServiceRequest
    → Outcome ServicePaymentResult × List Call
pay_unsettled request_id kind (some result) payment confirmed updated = (ok result, [])
pay_unsettled request_id kind none payment confirmed updated = (
  finish kind (after_payment payment confirmed) updated,
  request_payment request_id kind (service_payment_key request_id kind)
      ∷ (confirm_calls payment ++ (get_request request_id ∷ [])),
)

abbrev pub pay_current :
    Text
    → PaymentKind
    → Outcome ServiceRequest
    → Outcome ServicePayment
    → Outcome PaymentClientResult
    → Outcome ServiceRequest
    → Outcome ServicePaymentResult × List Call
pay_current request_id kind failed payment confirmed updated = (failed, [])
pay_current request_id kind (ok current) payment confirmed updated =
    pay_unsettled request_id kind (settled kind current) payment confirmed updated

unfoldable pub pay_for_service :
    Text
    → PaymentKind
    → Outcome ServiceRequest
    → Outcome ServicePayment
    → Outcome PaymentClientResult
    → Outcome ServiceRequest
    → Outcome ServicePaymentResult × List Call
pay_for_service request_id kind current payment confirmed updated =
    let rest = pay_current request_id kind current payment confirmed updated in
    (rest.0, get_request request_id ∷ rest.1)
