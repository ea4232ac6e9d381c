-- ===== src/Payments.antt =====
-- mobile/src/features/payments: the confirmers of a payment (stripe.ts, fake.ts), the hook usePayment,
-- and the pages that open a payment (Payments/Attempt) or pay for a service (Payments/Service).
-- The Hebrew messages are constructors.
pub mod Hook
pub mod Attempt
pub mod Service
mod Tests
use coffix.Prelude.{
  ℕ, Bool, true, false, not, ◌&&◌, ◌||◌, Option, none, some, List, [], ◌∷◌, ◌++◌, Text, codes,
  is_empty, String, str_eq, if◌then◌else◌,
}
use coffix.Storage.{Outcome, ok, failed}
use coffix.Orders.{OrderStatus, paid, processing, shipped, delivered, payment_expired, cancelled}

pub data PaymentMessage : Type 0 where
  no_message payment_cancelled payment_declined payment_unknown payment_sent payment_window_closed :
      PaymentMessage
  order_cancelled shipping_changed payment_not_opened still_unknown : PaymentMessage

pub data PaymentClientResult : Type 0 where
  submitted : PaymentClientResult
  declined : PaymentMessage → PaymentClientResult
  unknown : PaymentMessage → PaymentClientResult

pub data PaymentMode : Type 0 where
  fake stripe : PaymentMode

abbrev pub payment_mode : Option String → PaymentMode
payment_mode none = fake
payment_mode (some value) = if str_eq value "stripe" then stripe else fake

-- `error?: { code?: string }` of the payment sheet.
abbrev pub SheetError : Type 0
SheetError = Option (Option String)

abbrev pub has_code : Option String → String → Bool
has_code none code = false
has_code (some own) code = str_eq own code

abbrev pub decline : String → PaymentClientResult
decline code = declined (if str_eq code "Canceled" then payment_cancelled else payment_declined)

abbrev pub present_result : Outcome SheetError → PaymentClientResult
present_result failed = unknown payment_unknown
present_result (ok none) = submitted
present_result (ok (some code)) =
    if has_code code "Canceled"
    then decline "Canceled"
    else if has_code code "Failed"
    then decline "Failed"
    else unknown payment_unknown

-- `confirm`: how `initPaymentSheet` settles, and how `presentPaymentSheet` does if it is called; the
-- second result tells whether it is.
unfoldable pub stripe_confirm : Outcome SheetError → Outcome SheetError → PaymentClientResult × Bool
stripe_confirm failed presented = (unknown payment_unknown, false)
stripe_confirm (ok (some code)) presented =
    (if has_code code "Failed" then decline "Failed" else unknown payment_unknown, false)
stripe_confirm (ok none) presented = (present_result presented, true)

-- The fake confirmer: one request, whose rejection is an exception.
abbrev pub fake_confirm : Outcome (Unit {0}) → Outcome PaymentClientResult
fake_confirm (ok answer) = ok submitted
fake_confirm failed = failed

abbrev pub stripe_outcome : Outcome SheetError → Outcome SheetError → Outcome PaymentClientResult
stripe_outcome initialized presented = ok (stripe_confirm initialized presented).0

-- `isVerifiedOrder` of mobile/src/features/cart/queries.ts
abbrev pub is_verified_state : OrderStatus → Bool
is_verified_state paid = true
is_verified_state processing = true
is_verified_state shipped = true
is_verified_state delivered = true
is_verified_state _ = false

abbrev pub is_verified_order : Option OrderStatus → Bool
is_verified_order none = false
is_verified_order (some state) = is_verified_state state
