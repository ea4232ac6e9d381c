-- ===== src/Orders.antt =====
-- mobile/src/features/orders/status.ts: the tables of order states, the filters and the timeline. The
-- Hebrew labels are constructors. `sort` is the insertion sort that keeps the order of equal entries,
-- as `Array.prototype.sort` does. `safeTrackingUrl` and `formatOrderTimestamp` are not modelled.
pub mod Timeline
mod Tests
use coffix.Prelude.{
  ℕ, suc, Bool, true, false, not, ◌&&◌, ◌||◌, Option, none, some, List, [], ◌∷◌, map, Text, text_eq,
  is_empty, filter, ltb, leb, ◌==◌, if◌then◌else◌,
}

pub data OrderStatus : Type 0 where
  cancelled : OrderStatus
  delivered : OrderStatus
  paid : OrderStatus
  payment_expired : OrderStatus
  pending_payment : OrderStatus
  processing : OrderStatus
  refunded : OrderStatus
  shipped : OrderStatus

pub data Bucket : Type 0 where
  active : Bucket
  done : Bucket

pub data PillTone : Type 0 where
  neutral : PillTone
  accent : PillTone
  success : PillTone
  warn : PillTone

pub data StatusLabel : Type 0 where
  label_cancelled : StatusLabel
  label_delivered : StatusLabel
  label_paid : StatusLabel
  label_payment_expired : StatusLabel
  label_pending_payment : StatusLabel
  label_processing : StatusLabel
  label_refunded : StatusLabel
  label_shipped : StatusLabel

abbrev pub StatusMeta : Type 0
StatusMeta = Bucket × StatusLabel × PillTone

abbrev pub status_meta : OrderStatus → StatusMeta
status_meta cancelled = (done, label_cancelled, neutral)
status_meta delivered = (done, label_delivered, success)
status_meta paid = (active, label_paid, success)
status_meta payment_expired = (done, label_payment_expired, neutral)
status_meta pending_payment = (active, label_pending_payment, warn)
status_meta processing = (active, label_processing, accent)
status_meta refunded = (done, label_refunded, neutral)
status_meta shipped = (active, label_shipped, accent)

abbrev pub order_status_label : OrderStatus → StatusLabel
order_status_label status = (status_meta status).1

abbrev pub order_status_tone : OrderStatus → PillTone
order_status_tone status = (status_meta status).2

pub data OrderFilter : Type 0 where
  every_order : OrderFilter
  in_bucket : Bucket → OrderFilter

abbrev pub bucket_eq : Bucket → Bucket → Bool
bucket_eq active active = true
bucket_eq done done = true
bucket_eq _ _ = false

-- An order is known by its state and the rest of it.
unfoldable pub filter_orders :
    {A : Type 0} → List (OrderStatus × A) → OrderFilter → List (OrderStatus × A)
filter_orders orders every_order = orders
filter_orders orders (in_bucket bucket) =
    filter (λ order. bucket_eq (status_meta order.0).0 bucket) orders

abbrev pub fulfillment_progress : OrderStatus → Option ℕ
fulfillment_progress delivered = some 4
fulfillment_progress paid = some 1
fulfillment_progress pending_payment = some 0
fulfillment_progress processing = some 2
fulfillment_progress shipped = some 3
fulfillment_progress _ = none

pub record OrderHistoryEntry : Type 0 where
  pub created_at : Option Text
  pub to_state : OrderStatus

abbrev pub OrderedEntry : Type 0
OrderedEntry = OrderHistoryEntry × ℕ

-- `a < b` of strings: by code units, a prefix first.
unfoldable pub text_lt : Text → Text → Bool
text_lt [] [] = false
text_lt [] (d ∷ t) = true
text_lt (c ∷ s) [] = false
text_lt (c ∷ s) (d ∷ t) = ltb c d || ((c == d) && text_lt s t)

-- The sign of a comparison.
pub data Sign : Type 0 where
  negative : Sign
  zero_sign : Sign
  positive : Sign

abbrev pub sign_of_difference : ℕ → ℕ → Sign
sign_of_difference a b = if ltb a b then negative else if ltb b a then positive else zero_sign

-- A timestamp that is not empty.
abbrev pub truthy : Option Text → Option Text
truthy none = none
truthy (some s) = if is_empty s then none else some s

unfoldable pub compare_stamps : Option Text → Option Text → ℕ → ℕ → Sign
compare_stamps (some left) (some right) i j =
    if not (text_eq left right)
    then (if text_lt left right then negative else positive)
    else sign_of_difference i j
compare_stamps (some left) none i j = positive
compare_stamps none (some right) i j = negative
compare_stamps none none i j = sign_of_difference i j

abbrev pub compare_entries : OrderedEntry → OrderedEntry → Sign
compare_entries (a, i) (b, j) = compare_stamps (truthy a.created_at) (truthy b.created_at) i j

abbrev pub is_positive : Sign → Bool
is_positive positive = true
is_positive _ = false

abbrev pub goes_after : OrderedEntry → OrderedEntry → Bool
goes_after x y = is_positive (compare_entries x y)

unfoldable pub insert_entry : OrderedEntry → List OrderedEntry → List OrderedEntry
unfolding compare_stamps
insert_entry x [] = x ∷ []
insert_entry x (y ∷ ys) =
    let rest = insert_entry x ys in if goes_after x y then y ∷ rest else x ∷ y ∷ ys

unfoldable pub sort_entries : List OrderedEntry → List OrderedEntry
unfolding insert_entry
sort_entries [] = []
sort_entries (x ∷ xs) = insert_entry x (sort_entries xs)

unfoldable pub with_index : ℕ → List OrderHistoryEntry → List OrderedEntry
with_index i [] = []
with_index i (entry ∷ entries) = (entry, i) ∷ with_index (suc i) entries

pub data EntryKey : Type 0 where
  dated_key : OrderStatus → Text → EntryKey
  index_key : OrderStatus → ℕ → EntryKey

abbrev pub entry_key : OrderStatus → Option Text → ℕ → EntryKey
entry_key state none i = index_key state i
entry_key state (some s) i = dated_key state s

pub record TimelineEntry : Type 0 where
  pub key : EntryKey
  pub label : StatusLabel
  pub state : OrderStatus
  pub timestamp : Option Text

abbrev pub timeline_entry : OrderedEntry → TimelineEntry
timeline_entry (entry, i) = record {
  key = entry_key entry.to_state entry.created_at i;
  label = order_status_label entry.to_state;
  state = entry.to_state;
  timestamp = entry.created_at;
}

unfoldable pub build_timeline : List OrderHistoryEntry → List TimelineEntry
unfolding sort_entries with_index
build_timeline history = map timeline_entry (sort_entries (with_index 0 history))
