-- ===== src/Notifications/Navigation.antt =====
-- mobile/src/features/notifications/navigation.ts: where a notification leads. The answers of the
-- server are arguments; the requests are recorded.
use coffix.Prelude.{Bool, false, Option, none, some, List, [], ◌∷◌, String, str_eq, if◌then◌else◌}
use coffix.Storage.{Outcome, ok, failed}

-- The fields of a notification that are read.
pub record Notification : Type 0 where
  pub related_entity_type : Option String
  pub related_entity_id : Option String

pub data Destination : Type 0 where
  order_page request_page : String → Destination

pub data Lookup : Type 0 where
  order_lookup request_lookup : String → Lookup

abbrev pub is_type : Option String → String → Bool
is_type none name = false
is_type (some own) name = str_eq own name

-- After the detail endpoint has answered.
abbrev pub verified :
    Destination → Lookup → Outcome (Unit {0}) → Outcome (Option Destination) × List Lookup
verified destination lookup (ok answer) = (ok (some destination), lookup ∷ [])
verified destination lookup failed = (failed, lookup ∷ [])

abbrev pub destination_of :
    Option String → String → Outcome (Unit {0}) → Outcome (Option Destination) × List Lookup
destination_of entity_type id detail =
    if is_type entity_type "order"
    then verified (order_page id) (order_lookup id) detail
    else if is_type entity_type "service_request"
    then verified (request_page id) (request_lookup id) detail
    else (ok none, [])

abbrev pub entity_destination :
    Option String → Option String → Outcome (Unit {0}) → Outcome (Option Destination) × List Lookup
entity_destination entity_type none detail = (ok none, [])
entity_destination entity_type (some id) detail =
    if str_eq id "" then (ok none, []) else destination_of entity_type id detail

unfoldable pub notification_destination :
    Outcome Notification → Outcome (Unit {0}) → Outcome (Option Destination) × List Lookup
notification_destination failed detail = (failed, [])
notification_destination (ok notification) detail =
    entity_destination notification.related_entity_type notification.related_entity_id detail
