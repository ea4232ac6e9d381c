-- ===== src/Notifications.antt =====
-- mobile/src/features/notifications: `notificationIdFrom` of navigation.ts, and what createPushSession
-- of push.ts does with the messages of the device until it is stopped. Notifications/Registration has
-- the rest of the session.
pub mod Laws
pub mod Registration
pub mod Navigation
pub mod Binding
mod Tests
use coffix.Prelude.{
  ℕ, zero, suc, ◌+◌, Bool, true, false, not, ◌&&◌, ◌||◌, Option, none, some, List, [], ◌∷◌, Text,
  leb, ltb, ◌==◌, length, any, text_eq, if◌then◌else◌,
}

-- The data of a message, as far as `notificationIdFrom` tells it apart: not an object with
-- `notification_id`, one whose `notification_id` is no string, and one whose is.
pub data MessageData : Type 0 where
  without_id odd_id : MessageData
  with_id : Text → MessageData

-- `[0-9a-f]` of a regular expression that ignores case
abbrev pub is_hex : ℕ → Bool
is_hex c = (leb 48 c && leb c 57) || (leb 65 c && leb c 70) || (leb 97 c && leb c 102)

abbrev pub skip_hex : ℕ → Text → Option Text
skip_hex zero rest = some rest
skip_hex (suc n) [] = none
skip_hex (suc n) (c ∷ rest) = if is_hex c then skip_hex n rest else none

-- Groups of digits, a dash before each but the first one, and the end.

abbrev pub ends_groups : List ℕ → Option Text → Bool
ends_groups groups none = false
ends_groups [] (some []) = true
ends_groups [] (some (c ∷ rest)) = false
ends_groups (n ∷ groups) (some []) = false
ends_groups (n ∷ groups) (some (c ∷ rest)) = c == 45 && ends_groups groups (skip_hex n rest)

abbrev pub is_uuid : Text → Bool
is_uuid text = ends_groups (4 ∷ 4 ∷ 4 ∷ 12 ∷ []) (skip_hex 8 text)

unfoldable pub notification_id_from : MessageData → Option Text
notification_id_from without_id = none
notification_id_from odd_id = none
notification_id_from (with_id id) = if is_uuid id then some id else none

-- The sets keep the order of insertion: the last one first here. `refreshed` and `opens` are the ids
-- that the queries were invalidated for and that `onOpen` was called with, the last one first.
pub record State : Type 0 where
  pub stopped : Bool
  pub received : List Text
  pub opened : List Text
  pub refreshed : List Text
  pub opens : List Text

abbrev pub initial : State
initial = record { stopped = false; received = []; opened = []; refreshed = []; opens = [] }

abbrev pub has_id : Text → List Text → Bool
has_id id set = any (text_eq id) set

-- `set.delete(set.values().next().value!)`
abbrev pub delete_oldest : List Text → List Text
delete_oldest [] = []
delete_oldest (id ∷ []) = []
delete_oldest (id ∷ (next ∷ more)) = id ∷ delete_oldest (next ∷ more)

abbrev pub capped : ℕ → List Text → List Text
capped limit set = if ltb limit (length set) then delete_oldest set else set

-- `remember`, of an id that the set does not have
abbrev pub remember : List Text → Text → List Text
remember set id = capped 200 (id ∷ set)

unfoldable pub receive : Text → State → State
receive id s =
    if has_id id s.received
    then s
    else record s { received = remember s.received id; refreshed = id ∷ s.refreshed }

unfoldable pub open_tapped : Text → Bool → State → State
open_tapped id tapped s =
    if tapped && not (has_id id s.opened)
    then record s { opened = remember s.opened id; opens = id ∷ s.opens }
    else s

abbrev pub on_id : Option Text → Bool → State → State
on_id none tapped s = s
on_id (some id) tapped s = open_tapped id tapped (receive id s)

unfoldable pub on_message : MessageData → Bool → State → State
on_message payload tapped s = if s.stopped then s else on_id (notification_id_from payload) tapped s

-- `stop`, before its first await
unfoldable pub stop_session : State → State
stop_session s = if s.stopped then s else record s { stopped = true; received = []; opened = [] }

pub data Event : Type 0 where
  arrived : MessageData → Bool → Event
  stop : Event

unfoldable pub step : Event → State → State
unfolding on_message stop_session
step (arrived payload tapped) s = on_message payload tapped s
step stop s = stop_session s

unfoldable pub run : List Event → State → State
unfolding step
run [] s = s
run (event ∷ events) s = run events (step event s)
