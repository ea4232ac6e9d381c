-- ===== src/Notifications/Registration.antt =====
-- mobile/src/features/notifications/push.ts: the registration of the device token, `start` and `stop`
-- of createPushSession, with the messages of Notifications. The promises of the device and of the
-- server settle by events. `pending` is a chain of tasks: the one that waits and those behind it; once
-- the session is stopped a task that has not begun returns at once, so `pending` has settled when
-- none waits.
pub mod Tasks
pub mod Laws
pub mod Steps
pub mod Ends
use coffix.Prelude.{
  ℕ, ◌+◌, ltb, leb, Bool, true, false, not, ◌&&◌, ◌||◌, Option, none, some, List, [], ◌∷◌, ◌++◌,
  Text, is_empty, trim, text_eq, length, if◌then◌else◌,
}
use coffix.Storage.{Outcome, ok, failed}
use coffix.Notifications
use coffix.Notifications.{MessageData}
use coffix.Notifications.Registration.Tasks.{
  PushState, Registered, DeviceRead, TaskPhase, StartPhase, StopPhase, State, initial, is_stopped,
  show_state, has_token, settled, is_invalid, begin_task, next_task, finish_task, fail_task,
  enqueue, register, with_access, conclude_task, replace_registered, with_device, on_access,
  on_device, on_deactivated, loading, ready, denied, error, idle, getting_access, registering,
  deactivating, not_started, asking_permission, getting_token, start_ended, awaiting_task, running,
  awaiting_token, awaiting_tasks, deactivating_last, deleting_token, stopped_all,
}

abbrev pub start : StartPhase → State → State
start not_started s = record s { start_phase = asking_permission; shown = loading ∷ s.shown }
start _ s = s

abbrev pub end_start : State → State
end_start s = record s { start_phase = start_ended }

abbrev pub on_permission : StartPhase → Outcome Bool → State → State
on_permission asking_permission failed s = show_state error (end_start s)
on_permission asking_permission (ok granted) s =
    if is_stopped s
    then end_start s
    else if not granted
    then show_state denied (end_start s)
    else record s { start_phase = getting_token; is_subscribed = true; token_pending = true }
on_permission _ outcome s = s

abbrev pub await_task : State → State
await_task s = record s { start_phase = awaiting_task s.begun }

abbrev pub on_token : StartPhase → Outcome Text → State → State
on_token getting_token failed s = show_state error (end_start (record s { token_pending = false }))
on_token getting_token (ok token) s =
    if is_stopped s
    then end_start (record s { token_pending = false })
    else await_task (register token (record s { token_pending = false }))
on_token _ outcome s = s

abbrev pub receive_initial : Outcome MessageData → State → State
receive_initial (ok payload) s = record s {
  messages = Notifications.on_message payload true s.messages;
}
receive_initial failed s = show_state error s

-- `device.initial()` is called when the task has settled and the session is not stopped.
abbrev pub on_initial : StartPhase → Outcome MessageData → State → State
on_initial (awaiting_task n) outcome s =
    if leb n s.finished && not (is_stopped s) then receive_initial outcome (end_start s) else s
on_initial _ outcome s = s

abbrev pub stop : State → State
stop s = if is_stopped s then s else record s {
  messages = Notifications.stop_session s.messages;
  is_subscribed = false;
  stop_phase = awaiting_token;
}

abbrev pub deactivate_last : Option Registered → State → State
deactivate_last none s = record s {
  stop_phase = deleting_token;
  token_deletions = s.token_deletions + 1;
}
deactivate_last (some registered) s = record s {
  stop_phase = deactivating_last;
  deactivations = registered.id ∷ s.deactivations;
}

-- What `stop` does as soon as its promises have settled.
abbrev pub stop_tasks : TaskPhase → State → State
stop_tasks idle s = deactivate_last s.registered s
stop_tasks _ s = record s { stop_phase = awaiting_tasks }

abbrev pub proceed_phase : StopPhase → State → State
proceed_phase awaiting_token s = if s.token_pending then s else stop_tasks s.task s
proceed_phase awaiting_tasks s = stop_tasks s.task s
proceed_phase _ s = s

unfoldable pub proceed : State → State
proceed s = proceed_phase s.stop_phase s

abbrev pub on_last_deactivated : StopPhase → State → State
on_last_deactivated deactivating_last s = record s {
  stop_phase = deleting_token;
  token_deletions = s.token_deletions + 1;
}
on_last_deactivated _ s = s

abbrev pub on_token_deleted : StopPhase → State → State
on_token_deleted deleting_token s = record s { stop_phase = stopped_all }
on_token_deleted _ s = s

pub data Event : Type 0 where
  started stop_called : Event
  arrived : MessageData → Bool → Event
  rotated : Text → Event
  permitted : Outcome Bool → Event
  token_read : Outcome Text → Event
  initial_read : Outcome MessageData → Event
  access_read : Outcome (Option Text) → Event
  device_read : Outcome DeviceRead → Event
  deactivated : Outcome (Unit {0}) → Event
  last_deactivated token_deleted : Outcome (Unit {0}) → Event

unfoldable pub handle : Event → State → State
unfolding register
handle started s = start s.start_phase s
handle stop_called s = stop s
handle (arrived payload tapped) s = record s {
  messages = Notifications.on_message payload tapped s.messages;
}
handle (rotated token) s = register token s
handle (permitted outcome) s = on_permission s.start_phase outcome s
handle (token_read outcome) s = on_token s.start_phase outcome s
handle (initial_read outcome) s = on_initial s.start_phase outcome s
handle (access_read outcome) s = on_access s.task outcome s
handle (device_read outcome) s = on_device s.task outcome s
handle (deactivated outcome) s = on_deactivated s.task outcome s
handle (last_deactivated outcome) s = on_last_deactivated s.stop_phase s
handle (token_deleted outcome) s = on_token_deleted s.stop_phase s

unfoldable pub step : Event → State → State
unfolding handle proceed
step event s = proceed (handle event s)

unfoldable pub run : List Event → State → State
unfolding step
run [] s = s
run (event ∷ events) s = run events (step event s)
