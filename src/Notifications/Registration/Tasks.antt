-- ===== src/Notifications/Registration/Tasks.antt =====
-- mobile/src/features/notifications/push.ts: the state of createPushSession, and `register` with its
-- chain of tasks.
use coffix.Prelude.{
  ℕ, ◌+◌, ltb, Bool, true, false, ◌||◌, Option, none, some, List, [], ◌∷◌, ◌++◌, Text, is_empty,
  trim, text_eq, length, if◌then◌else◌,
}
use coffix.Storage.{Outcome, ok, failed}
use coffix.Notifications
use coffix.Notifications.{MessageData}

pub data PushState : Type 0 where
  loading ready denied error : PushState

pub record Registered : Type 0 where
  pub id : Text
  pub access : Text
  pub token : Text

-- The answer of `notificationsApi.register`
pub record DeviceRead : Type 0 where
  pub id : Text
  pub is_active : Bool

pub data TaskPhase : Type 0 where
  idle : TaskPhase
  getting_access : Text → TaskPhase
  registering : Text → Text → TaskPhase
  deactivating : Bool → TaskPhase

pub data StartPhase : Type 0 where
  not_started asking_permission getting_token start_ended : StartPhase
  awaiting_task : ℕ → StartPhase

pub data StopPhase : Type 0 where
  running awaiting_token awaiting_tasks deactivating_last deleting_token stopped_all : StopPhase

-- `tasks` wait behind the one in `task`; `begun` and `finished` count the calls of `register` and the
-- tasks that have settled. `answered` are the ids of the server's answers, `deactivations` those that
-- the server was asked to deactivate, `shown` the states of `onState`, the last one first.
pub record State : Type 0 where
  pub messages : Notifications.State
  pub task : TaskPhase
  pub tasks : List Text
  pub begun : ℕ
  pub finished : ℕ
  pub start_phase : StartPhase
  pub stop_phase : StopPhase
  pub token_pending : Bool
  pub is_subscribed : Bool
  pub registered : Option Registered
  pub answered : List Text
  pub deactivations : List Text
  pub shown : List PushState
  pub token_deletions : ℕ

abbrev pub initial : State
initial = record {
  messages = Notifications.initial;
  task = idle;
  tasks = [];
  begun = 0;
  finished = 0;
  start_phase = not_started;
  stop_phase = running;
  token_pending = false;
  is_subscribed = false;
  registered = none;
  answered = [];
  deactivations = [];
  shown = [];
  token_deletions = 0;
}

abbrev pub is_stopped : State → Bool
is_stopped s = s.messages.stopped

-- `if (!stopped) onState(state)`
abbrev pub show_state : PushState → State → State
show_state state s = record s { shown = if is_stopped s then s.shown else state ∷ s.shown }

abbrev pub has_token : Option Registered → Text → Bool
has_token none token = false
has_token (some registered) token = text_eq registered.token token

abbrev pub settled : State → State
settled s = record s { finished = s.finished + 1 }

abbrev pub is_invalid : Text → Bool
is_invalid token = is_empty (trim token) || ltb 512 (length token)

-- A task begins, with the one after it: it returns at once, throws, or waits for the access token.
abbrev pub begin_task : Bool → Bool → (State → State) → Text → List Text → State → State
begin_task true invalid next token more s = next (settled s)
begin_task false true next token more s = next (show_state error (settled s))
begin_task false false next token more s = record s { task = getting_access token; tasks = more }

-- The tasks that begin, up to the first one that waits.
unfoldable pub next_task : List Text → State → State
next_task [] s = record s { task = idle; tasks = [] }
next_task (token ∷ more) s =
    begin_task (is_stopped s || has_token s.registered token) (is_invalid token) (next_task more)
      token more s

abbrev pub finish_task : State → State
finish_task s = next_task s.tasks (settled s)

abbrev pub fail_task : State → State
fail_task s = finish_task (show_state error s)

abbrev pub enqueue : TaskPhase → Text → State → State
enqueue idle token s = next_task (token ∷ []) s
enqueue _ token s = record s { tasks = s.tasks ++ token ∷ [] }

unfoldable pub register : Text → State → State
unfolding next_task
register token s = enqueue s.task token (record s { begun = s.begun + 1 })

-- `!access`
abbrev pub with_access : Text → Option Text → State → State
with_access token none s = finish_task s
with_access token (some []) s = finish_task s
with_access token (some (c ∷ access)) s =
    if is_stopped s then finish_task s else record s { task = registering token (c ∷ access) }

-- After the earlier registration is deactivated, or there is none.
abbrev pub conclude_task : Bool → State → State
conclude_task active s = if active then finish_task (show_state ready s) else fail_task s

abbrev pub replace_registered : Option Registered → DeviceRead → State → State
replace_registered none device s = conclude_task device.is_active s
replace_registered (some previous) device s =
    if text_eq previous.id device.id then conclude_task device.is_active s else record s {
      task = deactivating device.is_active;
      deactivations = previous.id ∷ s.deactivations;
    }

abbrev pub with_device : Text → Text → DeviceRead → State → State
with_device token access device s = replace_registered s.registered device (record s {
  registered = some (record { id = device.id; access = access; token = token });
  answered = device.id ∷ s.answered;
})

abbrev pub on_access : TaskPhase → Outcome (Option Text) → State → State
on_access (getting_access token) (ok access) s = with_access token access s
on_access (getting_access token) failed s = fail_task s
on_access _ outcome s = s

abbrev pub on_device : TaskPhase → Outcome DeviceRead → State → State
on_device (registering token access) (ok device) s = with_device token access device s
on_device (registering token access) failed s = fail_task s
on_device _ outcome s = s

abbrev pub on_deactivated : TaskPhase → Outcome (Unit {0}) → State → State
on_deactivated (deactivating active) (ok answer) s = conclude_task active s
on_deactivated (deactivating active) failed s = fail_task s
on_deactivated _ outcome s = s
