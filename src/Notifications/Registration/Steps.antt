-- ===== src/Notifications/Registration/Steps.antt =====
-- Every event keeps the account of the registrations.
use coffix.Prelude.{
  ◌+◌, leb, ◌≡◌, refl, sym, ◌∙◌, ap, subst, Bool, true, false, not, ◌&&◌, Option, none, some, [],
  ◌∷◌, ◌++◌, Text, All, if◌then◌else◌, if_ind, Bool-cases, inl, inr,
}
use coffix.Storage.{Outcome, ok, failed}
use coffix.Notifications.{MessageData}
use coffix.Notifications.Laws.{on_message-stopped}
use coffix.Notifications.Registration.{
  start, end_start, on_permission, await_task, on_token, receive_initial, on_initial,
}
use coffix.Notifications.Registration.Tasks.{
  denied, error, DeviceRead, TaskPhase, idle, getting_access, registering, deactivating, StartPhase,
  not_started, asking_permission, getting_token, start_ended, awaiting_task, StopPhase, running,
  awaiting_token, awaiting_tasks, deactivating_last, deleting_token, stopped_all, State, is_stopped,
  show_state, next_task, finish_task, enqueue, register, with_access, on_access, on_device,
  on_deactivated,
}
use coffix.Notifications.Registration.Laws.{
  is_known, is_past, is_called, is_revoked, IsCounted, IsAccounted, next_task-IsBegun,
  open-IsAccounted, finish_task-IsAccounted, fail_task-IsAccounted, conclude_task-IsAccounted,
  with_device-IsAccounted,
}

-- An event that touches neither the registrations nor a task.
pub kept-IsAccounted :
    (s t : State)
    → IsAccounted s
    → t.registered ≡ s.registered
    → t.deactivations ≡ s.deactivations
    → t.answered ≡ s.answered
    → t.stop_phase ≡ s.stop_phase
    → is_stopped t ≡ is_stopped s
    → t.task ≡ s.task
    → IsAccounted t
kept-IsAccounted s t h r d a p m k = record {
  counted = record {
    known =
        subst (λ x. All (λ id. is_known x t.deactivations id ≡ true) t.answered) (sym r)
          (subst (λ x. All (λ id. is_known s.registered x id ≡ true) t.answered) (sym d)
            (subst (λ x. All (λ id. is_known s.registered s.deactivations id ≡ true) x) (sym a)
              h.counted.known));
    halted = λ e. m ∙ h.counted.halted (sym (ap is_called p) ∙ e);
  };
  ended = λ e.
      let old = h.ended (sym (ap is_past p) ∙ e) in
      record {
        no_task = k ∙ old.no_task;
        revoked =
            subst (λ x. is_revoked x t.deactivations ≡ true) (sym r)
              (subst (λ x. is_revoked s.registered x ≡ true) (sym d) old.revoked);
      };
}

-- A task waits only until `stop` asks for the last deactivation.
not_past : (s : State) → IsAccounted s → (s.task ≡ idle → ⊥) → is_past s.stop_phase ≡ false
not_past s h busy = elim (Bool-cases (is_past s.stop_phase)) [
  | inl past ↦ absurd (busy ((h.ended past).no_task))
  | inr no_past ↦ no_past
]

is_called_of_past : (p : StopPhase) → is_past p ≡ true → is_called p ≡ true
is_called_of_past deactivating_last e = refl
is_called_of_past deleting_token e = refl
is_called_of_past stopped_all e = refl
is_called_of_past running e = cc
is_called_of_past awaiting_token e = cc
is_called_of_past awaiting_tasks e = cc

queue_task-IsAccounted :
    (token : Text) (s : State)
    → IsAccounted s
    → IsAccounted (record s { tasks = s.tasks ++ token ∷ [] })
queue_task-IsAccounted token s h =
    kept-IsAccounted s (record s { tasks = s.tasks ++ token ∷ [] }) h refl refl refl refl refl refl

enqueue-IsAccounted :
    (phase : TaskPhase) (token : Text) (s : State)
    → IsAccounted s
    → IsAccounted (enqueue phase token s)
enqueue-IsAccounted idle token s h =
    let k = next_task-IsBegun (token ∷ []) s h.counted in
    record {
      counted = k.counted;
      ended = λ e.
          let old = h.ended (sym (ap is_past k.same_stop) ∙ e) in
          record {
            no_task = k.none_when_stopped (
                h.counted.halted
                  (is_called_of_past s.stop_phase (sym (ap is_past k.same_stop) ∙ e)));
            revoked =
                subst (λ x. is_revoked x (next_task (token ∷ []) s).deactivations ≡ true)
                  (sym k.same_registered)
                  (subst (λ x. is_revoked s.registered x ≡ true) (sym k.same_deactivations)
                    old.revoked);
          };
    }
enqueue-IsAccounted (getting_access waiting) token s h = queue_task-IsAccounted token s h
enqueue-IsAccounted (registering waiting access) token s h = queue_task-IsAccounted token s h
enqueue-IsAccounted (deactivating active) token s h = queue_task-IsAccounted token s h

pub register-IsAccounted :
    (token : Text) (s : State) → IsAccounted s → IsAccounted (register token s)
unfolding register
register-IsAccounted token s h =
    enqueue-IsAccounted s.task token (record s { begun = s.begun + 1 })
      (kept-IsAccounted s (record s { begun = s.begun + 1 }) h refl refl refl refl refl refl)

-- The phase of a task that waits.
busy-IsAccounted :
    (s : State) (phase : TaskPhase)
    → (phase ≡ idle → ⊥)
    → s.task ≡ phase
    → IsAccounted s
    → is_past s.stop_phase ≡ false
busy-IsAccounted s phase busy e h = not_past s h (λ i. busy (sym e ∙ i))

with_access-IsAccounted :
    (token : Text) (access : Option Text) (s : State)
    → is_past s.stop_phase ≡ false
    → IsCounted s
    → IsAccounted (with_access token access s)
with_access-IsAccounted token none s e h = finish_task-IsAccounted s e h
with_access-IsAccounted token (some []) s e h = finish_task-IsAccounted s e h
with_access-IsAccounted token (some (c ∷ access)) s e h =
    if_ind IsAccounted (is_stopped s) (finish_task s)
      (record s { task = registering token (c ∷ access) }) (λ _. finish_task-IsAccounted s e h)
      (λ _.
        open-IsAccounted (record s { task = registering token (c ∷ access) }) e
          (record { known = h.known; halted = h.halted }))

pub on_access-IsAccounted :
    (phase : TaskPhase) (outcome : Outcome (Option Text)) (s : State)
    → s.task ≡ phase
    → IsAccounted s
    → IsAccounted (on_access phase outcome s)
on_access-IsAccounted (getting_access token) (ok access) s e h =
    with_access-IsAccounted token access s (busy-IsAccounted s (getting_access token) (λ i. cc) e h)
      h.counted
on_access-IsAccounted (getting_access token) failed s e h =
    fail_task-IsAccounted s (busy-IsAccounted s (getting_access token) (λ i. cc) e h) h.counted
on_access-IsAccounted idle outcome s e h = h
on_access-IsAccounted (registering token access) outcome s e h = h
on_access-IsAccounted (deactivating active) outcome s e h = h

pub on_device-IsAccounted :
    (phase : TaskPhase) (outcome : Outcome DeviceRead) (s : State)
    → s.task ≡ phase
    → IsAccounted s
    → IsAccounted (on_device phase outcome s)
on_device-IsAccounted (registering token access) (ok device) s e h =
    with_device-IsAccounted s.registered token access device s refl
      (busy-IsAccounted s (registering token access) (λ i. cc) e h) h.counted
on_device-IsAccounted (registering token access) failed s e h =
    fail_task-IsAccounted s (busy-IsAccounted s (registering token access) (λ i. cc) e h) h.counted
on_device-IsAccounted idle outcome s e h = h
on_device-IsAccounted (getting_access token) outcome s e h = h
on_device-IsAccounted (deactivating active) outcome s e h = h

pub on_deactivated-IsAccounted :
    (phase : TaskPhase) (outcome : Outcome (Unit {0})) (s : State)
    → s.task ≡ phase
    → IsAccounted s
    → IsAccounted (on_deactivated phase outcome s)
on_deactivated-IsAccounted (deactivating active) (ok answer) s e h =
    conclude_task-IsAccounted active s (busy-IsAccounted s (deactivating active) (λ i. cc) e h)
      h.counted
on_deactivated-IsAccounted (deactivating active) failed s e h =
    fail_task-IsAccounted s (busy-IsAccounted s (deactivating active) (λ i. cc) e h) h.counted
on_deactivated-IsAccounted idle outcome s e h = h
on_deactivated-IsAccounted (getting_access token) outcome s e h = h
on_deactivated-IsAccounted (registering token access) outcome s e h = h

-- A change of what an account does not speak of.
abbrev pub Same : State → State → Type 0
Same s t =
    (t.registered ≡ s.registered)
    × (t.deactivations ≡ s.deactivations)
    × (t.answered ≡ s.answered)
    × (t.stop_phase ≡ s.stop_phase)
    × (is_stopped t ≡ is_stopped s)
    × (t.task ≡ s.task)

pub Same-IsAccounted : (s t : State) → IsAccounted s → Same s t → IsAccounted t
Same-IsAccounted s t h e = kept-IsAccounted s t h e.0 e.1 e.2 e.3 e.4 e.5

pub start_lem : (phase : StartPhase) (s : State) → Same s (start phase s)
start_lem not_started s = (refl, refl, refl, refl, refl, refl)
start_lem asking_permission s = (refl, refl, refl, refl, refl, refl)
start_lem getting_token s = (refl, refl, refl, refl, refl, refl)
start_lem start_ended s = (refl, refl, refl, refl, refl, refl)
start_lem (awaiting_task n) s = (refl, refl, refl, refl, refl, refl)

pub on_permission_lem :
    (phase : StartPhase) (outcome : Outcome Bool) (s : State)
    → Same s (on_permission phase outcome s)
on_permission_lem asking_permission failed s = (refl, refl, refl, refl, refl, refl)
on_permission_lem asking_permission (ok granted) s =
    if_ind (Same s) (is_stopped s) (end_start s)
      (if not granted
        then show_state denied (end_start s)
        else record s { start_phase = getting_token; is_subscribed = true; token_pending = true })
      (λ _. (refl, refl, refl, refl, refl, refl))
      (λ _.
        if_ind (Same s) (not granted) (show_state denied (end_start s))
          (record s { start_phase = getting_token; is_subscribed = true; token_pending = true })
          (λ _. (refl, refl, refl, refl, refl, refl)) (λ _. (refl, refl, refl, refl, refl, refl)))
on_permission_lem not_started outcome s = (refl, refl, refl, refl, refl, refl)
on_permission_lem getting_token outcome s = (refl, refl, refl, refl, refl, refl)
on_permission_lem start_ended outcome s = (refl, refl, refl, refl, refl, refl)
on_permission_lem (awaiting_task n) outcome s = (refl, refl, refl, refl, refl, refl)

receive_initial_lem :
    (outcome : Outcome MessageData) (s : State) → Same s (receive_initial outcome s)
receive_initial_lem (ok payload) s =
    (refl, refl, refl, refl, on_message-stopped payload true s.messages, refl)
receive_initial_lem failed s = (refl, refl, refl, refl, refl, refl)

pub on_initial_lem :
    (phase : StartPhase) (outcome : Outcome MessageData) (s : State)
    → Same s (on_initial phase outcome s)
on_initial_lem (awaiting_task n) outcome s =
    if_ind (Same s) (leb n s.finished && not (is_stopped s)) (receive_initial outcome (end_start s))
      s (λ _. receive_initial_lem outcome (end_start s)) (λ _. (refl, refl, refl, refl, refl, refl))
on_initial_lem not_started outcome s = (refl, refl, refl, refl, refl, refl)
on_initial_lem asking_permission outcome s = (refl, refl, refl, refl, refl, refl)
on_initial_lem getting_token outcome s = (refl, refl, refl, refl, refl, refl)
on_initial_lem start_ended outcome s = (refl, refl, refl, refl, refl, refl)

pub on_token-IsAccounted :
    (phase : StartPhase) (outcome : Outcome Text) (s : State)
    → IsAccounted s
    → IsAccounted (on_token phase outcome s)
on_token-IsAccounted getting_token failed s h =
    Same-IsAccounted s (show_state error (end_start (record s { token_pending = false }))) h
      (refl, refl, refl, refl, refl, refl)
on_token-IsAccounted getting_token (ok token) s h =
    if_ind IsAccounted (is_stopped s) (end_start (record s { token_pending = false }))
      (await_task (register token (record s { token_pending = false })))
      (λ _.
        Same-IsAccounted s (end_start (record s { token_pending = false })) h
          (refl, refl, refl, refl, refl, refl))
      (λ _.
        Same-IsAccounted (register token (record s { token_pending = false }))
          (await_task (register token (record s { token_pending = false })))
          (register-IsAccounted token (record s { token_pending = false })
            (Same-IsAccounted s (record s { token_pending = false }) h
              (refl, refl, refl, refl, refl, refl)))
          (refl, refl, refl, refl, refl, refl))
on_token-IsAccounted not_started outcome s h = h
on_token-IsAccounted asking_permission outcome s h = h
on_token-IsAccounted start_ended outcome s h = h
on_token-IsAccounted (awaiting_task n) outcome s h = h
