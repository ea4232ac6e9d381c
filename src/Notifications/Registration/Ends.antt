-- ===== src/Notifications/Registration/Ends.antt =====
-- When `stop` has asked for the last deactivation, every registration is deactivated.
use coffix.Prelude.{
  ◌+◌, ◌≡◌, refl, sym, ◌∙◌, ap, subst, true, false, Option, none, some, List, [], ◌∷◌, Text,
  text_eq_iff, All, if_ind, arith,
}
use coffix.Notifications
use coffix.Notifications.{MessageData, has_id, on_message, stop_session}
use coffix.Notifications.Laws.{on_message-stopped}
use coffix.Notifications.Registration.{
  start, on_permission, on_initial, stop, deactivate_last, stop_tasks, proceed_phase, proceed,
  on_last_deactivated, on_token_deleted, Event, started, stop_called, arrived, rotated, permitted,
  token_read, initial_read, access_read, device_read, deactivated, last_deactivated, token_deleted,
  handle, step, run,
}
use coffix.Notifications.Registration.Tasks.{
  Registered, TaskPhase, idle, getting_access, registering, deactivating, StopPhase, running,
  awaiting_token, awaiting_tasks, deactivating_last, deleting_token, stopped_all, State, initial,
  is_stopped,
}
use coffix.Notifications.Registration.Laws.{
  is_known, is_past, is_called, is_revoked, IsCounted, IsAccounted, open-IsAccounted,
  All-known_cons,
}
use coffix.Notifications.Registration.Steps.{
  Same, Same-IsAccounted, register-IsAccounted, on_access-IsAccounted, on_device-IsAccounted,
  on_deactivated-IsAccounted, start_lem, on_permission_lem, on_initial_lem, on_token-IsAccounted,
}

stop_session-stopped : (m : Notifications.State) → (stop_session m).stopped ≡ true
unfolding stop_session
stop_session-stopped m = ground arith

stop-IsAccounted : (s : State) → IsAccounted s → IsAccounted (stop s)
stop-IsAccounted s h =
    if_ind IsAccounted (is_stopped s) s
      (record s {
        messages = stop_session s.messages;
        is_subscribed = false;
        stop_phase = awaiting_token;
      })
      (λ _. h)
      (λ _.
        open-IsAccounted
          (record s {
            messages = stop_session s.messages;
            is_subscribed = false;
            stop_phase = awaiting_token;
          })
          refl (record { known = h.counted.known; halted = λ _. stop_session-stopped s.messages }))

deactivate_last-IsAccounted :
    (registered : Option Registered) (s : State)
    → s.registered ≡ registered
    → s.task ≡ idle
    → is_stopped s ≡ true
    → IsCounted s
    → IsAccounted (deactivate_last registered s)
deactivate_last-IsAccounted none s e i stopped h = record {
  counted = record { known = h.known; halted = λ _. stopped };
  ended = λ _. record {
    no_task = i;
    revoked = subst (λ r. is_revoked r s.deactivations ≡ true) (sym e) refl;
  };
}
deactivate_last-IsAccounted (some registered) s e i stopped h = record {
  counted = record {
    known = All-known_cons s.registered s.deactivations registered.id s.answered h.known;
    halted = λ _. stopped;
  };
  ended = λ _. record {
    no_task = i;
    revoked =
        subst (λ r. is_revoked r (registered.id ∷ s.deactivations) ≡ true) (sym e)
          (ground (arith, text_eq_iff registered.id registered.id));
  };
}

waiting-IsAccounted :
    (s : State)
    → is_stopped s ≡ true
    → IsCounted s
    → IsAccounted (record s { stop_phase = awaiting_tasks })
waiting-IsAccounted s stopped h =
    open-IsAccounted (record s { stop_phase = awaiting_tasks }) refl
      (record { known = h.known; halted = λ _. stopped })

stop_tasks-IsAccounted :
    (phase : TaskPhase) (s : State)
    → s.task ≡ phase
    → is_stopped s ≡ true
    → IsCounted s
    → IsAccounted (stop_tasks phase s)
stop_tasks-IsAccounted idle s e stopped h =
    deactivate_last-IsAccounted s.registered s refl e stopped h
stop_tasks-IsAccounted (getting_access token) s e stopped h = waiting-IsAccounted s stopped h
stop_tasks-IsAccounted (registering token access) s e stopped h = waiting-IsAccounted s stopped h
stop_tasks-IsAccounted (deactivating active) s e stopped h = waiting-IsAccounted s stopped h

proceed_phase-IsAccounted :
    (phase : StopPhase) (s : State)
    → s.stop_phase ≡ phase
    → IsAccounted s
    → IsAccounted (proceed_phase phase s)
proceed_phase-IsAccounted awaiting_token s e h =
    if_ind IsAccounted s.token_pending s (stop_tasks s.task s) (λ _. h)
      (λ _. stop_tasks-IsAccounted s.task s refl (h.counted.halted (ap is_called e)) h.counted)
proceed_phase-IsAccounted awaiting_tasks s e h =
    stop_tasks-IsAccounted s.task s refl (h.counted.halted (ap is_called e)) h.counted
proceed_phase-IsAccounted running s e h = h
proceed_phase-IsAccounted deactivating_last s e h = h
proceed_phase-IsAccounted deleting_token s e h = h
proceed_phase-IsAccounted stopped_all s e h = h

-- From one late phase of `stop` to the next.
later-IsAccounted :
    (s t : State) (phase : StopPhase)
    → s.stop_phase ≡ phase
    → is_past phase ≡ true
    → is_called phase ≡ true
    → Same s (record t { stop_phase = s.stop_phase })
    → IsAccounted s
    → IsAccounted t
later-IsAccounted s t phase e past called same h =
    let u : IsAccounted (record t { stop_phase = s.stop_phase }) =
      Same-IsAccounted s (record t { stop_phase = s.stop_phase }) h same in
    record {
      counted = record {
        known = u.counted.known;
        halted = λ _. u.counted.halted (ap is_called e ∙ called);
      };
      ended = λ _.
          let old = u.ended (ap is_past e ∙ past) in
          record { no_task = old.no_task; revoked = old.revoked };
    }

on_last_deactivated-IsAccounted :
    (phase : StopPhase) (s : State)
    → s.stop_phase ≡ phase
    → IsAccounted s
    → IsAccounted (on_last_deactivated phase s)
on_last_deactivated-IsAccounted deactivating_last s e h =
    later-IsAccounted s
      (record s { stop_phase = deleting_token; token_deletions = s.token_deletions + 1 })
      deactivating_last e refl refl (refl, refl, refl, refl, refl, refl) h
on_last_deactivated-IsAccounted running s e h = h
on_last_deactivated-IsAccounted awaiting_token s e h = h
on_last_deactivated-IsAccounted awaiting_tasks s e h = h
on_last_deactivated-IsAccounted deleting_token s e h = h
on_last_deactivated-IsAccounted stopped_all s e h = h

on_token_deleted-IsAccounted :
    (phase : StopPhase) (s : State)
    → s.stop_phase ≡ phase
    → IsAccounted s
    → IsAccounted (on_token_deleted phase s)
on_token_deleted-IsAccounted deleting_token s e h =
    later-IsAccounted s (record s { stop_phase = stopped_all }) deleting_token e refl refl
      (refl, refl, refl, refl, refl, refl) h
on_token_deleted-IsAccounted running s e h = h
on_token_deleted-IsAccounted awaiting_token s e h = h
on_token_deleted-IsAccounted awaiting_tasks s e h = h
on_token_deleted-IsAccounted deactivating_last s e h = h
on_token_deleted-IsAccounted stopped_all s e h = h

handle-IsAccounted : (event : Event) (s : State) → IsAccounted s → IsAccounted (handle event s)
unfolding handle
handle-IsAccounted started s h =
    Same-IsAccounted s (start s.start_phase s) h (start_lem s.start_phase s)
handle-IsAccounted stop_called s h = stop-IsAccounted s h
handle-IsAccounted (arrived payload tapped) s h =
    Same-IsAccounted s (record s { messages = on_message payload tapped s.messages }) h
      (refl, refl, refl, refl, on_message-stopped payload tapped s.messages, refl)
handle-IsAccounted (rotated token) s h = register-IsAccounted token s h
handle-IsAccounted (permitted outcome) s h =
    Same-IsAccounted s (on_permission s.start_phase outcome s) h
      (on_permission_lem s.start_phase outcome s)
handle-IsAccounted (token_read outcome) s h = on_token-IsAccounted s.start_phase outcome s h
handle-IsAccounted (initial_read outcome) s h =
    Same-IsAccounted s (on_initial s.start_phase outcome s) h
      (on_initial_lem s.start_phase outcome s)
handle-IsAccounted (access_read outcome) s h = on_access-IsAccounted s.task outcome s refl h
handle-IsAccounted (device_read outcome) s h = on_device-IsAccounted s.task outcome s refl h
handle-IsAccounted (deactivated outcome) s h = on_deactivated-IsAccounted s.task outcome s refl h
handle-IsAccounted (last_deactivated outcome) s h =
    on_last_deactivated-IsAccounted s.stop_phase s refl h
handle-IsAccounted (token_deleted outcome) s h = on_token_deleted-IsAccounted s.stop_phase s refl h

run-IsAccounted : (events : List Event) (s : State) → IsAccounted s → IsAccounted (run events s)
unfolding run step proceed
run-IsAccounted [] s h = h
run-IsAccounted (event ∷ events) s h = run-IsAccounted events (step event s) (
    proceed_phase-IsAccounted (handle event s).stop_phase (handle event s) refl
      (handle-IsAccounted event s h))

All-revoked :
    (registered : Option Registered) (deactivations answered : List Text)
    → is_revoked registered deactivations ≡ true
    → All (λ id. is_known registered deactivations id ≡ true) answered
    → All (λ id. has_id id deactivations ≡ true) answered
All-revoked registered deactivations [] e h = tt
All-revoked none deactivations (id ∷ more) e h =
    (ground (arith, h.0), All-revoked none deactivations more e h.1)
All-revoked (some last) deactivations (id ∷ more) e h = (
  ground (arith, h.0, e, text_eq_iff id last.id),
  All-revoked (some last) deactivations more e h.1,
)

-- In every order of starts, rotated tokens, messages, answers and a call of `stop`: once `stop` has
-- asked for the last deactivation, or found that there is nothing to deactivate, the deactivation of
-- every registration that the server has answered was asked for, and no task of registration waits.
pub run_revokes :
    (events : List Event)
    → is_past (run events initial).stop_phase ≡ true
    → All (λ id. has_id id (run events initial).deactivations ≡ true) (run events initial).answered
      × ((run events initial).task ≡ idle)
run_revokes events past =
    let h =
      run-IsAccounted events initial
        (record { counted = record { known = tt; halted = λ e. cc }; ended = λ e. cc }) in
    let end = h.ended past in
    (
      All-revoked (run events initial).registered (run events initial).deactivations
          (run events initial).answered end.revoked h.counted.known,
      end.no_task,
    )
