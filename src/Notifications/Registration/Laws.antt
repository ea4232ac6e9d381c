-- ===== src/Notifications/Registration/Laws.antt =====
-- No registration of the device outlives the session.
use coffix.Prelude.{
  ◌≡◌, refl, ◌∙◌, ap, subst, Bool, true, false, ◌||◌, Option, none, some, List, [], ◌∷◌, Text,
  text_eq, text_eq_iff, All, if_ind, arith,
}
use coffix.Notifications.{has_id}
use coffix.Notifications.Registration.Tasks.{
  ready, error, Registered, DeviceRead, idle, deactivating, StopPhase, running, deactivating_last,
  deleting_token, stopped_all, State, is_stopped, show_state, has_token, settled, is_invalid,
  begin_task, next_task, finish_task, fail_task, conclude_task, replace_registered,
}

abbrev pub is_registered : Option Registered → Text → Bool
is_registered none id = false
is_registered (some registered) id = text_eq id registered.id

abbrev pub is_known : Option Registered → List Text → Text → Bool
is_known registered deactivations id = has_id id deactivations || is_registered registered id

-- `stop` has asked for the last deactivation.
abbrev pub is_past : StopPhase → Bool
is_past deactivating_last = true
is_past deleting_token = true
is_past stopped_all = true
is_past _ = false

abbrev pub is_called : StopPhase → Bool
is_called running = false
is_called _ = true

abbrev pub is_revoked : Option Registered → List Text → Bool
is_revoked none deactivations = true
is_revoked (some registered) deactivations = has_id registered.id deactivations

-- Each registration that the server answered is the last one, or its deactivation was asked for.
pub record IsCounted (s : State) : Type 0 where
  pub known : All (λ id. is_known s.registered s.deactivations id ≡ true) s.answered
  pub halted : is_called s.stop_phase ≡ true → is_stopped s ≡ true

pub record IsEnded (s : State) : Type 0 where
  pub no_task : s.task ≡ idle
  pub revoked : is_revoked s.registered s.deactivations ≡ true

pub record IsAccounted (s : State) : Type 0 where
  pub counted : IsCounted s
  pub ended : is_past s.stop_phase ≡ true → IsEnded s

-- What the beginning of tasks keeps.
pub record IsBegun (s t : State) : Type 0 where
  pub counted : IsCounted t
  pub same_stop : t.stop_phase ≡ s.stop_phase
  pub none_when_stopped : is_stopped s ≡ true → t.task ≡ idle
  pub same_registered : t.registered ≡ s.registered
  pub same_deactivations : t.deactivations ≡ s.deactivations

begin_task-IsBegun :
    (skipped invalid : Bool) (next : State → State) (token : Text) (more : List Text) (s : State)
    → ((t : State) → IsCounted t → IsBegun t (next t))
    → (is_stopped s ≡ true → skipped ≡ true)
    → IsCounted s
    → IsBegun s (begin_task skipped invalid next token more s)
begin_task-IsBegun true invalid next token more s keep skip h =
    let k = keep (settled s) (record { known = h.known; halted = h.halted }) in
    record {
      counted = k.counted;
      same_stop = k.same_stop;
      none_when_stopped = k.none_when_stopped;
      same_registered = k.same_registered;
      same_deactivations = k.same_deactivations;
    }
begin_task-IsBegun false true next token more s keep skip h =
    let k = keep (show_state error (settled s)) (record { known = h.known; halted = h.halted }) in
    record {
      counted = k.counted;
      same_stop = k.same_stop;
      none_when_stopped = k.none_when_stopped;
      same_registered = k.same_registered;
      same_deactivations = k.same_deactivations;
    }
begin_task-IsBegun false false next token more s keep skip h = record {
  counted = record { known = h.known; halted = h.halted };
  same_stop = refl;
  none_when_stopped = λ e. cc (skip e);
  same_registered = refl;
  same_deactivations = refl;
}

pub next_task-IsBegun :
    (tasks : List Text) (s : State) → IsCounted s → IsBegun s (next_task tasks s)
unfolding next_task
next_task-IsBegun [] s h = record {
  counted = record { known = h.known; halted = h.halted };
  same_stop = refl;
  none_when_stopped = λ e. refl;
  same_registered = refl;
  same_deactivations = refl;
}
next_task-IsBegun (token ∷ more) s h =
    begin_task-IsBegun (is_stopped s || has_token s.registered token) (is_invalid token)
      (next_task more) token more s (next_task-IsBegun more) (λ e. ground arith) h

-- While `stop` has not asked for the last deactivation.
pub open-IsAccounted : (s : State) → is_past s.stop_phase ≡ false → IsCounted s → IsAccounted s
open-IsAccounted s e h = record { counted = h; ended = λ past. cc }

pub finish_task-IsAccounted :
    (s : State) → is_past s.stop_phase ≡ false → IsCounted s → IsAccounted (finish_task s)
finish_task-IsAccounted s e h =
    let k = next_task-IsBegun s.tasks (settled s) (record { known = h.known; halted = h.halted }) in
    open-IsAccounted (finish_task s) (ap is_past k.same_stop ∙ e) k.counted

pub fail_task-IsAccounted :
    (s : State) → is_past s.stop_phase ≡ false → IsCounted s → IsAccounted (fail_task s)
fail_task-IsAccounted s e h =
    finish_task-IsAccounted (show_state error s) e (record { known = h.known; halted = h.halted })

pub conclude_task-IsAccounted :
    (active : Bool) (s : State)
    → is_past s.stop_phase ≡ false
    → IsCounted s
    → IsAccounted (conclude_task active s)
conclude_task-IsAccounted true s e h =
    finish_task-IsAccounted (show_state ready s) e (record { known = h.known; halted = h.halted })
conclude_task-IsAccounted false s e h = fail_task-IsAccounted s e h

-- Ids that were known stay known when a deactivation is asked for.
pub All-known_cons :
    (registered : Option Registered) (deactivations : List Text) (id : Text) (answered : List Text)
    → All (λ a. is_known registered deactivations a ≡ true) answered
    → All (λ a. is_known registered (id ∷ deactivations) a ≡ true) answered
All-known_cons registered deactivations id [] h = tt
All-known_cons registered deactivations id (a ∷ more) h =
    (ground (arith, h.0), All-known_cons registered deactivations id more h.1)

-- The registration changes: the earlier one is none, has the same id, or is deactivated.
All-known_first :
    (next : Registered) (deactivations : List Text) (answered : List Text)
    → All (λ a. is_known none deactivations a ≡ true) answered
    → All (λ a. is_known (some next) deactivations a ≡ true) answered
All-known_first next deactivations [] h = tt
All-known_first next deactivations (a ∷ more) h =
    (ground (arith, h.0), All-known_first next deactivations more h.1)

All-known_same :
    (previous next : Registered) (deactivations : List Text) (answered : List Text)
    → previous.id ≡ next.id
    → All (λ a. is_known (some previous) deactivations a ≡ true) answered
    → All (λ a. is_known (some next) deactivations a ≡ true) answered
All-known_same previous next deactivations answered e h =
    subst (λ id. All (λ a. (has_id a deactivations || text_eq a id) ≡ true) answered) e h

All-known_replaced :
    (previous next : Registered) (deactivations : List Text) (answered : List Text)
    → All (λ a. is_known (some previous) deactivations a ≡ true) answered
    → All (λ a. is_known (some next) (previous.id ∷ deactivations) a ≡ true) answered
All-known_replaced previous next deactivations [] h = tt
All-known_replaced previous next deactivations (a ∷ more) h =
    (ground (arith, h.0), All-known_replaced previous next deactivations more h.1)

pub with_device-IsAccounted :
    (registered : Option Registered) (token access : Text) (device : DeviceRead) (s : State)
    → s.registered ≡ registered
    → is_past s.stop_phase ≡ false
    → IsCounted s
    → IsAccounted (
        replace_registered registered device (record s {
          registered = some (record { id = device.id; access = access; token = token });
          answered = device.id ∷ s.answered;
        }))
with_device-IsAccounted none token access device s same e h =
    conclude_task-IsAccounted device.is_active
      (record s {
        registered = some (record { id = device.id; access = access; token = token });
        answered = device.id ∷ s.answered;
      })
      e
      (record {
        known = (
          ground (arith, text_eq_iff device.id device.id),
          All-known_first (record { id = device.id; access = access; token = token })
              s.deactivations s.answered
              (subst (λ r. All (λ a. is_known r s.deactivations a ≡ true) s.answered) same h.known),
        );
        halted = h.halted;
      })
with_device-IsAccounted (some previous) token access device s same e h =
    let next : Registered = record { id = device.id; access = access; token = token } in
    let known =
      subst (λ r. All (λ a. is_known r s.deactivations a ≡ true) s.answered) same h.known in
    if_ind IsAccounted (text_eq previous.id device.id)
      (conclude_task device.is_active
        (record s { registered = some next; answered = device.id ∷ s.answered }))
      (record s {
        registered = some next;
        answered = device.id ∷ s.answered;
        task = deactivating device.is_active;
        deactivations = previous.id ∷ s.deactivations;
      })
      (λ same_id.
        conclude_task-IsAccounted device.is_active
          (record s { registered = some next; answered = device.id ∷ s.answered }) e
          (record {
            known = (
              ground (arith, text_eq_iff device.id device.id),
              All-known_same previous next s.deactivations s.answered
                  ((text_eq_iff previous.id device.id).0 same_id) known,
            );
            halted = h.halted;
          }))
      (λ other.
        open-IsAccounted
          (record s {
            registered = some next;
            answered = device.id ∷ s.answered;
            task = deactivating device.is_active;
            deactivations = previous.id ∷ s.deactivations;
          })
          e
          (record {
            known = (
              ground (arith, text_eq_iff device.id device.id),
              All-known_replaced previous next s.deactivations s.answered known,
            );
            halted = h.halted;
          }))
