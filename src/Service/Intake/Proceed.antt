-- ===== src/Service/Intake/Proceed.antt =====
-- mobile/src/features/service/IntakeScreen.tsx: `proceed` after its awaits, and `finish`. An answer of the
-- server, the store or the options is an event; reconcileSubmission is in Service/Submission.
pub mod Laws
pub mod Steps
pub mod Persists
pub mod Left
use coffix.Prelude.{
  ℕ, ◌+◌, ◌-◌, or_else, String, str_eq, Bool, true, false, not, ◌&&◌, ◌||◌, Option, none, some,
  List, [], ◌∷◌, map, Text, text_eq, is_empty, any, find, first, leb, ltb, ◌==◌, is_some,
  if◌then◌else◌,
}
use coffix.Storage.{Outcome, ok, failed}
use coffix.Api.{ApiError, problem, other}
use coffix.Service.Submission.{LocationMode, bring_in, pickup, is_definite_rejection}
use coffix.Service.Intake.{
  ServiceCreate, Submission, IntakeDraft, IntakeMessage, type_missing, urgency_missing,
  description_invalid, fee_unknown, details_changed, window_gone, address_gone, Checked, valid,
  invalid, is_description, intake_input,
}
use coffix.Service.Intake.Page.{
  Answer, Phase, ProceedMessage, ServiceOptions, ServiceType, State, after_save, answered, at_rest,
  caught_message, check_and_save, clearing, clearing_created, creating, error_of, fail,
  intake_message, is_resting, is_type, listing, no_message, not_saved, not_verified, proceed,
  proceed_options, proceed_with, reconciling, reconciling_lost, refetching, save_step, saving_step,
  saving_submission, selected, step_error, submission_unknown, submission_unverified, threw,
  type_ids, type_unavailable, unsaving, urgency, urgency_or,
}

-- The type and the version of the options are those that the page has shown.
abbrev pub is_unchanged : ServiceType → ServiceOptions → ServiceOptions → Bool
is_unchanged type options latest = elim (find (is_type type.id) latest.service_types) [
  | none ↦ false
  | some now ↦
      now.diagnostic_fee_agorot == type.diagnostic_fee_agorot && latest.version == options.version
]

abbrev pub is_time : Option ℕ → ℕ → Bool
is_time none time = false
is_time (some own) time = own == time

abbrev pub has_window : List (Option ℕ × Option ℕ) → Option (ℕ × ℕ) → Bool
has_window windows none = true
has_window windows (some (start, end)) =
    any (λ (w : Option ℕ × Option ℕ). is_time w.0 start && is_time w.1 end) windows

abbrev pub list_requests : IntakeDraft → ServiceOptions → Checked ServiceCreate → State → State
list_requests draft latest (invalid message) s = fail (intake_message message) s
list_requests draft latest (valid input) s =
    if not (has_window latest.preferred_windows input.preferred_window)
    then fail (intake_message window_gone) s
    else if elim draft.location_mode [ bring_in ↦ false | pickup ↦ not (is_empty draft.address_id) ]
        && not s.address_known
    then fail (intake_message address_gone) s
    else record s { phase = listing (record input { intake_version = some latest.version }) }

abbrev pub on_refetched : (Text → Option ℕ) → Phase → Outcome ServiceOptions → State → State
on_refetched date (refetching draft options type chosen) failed s =
    fail (intake_message fee_unknown) s
on_refetched date (refetching draft options type chosen) (ok latest) s =
    if not (is_unchanged type options latest)
    then fail (intake_message details_changed) (record s { options = some latest })
    else list_requests draft latest
        (intake_input date (record draft { urgency_id = chosen }) (type_ids latest)
          latest.max_media_files)
        (record s { options = some latest })
on_refetched date _ outcome s = s

abbrev pub create : ServiceCreate → State → State
create input s = record s {
  phase = creating;
  creates = (input, s.stored) ∷ s.creates;
  unresolved = s.unresolved + 1;
}

-- `update({ submission })`, and the creation at once on a page that was left.
abbrev pub save_submission : ServiceCreate → Submission → State → State
save_submission input submission s =
    if s.is_active
    then record s {
      draft = record s.draft { submission = some submission };
      phase = saving_submission input (record s.draft { submission = some submission });
    }
    else create input s

abbrev pub on_listed : Phase → Answer (List Text) → State → State
on_listed (listing input) (threw error) s = fail (caught_message error) s
on_listed (listing input) (answered ids) s =
    save_submission input (record { existing_ids = ids; input = input }) s
on_listed _ outcome s = s

-- How a save of the store settles.
abbrev pub on_saved : Phase → Outcome (Unit {0}) → State → State
on_saved (saving_step draft options type chosen) (ok answer) s =
    after_save draft options type chosen (record s { stored = some s.draft })
on_saved (saving_submission input saved) (ok answer) s =
    create input (record s { stored = some saved })
on_saved (unsaving error) (ok answer) s =
    fail (caught_message error) (record s { stored = some s.draft })
on_saved (saving_step draft options type chosen) failed s = fail not_verified s
on_saved (saving_submission input saved) failed s = fail not_verified s
on_saved (unsaving error) failed s = fail not_verified s
on_saved _ outcome s = s

-- `update({ submission: null })`, and the error again.
abbrev pub unsave : ApiError → State → State
unsave error s =
    if s.is_active
    then record s { draft = record s.draft { submission = none }; phase = unsaving error }
    else fail (caught_message error) s

abbrev pub on_refused : ApiError → State → State
on_refused error s =
    if is_definite_rejection error
    then unsave error (record s { unresolved = s.unresolved - 1 })
    else record s { phase = reconciling_lost }

-- How `serviceApi.create` settles, with the id of the request.
abbrev pub on_created : Phase → Answer Text → State → State
on_created creating (answered id) s = record s {
  phase = clearing_created;
  unresolved = s.unresolved - 1;
}
on_created creating (threw error) s = on_refused error s
on_created _ answer s = s

-- Whether reconcileSubmission has found the request.
abbrev pub on_reconciled : Phase → Answer (Option Text) → State → State
on_reconciled reconciling (answered (some id)) s = record s {
  phase = clearing;
  unresolved = s.unresolved - 1;
}
on_reconciled reconciling (answered none) s = fail submission_unverified s
on_reconciled reconciling (threw error) s = fail (caught_message error) s
on_reconciled reconciling_lost (answered (some id)) s = record s {
  phase = clearing;
  unresolved = s.unresolved - 1;
}
on_reconciled reconciling_lost (answered none) s = fail submission_unknown s
on_reconciled reconciling_lost (threw error) s = fail (caught_message error) s
on_reconciled _ outcome s = s

-- The end of `finish`; a page that was left shows nothing more.
abbrev pub finish : State → State
finish s = record s {
  phase = at_rest;
  stored = none;
  finished = if s.is_active then s.finished + 1 else s.finished;
}

-- `intakeStore.clear` in `finish`. After a creation its rejection is caught as a lost answer is.
abbrev pub on_cleared : Phase → Outcome (Unit {0}) → State → State
on_cleared clearing (ok answer) s = finish s
on_cleared clearing failed s = fail not_verified s
on_cleared clearing_created (ok answer) s = finish s
on_cleared clearing_created failed s = record s { phase = reconciling_lost }
on_cleared _ outcome s = s

abbrev pub is_saving : Phase → Bool
is_saving (saving_step draft options type chosen) = true
is_saving (saving_submission input saved) = true
is_saving (unsaving error) = true
is_saving _ = false

-- `load` of useIntakeDraft, which gives an empty draft where none is stored. One that was begun before
-- an update is dropped, and one that was begun after it waits for its save.
abbrev pub on_loaded : Outcome IntakeDraft → State → State
on_loaded failed s = s
on_loaded (ok empty) s =
    if s.is_active && not (is_saving s.phase)
    then record s { draft = or_else s.stored empty; ready = true }
    else s

abbrev pub store_saved : Outcome (Unit {0}) → IntakeDraft → Option IntakeDraft → Option IntakeDraft
store_saved (ok answer) draft stored = some draft
store_saved failed draft stored = stored

-- A change of the inputs, which are shown while the draft has no submission, and how its save settles.
abbrev pub on_edited : IntakeDraft → Outcome (Unit {0}) → State → State
on_edited changed outcome s =
    if not s.is_active || is_some s.draft.submission then s else record s {
      draft = record changed { submission = none };
      stored = store_saved outcome (record changed { submission = none }) s.stored;
    }

pub data Event : Type 0 where
  pressed left focused : Event
  loaded : Outcome IntakeDraft → Event
  edited : IntakeDraft → Outcome (Unit {0}) → Event
  refetched : Outcome ServiceOptions → Event
  listed : Answer (List Text) → Event
  saved : Outcome (Unit {0}) → Event
  create_settled : Answer Text → Event
  reconciled : Answer (Option Text) → Event
  cleared : Outcome (Unit {0}) → Event

unfoldable pub handle : (Text → Option ℕ) → Event → State → State
unfolding proceed
handle date pressed s = proceed date s
handle date left s = record s { is_active = false }
handle date focused s = record s { ready = false }
handle date (loaded outcome) s = on_loaded outcome s
handle date (edited changed outcome) s = on_edited changed outcome s
handle date (refetched outcome) s = on_refetched date s.phase outcome s
handle date (listed answer) s = on_listed s.phase answer s
handle date (saved outcome) s = on_saved s.phase outcome s
handle date (create_settled answer) s = on_created s.phase answer s
handle date (reconciled answer) s = on_reconciled s.phase answer s
handle date (cleared outcome) s = on_cleared s.phase outcome s

unfoldable pub run : (Text → Option ℕ) → List Event → State → State
unfolding handle
run date [] s = s
run date (event ∷ events) s = run date events (handle date event s)
