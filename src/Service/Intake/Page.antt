-- ===== src/Service/Intake/Page.antt =====
-- mobile/src/features/service/IntakeScreen.tsx: the page of an intake step, with the draft of
-- useIntakeDraft.ts, and `proceed` until its first await. `stored` is the draft that the intake store
-- would load, so a rejected save leaves it.
use coffix.Prelude.{
  ℕ, ◌+◌, str_eq, Bool, true, false, not, ◌&&◌, ◌||◌, Option, none, some, List, map, Text, text_eq,
  is_empty, find, first, leb, ltb, is_some, if◌then◌else◌,
}
use coffix.Api.{ApiError, problem, other}
use coffix.Service.Intake.{
  ServiceCreate, IntakeDraft, IntakeMessage, type_missing, urgency_missing, description_invalid,
  Checked, valid, invalid, is_description, intake_input,
}

pub record ServiceType : Type 0 where
  pub id : Text
  pub diagnostic_fee_agorot : ℕ

-- The ends of a window are times, or none where `Date.parse` gives NaN.
pub record ServiceOptions : Type 0 where
  pub service_types : List ServiceType
  pub urgencies : List Text
  pub max_media_files : ℕ
  pub version : ℕ
  pub preferred_windows : List (Option ℕ × Option ℕ)

pub data ProceedMessage : Type 0 where
  no_message submission_unverified submission_unknown type_unavailable not_saved not_verified :
      ProceedMessage
  intake_message : IntakeMessage → ProceedMessage

-- What `proceed` waits for, with what it has read before.
pub data Phase : Type 0 where
  at_rest reconciling clearing clearing_created creating reconciling_lost : Phase
  unsaving : ApiError → Phase
  saving_step : IntakeDraft → ServiceOptions → ServiceType → Text → Phase
  refetching : IntakeDraft → ServiceOptions → ServiceType → Text → Phase
  listing : ServiceCreate → Phase
  saving_submission : ServiceCreate → IntakeDraft → Phase

-- A page: `address_known` tells whether the chosen address was found. `creates` are the requests to
-- create, each with the draft that was stored when it was made, the last one first; `unresolved` counts
-- those of which it is not known yet whether the server has them.
pub record State : Type 0 where
  pub step : ℕ
  pub draft : IntakeDraft
  pub options : Option ServiceOptions
  pub ready : Bool
  pub media_busy : Bool
  pub address_known : Bool
  pub is_active : Bool
  pub phase : Phase
  pub message : ProceedMessage
  pub stored : Option IntakeDraft
  pub pages_pushed : ℕ
  pub finished : ℕ
  pub creates : List (ServiceCreate × Option IntakeDraft)
  pub unresolved : ℕ

-- An answer of the server, or the error that is thrown.
pub data Answer (A : Type 0) : Type 0 where
  answered : A → Answer A
  threw : ApiError → Answer A

-- The message of the outer `catch`, for an error of the server; any other has no Hebrew text.
abbrev pub caught_message : ApiError → ProceedMessage
caught_message (problem p) =
    if str_eq p.code "SERVICE_TYPE_NOT_AVAILABLE" then type_unavailable else not_saved
caught_message other = not_verified

abbrev pub is_type : Text → ServiceType → Bool
is_type id type = text_eq type.id id

abbrev pub selected : IntakeDraft → ServiceOptions → Option ServiceType
selected draft options = find (is_type draft.service_type_id) options.service_types

abbrev pub urgency : IntakeDraft → ServiceOptions → Option Text
urgency draft options =
    if is_empty draft.urgency_id
    then first options.urgencies
    else find (text_eq draft.urgency_id) options.urgencies

abbrev pub type_ids : ServiceOptions → List Text
type_ids options = map (λ (type : ServiceType). type.id) options.service_types

abbrev pub fail : ProceedMessage → State → State
fail message s = record s { phase = at_rest; message = message }

-- The error of the check, if there is one.
abbrev pub error_of : Checked ServiceCreate → Option IntakeMessage
error_of (valid input) = none
error_of (invalid message) = some message

abbrev pub step_error :
    (Text → Option ℕ) → ℕ → Option Text → IntakeDraft → ServiceOptions → Option IntakeMessage
step_error date step chosen draft options =
    if leb 1 step && not (is_some chosen)
    then some urgency_missing
    else if leb 1 step && not (is_description draft.description)
    then some description_invalid
    else if leb 2 step
    then error_of (intake_input date draft (type_ids options) options.max_media_files)
    else none

-- `urgency?.id ?? draft.urgencyId`
abbrev pub urgency_or : Option Text → Text → Text
urgency_or none kept = kept
urgency_or (some id) kept = id

abbrev pub after_save : IntakeDraft → ServiceOptions → ServiceType → Text → State → State
after_save draft options type chosen s =
    if ltb s.step 3
    then record s { phase = at_rest; pages_pushed = s.pages_pushed + 1 }
    else record s { phase = refetching draft options type chosen }

-- `update({ urgencyId })`, which returns at once on a page that was left.
abbrev pub save_step : IntakeDraft → ServiceOptions → ServiceType → Text → State → State
save_step draft options type chosen s =
    if s.is_active
    then record s {
      draft = record s.draft { urgency_id = chosen };
      phase = saving_step draft options type chosen;
    }
    else after_save draft options type chosen s

abbrev pub check_and_save :
    Option IntakeMessage → IntakeDraft → ServiceOptions → ServiceType → Text → State → State
check_and_save (some error) draft options type chosen s = fail (intake_message error) s
check_and_save none draft options type chosen s = save_step draft options type chosen s

abbrev pub proceed_with : (Text → Option ℕ) → Option ServiceType → ServiceOptions → State → State
proceed_with date none options s = fail (intake_message type_missing) s
proceed_with date (some type) options s =
    check_and_save (step_error date s.step (urgency s.draft options) s.draft options) s.draft
      options type (urgency_or (urgency s.draft options) s.draft.urgency_id)
      (record s { message = no_message })

abbrev pub is_resting : Phase → Bool
is_resting at_rest = true
is_resting _ = false

abbrev pub proceed_options : (Text → Option ℕ) → Option ServiceOptions → State → State
proceed_options date none s = s
proceed_options date (some options) s =
    if is_some s.draft.submission
    then record s { phase = reconciling; message = no_message }
    else proceed_with date (selected s.draft options) options s

unfoldable pub proceed : (Text → Option ℕ) → State → State
proceed date s =
    if not (is_resting s.phase) || not s.ready || s.media_busy
    then s
    else proceed_options date s.options s
