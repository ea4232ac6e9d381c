-- ===== src/Service/Intake.antt =====
-- mobile/src/features/service/intakeStore.ts: the draft of a service request and `intakeInput`, which
-- checks it. `Date` is a parameter: the time of a text, or none where it is invalid.
pub mod Laws
pub mod Page
pub mod Proceed
mod Tests
use coffix.Prelude.{
  ℕ, Bool, true, false, not, ◌&&◌, ◌||◌, Option, none, some, List, [], ◌∷◌, map, Text, codes,
  text_eq, is_empty, trim, any, length, ltb, leb, min, if◌then◌else◌,
}
use coffix.Addresses.{
  AddressForm, AddressCreate, has_errors, validate_address_form, to_address_create,
  empty_address_form,
}
use coffix.Service.Submission.{LocationMode, bring_in, pickup}

-- The checked input; the window is in milliseconds, and the address is sent without `is_default`.
pub record ServiceCreate : Type 0 where
  pub urgency_id : Text
  pub service_type_id : Text
  pub description : Text
  pub location_mode : LocationMode
  pub media_ids : List Text
  pub address_id : Option Text
  pub address : Option AddressCreate
  pub preferred_window : Option (ℕ × ℕ)
  pub intake_version : Option ℕ

pub record Submission : Type 0 where
  pub existing_ids : List Text
  pub input : ServiceCreate

pub record IntakeDraft : Type 0 where
  pub machine_id : Text
  pub collection_id : Text
  pub service_type_id : Text
  pub description : Text
  pub urgency_id : Text
  pub location_mode : LocationMode
  pub address_id : Text
  pub address : AddressForm
  pub preferred_start : Text
  pub preferred_end : Text
  pub media : List Text
  pub submission : Option Submission

-- The random identifier of the collection is an argument.
abbrev pub empty_draft : Text → Text → IntakeDraft
empty_draft collection_id machine_id = record {
  machine_id = machine_id;
  collection_id = collection_id;
  service_type_id = [];
  description = [];
  urgency_id = [];
  location_mode = bring_in;
  address_id = [];
  address = empty_address_form;
  preferred_start = [];
  preferred_end = [];
  media = [];
  submission = none;
}

pub data IntakeMessage : Type 0 where
  type_missing urgency_missing description_invalid address_invalid window_invalid : IntakeMessage
  fee_unknown details_changed window_gone address_gone : IntakeMessage
  too_many_media : ℕ → IntakeMessage

-- An input, or the exception.
pub data Checked (A : Type 0) : Type 0 where
  valid : A → Checked A
  invalid : IntakeMessage → Checked A

abbrev pub includes_id : List Text → Text → Bool
includes_id ids id = any (λ other. text_eq other id) ids

-- `[...new Set(ids)]`, from the ids that were seen.
abbrev pub unique_from : List Text → List Text → List Text
unique_from seen [] = []
unique_from seen (id ∷ ids) =
    if includes_id seen id then unique_from seen ids else id ∷ unique_from (id ∷ seen) ids

abbrev pub is_description : Text → Bool
is_description text = not (ltb (length (trim text)) 10 || ltb 4000 (length (trim text)))

abbrev pub input_of : IntakeDraft → ServiceCreate
input_of draft = record {
  urgency_id = if is_empty draft.urgency_id then codes "normal" else draft.urgency_id;
  service_type_id = draft.service_type_id;
  description = trim draft.description;
  location_mode = draft.location_mode;
  media_ids = unique_from [] draft.media;
  address_id = none;
  address = none;
  preferred_window = none;
  intake_version = none;
}

abbrev pub with_form : Option AddressCreate → ServiceCreate → Checked ServiceCreate
with_form none input = invalid address_invalid
with_form (some address) input = valid (record input { address = some address })

-- The pickup address: a saved one, or the form. `toAddressCreate` throws only where the form has errors.
abbrev pub with_address : LocationMode → IntakeDraft → ServiceCreate → Checked ServiceCreate
with_address bring_in draft input = valid input
with_address pickup draft input =
    if not (is_empty draft.address_id)
    then valid (record input { address_id = some draft.address_id })
    else if has_errors (validate_address_form draft.address)
    then invalid address_invalid
    else with_form (to_address_create draft.address) input

abbrev pub window_of : Option ℕ → Option ℕ → ServiceCreate → Checked ServiceCreate
window_of (some start) (some end) input =
    if leb end start
    then invalid window_invalid
    else valid (record input { preferred_window = some (start, end) })
window_of _ end input = invalid window_invalid

abbrev pub with_window :
    (Text → Option ℕ) → IntakeDraft → Checked ServiceCreate → Checked ServiceCreate
with_window date draft (invalid message) = invalid message
with_window date draft (valid input) =
    if is_empty draft.preferred_start && is_empty draft.preferred_end
    then valid input
    else window_of (date draft.preferred_start) (date draft.preferred_end) input

unfoldable pub intake_input :
    (Text → Option ℕ) → IntakeDraft → List Text → ℕ → Checked ServiceCreate
intake_input date draft supported_ids max_files =
    if not (includes_id supported_ids draft.service_type_id)
    then invalid type_missing
    else if not (is_description draft.description)
    then invalid description_invalid
    else if ltb (min 5 max_files) (length draft.media)
    then invalid (too_many_media (min 5 max_files))
    else with_window date draft (with_address draft.location_mode draft (input_of draft))
