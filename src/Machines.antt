-- ===== src/Machines.antt =====
-- mobile/src/features/machines/form.ts: the form that registers a machine, its validation and its
-- conversion. The Hebrew messages are constructors. `Date` is a parameter: `iso_day` gives the day that
-- `toISOString` writes for the start of a day, or none where it is invalid, and `today` is that of now.
pub mod Laws
pub mod Order
pub mod Register
mod Tests
use coffix.Prelude.{
  ℕ, Bool, true, false, not, ◌&&◌, ◌||◌, Option, none, some, List, [], ◌∷◌, ◌++◌, Text, text_eq,
  is_empty, is_digit, trim, length, ltb, ◌==◌, if◌then◌else◌,
}

pub record MachineRegisterForm : Type 0 where
  pub machine_model_id : Text
  pub media_id : Option Text
  pub purchase_date : Text
  pub serial_number : Text

abbrev pub empty_machine_register_form : MachineRegisterForm
empty_machine_register_form = record {
  machine_model_id = [];
  media_id = none;
  purchase_date = [];
  serial_number = [];
}

pub data MachineField : Type 0 where
  machine_model_id_field purchase_date_field serial_number_field : MachineField

pub data MachineMessage : Type 0 where
  model_missing serial_missing serial_long date_invalid date_future : MachineMessage

-- The fields with an error, in the order in which they were set.
abbrev pub MachineRegisterFormErrors : Type 0
MachineRegisterFormErrors = List (MachineField × MachineMessage)

-- A pattern with one test for each code unit, from the start to the end of the text.
abbrev pub matches : List (ℕ → Bool) → Text → Bool
matches [] [] = true
matches [] (c ∷ s) = false
matches (test ∷ tests) [] = false
matches (test ∷ tests) (c ∷ s) = test c && matches tests s

abbrev pub is_dash : ℕ → Bool
is_dash c = c == b'-'

-- `/^\d{4}-\d{2}-\d{2}$/`
abbrev pub iso_date : List (ℕ → Bool)
iso_date =
    is_digit ∷ is_digit ∷ is_digit ∷ is_digit ∷ is_dash ∷ is_digit ∷ is_digit ∷ is_dash ∷ is_digit
    ∷ is_digit ∷ []

abbrev pub is_day : Option Text → Text → Bool
is_day none value = false
is_day (some day) value = text_eq day value

abbrev pub is_real_calendar_date : (Text → Option Text) → Text → Bool
is_real_calendar_date iso_day value = is_day (iso_day value) value

-- `s > t`, by code units.
unfoldable pub text_gtb : Text → Text → Bool
text_gtb [] t = false
text_gtb (c ∷ s) [] = true
text_gtb (c ∷ s) (d ∷ t) = ltb d c || (c == d && text_gtb s t)

abbrev pub model_errors : Text → MachineRegisterFormErrors
model_errors id = if is_empty id then (machine_model_id_field, model_missing) ∷ [] else []

abbrev pub serial_errors : Text → MachineRegisterFormErrors
serial_errors serial =
    if is_empty serial
    then (serial_number_field, serial_missing) ∷ []
    else if ltb 160 (length serial)
    then (serial_number_field, serial_long) ∷ []
    else []

abbrev pub date_errors : (Text → Option Text) → Text → Text → MachineRegisterFormErrors
date_errors iso_day today date =
    if is_empty date
    then []
    else if not (matches iso_date date) || not (is_real_calendar_date iso_day date)
    then (purchase_date_field, date_invalid) ∷ []
    else if text_gtb date today
    then (purchase_date_field, date_future) ∷ []
    else []

unfoldable pub validate_machine_register_form :
    (Text → Option Text) → Text → MachineRegisterForm → MachineRegisterFormErrors
validate_machine_register_form iso_day today values =
    model_errors values.machine_model_id
    ++ (serial_errors (trim values.serial_number)
        ++ date_errors iso_day today (trim values.purchase_date))

pub record MachineCreate : Type 0 where
  pub created_model_id : Text
  pub created_media_id : Option Text
  pub created_purchase_date : Option Text
  pub created_serial_number : Text

-- `value.trim() || null`
abbrev pub text_or_none : Text → Option Text
text_or_none text = if is_empty text then none else some text

abbrev pub machine_of : MachineRegisterForm → MachineCreate
machine_of values = record {
  created_model_id = values.machine_model_id;
  created_media_id = values.media_id;
  created_purchase_date = text_or_none (trim values.purchase_date);
  created_serial_number = trim values.serial_number;
}

abbrev pub any_errors : MachineRegisterFormErrors → Bool
any_errors [] = false
any_errors (error ∷ errors) = true

-- `none` is the exception.
unfoldable pub to_machine_create :
    (Text → Option Text) → Text → MachineRegisterForm → Option MachineCreate
to_machine_create iso_day today values =
    if any_errors (validate_machine_register_form iso_day today values)
    then none
    else some (machine_of values)
