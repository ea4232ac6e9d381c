-- ===== src/Machines/Laws.antt =====
-- Which forms register a machine, and what is sent.
use coffix.Prelude.{
  ◌≤◌, ◌≡◌, ◌↔◌, ◌⊎◌, inl, inr, refl, sym, ap, ◌∙◌, Bool, true, false, ◌||◌, Option, none, some, [],
  ◌∷◌, ◌++◌, Text, is_empty, trim, length, if◌then◌else◌, arith,
}
use coffix.Machines.{
  MachineRegisterForm, MachineRegisterFormErrors, matches, iso_date, is_real_calendar_date,
  text_gtb, model_errors, serial_errors, date_errors, validate_machine_register_form, MachineCreate,
  machine_of, any_errors, to_machine_create,
}
use coffix.Machines.Order.{date_number, text_gtb_iff}

-- The date of a real day that is not after today.
pub record IsPurchaseDate (iso_day : Text → Option Text) (today date : Text) : Type 0 where
  pub formatted : matches iso_date date ≡ true
  pub real : is_real_calendar_date iso_day date ≡ true
  pub past : date_number date ≤ date_number today

pub record IsRegistrable (iso_day : Text → Option Text) (today : Text)
    (values : MachineRegisterForm) : Type 0 where
  pub chosen : is_empty values.machine_model_id ≡ false
  pub serial : (1 ≤ length (trim values.serial_number)) × (length (trim values.serial_number) ≤ 160)
  pub date :
      (is_empty (trim values.purchase_date) ≡ true)
      ⊎ IsPurchaseDate iso_day today (trim values.purchase_date)

any_errors-append :
    (errors more : MachineRegisterFormErrors)
    → any_errors (errors ++ more) ≡ (any_errors errors || any_errors more)
any_errors-append [] more = refl
any_errors-append (error ∷ errors) more = refl

model_errors_iff : (id : Text) → (any_errors (model_errors id) ≡ false) ↔ (is_empty id ≡ false)
model_errors_iff id = ground arith

serial_errors_iff :
    (serial : Text)
    → (any_errors (serial_errors serial) ≡ false) ↔ ((1 ≤ length serial) × (length serial ≤ 160))
serial_errors_iff [] = ground arith
serial_errors_iff (c ∷ serial) = ground arith

date_errors_iff :
    (iso_day : Text → Option Text) (today date : Text)
    → matches iso_date today ≡ true
    → (any_errors (date_errors iso_day today date) ≡ false)
      ↔ ((is_empty date ≡ true) ⊎ IsPurchaseDate iso_day today date)
date_errors_iff iso_day today [] ht = (λ e. inl refl, λ h. refl)
date_errors_iff iso_day today (c ∷ date) ht = (
  λ e.
      let formatted : matches iso_date (c ∷ date) ≡ true = ground (arith, e) in
      let past : text_gtb (c ∷ date) today ≡ false = ground (arith, e) in
      inr (record {
        formatted = formatted;
        real = ground (arith, e);
        past = (text_gtb_iff (c ∷ date) today formatted ht).0 past;
      }),
  λ h. checked h,
)
  where
    checked :
        (is_empty (c ∷ date) ≡ true) ⊎ IsPurchaseDate iso_day today (c ∷ date)
        → any_errors (date_errors iso_day today (c ∷ date)) ≡ false
    checked (inl bare) = cc
    checked (inr h) =
        let past = (text_gtb_iff (c ∷ date) today h.formatted ht).1 h.past in
        ground (arith, h.formatted, h.real, past)

validate_iff :
    (iso_day : Text → Option Text) (today : Text) (values : MachineRegisterForm)
    → matches iso_date today ≡ true
    → (any_errors (validate_machine_register_form iso_day today values) ≡ false)
      ↔ IsRegistrable iso_day today values
unfolding validate_machine_register_form
validate_iff iso_day today values ht =
    let serial = trim values.serial_number in
    let date = trim values.purchase_date in
    let outer =
      any_errors-append (model_errors values.machine_model_id)
        (serial_errors serial ++ date_errors iso_day today date) in
    let inner = any_errors-append (serial_errors serial) (date_errors iso_day today date) in
    (
      λ e. record {
        chosen = (model_errors_iff values.machine_model_id).0 (ground (arith, e, outer));
        serial = (serial_errors_iff serial).0 (ground (arith, e, outer, inner));
        date = (date_errors_iff iso_day today date ht).0 (ground (arith, e, outer, inner));
      },
      λ h.
          let first = (model_errors_iff values.machine_model_id).1 h.chosen in
          let second = (serial_errors_iff serial).1 h.serial in
          let third = (date_errors_iff iso_day today date ht).1 h.date in
          ground (arith, outer, inner, first, second, third),
    )

-- A form that is converted names its model.
pub to_machine_create-model :
    (iso_day : Text → Option Text) (today : Text) (values : MachineRegisterForm)
    (input : MachineCreate)
    → to_machine_create iso_day today values ≡ some input
    → (is_empty input.created_model_id ≡ false) × (input ≡ machine_of values)
unfolding to_machine_create validate_machine_register_form
to_machine_create-model iso_day today values input e =
    converted (any_errors (model_errors values.machine_model_id ++ rest)) refl e
  where
    rest : MachineRegisterFormErrors
    rest =
        serial_errors (trim values.serial_number)
        ++ date_errors iso_day today (trim values.purchase_date)

    converted :
        (wrong : Bool)
        → any_errors (model_errors values.machine_model_id ++ rest) ≡ wrong
        → (if wrong then none else some (machine_of values)) ≡ some input
        → (is_empty input.created_model_id ≡ false) × (input ≡ machine_of values)
    converted true q e = cc
    converted false q e =
        let same : input ≡ machine_of values = cc in
        let parts = any_errors-append (model_errors values.machine_model_id) rest in
        let full : is_empty values.machine_model_id ≡ false = ground (arith, q, parts) in
        (ap (λ (i : MachineCreate). is_empty i.created_model_id) same ∙ full, same)

-- Where today is written as an ISO date, a form is converted to an input exactly when it has a model, a
-- trimmed serial number of 1 to 160 characters and either no purchase date or one that is written as an
-- ISO date, is a real day and whose year, month and day make no larger number than those of today, and
-- the input is the trimmed parts of the form. Any other form is an exception.
pub to_machine_create_iff :
    (iso_day : Text → Option Text) (today : Text) (values : MachineRegisterForm)
    (input : MachineCreate)
    → matches iso_date today ≡ true
    → (to_machine_create iso_day today values ≡ some input)
      ↔ (IsRegistrable iso_day today values × (input ≡ machine_of values))
unfolding to_machine_create
to_machine_create_iff iso_day today values input ht =
    converted (any_errors (validate_machine_register_form iso_day today values))
      (validate_iff iso_day today values ht)
  where
    converted :
        (wrong : Bool)
        → ((wrong ≡ false) ↔ IsRegistrable iso_day today values)
        → ((if wrong then none else some (machine_of values)) ≡ some input)
          ↔ (IsRegistrable iso_day today values × (input ≡ machine_of values))
    converted true valid = (λ e. cc, λ h. let e = valid.1 h.0 in cc)
    converted false valid = (λ e. (valid.0 refl, cc), λ h. ap some (sym h.1))
