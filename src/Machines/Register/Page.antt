-- ===== src/Machines/Register/Page.antt =====
-- mobile/app/(tabs)/(service)/register.tsx: the state of the page that registers a machine, and the choice of
-- a manufacturer and a model. `toLowerCase` and whether one name is after another by `localeCompare` are
-- parameters, and so are the days of the form. The focus of the suggestions and its delay are not
-- modelled.
use coffix.Prelude.{
  Bool, true, false, not, ◌&&◌, Option, none, some, List, [], ◌∷◌, map, filter, take, Text, text_eq,
  is_empty, trim, ◌==◌, str_eq, if◌then◌else◌,
}
use coffix.Api.{ApiError, problem, other}
use coffix.Service.Intake.{includes_id, unique_from}
use coffix.Media.Photo
use coffix.Machines.{MachineRegisterForm, empty_machine_register_form, MachineCreate}

pub record MachineModel : Type 0 where
  pub id : Text
  pub manufacturer : Text
  pub model_name : Text

pub data CreateMessage : Type 0 where
  media_not_available model_not_available serial_registered serial_invalid create_failed :
      CreateMessage

-- How the request to register settles.
pub data CreateAnswer : Type 0 where
  created : Text → CreateAnswer
  refused : ApiError → CreateAnswer

-- `known_models` are all models that the server has listed. `creates` are the requests to register, each
-- with the manufacturer that was then chosen, and `registered` those that were answered by a machine,
-- the last one first; `cached_machines` and `destinations` are the machines put into the cache and shown.
pub record State : Type 0 where
  pub models : List MachineModel
  pub known_models : List MachineModel
  pub form : MachineRegisterForm
  pub touched : Bool
  pub photo : Photo.State
  pub manufacturer : Text
  pub brand_query : Text
  pub model_query : Text
  pub pending : Option MachineCreate
  pub create_error : Option CreateMessage
  pub is_open : Bool
  pub creates : List (MachineCreate × Text)
  pub registered : List MachineCreate
  pub cached_machines : List Text
  pub destinations : List Text

abbrev pub opened : List MachineModel → State
opened models = record {
  models = models;
  known_models = models;
  form = empty_machine_register_form;
  touched = false;
  photo = Photo.initial;
  manufacturer = [];
  brand_query = [];
  model_query = [];
  pending = none;
  create_error = none;
  is_open = true;
  creates = [];
  registered = [];
  cached_machines = [];
  destinations = [];
}

abbrev pub create_message : ApiError → CreateMessage
create_message (problem p) =
    if str_eq p.code "MACHINE_MEDIA_NOT_AVAILABLE"
    then media_not_available
    else if str_eq p.code "MACHINE_MODEL_NOT_AVAILABLE"
    then model_not_available
    else if str_eq p.code "MACHINE_SERIAL_ALREADY_REGISTERED"
    then serial_registered
    else if str_eq p.code "MACHINE_SERIAL_INVALID"
    then serial_invalid
    else create_failed
create_message other = create_failed

abbrev pub starts_with : Text → Text → Bool
starts_with s [] = true
starts_with [] (d ∷ t) = false
starts_with (c ∷ s) (d ∷ t) = c == d && starts_with s t

-- `sort`, which keeps the order of equal names.
abbrev pub insert_by {ℓ} : {A : Type ℓ} → (A → A → Bool) → A → List A → List A
insert_by after x [] = x ∷ []
insert_by after x (y ∷ ys) =
    let rest = insert_by after x ys in if after x y then y ∷ rest else x ∷ y ∷ ys

abbrev pub sort_by {ℓ} : {A : Type ℓ} → (A → A → Bool) → List A → List A
sort_by after [] = []
sort_by after (x ∷ xs) = insert_by after x (sort_by after xs)

abbrev pub clear_model : State → State
clear_model s = record s { model_query = []; form = record s.form { machine_model_id = [] } }

-- What the page takes from the runtime: `toLowerCase`, `localeCompare(…) > 0` and the days of the form.
pub record Runtime : Type 0 where
  pub lower : Text → Text
  pub is_after : Text → Text → Bool
  pub iso_day : Text → Option Text
  pub today : Text

module _ (R : Runtime) where
  abbrev pub manufacturers : List MachineModel → List Text
  manufacturers models =
      sort_by R.is_after
        (unique_from [] (map (λ (model : MachineModel). model.manufacturer) models))

  abbrev pub brand_suggestions : State → List Text
  brand_suggestions s = take 5 (
      filter (λ name. starts_with (R.lower name) (R.lower (trim s.brand_query)))
        (manufacturers s.models))

  abbrev pub model_after : MachineModel → MachineModel → Bool
  model_after a b = R.is_after a.model_name b.model_name

  abbrev pub models_for_manufacturer : State → List MachineModel
  models_for_manufacturer s =
      sort_by model_after
        (filter (λ (model : MachineModel). text_eq model.manufacturer s.manufacturer) s.models)

  abbrev pub model_suggestions : State → List MachineModel
  model_suggestions s = take 5 (
      filter
        (λ (model : MachineModel).
          starts_with (R.lower model.model_name) (R.lower (trim s.model_query)))
        (models_for_manufacturer s))

  -- A suggestion is pressed.
  abbrev pub select_manufacturer : Text → State → State
  select_manufacturer name s =
      if includes_id (brand_suggestions s) name
      then clear_model (record s { manufacturer = name; brand_query = name })
      else s

  abbrev pub change_brand_query : Text → State → State
  change_brand_query text s =
      if not (is_empty s.manufacturer) && not (text_eq text s.manufacturer)
      then clear_model (record s { manufacturer = []; brand_query = text })
      else record s { brand_query = text }

  abbrev pub select_model : Option MachineModel → State → State
  select_model none s = s
  select_model (some model) s = record s {
    model_query = model.model_name;
    form = record s.form { machine_model_id = model.id };
  }

  abbrev pub change_model_query : Text → State → State
  change_model_query text s =
      if is_empty s.manufacturer
      then s
      else if is_empty s.form.machine_model_id
      then record s { model_query = text }
      else record s { model_query = text; form = record s.form { machine_model_id = [] } }
