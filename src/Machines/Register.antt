-- ===== src/Machines/Register.antt =====
-- mobile/app/(tabs)/(service)/register.tsx: the page that registers a machine, over the form of Machines
-- and the photo of Media/Photo, with useCreateMachine of mobile/src/features/machines/queries.ts.
-- `toLowerCase` and whether one name is after another by `localeCompare` are parameters, and so are the
-- days of the form. The focus of the two lists of suggestions and its delay are not modelled.
pub mod Page
pub mod Lists
pub mod Chosen
pub mod Owned
pub mod Accounts
pub mod Left
mod Tests
use coffix.Prelude.{
  ℕ, Bool, true, false, not, ◌&&◌, ◌||◌, Option, none, some, List, [], ◌∷◌, ◌++◌, map, filter, find,
  take, any, is_some, Text, text_eq, is_empty, trim, ◌==◌, String, str_eq, if◌then◌else◌,
}
use coffix.Api.{ApiError, problem, other}
use coffix.Service.Intake.{includes_id, unique_from}
use coffix.Media.Photo
use coffix.Machines.{
  MachineRegisterForm, empty_machine_register_form, MachineCreate, any_errors,
  validate_machine_register_form, to_machine_create,
}
use coffix.Machines.Register.Page.{
  MachineModel, CreateMessage, CreateAnswer, State, opened, create_message, starts_with, insert_by,
  sort_by, clear_model, Runtime, manufacturers, brand_suggestions, model_after,
  models_for_manufacturer, model_suggestions, select_manufacturer, change_brand_query, select_model,
  change_model_query, media_not_available, model_not_available, serial_registered, serial_invalid,
  create_failed, created, refused,
}

module _ (R : Runtime) where
  abbrev pub mutate : Option MachineCreate → State → State
  mutate none s = s
  mutate (some input) s = record s {
    pending = some input;
    create_error = none;
    creates = (input, s.manufacturer) ∷ s.creates;
  }

  abbrev pub send : State → State
  send s =
      if any_errors (validate_machine_register_form R.iso_day R.today s.form)
      then s
      else mutate
          (to_machine_create R.iso_day R.today
            (record s.form { media_id = Photo.media_of s.photo.photo }))
          s

  -- The button is disabled while a registration is pending and while the photo is busy.
  abbrev pub submit : State → State
  submit s =
      if is_some s.pending || Photo.is_busy s.photo.photo
      then s
      else send (record s { touched = true })

-- `router.replace`, after which the page is gone.
abbrev pub replace_page : Text → State → State
replace_page id s = record s {
  photo = Photo.step Photo.unmount (Photo.step Photo.retain s.photo);
  is_open = false;
  destinations = id ∷ s.destinations;
}

-- The callback of a page that is gone is not called.
abbrev pub on_success : Text → State → State
on_success id s = if s.is_open then replace_page id s else s

abbrev pub on_create_settled : Option MachineCreate → CreateAnswer → State → State
on_create_settled none answer s = s
on_create_settled (some input) (created id) s = on_success id (record s {
  pending = none;
  registered = input ∷ s.registered;
  cached_machines = id ∷ s.cached_machines;
})
on_create_settled (some input) (refused error) s = record s {
  pending = none;
  create_error = some (create_message error);
}

-- Which controls of the photo are shown and enabled.
abbrev pub is_choosable : Photo.PhotoState → Bool
is_choosable Photo.idle = true
is_choosable (Photo.error image message) = true
is_choosable _ = false

abbrev pub is_cancellable : Photo.PhotoState → Bool → Bool
is_cancellable (Photo.uploading progress uri) pending = true
is_cancellable (Photo.done media_id uri) pending = not pending
is_cancellable _ pending = false

abbrev pub is_enabled : Photo.Event → State → Bool
is_enabled (Photo.pick source) s =
    s.is_open && not (is_some s.pending) && is_choosable s.photo.photo
is_enabled Photo.retry s = s.is_open && not (is_some s.pending)
is_enabled Photo.cancel s = s.is_open && is_cancellable s.photo.photo (is_some s.pending)
is_enabled (Photo.settle key settlement) s = true
is_enabled Photo.unmount s = false
is_enabled Photo.retain s = false

abbrev pub on_photo : Photo.Event → State → State
on_photo event s = if is_enabled event s then record s { photo = Photo.step event s.photo } else s

abbrev pub leave : State → State
leave s =
    if s.is_open then record s { is_open = false; photo = Photo.step Photo.unmount s.photo } else s

pub data Event : Type 0 where
  submitted left : Event
  brand_selected brand_typed model_selected model_typed serial_typed date_typed : Text → Event
  refetched : List MachineModel → Event
  photo_event : Photo.Event → Event
  create_settled : CreateAnswer → Event

abbrev pub when_open : State → State → State
when_open s t = if s.is_open then t else s

unfoldable pub handle : Runtime → Event → State → State
handle R submitted s = when_open s (submit R s)
handle R left s = leave s
handle R (brand_selected name) s = when_open s (select_manufacturer R name s)
handle R (brand_typed text) s = when_open s (change_brand_query R text s)
handle R (model_selected id) s = when_open s (
    select_model R (find (λ (model : MachineModel). text_eq model.id id) (model_suggestions R s)) s)
handle R (model_typed text) s = when_open s (change_model_query R text s)
handle R (serial_typed text) s =
    when_open s (record s { form = record s.form { serial_number = text } })
handle R (date_typed text) s =
    when_open s (record s { form = record s.form { purchase_date = text } })
handle R (refetched models) s = record s {
  models = models;
  known_models = models ++ s.known_models;
}
handle R (photo_event event) s = on_photo event s
handle R (create_settled answer) s = on_create_settled s.pending answer s

unfoldable pub run : Runtime → List Event → State → State
unfolding handle
run R [] s = s
run R (event ∷ events) s = run R events (handle R event s)
