-- ===== src/Machines/Register/Chosen.antt =====
-- Which models a registration names.
use coffix.Prelude.{
  ◌≡◌, ◌⊎◌, inl, inr, refl, sym, ap, subst, Bool, true, false, not, ◌&&◌, ◌||◌, Option, none, some,
  List, [], ◌∷◌, ◌++◌, any, is_some, Text, text_eq, text_eq_iff, is_empty, trim, All, if_ind, arith,
}
use coffix.Media.Photo
use coffix.Machines.{
  MachineRegisterForm, MachineCreate, any_errors, validate_machine_register_form, machine_of,
  to_machine_create,
}
use coffix.Service.Intake.{includes_id}
use coffix.Machines.Laws.{to_machine_create-model}
use coffix.Machines.Register.{
  mutate, submit, on_create_settled, is_enabled, Event, submitted, left, brand_selected,
  brand_typed, model_selected, model_typed, serial_typed, date_typed, refetched, photo_event,
  create_settled, handle, run,
}
use coffix.Machines.Register.Page.{
  MachineModel, CreateAnswer, created, refused, State, opened, starts_with, Runtime,
  brand_suggestions, model_after, model_suggestions, select_model,
}
use coffix.Machines.Register.Lists.{
  All-filter, All-narrow, All-sort_by, All-take, All-imp, Holds, find-Holds,
}

-- Some listed model has the identifier and the manufacturer.
abbrev pub is_model_of : List MachineModel → Text → Text → Bool
is_model_of models id manufacturer =
    any (λ (model : MachineModel). text_eq model.id id && text_eq model.manufacturer manufacturer)
      models

is_model_of-append :
    (new old : List MachineModel) (id manufacturer : Text)
    → is_model_of old id manufacturer ≡ true
    → is_model_of (new ++ old) id manufacturer ≡ true
is_model_of-append [] old id manufacturer h = h
is_model_of-append (model ∷ new) old id manufacturer h =
    let rest = is_model_of-append new old id manufacturer h in ground (arith, rest)

text_eq_self : (s : Text) → text_eq s s ≡ true
text_eq_self s = (text_eq_iff s s).1 refl

-- Every model of a list is listed.
abbrev IsListed : List MachineModel → MachineModel → Type 0
IsListed known model = is_model_of known model.id model.manufacturer ≡ true

listed-append : (models rest : List MachineModel) → All (IsListed (models ++ rest)) models
listed-append [] rest = tt
listed-append (model ∷ models) rest =
    let same_id = text_eq_self model.id in
    let same_name = text_eq_self model.manufacturer in
    (
      ground (arith, same_id, same_name),
      All-imp (IsListed (models ++ rest)) (IsListed (model ∷ (models ++ rest))) models
          (λ other h. ground (arith, h)) (listed-append models rest),
    )

-- A registration names a listed model of the manufacturer that was chosen when it was sent.
abbrev pub IsOffered : List MachineModel → MachineCreate × Text → Type 0
IsOffered known (input, manufacturer) = is_model_of known input.created_model_id manufacturer ≡ true

record IsConsistent (s : State) : Type 0 where
  listed : All (IsListed s.known_models) s.models
  chosen :
      (is_empty s.form.machine_model_id ≡ true)
      ⊎ (is_model_of s.known_models s.form.machine_model_id s.manufacturer ≡ true)
  offered : All (IsOffered s.known_models) s.creates

-- A suggested model is a listed one of the chosen manufacturer.
of_manufacturer :
    (known : List MachineModel) (manufacturer : Text) (model : MachineModel)
    → IsListed known model
    → text_eq model.manufacturer manufacturer ≡ true
    → is_model_of known model.id manufacturer ≡ true
of_manufacturer known manufacturer model h e =
    subst (λ name. is_model_of known model.id name ≡ true)
      ((text_eq_iff model.manufacturer manufacturer).0 e) h

abbrev IsSuggested : State → MachineModel → Type 0
IsSuggested s model = is_model_of s.known_models model.id s.manufacturer ≡ true

suggestions-IsSuggested :
    (R : Runtime) (s : State)
    → All (IsListed s.known_models) s.models
    → All (IsSuggested s) (model_suggestions R s)
suggestions-IsSuggested R s listed = All-take (IsSuggested s) 5 _ (
    All-narrow (IsSuggested s)
      (λ model. starts_with (R.lower model.model_name) (R.lower (trim s.model_query))) _
      (All-sort_by (IsSuggested s) (model_after R) _ (
        All-filter (IsSuggested s) (λ model. text_eq model.manufacturer s.manufacturer) s.models
          (All-imp (IsListed s.known_models) _ s.models
            (of_manufacturer s.known_models s.manufacturer) listed))))

selected-IsConsistent :
    (R : Runtime) (found : Option MachineModel) (s : State)
    → Holds (IsSuggested s) found
    → IsConsistent s
    → IsConsistent (select_model R found s)
selected-IsConsistent R none s suggested h = h
selected-IsConsistent R (some model) s suggested h = record {
  listed = h.listed;
  chosen = inr suggested;
  offered = h.offered;
}

submit-IsConsistent : (R : Runtime) (s : State) → IsConsistent s → IsConsistent (submit R s)
submit-IsConsistent R s h =
    if_ind IsConsistent (is_some s.pending || Photo.is_busy s.photo.photo) _ _ (λ e. h)
      (λ e.
        if_ind IsConsistent (any_errors (validate_machine_register_form R.iso_day R.today s.form)) _
          _ (λ bad. record { listed = h.listed; chosen = h.chosen; offered = h.offered })
          (λ good. mutated (to_machine_create R.iso_day R.today values) refl))
  where
    values : MachineRegisterForm
    values = record s.form { media_id = Photo.media_of s.photo.photo }

    named :
        (input : MachineCreate)
        → (is_empty input.created_model_id ≡ false) × (input ≡ machine_of values)
        → IsOffered s.known_models (input, s.manufacturer)
    named input (full, same) =
        let id = ap (λ (i : MachineCreate). i.created_model_id) same in
        elim h.chosen [
          | inl bare ↦ cc (bare, full)
          | inr known ↦
              subst (λ i. is_model_of s.known_models i s.manufacturer ≡ true) (sym id) known
        ]

    mutated :
        (input : Option MachineCreate)
        → to_machine_create R.iso_day R.today values ≡ input
        → IsConsistent (mutate R input (record s { touched = true }))
    mutated none e = record { listed = h.listed; chosen = h.chosen; offered = h.offered }
    mutated (some input) e = record {
      listed = h.listed;
      chosen = h.chosen;
      offered = (named input (to_machine_create-model R.iso_day R.today values input e), h.offered);
    }

settled-IsConsistent :
    (pending : Option MachineCreate) (answer : CreateAnswer) (s : State)
    → IsConsistent s
    → IsConsistent (on_create_settled pending answer s)
settled-IsConsistent none answer s h = h
settled-IsConsistent (some input) (created id) s h =
    if_ind IsConsistent s.is_open _ _
      (λ e. record { listed = h.listed; chosen = h.chosen; offered = h.offered })
      (λ e. record { listed = h.listed; chosen = h.chosen; offered = h.offered })
settled-IsConsistent (some input) (refused error) s h = record {
  listed = h.listed;
  chosen = h.chosen;
  offered = h.offered;
}

handle-IsConsistent :
    (R : Runtime) (event : Event) (s : State) → IsConsistent s → IsConsistent (handle R event s)
unfolding handle
handle-IsConsistent R submitted s h =
    if_ind IsConsistent s.is_open _ _ (λ e. submit-IsConsistent R s h) (λ e. h)
handle-IsConsistent R left s h =
    if_ind IsConsistent s.is_open _ _
      (λ e. record { listed = h.listed; chosen = h.chosen; offered = h.offered }) (λ e. h)
handle-IsConsistent R (brand_selected name) s h =
    if_ind IsConsistent s.is_open _ _
      (λ e.
        if_ind IsConsistent (includes_id (brand_suggestions R s) name) _ _
          (λ _. record { listed = h.listed; chosen = inl refl; offered = h.offered }) (λ _. h))
      (λ e. h)
handle-IsConsistent R (brand_typed text) s h =
    if_ind IsConsistent s.is_open _ _
      (λ e.
        if_ind IsConsistent (not (is_empty s.manufacturer) && not (text_eq text s.manufacturer)) _ _
          (λ _. record { listed = h.listed; chosen = inl refl; offered = h.offered })
          (λ _. record { listed = h.listed; chosen = h.chosen; offered = h.offered }))
      (λ e. h)
handle-IsConsistent R (model_selected id) s h =
    if_ind IsConsistent s.is_open _ _
      (λ e.
        selected-IsConsistent R _ s
          (find-Holds (IsSuggested s) (λ model. text_eq model.id id) (model_suggestions R s)
            (suggestions-IsSuggested R s h.listed))
          h)
      (λ e. h)
handle-IsConsistent R (model_typed text) s h =
    if_ind IsConsistent s.is_open _ _
      (λ e.
        if_ind IsConsistent (is_empty s.manufacturer) _ _ (λ _. h)
          (λ _.
            if_ind IsConsistent (is_empty s.form.machine_model_id) _ _
              (λ _. record { listed = h.listed; chosen = h.chosen; offered = h.offered })
              (λ _. record { listed = h.listed; chosen = inl refl; offered = h.offered })))
      (λ e. h)
handle-IsConsistent R (serial_typed text) s h =
    if_ind IsConsistent s.is_open _ _
      (λ e. record { listed = h.listed; chosen = h.chosen; offered = h.offered }) (λ e. h)
handle-IsConsistent R (date_typed text) s h =
    if_ind IsConsistent s.is_open _ _
      (λ e. record { listed = h.listed; chosen = h.chosen; offered = h.offered }) (λ e. h)
handle-IsConsistent R (refetched models) s h = record {
  listed = listed-append models s.known_models;
  chosen = elim h.chosen [
    | inl bare ↦ inl bare
    | inr known ↦
        inr (is_model_of-append models s.known_models s.form.machine_model_id s.manufacturer known)
  ];
  offered =
      All-imp (IsOffered s.known_models) (IsOffered (models ++ s.known_models)) s.creates
        (λ (c : MachineCreate × Text) known.
          is_model_of-append models s.known_models c.0.created_model_id c.1 known)
        h.offered;
}
handle-IsConsistent R (photo_event event) s h =
    if_ind IsConsistent (is_enabled event s) _ _
      (λ e. record { listed = h.listed; chosen = h.chosen; offered = h.offered }) (λ e. h)
handle-IsConsistent R (create_settled answer) s h = settled-IsConsistent s.pending answer s h

run-IsConsistent :
    (R : Runtime) (events : List Event) (s : State) → IsConsistent s → IsConsistent (run R events s)
unfolding run
run-IsConsistent R [] s h = h
run-IsConsistent R (event ∷ events) s h =
    run-IsConsistent R events (handle R event s) (handle-IsConsistent R event s h)

listed_self : (models : List MachineModel) → All (IsListed models) models
listed_self [] = tt
listed_self (model ∷ models) =
    let same_id = text_eq_self model.id in
    let same_name = text_eq_self model.manufacturer in
    (
      ground (arith, same_id, same_name),
      All-imp (IsListed models) (IsListed (model ∷ models)) models (λ other h. ground (arith, h))
          (listed_self models),
    )

-- From the opening of the page with any models, whatever is pressed, typed, listed and answered: every
-- registration that is sent names a model that the server has listed, of the manufacturer that was chosen
-- when it was sent.
pub run-IsOffered :
    (R : Runtime) (events : List Event) (models : List MachineModel)
    → All
        (IsOffered (run R events (opened models)).known_models)
        (run R events (opened models)).creates
run-IsOffered R events models =
    (run-IsConsistent R events (opened models)
      (record { listed = listed_self models; chosen = inl refl; offered = tt })).offered
