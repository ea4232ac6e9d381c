-- ===== src/Machines/Register/Accounts.antt =====
-- Every event of the page keeps the account of the photos.
use coffix.Prelude.{
  ◌+◌, ◌≡◌, refl, ap, ◌∙◌, true, not, ◌&&◌, Option, none, some, List, [], ◌∷◌, Text, text_eq,
  is_empty, if_ind, arith,
}
use coffix.Service.Intake.{includes_id}
use coffix.Media.Photo.Laws.{count, count_some, held_by}
use coffix.Machines.Register.{
  Event, submitted, left, brand_selected, brand_typed, model_selected, model_typed, serial_typed,
  date_typed, refetched, photo_event, create_settled, when_open, handle, run,
}
use coffix.Machines.Register.Page.{
  MachineModel, State, opened, Runtime, brand_suggestions, select_model,
}
use coffix.Machines.Register.Owned.{
  media_of_all, IsOwned, form-IsOwned, submit-IsOwned, settled-IsOwned, photo-IsOwned, is_staying,
  are_staying, leave-IsOwned,
}

opened_only : (s t : State) → IsOwned s → (s.is_open ≡ true → IsOwned t) → IsOwned (when_open s t)
opened_only s t h f = if_ind IsOwned s.is_open t s f (λ closed. h)

select_model-IsOwned :
    (R : Runtime) (found : Option MachineModel) (s : State)
    → IsOwned s
    → IsOwned (select_model R found s)
select_model-IsOwned R none s h = h
select_model-IsOwned R (some model) s h =
    form-IsOwned s h (record s.form { machine_model_id = model.id }) s.manufacturer s.brand_query
      model.model_name s.touched

handle-IsOwned :
    (R : Runtime) (event : Event) (s : State)
    → is_staying event s ≡ true
    → IsOwned s
    → IsOwned (handle R event s)
unfolding handle
handle-IsOwned R submitted s stays h = opened_only s _ h (λ opens. submit-IsOwned R s opens h)
handle-IsOwned R left s stays h = leave-IsOwned s stays h
handle-IsOwned R (brand_selected name) s stays h = opened_only s _ h (λ opens.
    if_ind IsOwned (includes_id (brand_suggestions R s) name) _ _
      (λ e. form-IsOwned s h (record s.form { machine_model_id = [] }) name name [] s.touched)
      (λ e. h))
handle-IsOwned R (brand_typed text) s stays h = opened_only s _ h (λ opens.
    if_ind IsOwned (not (is_empty s.manufacturer) && not (text_eq text s.manufacturer)) _ _
      (λ e. form-IsOwned s h (record s.form { machine_model_id = [] }) [] text [] s.touched)
      (λ e. form-IsOwned s h s.form s.manufacturer text s.model_query s.touched))
handle-IsOwned R (model_selected id) s stays h =
    opened_only s _ h (λ opens. select_model-IsOwned R _ s h)
handle-IsOwned R (model_typed text) s stays h = opened_only s _ h (λ opens.
    if_ind IsOwned (is_empty s.manufacturer) _ _ (λ e. h)
      (λ e.
        if_ind IsOwned (is_empty s.form.machine_model_id) _ _
          (λ e. form-IsOwned s h s.form s.manufacturer s.brand_query text s.touched)
          (λ e.
            form-IsOwned s h (record s.form { machine_model_id = [] }) s.manufacturer s.brand_query
              text s.touched)))
handle-IsOwned R (serial_typed text) s stays h = opened_only s _ h (λ opens.
    form-IsOwned s h (record s.form { serial_number = text }) s.manufacturer s.brand_query
      s.model_query s.touched)
handle-IsOwned R (date_typed text) s stays h = opened_only s _ h (λ opens.
    form-IsOwned s h (record s.form { purchase_date = text }) s.manufacturer s.brand_query
      s.model_query s.touched)
handle-IsOwned R (refetched models) s stays h = record {
  shown = h.shown;
  holds = h.holds;
  owned = h.owned;
  accounted = h.accounted;
}
handle-IsOwned R (photo_event event) s stays h = photo-IsOwned event s h
handle-IsOwned R (create_settled answer) s stays h = settled-IsOwned s.pending answer s refl h

pub run-IsOwned :
    (R : Runtime) (events : List Event) (s : State)
    → are_staying R events s ≡ true
    → IsOwned s
    → IsOwned (run R events s)
unfolding run are_staying
run-IsOwned R [] s stays h = h
run-IsOwned R (event ∷ events) s stays h =
    run-IsOwned R events (handle R event s) (ground (arith, stays))
      (handle-IsOwned R event s (ground (arith, stays)) h)

pub opened-IsOwned : (models : List MachineModel) → IsOwned (opened models)
opened-IsOwned models = record {
  shown = λ opens. (refl, refl);
  holds = tt;
  owned = refl;
  accounted = λ x. record { accounted = refl; waits = tt };
}

-- From the opening of the page, where it is not left while a registration is pending: whatever is
-- pressed, typed and answered, each media has come out of an upload as often as it is held by the page,
-- was discarded and belongs to a registered machine together.
pub run_owns :
    (R : Runtime) (events : List Event) (models : List MachineModel) (media_id : Text)
    → are_staying R events (opened models) ≡ true
    → count media_id (run R events (opened models)).photo.resolved
      ≡ count_some media_id (held_by (run R events (opened models)).photo.current)
        + count media_id (run R events (opened models)).photo.discarded
        + count media_id (media_of_all (run R events (opened models)).registered)
run_owns R events models media_id stays =
    let h = run-IsOwned R events (opened models) stays (opened-IsOwned models) in
    (h.accounted media_id).accounted
    ∙ ap
        (λ kept.
          count_some media_id (held_by (run R events (opened models)).photo.current)
          + count media_id (run R events (opened models)).photo.discarded
          + count media_id kept)
        h.owned
