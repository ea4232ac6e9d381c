-- ===== src/Machines/Register/Tests.antt =====
-- A machine is registered with a photo, and a page that is left too early.
use coffix.Prelude.{
  ◌+◌, ◌≡◌, refl, false, none, some, List, [], ◌∷◌, ◌++◌, codes, text_eq, trim, All,
}
use mathlib.Core.List.{Mem}
use coffix.Media.Photo
use coffix.Media.Photo.Laws.{count, count_some, held_by}
use coffix.Machines.{MachineCreate, validate_machine_register_form, to_machine_create}
use coffix.Machines.Register.{
  Event, submitted, left, brand_selected, model_selected, serial_typed, photo_event, create_settled,
  refetched, handle, run,
}
use coffix.Machines.Register.Page.{MachineModel, created, opened, Runtime}
use coffix.Machines.Register.Chosen.{IsOffered, run-IsOffered}
use coffix.Machines.Register.Owned.{media_of_all, are_staying}
use coffix.Machines.Register.Accounts.{run_owns}
use coffix.Machines.Register.Left.{run_left_pending}

abbrev plain : Runtime
plain = record {
  lower = λ s. s;
  is_after = λ a b. false;
  iso_day = λ day. none;
  today = codes "2025-06-01";
}

abbrev models : List MachineModel
models =
    (record { id = codes "m1"; manufacturer = codes "Lelit"; model_name = codes "Anna" })
    ∷ (record { id = codes "m2"; manufacturer = codes "Gaggia"; model_name = codes "Classic" })
    ∷ []

abbrev registering : List Event
registering =
    brand_selected (codes "Gaggia")
    ∷ model_selected (codes "m2")
    ∷ serial_typed (codes "12A")
    ∷ photo_event (Photo.pick Photo.camera)
    ∷ photo_event (
        Photo.settle 0 (
          Photo.picked
            (some (record { uri = codes "u"; content_type = codes "image/jpeg"; size_bytes = 9 }))))
    ∷ photo_event (Photo.settle 0 (Photo.upload_resolved (codes "p")))
    ∷ submitted
    ∷ submitted
    ∷ []

abbrev sent : MachineCreate
sent = record {
  created_model_id = codes "m2";
  created_media_id = some (codes "p");
  created_purchase_date = none;
  created_serial_number = codes "12A";
}

registering_lem :
    ((run plain registering (opened models)).creates ≡ (sent, codes "Gaggia") ∷ [])
    × ((run plain registering (opened models)).pending ≡ some sent)
unfolding run handle Photo.step validate_machine_register_form to_machine_create text_eq trim
registering_lem = (refl, refl)

run-IsOffered_example :
    All
      (IsOffered (run plain registering (opened models)).known_models)
      (run plain registering (opened models)).creates
run-IsOffered_example = run-IsOffered plain registering models

abbrev registered_with_photo : List Event
registered_with_photo = registering ++ create_settled (created (codes "x")) ∷ []

registered_lem :
    ((run plain registered_with_photo (opened models)).photo.retained ≡ codes "p" ∷ [])
    × ((run plain registered_with_photo (opened models)).destinations ≡ codes "x" ∷ [])
unfolding run handle Photo.step Photo.clear_current validate_machine_register_form to_machine_create
    text_eq trim
registered_lem = (refl, refl)

run_owns_example :
    count (codes "p") (run plain registered_with_photo (opened models)).photo.resolved
    ≡ count_some
        (codes "p")
        (held_by (run plain registered_with_photo (opened models)).photo.current)
      + count (codes "p") (run plain registered_with_photo (opened models)).photo.discarded
      + count
          (codes "p")
          (media_of_all (run plain registered_with_photo (opened models)).registered)
unfolding are_staying
run_owns_example = run_owns plain registered_with_photo models (codes "p") refl

-- The page is left, and another model is listed before the server answers.
run_left_pending_example :
    Mem
      (codes "p")
      (handle plain (create_settled (created (codes "x"))) (
        run plain
          (left ∷ refetched models ∷ [])
          (run plain registering (opened models)))).photo.discarded
    × ((handle plain (create_settled (created (codes "x"))) (
          run plain
            (left ∷ refetched models ∷ [])
            (run plain registering (opened models)))).registered
        ≡ sent ∷ (run plain registering (opened models)).registered)
unfolding run handle Photo.step validate_machine_register_form to_machine_create text_eq trim
    are_staying
run_left_pending_example =
    run_left_pending plain models registering (refetched models ∷ []) sent (codes "p") (codes "x")
      refl refl refl refl
