-- ===== src/Machines/Register/Left.antt =====
-- The page is left while a registration is pending.
use coffix.Prelude.{
  ℕ, ◌≡◌, refl, sym, ◌∙◌, subst, Bool, true, false, ◌==◌, Option, none, some, List, [], ◌∷◌, Text,
  all, if_ind, arith,
}
use mathlib.Core.List.{Mem, mem-cons_self, mem-cons_of_mem}
use coffix.Media.Photo
use coffix.Media.Photo.Shown.{AgreesAt, Agrees}
use coffix.Machines.{MachineCreate}
use coffix.Machines.Register.{
  Event, submitted, left, brand_selected, brand_typed, model_selected, model_typed, serial_typed,
  date_typed, refetched, photo_event, create_settled, on_photo, handle, run,
}
use coffix.Machines.Register.Page.{MachineModel, State, Runtime, created, opened}
use coffix.Machines.Register.Owned.{PendingHolds, IsOwned, are_staying}
use coffix.Machines.Register.Accounts.{run-IsOwned, opened-IsOwned}

-- What is shown when nothing is awaited is the media of the operation.
AgreesAt-media :
    (photo : Photo.PhotoState) (stage : Photo.Stage) (media : Option Text)
    → AgreesAt photo stage media
    → Photo.is_busy photo ≡ false
    → Photo.media_of photo ≡ media
AgreesAt-media photo Photo.over media h rest = h.1
AgreesAt-media photo (Photo.at_picker source) media h rest = cc (h.0)
AgreesAt-media photo (Photo.at_upload image) media h rest = cc (h.0)

clear_current-discards :
    (current : Option Photo.PhotoOperation) (s : Photo.State) (media_id : Text)
    → Agrees s.photo current
    → Photo.is_busy s.photo ≡ false
    → Photo.media_of s.photo ≡ some media_id
    → Mem media_id (Photo.clear_current current s).discarded
unfolding Photo.clear_current
clear_current-discards none s media_id h rest shown = cc (h.1)
clear_current-discards (some operation) s media_id h rest shown =
    let held = AgreesAt-media s.photo operation.stage operation.media_id h rest in
    subst (λ m. Mem media_id (Photo.discard_media m s.discarded)) (sym shown ∙ held) mem-cons_self

discard_media-keeps :
    (x : Text) (media : Option Text) (discarded : List Text)
    → Mem x discarded
    → Mem x (Photo.discard_media media discarded)
discard_media-keeps x none discarded m = m
discard_media-keeps x (some media_id) discarded m = mem-cons_of_mem media_id m

settle_current-discarded :
    (settlement : Photo.Settlement) (stage : Photo.Stage) (operation : Photo.PhotoOperation)
    (s : Photo.State)
    → (Photo.settle_current settlement stage operation s).discarded ≡ s.discarded
unfolding Photo.settle_current
settle_current-discarded (Photo.picked none) (Photo.at_picker source) operation s = refl
settle_current-discarded (Photo.picked (some image)) (Photo.at_picker source) operation s = refl
settle_current-discarded (Photo.pick_failed permission) (Photo.at_picker source) operation s = refl
settle_current-discarded (Photo.progressed sent total) (Photo.at_upload image) operation s = refl
settle_current-discarded (Photo.upload_resolved media_id) (Photo.at_upload image) operation s = refl
settle_current-discarded Photo.upload_rejected (Photo.at_upload image) operation s = refl
settle_current-discarded _ _ operation s = refl

on_settled-keeps :
    (x : Text) (key : ℕ) (settlement : Photo.Settlement) (current : Option Photo.PhotoOperation)
    (s : Photo.State)
    → Mem x s.discarded
    → Mem x (Photo.on_settled key settlement current s).discarded
unfolding Photo.on_settled
on_settled-keeps x key settlement none s m =
    discard_media-keeps x (Photo.settle_earlier key settlement s.earlier).1 s.discarded m
on_settled-keeps x key settlement (some operation) s m =
    if_ind (λ (t : Photo.State). Mem x t.discarded) (operation.key == key)
      (Photo.settle_current settlement operation.stage operation s) _
      (λ e. subst (Mem x) (sym (settle_current-discarded settlement operation.stage operation s)) m)
      (λ e. discard_media-keeps x (Photo.settle_earlier key settlement s.earlier).1 s.discarded m)

-- Anything but the answer of the registration.
abbrev pub is_other : Event → Bool
is_other (create_settled answer) = false
is_other event = true

-- The page is gone, the photo is discarded, and the registration waits for its answer.
record IsGone (media_id : Text) (input : MachineCreate) (s t : State) : Type 0 where
  closed : t.is_open ≡ false
  waits : t.pending ≡ some input
  registered : t.registered ≡ s.registered
  discarded : Mem media_id t.photo.discarded

photo-IsGone :
    (media_id : Text) (input : MachineCreate) (event : Photo.Event) (s t : State)
    → IsGone media_id input s t
    → IsGone media_id input s (on_photo event t)
unfolding Photo.step
photo-IsGone media_id input (Photo.settle key settlement) s t h = record {
  closed = h.closed;
  waits = h.waits;
  registered = h.registered;
  discarded = on_settled-keeps media_id key settlement t.photo.current t.photo h.discarded;
}
photo-IsGone media_id input (Photo.pick source) s t h = simp (h.closed) h
photo-IsGone media_id input Photo.retry s t h = simp (h.closed) h
photo-IsGone media_id input Photo.cancel s t h = simp (h.closed) h
photo-IsGone media_id input Photo.unmount s t h = h
photo-IsGone media_id input Photo.retain s t h = h

handle-IsGone :
    (R : Runtime) (media_id : Text) (input : MachineCreate) (event : Event) (s t : State)
    → is_other event ≡ true
    → IsGone media_id input s t
    → IsGone media_id input s (handle R event t)
unfolding handle
handle-IsGone R media_id input submitted s t e h = simp (h.closed) h
handle-IsGone R media_id input left s t e h = simp (h.closed) h
handle-IsGone R media_id input (brand_selected name) s t e h = simp (h.closed) h
handle-IsGone R media_id input (brand_typed text) s t e h = simp (h.closed) h
handle-IsGone R media_id input (model_selected id) s t e h = simp (h.closed) h
handle-IsGone R media_id input (model_typed text) s t e h = simp (h.closed) h
handle-IsGone R media_id input (serial_typed text) s t e h = simp (h.closed) h
handle-IsGone R media_id input (date_typed text) s t e h = simp (h.closed) h
handle-IsGone R media_id input (refetched models) s t e h = record {
  closed = h.closed;
  waits = h.waits;
  registered = h.registered;
  discarded = h.discarded;
}
handle-IsGone R media_id input (photo_event event) s t e h = photo-IsGone media_id input event s t h
handle-IsGone R media_id input (create_settled answer) s t e h = cc

run-IsGone :
    (R : Runtime) (media_id : Text) (input : MachineCreate) (events : List Event) (s t : State)
    → all is_other events ≡ true
    → IsGone media_id input s t
    → IsGone media_id input s (run R events t)
unfolding run
run-IsGone R media_id input [] s t e h = h
run-IsGone R media_id input (event ∷ events) s t e h =
    run-IsGone R media_id input events s (handle R event t) (ground (arith, e))
      (handle-IsGone R media_id input event s t (ground (arith, e)) h)

leave-IsGone :
    (R : Runtime) (media_id : Text) (input : MachineCreate) (s : State)
    → s.pending ≡ some input
    → input.created_media_id ≡ some media_id
    → IsOwned s
    → IsGone media_id input s (handle R left s)
unfolding handle Photo.step
leave-IsGone R media_id input s waits with h =
    let held = subst (λ p. PendingHolds p s.is_open s.photo.photo) waits h.holds in
    if_ind (IsGone media_id input s) s.is_open
      (record s { is_open = false; photo = Photo.step Photo.unmount s.photo }) s
      (λ opens. record {
        closed = refl;
        waits = waits;
        registered = refl;
        discarded =
            clear_current-discards s.photo.current s.photo media_id (h.shown held.0) held.1
              (held.2 ∙ with);
      })
      (λ shut. cc (held.0))

answered-IsGone :
    (R : Runtime) (media_id id : Text) (input : MachineCreate) (s t : State)
    → IsGone media_id input s t
    → Mem media_id (handle R (create_settled (created id)) t).photo.discarded
      × ((handle R (create_settled (created id)) t).registered ≡ input ∷ s.registered)
unfolding handle
answered-IsGone R media_id id input s t h =
    simp (h.waits, h.closed, h.registered) (h.discarded, refl)

-- Where the page is left while a registration with a photo is pending, after whatever was done on it
-- since it was opened: whatever happens until the server answers with the registered machine, the photo
-- that belongs to the machine has been discarded.
pub run_left_pending :
    (R : Runtime) (models : List MachineModel) (events later : List Event) (input : MachineCreate)
    (media_id id : Text)
    → are_staying R events (opened models) ≡ true
    → (run R events (opened models)).pending ≡ some input
    → input.created_media_id ≡ some media_id
    → all is_other later ≡ true
    → Mem media_id
        (handle R
          (create_settled (created id))
          (run R (left ∷ later) (run R events (opened models)))).photo.discarded
      × ((handle R
            (create_settled (created id))
            (run R (left ∷ later) (run R events (opened models)))).registered
          ≡ input ∷ (run R events (opened models)).registered)
unfolding run
run_left_pending R models events later input media_id id stays waits with others =
    let s = run R events (opened models) in
    answered-IsGone R media_id id input s (run R later (handle R left s)) (
      run-IsGone R media_id input later s (handle R left s) others (
        leave-IsGone R media_id input s waits with
          (run-IsOwned R events (opened models) stays (opened-IsOwned models))))
