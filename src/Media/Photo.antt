-- ===== src/Media/Photo.antt =====
-- mobile/src/features/media/useRegistrationPhoto.ts: the hook as a state and events. The operations are
-- numbered objects; an event names the one whose promise settles. The media that uploads resolved to,
-- those that were discarded and those that `retain` left to the registration are recorded.
pub mod Laws
pub mod Shown
mod Tests
use coffix.Prelude.{
  ℕ, zero, suc, ◌+◌, min, Bool, true, false, ◌&&◌, ◌||◌, Option, none, some, List, [], ◌∷◌, Text,
  is_empty, ◌==◌, ltb, if◌then◌else◌,
}
use coffix.Media.Uploader.{UploadMedia}

pub data PickerSource : Type 0 where
  camera library : PickerSource

pub data PhotoMessage : Type 0 where
  upload_failed camera_permission library_permission preparation_failed : PhotoMessage

-- `progress` is the fraction of two numbers, the second one positive.
pub data PhotoState : Type 0 where
  idle picking : PhotoState
  uploading : ℕ × ℕ → Text → PhotoState
  done : Text → Text → PhotoState
  error : Option UploadMedia → PhotoMessage → PhotoState

-- What the operation waits for: the picker, the upload of an image (so that it has a handle), nothing.
pub data Stage : Type 0 where
  at_picker : PickerSource → Stage
  at_upload : UploadMedia → Stage
  over : Stage

pub record PhotoOperation : Type 0 where
  pub key : ℕ
  pub stage : Stage
  pub has_handle : Bool
  pub media_id : Option Text

pub record State : Type 0 where
  pub photo : PhotoState
  pub current : Option PhotoOperation
  pub earlier : List PhotoOperation
  pub next_key : ℕ
  pub cancelled_handles : List ℕ
  pub resolved : List Text
  pub discarded : List Text
  pub retained : List Text

abbrev pub initial : State
initial = record {
  photo = idle;
  current = none;
  earlier = [];
  next_key = 0;
  cancelled_handles = [];
  resolved = [];
  discarded = [];
  retained = [];
}

-- `if (previous?.mediaId) discard(previous.mediaId)`
abbrev pub discard_media : Option Text → List Text → List Text
discard_media none discarded = discarded
discard_media (some media_id) discarded = media_id ∷ discarded

unfoldable pub clear_current : Option PhotoOperation → State → State
clear_current none s = s
clear_current (some previous) s = record s {
  current = none;
  earlier = record previous { media_id = none } ∷ s.earlier;
  cancelled_handles =
      if previous.has_handle then previous.key ∷ s.cancelled_handles else s.cancelled_handles;
  discarded = discard_media previous.media_id s.discarded;
}

-- `clearOperation`, also when the component unmounts.
abbrev pub clear_operation : State → State
clear_operation s = clear_current s.current s

unfoldable pub cancel_upload : State → State
unfolding clear_current
cancel_upload s = record (clear_operation s) { photo = idle }

abbrev pub start_upload : UploadMedia → PhotoOperation → State → State
start_upload image operation s = record s {
  photo = uploading (0, 1) image.uri;
  current = some (record operation { stage = at_upload image; has_handle = true });
}

-- `current` of the two callers.
abbrev pub new_operation : Stage → State → State
new_operation stage s = record s {
  current = some (record { key = s.next_key; stage = stage; has_handle = false; media_id = none });
  next_key = s.next_key + 1;
}

unfoldable pub pick_photo : PickerSource → State → State
unfolding clear_current
pick_photo source s = record (new_operation (at_picker source) (clear_operation s)) {
  photo = picking;
}

abbrev pub retry_image : UploadMedia → State → State
retry_image image s =
    let cleared = clear_operation s in
    record (new_operation (at_upload image) cleared) {
      photo = uploading (0, 1) image.uri;
      current = some (record {
        key = cleared.next_key;
        stage = at_upload image;
        has_handle = true;
        media_id = none;
      });
    }

unfoldable pub retry_photo : PhotoState → State → State
unfolding clear_current
retry_photo (error (some image) message) s = retry_image image s
retry_photo _ s = s

-- `retain`: the media of the operation now belongs to the registration.
abbrev pub retain_operation : Option PhotoOperation → State → State
retain_operation none s = s
retain_operation (some operation) s = record s {
  current = none;
  earlier = record operation { media_id = none } ∷ s.earlier;
  retained = discard_media operation.media_id s.retained;
}

-- How a promise of an operation settles, or its upload reports.
pub data Settlement : Type 0 where
  picked : Option UploadMedia → Settlement
  pick_failed : Bool → Settlement
  progressed : ℕ → ℕ → Settlement
  upload_resolved : Text → Settlement
  upload_rejected : Settlement

pub data Event : Type 0 where
  pick : PickerSource → Event
  retry : Event
  cancel : Event
  unmount : Event
  retain : Event
  settle : ℕ → Settlement → Event

abbrev pub pick_message : PickerSource → Bool → PhotoMessage
pick_message camera true = camera_permission
pick_message library true = library_permission
pick_message source false = preparation_failed

-- `Math.min(1, bytesSent / totalBytes)`
abbrev pub progress_of : ℕ → ℕ → ℕ × ℕ
progress_of sent total = if ltb 0 total then (min sent total, total) else (0, 1)

-- The promise of the operation that is `operation.current`.
unfoldable pub settle_current : Settlement → Stage → PhotoOperation → State → State
settle_current (picked none) (at_picker source) operation s = record s {
  photo = idle;
  current = some (record operation { stage = over });
}
settle_current (picked (some image)) (at_picker source) operation s = start_upload image operation s
settle_current (pick_failed permission) (at_picker source) operation s = record s {
  photo = error none (pick_message source permission);
  current = some (record operation { stage = over });
}
settle_current (progressed sent total) (at_upload image) operation s = record s {
  photo = uploading (progress_of sent total) image.uri;
}
settle_current (upload_resolved media_id) (at_upload image) operation s = record s {
  photo = done media_id image.uri;
  current = some (record operation { stage = over; media_id = some media_id });
  resolved = media_id ∷ s.resolved;
}
settle_current upload_rejected (at_upload image) operation s = record s {
  photo = error (some image) upload_failed;
  current = some (record operation { stage = over });
}
settle_current _ _ operation s = s

-- The promise of an operation of before: only a media that was uploaded after all is of interest.
abbrev pub settled_stage : Settlement → Stage → Stage
settled_stage (progressed sent total) stage = stage
settled_stage _ stage = over

abbrev pub late_media : Settlement → Stage → Option Text
late_media (upload_resolved media_id) (at_upload image) = some media_id
late_media _ _ = none

unfoldable pub settle_earlier :
    ℕ → Settlement → List PhotoOperation → List PhotoOperation × Option Text
settle_earlier key settlement [] = ([], none)
settle_earlier key settlement (operation ∷ operations) =
    let rest = settle_earlier key settlement operations in
    if operation.key == key
    then (
      record operation { stage = settled_stage settlement operation.stage } ∷ operations,
      late_media settlement operation.stage,
    )
    else (operation ∷ rest.0, rest.1)

abbrev pub with_late : List PhotoOperation × Option Text → State → State
with_late (operations, late) s = record s {
  earlier = operations;
  resolved = discard_media late s.resolved;
  discarded = discard_media late s.discarded;
}

unfoldable pub on_settled : ℕ → Settlement → Option PhotoOperation → State → State
unfolding settle_current settle_earlier
on_settled key settlement none s = with_late (settle_earlier key settlement s.earlier) s
on_settled key settlement (some operation) s =
    if operation.key == key
    then settle_current settlement operation.stage operation s
    else with_late (settle_earlier key settlement s.earlier) s

unfoldable pub step : Event → State → State
unfolding pick_photo retry_photo cancel_upload clear_current on_settled
step (pick source) s = pick_photo source s
step retry s = retry_photo s.photo s
step cancel s = cancel_upload s
step unmount s = clear_operation s
step retain s = retain_operation s.current s
step (settle key settlement) s = on_settled key settlement s.current s

unfoldable pub run : List Event → State → State
unfolding step
run [] s = s
run (event ∷ events) s = run events (step event s)

-- What the hook returns.
abbrev pub is_busy : PhotoState → Bool
is_busy picking = true
is_busy (uploading progress uri) = true
is_busy _ = false

abbrev pub media_of : PhotoState → Option Text
media_of (done media_id uri) = some media_id
media_of _ = none
