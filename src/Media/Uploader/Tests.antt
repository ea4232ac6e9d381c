-- ===== src/Media/Uploader/Tests.antt =====
-- An upload to the API itself, and one that is cancelled while the server answers.
use coffix.Prelude.{◌≡◌, refl, true, false, none, some, List, [], ◌∷◌, Text, text_eq, codes, All}
use coffix.Service.IntakeStore.{encode_from}
use coffix.Media.Uploader.{
  machine_registration, UploadMedia, MediaUploadCreated, completing, resolved, Upload, Event,
  created, token_read, responded, completed, upload_media, upload_machine_registration_photo,
  start_task, local_url, target, on_created, on_response, on_completed, advance, run,
}
use coffix.Media.Uploader.Laws.{is_resolved, run_cancelled, IsConfined, run-IsConfined}

abbrev base : Text
base = codes "https://api"

abbrev picture : UploadMedia
picture = record { uri = codes "file:a"; content_type = codes "image/jpeg"; size_bytes = 7 }

abbrev local_upload : MediaUploadCreated
local_upload = record {
  headers = [];
  method = codes "PUT";
  upload_id = codes "u1";
  upload_url = local_url base (codes "u1");
}

abbrev answers : List Event
answers =
    created local_upload
    ∷ token_read (some (codes "t"))
    ∷ responded 201
    ∷ completed (codes "m1")
    ∷ []

resolves :
    (run base answers (upload_machine_registration_photo picture)).phase ≡ resolved (codes "m1")
unfolding run advance upload_media on_created target start_task on_response on_completed encode_from
    text_eq
resolves = refl

abbrev cancelled_upload : Upload
cancelled_upload = record {
  image = picture;
  cancelled = true;
  has_task = true;
  phase = completing;
  calls = [];
}

run_cancelled_example :
    is_resolved (run base (completed (codes "m1") ∷ []) cancelled_upload).phase ≡ false
run_cancelled_example = run_cancelled base (completed (codes "m1") ∷ []) cancelled_upload refl refl

run-IsConfined_example :
    All
      (IsConfined base answers)
      (run base answers (upload_media machine_registration picture none)).calls
run-IsConfined_example = run-IsConfined base machine_registration picture none answers
