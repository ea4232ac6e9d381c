-- ===== src/Media/Uploader.antt =====
-- mobile/src/features/media/uploader.ts: `uploadMedia` between its awaits. An event is the answer of
-- what it waits for, or `cancel` of its handle. The calls of the API client, the token store and the
-- upload task are recorded, the last one first; `base` is `apiBaseUrl`.
pub mod Laws
mod Tests
use coffix.Prelude.{
  ℕ, Bool, true, false, ◌||◌, Option, none, some, List, [], ◌∷◌, ◌++◌, Text, text_eq, codes,
  is_empty, String, insert, ltb, leb, if◌then◌else◌,
}
use coffix.Service.IntakeStore.{encode_uri_component}

pub data MediaPurpose : Type 0 where
  machine_registration service_issue : MediaPurpose

pub record UploadMedia : Type 0 where
  pub uri : Text
  pub content_type : Text
  pub size_bytes : ℕ

pub data Method : Type 0 where
  method_put method_post : Method

pub record MediaUploadCreated : Type 0 where
  pub headers : List (String × Text)
  pub method : Text
  pub upload_id : Text
  pub upload_url : Text

-- The body of the first request.
pub record CreateBody : Type 0 where
  pub collection_id : Option Text
  pub body_content_type : Text
  pub body_purpose : MediaPurpose
  pub body_size_bytes : ℕ

pub data Call : Type 0 where
  create_upload : CreateBody → Call
  get_access_token : Call
  create_task : Text → Text → List (String × Text) → Method → Call
  cancel_task : Call
  upload_async : Call
  complete_upload : Text → Call
  discard_media : Text → Call

pub data UploadError : Type 0 where
  cancelled_error : UploadError
  failed_error : ℕ → UploadError
  other_error : UploadError

-- What the function waits for; `discarding` ends in a rejection, however the discard ends.
pub data Phase : Type 0 where
  creating : Phase
  reading_token : MediaUploadCreated → Phase
  uploading : MediaUploadCreated → Phase
  completing : Phase
  discarding : Phase
  resolved : Text → Phase
  rejected : UploadError → Phase

pub record Upload : Type 0 where
  pub image : UploadMedia
  pub cancelled : Bool
  pub has_task : Bool
  pub phase : Phase
  pub calls : List Call

pub data Event : Type 0 where
  created : MediaUploadCreated → Event
  token_read : Option Text → Event
  responded : ℕ → Event
  completed : Text → Event
  discard_ended : Event
  threw : Event
  cancel : Event

-- `collectionId ? { collection_id: collectionId } : {}`
abbrev pub truthy : Option Text → Option Text
truthy none = none
truthy (some s) = if is_empty s then none else some s

abbrev pub create_body : MediaPurpose → UploadMedia → Option Text → CreateBody
create_body purpose image collection_id = record {
  collection_id = truthy collection_id;
  body_content_type = image.content_type;
  body_purpose = purpose;
  body_size_bytes = image.size_bytes;
}

unfoldable pub upload_media : MediaPurpose → UploadMedia → Option Text → Upload
upload_media purpose image collection_id = record {
  image = image;
  cancelled = false;
  has_task = false;
  phase = creating;
  calls = create_upload (create_body purpose image collection_id) ∷ [];
}

abbrev pub upload_machine_registration_photo : UploadMedia → Upload
upload_machine_registration_photo image = upload_media machine_registration image none

abbrev pub upload_service_issue_media : UploadMedia → Text → Upload
upload_service_issue_media image collection_id =
    upload_media service_issue image (some collection_id)

abbrev pub ended : Phase → Upload → Upload
ended phase u = record u { phase = phase }

abbrev pub called : Call → Phase → Upload → Upload
called call phase u = record u { phase = phase; calls = call ∷ u.calls }

abbrev pub with_authorization : Option Text → List (String × Text) → List (String × Text)
with_authorization none headers = headers
with_authorization (some token) headers =
    if is_empty token then headers else insert "Authorization" (codes "Bearer " ++ token) headers

-- From the access token on: the task is made, and cancelled at once where `cancel` came before it.
unfoldable pub start_task : MediaUploadCreated → Option Text → Upload → Upload
start_task upload token u =
    let task =
      create_task u.image.uri upload.upload_url (with_authorization token upload.headers)
        (if text_eq upload.method (codes "PUT") then method_put else method_post) in
    if u.cancelled
    then record u {
      has_task = true;
      phase = rejected cancelled_error;
      calls = cancel_task ∷ task ∷ u.calls;
    }
    else record u {
      has_task = true;
      phase = uploading upload;
      calls = upload_async ∷ task ∷ u.calls;
    }

-- `${apiBaseUrl}/api/v1/media/uploads/${encodeURIComponent(created.upload_id)}/content`
abbrev pub local_url : Text → Text → Text
local_url base encoded = base ++ codes "/api/v1/media/uploads/" ++ encoded ++ codes "/content"

-- The token is read only for an upload to the API itself.
unfoldable pub target : Text → MediaUploadCreated → Option Text → Upload → Upload
unfolding start_task
target base upload none u = ended (rejected other_error) u
target base upload (some encoded) u =
    if text_eq upload.upload_url (local_url base encoded)
    then called get_access_token (reading_token upload) u
    else start_task upload none u

unfoldable pub on_created : Text → MediaUploadCreated → Upload → Upload
unfolding target
on_created base upload u =
    if u.cancelled
    then ended (rejected cancelled_error) u
    else target base upload (encode_uri_component upload.upload_id) u

unfoldable pub on_response : MediaUploadCreated → ℕ → Upload → Upload
on_response upload status u =
    if u.cancelled
    then ended (rejected cancelled_error) u
    else if ltb status 200 || leb 300 status
    then ended (rejected (failed_error status)) u
    else called (complete_upload upload.upload_id) completing u

unfoldable pub on_completed : Text → Upload → Upload
on_completed media_id u =
    if u.cancelled
    then called (discard_media media_id) discarding u
    else ended (resolved media_id) u

-- The handle's `cancel`.
unfoldable pub on_cancel : Upload → Upload
on_cancel u =
    if u.has_task
    then record u { cancelled = true; calls = cancel_task ∷ u.calls }
    else record u { cancelled = true }

-- An answer that nothing waits for changes nothing.
unfoldable pub advance : Text → Event → Phase → Upload → Upload
unfolding on_created start_task on_response on_completed on_cancel
advance base cancel phase u = on_cancel u
advance base (created upload) creating u = on_created base upload u
advance base threw creating u = ended (rejected other_error) u
advance base (token_read token) (reading_token upload) u = start_task upload token u
advance base threw (reading_token upload) u = ended (rejected other_error) u
advance base (responded status) (uploading upload) u = on_response upload status u
advance base threw (uploading upload) u = ended (rejected other_error) u
advance base (completed media_id) completing u = on_completed media_id u
advance base threw completing u = ended (rejected other_error) u
advance base discard_ended discarding u = ended (rejected cancelled_error) u
advance base _ _ u = u

unfoldable pub run : Text → List Event → Upload → Upload
unfolding advance
run base [] u = u
run base (event ∷ events) u = run base events (advance base event u.phase u)
