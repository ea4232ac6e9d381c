-- ===== src/Media/Uploader/Laws.antt =====
-- What a cancelled upload ends in, and where the access token goes.
use coffix.Prelude.{
  ◌≡◌, refl, ◌⊎◌, inl, inr, Bool, true, false, Option, none, some, List, [], ◌∷◌, Text, text_eq,
  text_eq_iff, arith, if_ind, ℕ, ◌++◌, codes, String, insert, ltb, leb, ◌||◌, All,
}
use mathlib.Core.List.{Mem, Subset, mem-cons_self, mem-cons_of_mem}
use coffix.Service.IntakeStore.{encode_uri_component}
use coffix.Media.Uploader.{
  MediaPurpose, UploadMedia, MediaUploadCreated, Call, create_task, get_access_token,
  with_authorization, Phase, creating, reading_token, uploading, completing, discarding, resolved,
  Upload, Event, created, token_read, responded, completed, discard_ended, threw, cancel,
  upload_media, start_task, local_url, target, on_created, on_response, on_completed, on_cancel,
  advance, run,
}

abbrev pub is_resolved : Phase → Bool
is_resolved (resolved media_id) = true
is_resolved _ = false

record Stays (u : Upload) : Type 0 where
  cancelled : u.cancelled ≡ true
  unresolved : is_resolved u.phase ≡ false

on_created-Stays :
    (base : Text) (upload : MediaUploadCreated) (u : Upload)
    → Stays u
    → Stays (on_created base upload u)
unfolding on_created
on_created-Stays base upload u h = ground arith

advance-Stays :
    (base : Text) (event : Event) (phase : Phase) (u : Upload)
    → is_resolved phase ≡ false
    → Stays u
    → Stays (advance base event phase u)
unfolding advance
advance-Stays base (created upload) creating u e h = on_created-Stays base upload u h
advance-Stays base _ _ u e h = ground arith

-- From the moment of `cancel` on an upload that has not resolved never does, whatever still arrives.
pub run_cancelled :
    (base : Text) (events : List Event) (u : Upload)
    → u.cancelled ≡ true
    → is_resolved u.phase ≡ false
    → is_resolved (run base events u).phase ≡ false
unfolding run
run_cancelled base [] u c h = h
run_cancelled base (event ∷ events) u c h =
    let next = advance-Stays base event u.phase u h (record { cancelled = c; unresolved = h }) in
    run_cancelled base events (advance base event u.phase u) next.cancelled next.unresolved

-- The url of the API itself for the content of an upload.
abbrev pub IsLocal : Text → MediaUploadCreated → Type 0
IsLocal base upload =
    (encoded : Text) × (encode_uri_component upload.upload_id ≡ some encoded)
    × (upload.upload_url ≡ local_url base encoded)

module _ (base : Text) (history : List Event) where
  -- The headers of the server, or these with the access token that was read, for the API's own url.
  abbrev pub IsAuthorized : MediaUploadCreated → List (String × Text) → Type 0
  IsAuthorized upload headers =
      (headers ≡ upload.headers)
      ⊎ (IsLocal base upload
          × ((token : Text) × Mem (token_read (some token)) history
              × (headers ≡ insert "Authorization" (codes "Bearer " ++ token) upload.headers)))

  -- A task is made for an upload with which the server answered, and the access token is read only for
  -- one to the API itself.
  abbrev pub IsConfined : Call → Type 0
  IsConfined (create_task uri url headers method) =
      (upload : MediaUploadCreated) × Mem (created upload) history
      × (url ≡ upload.upload_url)
      × IsAuthorized upload headers
  IsConfined get_access_token =
      (upload : MediaUploadCreated) × Mem (created upload) history × IsLocal base upload
  IsConfined _ = Unit

  abbrev WaitsLocally : Phase → Type 0
  WaitsLocally (reading_token upload) = Mem (created upload) history × IsLocal base upload
  WaitsLocally _ = Unit

  record Confines (u : Upload) : Type 0 where
    calls : All IsConfined u.calls
    waits : WaitsLocally u.phase

  with_authorization-IsAuthorized :
      (token : Option Text) (upload : MediaUploadCreated)
      → Mem (token_read token) history
      → IsLocal base upload
      → IsAuthorized upload (with_authorization token upload.headers)
  with_authorization-IsAuthorized none upload read near = inl refl
  with_authorization-IsAuthorized (some []) upload read near = inl refl
  with_authorization-IsAuthorized (some (c ∷ token)) upload read near =
      inr (near, (c ∷ token, read, refl))

  start_task-Confines :
      (upload : MediaUploadCreated) (token : Option Text) (u : Upload)
      → Mem (created upload) history
      → IsAuthorized upload (with_authorization token upload.headers)
      → Confines u
      → Confines (start_task upload token u)
  unfolding start_task
  start_task-Confines upload token u made why h =
      if_ind Confines u.cancelled _ _
        (λ _. record { calls = (tt, ((upload, made, refl, why), h.calls)); waits = tt })
        (λ _. record { calls = (tt, ((upload, made, refl, why), h.calls)); waits = tt })

  target-Confines :
      (upload : MediaUploadCreated) (encoding : Option Text) (u : Upload)
      → Mem (created upload) history
      → encode_uri_component upload.upload_id ≡ encoding
      → Confines u
      → Confines (target base upload encoding u)
  unfolding target
  target-Confines upload none u made e h = record { calls = h.calls; waits = tt }
  target-Confines upload (some encoded) u made e h =
      if_ind Confines (text_eq upload.upload_url (local_url base encoded)) _ _
        (λ same.
          let near : IsLocal base upload =
            (encoded, e, (text_eq_iff upload.upload_url (local_url base encoded)).0 same) in
          record { calls = ((upload, made, near), h.calls); waits = (made, near) })
        (λ other. start_task-Confines upload none u made (inl refl) h)

  on_created-Confines :
      (upload : MediaUploadCreated) (u : Upload)
      → Mem (created upload) history
      → Confines u
      → Confines (on_created base upload u)
  unfolding on_created
  on_created-Confines upload u made h =
      if_ind Confines u.cancelled _ _ (λ _. record { calls = h.calls; waits = tt })
        (λ _. target-Confines upload (encode_uri_component upload.upload_id) u made refl h)

  on_response-Confines :
      (upload : MediaUploadCreated) (status : ℕ) (u : Upload)
      → Confines u
      → Confines (on_response upload status u)
  unfolding on_response
  on_response-Confines upload status u h =
      if_ind (Confines) u.cancelled _ _ (λ _. record { calls = h.calls; waits = tt })
        λ _.
          if_ind (Confines) (ltb status 200 || leb 300 status) _ _
            (λ _. record { calls = h.calls; waits = tt })
            (λ _. record { calls = (tt, h.calls); waits = tt })

  on_completed-Confines :
      (media_id : Text) (u : Upload) → Confines u → Confines (on_completed media_id u)
  unfolding on_completed
  on_completed-Confines media_id u h =
      if_ind (Confines) u.cancelled _ _ (λ _. record { calls = (tt, h.calls); waits = tt })
        (λ _. record { calls = h.calls; waits = tt })

  on_cancel-Confines : (u : Upload) → Confines u → Confines (on_cancel u)
  unfolding on_cancel
  on_cancel-Confines u h =
      if_ind (Confines) u.has_task _ _ (λ _. record { calls = (tt, h.calls); waits = h.waits })
        (λ _. record { calls = h.calls; waits = h.waits })

  advance-Confines :
      (event : Event) (phase : Phase) (u : Upload)
      → Mem event history
      → WaitsLocally phase
      → Confines u
      → Confines (advance base event phase u)
  unfolding advance
  advance-Confines cancel phase u m w h = on_cancel-Confines u h
  advance-Confines (created upload) creating u m w h = on_created-Confines upload u m h
  advance-Confines (token_read token) (reading_token upload) u m w h =
      start_task-Confines upload token u w.0 (with_authorization-IsAuthorized token upload m w.1) h
  advance-Confines (responded status) (uploading upload) u m w h =
      on_response-Confines upload status u h
  advance-Confines (completed media_id) completing u m w h = on_completed-Confines media_id u h
  advance-Confines threw creating u m w h = record { calls = h.calls; waits = tt }
  advance-Confines threw (reading_token upload) u m w h = record { calls = h.calls; waits = tt }
  advance-Confines threw (uploading upload) u m w h = record { calls = h.calls; waits = tt }
  advance-Confines threw completing u m w h = record { calls = h.calls; waits = tt }
  advance-Confines discard_ended discarding u m w h = record { calls = h.calls; waits = tt }
  advance-Confines _ _ u m w h = h

  run-Confines :
      (events : List Event) (u : Upload)
      → Subset events history
      → Confines u
      → Confines (run base events u)
  unfolding run
  run-Confines [] u heard h = h
  run-Confines (event ∷ events) u heard h =
      run-Confines events (advance base event u.phase u)
        (λ later m. heard later (mem-cons_of_mem event m))
        (advance-Confines event u.phase u (heard event mem-cons_self) h.waits h)

-- Whatever the server answers and whenever `cancel` comes: each task goes to the url of an upload with
-- which the server answered, with the headers of that answer, to which an access token that was read
-- is added only where the url is the API's own for that upload; and the token is read only then.
pub run-IsConfined :
    (base : Text) (purpose : MediaPurpose) (image : UploadMedia) (collection_id : Option Text)
    (events : List Event)
    → All
        (IsConfined base events)
        (run base events (upload_media purpose image collection_id)).calls
unfolding upload_media
run-IsConfined base purpose image collection_id events =
    (run-Confines base events events (upload_media purpose image collection_id) (λ event m. m)
      (record { calls = (tt, tt); waits = tt })).calls
