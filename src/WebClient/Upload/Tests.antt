-- ===== src/WebClient/Upload/Tests.antt =====
-- A file that goes to the API after a refresh, and one that goes to a storage.
use coffix.Prelude.{
  ℕ, ◌≤◌, ◌≡◌, refl, sym, ap, Bool, true, false, Option, none, some, List, [], ◌∷◌, Text, text_eq,
  codes, length, All, ◌==◌, if◌then◌else◌, arith,
}
use coffix.Client.{Response, returned}
use coffix.WebClient.Tab.{WebSession, Shared, admin}
use coffix.WebClient.Upload.{
  Urls, UploadTarget, UploadEvent, upload_answered, upload_refreshed, Upload, upload_file,
  run_upload, first_upload, sent_whole, advance_upload,
}
use coffix.WebClient.Upload.Paths.{UrlsLaws, is_path}
use coffix.WebClient.Upload.Confined.{IsConfined, EndsIn, run_upload-IsConfined}

-- URLs by their origin and path: a path is put below the base, and any other text is an origin.
abbrev resolve : Text → Text → Option (Text × Text)
resolve [] base = some (base, [])
resolve (c ∷ s) base = if c == b'/' then some (base, c ∷ s) else some (c ∷ s, [])

abbrev plain_urls : Urls
plain_urls = record {
  Url = Text × Text;
  new_url = resolve;
  href = λ (url : Text × Text). url.0;
  origin = λ (url : Text × Text). url.0;
  pathname = λ (url : Text × Text). url.1;
}

resolved_origin :
    (path : Text) (base address : Text × Text)
    → is_path path ≡ true
    → resolve path base.0 ≡ some address
    → address.0 ≡ base.0
resolved_origin [] base address h e = cc
resolved_origin (c ∷ []) base address h e = cc
resolved_origin (c ∷ (d ∷ s)) base address h e = from (c == b'/') (ground (arith, h)) e
  where
    from :
        (slash : Bool)
        → slash ≡ true
        → (if slash then some (base.0, c ∷ (d ∷ s)) else some (c ∷ (d ∷ s), [])) ≡ some address
        → address.0 ≡ base.0
    from false q e = cc
    from true q e =
        let same : (base.0, c ∷ (d ∷ s)) ≡ address = cc in ap (λ (r : Text × Text). r.0) (sym same)

plain_laws : UrlsLaws plain_urls
plain_laws = record { origin_of_path = resolved_origin }

abbrev own_target : UploadTarget
own_target = record { upload_url = codes "/media/uploads/7/content"; upload_id = codes "7" }

abbrev storage_target : UploadTarget
storage_target = record { upload_url = codes "https://storage"; upload_id = codes "7" }

abbrev session_with : Text → WebSession
session_with token = record { access_token = token; user_id = codes "u"; role = admin }

abbrev tab_with : Text → Shared
tab_with token = record {
  session = some (session_with token);
  ready = true;
  error = none;
  refresh_flight = false;
  signing_out = false;
  session_version = 1;
  sent = [];
  refresh_calls = 0;
  cache_clears = 0;
}

abbrev response_of : ℕ → Bool → Response
response_of status success = record {
  status_code = status;
  success = success;
  correlation = none;
  body_text = none;
}

abbrev api_base : Text
api_base = codes "https://a"

abbrev uploading_file : Upload plain_urls
uploading_file = record {
  is_local = true;
  upload_to = (api_base, codes "/media/uploads/7/content");
  started_version = 1;
  fetches =
      (record {
        url = (api_base, codes "/media/uploads/7/content");
        has_credentials = true;
        token = some (codes "old");
      })
      ∷ [];
  phase = first_upload;
}

starts_own :
    upload_file plain_urls api_base (codes "https://page") own_target (tab_with (codes "old"))
    ≡ some uploading_file
unfolding upload_file text_eq
starts_own = refl

-- The first answer is 401; another session token comes, and the file is sent again.
abbrev answers : List (Shared × UploadEvent)
answers =
    (tab_with (codes "old"), upload_answered (response_of 401 false))
    ∷ (tab_with (codes "new"), upload_refreshed (returned (some (session_with (codes "new")))))
    ∷ (tab_with (codes "new"), upload_answered (response_of 204 true))
    ∷ []

sent_again :
    ((run_upload plain_urls answers uploading_file).phase ≡ sent_whole 1)
    × (length (run_upload plain_urls answers uploading_file).fetches ≡ 2)
unfolding run_upload advance_upload
sent_again = (refl, refl)

-- A storage gets the file alone.
starts_storage :
    upload_file plain_urls api_base (codes "https://page") storage_target (tab_with (codes "old"))
    ≡ some (record {
      is_local = false;
      upload_to = (codes "https://storage", []);
      started_version = 1;
      fetches =
          (record { url = (codes "https://storage", []); has_credentials = false; token = none })
          ∷ [];
      phase = first_upload;
    })
unfolding upload_file text_eq
starts_storage = refl

run_upload-IsConfined_example :
    All
      (IsConfined plain_laws (api_base, []))
      (run_upload plain_urls answers uploading_file).fetches
    × (length (run_upload plain_urls answers uploading_file).fetches ≤ 2)
    × EndsIn 1 (run_upload plain_urls answers uploading_file).phase
run_upload-IsConfined_example =
    run_upload-IsConfined plain_laws (api_base, []) api_base (codes "https://page") own_target
      (tab_with (codes "old")) uploading_file answers refl refl starts_own
