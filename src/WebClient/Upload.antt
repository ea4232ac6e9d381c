-- ===== src/WebClient/Upload.antt =====
-- admin/src/api/client.ts, `uploadFile`, between its awaits. The other requests of the tab go on between
-- them, so each answer comes with the shared state of its moment. `URL` is a parameter: `new_url` is none
-- where its constructor throws.
pub mod Paths
pub mod Confined
mod Tests
use coffix.Prelude.{
  ℕ, Bool, true, false, not, ◌&&◌, ◌||◌, Option, none, some, List, [], ◌∷◌, ◌++◌, Text, text_eq,
  codes, is_empty, ◌==◌, if◌then◌else◌,
}
use coffix.Api.{ApiError, problem, other}
use coffix.Client.{Response, Payload, Result, returned, threw}
use coffix.WebClient.Tab.{WebSession, Shared, token_of, begin_refresh, web_problem_from}

pub record Urls : Type 1 where
  pub Url : Type 0
  pub new_url : Text → Text → Option Url
  pub href : Url → Text
  pub origin : Url → Text
  pub pathname : Url → Text

-- The fields of `MediaUploadCreated` that decide where the file goes.
pub record UploadTarget : Type 0 where
  pub upload_url : Text
  pub upload_id : Text

-- `replace(/\/$/, '')`
abbrev pub strip_slash : Text → Text
strip_slash [] = []
strip_slash (c ∷ []) = if c == b'/' then [] else c ∷ []
strip_slash (c ∷ (d ∷ s)) = c ∷ strip_slash (d ∷ s)

abbrev pub content_path : Text → Text → Text
content_path pathname upload_id =
    strip_slash pathname ++ (codes "/media/uploads/" ++ (upload_id ++ codes "/content"))

-- What the upload waits for; `sent_whole` has the version of the session of that moment.
pub data UploadPhase : Type 0 where
  first_upload second_upload : UploadPhase
  upload_refresh : Response → UploadPhase
  reading_problem : Response → UploadPhase
  sent_whole : ℕ → UploadPhase
  not_sent : ApiError → UploadPhase

pub data UploadEvent : Type 0 where
  upload_answered : Response → UploadEvent
  upload_rejected : ApiError → UploadEvent
  upload_refreshed : Result (Option WebSession) → UploadEvent
  problem_read : Payload → UploadEvent

module _ (U : Urls) where
  -- A call of `fetch` with the file: its address, whether cookies go with it, and the token beside the
  -- headers of the target.
  pub record UploadFetch : Type 0 where
    pub url : U.Url
    pub has_credentials : Bool
    pub token : Option Text

  pub record Upload : Type 0 where
    pub is_local : Bool
    pub upload_to : U.Url
    pub started_version : ℕ
    pub fetches : List UploadFetch
    pub phase : UploadPhase

  -- `local && snapshot.session`
  abbrev pub local_token : Bool → Option WebSession → Option Text
  local_token false session = none
  local_token true session = token_of session

  abbrev pub send_file : Shared → UploadPhase → Upload → Upload
  send_file g phase u = record u {
    fetches =
        (record {
          url = u.upload_to;
          has_credentials = u.is_local;
          token = local_token u.is_local g.session;
        })
        ∷ u.fetches;
    phase = phase;
  }

  abbrev pub start_at : Shared → Bool → Option U.Url → Option Upload
  start_at g is_local none = none
  start_at g is_local (some address) = some (
      send_file g first_upload (record {
        is_local = is_local;
        upload_to = address;
        started_version = g.session_version;
        fetches = [];
        phase = first_upload;
      }))

  abbrev pub is_own_path : U.Url → U.Url → Text → Bool
  is_own_path api url upload_id = text_eq (U.pathname url) (content_path (U.pathname api) upload_id)

  -- API-owned uploads go to the origin of the API.
  abbrev pub address_of_upload : U.Url → U.Url → Bool → Option U.Url
  address_of_upload api url is_local =
      if is_local then U.new_url (U.pathname url) (U.origin api) else some url

  abbrev pub start_with : Shared → UploadTarget → Option U.Url → Option U.Url → Option Upload
  start_with g target (some api) (some url) =
      start_at g (is_own_path api url target.upload_id)
        (address_of_upload api url (is_own_path api url target.upload_id))
  start_with g target api url = none

  abbrev pub resolve_from : Text → Option U.Url → Option U.Url
  resolve_from relative none = none
  resolve_from relative (some base) = U.new_url relative (U.href base)

  -- `uploadFile` until its first answer; none where a URL is invalid. `location` is the page's origin.
  unfoldable pub upload_file : Text → Text → UploadTarget → Shared → Option Upload
  upload_file base location target g =
      start_with g target (U.new_url base location)
        (resolve_from target.upload_url (U.new_url base location))

  abbrev pub with_upload_phase : UploadPhase → Upload → Upload
  with_upload_phase phase u = record u { phase = phase }

  -- `requireSameSession`, then the rest.
  abbrev pub in_same_session : Shared → Upload → Upload → Upload
  in_same_session g u rest =
      if u.started_version == g.session_version then rest else with_upload_phase (not_sent other) u

  -- `if (!response.ok)`
  abbrev pub conclude_upload : Response → Shared → Upload → Upload
  conclude_upload response g u = in_same_session g u (
      with_upload_phase
        (if response.success then sent_whole g.session_version else reading_problem response) u)

  abbrev pub wants_refresh : Response → Shared → Upload → Bool
  wants_refresh response g u = u.is_local && (response.status_code == 401) && not g.signing_out

  abbrev pub on_first_upload : Response → Shared → Upload → Shared × Upload
  on_first_upload response g u =
      if not (u.started_version == g.session_version)
      then (g, with_upload_phase (not_sent other) u)
      else if wants_refresh response g u
      then (begin_refresh g, with_upload_phase (upload_refresh response) u)
      else (g, conclude_upload response g u)

  abbrev pub on_upload_refreshed : Response → Result (Option WebSession) → Shared → Upload → Upload
  on_upload_refreshed response (threw error) g u = with_upload_phase (not_sent error) u
  on_upload_refreshed response (returned none) g u = conclude_upload response g u
  on_upload_refreshed response (returned (some session)) g u =
      in_same_session g u (send_file g second_upload u)

  -- An event that does not fit the phase changes nothing.
  unfoldable pub advance_upload : UploadEvent → UploadPhase → Shared → Upload → Shared × Upload
  advance_upload (upload_answered response) first_upload g u = on_first_upload response g u
  advance_upload (upload_answered response) second_upload g u = (g, conclude_upload response g u)
  advance_upload (upload_rejected error) first_upload g u =
      (g, with_upload_phase (not_sent error) u)
  advance_upload (upload_rejected error) second_upload g u =
      (g, with_upload_phase (not_sent error) u)
  advance_upload (upload_refreshed result) (upload_refresh response) g u =
      (g, on_upload_refreshed response result g u)
  advance_upload (problem_read payload) (reading_problem response) g u =
      (g, with_upload_phase (not_sent (problem (web_problem_from response payload))) u)
  advance_upload event phase g u = (g, u)

  unfoldable pub run_upload : List (Shared × UploadEvent) → Upload → Upload
  unfolding advance_upload
  run_upload [] u = u
  run_upload ((g, event) ∷ events) u = run_upload events (advance_upload event u.phase g u).1
