-- ===== src/WebClient/Upload/Confined.antt =====
-- Where `uploadFile` sends the token, how often it sends, and in which session it ends.
use coffix.Prelude.{
  ℕ, ◌≤◌, ◌≡◌, ◌⊎◌, inl, inr, refl, sym, ap, ◌∙◌, subst, Bool, true, false, not, Option, none, some,
  List, [], ◌∷◌, Text, text_eq_iff, length, All, ◌==◌, ==_iff, if_ind, arith,
}
use coffix.Api.{ApiError, problem, other}
use coffix.Client.{Response, Result, returned, threw}
use coffix.WebClient.Tab.{WebSession, Shared, web_problem_from}
use coffix.WebClient.Upload.{
  Urls, UploadTarget, content_path, UploadPhase, first_upload, second_upload, upload_refresh,
  reading_problem, sent_whole, not_sent, UploadEvent, upload_answered, upload_rejected,
  upload_refreshed, problem_read, UploadFetch, Upload, local_token, start_at, is_own_path,
  address_of_upload, start_with, resolve_from, upload_file, with_upload_phase, in_same_session,
  conclude_upload, wants_refresh, on_first_upload, on_upload_refreshed, advance_upload, run_upload,
}
use coffix.WebClient.Upload.Paths.{UrlsLaws, is_path, is_base_path, own_path}

abbrev FetchBound : UploadPhase → ℕ → Type 0
FetchBound first_upload n = n ≤ 1
FetchBound (upload_refresh response) n = n ≤ 1
FetchBound _ n = n ≤ 2

-- An upload that is through ends in the session in which it started.
abbrev pub EndsIn : ℕ → UploadPhase → Type 0
EndsIn version (sent_whole now) = now ≡ version
EndsIn version _ = Unit

module _ {U : Urls} (laws : UrlsLaws U) (api : U.Url) where
  -- The token and the cookies go to the origin of the API alone.
  abbrev pub IsConfined : UploadFetch U → Type 0
  IsConfined f = ((f.token ≡ none) × (f.has_credentials ≡ false)) ⊎ (U.origin f.url ≡ U.origin api)

  record IsSafe (version : ℕ) (u : Upload U) : Type 0 where
    at_home : u.is_local ≡ true → U.origin u.upload_to ≡ U.origin api
    same : u.started_version ≡ version
    confined : All IsConfined u.fetches
    bound : FetchBound u.phase (length u.fetches)
    ends : EndsIn version u.phase

  fetch-IsConfined :
      (is_local : Bool) (address : U.Url) (session : Option WebSession)
      → (is_local ≡ true → U.origin address ≡ U.origin api)
      → IsConfined (record {
        url = address;
        has_credentials = is_local;
        token = local_token U is_local session;
      })
  fetch-IsConfined true address session home = inr (home refl)
  fetch-IsConfined false address session home = inl (refl, refl)

  address_home :
      (url : U.Url) (upload_id : Text) (is_own : Bool) (address : U.Url)
      → is_base_path (U.pathname api) ≡ true
      → is_own_path U api url upload_id ≡ is_own
      → address_of_upload U api url is_own ≡ some address
      → is_own ≡ true
      → U.origin address ≡ U.origin api
  address_home url upload_id false address rooted own e h = cc
  address_home url upload_id true address rooted own e h =
      let path = (text_eq_iff (U.pathname url) (content_path (U.pathname api) upload_id)).0 own in
      laws.origin_of_path (U.pathname url) api address
        (ap is_path path ∙ own_path (U.pathname api) upload_id rooted) e

  start_at-IsSafe :
      (g : Shared) (is_local : Bool) (address : Option U.Url) (u : Upload U)
      → ((found : U.Url) → address ≡ some found → is_local ≡ true → U.origin found ≡ U.origin api)
      → start_at U g is_local address ≡ some u
      → IsSafe g.session_version u
  start_at-IsSafe g is_local none u home e = cc
  start_at-IsSafe g is_local (some address) u home e =
      subst (λ (o : Option (Upload U)). Safe o) e
        (record {
          at_home = home address refl;
          same = refl;
          confined = (fetch-IsConfined is_local address g.session (home address refl), tt);
          bound = omega arith;
          ends = tt;
        })
    where
      Safe : Option (Upload U) → Type 0
      Safe none = Unit
      Safe (some u) = IsSafe g.session_version u

  started-IsSafe :
      (g : Shared) (target : UploadTarget) (url : Option U.Url) (u : Upload U)
      → is_base_path (U.pathname api) ≡ true
      → start_with U g target (some api) url ≡ some u
      → IsSafe g.session_version u
  started-IsSafe g target none u rooted e = cc
  started-IsSafe g target (some url) u rooted e =
      start_at-IsSafe g (is_own_path U api url target.upload_id)
        (address_of_upload U api url (is_own_path U api url target.upload_id)) u
        (λ found h.
          address_home url target.upload_id (is_own_path U api url target.upload_id) found rooted
            refl h)
        e

  at_most_two : (phase : UploadPhase) (n : ℕ) → FetchBound phase n → n ≤ 2
  at_most_two first_upload n h = omega arith
  at_most_two (upload_refresh response) n h = omega arith
  at_most_two second_upload n h = h
  at_most_two (reading_problem response) n h = h
  at_most_two (sent_whole version) n h = h
  at_most_two (not_sent error) n h = h

  ended-IsSafe :
      (version : ℕ) (error : ApiError) (u : Upload U)
      → IsSafe version u
      → IsSafe version (with_upload_phase U (not_sent error) u)
  ended-IsSafe version error u h = record {
    at_home = h.at_home;
    same = h.same;
    confined = h.confined;
    bound = at_most_two u.phase (length u.fetches) h.bound;
    ends = tt;
  }

  -- The rest of the function, in the session in which it started.
  in_session-IsSafe :
      (version : ℕ) (g : Shared) (u rest : Upload U)
      → IsSafe version u
      → (g.session_version ≡ version → IsSafe version rest)
      → IsSafe version (in_same_session U g u rest)
  in_session-IsSafe version g u rest h next =
      if_ind (IsSafe version) (u.started_version == g.session_version) _ _
        (λ e. next (sym ((==_iff u.started_version g.session_version).0 e) ∙ h.same))
        (λ e. ended-IsSafe version other u h)

  concluded-IsSafe :
      (version : ℕ) (response : Response) (g : Shared) (u : Upload U)
      → IsSafe version u
      → IsSafe version (conclude_upload U response g u)
  concluded-IsSafe version response g u h = in_session-IsSafe version g u _ h (λ now.
      if_ind (λ phase. IsSafe version (with_upload_phase U phase u)) response.success
        (sent_whole g.session_version) (reading_problem response)
        (λ e. record {
          at_home = h.at_home;
          same = h.same;
          confined = h.confined;
          bound = at_most_two u.phase (length u.fetches) h.bound;
          ends = now;
        })
        (λ e. record {
          at_home = h.at_home;
          same = h.same;
          confined = h.confined;
          bound = at_most_two u.phase (length u.fetches) h.bound;
          ends = tt;
        }))

  first-IsSafe :
      (version : ℕ) (response : Response) (g : Shared) (u : Upload U)
      → IsSafe version u
      → length u.fetches ≤ 1
      → IsSafe version (on_first_upload U response g u).1
  first-IsSafe version response g u h once =
      if_ind (λ (r : Shared × Upload U). IsSafe version r.1)
        (not (u.started_version == g.session_version)) _ _ (λ e. ended-IsSafe version other u h)
        (λ e.
          if_ind (λ (r : Shared × Upload U). IsSafe version r.1) (wants_refresh U response g u) _ _
            (λ e. record {
              at_home = h.at_home;
              same = h.same;
              confined = h.confined;
              bound = once;
              ends = tt;
            })
            (λ e. concluded-IsSafe version response g u h))

  refreshed-IsSafe :
      (version : ℕ) (response : Response) (result : Result (Option WebSession)) (g : Shared)
      (u : Upload U)
      → IsSafe version u
      → length u.fetches ≤ 1
      → IsSafe version (on_upload_refreshed U response result g u)
  refreshed-IsSafe version response (threw error) g u h once = ended-IsSafe version error u h
  refreshed-IsSafe version response (returned none) g u h once =
      concluded-IsSafe version response g u h
  refreshed-IsSafe version response (returned (some session)) g u h once =
      in_session-IsSafe version g u _ h (λ now. record {
        at_home = h.at_home;
        same = h.same;
        confined = (fetch-IsConfined u.is_local u.upload_to g.session h.at_home, h.confined);
        bound = omega arith;
        ends = tt;
      })

  advance-IsSafe :
      (version : ℕ) (event : UploadEvent) (phase : UploadPhase) (g : Shared) (u : Upload U)
      → IsSafe version u
      → FetchBound phase (length u.fetches)
      → IsSafe version (advance_upload U event phase g u).1
  unfolding advance_upload
  advance-IsSafe version (upload_answered response) first_upload g u h once =
      first-IsSafe version response g u h once
  advance-IsSafe version (upload_answered response) second_upload g u h n =
      concluded-IsSafe version response g u h
  advance-IsSafe version (upload_rejected error) first_upload g u h n =
      ended-IsSafe version error u h
  advance-IsSafe version (upload_rejected error) second_upload g u h n =
      ended-IsSafe version error u h
  advance-IsSafe version (upload_refreshed result) (upload_refresh response) g u h once =
      refreshed-IsSafe version response result g u h once
  advance-IsSafe version (problem_read payload) (reading_problem response) g u h n =
      ended-IsSafe version (problem (web_problem_from response payload)) u h
  advance-IsSafe version event phase g u h n = h

  run-IsSafe :
      (version : ℕ) (events : List (Shared × UploadEvent)) (u : Upload U)
      → IsSafe version u
      → IsSafe version (run_upload U events u)
  unfolding run_upload
  run-IsSafe version [] u h = h
  run-IsSafe version ((g, event) ∷ events) u h =
      run-IsSafe version events (advance_upload U event u.phase g u).1
        (advance-IsSafe version event u.phase g u h h.bound)

  -- Where the API's URL has a path that starts with one slash, or none, an upload of a file that starts in
  -- a session, whatever is answered and whatever the other requests do to the shared state meanwhile:
  -- the token and the cookies go to the origin of the API alone, the file is sent at most twice, and an
  -- upload that ends well ends in the version of the session in which it started.
  pub run_upload-IsConfined :
      (base location : Text) (target : UploadTarget) (g : Shared) (u : Upload U)
      (events : List (Shared × UploadEvent))
      → U.new_url base location ≡ some api
      → is_base_path (U.pathname api) ≡ true
      → upload_file U base location target g ≡ some u
      → All IsConfined (run_upload U events u).fetches
        × (length (run_upload U events u).fetches ≤ 2)
        × EndsIn g.session_version (run_upload U events u).phase
  unfolding upload_file
  run_upload-IsConfined base location target g u events found rooted started =
      let safe = started-IsSafe g target (resolve_from U target.upload_url (some api)) u rooted (
        subst (λ o. start_with U g target o (resolve_from U target.upload_url o) ≡ some u) found
          started) in
      let h = run-IsSafe g.session_version events u safe in
      (
        h.confined,
        at_most_two (run_upload U events u).phase (length (run_upload U events u).fetches) h.bound,
        h.ends,
      )
