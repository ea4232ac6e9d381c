-- ===== src/WebClient/Tab.antt =====
-- admin/src/api/client.ts: the session that all requests of a browser tab share, with `publish` and
-- `refresh`, and what a request is.
use coffix.Prelude.{
  ℕ, ◌+◌, Bool, true, false, not, ◌&&◌, ◌||◌, Option, none, some, List, ◌∷◌, Text, text_eq,
  is_empty, or_else, ◌==◌, if◌then◌else◌,
}
use coffix.Api.{ApiProblem, ApiError, problem, other}
use coffix.Client.{Response, Payload, Result, returned, threw, string_of, field}

pub data Role : Type 0 where
  admin : Role
  technician : Role
  other_role : Role

abbrev pub role_eq : Role → Role → Bool
role_eq admin admin = true
role_eq technician technician = true
role_eq other_role other_role = true
role_eq _ _ = false

pub record WebSession : Type 0 where
  pub access_token : Text
  pub user_id : Text
  pub role : Role

-- What `getSnapshot` returns, the counters of the closure, and what was done to the outside: the tokens
-- of the requests that were sent (the last one first), the refresh calls and the clears of the cache.
pub record Shared : Type 0 where
  pub session : Option WebSession
  pub ready : Bool
  pub error : Option ApiError
  pub refresh_flight : Bool
  pub signing_out : Bool
  pub session_version : ℕ
  pub sent : List (Option Text)
  pub refresh_calls : ℕ
  pub cache_clears : ℕ

-- Where a request waits: for `fetch`, for the refresh, to go on after it, for the second `fetch`, for
-- the body; `finished` also has the session of that moment.
pub data Phase : Type 0 where
  first_answer : Phase
  refresh_wait : Response → Phase
  refreshed : Response → Result (Option WebSession) → Phase
  second_answer : Phase
  reading : Response → Phase
  finished : Payload → Option WebSession → Phase
  stopped : ApiError → Phase

-- A request with the session and the version that it started from.
pub record Process : Type 0 where
  pub authenticated : Bool
  pub started : Option WebSession
  pub started_version : ℕ
  pub phase : Phase

pub record WebClient : Type 0 where
  pub shared : Shared
  pub processes : List Process

pub data ProcessEvent : Type 0 where
  answered : Response → ProcessEvent
  rejected : ApiError → ProcessEvent
  resumed : ProcessEvent
  body_read : Payload → ProcessEvent

pub data Event : Type 0 where
  requested : Bool → Event
  continued : ℕ → ProcessEvent → Event
  restored : Event
  refresh_settled : Result WebSession → Event
  login_settled : WebSession → Event
  logout_began : Event
  logout_settled : Bool → Event

-- The user and the role, by which `publish` tells sessions apart.
abbrev pub same_identity : Option WebSession → Option WebSession → Bool
same_identity none none = true
same_identity (some s) (some t) = text_eq s.user_id t.user_id && role_eq s.role t.role
same_identity _ _ = false

unfoldable pub publish : Option WebSession → Option ApiError → Shared → Shared
publish session error g =
    let changed = if same_identity g.session session then 0 else 1 in
    record {
      session = session;
      ready = true;
      error = error;
      refresh_flight = g.refresh_flight;
      signing_out = g.signing_out;
      session_version = g.session_version + changed;
      sent = g.sent;
      refresh_calls = g.refresh_calls;
      cache_clears = g.cache_clears + changed;
    }

abbrev pub token_of : Option WebSession → Option Text
token_of none = none
token_of (some s) = some s.access_token

abbrev pub same_token : Option Text → Option Text → Bool
same_token none none = true
same_token (some s) (some t) = text_eq s t
same_token _ _ = false

-- `token ? ... : {}`
abbrev pub sent_token : Bool → Option WebSession → Option Text
sent_token false session = none
sent_token true none = none
sent_token true (some s) = if is_empty s.access_token then none else some s.access_token

unfoldable pub send : Bool → Shared → Shared
send authenticated g = record g { sent = sent_token authenticated g.session ∷ g.sent }

-- `refresh`: the requests share one flight, and none starts while signing out.
unfoldable pub begin_refresh : Shared → Shared
begin_refresh g =
    if g.signing_out || g.refresh_flight
    then g
    else record g { refresh_flight = true; refresh_calls = g.refresh_calls + 1 }

abbrev pub is_staff : WebSession → Bool
is_staff s =
    not (is_empty s.access_token) && not (is_empty s.user_id) && not (role_eq s.role other_role)

abbrev pub staff_required : ApiError
staff_required = problem (record {
  type_uri = "about:blank";
  title = "Staff access required";
  status = 403;
  code = "staff_required";
  detail = none;
  correlation_id = "unknown";
  errors = none;
})

abbrev pub session_changed : ApiError
session_changed = problem (record {
  type_uri = "about:blank";
  title = "Session changed. Please try again.";
  status = 409;
  code = "session_changed";
  detail = none;
  correlation_id = "unknown";
  errors = none;
})

abbrev pub is_expired : ApiError → Bool
is_expired (problem p) = p.status == 401
is_expired other = false

-- `auth.refresh().then(accept).catch(...)`: what is published, and how the flight settles.
abbrev pub refuse : ApiError → Shared → Shared × Result (Option WebSession)
refuse e g =
    if is_expired e
    then (publish none none g, returned none)
    else (publish none (some e) g, threw e)

abbrev pub settle_refresh : Result WebSession → Shared → Shared × Result (Option WebSession)
settle_refresh (returned s) g =
    if is_staff s then (publish (some s) none g, returned (some s)) else refuse staff_required g
settle_refresh (threw e) g = refuse e g

abbrev pub with_phase : Phase → Process → Process
with_phase phase p = record p { phase = phase }

-- `requireSameSession`
abbrev pub is_same_session : Shared → Process → Bool
is_same_session g p = not p.authenticated || (p.started_version == g.session_version)

abbrev pub web_problem_from : Response → Payload → ApiProblem
web_problem_from response payload = record {
  type_uri = or_else (string_of (field payload "type")) "about:blank";
  title = or_else (string_of (field payload "title")) "Request failed";
  status = response.status_code;
  code = or_else (string_of (field payload "code")) "unexpected_error";
  detail = string_of (field payload "detail");
  correlation_id =
      or_else (string_of (field payload "correlationId")) (or_else response.correlation "unknown");
  errors = none;
}
