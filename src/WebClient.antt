-- ===== src/WebClient.antt =====
-- admin/src/api/client.ts, `createWebClient`: the session that all requests of a browser tab share, its
-- version, the refresh that they wait for together, and the requests in flight. Every `await` ends a
-- step, so an event is one answer of the server or one call of the interface, in any order. A refresh
-- that settles, with its `then`, `catch` and `finally`, is one event. Sessions are told apart by user
-- and role; the path, the headers and the body of a request are not modelled. `uploadFile` is in
-- Upload.
pub mod Tab
pub mod Upload
pub mod Isolation
pub mod Flight
mod Tests
use coffix.Prelude.{
  ℕ, zero, suc, ◌+◌, Bool, true, false, not, ◌&&◌, ◌||◌, Option, none, some, List, [], ◌∷◌, ◌++◌,
  map, Text, text_eq, is_empty, or_else, ◌==◌, ltb, if◌then◌else◌,
}
use coffix.Api.{ApiProblem, ApiError, problem, other}
use coffix.Client.{Response, Payload, Result, returned, threw, string_of, field}
use coffix.WebClient.Tab.{
  Role, role_eq, WebSession, Shared, Phase, Process, WebClient, ProcessEvent, Event, same_identity,
  publish, token_of, same_token, sent_token, send, begin_refresh, is_staff, staff_required,
  session_changed, is_expired, refuse, settle_refresh, with_phase, is_same_session,
  web_problem_from, admin, technician, other_role, first_answer, refresh_wait, refreshed,
  second_answer, reading, finished, stopped, answered, rejected, resumed, body_read, requested,
  continued, restored, refresh_settled, login_settled, logout_began, logout_settled,
}

-- `if (session) response = await send()`
unfoldable pub send_again : Option WebSession → Response → Shared → Process → Shared × Process
send_again none response g p = (g, with_phase (reading response) p)
send_again (some s) response g p = (send p.authenticated g, with_phase second_answer p)

unfoldable pub on_first_answer : Response → Shared → Process → Shared × Process
unfolding send_again begin_refresh
on_first_answer response g p =
    if not (is_same_session g p)
    then (g, with_phase (stopped session_changed) p)
    else if (response.status_code == 401) && p.authenticated && not g.signing_out
    then (if same_token (token_of g.session) (token_of p.started)
        then (begin_refresh g, with_phase (refresh_wait response) p)
        else send_again g.session response g p)
    else (g, with_phase (reading response) p)

unfoldable pub on_refreshed :
    Response → Result (Option WebSession) → Shared → Process → Shared × Process
unfolding send_again
on_refreshed response (threw e) g p = (g, with_phase (stopped e) p)
on_refreshed response (returned session) g p = send_again session response g p

unfoldable pub on_body : Response → Payload → Shared → Process → Shared × Process
unfolding publish
on_body response payload g p =
    if not (is_same_session g p)
    then (g, with_phase (stopped session_changed) p)
    else if response.success
    then (g, with_phase (finished payload g.session) p)
    else (
      if p.authenticated && (response.status_code == 401) then publish none none g else g,
      with_phase (stopped (problem (web_problem_from response payload))) p,
    )

-- An event that does not fit the phase changes nothing.
unfoldable pub advance : ProcessEvent → Phase → Shared → Process → Shared × Process
unfolding on_first_answer on_refreshed on_body
advance (answered response) first_answer g p = on_first_answer response g p
advance (rejected e) first_answer g p = (g, with_phase (stopped e) p)
advance resumed (refreshed response result) g p = on_refreshed response result g p
advance (answered response) second_answer g p = (g, with_phase (reading response) p)
advance (rejected e) second_answer g p = (g, with_phase (stopped e) p)
advance (body_read payload) (reading response) g p = on_body response payload g p
advance _ _ g p = (g, p)

abbrev pub add_before : Process → Shared × List Process → Shared × List Process
add_before p (g, ps) = (g, p ∷ ps)

abbrev pub replace_first : List Process → Shared × Process → Shared × List Process
replace_first ps (g, p) = (g, p ∷ ps)

-- The request at a position of the list goes on.
unfoldable pub advance_at : ℕ → ProcessEvent → Shared → List Process → Shared × List Process
unfolding advance
advance_at n event g [] = (g, [])
advance_at zero event g (p ∷ ps) = replace_first ps (advance event p.phase g p)
advance_at (suc n) event g (p ∷ ps) = add_before p (advance_at n event g ps)

-- The requests that wait for the refresh go on with its result.
abbrev pub deliver_to : Result (Option WebSession) → Phase → Phase
deliver_to result (refresh_wait response) = refreshed response result
deliver_to result phase = phase

abbrev pub deliver : Result (Option WebSession) → Process → Process
deliver result p = with_phase (deliver_to result p.phase) p

abbrev pub client_of : Shared × List Process → WebClient
client_of (g, ps) = record { shared = g; processes = ps }

abbrev pub land : List Process → Shared × Result (Option WebSession) → WebClient
land ps (g, result) = record {
  shared = record g { refresh_flight = false };
  processes = map (deliver result) ps;
}

unfoldable pub begin_request : Bool → WebClient → WebClient
unfolding send
begin_request authenticated c =
    let g = c.shared in
    record {
      shared = send authenticated g;
      processes =
          c.processes
          ++ record {
            authenticated = authenticated;
            started = g.session;
            started_version = g.session_version;
            phase = first_answer;
          }
            ∷ [];
    }

abbrev pub end_logout : Bool → Shared → Shared
end_logout false g = record g { signing_out = false }
end_logout true g = record (publish none none (record g { cache_clears = g.cache_clears + 1 })) {
  signing_out = false;
}

unfoldable pub step : Event → WebClient → WebClient
unfolding begin_request advance_at begin_refresh publish
step (requested authenticated) c = begin_request authenticated c
step (continued n event) c = client_of (advance_at n event c.shared c.processes)
step restored c = if c.shared.ready then c else record c { shared = begin_refresh c.shared }
step (refresh_settled outcome) c =
    if c.shared.refresh_flight then land c.processes (settle_refresh outcome c.shared) else c
step (login_settled s) c =
    if is_staff s then record c { shared = publish (some s) none c.shared } else c
step logout_began c = record c { shared = record c.shared { signing_out = true } }
step (logout_settled done) c = record c { shared = end_logout done c.shared }

unfoldable pub run : List Event → WebClient → WebClient
unfolding step
run [] c = c
run (event ∷ events) c = run events (step event c)

abbrev pub initial : WebClient
initial = record {
  shared = record {
    session = none;
    ready = false;
    error = none;
    refresh_flight = false;
    signing_out = false;
    session_version = 0;
    sent = [];
    refresh_calls = 0;
    cache_clears = 0;
  };
  processes = [];
}
