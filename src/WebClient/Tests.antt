-- ===== src/WebClient/Tests.antt =====
-- Two requests of one session are refused together; while they wait for the refresh the tab signs out
-- and another user signs in.
use coffix.Prelude.{◌≡◌, refl, true, false, none, some, List, [], ◌∷◌, codes, text_eq, All}
use coffix.Client.{Response, undefined, returned}
use coffix.WebClient.{
  send_again, on_first_answer, on_refreshed, on_body, advance, advance_at, begin_request, step, run,
  initial,
}
use coffix.WebClient.Tab.{
  publish, send, begin_refresh, session_changed, WebSession, Event, admin, technician, finished,
  stopped, answered, resumed, body_read, requested, continued, refresh_settled, login_settled,
}
use coffix.WebClient.Isolation.Requests.{KeepsIdentity}
use coffix.WebClient.Isolation.{run-KeepsIdentity}
use coffix.WebClient.Flight.Requests.{IsAwaited}
use coffix.WebClient.Flight.{run-IsAwaited}

abbrev dana : WebSession
dana = record { access_token = codes "a1"; user_id = codes "dana"; role = technician }

abbrev dana_renewed : WebSession
dana_renewed = record { access_token = codes "a2"; user_id = codes "dana"; role = technician }

abbrev noam : WebSession
noam = record { access_token = codes "b1"; user_id = codes "noam"; role = admin }

abbrev unauthorized : Response
unauthorized = record { status_code = 401; success = false; correlation = none; body_text = none }

abbrev granted : Response
granted = record { status_code = 200; success = true; correlation = none; body_text = none }

abbrev refused_together : List Event
refused_together =
    login_settled dana
    ∷ requested true
    ∷ requested true
    ∷ continued 0 (answered unauthorized)
    ∷ continued 1 (answered unauthorized)
    ∷ []

abbrev renewed_together : List Event
renewed_together =
    login_settled dana
    ∷ requested true
    ∷ requested true
    ∷ continued 0 (answered unauthorized)
    ∷ continued 1 (answered unauthorized)
    ∷ refresh_settled (returned dana_renewed)
    ∷ continued 0 resumed
    ∷ continued 0 (answered granted)
    ∷ continued 0 (body_read undefined)
    ∷ login_settled noam
    ∷ continued 1 resumed
    ∷ continued 1 (answered granted)
    ∷ continued 1 (body_read undefined)
    ∷ []

-- The first request is finished, the second one is refused to the other user.
finishes :
    (run renewed_together initial).processes
    ≡ record {
      authenticated = true;
      started = some dana;
      started_version = 1;
      phase = finished undefined (some dana_renewed);
    }
      ∷ record {
        authenticated = true;
        started = some dana;
        started_version = 1;
        phase = stopped session_changed;
      }
      ∷ []
unfolding run step begin_request begin_refresh publish send advance_at advance on_first_answer
    on_refreshed on_body send_again text_eq
finishes = refl

run-KeepsIdentity_example : All KeepsIdentity (run renewed_together initial).processes
run-KeepsIdentity_example = run-KeepsIdentity renewed_together

run-IsAwaited_example :
    All (IsAwaited (run refused_together initial).shared) (run refused_together initial).processes
run-IsAwaited_example = run-IsAwaited refused_together
