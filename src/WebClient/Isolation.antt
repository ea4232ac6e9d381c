-- ===== src/WebClient/Isolation.antt =====
-- A payload never reaches a session of another user or role than the one that asked for it.
pub mod Requests
use coffix.Prelude.{
  ℕ, zero, suc, ◌+◌, ◌<◌, ◌≡◌, refl, ◌∙◌, ◌⊎◌, inl, inr, Bool, true, false, not, ◌&&◌, ◌||◌, Option,
  none, some, List, [], ◌∷◌, map, Text, text_eq_iff, ◌==◌, if◌then◌else◌, arith, Bool-cases, All,
  All-append,
}
use coffix.Api.{ApiError}
use coffix.Client.{Response, Payload, Result, returned, threw}
use coffix.WebClient.{
  send_again, on_first_answer, on_refreshed, on_body, advance, add_before, replace_first,
  advance_at, deliver_to, deliver, client_of, land, begin_request, end_logout, step, run, initial,
}
use coffix.WebClient.Tab.{
  role_eq, same_identity, publish, token_of, same_token, send, begin_refresh, is_staff,
  staff_required, is_expired, refuse, settle_refresh, is_same_session, Role, WebSession, Shared,
  Phase, Process, WebClient, ProcessEvent, Event, admin, technician, other_role, first_answer,
  refresh_wait, refreshed, second_answer, reading, finished, stopped, answered, rejected, resumed,
  body_read, requested, continued, restored, refresh_settled, login_settled, logout_began,
  logout_settled,
}
use coffix.WebClient.Isolation.Requests.{
  EndedAs, KeepsIdentity, Good, Later, publish-Later, begin_refresh-Later, All-Later, PostAll,
  advance_at-PostAll,
}

abbrev GoodClient : WebClient → Type 0
GoodClient c = All (Good c.shared) c.processes

client-Good : (g : Shared) (r : Shared × List Process) → PostAll g r → GoodClient (client_of r)
unfolding PostAll
client-Good g (h, ps) post = post.1

deliver_to-EndedAs :
    (authenticated : Bool) (started : Option WebSession) (result : Result (Option WebSession))
    (phase : Phase)
    → EndedAs authenticated started phase
    → EndedAs authenticated started (deliver_to result phase)
deliver_to-EndedAs authenticated started result first_answer kept = tt
deliver_to-EndedAs authenticated started result (refresh_wait r) kept = tt
deliver_to-EndedAs authenticated started result (refreshed r o) kept = tt
deliver_to-EndedAs authenticated started result second_answer kept = tt
deliver_to-EndedAs authenticated started result (reading r) kept = tt
deliver_to-EndedAs authenticated started result (finished payload ended) kept = kept
deliver_to-EndedAs authenticated started result (stopped e) kept = tt

deliver-Good :
    (g : Shared) (result : Result (Option WebSession)) (ps : List Process)
    → All (Good g) ps
    → All (Good g) (map (deliver result) ps)
deliver-Good g result [] good = tt
deliver-Good g result (p ∷ ps) good = (
  (good.0.0, deliver_to-EndedAs p.authenticated p.started result p.phase good.0.1),
  deliver-Good g result ps good.1,
)

landed :
    (g : Shared) (ps : List Process) (r : Shared × Result (Option WebSession))
    → Later g r.0
    → All (Good g) ps
    → GoodClient (land ps r)
landed g ps (h, result) later good = deliver-Good h result ps (All-Later g h ps later good)

refuse-Later : (e : ApiError) (g : Shared) → Later g (refuse e g).0
refuse-Later e g = elim (Bool-cases (is_expired e)) [
  | inl expired ↦ rw expired (publish-Later none none g)
  | inr failed ↦ rw failed (publish-Later none (some e) g)
]

settle_refresh-Later :
    (outcome : Result WebSession) (g : Shared) → Later g (settle_refresh outcome g).0
settle_refresh-Later (threw e) g = refuse-Later e g
settle_refresh-Later (returned s) g = elim (Bool-cases (is_staff s)) [
  | inl staff ↦ rw staff (publish-Later (some s) none g)
  | inr visitor ↦ rw visitor (refuse-Later staff_required g)
]

end_logout-Later : (done : Bool) (g : Shared) → Later g (end_logout done g)
end_logout-Later false g = record { keep = λ p fits. fits }
end_logout-Later true g = record {
  keep = λ p fits.
      (publish-Later none none (record g { cache_clears = g.cache_clears + 1 })).keep p fits;
}

if-GoodClient :
    (b : Bool) (x y : WebClient) → GoodClient x → GoodClient y → GoodClient (if b then x else y)
if-GoodClient true x y good bad = good
if-GoodClient false x y good bad = bad

step-GoodClient : (event : Event) (c : WebClient) → GoodClient c → GoodClient (step event c)
unfolding step begin_request send
step-GoodClient (requested authenticated) c good =
    All-append (Good c.shared) c.processes _ good ((inr (refl, refl), tt), tt)
step-GoodClient (continued n event) c good =
    client-Good c.shared (advance_at n event c.shared c.processes)
      (advance_at-PostAll n event c.shared c.processes good)
step-GoodClient restored c good =
    if-GoodClient c.shared.ready c _ good
      (All-Later c.shared (begin_refresh c.shared) c.processes (begin_refresh-Later c.shared) good)
step-GoodClient (refresh_settled outcome) c good =
    if-GoodClient c.shared.refresh_flight _ c
      (landed c.shared c.processes (settle_refresh outcome c.shared)
        (settle_refresh-Later outcome c.shared) good)
      good
step-GoodClient (login_settled s) c good =
    if-GoodClient (is_staff s) _ c
      (All-Later c.shared (publish (some s) none c.shared) c.processes
        (publish-Later (some s) none c.shared) good)
      good
step-GoodClient logout_began c good = good
step-GoodClient (logout_settled done) c good =
    All-Later c.shared (end_logout done c.shared) c.processes (end_logout-Later done c.shared) good

run-GoodClient : (events : List Event) (c : WebClient) → GoodClient c → GoodClient (run events c)
unfolding run
run-GoodClient [] c good = good
run-GoodClient (event ∷ events) c good =
    run-GoodClient events (step event c) (step-GoodClient event c good)

All-KeepsIdentity : (g : Shared) (ps : List Process) → All (Good g) ps → All KeepsIdentity ps
All-KeepsIdentity g [] good = tt
All-KeepsIdentity g (p ∷ ps) good = (good.0.1, All-KeepsIdentity g ps good.1)

-- In every order of requests, answers, refreshes, logins and logouts, from the start on: each
-- authenticated request that returned a payload returned it in a session of the user and role in whose
-- session it had started.
pub run-KeepsIdentity : (events : List Event) → All KeepsIdentity (run events initial).processes
run-KeepsIdentity events =
    All-KeepsIdentity (run events initial).shared (run events initial).processes
      (run-GoodClient events initial tt)
