-- ===== src/WebClient/Flight.antt =====
-- One refresh at a time, which no request waits for in vain.
pub mod Requests
use coffix.Prelude.{
  ℕ, zero, suc, ◌+◌, ◌≡◌, refl, sym, ◌∙◌, subst, Bool, true, false, not, ◌&&◌, ◌||◌, Option, none,
  some, List, [], ◌∷◌, map, ◌==◌, if◌then◌else◌, arith, Bool-cases, inl, inr, All, All-append,
}
use coffix.Api.{ApiError}
use coffix.Client.{Response, Payload, Result, returned, threw}
use coffix.WebClient.{
  send_again, on_first_answer, on_refreshed, on_body, advance, add_before, replace_first,
  advance_at, deliver_to, deliver, client_of, land, begin_request, end_logout, step, run, initial,
}
use coffix.WebClient.Tab.{
  publish, token_of, same_token, send, begin_refresh, is_staff, staff_required, is_expired, refuse,
  settle_refresh, is_same_session, WebSession, Shared, Phase, Process, WebClient, ProcessEvent,
  Event, first_answer, refresh_wait, refreshed, second_answer, reading, finished, stopped, answered,
  rejected, resumed, body_read, requested, continued, restored, refresh_settled, login_settled,
  logout_began, logout_settled,
}
use coffix.WebClient.Flight.Requests.{
  Holds, AwaitedBy, IsAwaited, publish-Holds, begin_refresh-Holds, begun, All-later, PostAll,
  advance_at-PostAll,
}

abbrev Waits : WebClient → Type 0
Waits c = All (IsAwaited c.shared) c.processes

client-Waits :
    (g : Shared) (r : Shared × List Process)
    → PostAll g r
    → Holds g (client_of r).shared × Waits (client_of r)
unfolding PostAll
client-Waits g (h, ps) post = post

deliver_to-AwaitedBy :
    (flight : Bool) (result : Result (Option WebSession)) (phase : Phase)
    → AwaitedBy flight (deliver_to result phase)
deliver_to-AwaitedBy flight result first_answer = tt
deliver_to-AwaitedBy flight result (refresh_wait r) = tt
deliver_to-AwaitedBy flight result (refreshed r o) = tt
deliver_to-AwaitedBy flight result second_answer = tt
deliver_to-AwaitedBy flight result (reading r) = tt
deliver_to-AwaitedBy flight result (finished payload ended) = tt
deliver_to-AwaitedBy flight result (stopped e) = tt

-- After the refresh settled nobody waits.
deliver-IsAwaited :
    (g : Shared) (result : Result (Option WebSession)) (ps : List Process)
    → All (IsAwaited g) (map (deliver result) ps)
deliver-IsAwaited g result [] = tt
deliver-IsAwaited g result (p ∷ ps) =
    (deliver_to-AwaitedBy g.refresh_flight result p.phase, deliver-IsAwaited g result ps)

refuse-calls : (e : ApiError) (g : Shared) → (refuse e g).0.refresh_calls ≡ g.refresh_calls
unfolding publish
refuse-calls e g = elim (Bool-cases (is_expired e)) [
  | inl expired ↦ rw expired
  | inr failed ↦ rw failed
]

settle_refresh-calls :
    (outcome : Result WebSession) (g : Shared)
    → (settle_refresh outcome g).0.refresh_calls ≡ g.refresh_calls
unfolding publish
settle_refresh-calls (threw e) g = refuse-calls e g
settle_refresh-calls (returned s) g = elim (Bool-cases (is_staff s)) [
  | inl staff ↦ rw staff
  | inr visitor ↦ rw visitor (refuse-calls staff_required g)
]

land-Post :
    (g : Shared) (ps : List Process) (r : Shared × Result (Option WebSession))
    → r.0.refresh_calls ≡ g.refresh_calls
    → ((land ps r).shared.refresh_calls ≡ g.refresh_calls) × Waits (land ps r)
land-Post g ps (h, result) same =
    (same, deliver-IsAwaited (record h { refresh_flight = false }) result ps)

-- One step: who waits is awaited, and no refresh is begun where one is in flight or while signing out.
abbrev Stepped : WebClient → WebClient → Type 0
Stepped c d =
    ((c.shared.signing_out || c.shared.refresh_flight) ≡ true
      → d.shared.refresh_calls ≡ c.shared.refresh_calls)
    × Waits d

held-Stepped :
    (c : WebClient) (h : Shared) → Waits c → Holds c.shared h → Stepped c (record c { shared = h })
held-Stepped c h waits holds = (holds.calls, All-later c.shared h c.processes holds waits)

if-Stepped :
    (c : WebClient) (b : Bool) (x y : WebClient)
    → Stepped c x
    → Stepped c y
    → Stepped c (if b then x else y)
if-Stepped c true x y good bad = good
if-Stepped c false x y good bad = bad

end_logout-Holds : (g : Shared) → Holds g (end_logout true g)
unfolding publish
end_logout-Holds g = record { flying = λ f. f; calls = λ b. refl }

step-Stepped : (event : Event) (c : WebClient) → Waits c → Stepped c (step event c)
unfolding step begin_request send
step-Stepped (requested authenticated) c waits =
    (λ b. refl, All-append (IsAwaited c.shared) c.processes _ waits (tt, tt))
step-Stepped (continued n event) c waits =
    let post =
      client-Waits c.shared (advance_at n event c.shared c.processes)
        (advance_at-PostAll n event c.shared c.processes waits) in
    (post.0.calls, post.1)
step-Stepped restored c waits =
    if-Stepped c c.shared.ready c _ (λ b. refl, waits)
      (held-Stepped c (begin_refresh c.shared) waits (begin_refresh-Holds c.shared))
step-Stepped (refresh_settled outcome) c waits =
    let post =
      land-Post c.shared c.processes (settle_refresh outcome c.shared)
        (settle_refresh-calls outcome c.shared) in
    if-Stepped c c.shared.refresh_flight _ c (λ b. post.0, post.1) (λ b. refl, waits)
step-Stepped (login_settled s) c waits =
    if-Stepped c (is_staff s) _ c
      (held-Stepped c (publish (some s) none c.shared) waits (publish-Holds (some s) none c.shared))
      (λ b. refl, waits)
step-Stepped logout_began c waits = (λ b. refl, waits)
step-Stepped (logout_settled false) c waits = (λ b. refl, waits)
step-Stepped (logout_settled true) c waits =
    held-Stepped c (end_logout true c.shared) waits (end_logout-Holds c.shared)

run-Waits : (events : List Event) (c : WebClient) → Waits c → Waits (run events c)
unfolding run
run-Waits [] c waits = waits
run-Waits (event ∷ events) c waits = run-Waits events (step event c) (step-Stepped event c waits).1

-- In every order of events from the start on, a request that waits for the refresh waits for one that
-- is in flight: when it settles nobody is left behind.
pub run-IsAwaited :
    (events : List Event)
    → All (IsAwaited (run events initial).shared) (run events initial).processes
run-IsAwaited events = run-Waits events initial tt

-- In every state that events lead to, an event begins no refresh while one is in flight or while
-- signing out.
pub run-refresh_calls :
    (events : List Event) (event : Event)
    → ((run events initial).shared.signing_out || (run events initial).shared.refresh_flight) ≡ true
    → (step event (run events initial)).shared.refresh_calls
      ≡ (run events initial).shared.refresh_calls
run-refresh_calls events event busy =
    (step-Stepped event (run events initial) (run-Waits events initial tt)).0 busy
