-- ===== src/WebClient/Flight/Requests.antt =====
-- What one request does to the refresh in its steps.
use coffix.Prelude.{
  ℕ, zero, suc, ◌+◌, ◌≡◌, refl, sym, ◌∙◌, subst, Bool, true, false, not, ◌&&◌, ◌||◌, Option, none,
  some, List, [], ◌∷◌, ◌==◌, if◌then◌else◌, arith, Bool-cases, inl, inr, All,
}
use coffix.Api.{ApiError}
use coffix.Client.{Response, Payload, Result, returned, threw}
use coffix.WebClient.{
  send_again, on_first_answer, on_refreshed, on_body, advance, add_before, replace_first,
  advance_at,
}
use coffix.WebClient.Tab.{
  publish, token_of, same_token, send, begin_refresh, is_same_session, WebSession, Shared, Phase,
  Process, ProcessEvent, first_answer, refresh_wait, refreshed, second_answer, reading, finished,
  stopped, answered, rejected, resumed, body_read,
}

-- What an event does to the refresh, unless the refresh settles: a flight goes on, and none is begun
-- while there is one or while signing out.
pub record Holds (g h : Shared) : Type 0 where
  pub flying : g.refresh_flight ≡ true → h.refresh_flight ≡ true
  pub calls : (g.signing_out || g.refresh_flight) ≡ true → h.refresh_calls ≡ g.refresh_calls

abbrev pub AwaitedBy : Bool → Phase → Type 0
AwaitedBy flight (refresh_wait response) = flight ≡ true
AwaitedBy flight _ = Unit

-- A request that waits for the refresh has one to wait for.
abbrev pub IsAwaited : Shared → Process → Type 0
IsAwaited g p = AwaitedBy g.refresh_flight p.phase

same-Holds : (g : Shared) → Holds g g
same-Holds g = record { flying = λ f. f; calls = λ b. refl }

pub publish-Holds :
    (session : Option WebSession) (error : Option ApiError) (g : Shared)
    → Holds g (publish session error g)
unfolding publish
publish-Holds session error g = record { flying = λ f. f; calls = λ b. refl }

pub begin_refresh-Holds : (g : Shared) → Holds g (begin_refresh g)
unfolding begin_refresh
begin_refresh-Holds g = elim (Bool-cases (g.signing_out || g.refresh_flight)) [
  | inl busy ↦
      subst
        (λ b. Holds g (
          if b then g else record g { refresh_flight = true; refresh_calls = g.refresh_calls + 1 }))
        (sym busy) (same-Holds g)
  | inr free ↦
      subst
        (λ b. Holds g (
          if b then g else record g { refresh_flight = true; refresh_calls = g.refresh_calls + 1 }))
        (sym free) (record { flying = λ f. refl; calls = λ b. absurd (false_ne (sym free ∙ b)) })
]
  where
    false_ne : false ≡ true → ⊥
    false_ne e = cc

pub begun : (g : Shared) → g.signing_out ≡ false → (begin_refresh g).refresh_flight ≡ true
unfolding begin_refresh
begun g open_door = elim (Bool-cases g.refresh_flight) [
  | inl flight ↦
      let busy : (g.signing_out || g.refresh_flight) ≡ true = ground arith in
      subst
        (λ b.
          (if b then g else record g {
            refresh_flight = true;
            refresh_calls = g.refresh_calls + 1;
          }).refresh_flight
          ≡ true)
        (sym busy) flight
  | inr idle ↦
      let free : (g.signing_out || g.refresh_flight) ≡ false = ground arith in
      subst
        (λ b.
          (if b then g else record g {
            refresh_flight = true;
            refresh_calls = g.refresh_calls + 1;
          }).refresh_flight
          ≡ true)
        (sym free) refl
]

abbrev Post : Shared → Shared × Process → Type 0
Post g (h, p) = Holds g h × IsAwaited h p

if-Post :
    (g : Shared) (b : Bool) (x y : Shared × Process)
    → (b ≡ true → Post g x)
    → (b ≡ false → Post g y)
    → Post g (if b then x else y)
if-Post g true x y good bad = good refl
if-Post g false x y good bad = bad refl

if-Holds :
    (g : Shared) (b : Bool) (x y : Shared) → Holds g x → Holds g y → Holds g (if b then x else y)
if-Holds g true x y good bad = good
if-Holds g false x y good bad = bad

send_again-Post :
    (session : Option WebSession) (response : Response) (g : Shared) (p : Process)
    → Post g (send_again session response g p)
unfolding send_again send
send_again-Post none response g p = (same-Holds g, tt)
send_again-Post (some s) response g p = (record { flying = λ f. f; calls = λ b. refl }, tt)

on_first_answer-Post :
    (response : Response) (g : Shared) (p : Process) → Post g (on_first_answer response g p)
unfolding on_first_answer
on_first_answer-Post response g p =
    if-Post g (not (is_same_session g p)) _ _ (λ _. (same-Holds g, tt))
      λ _.
        if-Post g ((response.status_code == 401) && p.authenticated && not g.signing_out) _ _
          (λ refused.
            if-Post g (same_token (token_of g.session) (token_of p.started)) _ _
              (λ _. (begin_refresh-Holds g, begun g (ground (arith, refused))))
              (λ _. send_again-Post g.session response g p))
          (λ _. (same-Holds g, tt))

on_refreshed-Post :
    (response : Response) (result : Result (Option WebSession)) (g : Shared) (p : Process)
    → Post g (on_refreshed response result g p)
unfolding on_refreshed
on_refreshed-Post response (threw e) g p = (same-Holds g, tt)
on_refreshed-Post response (returned session) g p = send_again-Post session response g p

on_body-Post :
    (response : Response) (payload : Payload) (g : Shared) (p : Process)
    → Post g (on_body response payload g p)
unfolding on_body
on_body-Post response payload g p =
    if-Post g (not (is_same_session g p)) _ _ (λ _. (same-Holds g, tt))
      λ same.
        if-Post g response.success _ _ (λ _. (same-Holds g, tt))
          (λ _. (
            if-Holds g (p.authenticated && (response.status_code == 401)) _ _
                (publish-Holds none none g) (same-Holds g),
            tt,
          ))

advance-Post :
    (event : ProcessEvent) (phase : Phase) (g : Shared) (p : Process)
    → IsAwaited g p
    → Post g (advance event phase g p)
unfolding advance
advance-Post (answered response) first_answer g p wait = on_first_answer-Post response g p
advance-Post (answered response) second_answer g p wait = (same-Holds g, tt)
advance-Post (answered response) (refresh_wait r) g p wait = (same-Holds g, wait)
advance-Post (answered response) (refreshed r result) g p wait = (same-Holds g, wait)
advance-Post (answered response) (reading r) g p wait = (same-Holds g, wait)
advance-Post (answered response) (finished payload ended) g p wait = (same-Holds g, wait)
advance-Post (answered response) (stopped e) g p wait = (same-Holds g, wait)
advance-Post (rejected x) first_answer g p wait = (same-Holds g, tt)
advance-Post (rejected x) second_answer g p wait = (same-Holds g, tt)
advance-Post (rejected x) (refresh_wait r) g p wait = (same-Holds g, wait)
advance-Post (rejected x) (refreshed r result) g p wait = (same-Holds g, wait)
advance-Post (rejected x) (reading r) g p wait = (same-Holds g, wait)
advance-Post (rejected x) (finished payload ended) g p wait = (same-Holds g, wait)
advance-Post (rejected x) (stopped e) g p wait = (same-Holds g, wait)
advance-Post resumed (refreshed response result) g p wait = on_refreshed-Post response result g p
advance-Post resumed first_answer g p wait = (same-Holds g, wait)
advance-Post resumed second_answer g p wait = (same-Holds g, wait)
advance-Post resumed (refresh_wait r) g p wait = (same-Holds g, wait)
advance-Post resumed (reading r) g p wait = (same-Holds g, wait)
advance-Post resumed (finished payload ended) g p wait = (same-Holds g, wait)
advance-Post resumed (stopped e) g p wait = (same-Holds g, wait)
advance-Post (body_read payload) (reading response) g p wait = on_body-Post response payload g p
advance-Post (body_read payload) first_answer g p wait = (same-Holds g, wait)
advance-Post (body_read payload) second_answer g p wait = (same-Holds g, wait)
advance-Post (body_read payload) (refresh_wait r) g p wait = (same-Holds g, wait)
advance-Post (body_read payload) (refreshed r result) g p wait = (same-Holds g, wait)
advance-Post (body_read payload) (finished result ended) g p wait = (same-Holds g, wait)
advance-Post (body_read payload) (stopped e) g p wait = (same-Holds g, wait)

AwaitedBy-later :
    (before later : Bool) (phase : Phase)
    → (before ≡ true → later ≡ true)
    → AwaitedBy before phase
    → AwaitedBy later phase
AwaitedBy-later before later first_answer keep wait = tt
AwaitedBy-later before later (refresh_wait r) keep wait = keep wait
AwaitedBy-later before later (refreshed r o) keep wait = tt
AwaitedBy-later before later second_answer keep wait = tt
AwaitedBy-later before later (reading r) keep wait = tt
AwaitedBy-later before later (finished payload ended) keep wait = tt
AwaitedBy-later before later (stopped e) keep wait = tt

pub All-later :
    (g h : Shared) (ps : List Process) → Holds g h → All (IsAwaited g) ps → All (IsAwaited h) ps
All-later g h [] holds waits = tt
All-later g h (p ∷ ps) holds waits = (
  AwaitedBy-later g.refresh_flight h.refresh_flight p.phase holds.flying waits.0,
  All-later g h ps holds waits.1,
)

unfoldable pub PostAll : Shared → Shared × List Process → Type 0
PostAll g (h, ps) = Holds g h × All (IsAwaited h) ps

replace-PostAll :
    (g : Shared) (ps : List Process) (r : Shared × Process)
    → All (IsAwaited g) ps
    → Post g r
    → PostAll g (replace_first ps r)
unfolding PostAll
replace-PostAll g ps (h, p) waits post = (post.0, (post.1, All-later g h ps post.0 waits))

add-PostAll :
    (g : Shared) (p : Process) (r : Shared × List Process)
    → IsAwaited g p
    → PostAll g r
    → PostAll g (add_before p r)
unfolding PostAll
add-PostAll g p (h, ps) wait post =
    (post.0, (AwaitedBy-later g.refresh_flight h.refresh_flight p.phase post.0.flying wait, post.1))

pub advance_at-PostAll :
    (n : ℕ) (event : ProcessEvent) (g : Shared) (ps : List Process)
    → All (IsAwaited g) ps
    → PostAll g (advance_at n event g ps)
unfolding advance_at PostAll
advance_at-PostAll n event g [] waits = (same-Holds g, tt)
advance_at-PostAll zero event g (p ∷ ps) waits =
    replace-PostAll g ps (advance event p.phase g p) waits.1
      (advance-Post event p.phase g p waits.0)
advance_at-PostAll (suc n) event g (p ∷ ps) waits =
    add-PostAll g p (advance_at n event g ps) waits.0 (advance_at-PostAll n event g ps waits.1)
