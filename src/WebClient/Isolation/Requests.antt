-- ===== src/WebClient/Isolation/Requests.antt =====
-- What one request does in its steps: it keeps to the user and role that it started with.
use coffix.Prelude.{
  ℕ, zero, suc, ◌+◌, ◌<◌, ◌≡◌, refl, ◌∙◌, ◌⊎◌, inl, inr, Bool, true, false, not, ◌&&◌, ◌||◌, Option,
  none, some, List, [], ◌∷◌, Text, text_eq_iff, ◌==◌, if◌then◌else◌, arith, Bool-cases, All,
}
use coffix.Api.{ApiError}
use coffix.Client.{Response, Payload, Result, returned, threw}
use coffix.WebClient.{
  send_again, on_first_answer, on_refreshed, on_body, advance, add_before, replace_first,
  advance_at,
}
use coffix.WebClient.Tab.{
  role_eq, same_identity, publish, token_of, same_token, send, begin_refresh, is_same_session, Role,
  WebSession, Shared, Phase, Process, ProcessEvent, admin, technician, other_role, first_answer,
  refresh_wait, refreshed, second_answer, reading, finished, stopped, answered, rejected, resumed,
  body_read,
}

-- The user and the role of a session.
abbrev pub identity : Option WebSession → Option (Text × Role)
identity none = none
identity (some s) = some (s.user_id, s.role)

role_eq-eq : (a b : Role) → role_eq a b ≡ true → a ≡ b
role_eq-eq admin admin h = refl
role_eq-eq technician technician h = refl
role_eq-eq other_role other_role h = refl
role_eq-eq admin technician h = cc
role_eq-eq admin other_role h = cc
role_eq-eq technician admin h = cc
role_eq-eq technician other_role h = cc
role_eq-eq other_role admin h = cc
role_eq-eq other_role technician h = cc

same_identity-eq : (a b : Option WebSession) → same_identity a b ≡ true → identity a ≡ identity b
same_identity-eq none none h = refl
same_identity-eq none (some t) h = cc
same_identity-eq (some s) none h = cc
same_identity-eq (some s) (some t) h =
    let user : s.user_id ≡ t.user_id = ground (arith, text_eq_iff s.user_id t.user_id) in
    let role : s.role ≡ t.role = role_eq-eq s.role t.role (ground (arith, h)) in rw (user, role)

-- A request is of an earlier version, or of the user and role of now.
abbrev Fits : Option WebSession → ℕ → Process → Type 0
Fits session version p =
    (p.started_version < version)
    ⊎ ((p.started_version ≡ version) × (identity p.started ≡ identity session))

abbrev pub EndedAs : Bool → Option WebSession → Phase → Type 0
EndedAs authenticated started (finished payload ended) =
    (authenticated ≡ false) ⊎ (identity started ≡ identity ended)
EndedAs authenticated started _ = Unit

-- An authenticated request that returned did so in a session of the user and role that it started in.
abbrev pub KeepsIdentity : Process → Type 0
KeepsIdentity p = EndedAs p.authenticated p.started p.phase

abbrev pub Good : Shared → Process → Type 0
Good g p = Fits g.session g.session_version p × KeepsIdentity p

-- What fits before fits after.
pub record Later (g h : Shared) : Type 0 where
  pub keep : (p : Process) → Fits g.session g.session_version p → Fits h.session h.session_version p

pub publish-Later :
    (session : Option WebSession) (error : Option ApiError) (g : Shared)
    → Later g (publish session error g)
unfolding publish
publish-Later session error g = record {
  keep = λ p fits. elim (Bool-cases (same_identity g.session session)) [
    | inl same ↦ unchanged p (same_identity-eq g.session session same) fits same
    | inr differs ↦ changed p fits differs
  ];
}
  where
    unchanged :
        (p : Process)
        → identity g.session ≡ identity session
        → Fits g.session g.session_version p
        → same_identity g.session session ≡ true
        → Fits session (g.session_version + (if same_identity g.session session then 0 else 1)) p
    unchanged p e (inl old) same = rw same (inl (omega arith))
    unchanged p e (inr (now, user)) same = rw same (inr (omega arith, user ∙ e))

    changed :
        (p : Process)
        → Fits g.session g.session_version p
        → same_identity g.session session ≡ false
        → Fits session (g.session_version + (if same_identity g.session session then 0 else 1)) p
    changed p (inl old) differs = rw differs (inl (omega arith))
    changed p (inr (now, user)) differs = rw differs (inl (omega arith))

abbrev Post : Shared → Shared × Process → Type 0
Post g (h, p) = Later g h × Good h p

if-Post :
    (g : Shared) (b : Bool) (x y : Shared × Process)
    → (b ≡ true → Post g x)
    → (b ≡ false → Post g y)
    → Post g (if b then x else y)
if-Post g true x y good bad = good refl
if-Post g false x y good bad = bad refl

same-Later : (g : Shared) → Later g g
same-Later g = record { keep = λ p fits. fits }

send_again-Post :
    (session : Option WebSession) (response : Response) (g : Shared) (p : Process)
    → Good g p
    → Post g (send_again session response g p)
unfolding send_again send
send_again-Post none response g p good = (same-Later g, (good.0, tt))
send_again-Post (some s) response g p good = (record { keep = λ q fits. fits }, (good.0, tt))

if-Later :
    (g : Shared) (b : Bool) (x y : Shared) → Later g x → Later g y → Later g (if b then x else y)
if-Later g true x y good bad = good
if-Later g false x y good bad = bad

pub begin_refresh-Later : (g : Shared) → Later g (begin_refresh g)
unfolding begin_refresh
begin_refresh-Later g =
    if-Later g (g.signing_out || g.refresh_flight) _ _ (same-Later g)
      (record { keep = λ p fits. fits })

on_first_answer-Post :
    (response : Response) (g : Shared) (p : Process)
    → Good g p
    → Post g (on_first_answer response g p)
unfolding on_first_answer
on_first_answer-Post response g p good =
    if-Post g (not (is_same_session g p)) _ _ (λ _. (same-Later g, (good.0, tt)))
      λ _.
        if-Post g ((response.status_code == 401) && p.authenticated && not g.signing_out) _ _
          (λ _.
            if-Post g (same_token (token_of g.session) (token_of p.started)) _ _
              (λ _. ((begin_refresh-Later g), ((begin_refresh-Later g).keep p good.0, tt)))
              (λ _. send_again-Post g.session response g p good))
          (λ _. (same-Later g, (good.0, tt)))

on_refreshed-Post :
    (response : Response) (result : Result (Option WebSession)) (g : Shared) (p : Process)
    → Good g p
    → Post g (on_refreshed response result g p)
unfolding on_refreshed
on_refreshed-Post response (threw e) g p good = (same-Later g, (good.0, tt))
on_refreshed-Post response (returned session) g p good = send_again-Post session response g p good

still :
    (g : Shared) (p : Process)
    → Good g p
    → is_same_session g p ≡ true
    → (p.authenticated ≡ false) ⊎ (identity p.started ≡ identity g.session)
still g p (inl old, kept) same = inl (ground arith)
still g p (inr now, kept) same = inr now.1

on_body-Post :
    (response : Response) (payload : Payload) (g : Shared) (p : Process)
    → Good g p
    → Post g (on_body response payload g p)
unfolding on_body
on_body-Post response payload g p good =
    if-Post g (not (is_same_session g p)) _ _ (λ _. (same-Later g, (good.0, tt)))
      λ same.
        if-Post g response.success _ _
          (λ _. (same-Later g, (good.0, still g p good (ground (arith, same)))))
          (λ _.
            let later =
              if-Later g (p.authenticated && (response.status_code == 401)) _ _
                (publish-Later none none g) (same-Later g) in
            (later, (later.keep p good.0, tt)))

advance-Post :
    (event : ProcessEvent) (phase : Phase) (g : Shared) (p : Process)
    → Good g p
    → Post g (advance event phase g p)
unfolding advance
advance-Post (answered response) first_answer g p good = on_first_answer-Post response g p good
advance-Post (answered response) second_answer g p good = (same-Later g, (good.0, tt))
advance-Post (answered response) (refresh_wait r) g p good = (same-Later g, good)
advance-Post (answered response) (refreshed r result) g p good = (same-Later g, good)
advance-Post (answered response) (reading r) g p good = (same-Later g, good)
advance-Post (answered response) (finished payload ended) g p good = (same-Later g, good)
advance-Post (answered response) (stopped e) g p good = (same-Later g, good)
advance-Post (rejected x) first_answer g p good = (same-Later g, (good.0, tt))
advance-Post (rejected x) second_answer g p good = (same-Later g, (good.0, tt))
advance-Post (rejected x) (refresh_wait r) g p good = (same-Later g, good)
advance-Post (rejected x) (refreshed r result) g p good = (same-Later g, good)
advance-Post (rejected x) (reading r) g p good = (same-Later g, good)
advance-Post (rejected x) (finished payload ended) g p good = (same-Later g, good)
advance-Post (rejected x) (stopped e) g p good = (same-Later g, good)
advance-Post resumed (refreshed response result) g p good =
    on_refreshed-Post response result g p good
advance-Post resumed first_answer g p good = (same-Later g, good)
advance-Post resumed second_answer g p good = (same-Later g, good)
advance-Post resumed (refresh_wait r) g p good = (same-Later g, good)
advance-Post resumed (reading r) g p good = (same-Later g, good)
advance-Post resumed (finished payload ended) g p good = (same-Later g, good)
advance-Post resumed (stopped e) g p good = (same-Later g, good)
advance-Post (body_read payload) (reading response) g p good =
    on_body-Post response payload g p good
advance-Post (body_read payload) first_answer g p good = (same-Later g, good)
advance-Post (body_read payload) second_answer g p good = (same-Later g, good)
advance-Post (body_read payload) (refresh_wait r) g p good = (same-Later g, good)
advance-Post (body_read payload) (refreshed r result) g p good = (same-Later g, good)
advance-Post (body_read payload) (finished result ended) g p good = (same-Later g, good)
advance-Post (body_read payload) (stopped e) g p good = (same-Later g, good)

pub All-Later : (g h : Shared) (ps : List Process) → Later g h → All (Good g) ps → All (Good h) ps
All-Later g h [] later good = tt
All-Later g h (p ∷ ps) later good =
    ((later.keep p good.0.0, good.0.1), All-Later g h ps later good.1)

unfoldable pub PostAll : Shared → Shared × List Process → Type 0
PostAll g (h, ps) = Later g h × All (Good h) ps

replace-PostAll :
    (g : Shared) (ps : List Process) (r : Shared × Process)
    → All (Good g) ps
    → Post g r
    → PostAll g (replace_first ps r)
unfolding PostAll
replace-PostAll g ps (h, p) good post = (post.0, (post.1, All-Later g h ps post.0 good))

add-PostAll :
    (g : Shared) (p : Process) (r : Shared × List Process)
    → Good g p
    → PostAll g r
    → PostAll g (add_before p r)
unfolding PostAll
add-PostAll g p (h, ps) good post = (post.0, ((post.0.keep p good.0, good.1), post.1))

pub advance_at-PostAll :
    (n : ℕ) (event : ProcessEvent) (g : Shared) (ps : List Process)
    → All (Good g) ps
    → PostAll g (advance_at n event g ps)
unfolding advance_at PostAll
advance_at-PostAll n event g [] good = (same-Later g, tt)
advance_at-PostAll zero event g (p ∷ ps) good =
    replace-PostAll g ps (advance event p.phase g p) good.1 (advance-Post event p.phase g p good.0)
advance_at-PostAll (suc n) event g (p ∷ ps) good =
    add-PostAll g p (advance_at n event g ps) good.0 (advance_at-PostAll n event g ps good.1)
