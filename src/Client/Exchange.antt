-- ===== src/Client/Exchange.antt =====
-- The calls that one request makes, in order, for every platform.
use coffix.Prelude.{
  ◌≡◌, refl, sym, Bool, true, false, ◌&&◌, Option, none, some, List, [], ◌∷◌, ◌++◌, Text, ◌==◌,
  if◌then◌else◌, arith, Bool-cases, inl, inr, append-nil,
}
use mathlib.Core.Path.{subst}
use coffix.Api.{ApiError, problem}
use coffix.Client.{
  AuthTokens, RequestOptions, Response, Payload, Result, returned, threw, Platform, Call, Run,
  fetching, refreshing, getting_token, setting_tokens, clearing_tokens, Async, return, throw,
  calling, proceed, settle, unless_thrown, ◌>>◌, is_authenticated, read_body, request_of,
  fetch_with, attempt, conclude, renewed, answer, refresh_with, send_once, send, request,
  problem_from,
}

-- `P` holds of the calls and of the result, whatever the world is.
pub record Traces {World A : Type 0} (m : Async World A) (P : List Call → Result A → Type 0)
    : Type 0 where
  pub at : (w : World) → P (m w).0 (m w).1.0

module _ {World : Type 0} where
  calling-Traces :
      {A : Type 0} (call : Call) (f : World → Result A × World)
      → Traces (calling call f) (λ calls r. calls ≡ call ∷ [])
  calling-Traces call f = record { at = λ w. refl }

  proceed-at :
      {A B : Type 0} (P : List Call → Result A → Type 0) (R : List Call → Result B → Type 0)
      (f : Result A → Async World B) (s : Run World A)
      → ((calls : List Call) (r : Result A) → P calls r → Traces (f r) (λ more. R (calls ++ more)))
      → P s.0 s.1.0
      → R (proceed f s).0 (proceed f s).1.0
  proceed-at P R f (calls, (r, w)) later p = (later calls r p).at w

  -- What follows `m` starts from what holds of it.
  pub settle-Traces :
      {A B : Type 0} {P : List Call → Result A → Type 0} {R : List Call → Result B → Type 0}
      {m : Async World A} {f : Result A → Async World B}
      → Traces m P
      → ((calls : List Call) (r : Result A) → P calls r → Traces (f r) (λ more. R (calls ++ more)))
      → Traces (settle m f) R
  settle-Traces {P} {R} {m} {f} first later = record {
    at = λ w. proceed-at P R f (m w) later (first.at w);
  }

  pub weaken :
      {A : Type 0} {P R : List Call → Result A → Type 0} {m : Async World A}
      → Traces m P
      → ((calls : List Call) (r : Result A) → P calls r → R calls r)
      → Traces m R
  weaken {m} runs more = record { at = λ w. more (m w).0 (m w).1.0 (runs.at w) }

  throw-Traces :
      {A : Type 0} (e : ApiError) → Traces (throw {World = World} {A = A} e) (λ calls r. calls ≡ [])
  throw-Traces e = record { at = λ w. refl }

  -- What comes after a step with an outcome, or else the exception of that step.
  unless-Traces :
      {A B : Type 0} {R : List Call → Result B → Type 0} {f : A → Async World B} (r : Result A)
      → ((a : A) → r ≡ returned a → Traces (f a) R)
      → ((e : ApiError) → r ≡ threw e → R [] (threw e))
      → Traces (unless_thrown f r) R
  unless-Traces (returned a) good bad = good a refl
  unless-Traces (threw e) good bad = record { at = λ w. bad e refl }

  if-Traces :
      {A : Type 0} {R : List Call → Result A → Type 0} {m n : Async World A} (b : Bool)
      → (b ≡ true → Traces m R)
      → (b ≡ false → Traces n R)
      → Traces (if b then m else n) R
  if-Traces true good bad = good refl
  if-Traces false good bad = bad refl

module _ {World : Type 0} (P : Platform World) (path : Text) (options : RequestOptions) where
  -- The calls of one attempt.
  pub data Attempt (calls : List Call) : Type 0 where
    plain :
        is_authenticated options ≡ false
        → calls ≡ fetching (request_of P path options none) ∷ []
        → Attempt calls
    no_answer_of_store :
        is_authenticated options ≡ true → calls ≡ getting_token ∷ [] → Attempt calls
    with_token :
        (token : Option Text)
        → is_authenticated options ≡ true
        → calls ≡ getting_token ∷ fetching (request_of P path options token) ∷ []
        → Attempt calls

  -- The calls of a request.
  pub data Exchange (calls : List Call) : Type 0 where
    once : Attempt calls → Exchange calls
    dropped :
        (first : List Call)
        → Attempt first
        → is_authenticated options ≡ true
        → calls ≡ first ++ refreshing ∷ clearing_tokens ∷ []
        → Exchange calls
    stored :
        (first : List Call) (tokens : AuthTokens)
        → Attempt first
        → is_authenticated options ≡ true
        → calls ≡ first ++ refreshing ∷ setting_tokens tokens ∷ []
        → Exchange calls
    repeated :
        (first second : List Call) (tokens : AuthTokens)
        → Attempt first
        → Attempt second
        → is_authenticated options ≡ true
        → calls ≡ first ++ refreshing ∷ setting_tokens tokens ∷ second
        → Exchange calls

  fetch_with-Traces :
      (token : Option Text)
      → Traces
          (fetch_with P path options token)
          (λ calls r. calls ≡ fetching (request_of P path options token) ∷ [])
  fetch_with-Traces token = calling-Traces _ _

  attempt-Traces : Traces (attempt P path options) (λ calls r. Attempt calls)
  unfolding attempt
  attempt-Traces = elim (Bool-cases (is_authenticated options)) [
    | inl asked ↦ rw asked (
        settle-Traces (calling-Traces getting_token P.get_access_token) λ calls r e.
          unless-Traces r
            (λ token _.
              weaken (fetch_with-Traces token)
                (λ more r f. with_token token asked (rw (e, f) refl)))
            (λ x _. no_answer_of_store asked (rw e refl)))
    | inr not_asked ↦ rw not_asked (weaken (fetch_with-Traces none) (λ more r f. plain not_asked f))
  ]

  read_body-Traces : (body : Option Text) → Traces (read_body P body) (λ calls r. calls ≡ [])
  read_body-Traces none = record { at = λ w. refl }
  read_body-Traces (some body) = record { at = λ w. refl }

  finish-Traces :
      (success : Bool) (payload : Payload) (e : ApiError)
      → Traces {World = World} (if success then return payload else throw e) (λ calls r. calls ≡ [])
  finish-Traces true payload e = record { at = λ w. refl }
  finish-Traces false payload e = record { at = λ w. refl }

  -- Reading the answer makes no call.
  conclude-Traces : (response : Response) → Traces (conclude P response) (λ calls r. calls ≡ [])
  unfolding conclude
  conclude-Traces response =
      settle-Traces
        (if-Traces (response.status_code == 204) (λ _. record { at = λ w. refl })
          (λ _. read_body-Traces response.body_text))
        λ calls r e.
          unless-Traces r
            (λ payload _.
              weaken
                (finish-Traces response.success payload (problem (problem_from response payload)))
                (λ more s f. rw (e, f) refl))
            (λ x _. rw e refl)

  concluded-Exchange :
      (first : List Call) (response : Response)
      → Attempt first
      → Traces (conclude P response) (λ more r. Exchange (first ++ more))
  concluded-Exchange first response done =
      weaken (conclude-Traces response)
        (λ more r e. once (subst Attempt (sym (rw e (append-nil first))) done))

  clearing-Traces :
      {A : Type 0} (k : Async World A)
      → Traces k (λ calls r. calls ≡ [])
      → Traces (calling clearing_tokens P.clear >> k) (λ calls r. calls ≡ clearing_tokens ∷ [])
  clearing-Traces k silent = settle-Traces (calling-Traces clearing_tokens P.clear) λ calls r e.
      unless-Traces r (λ a _. weaken silent (λ more s f. rw (e, f) refl)) (λ x _. rw e refl)

  renewed-Exchange :
      (first : List Call) (response : Response) (retry : Async World Payload)
      (r : Result (Option AuthTokens))
      → Attempt first
      → is_authenticated options ≡ true
      → Traces retry (λ calls s. Attempt calls)
      → Traces (renewed P response retry r) (λ more s. Exchange (first ++ (refreshing ∷ more)))
  unfolding renewed
  renewed-Exchange first response retry (threw e) done asked again =
      weaken (clearing-Traces (throw e) (throw-Traces e))
        (λ more s f. dropped first done asked (rw f refl))
  renewed-Exchange first response retry (returned none) done asked again =
      weaken (clearing-Traces (conclude P response) (conclude-Traces response))
        (λ more s f. dropped first done asked (rw f refl))
  renewed-Exchange first response retry (returned (some tokens)) done asked again =
      settle-Traces (calling-Traces (setting_tokens tokens) (P.set_tokens tokens)) λ calls r e.
        unless-Traces r
          (λ a _.
            weaken again (λ more s next. repeated first more tokens done next asked (rw e refl)))
          (λ x _. stored first tokens done asked (rw e refl))

  refresh_with-Exchange :
      (first : List Call) (response : Response) (retry : Async World Payload)
      (refresh : Option (World → Result (Option AuthTokens) × World))
      → Attempt first
      → is_authenticated options ≡ true
      → Traces retry (λ calls s. Attempt calls)
      → Traces (refresh_with P response retry refresh) (λ more s. Exchange (first ++ more))
  refresh_with-Exchange first response retry none done asked again =
      concluded-Exchange first response done
  refresh_with-Exchange first response retry (some refresh) done asked again =
      settle-Traces (calling-Traces refreshing refresh) λ calls r e.
        subst (λ c. Traces (renewed P response retry r) (λ more s. Exchange (first ++ (c ++ more))))
          (sym e) (renewed-Exchange first response retry r done asked again)

  answer-Exchange :
      (first : List Call) (response : Response) (retry : Async World Payload)
      → Attempt first
      → Traces retry (λ calls s. Attempt calls)
      → Traces (answer P options (some retry) response) (λ more s. Exchange (first ++ more))
  unfolding answer
  answer-Exchange first response retry done again =
      if-Traces ((response.status_code == 401) && is_authenticated options)
        (λ both.
          refresh_with-Exchange first response retry P.refresh_tokens done (ground (arith, both))
            again)
        (λ _. concluded-Exchange first response done)

  send_once-Traces : Traces (send_once P path options) (λ calls r. Attempt calls)
  unfolding send_once answer
  send_once-Traces = settle-Traces attempt-Traces λ calls r done.
      unless-Traces r
        (λ response _.
          weaken (conclude-Traces response)
            (λ more s e. subst Attempt (sym (rw e (append-nil calls))) done))
        (λ x _. subst Attempt (sym (append-nil calls)) done)

  pub request-Exchange : Traces (request P path options) (λ calls r. Exchange calls)
  unfolding send
  request-Exchange = settle-Traces attempt-Traces λ calls r done.
      unless-Traces r
        (λ response _.
          answer-Exchange calls response (send_once P path options) done send_once-Traces)
        (λ x _. once (subst Attempt (sym (append-nil calls)) done))
