-- ===== src/Session/Steps/Tests.antt =====
-- A sign-in that is answered, an expiry that stops the push session while the old session is shown, and
-- a restore whose tokens cannot be deleted.
use coffix.Prelude.{◌≡◌, refl, some, List, [], ◌∷◌, codes}
use coffix.Client.{AuthTokens}
use coffix.Session.{authenticated, loading, session_scope_from}
use coffix.Session.Steps.{
  ends, stopping_clear, settled, read, granted, done, rejected, restore_session, expire, sign_in,
  mounted, Event, started, answered, run,
}
use coffix.Session.Steps.Granted.{IsShown, run-IsShown}

abbrev tokens : AuthTokens
tokens = record {
  access_token = codes "a";
  refresh_token = codes "0123abcd-0000-4000-8000-0123456789ab.secret";
}

abbrev signing_in : List Event
signing_in =
    started (sign_in (codes "+972501234567") (codes "123456"))
    ∷ answered 0 (granted tokens)
    ∷ answered 0 rejected
    ∷ answered 0 done
    ∷ []

signed_in_lem :
    ((run signing_in mounted).status ≡ authenticated)
    × ((run signing_in mounted).session_scope ≡ session_scope_from tokens.refresh_token)
    × ((run signing_in mounted).stored ≡ tokens ∷ [])
unfolding run
signed_in_lem = (refl, refl, refl)

run-IsShown_example :
    IsShown signing_in
      (run signing_in mounted).status
      (run signing_in mounted).session_scope
      (run signing_in mounted).stored
run-IsShown_example = run-IsShown signing_in

-- The tokens are deleted before the session is no longer shown.
abbrev expiring : List Event
expiring =
    started (sign_in (codes "+972501234567") (codes "123456"))
    ∷ answered 0 (granted tokens)
    ∷ answered 0 done
    ∷ answered 0 done
    ∷ started expire
    ∷ answered 1 done
    ∷ []

shown_without_tokens :
    ((run expiring mounted).status ≡ authenticated)
    × ((run expiring mounted).operations ≡ settled ∷ stopping_clear ends ∷ [])
unfolding run
shown_without_tokens = (refl, refl)

-- A stored token that the server refuses, and a deletion that is rejected: the application goes on
-- loading.
abbrev stuck : List Event
stuck =
    started restore_session
    ∷ answered 0 (read (some (codes "t")))
    ∷ answered 0 rejected
    ∷ answered 0 rejected
    ∷ []

restore_stuck :
    ((run stuck mounted).status ≡ loading) × ((run stuck mounted).operations ≡ settled ∷ [])
unfolding run
restore_stuck = (refl, refl)
