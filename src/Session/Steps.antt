-- ===== src/Session/Steps.antt =====
-- mobile/src/features/auth/store.ts and useSession.tsx between their awaits: restores, sign-ins,
-- logouts, and what the API client does to the tokens, in any number and interleaved in any way. An
-- event starts an operation, or is the answer of what one of them waits for; the calls of the secure
-- store, the server and the other modules are recorded, the last one first. `Promise.all` of two calls
-- of the secure store is one call here, which is answered once. The provider is one listener.
pub mod Granted
mod Tests
use coffix.Prelude.{
  ℕ, zero, suc, Bool, true, false, Option, none, some, List, [], ◌∷◌, ◌++◌, Text, if◌then◌else◌,
}
use coffix.Client.{AuthTokens}
use coffix.Session.{SessionStatus, authenticated, loading, unauthenticated, session_scope_from}

-- What follows a `clear`: the end of a restore, or nothing.
pub data Ending : Type 0 where
  restores ends : Ending

-- Whose tokens are stored.
pub data Purpose : Type 0 where
  restored signed_in renewed : Purpose

-- What an operation waits for.
pub data Phase : Type 0 where
  reading : Phase
  refreshing : Text → Phase
  verifying : Phase
  stopping_sign_in : AuthTokens → Phase
  storing : Purpose → AuthTokens → Phase
  stopping_logout : Phase
  reading_logout : Phase
  revoking : Phase
  deleting : Ending → Phase
  stopping_clear : Ending → Phase
  erasing : Ending → Phase
  settled : Phase

pub data Call : Type 0 where
  get_refresh_token delete_tokens stop_push clear_queries clear_drafts : Call
  set_tokens : AuthTokens → Call
  refresh_request logout_request : Text → Call
  verify_request : Text → Text → Call

pub data Answer : Type 0 where
  read : Option Text → Answer
  granted : AuthTokens → Answer
  done rejected : Answer

pub data Operation : Type 0 where
  restore_session logout expire : Operation
  sign_in : Text → Text → Operation
  renew : AuthTokens → Operation

-- `active` and `is_subscribed` are of the provider's effects; `stored` are the tokens that the secure
-- store has reported as stored, the last ones first.
pub record State : Type 0 where
  pub status : SessionStatus
  pub session_scope : Option Text
  pub active : Bool
  pub is_subscribed : Bool
  pub operations : List Phase
  pub calls : List Call
  pub stored : List AuthTokens

-- The provider when it is mounted.
abbrev pub mounted : State
mounted = record {
  status = loading;
  session_scope = none;
  active = true;
  is_subscribed = true;
  operations = [];
  calls = [];
  stored = [];
}

-- An operation goes on to wait, with what it leaves of the rest.
abbrev pub Next : Type 0
Next = Phase × State

abbrev pub wait : Call → Phase → State → Next
wait call phase s = (phase, record s { calls = call ∷ s.calls })

abbrev pub settle : State → Next
settle s = (settled, s)

abbrev pub show : Option Text → SessionStatus → State → State
show scope status s = record s { session_scope = scope; status = status }

-- `restoreSession`, once `restoreSessionOnce` has resolved.
unfoldable pub show_restored : Option Text → SessionStatus → State → State
show_restored scope status s = if s.active then show scope status s else s

-- `secureTokenStore.clear` resolves.
unfoldable pub end_clear : Ending → State → Next
unfolding show_restored
end_clear restores s = settle (show_restored none unauthenticated s)
end_clear ends s = settle s

abbrev pub begin_clear : Ending → State → Next
begin_clear ending s = wait delete_tokens (deleting ending) s

-- The tokens are deleted: the listener is called.
unfoldable pub on_deleted : Ending → State → Next
unfolding end_clear
on_deleted ending s =
    if s.is_subscribed then wait stop_push (stopping_clear ending) s else end_clear ending s

-- The listener, once the push session is stopped or could not be.
unfoldable pub on_stopped : Ending → State → Next
on_stopped ending s =
    wait clear_drafts (erasing ending)
      (show none unauthenticated (record s { calls = clear_queries ∷ s.calls }))

unfoldable pub on_read : Option Text → State → Next
unfolding show_restored
on_read none s = settle (show_restored none unauthenticated s)
on_read (some []) s = settle (show_restored none unauthenticated s)
on_read (some (c ∷ token)) s = wait (refresh_request (c ∷ token)) (refreshing (c ∷ token)) s

unfoldable pub on_logout_read : Option Text → State → Next
on_logout_read none s = begin_clear ends s
on_logout_read (some []) s = begin_clear ends s
on_logout_read (some (c ∷ token)) s = wait (logout_request (c ∷ token)) revoking s

-- The tokens are stored.
unfoldable pub on_stored : Purpose → AuthTokens → State → Next
unfolding show_restored
on_stored restored tokens s =
    settle (show_restored (session_scope_from tokens.refresh_token) authenticated s)
on_stored signed_in tokens s =
    settle (show (session_scope_from tokens.refresh_token) authenticated s)
on_stored renewed tokens s = settle s

-- The tokens could not be stored: only a restore catches it.
unfoldable pub on_store_failed : Purpose → State → Next
on_store_failed restored s = begin_clear restores s
on_store_failed purpose s = settle s

abbrev pub report_stored : AuthTokens → State → State
report_stored tokens s = record s { stored = tokens ∷ s.stored }

-- An answer to an operation; one that it does not wait for changes nothing.
unfoldable pub resume : Phase → Answer → State → Next
unfolding on_read on_logout_read on_stored on_store_failed on_deleted on_stopped end_clear
    show_restored
resume reading (read token) s = on_read token s
resume reading rejected s = settle (show_restored none unauthenticated s)
resume (refreshing token) (granted tokens) s = wait (set_tokens tokens) (storing restored tokens) s
resume (refreshing token) rejected s = begin_clear restores s
resume verifying (granted tokens) s = wait stop_push (stopping_sign_in tokens) s
resume verifying rejected s = settle s
resume (stopping_sign_in tokens) done s = wait (set_tokens tokens) (storing signed_in tokens) s
resume (stopping_sign_in tokens) rejected s = wait (set_tokens tokens) (storing signed_in tokens) s
resume (storing purpose tokens) done s = on_stored purpose tokens (report_stored tokens s)
resume (storing purpose tokens) rejected s = on_store_failed purpose s
resume stopping_logout done s = wait get_refresh_token reading_logout s
resume stopping_logout rejected s = wait get_refresh_token reading_logout s
resume reading_logout (read token) s = on_logout_read token s
resume reading_logout rejected s = settle s
resume revoking done s = begin_clear ends s
resume revoking rejected s = begin_clear ends s
resume (deleting ending) done s = on_deleted ending s
resume (deleting ending) rejected s = settle s
resume (stopping_clear ending) done s = on_stopped ending s
resume (stopping_clear ending) rejected s = on_stopped ending s
resume (erasing ending) done s = end_clear ending s
resume (erasing ending) rejected s = settle s
resume phase answer s = (phase, s)

-- The first call of an operation.
unfoldable pub begin : Operation → State → Next
begin restore_session s = wait get_refresh_token reading s
begin logout s = wait stop_push stopping_logout s
begin expire s = begin_clear ends s
begin (sign_in phone code) s = wait (verify_request phone code) verifying s
begin (renew tokens) s = wait (set_tokens tokens) (storing renewed tokens) s

pub data Event : Type 0 where
  started : Operation → Event
  answered : ℕ → Answer → Event
  unmounted : Event

abbrev pub phase_at : ℕ → List Phase → Phase
phase_at n [] = settled
phase_at zero (phase ∷ phases) = phase
phase_at (suc n) (phase ∷ phases) = phase_at n phases

abbrev pub set_phase : ℕ → Phase → List Phase → List Phase
set_phase n next [] = []
set_phase zero next (phase ∷ phases) = next ∷ phases
set_phase (suc n) next (phase ∷ phases) = phase ∷ set_phase n next phases

-- The operations are numbered as they were started.
unfoldable pub step : Event → State → State
unfolding begin resume
step (started operation) s =
    let next = begin operation s in record next.1 { operations = next.1.operations ++ next.0 ∷ [] }
step (answered n answer) s =
    let next = resume (phase_at n s.operations) answer s in
    record next.1 { operations = set_phase n next.0 next.1.operations }
step unmounted s = record s { active = false; is_subscribed = false }

unfoldable pub run : List Event → State → State
unfolding step
run [] s = s
run (event ∷ events) s = run events (step event s)
