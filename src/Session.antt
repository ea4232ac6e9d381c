-- ===== src/Session.antt =====
-- mobile/src/features/auth/store.ts and useSession.tsx: one whole `logout`, from its call to its end,
-- with nothing of another operation between its awaits: the tokens in the secure store and the session
-- that the application shows, with the drafts of Service/IntakeStore, which the end of a session
-- erases. The server's answer is an argument; the request that it answers is recorded. Session/Steps has
-- all operations, cut at their awaits and interleaved.
pub mod Laws
pub mod Tokens
pub mod Steps
mod Tests
use coffix.Prelude.{
  ◌≡◌, ℕ, ◌+◌, Bool, true, false, Option, none, some, List, [], ◌∷◌, Text, codes, is_empty, ◌==◌,
  if◌then◌else◌,
}
use coffix.Storage.{Outcome, ok, failed, SecureStore, Task, pure, raise, ◌>>=◌, ◌>>◌}
use coffix.Client.{AuthTokens}
use coffix.Notifications.{is_uuid}
use coffix.Service.IntakeStore.{Drafts, clear_all}

abbrev pub access_token_key : Text
access_token_key = codes "coffix.accessToken"

abbrev pub refresh_token_key : Text
refresh_token_key = codes "coffix.refreshToken"

pub data SessionStatus : Type 0 where
  authenticated loading unauthenticated : SessionStatus

pub data AuthRequest : Type 0 where
  logout_request : Text → AuthRequest

-- The device, the state of the provider, and whether its listener is subscribed; how often the queries
-- were cleared and the push session stopped; the requests, the last one first.
pub record App (Device : Type 0) : Type 0 where
  pub device : Device
  pub status : SessionStatus
  pub session_scope : Option Text
  pub is_subscribed : Bool
  pub cache_clears : ℕ
  pub push_stops : ℕ
  pub requests : List AuthRequest

-- `refreshToken.split('.', 1)`
abbrev pub before_dot : Text → Text
before_dot [] = []
before_dot (c ∷ s) = if c == b'.' then [] else c ∷ before_dot s

unfoldable pub session_scope_from : Text → Option Text
session_scope_from refresh_token =
    if is_uuid (before_dot refresh_token) then some (before_dot refresh_token) else none

abbrev pub both_ok : Outcome (Unit {0}) → Outcome (Unit {0}) → Outcome (Unit {0})
both_ok (ok a) r = r
both_ok failed r = failed

module _ {D : Type 0} where
  abbrev pub modify : (D → D) → Task D (Unit {0})
  modify f d = (ok tt, f d)

  -- `Promise.all` of two calls: both are made, and either rejection is the result's.
  abbrev pub both : Task D (Unit {0}) → Task D (Unit {0}) → Task D (Unit {0})
  both m n d = let first = m d in let second = n first.1 in (both_ok first.0 second.0, second.1)

  -- `try { … } finally { … }`
  abbrev pub finally : {A : Type 0} → Outcome A → Outcome (Unit {0}) × D → Outcome A × D
  finally r (ok a, d) = (r, d)
  finally r (failed, d) = (failed, d)

  abbrev pub answered : {A : Type 0} → Outcome A → Task D A
  answered r d = (r, d)

abbrev pub request : {D : Type 0} → AuthRequest → Task (App D) (Unit {0})
request r = modify (λ app. record app { requests = r ∷ app.requests })

abbrev pub stop_push : {D : Type 0} → Task (App D) (Unit {0})
stop_push = modify (λ app. record app { push_stops = app.push_stops + 1 })

abbrev pub show_session : {D : Type 0} → Option Text → SessionStatus → Task (App D) (Unit {0})
show_session scope status = modify (λ app. record app { session_scope = scope; status = status })

abbrev pub clear_queries : {D : Type 0} → Task (App D) (Unit {0})
clear_queries = modify (λ app. record app { cache_clears = app.cache_clears + 1 })

module _ (S : SecureStore) where
  -- A call of the device, which leaves the rest of the application alone.
  abbrev pub on_device : {A : Type 0} → Task S.Device A → Task (App S.Device) A
  on_device m app = ((m app.device).0, record app { device = (m app.device).1 })

  abbrev pub delete_tokens : Task S.Device (Unit {0})
  delete_tokens = both (S.delete_item access_token_key) (S.delete_item refresh_token_key)

  unfoldable pub get_refresh_token : Task S.Device (Option Text)
  get_refresh_token = S.get_item refresh_token_key

module _ (S : SecureStore) {Draft : Type 0} (J : Drafts Draft) where
  -- The listener of `AuthSessionProvider`
  unfoldable pub on_clear : Task (App S.Device) (Unit {0})
  on_clear = do
    stop_push
    clear_queries
    show_session none unauthenticated
    on_device S (clear_all S J)

  abbrev pub notify : Bool → Task (App S.Device) (Unit {0})
  notify true = on_clear
  notify false = pure tt

  -- `secureTokenStore.clear`, until it has ended
  unfoldable pub clear_tokens : Task (App S.Device) (Unit {0})
  clear_tokens = on_device S (delete_tokens S) >>= λ _ app. notify app.is_subscribed app

  abbrev pub revoke : Outcome (Unit {0}) → Option Text → Task (App S.Device) (Unit {0})
  revoke answer none = pure tt
  revoke answer (some []) = pure tt
  revoke answer (some (c ∷ token)) = do request (logout_request (c ∷ token)); answered answer

  abbrev pub revoke_and_clear : Outcome (Unit {0}) → Option Text → Task (App S.Device) (Unit {0})
  revoke_and_clear answer token app =
      let revoked = revoke answer token app in finally revoked.0 (clear_tokens revoked.1)

  unfoldable pub logout : Outcome (Unit {0}) → Task (App S.Device) (Unit {0})
  logout answer = do
    stop_push
    token ← on_device S (get_refresh_token S)
    revoke_and_clear answer token
