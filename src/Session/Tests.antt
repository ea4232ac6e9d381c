-- ===== src/Session/Tests.antt =====
-- A logout that the server refuses.
use coffix.Prelude.{◌≡◌, ◌⊎◌, refl, true, none, [], codes, arith}
use coffix.Storage.{ok, failed, put}
use coffix.Storage.Memory.{Memory, memory, memory_laws}
use coffix.Service.IntakeStore.Bodies.{bodies, bodies-DraftsLaws}
use coffix.Service.IntakeStore.Invariant.{Tracked}
use coffix.Service.IntakeStore.Session.{Erased-Tracked}
use coffix.Session.{refresh_token_key, App, loading, logout}
use coffix.Session.Tokens.{without_tokens}
use coffix.Session.Laws.{IsEnded, logout-IsEnded}

abbrev started : Memory → App Memory
started device = record {
  device = device;
  status = loading;
  session_scope = none;
  is_subscribed = true;
  cache_clears = 0;
  push_stops = 0;
  requests = [];
}

-- A stored token, and a server that refuses the logout.
abbrev with_token : Memory
with_token = (put refresh_token_key (codes "t") (λ key. none), none)

with_token-Tracked : Tracked bodies (without_tokens with_token.0)
with_token-Tracked =
    Erased-Tracked memory_laws bodies bodies-DraftsLaws (without_tokens with_token.0)
      (λ j. ground arith)

logout-IsEnded_example :
    (((logout memory bodies failed (started with_token)).0 ≡ ok tt)
      ⊎ ((logout memory bodies failed (started with_token)).0 ≡ failed))
    × IsEnded memory_laws bodies (logout memory bodies failed (started with_token)).1
logout-IsEnded_example =
    logout-IsEnded memory_laws bodies failed (started with_token) refl refl with_token-Tracked
