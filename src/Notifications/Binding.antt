-- ===== src/Notifications/Binding.antt =====
-- mobile/src/features/notifications/push.ts: `bindPushCleanup` and `stopPushSession`, which the session
-- calls. A function to stop is known by a number.
use coffix.Prelude.{ℕ, ◌==◌, Option, none, some, if◌then◌else◌}

-- The module's `cleanup`
abbrev pub Cleanup : Type 0
Cleanup = Option ℕ

abbrev pub bind_push_cleanup : ℕ → Cleanup → Cleanup
bind_push_cleanup stop cleanup = some stop

-- The function that `bindPushCleanup` returns.
unfoldable pub unbind_push_cleanup : ℕ → Cleanup → Cleanup
unbind_push_cleanup stop none = none
unbind_push_cleanup stop (some current) = if current == stop then none else some current

-- What is called, and the cleanup after it.
abbrev pub stop_push_session : Cleanup → Option ℕ × Cleanup
stop_push_session cleanup = (cleanup, none)
