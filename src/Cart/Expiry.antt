-- ===== src/Cart/Expiry.antt =====
-- mobile/src/features/cart/expiry.ts. A time is a whole number of milliseconds since the epoch;
-- `Date.parse` is a parameter, which gives nothing for a text that is no date.
mod Laws
mod Tests
use coffix.Prelude.{
  ℕ, ◌+◌, ◌-◌, ◌/◌, ◌%◌, Bool, true, false, not, ◌&&◌, Option, none, some, List, [], ◌∷◌, ◌++◌,
  Text, String, codes, decimal, pad_two, ◌==◌, if◌then◌else◌,
}

-- `Math.max(0, Math.ceil((deadline - now) / 1_000))`
abbrev pub seconds_until : ℕ → ℕ → ℕ
seconds_until deadline now = (deadline - now + 999) / 1000

unfoldable pub format_remaining : ℕ → Text
format_remaining seconds =
    pad_two (decimal (seconds / 60)) ++ b':' ∷ pad_two (decimal (seconds % 60))

-- The state of `useCartExpiry`: the shown seconds, the two refs, and how often the callback ran.
pub record Expiry : Type 0 where
  pub expires_at : Option String
  pub seconds : ℕ
  pub expired : Bool
  pub calls : ℕ

module _ (parse : String → Option ℕ) where
  unfoldable pub remaining_seconds : String → ℕ → ℕ
  remaining_seconds expires_at now = elim (parse expires_at) [
    | none ↦ 0
    | some deadline ↦ seconds_until deadline now
  ]

  abbrev initial_seconds : Option String → ℕ → ℕ
  initial_seconds none now = 0
  initial_seconds (some expires_at) now = remaining_seconds expires_at now

  -- `expiredRef.current = true; callbackRef.current()`
  abbrev expire : Expiry → Expiry
  expire e = record e { expired = true; calls = e.calls + 1 }

  -- The effect, when `expiresAt` is set or changes.
  unfoldable pub begin : Option String → ℕ → Expiry → Expiry
  begin none now e = record e { expires_at = none; seconds = 0; expired = false }
  begin (some expires_at) now e =
      let e' : Expiry = record e {
        expires_at = some expires_at;
        seconds = remaining_seconds expires_at now;
        expired = false;
      } in
      if remaining_seconds expires_at now == 0 then expire e' else e'

  abbrev tick_at : String → ℕ → Expiry → Expiry
  tick_at expires_at now e =
      let next = remaining_seconds expires_at now in
      let e' : Expiry = record e { seconds = next } in
      if (next == 0) && not e.expired then expire e' else e'

  -- One tick of the interval, which runs only while there is an expiry.
  unfoldable pub tick : ℕ → Expiry → Expiry
  tick now e = elim e.expires_at [ none ↦ e | some expires_at ↦ tick_at expires_at now e ]

  unfoldable pub ticks : List ℕ → Expiry → Expiry
  ticks [] e = e
  ticks (now ∷ later) e = ticks later (tick now e)
