-- ===== src/Cart/Expiry/Laws.antt =====
-- The countdown: its seconds, its clock face, and the single call of `onExpired`.
use coffix.Prelude.{
  ℕ, ◌+◌, ◌*◌, ◌/◌, ◌%◌, ◌≤◌, ◌<◌, ◌≡◌, ◌↔◌, refl, Bool, true, false, not, ◌&&◌, ◌||◌, Option, none,
  some, List, [], ◌∷◌, String, arith, ◌==◌, leb, if◌then◌else◌, any, length, number, take, drop,
  pad_two-decimal,
}
use coffix.Cart.Expiry.{Expiry, format_remaining, remaining_seconds, begin, tick, ticks}

-- For a proper date: no seconds remain exactly from the deadline on, the shown seconds never end
-- before the deadline, and they end less than a second after it.
pub remaining_seconds_bounds :
    (parse : String → Option ℕ) (expires_at : String) (deadline now : ℕ)
    → parse expires_at ≡ some deadline
    → ((remaining_seconds parse expires_at now ≡ 0) ↔ (deadline ≤ now))
      × (deadline ≤ now + 1000 * remaining_seconds parse expires_at now)
      × (now < deadline → now + 1000 * remaining_seconds parse expires_at now < deadline + 1000)
unfolding remaining_seconds
remaining_seconds_bounds parse expires_at deadline now e = rw (e, remaining_seconds) (ground arith)

-- Below 100 minutes the clock face has five characters, a colon in the middle, and its two parts
-- read as the minutes and the seconds, the latter below 60.
pub format_remaining_clock :
    (seconds : ℕ)
    → seconds < 6000
    → (length (format_remaining seconds) ≡ 5)
      × (number (take 2 (format_remaining seconds)) ≡ some (seconds / 60))
      × (take 1 (drop 2 (format_remaining seconds)) ≡ b':' ∷ [])
      × (number (drop 3 (format_remaining seconds)) ≡ some (seconds % 60))
unfolding format_remaining
format_remaining_clock seconds h =
    let (face, value) = pad_two-decimal (seconds / 60) (omega arith) in
    let (face', value') = pad_two-decimal (seconds % 60) (omega arith) in
    rw (face, face') (refl, rw face at value, refl, rw face' at value')

-- Whether one of the times is at or past the deadline; a date that is none is past at any time.
abbrev pub is_past : Option ℕ → ℕ → Bool
is_past none now = true
is_past (some deadline) now = leb deadline now

abbrev pub is_reached : Option ℕ → List ℕ → Bool
is_reached deadline times = any (is_past deadline) times

-- No seconds are shown exactly from the deadline on.
seconds-is_past :
    (parse : String → Option ℕ) (expires_at : String) (deadline : Option ℕ) (now : ℕ)
    → parse expires_at ≡ deadline
    → (remaining_seconds parse expires_at now == 0) ≡ is_past deadline now
unfolding remaining_seconds
seconds-is_past parse expires_at none now e = rw (e, remaining_seconds) refl
seconds-is_past parse expires_at (some deadline) now e = rw (e, remaining_seconds) (ground arith)

module _ (parse : String → Option ℕ) (expires_at : String) where
  -- One tick, while the expiry is set.
  tick_step :
      (now : ℕ) (e : Expiry)
      → e.expires_at ≡ some expires_at
      → ((tick parse now e).expires_at ≡ some expires_at)
        × ((tick parse now e).expired ≡ (e.expired || is_past (parse expires_at) now))
        × ((tick parse now e).calls
            ≡ e.calls + (if is_past (parse expires_at) now && not e.expired then 1 else 0))
  unfolding tick
  tick_step now e set =
      rw (set, tick) (ground (arith, seconds-is_past parse expires_at (parse expires_at) now refl))

  ticks_expired :
      (times : List ℕ) (e : Expiry)
      → e.expires_at ≡ some expires_at
      → e.expired ≡ true
      → (ticks parse times e).calls ≡ e.calls
  unfolding ticks
  ticks_expired [] e set done = refl
  ticks_expired (now ∷ later) e set done =
      let (set', expired', calls') = tick_step now e set in
      ground (arith, set', expired', calls', ticks_expired later (tick parse now e) set')

  ticks_waiting :
      (times : List ℕ) (e : Expiry)
      → e.expires_at ≡ some expires_at
      → e.expired ≡ false
      → (ticks parse times e).calls
        ≡ e.calls + (if is_reached (parse expires_at) times then 1 else 0)
  unfolding ticks
  ticks_waiting [] e set waits = omega arith
  ticks_waiting (now ∷ later) e set waits =
      let (set', expired', calls') = tick_step now e set in
      ground (
        arith,
        set',
        expired',
        calls',
        ticks_expired later (tick parse now e) set',
        ticks_waiting later (tick parse now e) set',
      )

  -- From the moment the expiry is set, `onExpired` runs once if one of the times at which the code
  -- looks is at or past the deadline, and otherwise not at all; for a date that does not parse it runs
  -- once, at the first look.
  pub begin-ticks_calls :
      (start : ℕ) (times : List ℕ) (e : Expiry)
      → (ticks parse times (begin parse (some expires_at) start e)).calls
        ≡ e.calls + (if is_reached (parse expires_at) (start ∷ times) then 1 else 0)
  unfolding begin
  begin-ticks_calls start times e = ground (
    arith,
    seconds-is_past parse expires_at (parse expires_at) start refl,
    ticks_expired times (begin parse (some expires_at) start e),
    ticks_waiting times (begin parse (some expires_at) start e),
  )
