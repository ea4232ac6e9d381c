-- ===== src/Otp/Laws.antt =====
-- What is sent as a code, and how often a new one is asked for.
use coffix.Prelude.{◌+◌, ◌*◌, ◌≤◌, ◌≡◌, true, List, [], ◌∷◌, Text, arith}
use coffix.Storage.{ok, failed}
use coffix.Otp.{
  State, initial, tick_second, submit, press_submit, on_verified, change_digit, press_backspace,
  resend, on_resent, Event, ticked, submit_pressed, resend_pressed, digit_changed,
  backspace_pressed, focused, verified, resent, step, run,
}

-- What the timer and the accepted codes have to do with each other.
record IsTimed (s : State) : Type 0 where
  elapsed : 60 * s.accepted + 60 ≤ s.ticks + s.resend_seconds
  bound : s.resend_seconds ≤ 60
  zero_while : s.is_resending ≡ true → s.resend_seconds ≡ 0

step-IsTimed : (event : Event) (s : State) → IsTimed s → IsTimed (step event s)
unfolding step tick_second press_submit submit on_verified change_digit press_backspace resend
    on_resent
step-IsTimed event s h = record {
  elapsed = elapsed event s h.elapsed h.bound h.zero_while;
  bound = bound event s h.bound;
  zero_while = zero_while event s h.zero_while;
}
  where
    elapsed :
        (event : Event) (s : State)
        → 60 * s.accepted + 60 ≤ s.ticks + s.resend_seconds
        → s.resend_seconds ≤ 60
        → (s.is_resending ≡ true → s.resend_seconds ≡ 0)
        → 60 * (step event s).accepted + 60 ≤ (step event s).ticks + (step event s).resend_seconds
    elapsed ticked s h b z = ground arith
    elapsed submit_pressed s h b z = ground arith
    elapsed resend_pressed s h b z = ground arith
    elapsed (digit_changed index value) s h b z = ground arith
    elapsed (backspace_pressed index) s h b z = ground arith
    elapsed (focused index) s h b z = h
    elapsed (verified (ok answer)) s h b z = ground arith
    elapsed (verified failed) s h b z = ground arith
    elapsed (resent (ok answer)) s h b z = ground arith
    elapsed (resent failed) s h b z = ground arith

    bound : (event : Event) (s : State) → s.resend_seconds ≤ 60 → (step event s).resend_seconds ≤ 60
    bound ticked s b = ground arith
    bound submit_pressed s b = ground arith
    bound resend_pressed s b = ground arith
    bound (digit_changed index value) s b = ground arith
    bound (backspace_pressed index) s b = ground arith
    bound (focused index) s b = b
    bound (verified (ok answer)) s b = ground arith
    bound (verified failed) s b = ground arith
    bound (resent (ok answer)) s b = ground arith
    bound (resent failed) s b = ground arith

    zero_while :
        (event : Event) (s : State)
        → (s.is_resending ≡ true → s.resend_seconds ≡ 0)
        → (step event s).is_resending ≡ true
        → (step event s).resend_seconds ≡ 0
    zero_while ticked s z e = ground arith
    zero_while submit_pressed s z e = ground arith
    zero_while resend_pressed s z e = ground arith
    zero_while (digit_changed index value) s z e = ground arith
    zero_while (backspace_pressed index) s z e = ground arith
    zero_while (focused index) s z e = z e
    zero_while (verified (ok answer)) s z e = ground arith
    zero_while (verified failed) s z e = ground arith
    zero_while (resent (ok answer)) s z e = ground arith
    zero_while (resent failed) s z e = ground arith

run-IsTimed : (events : List Event) (s : State) → IsTimed s → IsTimed (run events s)
unfolding run
run-IsTimed [] s h = h
run-IsTimed (event ∷ events) s h = run-IsTimed events (step event s) (step-IsTimed event s h)

-- However the presses, answers and ticks of the page are ordered: the requests for a new code whose
-- answer has resolved are at most one for each sixty ticks of the timer.
pub run_accepted :
    (phone : Text) (events : List Event)
    → 60 * (run events (initial phone)).accepted ≤ (run events (initial phone)).ticks
run_accepted phone events =
    let h : IsTimed (run events (initial phone)) =
      run-IsTimed events (initial phone)
        (record { elapsed = omega arith; bound = omega arith; zero_while = λ e. cc }) in
    omega (arith, h.elapsed, h.bound)
