-- ===== src/Otp/Tests.antt =====
-- A code that is typed and sent, and a new one that is asked for too early.
use coffix.Prelude.{◌*◌, ◌≤◌, ◌≡◌, refl, List, [], ◌∷◌, All, codes, is_digit}
use coffix.Storage.{ok, failed}
use coffix.Otp.{
  initial, tick_second, submit, press_submit, on_verified, change_digit, resend, on_resent, Event,
  ticked, submit_pressed, resend_pressed, digit_changed, verified, resent, step, run,
}
use coffix.Otp.Laws.{run_accepted}
use coffix.Otp.Cells.{IsCode, run-IsCode}

abbrev typed : List Event
typed =
    digit_changed 0 (codes "1")
    ∷ digit_changed 1 (codes "x")
    ∷ digit_changed 1 (codes "2")
    ∷ digit_changed 2 (codes "a3")
    ∷ digit_changed 3 (codes "4")
    ∷ digit_changed 4 (codes "5")
    ∷ submit_pressed
    ∷ digit_changed 5 (codes "6")
    ∷ submit_pressed
    ∷ submit_pressed
    ∷ verified failed
    ∷ ticked
    ∷ resend_pressed
    ∷ resent (ok tt)
    ∷ []

sends_once : (run typed (initial (codes "+972501234567"))).codes ≡ codes "123456" ∷ []
unfolding run step tick_second press_submit submit on_verified change_digit resend on_resent
    is_digit
sends_once = refl

run-IsCode_example : All IsCode (run typed (initial (codes "+972501234567"))).codes
run-IsCode_example = run-IsCode (codes "+972501234567") typed

run_accepted_example :
    60 * (run typed (initial (codes "+972501234567"))).accepted
    ≤ (run typed (initial (codes "+972501234567"))).ticks
run_accepted_example = run_accepted (codes "+972501234567") typed
