-- ===== src/Otp/Cells.antt =====
-- The cells hold digits, so the codes that are sent are six digits.
use coffix.Prelude.{
  ℕ, zero, suc, ◌+◌, ◌≡◌, refl, sym, subst, true, false, not, ◌&&◌, ◌||◌, List, [], ◌∷◌, Text,
  is_empty, is_digit, filter, length, ltb, ◌==◌, any, All, All-append, if◌then◌else◌, if_ind, arith,
}
use coffix.Storage.{ok, failed}
use coffix.Otp.{
  State, initial, tick_second, join, submit, press_submit, on_verified, last_unit, set_at, digit_of,
  change_digit, press_backspace, resend, on_resent, Event, ticked, submit_pressed, resend_pressed,
  digit_changed, backspace_pressed, focused, verified, resent, step, run,
}

abbrev pub IsNumber : Text → Type 0
IsNumber code = All (λ c. is_digit c ≡ true) code

abbrev pub IsCode : Text → Type 0
IsCode code = (length code ≡ 6) × IsNumber code

record HasDigits (s : State) : Type 0 where
  cells : All IsNumber s.digits
  sent : All IsCode s.codes

filter-IsNumber : (value : Text) → IsNumber (filter is_digit value)
filter-IsNumber [] = tt
filter-IsNumber (c ∷ value) =
    if_ind IsNumber (is_digit c) (c ∷ filter is_digit value) (filter is_digit value)
      (λ good. (good, filter-IsNumber value)) (λ _. filter-IsNumber value)

last_unit-IsNumber : (value : Text) → IsNumber value → IsNumber (last_unit value)
last_unit-IsNumber [] h = tt
last_unit-IsNumber (c ∷ []) h = h
last_unit-IsNumber (c ∷ (d ∷ rest)) h = last_unit-IsNumber (d ∷ rest) h.1

set_at-IsNumber :
    (index : ℕ) (digit : Text) (cells : List Text)
    → IsNumber digit
    → All IsNumber cells
    → All IsNumber (set_at index digit cells)
set_at-IsNumber index digit [] h all = tt
set_at-IsNumber zero digit (own ∷ more) h all = (h, all.1)
set_at-IsNumber (suc index) digit (own ∷ more) h all =
    (all.0, set_at-IsNumber index digit more h all.1)

join-IsNumber : (cells : List Text) → All IsNumber cells → IsNumber (join cells)
join-IsNumber [] all = tt
join-IsNumber (digit ∷ more) all =
    All-append (λ c. is_digit c ≡ true) digit (join more) all.0 (join-IsNumber more all.1)

submit-HasDigits :
    (code : Text) (s : State) → IsNumber code → HasDigits s → HasDigits (submit code s)
unfolding submit
submit-HasDigits code s number h =
    if_ind HasDigits (is_empty s.phone || not (length code == 6) || s.is_submitting) s
      (record s { is_submitting = true; has_error = false; codes = code ∷ s.codes }) (λ _. h)
      (λ allowed. record { cells = h.cells; sent = ((ground arith, number), h.sent) })

press_submit-HasDigits : (s : State) → HasDigits s → HasDigits (press_submit s)
unfolding press_submit
press_submit-HasDigits s h =
    if_ind HasDigits (any is_empty s.digits || s.is_submitting) s (submit (join s.digits) s)
      (λ _. h) (λ _. submit-HasDigits (join s.digits) s (join-IsNumber s.digits h.cells) h)

change_digit-HasDigits :
    (index : ℕ) (value : Text) (s : State) → HasDigits s → HasDigits (change_digit index value s)
unfolding change_digit
change_digit-HasDigits index value s h =
    if_ind HasDigits (not (is_empty value) && is_empty (digit_of value)) s
      (record s {
        digits = set_at index (digit_of value) s.digits;
        focused_index =
            if not (is_empty (digit_of value)) && ltb index 5 then index + 1 else s.focused_index;
      })
      (λ _. h)
      (λ _. record {
        cells =
            set_at-IsNumber index (digit_of value) s.digits
              (last_unit-IsNumber (filter is_digit value) (filter-IsNumber value)) h.cells;
        sent = h.sent;
      })

-- The events that touch neither the cells nor the codes.
HasDigits-digits :
    (s t : State) → t.digits ≡ s.digits → t.codes ≡ s.codes → HasDigits s → HasDigits t
HasDigits-digits s t same_digits same_codes h = record {
  cells = subst (λ cells. All IsNumber cells) (sym same_digits) h.cells;
  sent = subst (λ sent. All IsCode sent) (sym same_codes) h.sent;
}

step-HasDigits : (event : Event) (s : State) → HasDigits s → HasDigits (step event s)
unfolding step tick_second on_verified press_backspace resend on_resent
step-HasDigits ticked s h = HasDigits-digits s (step ticked s) refl refl h
step-HasDigits submit_pressed s h = press_submit-HasDigits s h
step-HasDigits resend_pressed s h =
    HasDigits-digits s (step resend_pressed s) (ground arith) (ground arith) h
step-HasDigits (digit_changed index value) s h = change_digit-HasDigits index value s h
step-HasDigits (backspace_pressed index) s h =
    HasDigits-digits s (step (backspace_pressed index) s) (ground arith) (ground arith) h
step-HasDigits (focused index) s h = HasDigits-digits s (step (focused index) s) refl refl h
step-HasDigits (verified (ok answer)) s h =
    HasDigits-digits s (step (verified (ok answer)) s) (ground arith) (ground arith) h
step-HasDigits (verified failed) s h =
    HasDigits-digits s (step (verified failed) s) (ground arith) (ground arith) h
step-HasDigits (resent (ok answer)) s h =
    HasDigits-digits s (step (resent (ok answer)) s) (ground arith) (ground arith) h
step-HasDigits (resent failed) s h =
    HasDigits-digits s (step (resent failed) s) (ground arith) (ground arith) h

run-HasDigits : (events : List Event) (s : State) → HasDigits s → HasDigits (run events s)
unfolding run
run-HasDigits [] s h = h
run-HasDigits (event ∷ events) s h = run-HasDigits events (step event s) (step-HasDigits event s h)

-- Whatever is typed or pasted into the cells, and however presses and answers are ordered: every code
-- that is sent has six characters, and each of them is a digit.
pub run-IsCode :
    (phone : Text) (events : List Event) → All IsCode (run events (initial phone)).codes
run-IsCode phone events =
    (run-HasDigits events (initial phone)
      (record { cells = (tt, (tt, (tt, (tt, (tt, (tt, tt)))))); sent = tt })).sent
