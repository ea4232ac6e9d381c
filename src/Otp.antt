-- ===== src/Otp.antt =====
-- mobile/app/(auth)/otp.tsx: the six cells of a code, its submission, and the timer of a new code. An
-- event finds the state that the last one left; the cells call with their own index. What is
-- shown of an error is whether there is one.
pub mod Laws
pub mod Cells
mod Tests
use coffix.Prelude.{
  ℕ, zero, suc, ◌+◌, ◌-◌, Bool, true, false, not, ◌&&◌, ◌||◌, List, [], ◌∷◌, ◌++◌, Text, is_empty,
  is_digit, filter, length, leb, ltb, ◌==◌, any, Option, none, some, if◌then◌else◌,
}
use coffix.Storage.{Outcome, ok, failed}

-- `codes` are those that `signIn` was called with, the last one first; `accepted` counts the requests
-- for a new code whose answer has resolved (not those whose answer was lost, although the server may
-- have sent a code), and `ticks` the seconds of the timer.
pub record State : Type 0 where
  pub phone : Text
  pub digits : List Text
  pub has_error : Bool
  pub focused_index : ℕ
  pub is_submitting : Bool
  pub is_resending : Bool
  pub resend_seconds : ℕ
  pub signed_in : Bool
  pub codes : List Text
  pub accepted : ℕ
  pub ticks : ℕ

abbrev pub initial : Text → State
initial phone = record {
  phone = phone;
  digits = [] ∷ [] ∷ [] ∷ [] ∷ [] ∷ [] ∷ [];
  has_error = false;
  focused_index = 0;
  is_submitting = false;
  is_resending = false;
  resend_seconds = 60;
  signed_in = false;
  codes = [];
  accepted = 0;
  ticks = 0;
}

-- The callback of the timer's interval
unfoldable pub tick_second : State → State
tick_second s = record s {
  resend_seconds = if leb s.resend_seconds 1 then 0 else s.resend_seconds - 1;
  ticks = s.ticks + 1;
}

-- `digits.join('')`
abbrev pub join : List Text → Text
join [] = []
join (digit ∷ more) = digit ++ join more

unfoldable pub submit : Text → State → State
submit code s =
    if is_empty s.phone || not (length code == 6) || s.is_submitting
    then s
    else record s { is_submitting = true; has_error = false; codes = code ∷ s.codes }

-- The button is disabled while a cell is empty or a code is submitted.
unfoldable pub press_submit : State → State
unfolding submit
press_submit s = if any is_empty s.digits || s.is_submitting then s else submit (join s.digits) s

unfoldable pub on_verified : Outcome (Unit {0}) → State → State
on_verified (ok answer) s =
    if s.is_submitting then record s { is_submitting = false; signed_in = true } else s
on_verified failed s =
    if s.is_submitting then record s { is_submitting = false; has_error = true } else s

-- `slice(-1)`
abbrev pub last_unit : Text → Text
last_unit [] = []
last_unit (c ∷ []) = c ∷ []
last_unit (c ∷ (d ∷ rest)) = last_unit (d ∷ rest)

abbrev pub set_at : ℕ → Text → List Text → List Text
set_at index digit [] = []
set_at zero digit (own ∷ more) = digit ∷ more
set_at (suc index) digit (own ∷ more) = own ∷ set_at index digit more

abbrev pub digit_of : Text → Text
digit_of value = last_unit (filter is_digit value)

unfoldable pub change_digit : ℕ → Text → State → State
change_digit index value s =
    if not (is_empty value) && is_empty (digit_of value) then s else record s {
      digits = set_at index (digit_of value) s.digits;
      focused_index =
          if not (is_empty (digit_of value)) && ltb index 5 then index + 1 else s.focused_index;
    }

abbrev pub is_empty_at : ℕ → List Text → Bool
is_empty_at index [] = true
is_empty_at zero (own ∷ more) = is_empty own
is_empty_at (suc index) (own ∷ more) = is_empty_at index more

-- `handleKeyPress`, of the key Backspace
unfoldable pub press_backspace : ℕ → State → State
press_backspace index s =
    if is_empty_at index s.digits && ltb 0 index then record s { focused_index = index - 1 } else s

unfoldable pub resend : State → State
resend s =
    if is_empty s.phone || ltb 0 s.resend_seconds || s.is_resending
    then s
    else record s { is_resending = true; has_error = false }

unfoldable pub on_resent : Outcome (Unit {0}) → State → State
on_resent (ok answer) s =
    if s.is_resending
    then record s { is_resending = false; resend_seconds = 60; accepted = s.accepted + 1 }
    else s
on_resent failed s =
    if s.is_resending then record s { is_resending = false; has_error = true } else s

pub data Event : Type 0 where
  ticked submit_pressed resend_pressed : Event
  digit_changed : ℕ → Text → Event
  backspace_pressed focused : ℕ → Event
  verified resent : Outcome (Unit {0}) → Event

unfoldable pub step : Event → State → State
unfolding tick_second press_submit on_verified change_digit press_backspace resend on_resent
step ticked s = tick_second s
step submit_pressed s = press_submit s
step resend_pressed s = resend s
step (digit_changed index value) s = change_digit index value s
step (backspace_pressed index) s = press_backspace index s
step (focused index) s = record s { focused_index = index }
step (verified outcome) s = on_verified outcome s
step (resent outcome) s = on_resent outcome s

unfoldable pub run : List Event → State → State
unfolding step
run [] s = s
run (event ∷ events) s = run events (step event s)
