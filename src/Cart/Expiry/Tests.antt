-- ===== src/Cart/Expiry/Tests.antt =====
-- The countdown at concrete times.
use coffix.Prelude.{
  ℕ, ◌+◌, ◌≡◌, refl, false, Option, none, some, [], ◌∷◌, String, codes, decimal, if◌then◌else◌,
}
use coffix.Cart.Expiry.{Expiry, format_remaining, remaining_seconds, begin, tick, ticks}
use coffix.Cart.Expiry.Laws.{is_reached, begin-ticks_calls}

-- Every text is the same date.
abbrev at_ten : String → Option ℕ
at_ten date = some 10000

abbrev unset : Expiry
unset = record { expires_at = none; seconds = 0; expired = false; calls = 0 }

ten_minutes : format_remaining 605 ≡ codes "10:05"
unfolding format_remaining decimal
ten_minutes = refl

one_call : (ticks at_ten (9500 ∷ 10000 ∷ 11000 ∷ []) (begin at_ten (some "d") 8000 unset)).calls ≡ 1
unfolding ticks tick begin remaining_seconds
one_call = refl

begin-ticks_calls_example :
    (ticks at_ten (9500 ∷ 10000 ∷ 11000 ∷ []) (begin at_ten (some "d") 8000 unset)).calls
    ≡ unset.calls + (if is_reached (at_ten "d") (8000 ∷ 9500 ∷ 10000 ∷ 11000 ∷ []) then 1 else 0)
begin-ticks_calls_example = begin-ticks_calls at_ten "d" 8000 (9500 ∷ 10000 ∷ 11000 ∷ []) unset
