-- ===== src/Phone.antt =====
-- mobile/src/features/auth/api.ts: `normalizeIsraeliPhone`, which gives a mobile number the form that
-- the server wants.
pub mod Laws
mod Tests
use coffix.Prelude.{
  ℕ, Bool, true, false, ◌&&◌, Option, none, some, List, [], ◌∷◌, ◌++◌, Text, codes, is_digit,
  filter, all, length, drop, ◌==◌, if◌then◌else◌,
}

-- `value.replace(/\D/g, '')`
abbrev pub digits_of : Text → Text
digits_of value = filter is_digit value

-- `/^05\d{8}$/`
unfoldable pub is_local : Text → Bool
is_local (a ∷ b ∷ rest) = (a == b'0') && (b == b'5') && all is_digit rest && (length rest == 8)
is_local _ = false

-- `/^9725\d{8}$/`
unfoldable pub is_international : Text → Bool
is_international (a ∷ b ∷ c ∷ d ∷ rest) =
    (a == b'9')
    && (b == b'7')
    && (c == b'2')
    && (d == b'5')
    && all is_digit rest
    && (length rest == 8)
is_international _ = false

abbrev pub normalize_digits : Text → Option Text
normalize_digits digits =
    if is_local digits
    then some (codes "+972" ++ drop 1 digits)
    else if is_international digits
    then some (b'+' ∷ digits)
    else none

unfoldable pub normalize_israeli_phone : Text → Option Text
normalize_israeli_phone value = normalize_digits (digits_of value)
