-- ===== src/Phone/Tests.antt =====
-- A number as it is typed.
use coffix.Prelude.{◌≡◌, refl, some, codes, is_digit}
use coffix.Phone.{is_local, normalize_israeli_phone}

typed_number : normalize_israeli_phone (codes "050-123 4567") ≡ some (codes "+972501234567")
unfolding normalize_israeli_phone is_local is_digit
typed_number = refl
