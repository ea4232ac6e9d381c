-- ===== src/Addresses/Tests.antt =====
-- An empty form is refused.
use coffix.Prelude.{◌≡◌, ◌↔◌, true, is_some}
use coffix.Addresses.{empty_address_form, to_address_create}
use coffix.Addresses.Laws.{IsComplete, to_address_create_iff}

to_address_create_iff_example :
    (is_some (to_address_create empty_address_form) ≡ true) ↔ IsComplete empty_address_form
to_address_create_iff_example = to_address_create_iff empty_address_form
