-- ===== src/Checkout/Tests.antt =====
-- A user with two addresses, who adds a third one.
use coffix.Prelude.{
  ◌≤◌, ◌≡◌, refl, true, false, none, some, List, [], ◌∷◌, codes, text_eq, is_digit, trim, All,
}
use coffix.Storage.{ok}
use coffix.Phone.{is_local, normalize_israeli_phone}
use coffix.Addresses.{AddressForm, validate_address_form, to_address_create}
use coffix.Checkout.{
  Address, State, is_listed, selected_address_id, Event, save_pressed, continue_pressed, toggled,
  edited, saved, remove_pressed, remove_settled, initial, handle, run,
}
use coffix.Checkout.Guarded.{IsMade, IsShown, run_guards}
use coffix.Checkout.Server.{opened, are_apart, confirmed}
use coffix.Checkout.Confirmed.{run_confirmed}
use coffix.Checkout.Lost.{saved_lost}

abbrev home : Address
home = record { id = codes "h"; is_default = true }

abbrev work : Address
work = record { id = codes "w"; is_default = false }

abbrev third : Address
third = record { id = codes "t"; is_default = false }

abbrev filled : AddressForm
filled = record {
  apartment = [];
  building = codes "3";
  city = codes "Haifa";
  is_default = false;
  phone = codes "0501234567";
  postal_code = [];
  recipient_name = codes "Dana";
  street = codes "Herzl";
}

-- The third address is saved by the first of two presses and is taken to the payment; then another is removed.
abbrev adding : List Event
adding =
    toggled
    ∷ edited filled
    ∷ save_pressed
    ∷ save_pressed
    ∷ saved (ok third)
    ∷ continue_pressed
    ∷ remove_pressed (codes "h")
    ∷ remove_settled (ok tt)
    ∷ []

adding_lem :
    ((run adding (initial (home ∷ work ∷ []))).addresses ≡ work ∷ third ∷ [])
    × ((run adding (initial (home ∷ work ∷ []))).pushes
        ≡ (codes "t", home ∷ work ∷ third ∷ []) ∷ [])
unfolding run handle validate_address_form to_address_create normalize_israeli_phone is_local
    is_digit trim text_eq selected_address_id
adding_lem = (refl, refl)

run_guards_example :
    ((run adding (initial (home ∷ work ∷ []))).open_creates ≤ 1)
    × ((run adding (initial (home ∷ work ∷ []))).open_removals ≤ 1)
    × All IsMade (run adding (initial (home ∷ work ∷ []))).creates
    × All IsShown (run adding (initial (home ∷ work ∷ []))).pushes
run_guards_example = run_guards adding (home ∷ work ∷ [])

run_confirmed_example :
    (run adding (initial (home ∷ work ∷ []))).addresses
    ≡ (confirmed adding
        (initial (home ∷ work ∷ []))
        (opened (home ∷ work ∷ []))).confirmed_addresses
unfolding are_apart validate_address_form trim is_local is_digit to_address_create
    normalize_israeli_phone
run_confirmed_example = run_confirmed adding (home ∷ work ∷ []) refl

abbrev removing_home : State
removing_home = record (initial (home ∷ [])) {
  saving_address = true;
  removing = some (record { removed_id = codes "h"; seen = home ∷ []; seen_selected = codes "h" });
}

saved_lost_example :
    (is_listed (codes "t") (run (saved (ok third) ∷ []) removing_home).addresses ≡ true)
    × (is_listed
          (codes "t")
          (run (saved (ok third) ∷ remove_settled (ok tt) ∷ []) removing_home).addresses
        ≡ false)
    × ((run (saved (ok third) ∷ remove_settled (ok tt) ∷ []) removing_home).removing ≡ none)
unfolding text_eq
saved_lost_example =
    saved_lost third
      (record { removed_id = codes "h"; seen = home ∷ []; seen_selected = codes "h" }) removing_home
      refl refl refl
