-- ===== src/Addresses.antt =====
-- mobile/src/features/addresses/form.ts: the address form, its validation and its conversion. The
-- Hebrew messages are constructors.
pub mod Laws
mod Tests
use coffix.Prelude.{
  ℕ, Bool, true, false, not, ◌&&◌, ◌||◌, Option, none, some, List, [], ◌∷◌, ◌++◌, Text, codes,
  is_empty, is_digit, trim, all, ◌==◌, if◌then◌else◌, length,
}
use coffix.Phone.{is_local, normalize_israeli_phone}

pub record AddressForm : Type 0 where
  pub apartment : Text
  pub building : Text
  pub city : Text
  pub is_default : Bool
  pub phone : Text
  pub postal_code : Text
  pub recipient_name : Text
  pub street : Text

abbrev pub empty_address_form : AddressForm
empty_address_form = record {
  apartment = [];
  building = [];
  city = [];
  is_default = false;
  phone = [];
  postal_code = [];
  recipient_name = [];
  street = [];
}

pub data AddressField : Type 0 where
  recipient_name_field : AddressField
  phone_field : AddressField
  postal_code_field : AddressField
  street_field : AddressField
  building_field : AddressField
  city_field : AddressField

pub data AddressMessage : Type 0 where
  recipient_name_missing : AddressMessage
  phone_invalid : AddressMessage
  postal_code_invalid : AddressMessage
  street_missing : AddressMessage
  building_missing : AddressMessage
  city_missing : AddressMessage

-- The fields with an error, in the order in which they were set.
abbrev pub AddressFormErrors : Type 0
AddressFormErrors = List (AddressField × AddressMessage)

abbrev pub error_if : Bool → AddressField → AddressMessage → AddressFormErrors → AddressFormErrors
error_if wrong field message errors = if wrong then errors ++ (field, message) ∷ [] else errors

-- `!value.trim()`
abbrev pub is_blank : Text → Bool
is_blank value = is_empty (trim value)

unfoldable pub validate_address_form : AddressForm → AddressFormErrors
validate_address_form values = error_if (is_blank values.city) city_field city_missing (
    error_if (is_blank values.building) building_field building_missing (
      error_if (is_blank values.street) street_field street_missing (
        error_if (not (all is_digit values.postal_code)) postal_code_field postal_code_invalid (
          error_if (not (is_local values.phone)) phone_field phone_invalid (
            error_if (is_blank values.recipient_name) recipient_name_field recipient_name_missing
              [])))))

-- What is sent to the server; the country is always IL.
pub record AddressCreate : Type 0 where
  pub created_apartment : Option Text
  pub created_building : Text
  pub created_city : Text
  pub country : Text
  pub created_default : Bool
  pub created_phone : Text
  pub created_postal_code : Option Text
  pub created_recipient_name : Text
  pub created_street : Text

-- `value.trim() || null`
abbrev pub trimmed_or_none : Text → Option Text
trimmed_or_none value = if is_blank value then none else some (trim value)

abbrev pub address_of : AddressForm → Text → AddressCreate
address_of values phone = record {
  created_apartment = trimmed_or_none values.apartment;
  created_building = trim values.building;
  created_city = trim values.city;
  country = codes "IL";
  created_default = values.is_default;
  created_phone = phone;
  created_postal_code = trimmed_or_none values.postal_code;
  created_recipient_name = trim values.recipient_name;
  created_street = trim values.street;
}

abbrev pub has_errors : AddressFormErrors → Bool
has_errors [] = false
has_errors (error ∷ errors) = true

abbrev pub create_with : AddressForm → AddressFormErrors → Option Text → Option AddressCreate
create_with values errors none = none
create_with values errors (some phone) =
    if is_empty phone || has_errors errors then none else some (address_of values phone)

-- `none` is the exception.
unfoldable pub to_address_create : AddressForm → Option AddressCreate
to_address_create values =
    create_with values (validate_address_form values) (normalize_israeli_phone values.phone)
