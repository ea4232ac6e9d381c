-- ===== src/Addresses/Laws.antt =====
-- Which address forms can be sent, and what is sent.
use coffix.Prelude.{
  ◌≡◌, ◌↔◌, refl, ap, ◌∙◌, Bool, true, false, not, ◌||◌, Option, none, some, [], ◌∷◌, ◌++◌, Text,
  codes, is_digit, all, drop, is_some, arith,
}
use coffix.Phone.{is_local, normalize_israeli_phone}
use coffix.Phone.Laws.{local-normalized}
use coffix.Addresses.{
  AddressForm, AddressField, AddressMessage, AddressFormErrors, error_if, is_blank,
  validate_address_form, address_of, has_errors, create_with, to_address_create,
}

-- What the form asks for.
pub record IsComplete (values : AddressForm) : Type 0 where
  pub named : is_blank values.recipient_name ≡ false
  pub reachable : is_local values.phone ≡ true
  pub postal : all is_digit values.postal_code ≡ true
  pub on_street : is_blank values.street ≡ false
  pub numbered : is_blank values.building ≡ false
  pub in_city : is_blank values.city ≡ false

has_errors-error_if :
    (wrong : Bool) (field : AddressField) (message : AddressMessage) (errors : AddressFormErrors)
    → has_errors (error_if wrong field message errors) ≡ (wrong || has_errors errors)
has_errors-error_if true field message [] = refl
has_errors-error_if true field message (e ∷ errors) = refl
has_errors-error_if false field message errors = refl

next_error :
    (wrong rest : Bool) (field : AddressField) (message : AddressMessage)
    (errors : AddressFormErrors)
    → has_errors errors ≡ rest
    → has_errors (error_if wrong field message errors) ≡ (wrong || rest)
next_error wrong rest field message errors e =
    has_errors-error_if wrong field message errors ∙ ap (λ b. wrong || b) e

has_errors-validate_address_form :
    (values : AddressForm)
    → has_errors (validate_address_form values) ≡ (
        is_blank values.city
        || (is_blank values.building
            || (is_blank values.street
                || (not (all is_digit values.postal_code)
                    || (not (is_local values.phone)
                        || (is_blank values.recipient_name || false))))))
unfolding validate_address_form
has_errors-validate_address_form values = next_error (is_blank values.city) _ _ _ _ (
    next_error (is_blank values.building) _ _ _ _ (
      next_error (is_blank values.street) _ _ _ _ (
        next_error (not (all is_digit values.postal_code)) _ _ _ _ (
          next_error (not (is_local values.phone)) _ _ _ _
            (next_error (is_blank values.recipient_name) _ _ _ [] refl)))))

-- A form has no error exactly when every required part is there and the digits are digits.
pub has_errors_iff :
    (values : AddressForm) → (has_errors (validate_address_form values) ≡ false) ↔ IsComplete values
has_errors_iff values =
    let parts = has_errors-validate_address_form values in
    (
      λ none_wrong. record {
        named = ground (arith, parts);
        reachable = ground (arith, parts);
        postal = ground (arith, parts);
        on_street = ground (arith, parts);
        numbered = ground (arith, parts);
        in_city = ground (arith, parts);
      },
      λ complete. ground (
        arith, parts, complete.named, complete.reachable, complete.postal, complete.on_street,
        complete.numbered, complete.in_city,
      ),
    )

-- A complete form is converted, to its trimmed parts with the phone in the international form.
pub to_address_create_complete :
    (values : AddressForm)
    → IsComplete values
    → to_address_create values ≡ some (address_of values (codes "+972" ++ drop 1 values.phone))
unfolding to_address_create
to_address_create_complete values complete =
    rw (local-normalized values.phone complete.reachable, (has_errors_iff values).1 complete)

-- A form is converted exactly when it is complete; any other form is an exception.
pub to_address_create_iff :
    (values : AddressForm) → (is_some (to_address_create values) ≡ true) ↔ IsComplete values
unfolding to_address_create
to_address_create_iff values = (
  λ made.
      (has_errors_iff values).0
        (without_errors (validate_address_form values) (normalize_israeli_phone values.phone) made),
  λ complete.
      rw (local-normalized values.phone complete.reachable, (has_errors_iff values).1 complete),
)
  where
    without_errors :
        (errors : AddressFormErrors) (phone : Option Text)
        → is_some (create_with values errors phone) ≡ true
        → has_errors errors ≡ false
    without_errors errors none made = cc
    without_errors errors (some phone) made = ground arith
