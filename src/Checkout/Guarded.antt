-- ===== src/Checkout/Guarded.antt =====
-- What the page of the delivery sends, and what it takes to the payment.
use coffix.Prelude.{
  ℕ, ◌-◌, ◌≤◌, ◌≡◌, ◌⊎◌, inl, inr, refl, ap, ◌∙◌, Bool, true, false, not, ◌&&◌, ◌||◌, Option, none,
  some, List, [], ◌∷◌, Text, is_empty, is_some, All, if_ind, arith,
}
use coffix.Storage.{Outcome, ok, failed}
use coffix.Addresses.{
  AddressForm, AddressCreate, has_errors, validate_address_form, to_address_create,
}
use coffix.Addresses.Laws.{IsComplete, has_errors_iff}
use coffix.Checkout.{
  is_removing, Address, Removal, State, initial, is_listed, selected_address_id, send_create,
  save_address, finish_save, on_saved, remove_from, on_removed, go_on, Event, save_pressed,
  continue_pressed, toggled, edited, chosen, saved, remove_pressed, remove_settled, refetched,
  handle, run,
}
use coffix.Checkout.Laws.{selected_address_id-listed}

-- What is sent to create an address is the conversion of a form without errors.
abbrev pub IsMade : AddressCreate → Type 0
IsMade input = (form : AddressForm) × IsComplete form × (to_address_create form ≡ some input)

abbrev pub IsShown : Text × List Address → Type 0
IsShown (id, shown) = (is_empty id ≡ false) × (is_listed id shown ≡ true)

abbrev one_if : Bool → ℕ
one_if true = 1
one_if false = 0

pub record IsGuarded (s : State) : Type 0 where
  pub one_create : s.open_creates ≡ one_if s.saving_address
  pub one_removal : s.open_removals ≡ one_if (is_some s.removing)
  pub made : All IsMade s.creates
  pub shown : All IsShown s.pushes

send_create-IsGuarded :
    (form : AddressForm) (input : Option AddressCreate) (s : State)
    → s.saving_address ≡ false
    → IsComplete form
    → to_address_create form ≡ input
    → IsGuarded s
    → IsGuarded (send_create input s)
send_create-IsGuarded form none s idle complete e h = record {
  one_create = h.one_create;
  one_removal = h.one_removal;
  made = h.made;
  shown = h.shown;
}
send_create-IsGuarded form (some input) s idle complete e h =
    let none_open : s.open_creates ≡ 0 = h.one_create ∙ ap one_if idle in
    record {
      one_create = omega arith;
      one_removal = h.one_removal;
      made = ((form, complete, e), h.made);
      shown = h.shown;
    }

save_address-IsGuarded : (s : State) → IsGuarded s → IsGuarded (save_address s)
save_address-IsGuarded s h =
    if_ind IsGuarded
      (not s.adding_address
        || s.saving_address
        || has_errors (validate_address_form s.address_form))
      _ _ (λ e. h)
      (λ e.
        send_create-IsGuarded s.address_form _ (record s { address_errors = [] })
          (ground (arith, e)) ((has_errors_iff s.address_form).0 (ground (arith, e))) refl
          (record {
            one_create = h.one_create;
            one_removal = h.one_removal;
            made = h.made;
            shown = h.shown;
          }))

saved-IsGuarded :
    (outcome : Outcome Address) (s : State) → IsGuarded s → IsGuarded (on_saved outcome s)
saved-IsGuarded outcome s h =
    if_ind IsGuarded s.saving_address _ _ (λ e. settled outcome e) (λ e. h)
  where
    settled :
        (outcome : Outcome Address)
        → s.saving_address ≡ true
        → IsGuarded (
            finish_save outcome
              (record s { saving_address = false; open_creates = s.open_creates - 1 }))
    settled (ok created) e = record {
      one_create = omega (arith, h.one_create ∙ ap one_if e);
      one_removal = h.one_removal;
      made = h.made;
      shown = h.shown;
    }
    settled failed e = record {
      one_create = omega (arith, h.one_create ∙ ap one_if e);
      one_removal = h.one_removal;
      made = h.made;
      shown = h.shown;
    }

remove_from-IsGuarded :
    (id : Text) (removing : Option Removal) (s : State)
    → s.removing ≡ removing
    → IsGuarded s
    → IsGuarded (remove_from id removing s)
remove_from-IsGuarded id (some removal) s e h = h
remove_from-IsGuarded id none s e h =
    if_ind IsGuarded (is_listed id s.addresses) _ _
      (λ listed. record {
        one_create = h.one_create;
        one_removal = omega (arith, h.one_removal ∙ ap (λ r. one_if (is_some r)) e);
        made = h.made;
        shown = h.shown;
      })
      (λ missing. h)

removed-IsGuarded :
    (removing : Option Removal) (outcome : Outcome (Unit {0})) (s : State)
    → s.removing ≡ removing
    → IsGuarded s
    → IsGuarded (on_removed removing outcome s)
removed-IsGuarded none outcome s e h = h
removed-IsGuarded (some removal) (ok answer) s e h = record {
  one_create = h.one_create;
  one_removal = omega (arith, h.one_removal ∙ ap (λ r. one_if (is_some r)) e);
  made = h.made;
  shown = h.shown;
}
removed-IsGuarded (some removal) failed s e h = record {
  one_create = h.one_create;
  one_removal = omega (arith, h.one_removal ∙ ap (λ r. one_if (is_some r)) e);
  made = h.made;
  shown = h.shown;
}

listed_of_full :
    (id : Text) (shown : List Address)
    → (is_empty id ≡ true) ⊎ (is_listed id shown ≡ true)
    → is_empty id ≡ false
    → is_listed id shown ≡ true
listed_of_full id shown (inl bare) full = cc
listed_of_full id shown (inr listed) full = listed

go_on-IsGuarded : (s : State) → IsGuarded s → IsGuarded (go_on s)
go_on-IsGuarded s h =
    let id = selected_address_id s.addresses s.chosen_address_id in
    if_ind IsGuarded (s.adding_address || is_empty id) _ _ (λ e. h)
      (λ e.
        let full : is_empty id ≡ false = ground (arith, e) in
        record {
          one_create = h.one_create;
          one_removal = h.one_removal;
          made = h.made;
          shown = (
            (
              full,
              listed_of_full id s.addresses
                  (selected_address_id-listed s.addresses s.chosen_address_id) full,
            ),
            h.shown,
          );
        })

handle-IsGuarded : (event : Event) (s : State) → IsGuarded s → IsGuarded (handle event s)
unfolding handle
handle-IsGuarded save_pressed s h = save_address-IsGuarded s h
handle-IsGuarded continue_pressed s h = go_on-IsGuarded s h
handle-IsGuarded toggled s h = record {
  one_create = h.one_create;
  one_removal = h.one_removal;
  made = h.made;
  shown = h.shown;
}
handle-IsGuarded (edited form) s h = record {
  one_create = h.one_create;
  one_removal = h.one_removal;
  made = h.made;
  shown = h.shown;
}
handle-IsGuarded (chosen id) s h =
    if_ind IsGuarded (is_listed id s.addresses && not (is_removing id s.removing)) _ _
      (λ e. record {
        one_create = h.one_create;
        one_removal = h.one_removal;
        made = h.made;
        shown = h.shown;
      })
      (λ e. h)
handle-IsGuarded (saved outcome) s h = saved-IsGuarded outcome s h
handle-IsGuarded (remove_pressed id) s h = remove_from-IsGuarded id s.removing s refl h
handle-IsGuarded (remove_settled outcome) s h = removed-IsGuarded s.removing outcome s refl h
handle-IsGuarded (refetched addresses) s h = record {
  one_create = h.one_create;
  one_removal = h.one_removal;
  made = h.made;
  shown = h.shown;
}

run-IsGuarded : (events : List Event) (s : State) → IsGuarded s → IsGuarded (run events s)
unfolding run
run-IsGuarded [] s h = h
run-IsGuarded (event ∷ events) s h =
    run-IsGuarded events (handle event s) (handle-IsGuarded event s h)

one_if-bound : (b : Bool) → one_if b ≤ 1
one_if-bound true = omega arith
one_if-bound false = omega arith

-- From the opening of the page with any addresses, whatever is pressed and typed and whatever the server
-- answers: at most one creation and one removal wait for their answers, every creation sends the
-- conversion of a form that is complete, and every address that is taken to the payment was then one of
-- the shown ones.
pub run_guards :
    (events : List Event) (addresses : List Address)
    → ((run events (initial addresses)).open_creates ≤ 1)
      × ((run events (initial addresses)).open_removals ≤ 1)
      × All IsMade (run events (initial addresses)).creates
      × All IsShown (run events (initial addresses)).pushes
run_guards events addresses =
    let h =
      run-IsGuarded events (initial addresses)
        (record { one_create = refl; one_removal = refl; made = tt; shown = tt }) in
    (
      omega (arith, h.one_create, one_if-bound (run events (initial addresses)).saving_address),
      omega
          (arith, h.one_removal, one_if-bound (is_some (run events (initial addresses)).removing)),
      h.made,
      h.shown,
    )
