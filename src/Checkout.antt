-- ===== src/Checkout.antt =====
-- mobile/app/(tabs)/(shop)/checkout.tsx: the addresses of the page of the delivery, `saveAddress`,
-- `removeAddress` and the step to the payment. The handlers of a press are those of the last rendering,
-- so `removeAddress` keeps the list and the choice that it was pressed with until the server answers.
pub mod Laws
pub mod Server
pub mod Confirmed
pub mod Guarded
pub mod Lost
mod Tests
use coffix.Prelude.{
  ℕ, ◌+◌, ◌-◌, Bool, true, false, not, ◌&&◌, ◌||◌, Option, none, some, List, [], ◌∷◌, ◌++◌, Text,
  text_eq, is_empty, any, find, first, filter, or_option, if◌then◌else◌,
}
use coffix.Storage.{Outcome, ok, failed}
use coffix.Addresses.{
  AddressForm, AddressFormErrors, AddressCreate, has_errors, validate_address_form,
  to_address_create, empty_address_form,
}

-- The fields of a saved address by which the page chooses.
pub record Address : Type 0 where
  pub id : Text
  pub is_default : Bool

pub data AddressNote : Type 0 where
  no_note not_saved not_removed : AddressNote

-- What a removal was pressed with.
pub record Removal : Type 0 where
  pub removed_id : Text
  pub seen : List Address
  pub seen_selected : Text

-- `creates` and `removed` are the requests that were made, the last one first, and `pushes` the addresses
-- that were taken to the payment, each with the addresses that were then shown.
pub record State : Type 0 where
  pub addresses : List Address
  pub adding_address : Bool
  pub address_form : AddressForm
  pub address_errors : AddressFormErrors
  pub address_note : AddressNote
  pub removing : Option Removal
  pub saving_address : Bool
  pub chosen_address_id : Text
  pub creates : List AddressCreate
  pub removed : List Text
  pub open_creates : ℕ
  pub open_removals : ℕ
  pub pushes : List (Text × List Address)

-- The page when it is opened, with the addresses that the server has.
abbrev pub initial : List Address → State
initial addresses = record {
  addresses = addresses;
  adding_address = false;
  address_form = empty_address_form;
  address_errors = [];
  address_note = no_note;
  removing = none;
  saving_address = false;
  chosen_address_id = [];
  creates = [];
  removed = [];
  open_creates = 0;
  open_removals = 0;
  pushes = [];
}

abbrev pub has_id : Text → Address → Bool
has_id id address = text_eq address.id id

abbrev pub is_listed : Text → List Address → Bool
is_listed id addresses = any (has_id id) addresses

abbrev pub id_or_empty : Option Address → Text
id_or_empty none = []
id_or_empty (some address) = address.id

-- The default address, or the first one.
abbrev pub fallback_id : List Address → Text
fallback_id addresses =
    id_or_empty
      (or_option (find (λ (address : Address). address.is_default) addresses) (first addresses))

unfoldable pub selected_address_id : List Address → Text → Text
selected_address_id addresses chosen =
    if is_listed chosen addresses then chosen else fallback_id addresses

abbrev pub send_create : Option AddressCreate → State → State
send_create none s = record s { address_note = not_saved }
send_create (some input) s = record s {
  saving_address = true;
  address_note = no_note;
  creates = input ∷ s.creates;
  open_creates = s.open_creates + 1;
}

-- `saveAddress` until its request; the conversion throws only where the form has errors.
abbrev pub save_address : State → State
save_address s =
    if not s.adding_address || s.saving_address || has_errors (validate_address_form s.address_form)
    then s
    else send_create (to_address_create s.address_form) (record s { address_errors = [] })

abbrev pub add_created : Address → State → State
add_created created s = record s {
  addresses = s.addresses ++ created ∷ [];
  chosen_address_id = created.id;
  adding_address = false;
  address_form = empty_address_form;
  address_errors = [];
}

abbrev pub finish_save : Outcome Address → State → State
finish_save (ok created) s = add_created created s
finish_save failed s = record s { address_note = not_saved }

-- The request of `saveAddress` settles.
abbrev pub on_saved : Outcome Address → State → State
on_saved outcome s =
    if s.saving_address
    then finish_save outcome
        (record s { saving_address = false; open_creates = s.open_creates - 1 })
    else s

abbrev pub send_removal : Text → State → State
send_removal id s = record s {
  removing = some (record {
    removed_id = id;
    seen = s.addresses;
    seen_selected = selected_address_id s.addresses s.chosen_address_id;
  });
  address_note = no_note;
  removed = id ∷ s.removed;
  open_removals = s.open_removals + 1;
}

-- `removeAddress` of a shown address until its request.
abbrev pub remove_from : Text → Option Removal → State → State
remove_from id (some removal) s = s
remove_from id none s = if is_listed id s.addresses then send_removal id s else s

abbrev pub without : Text → List Address → List Address
without id addresses = filter (λ address. not (has_id id address)) addresses

abbrev pub finish_removal : Removal → Outcome (Unit {0}) → State → State
finish_removal removal (ok answer) s = record s {
  addresses = without removal.removed_id removal.seen;
  chosen_address_id =
      if text_eq removal.seen_selected removal.removed_id
      then fallback_id (without removal.removed_id removal.seen)
      else s.chosen_address_id;
}
finish_removal removal failed s = record s { address_note = not_removed }

-- The request of `removeAddress` settles.
abbrev pub on_removed : Option Removal → Outcome (Unit {0}) → State → State
on_removed none outcome s = s
on_removed (some removal) outcome s =
    finish_removal removal outcome
      (record s { removing = none; open_removals = s.open_removals - 1 })

-- The button to the payment, which is shown while no address is added.
abbrev pub go_on : State → State
go_on s =
    if s.adding_address || is_empty (selected_address_id s.addresses s.chosen_address_id)
    then s
    else record s {
      pushes = (selected_address_id s.addresses s.chosen_address_id, s.addresses) ∷ s.pushes;
    }

pub data Event : Type 0 where
  save_pressed continue_pressed toggled : Event
  edited : AddressForm → Event
  chosen : Text → Event
  saved : Outcome Address → Event
  remove_pressed : Text → Event
  remove_settled : Outcome (Unit {0}) → Event
  refetched : List Address → Event

abbrev pub is_removing : Text → Option Removal → Bool
is_removing id none = false
is_removing id (some removal) = text_eq removal.removed_id id

-- A shown address is chosen, unless it is being removed.
abbrev pub choose : Text → State → State
choose id s =
    if is_listed id s.addresses && not (is_removing id s.removing)
    then record s { chosen_address_id = id }
    else s

unfoldable pub handle : Event → State → State
handle save_pressed s = save_address s
handle continue_pressed s = go_on s
handle toggled s = record s {
  adding_address = not s.adding_address;
  address_errors = [];
  address_note = no_note;
}
handle (edited form) s = record s { address_form = form }
handle (chosen id) s = choose id s
handle (saved outcome) s = on_saved outcome s
handle (remove_pressed id) s = remove_from id s.removing s
handle (remove_settled outcome) s = on_removed s.removing outcome s
handle (refetched addresses) s = record s { addresses = addresses }

unfoldable pub run : List Event → State → State
unfolding handle
run [] s = s
run (event ∷ events) s = run events (handle event s)
