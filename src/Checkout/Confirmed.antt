-- ===== src/Checkout/Confirmed.antt =====
-- The shown addresses are those that the server has confirmed.
use coffix.Prelude.{
  ◌-◌, ◌≡◌, refl, ap, ◌∙◌, subst, Bool, true, false, not, ◌&&◌, ◌||◌, Option, none, some, List, [],
  ◌∷◌, ◌++◌, Text, is_some, is_empty, text_eq, length, Bool-cases, inl, inr, if_ind, if◌then◌else◌,
  arith,
}
use coffix.Storage.{Outcome, ok, failed}
use coffix.Addresses.{AddressCreate, has_errors, validate_address_form, to_address_create}
use coffix.Checkout.{
  is_removing, Address, Removal, State, initial, is_listed, selected_address_id, send_create,
  save_address, finish_save, add_created, remove_from, without, on_removed, Event, save_pressed,
  continue_pressed, toggled, edited, chosen, saved, remove_pressed, remove_settled, refetched,
  handle, run,
}
use coffix.Checkout.Server.{
  Server, opened, drop_address, hear_saved, hear_removed, hear, notice, confirmed, is_apart,
  are_apart,
}

-- A removal that waits has seen the shown addresses.
abbrev HasSeen : Option Removal → List Address → Type 0
HasSeen none addresses = Unit
HasSeen (some removal) addresses = removal.seen ≡ addresses

abbrev id_of : Option Removal → Option Text
id_of none = none
id_of (some removal) = some removal.removed_id

-- The page shows what is confirmed, and waits for what the server has been asked.
record IsConfirmed (v : Server) (s : State) : Type 0 where
  same : s.addresses ≡ v.confirmed_addresses
  saving : v.creating ≡ s.saving_address
  deletes : v.deleting ≡ id_of s.removing
  seen : HasSeen s.removing s.addresses

-- What a step keeps.
abbrev Follows : State → Server → State → Type 0
Follows s v s' = IsConfirmed (notice s s' v) s'

drop_address-eq-without :
    (id : Text) (addresses : List Address) → without id addresses ≡ drop_address id addresses
unfolding drop_address
drop_address-eq-without id [] = refl
drop_address-eq-without id (address ∷ addresses) = elim (Bool-cases (text_eq address.id id)) [
  | inl same ↦ rw same (drop_address-eq-without id addresses)
  | inr other ↦ rw other (ap (λ more. address ∷ more) (drop_address-eq-without id addresses))
]

-- A step that makes no request.
quiet-Follows :
    (s s' : State) (v : Server)
    → s'.creates ≡ s.creates
    → s'.removed ≡ s.removed
    → IsConfirmed v s'
    → Follows s v s'
quiet-Follows s s' v same_creates same_removed h = record {
  same = h.same;
  saving = ground (arith, ap length same_creates, h.saving);
  deletes = ground (arith, ap length same_removed, h.deletes);
  seen = h.seen;
}

still : (v : Server) (s : State) → IsConfirmed v s → Follows s v s
still v s h = quiet-Follows s s v refl refl h

not_removing :
    (deleting : Option Text) (removing : Option Removal) (addresses : List Address)
    → deleting ≡ id_of removing
    → not (is_some deleting) ≡ true
    → HasSeen removing addresses
not_removing deleting none addresses e apart = tt
not_removing none (some removal) addresses e apart = cc
not_removing (some id) (some removal) addresses e apart = cc

send_create-Follows :
    (input : Option AddressCreate) (v : Server) (s : State)
    → IsConfirmed v s
    → Follows s v (send_create input (record s { address_errors = [] }))
send_create-Follows none v s h =
    quiet-Follows s (send_create none (record s { address_errors = [] })) v refl refl
      (record { same = h.same; saving = h.saving; deletes = h.deletes; seen = h.seen })
send_create-Follows (some input) v s h = record {
  same = h.same;
  saving = ground arith;
  deletes = ground (arith, h.deletes);
  seen = h.seen;
}

save_address-Follows : (v : Server) (s : State) → IsConfirmed v s → Follows s v (save_address s)
save_address-Follows v s h =
    if_ind (Follows s v)
      (not s.adding_address
        || s.saving_address
        || has_errors (validate_address_form s.address_form))
      _ _ (λ e. still v s h) (λ e. send_create-Follows (to_address_create s.address_form) v s h)

saved-Follows :
    (outcome : Outcome Address) (creating saving : Bool) (v : Server) (s : State)
    → creating ≡ saving
    → is_apart (saved outcome) v ≡ true
    → IsConfirmed v s
    → Follows s (hear_saved creating outcome v) (
        if saving
        then finish_save outcome
            (record s { saving_address = false; open_creates = s.open_creates - 1 })
        else s)
saved-Follows outcome false false v s e apart h = still v s h
saved-Follows outcome false true v s e apart h = cc
saved-Follows outcome true false v s e apart h = cc
saved-Follows (ok created) true true v s e apart h =
    quiet-Follows s
      (add_created created (record s { saving_address = false; open_creates = s.open_creates - 1 }))
      (hear_saved true (ok created) v) refl refl
      (record {
        same = ap (λ a. a ++ created ∷ []) h.same;
        saving = refl;
        deletes = h.deletes;
        seen = not_removing v.deleting s.removing (s.addresses ++ created ∷ []) h.deletes apart;
      })
saved-Follows failed true true v s e apart h =
    quiet-Follows s
      (finish_save failed (record s { saving_address = false; open_creates = s.open_creates - 1 }))
      (hear_saved true failed v) refl refl
      (record { same = h.same; saving = refl; deletes = h.deletes; seen = h.seen })

removed-Follows :
    (outcome : Outcome (Unit {0})) (deleting : Option Text) (removing : Option Removal) (v : Server)
    (s : State)
    → s.removing ≡ removing
    → deleting ≡ id_of removing
    → IsConfirmed v s
    → Follows s (hear_removed deleting outcome v) (on_removed removing outcome s)
removed-Follows outcome none none v s r e h = still v s h
removed-Follows outcome (some id) none v s r e h = cc
removed-Follows outcome none (some removal) v s r e h = cc
removed-Follows (ok answer) (some id) (some removal) v s r e h =
    let seen : removal.seen ≡ s.addresses = subst (λ r. HasSeen r s.addresses) r h.seen in
    quiet-Follows s (on_removed (some removal) (ok answer) s) (hear_removed (some id) (ok answer) v)
      refl refl
      (record {
        same =
            drop_address-eq-without removal.removed_id removal.seen
            ∙ ap (drop_address removal.removed_id) (seen ∙ h.same)
            ∙ ap (λ gone. drop_address gone v.confirmed_addresses) (cc);
        saving = h.saving;
        deletes = refl;
        seen = tt;
      })
removed-Follows failed (some id) (some removal) v s r e h =
    quiet-Follows s (on_removed (some removal) failed s) (hear_removed (some id) failed v) refl refl
      (record { same = h.same; saving = h.saving; deletes = refl; seen = tt })

remove_from-Follows :
    (id : Text) (removing : Option Removal) (v : Server) (s : State)
    → IsConfirmed v s
    → Follows s v (remove_from id removing s)
remove_from-Follows id (some removal) v s h = still v s h
remove_from-Follows id none v s h =
    if_ind (Follows s v) (is_listed id s.addresses) _ _
      (λ listed. record {
        same = h.same;
        saving = ground (arith, h.saving);
        deletes = ground arith;
        seen = refl;
      })
      (λ missing. still v s h)

handle-Follows :
    (event : Event) (v : Server) (s : State)
    → is_apart event v ≡ true
    → IsConfirmed v s
    → Follows s (hear event v) (handle event s)
unfolding handle
handle-Follows save_pressed v s e h = save_address-Follows v s h
handle-Follows continue_pressed v s e h =
    let idle = still v s h in
    if_ind (Follows s v)
      (s.adding_address || is_empty (selected_address_id s.addresses s.chosen_address_id)) s
      (record s {
        pushes = (selected_address_id s.addresses s.chosen_address_id, s.addresses) ∷ s.pushes;
      })
      (λ stop. still v s h)
      (λ go. record { same = h.same; saving = idle.saving; deletes = idle.deletes; seen = h.seen })
handle-Follows toggled v s e h =
    let idle = still v s h in
    record { same = h.same; saving = idle.saving; deletes = idle.deletes; seen = h.seen }
handle-Follows (edited form) v s e h =
    let idle = still v s h in
    record { same = h.same; saving = idle.saving; deletes = idle.deletes; seen = h.seen }
handle-Follows (chosen id) v s e h =
    let idle = still v s h in
    if_ind (Follows s v) (is_listed id s.addresses && not (is_removing id s.removing))
      (record s { chosen_address_id = id }) s
      (λ listed. record {
        same = h.same;
        saving = idle.saving;
        deletes = idle.deletes;
        seen = h.seen;
      })
      (λ missing. still v s h)
handle-Follows (saved outcome) v s e h =
    saved-Follows outcome v.creating s.saving_address v s h.saving e h
handle-Follows (remove_pressed id) v s e h = remove_from-Follows id s.removing v s h
handle-Follows (remove_settled outcome) v s e h =
    removed-Follows outcome v.deleting s.removing v s refl h.deletes h
handle-Follows (refetched now) v s e h =
    quiet-Follows s (record s { addresses = now }) (record v { confirmed_addresses = now }) refl
      refl
      (record {
        same = refl;
        saving = h.saving;
        deletes = h.deletes;
        seen = not_removing v.deleting s.removing now h.deletes e;
      })

run-IsConfirmed :
    (events : List Event) (v : Server) (s : State)
    → are_apart events s v ≡ true
    → IsConfirmed v s
    → (run events s).addresses ≡ (confirmed events s v).confirmed_addresses
unfolding run confirmed are_apart
run-IsConfirmed [] v s e h = h.same
run-IsConfirmed (event ∷ events) v s e h =
    run-IsConfirmed events (notice s (handle event s) (hear event v)) (handle event s)
      (ground (arith, e)) (handle-Follows event v s (ground (arith, e)) h)

-- Where no address is added and no list is fetched while a removal waits for its answer, the shown
-- addresses are those that the server has confirmed, from any addresses that the page is opened with
-- and whatever else is pressed, typed and answered: a created address is the last one, a deleted one is
-- gone and the others stay, a refused request changes nothing, and a fetched list replaces all.
pub run_confirmed :
    (events : List Event) (addresses : List Address)
    → are_apart events (initial addresses) (opened addresses) ≡ true
    → (run events (initial addresses)).addresses
      ≡ (confirmed events (initial addresses) (opened addresses)).confirmed_addresses
run_confirmed events addresses apart =
    run-IsConfirmed events (opened addresses) (initial addresses) apart
      (record { same = refl; saving = refl; deletes = refl; seen = tt })
