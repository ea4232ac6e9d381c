-- ===== src/Checkout/Server.antt =====
-- What the server has confirmed of the addresses, by its answers to the requests that the page makes.
use coffix.Prelude.{
  Bool, true, false, not, ◌&&◌, ◌||◌, Option, none, some, List, [], ◌∷◌, ◌++◌, Text, is_some,
  text_eq, ltb, length, first, if◌then◌else◌,
}
use coffix.Storage.{Outcome, ok, failed}
use coffix.Checkout.{Address, State, Event, saved, remove_settled, refetched, handle}

-- What the server has confirmed, and the requests that wait for its answers.
pub record Server : Type 0 where
  pub confirmed_addresses : List Address
  pub creating : Bool
  pub deleting : Option Text

abbrev pub opened : List Address → Server
opened addresses = record { confirmed_addresses = addresses; creating = false; deleting = none }

-- A deleted address is gone, and all others stay.
unfoldable pub drop_address : Text → List Address → List Address
drop_address id [] = []
drop_address id (address ∷ addresses) =
    let others = drop_address id addresses in
    if text_eq address.id id then others else address ∷ others

abbrev pub hear_saved : Bool → Outcome Address → Server → Server
hear_saved false outcome v = v
hear_saved true (ok created) v = record v {
  confirmed_addresses = v.confirmed_addresses ++ created ∷ [];
  creating = false;
}
hear_saved true failed v = record v { creating = false }

abbrev pub hear_removed : Option Text → Outcome (Unit {0}) → Server → Server
hear_removed none outcome v = v
hear_removed (some id) (ok answer) v = record v {
  confirmed_addresses = drop_address id v.confirmed_addresses;
  deleting = none;
}
hear_removed (some id) failed v = record v { deleting = none }

-- The answers of the server, each to the request that waits for it.
abbrev pub hear : Event → Server → Server
hear (saved outcome) v = hear_saved v.creating outcome v
hear (remove_settled outcome) v = hear_removed v.deleting outcome v
hear (refetched now) v = record v { confirmed_addresses = now }
hear event v = v

-- The requests that the page has made by a step.
abbrev pub notice : State → State → Server → Server
notice s s' v = record v {
  creating = v.creating || ltb (length s.creates) (length s'.creates);
  deleting = if ltb (length s.removed) (length s'.removed) then first s'.removed else v.deleting;
}

-- What the server has confirmed in the end, by its answers and by the requests that the page makes.
unfoldable pub confirmed : List Event → State → Server → Server
unfolding handle
confirmed [] s v = v
confirmed (event ∷ events) s v =
    confirmed events (handle event s) (notice s (handle event s) (hear event v))

-- The list changes while no removal waits for its answer.
abbrev pub is_apart : Event → Server → Bool
is_apart (saved (ok created)) v = not (is_some v.deleting)
is_apart (refetched now) v = not (is_some v.deleting)
is_apart event v = true

unfoldable pub are_apart : List Event → State → Server → Bool
unfolding handle
are_apart [] s v = true
are_apart (event ∷ events) s v =
    is_apart event v && are_apart events (handle event s) (notice s (handle event s) (hear event v))
