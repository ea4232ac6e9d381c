-- ===== src/Service/Submission.antt =====
-- mobile/src/features/service/submission.ts: which request of the server's list answers a submission
-- whose response was lost. `Date` is a parameter: the time of a text, or none where it is invalid.
pub mod Answers
pub mod Laws
mod Tests
use coffix.Prelude.{
  ℕ, Bool, true, false, not, ◌&&◌, ◌||◌, Option, none, some, List, [], ◌∷◌, Text, text_eq, codes,
  is_empty, String, lookup, filter, any, all, length, ltb, leb, ◌==◌,
}
use coffix.Api.{ApiError, problem, other}

pub data LocationMode : Type 0 where
  bring_in : LocationMode
  pickup : LocationMode

-- An address as an object: its keys, with a text or null.
abbrev pub AddressObject : Type 0
AddressObject = List (String × Option Text)

-- The fields of a request that are compared.
pub record ServiceRequest : Type 0 where
  pub id : Text
  pub machine_id : Text
  pub service_type_id : Text
  pub description : Text
  pub location_mode : LocationMode
  pub urgency_id : Option Text
  pub window_start : Option Text
  pub window_end : Option Text
  pub media : List (Text × Text)
  pub address_snapshot : AddressObject

-- `submission` of a draft and the machine of the draft; no window is `none` for both of its ends.
pub record Submission : Type 0 where
  pub draft_machine_id : Text
  pub existing_ids : List Text
  pub input_service_type_id : Text
  pub input_description : Text
  pub input_location_mode : LocationMode
  pub input_urgency_id : Option Text
  pub input_start : Option Text
  pub input_end : Option Text
  pub input_media_ids : List Text
  pub input_address : Option AddressObject

abbrev pub mode_eq : LocationMode → LocationMode → Bool
mode_eq bring_in bring_in = true
mode_eq pickup pickup = true
mode_eq _ _ = false

abbrev pub option_text_eq : Option Text → Option Text → Bool
option_text_eq none none = true
option_text_eq (some s) (some t) = text_eq s t
option_text_eq _ _ = false

-- `!input.urgency_id || item.urgency_id === input.urgency_id`
abbrev pub urgency_matches : Option Text → Option Text → Bool
urgency_matches none theirs = true
urgency_matches (some s) theirs = is_empty s || option_text_eq theirs (some s)

-- `===` of two times, of which NaN equals none.
abbrev pub same_time : Option ℕ → Option ℕ → Bool
same_time (some a) (some b) = a == b
same_time _ _ = false

abbrev pub field_matches : Option (Option Text) → Option Text → Bool
field_matches none value = false
field_matches (some own) value = option_text_eq own value

abbrev pub address_matches : AddressObject → Option AddressObject → Bool
address_matches snapshot none = true
address_matches snapshot (some address) =
    all (λ entry. field_matches (lookup entry.0 snapshot) entry.1) address

abbrev pub only : List ServiceRequest → Option ServiceRequest
only (item ∷ []) = some item
only _ = none

module _ (date : Text → Option ℕ) where
  -- `new Date(value ?? 0).getTime()`
  abbrev pub time_of : Option Text → Option ℕ
  time_of none = some 0
  time_of (some s) = date s

  unfoldable pub matches : Submission → ServiceRequest → Bool
  matches sub item =
      not (any (λ id. text_eq id item.id) sub.existing_ids)
      && text_eq item.machine_id sub.draft_machine_id
      && text_eq item.service_type_id sub.input_service_type_id
      && text_eq item.description sub.input_description
      && mode_eq item.location_mode sub.input_location_mode
      && urgency_matches sub.input_urgency_id item.urgency_id
      && same_time (time_of item.window_start) (time_of sub.input_start)
      && same_time (time_of item.window_end) (time_of sub.input_end)
      && all (λ id. any (λ media. text_eq media.0 id) item.media) sub.input_media_ids
      && (length (filter (λ media. text_eq media.1 (codes "issue")) item.media)
          == length sub.input_media_ids)
      && address_matches item.address_snapshot sub.input_address

  -- `items` is what `serviceApi.list` returned.
  unfoldable pub reconcile_submission :
      Option Submission → List ServiceRequest → Option ServiceRequest
  unfolding matches
  reconcile_submission none items = none
  reconcile_submission (some sub) items = only (filter (matches sub) items)

abbrev pub is_definite_rejection : ApiError → Bool
is_definite_rejection (problem p) =
    leb 400 p.status && ltb p.status 500 && not (p.status == 408 || p.status == 429)
is_definite_rejection other = false
