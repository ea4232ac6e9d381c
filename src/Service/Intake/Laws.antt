-- ===== src/Service/Intake/Laws.antt =====
-- What an input that `intakeInput` returns has.
use coffix.Prelude.{
  ℕ, ◌≤◌, ◌<◌, min, ◌≡◌, ◌⊎◌, refl, sym, subst, true, false, not, ◌&&◌, Option, none, some, List,
  [], ◌∷◌, Text, text_eq, is_some, is_empty, length, All, leb, ltb, if◌then◌else◌, if_ind, inl, inr,
  arith,
}
use coffix.Addresses.{AddressCreate, has_errors, validate_address_form, to_address_create}
use coffix.Service.Submission.{LocationMode, bring_in, pickup}
use coffix.Service.Intake.{
  ServiceCreate, IntakeDraft, Checked, valid, invalid, includes_id, unique_from, is_description,
  input_of, with_form, with_address, window_of, with_window, intake_input,
}

-- What a returned input has, and nothing where the check throws.
abbrev Returned : (ServiceCreate → Type 0) → Checked ServiceCreate → Type 0
Returned P (invalid error) = Unit
Returned P (valid input) = P input

abbrev pub AreDistinct : List Text → Type 0
AreDistinct [] = Unit
AreDistinct (id ∷ ids) = All (λ other. text_eq id other ≡ false) ids × AreDistinct ids

weaken_seen :
    (id : Text) (seen ids : List Text)
    → All (λ other. includes_id (id ∷ seen) other ≡ false) ids
    → All (λ other. text_eq id other ≡ false) ids
      × All (λ other. includes_id seen other ≡ false) ids
weaken_seen id seen [] h = (tt, tt)
weaken_seen id seen (other ∷ ids) h =
    let rest = weaken_seen id seen ids h.1 in
    let first = h.0 in ((ground arith, rest.0), (ground arith, rest.1))

unique_from-AreDistinct :
    (seen ids : List Text)
    → All (λ other. includes_id seen other ≡ false) (unique_from seen ids)
      × AreDistinct (unique_from seen ids)
unique_from-AreDistinct seen [] = (tt, tt)
unique_from-AreDistinct seen (id ∷ ids) =
    if_ind (λ kept. All (λ other. includes_id seen other ≡ false) kept × AreDistinct kept)
      (includes_id seen id) _ _ (λ e. unique_from-AreDistinct seen ids)
      (λ e.
        let rest = unique_from-AreDistinct (id ∷ seen) ids in
        let weaker = weaken_seen id seen (unique_from (id ∷ seen) ids) rest.0 in
        ((e, weaker.1), (weaker.0, rest.1)))

length-unique_from : (seen ids : List Text) → length (unique_from seen ids) ≤ length ids
length-unique_from seen [] = omega arith
length-unique_from seen (id ∷ ids) =
    let skipped = length-unique_from seen ids in
    let taken = length-unique_from (id ∷ seen) ids in
    if_ind (λ kept. length kept ≤ length (id ∷ ids)) (includes_id seen id) _ _ (λ e. omega arith)
      (λ e. omega arith)

-- The parts of an input that the server is given for a place and a time.
abbrev pub HasPlace : LocationMode → Option Text → Option AddressCreate → Type 0
HasPlace bring_in id address = (id ≡ none) × (address ≡ none)
HasPlace pickup id address = (is_some id ≡ true) ⊎ (is_some address ≡ true)

abbrev pub IsWindow : Option (ℕ × ℕ) → Type 0
IsWindow none = Unit
IsWindow (some (start, end)) = start < end

pub record IsAcceptable (supported : List Text) (input : ServiceCreate) : Type 0 where
  pub supports : includes_id supported input.service_type_id ≡ true
  pub urgent : is_empty input.urgency_id ≡ false
  pub described : (10 ≤ length input.description) × (length input.description ≤ 4000)
  pub few : length input.media_ids ≤ 5
  pub distinct : AreDistinct input.media_ids
  pub place : HasPlace input.location_mode input.address_id input.address
  pub window : IsWindow input.preferred_window

urgent_lem :
    (id other : Text)
    → is_empty other ≡ false
    → is_empty (if is_empty id then other else id) ≡ false
urgent_lem id other e =
    if_ind (λ text. is_empty text ≡ false) (is_empty id) _ _ (λ _. e) (λ kept. kept)

-- An input with a place, and without a window so far.
abbrev IsPlaced : List Text → ServiceCreate → Type 0
IsPlaced supported input = IsAcceptable supported input × (input.preferred_window ≡ none)

-- The input of the draft, before it has a place.
module _ (draft : IntakeDraft) (supported : List Text)
    (supports : includes_id supported draft.service_type_id ≡ true)
    (described : is_description draft.description ≡ true) (few : length draft.media ≤ 5) where
  input_of-IsPlaced :
      (id : Option Text) (address : Option AddressCreate)
      → HasPlace draft.location_mode id address
      → IsPlaced supported (record (input_of draft) { address_id = id; address = address })
  input_of-IsPlaced id address place = (
    record {
      supports = supports;
      urgent = urgent_lem draft.urgency_id _ refl;
      described = ground (arith, described);
      few = let kept = length-unique_from [] draft.media in omega arith;
      distinct = (unique_from-AreDistinct [] draft.media).1;
      place = place;
      window = tt;
    },
    refl,
  )

  with_address-Returned :
      (mode : LocationMode)
      → draft.location_mode ≡ mode
      → Returned (IsPlaced supported) (with_address mode draft (input_of draft))
  with_address-Returned bring_in e =
      input_of-IsPlaced none none (subst (λ m. HasPlace m none none) (sym e) (refl, refl))
  with_address-Returned pickup e =
      if_ind (Returned (IsPlaced supported)) (not (is_empty draft.address_id)) _ _
        (λ chosen.
          input_of-IsPlaced (some draft.address_id) none
            (subst (λ m. HasPlace m (some draft.address_id) none) (sym e) (inl refl)))
        (λ typed.
          if_ind (Returned (IsPlaced supported)) (has_errors (validate_address_form draft.address))
            _ _ (λ bad. tt) (λ good. from_form (to_address_create draft.address)))
    where
      from_form :
          (address : Option AddressCreate)
          → Returned (IsPlaced supported) (with_form address (input_of draft))
      from_form none = tt
      from_form (some address) =
          input_of-IsPlaced none (some address)
            (subst (λ m. HasPlace m none (some address)) (sym e) (inr refl))

windowed-IsAcceptable :
    (supported : List Text) (start end : ℕ) (input : ServiceCreate)
    → start < end
    → IsAcceptable supported input
    → IsAcceptable supported (record input { preferred_window = some (start, end) })
windowed-IsAcceptable supported start end input before h = record {
  supports = h.supports;
  urgent = h.urgent;
  described = h.described;
  few = h.few;
  distinct = h.distinct;
  place = h.place;
  window = before;
}

window_of-Returned :
    (supported : List Text) (start end : Option ℕ) (input : ServiceCreate)
    → IsAcceptable supported input
    → Returned (IsAcceptable supported) (window_of start end input)
window_of-Returned supported (some start) (some end) input h =
    if_ind (Returned (IsAcceptable supported)) (leb end start) _ _ (λ late. tt)
      (λ early. windowed-IsAcceptable supported start end input (ground (arith, early)) h)
window_of-Returned supported (some start) none input h = tt
window_of-Returned supported none end input h = tt

with_window-Returned :
    (date : Text → Option ℕ) (supported : List Text) (draft : IntakeDraft)
    (checked : Checked ServiceCreate)
    → Returned (IsPlaced supported) checked
    → Returned (IsAcceptable supported) (with_window date draft checked)
with_window-Returned date supported draft (invalid error) h = tt
with_window-Returned date supported draft (valid input) h =
    if_ind (Returned (IsAcceptable supported))
      (is_empty draft.preferred_start && is_empty draft.preferred_end) _ _ (λ e. h.0)
      (λ e.
        window_of-Returned supported (date draft.preferred_start) (date draft.preferred_end) input
          h.0)

-- An input that `intakeInput` returns names a supported type, has an urgency, a description of 10 to
-- 4000 characters, at most five media, none of them twice, a place that fits its mode (an address
-- where the machine is picked up, and none where it is brought in) and, where it has a window, one that
-- ends after it starts.
pub intake_input-IsAcceptable :
    (date : Text → Option ℕ) (draft : IntakeDraft) (supported : List Text) (max_files : ℕ)
    (input : ServiceCreate)
    → intake_input date draft supported max_files ≡ valid input
    → IsAcceptable supported input
unfolding intake_input
intake_input-IsAcceptable date draft supported max_files input e =
    subst (Returned (IsAcceptable supported)) e (
      if_ind (Returned (IsAcceptable supported)) (not (includes_id supported draft.service_type_id))
        _ _ (λ _. tt)
        (λ supports.
          if_ind (Returned (IsAcceptable supported)) (not (is_description draft.description)) _ _
            (λ _. tt)
            (λ described.
              if_ind (Returned (IsAcceptable supported))
                (ltb (min 5 max_files) (length draft.media)) _ _ (λ _. tt)
                (λ few. with_window-Returned date supported draft _ (
                  with_address-Returned draft supported (ground (arith, supports))
                    (ground (arith, described)) (ground (arith, few)) draft.location_mode refl)))))
