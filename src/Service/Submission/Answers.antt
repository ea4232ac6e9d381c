-- ===== src/Service/Submission/Answers.antt =====
-- What it takes for a request to answer a submission, apart from the tests of the code.
use coffix.Prelude.{
  ℕ, ◌≡◌, ◌≢◌, ◌⊎◌, ◌↔◌, inl, inr, refl, ap, Bool, true, false, Option, none, some, List, [], ◌∷◌,
  map, Text, text_eq, text_eq_iff, codes, lookup, filter, any, all, length, All, arith, Bool-cases,
  ==_iff,
}
use mathlib.Core.List.{Memᴰ}
use mathlib.Core.List.Memᴰ
use coffix.Service.Submission.{
  LocationMode, bring_in, pickup, AddressObject, ServiceRequest, Submission, mode_eq,
  option_text_eq, urgency_matches, same_time, field_matches, address_matches, time_of, matches,
}

abbrev pub IsUnset : Option Text → Type 0
IsUnset urgency = (urgency ≡ none) ⊎ (urgency ≡ some [])

abbrev pub IsSameTime : Option ℕ → Option ℕ → Type 0
IsSameTime a b = (time : ℕ) × (a ≡ some time) × (b ≡ some time)

abbrev pub HasAddress : AddressObject → Option AddressObject → Type 0
HasAddress snapshot none = Unit
HasAddress snapshot (some address) = All (λ entry. lookup entry.0 snapshot ≡ some entry.1) address

abbrev pub issues : ServiceRequest → List (Text × Text)
issues item = filter (λ media. text_eq media.1 (codes "issue")) item.media

-- A request that did not exist before, of the machine of the draft, with what was asked for: an urgency
-- unless none was given, the same ends of the window, exactly as many pictures of the issue as were
-- attached and all of these, and every field of the address that was given.
pub record IsAnswer (date : Text → Option ℕ) (sub : Submission) (item : ServiceRequest)
    : Type 0 where
  pub is_new : All (λ id. id ≢ item.id) sub.existing_ids
  pub same_machine : item.machine_id ≡ sub.draft_machine_id
  pub same_type : item.service_type_id ≡ sub.input_service_type_id
  pub same_description : item.description ≡ sub.input_description
  pub same_mode : item.location_mode ≡ sub.input_location_mode
  pub same_urgency : IsUnset sub.input_urgency_id ⊎ (item.urgency_id ≡ sub.input_urgency_id)
  pub same_start : IsSameTime (time_of date item.window_start) (time_of date sub.input_start)
  pub same_end : IsSameTime (time_of date item.window_end) (time_of date sub.input_end)
  pub has_media : All (λ id. Memᴰ id (map (λ media. media.0) item.media)) sub.input_media_ids
  pub no_more_media : length (issues item) ≡ length sub.input_media_ids
  pub same_address : HasAddress item.address_snapshot sub.input_address

excludes_iff :
    (x : Text) (ids : List Text) → (any (λ id. text_eq id x) ids ≡ false) ↔ All (λ id. id ≢ x) ids
excludes_iff x [] = (λ e. tt, λ h. refl)
excludes_iff x (id ∷ ids) = (
  λ e. (λ same. ground (arith, text_eq_iff id x), (excludes_iff x ids).0 (ground arith)),
  λ h. ground (arith, text_eq_iff id x, h.0, (excludes_iff x ids).1 h.1),
)

contains_iff :
    (x : Text) (media : List (Text × Text))
    → (any (λ m. text_eq m.0 x) media ≡ true) ↔ Memᴰ x (map (λ m. m.0) media)
contains_iff x [] = (λ e. cc, λ h. absurd (Memᴰ.not-nil h))
contains_iff x (m ∷ media) = (
  λ e. elim (Bool-cases (text_eq m.0 x)) [
    | inl same ↦ Memᴰ.head (cc ((text_eq_iff m.0 x).0 same))
    | inr other ↦ Memᴰ.tail ((contains_iff x media).0 (ground arith))
  ],
  λ h. elim (Memᴰ.cases_cons h) [
    | inl same ↦ ground (arith, text_eq_iff m.0 x)
    | inr later ↦ ground (arith, (contains_iff x media).1 later)
  ],
)

all_iff {ℓ κ} :
    {A : Type ℓ} (p : A → Bool) (P : A → Type κ) (xs : List A)
    → ((x : A) → (p x ≡ true) ↔ P x)
    → (all p xs ≡ true) ↔ All P xs
all_iff p P [] h = (λ e. tt, λ e. refl)
all_iff p P (x ∷ xs) h = (
  λ e. ((h x).0 (ground arith), (all_iff p P xs h).0 (ground arith)),
  λ e. ground (arith, (h x).1 e.0, (all_iff p P xs h).1 e.1),
)

mode_eq_iff : (a b : LocationMode) → (mode_eq a b ≡ true) ↔ (a ≡ b)
mode_eq_iff bring_in bring_in = (λ e. refl, λ e. refl)
mode_eq_iff bring_in pickup = (λ e. cc, λ e. cc)
mode_eq_iff pickup bring_in = (λ e. cc, λ e. cc)
mode_eq_iff pickup pickup = (λ e. refl, λ e. refl)

option_text_eq_iff : (a b : Option Text) → (option_text_eq a b ≡ true) ↔ (a ≡ b)
option_text_eq_iff none none = (λ e. refl, λ e. refl)
option_text_eq_iff none (some t) = (λ e. cc, λ e. cc)
option_text_eq_iff (some s) none = (λ e. cc, λ e. cc)
option_text_eq_iff (some s) (some t) =
    (λ e. ap some ((text_eq_iff s t).0 e), λ e. (text_eq_iff s t).1 (cc))

urgency_iff :
    (asked theirs : Option Text)
    → (urgency_matches asked theirs ≡ true) ↔ (IsUnset asked ⊎ (theirs ≡ asked))
urgency_iff none theirs = (λ e. inl (inl refl), λ e. refl)
urgency_iff (some []) theirs = (λ e. inl (inr refl), λ e. refl)
urgency_iff (some (c ∷ s)) theirs =
    (λ e. inr ((option_text_eq_iff theirs (some (c ∷ s))).0 e), back)
  where
    back :
        IsUnset (some (c ∷ s)) ⊎ (theirs ≡ some (c ∷ s))
        → option_text_eq theirs (some (c ∷ s)) ≡ true
    back (inl (inl e)) = cc
    back (inl (inr e)) = cc
    back (inr e) = (option_text_eq_iff theirs (some (c ∷ s))).1 e

time_iff : (a b : Option ℕ) → (same_time a b ≡ true) ↔ IsSameTime a b
time_iff none b = (λ e. cc, λ h. cc (h.1))
time_iff (some m) none = (λ e. cc, λ h. cc (h.2))
time_iff (some m) (some n) = (λ e. (m, refl, ap some (ground arith)), λ h. ground (arith, h.1, h.2))

field_iff :
    (own : Option (Option Text)) (value : Option Text)
    → (field_matches own value ≡ true) ↔ (own ≡ some value)
field_iff none value = (λ e. cc, λ e. cc)
field_iff (some own) value =
    (λ e. ap some ((option_text_eq_iff own value).0 e), λ e. (option_text_eq_iff own value).1 (cc))

address_iff :
    (snapshot : AddressObject) (address : Option AddressObject)
    → (address_matches snapshot address ≡ true) ↔ HasAddress snapshot address
address_iff snapshot none = (λ e. tt, λ e. refl)
address_iff snapshot (some address) =
    all_iff (λ entry. field_matches (lookup entry.0 snapshot) entry.1)
      (λ entry. lookup entry.0 snapshot ≡ some entry.1) address
      (λ entry. field_iff (lookup entry.0 snapshot) entry.1)

module _ (date : Text → Option ℕ) (sub : Submission) (item : ServiceRequest) where
  media_iff :
      (all (λ id. any (λ media. text_eq media.0 id) item.media) sub.input_media_ids ≡ true)
      ↔ All (λ id. Memᴰ id (map (λ media. media.0) item.media)) sub.input_media_ids
  media_iff =
      all_iff (λ id. any (λ media. text_eq media.0 id) item.media)
        (λ id. Memᴰ id (map (λ media. media.0) item.media)) sub.input_media_ids
        (λ id. contains_iff id item.media)

  pub matches-IsAnswer : matches date sub item ≡ true → IsAnswer date sub item
  unfolding matches
  matches-IsAnswer e = record {
    is_new = (excludes_iff item.id sub.existing_ids).0 (ground arith);
    same_machine = (text_eq_iff _ _).0 (ground arith);
    same_type = (text_eq_iff _ _).0 (ground arith);
    same_description = (text_eq_iff _ _).0 (ground arith);
    same_mode = (mode_eq_iff _ _).0 (ground arith);
    same_urgency = (urgency_iff _ _).0 (ground arith);
    same_start = (time_iff _ _).0 (ground arith);
    same_end = (time_iff _ _).0 (ground arith);
    has_media = media_iff.0 (ground arith);
    no_more_media = (==_iff _ _).0 (ground arith);
    same_address = (address_iff _ _).0 (ground arith);
  }

  pub IsAnswer-matches : IsAnswer date sub item → matches date sub item ≡ true
  unfolding matches
  IsAnswer-matches h =
      rw
        (
          (excludes_iff item.id sub.existing_ids).1 h.is_new,
          (text_eq_iff _ _).1 h.same_machine,
          (text_eq_iff _ _).1 h.same_type,
          (text_eq_iff _ _).1 h.same_description,
          (mode_eq_iff _ _).1 h.same_mode,
          (urgency_iff _ _).1 h.same_urgency,
          (time_iff _ _).1 h.same_start,
          (time_iff _ _).1 h.same_end,
          media_iff.1 h.has_media,
          (==_iff _ _).1 h.no_more_media,
          (address_iff _ _).1 h.same_address,
        )
        refl
