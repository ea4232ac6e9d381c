-- ===== src/Orders/Timeline.antt =====
-- The timeline has the entries of the history, in the order of their timestamps.
use coffix.Prelude.{
  ℕ, ◌≤◌, ◌<◌, ◌≡◌, ◌⊎◌, refl, true, false, Option, none, some, List, [], ◌∷◌, map, Text, text_eq,
  text_eq_iff, arith, Bool-cases, inl, inr,
}
use native.Mathlib.Decide.{dec_lt}
use mathlib.Core.List.{Perm}
use mathlib.Core.List.Perm
use coffix.Orders.{
  OrderHistoryEntry, OrderedEntry, text_lt, truthy, compare_stamps, is_positive, goes_after,
  insert_entry, sort_entries, with_index, timeline_entry, build_timeline,
}

text_lt-asym : (s t : Text) → text_lt s t ≡ false → text_eq s t ≡ false → text_lt t s ≡ true
unfolding text_lt text_eq
text_lt-asym [] [] h e = ground arith
text_lt-asym [] (d ∷ t) h e = cc
text_lt-asym (c ∷ s) [] h e = refl
text_lt-asym (c ∷ s) (d ∷ t) h e = ground (arith, text_lt-asym s t)

compare_stamps-total :
    (a b : Option Text) (i j : ℕ)
    → is_positive (compare_stamps a b i j) ≡ true
    → is_positive (compare_stamps b a j i) ≡ false
unfolding compare_stamps
compare_stamps-total (some s) (some t) i j h =
    ground (arith, text_lt-asym s t, text_eq_iff s t, text_eq_iff t s)
compare_stamps-total (some s) none i j h = refl
compare_stamps-total none (some t) i j h = cc
compare_stamps-total none none i j h = ground arith

goes_after-total : (x y : OrderedEntry) → goes_after x y ≡ true → goes_after y x ≡ false
goes_after-total (a, i) (b, j) h =
    compare_stamps-total (truthy a.created_at) (truthy b.created_at) i j h

-- The order of texts by their code units: a proper prefix first, then by the first unit that differs.
pub data IsBefore : Text → Text → Type 0 where
  before_end : (d : ℕ) (t : Text) → IsBefore [] (d ∷ t)
  before_head : (c d : ℕ) (s t : Text) → c < d → IsBefore (c ∷ s) (d ∷ t)
  before_tail : (c d : ℕ) (s t : Text) → c ≡ d → IsBefore s t → IsBefore (c ∷ s) (d ∷ t)

-- The order of two timestamps, at their places in the history: none before any, an earlier text before
-- a later one, and by the places where they are equal. An empty timestamp is none.
abbrev pub StampsInOrder : Option Text → Option Text → ℕ → ℕ → Type 0
StampsInOrder none none i j = i ≤ j
StampsInOrder none (some t) i j = Unit
StampsInOrder (some s) none i j = ⊥
StampsInOrder (some s) (some t) i j = IsBefore s t ⊎ ((s ≡ t) × (i ≤ j))

abbrev pub EntriesInOrder : OrderedEntry → OrderedEntry → Type 0
EntriesInOrder (a, i) (b, j) = StampsInOrder (truthy a.created_at) (truthy b.created_at) i j

text_lt-IsBefore : (s t : Text) → text_lt s t ≡ true → IsBefore s t
unfolding text_lt
text_lt-IsBefore [] [] e = cc
text_lt-IsBefore [] (d ∷ t) e = before_end d t
text_lt-IsBefore (c ∷ s) [] e = cc
text_lt-IsBefore (c ∷ s) (d ∷ t) e = elim (dec_lt c d) [
  | yes less ↦ before_head c d s t less
  | no more ↦ before_tail c d s t (ground arith) (text_lt-IsBefore s t (ground arith))
]

StampsInOrder-of_compare :
    (a b : Option Text) (i j : ℕ)
    → is_positive (compare_stamps a b i j) ≡ false
    → StampsInOrder a b i j
unfolding compare_stamps
StampsInOrder-of_compare none none i j e = ground arith
StampsInOrder-of_compare none (some t) i j e = tt
StampsInOrder-of_compare (some s) none i j e = cc
StampsInOrder-of_compare (some s) (some t) i j e = elim (Bool-cases (text_eq s t)) [
  | inl same ↦ inr ((text_eq_iff s t).0 same, ground arith)
  | inr other ↦ inl (text_lt-IsBefore s t (ground arith))
]

EntriesInOrder-of_goes_after : (x y : OrderedEntry) → goes_after x y ≡ false → EntriesInOrder x y
EntriesInOrder-of_goes_after (a, i) (b, j) e =
    StampsInOrder-of_compare (truthy a.created_at) (truthy b.created_at) i j e

-- Each entry and the one that follows it are in order.
pub data IsOrdered : List OrderedEntry → Type 0 where
  ordered_none : IsOrdered []
  ordered_one : (x : OrderedEntry) → IsOrdered (x ∷ [])
  ordered_more :
      (x y : OrderedEntry) (ys : List OrderedEntry)
      → EntriesInOrder x y
      → IsOrdered (y ∷ ys)
      → IsOrdered (x ∷ y ∷ ys)

follows : (x y : OrderedEntry) → goes_after x y ≡ true → EntriesInOrder y x
follows x y later = EntriesInOrder-of_goes_after y x (goes_after-total x y later)

insert_after-IsOrdered :
    (y x : OrderedEntry) (ys : List OrderedEntry)
    → EntriesInOrder y x
    → IsOrdered (y ∷ ys)
    → IsOrdered (y ∷ insert_entry x ys)
unfolding insert_entry
insert_after-IsOrdered y x [] fits h = ordered_more y x [] fits (ordered_one x)
insert_after-IsOrdered y x (z ∷ zs) fits (ordered_more _ _ _ f rest) =
    elim (Bool-cases (goes_after x z)) [
      | inl later ↦ rw later (
          ordered_more y z (insert_entry x zs) f
            (insert_after-IsOrdered z x zs (follows x z later) rest))
      | inr stays ↦ rw stays (
          ordered_more y x (z ∷ zs) fits
            (ordered_more x z zs (EntriesInOrder-of_goes_after x z stays) rest))
    ]

insert-IsOrdered :
    (x : OrderedEntry) (ys : List OrderedEntry) → IsOrdered ys → IsOrdered (insert_entry x ys)
unfolding insert_entry
insert-IsOrdered x [] h = ordered_one x
insert-IsOrdered x (y ∷ ys) h = elim (Bool-cases (goes_after x y)) [
  | inl later ↦ rw later (insert_after-IsOrdered y x ys (follows x y later) h)
  | inr fits ↦ rw fits (ordered_more x y ys (EntriesInOrder-of_goes_after x y fits) h)
]

sort-IsOrdered : (xs : List OrderedEntry) → IsOrdered (sort_entries xs)
unfolding sort_entries
sort-IsOrdered [] = ordered_none
sort-IsOrdered (x ∷ xs) = insert-IsOrdered x (sort_entries xs) (sort-IsOrdered xs)

insert-Perm : (x : OrderedEntry) (ys : List OrderedEntry) → Perm (insert_entry x ys) (x ∷ ys)
unfolding insert_entry
insert-Perm x [] = Perm.rfl
insert-Perm x (y ∷ ys) = elim (Bool-cases (goes_after x y)) [
  | inl later ↦ rw later (Perm.trans (Perm.cons y (insert-Perm x ys)) (Perm.swap x y ys))
  | inr fits ↦ rw fits Perm.rfl
]

sort-Perm : (xs : List OrderedEntry) → Perm (sort_entries xs) xs
unfolding sort_entries
sort-Perm [] = Perm.rfl
sort-Perm (x ∷ xs) = Perm.trans (insert-Perm x (sort_entries xs)) (Perm.cons x (sort-Perm xs))

-- The timeline shows the entries of the history, each once, and each is in order with the one that
-- follows it: those without a timestamp first, then by the code units of the timestamp, and equal ones
-- as in the history.
pub build_timeline-IsOrdered :
    (history : List OrderHistoryEntry)
    → (entries : List OrderedEntry) × (build_timeline history ≡ map timeline_entry entries)
      × IsOrdered entries
      × Perm entries (with_index 0 history)
unfolding build_timeline
build_timeline-IsOrdered history =
    let entries = with_index 0 history in
    (sort_entries entries, refl, sort-IsOrdered entries, sort-Perm entries)
