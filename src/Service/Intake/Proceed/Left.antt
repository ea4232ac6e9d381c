-- ===== src/Service/Intake/Proceed/Left.antt =====
-- The page is left while `proceed` waits for the list of the requests.
use coffix.Prelude.{
  ℕ, ◌+◌, ◌≡◌, refl, Bool, true, false, Option, none, List, [], ◌∷◌, Text, all, arith,
}
use coffix.Service.Intake.{ServiceCreate}
use coffix.Service.Intake.Page.{State, answered, listing, proceed}
use coffix.Service.Intake.Proceed.{
  Event, pressed, left, focused, loaded, edited, refetched, listed, saved, create_settled,
  reconciled, cleared, handle, run,
}
use coffix.Service.Intake.Proceed.Laws.{stored_input}

-- Anything but the answer of the list.
abbrev pub is_other : Event → Bool
is_other (listed answer) = false
is_other event = true

-- The page was left in the state `s`, and the list has not been answered since.
record IsWaiting (input : ServiceCreate) (s t : State) : Type 0 where
  phase : t.phase ≡ listing input
  gone : t.is_active ≡ false
  stored : t.stored ≡ s.stored
  creates : t.creates ≡ s.creates
  unresolved : t.unresolved ≡ s.unresolved

again :
    (input : ServiceCreate) (s t : State)
    → IsWaiting input s t
    → IsWaiting input s (record t { phase = listing input })
again input s t h = record {
  phase = refl;
  gone = h.gone;
  stored = h.stored;
  creates = h.creates;
  unresolved = h.unresolved;
}

handle-IsWaiting :
    (date : Text → Option ℕ) (input : ServiceCreate) (event : Event) (s t : State)
    → is_other event ≡ true
    → IsWaiting input s t
    → IsWaiting input s (handle date event t)
unfolding handle proceed
handle-IsWaiting date input pressed s t e h = ground (arith, h.phase)
handle-IsWaiting date input left s t e h = ground arith
handle-IsWaiting date input focused s t e h = ground arith
handle-IsWaiting date input (loaded outcome) s t e h = ground arith
handle-IsWaiting date input (edited changed outcome) s t e h = ground arith
handle-IsWaiting date input (refetched outcome) s t e h = rw (h.phase) (again input s t h)
handle-IsWaiting date input (listed answer) s t e h = cc
handle-IsWaiting date input (saved outcome) s t e h = rw (h.phase) (again input s t h)
handle-IsWaiting date input (create_settled answer) s t e h = rw (h.phase) (again input s t h)
handle-IsWaiting date input (reconciled answer) s t e h = rw (h.phase) (again input s t h)
handle-IsWaiting date input (cleared outcome) s t e h = rw (h.phase) (again input s t h)

run-IsWaiting :
    (date : Text → Option ℕ) (input : ServiceCreate) (events : List Event) (s t : State)
    → all is_other events ≡ true
    → IsWaiting input s t
    → IsWaiting input s (run date events t)
unfolding run
run-IsWaiting date input [] s t e h = h
run-IsWaiting date input (event ∷ events) s t e h =
    run-IsWaiting date input events s (handle date event t) (ground (arith, e))
      (handle-IsWaiting date input event s t (ground (arith, e)) h)

-- The answer of the list.
made :
    (date : Text → Option ℕ) (input : ServiceCreate) (ids : List Text) (s t : State)
    → stored_input s.stored ≡ none
    → IsWaiting input s t
    → ((handle date (listed (answered ids)) t).creates ≡ (input, s.stored) ∷ s.creates)
      × (stored_input (handle date (listed (answered ids)) t).stored ≡ none)
      × ((handle date (listed (answered ids)) t).unresolved ≡ s.unresolved + 1)
unfolding handle
made date input ids s t bare h =
    simp (h.phase, h.gone, h.stored, h.creates, h.unresolved, bare) (refl, refl, refl)

-- Once the page is left while `proceed` waits for the list of the requests, where the stored draft has no
-- submission: whatever happens until the list is answered, the answer makes the one request that was
-- checked, and still no submission is stored for it.
pub run_left :
    (date : Text → Option ℕ) (input : ServiceCreate) (ids : List Text) (events : List Event)
    (s : State)
    → s.phase ≡ listing input
    → stored_input s.stored ≡ none
    → all is_other events ≡ true
    → ((handle date (listed (answered ids)) (run date (left ∷ events) s)).creates
        ≡ (input, s.stored) ∷ s.creates)
      × (stored_input (handle date (listed (answered ids)) (run date (left ∷ events) s)).stored
          ≡ none)
      × ((handle date (listed (answered ids)) (run date (left ∷ events) s)).unresolved
          ≡ s.unresolved + 1)
unfolding run handle
run_left date input ids events s waits bare others =
    let h =
      run-IsWaiting date input events s (record s { is_active = false }) others
        (record { phase = waits; gone = refl; stored = refl; creates = refl; unresolved = refl }) in
    made date input ids s (run date events (record s { is_active = false })) bare h
