-- ===== src/Service/Intake/Proceed/Persists.antt =====
-- The sequences of events on the page of an intake step, while it is shown.
use coffix.Prelude.{
  ℕ, ◌≤◌, ◌≡◌, ◌⊎◌, refl, sym, subst, Bool, true, false, not, ◌&&◌, ◌||◌, Option, none, some, List,
  [], ◌∷◌, Text, is_some, or_else, All, if_ind, inl, inr, arith,
}
use coffix.Storage.{Outcome, ok, failed}
use coffix.Service.Intake.{Submission, IntakeDraft}
use coffix.Service.Intake.Page.{
  Phase, at_rest, reconciling, clearing, clearing_created, creating, unsaving, reconciling_lost,
  saving_step, refetching, listing, saving_submission, State,
}
use coffix.Service.Intake.Proceed.{
  is_saving, on_loaded, store_saved, on_edited, Event, pressed, left, focused, loaded, edited,
  refetched, listed, saved, create_settled, reconciled, cleared, handle, run,
}
use coffix.Service.Intake.Proceed.Laws.{
  resolved, input_of_submission, has_submission, is_kept, stored_input, IsPersisted, PhaseHolds,
  IsGuarded, proceed-IsGuarded,
}
use coffix.Service.Intake.Proceed.Steps.{
  refetched-IsGuarded, listed-IsGuarded, saved-IsGuarded, created-IsGuarded, reconciled-IsGuarded,
  cleared-IsGuarded,
}

submitted_of_input :
    (o : Option Submission) → is_some (input_of_submission o) ≡ true → is_some o ≡ true
submitted_of_input none e = e
submitted_of_input (some submission) e = refl

submitted_of_kept :
    (o : Option IntakeDraft) (empty : IntakeDraft)
    → is_some (stored_input o) ≡ true
    → is_some (or_else o empty).submission ≡ true
submitted_of_kept none empty e = cc
submitted_of_kept (some draft) empty e = submitted_of_input draft.submission e

loaded_known :
    (empty : IntakeDraft) (s : State)
    → ((s.unresolved ≡ 0) ⊎ ((has_submission s ≡ true) × (is_kept s ≡ true)))
    → ((s.unresolved ≡ 0)
        ⊎ ((is_some (or_else s.stored empty).submission ≡ true) × (is_kept s ≡ true)))
loaded_known empty s (inl z) = inl z
loaded_known empty s (inr (submitted, kept)) = inr (submitted_of_kept s.stored empty kept, kept)

-- A draft is read where nothing is being saved.
loaded_holds :
    (p : Phase) (empty : IntakeDraft) (s : State)
    → is_saving p ≡ false
    → PhaseHolds p s
    → PhaseHolds p (record s { draft = or_else s.stored empty; ready = true })
loaded_holds at_rest empty s e held = (held.0, loaded_known empty s held.1)
loaded_holds reconciling empty s e held = (held.0, loaded_known empty s held.1)
loaded_holds clearing empty s e held = held
loaded_holds clearing_created empty s e held = held
loaded_holds creating empty s e held = (held.0, submitted_of_kept s.stored empty held.2, held.2)
loaded_holds reconciling_lost empty s e held = (held.0, loaded_known empty s held.1)
loaded_holds (unsaving reason) empty s e held = held
loaded_holds (saving_step draft options type chosen) empty s e held = held
loaded_holds (refetching draft options type chosen) empty s e held = held
loaded_holds (listing input) empty s e held = held
loaded_holds (saving_submission input saving) empty s e held = cc

loaded-IsGuarded :
    (outcome : Outcome IntakeDraft) (s : State) → IsGuarded s → IsGuarded (on_loaded outcome s)
loaded-IsGuarded failed s h = h
loaded-IsGuarded (ok empty) s h =
    if_ind IsGuarded (s.is_active && not (is_saving s.phase)) _ _
      (λ e. record {
        active = h.active;
        phase_holds = loaded_holds s.phase empty s (ground (arith, e)) h.phase_holds;
        persisted = h.persisted;
      })
      (λ e. h)

submitted_not : (s : State) → has_submission s ≡ true → has_submission s ≡ false → ⊥
submitted_not s e d = cc

-- The inputs change where the draft has no submission.
edited_holds :
    (p : Phase) (draft : IntakeDraft) (stored : Option IntakeDraft) (s : State)
    → has_submission s ≡ false
    → PhaseHolds p s
    → PhaseHolds p (record s { draft = draft; stored = stored })
edited_holds at_rest changed stored s e held = (held.0, inl (resolved s held.1 e))
edited_holds reconciling changed stored s e held = (held.0, inl (resolved s held.1 e))
edited_holds clearing changed stored s e held = held
edited_holds clearing_created changed stored s e held = held
edited_holds creating changed stored s e held = absurd (submitted_not s held.1 e)
edited_holds reconciling_lost changed stored s e held = (held.0, inl (resolved s held.1 e))
edited_holds (unsaving reason) changed stored s e held = held
edited_holds (saving_step draft options type chosen) changed stored s e held = held
edited_holds (refetching draft options type chosen) changed stored s e held = held
edited_holds (listing input) changed stored s e held = held
edited_holds (saving_submission input saving) changed stored s e held =
    absurd (submitted_not s held.1 e)

edited-IsGuarded :
    (changed : IntakeDraft) (outcome : Outcome (Unit {0})) (s : State)
    → IsGuarded s
    → IsGuarded (on_edited changed outcome s)
edited-IsGuarded changed outcome s h =
    if_ind IsGuarded (not s.is_active || is_some s.draft.submission) _ _ (λ e. h)
      (λ e. record {
        active = h.active;
        phase_holds =
            edited_holds s.phase (record changed { submission = none })
              (store_saved outcome (record changed { submission = none }) s.stored) s
              (ground (arith, e)) h.phase_holds;
        persisted = h.persisted;
      })

ready_holds : (p : Phase) (s : State) → PhaseHolds p s → PhaseHolds p (record s { ready = false })
ready_holds at_rest s held = held
ready_holds reconciling s held = held
ready_holds clearing s held = held
ready_holds clearing_created s held = held
ready_holds creating s held = held
ready_holds reconciling_lost s held = held
ready_holds (unsaving reason) s held = held
ready_holds (saving_step draft options type chosen) s held = held
ready_holds (refetching draft options type chosen) s held = held
ready_holds (listing input) s held = held
ready_holds (saving_submission input saving) s held = held

abbrev pub is_leaving : Event → Bool
is_leaving left = true
is_leaving _ = false

handle-IsGuarded :
    (date : Text → Option ℕ) (event : Event) (s : State)
    → is_leaving event ≡ false
    → IsGuarded s
    → IsGuarded (handle date event s)
unfolding handle
handle-IsGuarded date pressed s e h = proceed-IsGuarded date s h
handle-IsGuarded date left s e h = cc
handle-IsGuarded date focused s e h = record {
  active = h.active;
  phase_holds = ready_holds s.phase s h.phase_holds;
  persisted = h.persisted;
}
handle-IsGuarded date (loaded outcome) s e h = loaded-IsGuarded outcome s h
handle-IsGuarded date (edited changed outcome) s e h = edited-IsGuarded changed outcome s h
handle-IsGuarded date (refetched outcome) s e h =
    refetched-IsGuarded date s.phase outcome s h h.phase_holds
handle-IsGuarded date (listed answer) s e h = listed-IsGuarded s.phase answer s h h.phase_holds
handle-IsGuarded date (saved outcome) s e h = saved-IsGuarded s.phase outcome s h h.phase_holds
handle-IsGuarded date (create_settled answer) s e h =
    created-IsGuarded s.phase answer s h h.phase_holds
handle-IsGuarded date (reconciled answer) s e h =
    reconciled-IsGuarded s.phase answer s h h.phase_holds
handle-IsGuarded date (cleared outcome) s e h = cleared-IsGuarded s.phase outcome s h h.phase_holds

run-IsGuarded :
    (date : Text → Option ℕ) (events : List Event) (s : State)
    → All (λ event. is_leaving event ≡ false) events
    → IsGuarded s
    → IsGuarded (run date events s)
unfolding run
run-IsGuarded date [] s stays h = h
run-IsGuarded date (event ∷ events) s stays h =
    run-IsGuarded date events (handle date event s) stays.1
      (handle-IsGuarded date event s stays.0 h)

-- At most one request is unresolved, and its submission is stored.
abbrev pub IsKnown : State → Type 0
IsKnown s = (s.unresolved ≤ 1) × ((s.unresolved ≡ 0) ⊎ (is_kept s ≡ true))

kept_known :
    (s : State)
    → ((s.unresolved ≡ 0) ⊎ ((has_submission s ≡ true) × (is_kept s ≡ true)))
    → ((s.unresolved ≡ 0) ⊎ (is_kept s ≡ true))
kept_known s (inl z) = inl z
kept_known s (inr (submitted, kept)) = inr kept

PhaseHolds-IsKnown : (p : Phase) (s : State) → PhaseHolds p s → IsKnown s
PhaseHolds-IsKnown at_rest s held = (held.0, kept_known s held.1)
PhaseHolds-IsKnown reconciling s held = (held.0, kept_known s held.1)
PhaseHolds-IsKnown clearing s held = (omega (arith, held), inl held)
PhaseHolds-IsKnown clearing_created s held = (omega (arith, held), inl held)
PhaseHolds-IsKnown creating s held = (omega (arith, held.0), inr held.2)
PhaseHolds-IsKnown reconciling_lost s held = (held.0, kept_known s held.1)
PhaseHolds-IsKnown (unsaving reason) s held = (omega (arith, held), inl held)
PhaseHolds-IsKnown (saving_step draft options type chosen) s held = (omega (arith, held), inl held)
PhaseHolds-IsKnown (refetching draft options type chosen) s held = (omega (arith, held), inl held)
PhaseHolds-IsKnown (listing input) s held = (omega (arith, held), inl held)
PhaseHolds-IsKnown (saving_submission input saving) s held = (omega (arith, held.0), inl held.0)

-- While the page of an intake step is shown, from a page at rest with no request made before: whatever
-- is pressed, edited and loaded, and whatever the server and the store answer, every request that
-- `proceed` makes is the input of a submission that was stored before it, at most one request is
-- unresolved at a time, and as long as one is, the stored draft has a submission.
pub run_persists :
    (date : Text → Option ℕ) (events : List Event) (s : State)
    → All (λ event. is_leaving event ≡ false) events
    → s.is_active ≡ true
    → s.phase ≡ at_rest
    → s.unresolved ≡ 0
    → s.creates ≡ []
    → All IsPersisted (run date events s).creates × IsKnown (run date events s)
run_persists date events s stays active rest z fresh =
    let h = run-IsGuarded date events s stays (record {
      active = active;
      phase_holds = subst (λ p. PhaseHolds p s) (sym rest) (omega arith, inl z);
      persisted = subst (All IsPersisted) (sym fresh) tt;
    }) in
    (h.persisted, PhaseHolds-IsKnown (run date events s).phase (run date events s) h.phase_holds)
