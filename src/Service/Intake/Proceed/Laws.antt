-- ===== src/Service/Intake/Proceed/Laws.antt =====
-- A request is created only after its submission was stored, and never while an earlier one is unresolved.
use coffix.Prelude.{
  ℕ, ◌≤◌, ◌≡◌, ◌⊎◌, Bool, true, false, not, ◌||◌, Option, none, some, Text, is_some, All,
  if◌then◌else◌, if_ind, inl, inr, arith,
}
use coffix.Service.Intake.{ServiceCreate, Submission, IntakeDraft, IntakeMessage, type_missing}
use coffix.Service.Intake.Page.{
  ServiceType, ServiceOptions, ProceedMessage, no_message, intake_message, Phase, at_rest,
  reconciling, clearing, clearing_created, creating, unsaving, reconciling_lost, saving_step,
  refetching, listing, saving_submission, State, selected, urgency, fail, step_error, urgency_or,
  save_step, check_and_save, proceed_with, is_resting, proceed_options, proceed,
}

abbrev pub input_of_submission : Option Submission → Option ServiceCreate
input_of_submission none = none
input_of_submission (some submission) = some submission.input

abbrev pub stored_input : Option IntakeDraft → Option ServiceCreate
stored_input none = none
stored_input (some draft) = input_of_submission draft.submission

-- The stored draft had the submission of the request.
abbrev pub IsPersisted : ServiceCreate × Option IntakeDraft → Type 0
IsPersisted made = stored_input made.1 ≡ some made.0

abbrev pub has_submission : State → Bool
has_submission s = is_some s.draft.submission

abbrev pub is_kept : State → Bool
is_kept s = is_some (stored_input s.stored)

-- What holds in a phase: whether a request may be unresolved, and what then is known of the drafts.
abbrev pub PhaseHolds : Phase → State → Type 0
PhaseHolds at_rest s =
    (s.unresolved ≤ 1) × ((s.unresolved ≡ 0) ⊎ ((has_submission s ≡ true) × (is_kept s ≡ true)))
PhaseHolds reconciling s =
    (s.unresolved ≤ 1) × ((s.unresolved ≡ 0) ⊎ ((has_submission s ≡ true) × (is_kept s ≡ true)))
PhaseHolds creating s = (s.unresolved ≡ 1) × (has_submission s ≡ true) × (is_kept s ≡ true)
PhaseHolds reconciling_lost s =
    (s.unresolved ≤ 1) × ((s.unresolved ≡ 0) ⊎ ((has_submission s ≡ true) × (is_kept s ≡ true)))
PhaseHolds clearing s = s.unresolved ≡ 0
PhaseHolds clearing_created s = s.unresolved ≡ 0
PhaseHolds (unsaving error) s = s.unresolved ≡ 0
PhaseHolds (saving_step draft options type chosen) s = s.unresolved ≡ 0
PhaseHolds (refetching draft options type chosen) s = s.unresolved ≡ 0
PhaseHolds (listing input) s = s.unresolved ≡ 0
PhaseHolds (saving_submission input draft) s =
    (s.unresolved ≡ 0) × (has_submission s ≡ true) × (stored_input (some draft) ≡ some input)

pub record IsGuarded (s : State) : Type 0 where
  pub active : s.is_active ≡ true
  pub phase_holds : PhaseHolds s.phase s
  pub persisted : All IsPersisted s.creates

pub if_true :
    {A : Type 0} (P : A → Type 0) (b : Bool) (x y : A) → b ≡ true → P x → P (if b then x else y)
if_true P true x y e h = h
if_true P false x y e h = cc

-- A rest without an unresolved request.
pub rested :
    (shown : ProceedMessage) (s : State)
    → s.is_active ≡ true
    → s.unresolved ≡ 0
    → All IsPersisted s.creates
    → IsGuarded (fail shown s)
rested shown s active z persisted = record {
  active = active;
  phase_holds = (omega arith, inl z);
  persisted = persisted;
}

save_step-IsGuarded :
    (draft : IntakeDraft) (options : ServiceOptions) (type : ServiceType) (chosen : Text)
    (s : State)
    → s.is_active ≡ true
    → s.unresolved ≡ 0
    → All IsPersisted s.creates
    → IsGuarded (save_step draft options type chosen s)
save_step-IsGuarded draft options type chosen s active z persisted =
    if_true IsGuarded s.is_active _ _ active
      (record { active = active; phase_holds = z; persisted = persisted })

proceed_with-IsGuarded :
    (date : Text → Option ℕ) (type : Option ServiceType) (options : ServiceOptions) (s : State)
    → s.is_active ≡ true
    → s.unresolved ≡ 0
    → All IsPersisted s.creates
    → IsGuarded (proceed_with date type options s)
proceed_with-IsGuarded date none options s active z p =
    rested (intake_message type_missing) s active z p
proceed_with-IsGuarded date (some type) options s active z p =
    checked (step_error date s.step (urgency s.draft options) s.draft options)
  where
    checked :
        (error : Option IntakeMessage)
        → IsGuarded (
            check_and_save error s.draft options type
              (urgency_or (urgency s.draft options) s.draft.urgency_id)
              (record s { message = no_message }))
    checked none =
        save_step-IsGuarded s.draft options type
          (urgency_or (urgency s.draft options) s.draft.urgency_id)
          (record s { message = no_message }) active z p
    checked (some error) =
        rested (intake_message error) (record s { message = no_message }) active z p

-- Nothing is unresolved where the draft has no submission.
pub resolved :
    (s : State)
    → ((s.unresolved ≡ 0) ⊎ ((has_submission s ≡ true) × (is_kept s ≡ true)))
    → has_submission s ≡ false
    → s.unresolved ≡ 0
resolved s (inl z) e = z
resolved s (inr (submitted, kept)) e = cc

proceed_options-IsGuarded :
    (date : Text → Option ℕ) (options : Option ServiceOptions) (s : State)
    → IsGuarded s
    → PhaseHolds at_rest s
    → IsGuarded (proceed_options date options s)
proceed_options-IsGuarded date none s h held = h
proceed_options-IsGuarded date (some options) s h (bound, known) =
    if_ind IsGuarded (has_submission s) _ _
      (λ e. record { active = h.active; phase_holds = (bound, known); persisted = h.persisted })
      (λ e.
        proceed_with-IsGuarded date (selected s.draft options) options s h.active
          (resolved s known e) h.persisted)

resting : (p : Phase) (s : State) → is_resting p ≡ true → PhaseHolds p s → PhaseHolds at_rest s
resting at_rest s e held = held
resting reconciling s e held = cc
resting clearing s e held = cc
resting clearing_created s e held = cc
resting creating s e held = cc
resting reconciling_lost s e held = cc
resting (unsaving error) s e held = cc
resting (saving_step draft options type chosen) s e held = cc
resting (refetching draft options type chosen) s e held = cc
resting (listing input) s e held = cc
resting (saving_submission input draft) s e held = cc

pub proceed-IsGuarded :
    (date : Text → Option ℕ) (s : State) → IsGuarded s → IsGuarded (proceed date s)
unfolding proceed
proceed-IsGuarded date s h =
    if_ind IsGuarded (not (is_resting s.phase) || not s.ready || s.media_busy) _ _ (λ e. h)
      (λ e.
        proceed_options-IsGuarded date s.options s h
          (resting s.phase s (ground (arith, e)) h.phase_holds))
