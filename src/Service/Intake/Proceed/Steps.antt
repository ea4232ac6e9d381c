-- ===== src/Service/Intake/Proceed/Steps.antt =====
-- Every answer keeps the guard of the creations.
use coffix.Prelude.{
  ℕ, ◌-◌, ◌≤◌, ltb, ◌≡◌, refl, ◌∙◌, ap, true, false, not, ◌&&◌, Option, none, some, List, Text,
  is_empty, is_some, All, if_ind, inl, inr, arith,
}
use coffix.Storage.{Outcome, ok, failed}
use coffix.Api.{ApiError}
use coffix.Service.Submission.{bring_in, pickup, is_definite_rejection}
use coffix.Service.Intake.{
  ServiceCreate, IntakeDraft, fee_unknown, details_changed, window_gone, address_gone, Checked,
  valid, invalid,
}
use coffix.Service.Intake.Page.{
  Answer, ServiceType, ServiceOptions, not_verified, intake_message, Phase, at_rest, reconciling,
  clearing, clearing_created, creating, unsaving, reconciling_lost, saving_step, refetching,
  listing, saving_submission, State, answered, threw, caught_message, after_save,
}
use coffix.Service.Intake.Proceed.{
  is_unchanged, has_window, list_requests, on_refetched, create, on_listed, on_saved, unsave,
  on_created, on_reconciled, on_cleared, finish,
}
use coffix.Service.Intake.Proceed.Laws.{
  stored_input, IsPersisted, PhaseHolds, IsGuarded, if_true, rested,
}

list_requests-IsGuarded :
    (draft : IntakeDraft) (latest : ServiceOptions) (checked : Checked ServiceCreate) (s : State)
    → s.is_active ≡ true
    → s.unresolved ≡ 0
    → All IsPersisted s.creates
    → IsGuarded (list_requests draft latest checked s)
list_requests-IsGuarded draft latest (invalid shown) s active z p =
    rested (intake_message shown) s active z p
list_requests-IsGuarded draft latest (valid input) s active z p =
    if_ind IsGuarded (not (has_window latest.preferred_windows input.preferred_window)) _ _
      (λ e. rested (intake_message window_gone) s active z p)
      (λ e.
        if_ind IsGuarded
          (elim draft.location_mode [ bring_in ↦ false | pickup ↦ not (is_empty draft.address_id) ]
            && not s.address_known)
          _ _ (λ e. rested (intake_message address_gone) s active z p)
          (λ e. record { active = active; phase_holds = z; persisted = p }))

pub refetched-IsGuarded :
    (date : Text → Option ℕ) (p : Phase) (outcome : Outcome ServiceOptions) (s : State)
    → IsGuarded s
    → PhaseHolds p s
    → IsGuarded (on_refetched date p outcome s)
refetched-IsGuarded date (refetching draft options type chosen) failed s h z =
    rested (intake_message fee_unknown) s h.active z h.persisted
refetched-IsGuarded date (refetching draft options type chosen) (ok latest) s h z =
    let next = record s { options = some latest } in
    if_ind IsGuarded (not (is_unchanged type options latest)) _ _
      (λ e. rested (intake_message details_changed) next h.active z h.persisted)
      (λ e. list_requests-IsGuarded draft latest _ next h.active z h.persisted)
refetched-IsGuarded date at_rest outcome s h held = h
refetched-IsGuarded date reconciling outcome s h held = h
refetched-IsGuarded date clearing outcome s h held = h
refetched-IsGuarded date clearing_created outcome s h held = h
refetched-IsGuarded date creating outcome s h held = h
refetched-IsGuarded date reconciling_lost outcome s h held = h
refetched-IsGuarded date (unsaving reason) outcome s h held = h
refetched-IsGuarded date (saving_step draft options type chosen) outcome s h held = h
refetched-IsGuarded date (listing input) outcome s h held = h
refetched-IsGuarded date (saving_submission input saving) outcome s h held = h

pub create-IsGuarded :
    (input : ServiceCreate) (draft : IntakeDraft) (s : State)
    → s.is_active ≡ true
    → s.stored ≡ some draft
    → PhaseHolds (saving_submission input draft) s
    → All IsPersisted s.creates
    → IsGuarded (create input s)
create-IsGuarded input draft s active e (z, submitted, same) p =
    let written : stored_input s.stored ≡ some input = ap stored_input e ∙ same in
    record {
      active = active;
      phase_holds = (omega arith, submitted, ap is_some written);
      persisted = (written, p);
    }

pub listed-IsGuarded :
    (p : Phase) (answer : Answer (List Text)) (s : State)
    → IsGuarded s
    → PhaseHolds p s
    → IsGuarded (on_listed p answer s)
listed-IsGuarded (listing input) (threw error) s h z =
    rested (caught_message error) s h.active z h.persisted
listed-IsGuarded (listing input) (answered ids) s h z =
    if_true IsGuarded s.is_active _ _ h.active
      (record { active = h.active; phase_holds = (z, refl, refl); persisted = h.persisted })
listed-IsGuarded at_rest outcome s h held = h
listed-IsGuarded reconciling outcome s h held = h
listed-IsGuarded clearing outcome s h held = h
listed-IsGuarded clearing_created outcome s h held = h
listed-IsGuarded creating outcome s h held = h
listed-IsGuarded reconciling_lost outcome s h held = h
listed-IsGuarded (unsaving reason) outcome s h held = h
listed-IsGuarded (saving_step draft options type chosen) outcome s h held = h
listed-IsGuarded (refetching draft options type chosen) outcome s h held = h
listed-IsGuarded (saving_submission input saving) outcome s h held = h

after_save-IsGuarded :
    (draft : IntakeDraft) (options : ServiceOptions) (type : ServiceType) (chosen : Text)
    (s : State)
    → s.is_active ≡ true
    → s.unresolved ≡ 0
    → All IsPersisted s.creates
    → IsGuarded (after_save draft options type chosen s)
after_save-IsGuarded draft options type chosen s active z p =
    if_ind IsGuarded (ltb s.step 3) _ _
      (λ e. record { active = active; phase_holds = (omega arith, inl z); persisted = p })
      (λ e. record { active = active; phase_holds = z; persisted = p })

pub saved-IsGuarded :
    (p : Phase) (outcome : Outcome (Unit {0})) (s : State)
    → IsGuarded s
    → PhaseHolds p s
    → IsGuarded (on_saved p outcome s)
saved-IsGuarded (saving_step draft options type chosen) (ok answer) s h z =
    after_save-IsGuarded draft options type chosen (record s { stored = some s.draft }) h.active z
      h.persisted
saved-IsGuarded (saving_submission input saving) (ok answer) s h held =
    create-IsGuarded input saving (record s { stored = some saving }) h.active refl held h.persisted
saved-IsGuarded (unsaving reason) (ok answer) s h z =
    rested (caught_message reason) (record s { stored = some s.draft }) h.active z h.persisted
saved-IsGuarded (saving_step draft options type chosen) failed s h z =
    rested not_verified s h.active z h.persisted
saved-IsGuarded (saving_submission input saving) failed s h held =
    rested not_verified s h.active held.0 h.persisted
saved-IsGuarded (unsaving reason) failed s h z = rested not_verified s h.active z h.persisted
saved-IsGuarded at_rest outcome s h held = h
saved-IsGuarded reconciling outcome s h held = h
saved-IsGuarded clearing outcome s h held = h
saved-IsGuarded clearing_created outcome s h held = h
saved-IsGuarded creating outcome s h held = h
saved-IsGuarded reconciling_lost outcome s h held = h
saved-IsGuarded (refetching draft options type chosen) outcome s h held = h
saved-IsGuarded (listing input) outcome s h held = h

unsave-IsGuarded :
    (error : ApiError) (s : State)
    → s.is_active ≡ true
    → s.unresolved ≡ 0
    → All IsPersisted s.creates
    → IsGuarded (unsave error s)
unsave-IsGuarded error s active z p =
    if_true IsGuarded s.is_active _ _ active
      (record { active = active; phase_holds = z; persisted = p })

pub created-IsGuarded :
    (p : Phase) (answer : Answer Text) (s : State)
    → IsGuarded s
    → PhaseHolds p s
    → IsGuarded (on_created p answer s)
created-IsGuarded creating (answered id) s h held = record {
  active = h.active;
  phase_holds = omega (arith, held.0);
  persisted = h.persisted;
}
created-IsGuarded creating (threw error) s h held =
    if_ind IsGuarded (is_definite_rejection error) _ _
      (λ e.
        unsave-IsGuarded error (record s { unresolved = s.unresolved - 1 }) h.active
          (omega (arith, held.0)) h.persisted)
      (λ e. record {
        active = h.active;
        phase_holds = (omega (arith, held.0), inr (held.1, held.2));
        persisted = h.persisted;
      })
created-IsGuarded at_rest outcome s h held = h
created-IsGuarded reconciling outcome s h held = h
created-IsGuarded clearing outcome s h held = h
created-IsGuarded clearing_created outcome s h held = h
created-IsGuarded reconciling_lost outcome s h held = h
created-IsGuarded (unsaving reason) outcome s h held = h
created-IsGuarded (saving_step draft options type chosen) outcome s h held = h
created-IsGuarded (refetching draft options type chosen) outcome s h held = h
created-IsGuarded (listing input) outcome s h held = h
created-IsGuarded (saving_submission input saving) outcome s h held = h

-- The request was found.
found-IsGuarded :
    (s : State)
    → IsGuarded s
    → s.unresolved ≤ 1
    → IsGuarded (record s { phase = clearing; unresolved = s.unresolved - 1 })
found-IsGuarded s h bound = record {
  active = h.active;
  phase_holds = omega arith;
  persisted = h.persisted;
}

pub reconciled-IsGuarded :
    (p : Phase) (answer : Answer (Option Text)) (s : State)
    → IsGuarded s
    → PhaseHolds p s
    → IsGuarded (on_reconciled p answer s)
reconciled-IsGuarded reconciling (answered (some id)) s h held = found-IsGuarded s h held.0
reconciled-IsGuarded reconciling (answered none) s h held = record {
  active = h.active;
  phase_holds = held;
  persisted = h.persisted;
}
reconciled-IsGuarded reconciling (threw error) s h held = record {
  active = h.active;
  phase_holds = held;
  persisted = h.persisted;
}
reconciled-IsGuarded reconciling_lost (answered (some id)) s h held = found-IsGuarded s h held.0
reconciled-IsGuarded reconciling_lost (answered none) s h held = record {
  active = h.active;
  phase_holds = held;
  persisted = h.persisted;
}
reconciled-IsGuarded reconciling_lost (threw error) s h held = record {
  active = h.active;
  phase_holds = held;
  persisted = h.persisted;
}
reconciled-IsGuarded at_rest outcome s h held = h
reconciled-IsGuarded clearing outcome s h held = h
reconciled-IsGuarded clearing_created outcome s h held = h
reconciled-IsGuarded creating outcome s h held = h
reconciled-IsGuarded (unsaving reason) outcome s h held = h
reconciled-IsGuarded (saving_step draft options type chosen) outcome s h held = h
reconciled-IsGuarded (refetching draft options type chosen) outcome s h held = h
reconciled-IsGuarded (listing input) outcome s h held = h
reconciled-IsGuarded (saving_submission input saving) outcome s h held = h

finish-IsGuarded : (s : State) → IsGuarded s → s.unresolved ≡ 0 → IsGuarded (finish s)
finish-IsGuarded s h z = record {
  active = h.active;
  phase_holds = (omega (arith, z), inl z);
  persisted = h.persisted;
}

pub cleared-IsGuarded :
    (p : Phase) (outcome : Outcome (Unit {0})) (s : State)
    → IsGuarded s
    → PhaseHolds p s
    → IsGuarded (on_cleared p outcome s)
cleared-IsGuarded clearing (ok answer) s h z = finish-IsGuarded s h z
cleared-IsGuarded clearing failed s h z = rested not_verified s h.active z h.persisted
cleared-IsGuarded clearing_created (ok answer) s h z = finish-IsGuarded s h z
cleared-IsGuarded clearing_created failed s h z = record {
  active = h.active;
  phase_holds = (omega (arith, z), inl z);
  persisted = h.persisted;
}
cleared-IsGuarded at_rest outcome s h held = h
cleared-IsGuarded reconciling outcome s h held = h
cleared-IsGuarded creating outcome s h held = h
cleared-IsGuarded reconciling_lost outcome s h held = h
cleared-IsGuarded (unsaving reason) outcome s h held = h
cleared-IsGuarded (saving_step draft options type chosen) outcome s h held = h
cleared-IsGuarded (refetching draft options type chosen) outcome s h held = h
cleared-IsGuarded (listing input) outcome s h held = h
cleared-IsGuarded (saving_submission input saving) outcome s h held = h
