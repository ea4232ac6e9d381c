-- ===== src/Service/Intake/Tests.antt =====
-- A draft that is sent, whose answer is lost, and one whose page is left.
use coffix.Prelude.{
  ℕ, ◌≡◌, refl, true, false, none, some, List, [], ◌∷◌, Option, Text, codes, text_eq, trim, All,
}
use coffix.Storage.{ok}
use coffix.Api.{other}
use coffix.Addresses.{empty_address_form}
use coffix.Service.Submission.{bring_in}
use coffix.Service.Intake.{ServiceCreate, IntakeDraft, valid, intake_input}
use coffix.Service.Intake.Laws.{IsAcceptable, intake_input-IsAcceptable}
use coffix.Service.Intake.Page.{
  State, ServiceOptions, no_message, at_rest, listing, answered, threw, proceed,
}
use coffix.Service.Intake.Proceed.{
  Event, pressed, left, focused, loaded, refetched, listed, saved, create_settled, reconciled,
  handle, run,
}
use coffix.Service.Intake.Proceed.Laws.{stored_input, IsPersisted}
use coffix.Service.Intake.Proceed.Persists.{IsKnown, run_persists}
use coffix.Service.Intake.Proceed.Left.{run_left}

abbrev no_date : Text → Option ℕ
no_date time = none

abbrev written : IntakeDraft
written = record {
  machine_id = codes "m";
  collection_id = codes "c";
  service_type_id = codes "repair";
  description = codes " It leaks water. ";
  urgency_id = [];
  location_mode = bring_in;
  address_id = [];
  address = empty_address_form;
  preferred_start = [];
  preferred_end = [];
  media = codes "p" ∷ codes "q" ∷ codes "p" ∷ [];
  submission = none;
}

abbrev checked : ServiceCreate
checked = record {
  urgency_id = codes "normal";
  service_type_id = codes "repair";
  description = codes "It leaks water.";
  location_mode = bring_in;
  media_ids = codes "p" ∷ codes "q" ∷ [];
  address_id = none;
  address = none;
  preferred_window = none;
  intake_version = none;
}

abbrev options : ServiceOptions
options = record {
  service_types = (record { id = codes "repair"; diagnostic_fee_agorot = 15000 }) ∷ [];
  urgencies = codes "normal" ∷ [];
  max_media_files = 5;
  version = 7;
  preferred_windows = [];
}

abbrev last_step : State
last_step = record {
  step = 3;
  draft = written;
  options = some options;
  ready = true;
  media_busy = false;
  address_known = false;
  is_active = true;
  phase = at_rest;
  message = no_message;
  stored = some written;
  pages_pushed = 0;
  finished = 0;
  creates = [];
  unresolved = 0;
}

intake_input-checked : intake_input no_date written (codes "repair" ∷ []) 5 ≡ valid checked
unfolding intake_input text_eq trim
intake_input-checked = refl

intake_input-IsAcceptable_example : IsAcceptable (codes "repair" ∷ []) checked
intake_input-IsAcceptable_example =
    intake_input-IsAcceptable no_date written (codes "repair" ∷ []) 5 checked intake_input-checked

-- The answer is lost, so the page looks for the request, and then does not send it again.
abbrev lost_answer : List Event
lost_answer =
    pressed
    ∷ saved (ok tt)
    ∷ refetched (ok options)
    ∷ listed (answered [])
    ∷ saved (ok tt)
    ∷ create_settled (threw other)
    ∷ reconciled (answered none)
    ∷ focused
    ∷ loaded (ok written)
    ∷ pressed
    ∷ []

run_persists_example :
    All IsPersisted (run no_date lost_answer last_step).creates
    × IsKnown (run no_date lost_answer last_step)
run_persists_example =
    run_persists no_date lost_answer last_step
      (refl, (refl, (refl, (refl, (refl, (refl, (refl, (refl, (refl, (refl, tt)))))))))) refl refl
      refl refl

sent_once :
    ((run no_date lost_answer last_step).unresolved ≡ 1)
    × ((run no_date lost_answer last_step).creates
        ≡ (record checked { intake_version = some 7 }, (run no_date lost_answer last_step).stored)
          ∷ [])
unfolding run handle proceed intake_input text_eq trim
sent_once = (refl, refl)

-- The page is left; a change that comes late and a second press do nothing until the list is answered.
run_left_example :
    ((handle no_date (listed (answered [])) (
        run no_date
          (left ∷ focused ∷ loaded (ok written) ∷ pressed ∷ [])
          (record last_step { phase = listing checked }))).creates
      ≡ (checked, some written) ∷ [])
    × (stored_input
          (handle no_date (listed (answered [])) (
            run no_date
              (left ∷ focused ∷ loaded (ok written) ∷ pressed ∷ [])
              (record last_step { phase = listing checked }))).stored
        ≡ none)
    × ((handle no_date (listed (answered [])) (
          run no_date
            (left ∷ focused ∷ loaded (ok written) ∷ pressed ∷ [])
            (record last_step { phase = listing checked }))).unresolved
        ≡ 1)
run_left_example =
    run_left no_date checked [] (focused ∷ loaded (ok written) ∷ pressed ∷ [])
      (record last_step { phase = listing checked }) refl refl refl
