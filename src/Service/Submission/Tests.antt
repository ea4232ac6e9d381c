-- ===== src/Service/Submission/Tests.antt =====
-- A request of before and the one that was lost, and one of another machine.
use coffix.Prelude.{ℕ, refl, Option, none, some, List, [], ◌∷◌, Text, text_eq, codes}
use coffix.Service.Submission.{ServiceRequest, Submission, bring_in, matches, reconcile_submission}
use coffix.Service.Submission.Answers.{IsAnswer}
use coffix.Service.Submission.Laws.{IsOnly, reconcile_submission-IsOnly}

abbrev asked_for : Text → Text → ServiceRequest
asked_for id machine = record {
  id = id;
  machine_id = machine;
  service_type_id = codes "t1";
  description = codes "leaking";
  location_mode = bring_in;
  urgency_id = some (codes "normal");
  window_start = none;
  window_end = none;
  media = (codes "f1", codes "issue") ∷ [];
  address_snapshot = [];
}

abbrev lost : Submission
lost = record {
  draft_machine_id = codes "m1";
  existing_ids = codes "r1" ∷ [];
  input_service_type_id = codes "t1";
  input_description = codes "leaking";
  input_location_mode = bring_in;
  input_urgency_id = some (codes "normal");
  input_start = none;
  input_end = none;
  input_media_ids = codes "f1" ∷ [];
  input_address = none;
}

abbrev no_date : Text → Option ℕ
no_date s = none

abbrev listed : List ServiceRequest
listed =
    asked_for (codes "r1") (codes "m1")
    ∷ asked_for (codes "r2") (codes "m1")
    ∷ asked_for (codes "r3") (codes "m2")
    ∷ []

reconcile_submission-IsOnly_example :
    IsOnly (IsAnswer no_date lost) (asked_for (codes "r2") (codes "m1")) listed
unfolding reconcile_submission matches text_eq
reconcile_submission-IsOnly_example =
    reconcile_submission-IsOnly no_date lost listed (asked_for (codes "r2") (codes "m1")) refl
