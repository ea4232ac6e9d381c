-- ===== src/Media/Photo/Laws.antt =====
-- No uploaded photo is forgotten: it is held, discarded or retained.
use coffix.Prelude.{
  ℕ, ◌+◌, ◌≡◌, refl, sym, ap, Option, none, some, List, [], ◌∷◌, Text, text_eq, ◌==◌, if◌then◌else◌,
  if_ind, arith, subst,
}
use coffix.Media.Photo.{
  PhotoState, error, Stage, at_picker, at_upload, over, PhotoOperation, State, initial,
  discard_media, clear_current, clear_operation, cancel_upload, pick_photo, retry_photo,
  retain_operation, Settlement, picked, pick_failed, progressed, upload_resolved, upload_rejected,
  Event, pick, retry, cancel, unmount, retain, settle, settle_current, with_late, on_settled, step,
  run,
}

-- How often a media occurs.
abbrev pub count : Text → List Text → ℕ
count media_id [] = 0
count media_id (other ∷ others) = (if text_eq other media_id then 1 else 0) + count media_id others

abbrev pub count_some : Text → Option Text → ℕ
count_some media_id none = 0
count_some media_id (some other) = if text_eq other media_id then 1 else 0

abbrev pub held_by : Option PhotoOperation → Option Text
held_by none = none
held_by (some operation) = operation.media_id

-- An upload waits with no media.
abbrev pub StageMedia : Stage → Option Text → Type 0
StageMedia over media = Unit
StageMedia _ media = media ≡ none

abbrev pub CurrentWaits : Option PhotoOperation → Type 0
CurrentWaits none = Unit
CurrentWaits (some operation) = StageMedia operation.stage operation.media_id

pub record IsAccounted (x : Text) (s : State) : Type 0 where
  pub accounted :
      count x s.resolved
      ≡ count_some x (held_by s.current) + count x s.discarded + count x s.retained
  pub waits : CurrentWaits s.current

count-discard_media :
    (x : Text) (media : Option Text) (xs : List Text)
    → count x (discard_media media xs) ≡ count_some x media + count x xs
count-discard_media x none xs = omega arith
count-discard_media x (some m) xs = refl

record Cleared (x : Text) (s : State) : Type 0 where
  accounted : count x s.resolved ≡ count x s.discarded + count x s.retained
  gone : s.current ≡ none

clear_current-Cleared :
    (x : Text) (current : Option PhotoOperation) (s : State)
    → s.current ≡ current
    → count x s.resolved ≡ count_some x (held_by current) + count x s.discarded + count x s.retained
    → Cleared x (clear_current current s)
unfolding clear_current
clear_current-Cleared x none s e h = record { accounted = omega arith; gone = e }
clear_current-Cleared x (some operation) s e h = record {
  accounted = omega (arith, count-discard_media x operation.media_id s.discarded);
  gone = refl;
}

with_late-IsAccounted :
    (x : Text) (r : List PhotoOperation × Option Text) (s : State)
    → IsAccounted x s
    → IsAccounted x (with_late r s)
with_late-IsAccounted x (operations, late) s h = record {
  accounted = omega (
    arith,
    h.accounted,
    count-discard_media x late s.resolved,
    count-discard_media x late s.discarded,
  );
  waits = h.waits;
}

empty_handed :
    (x : Text) (s : State)
    → Cleared x s
    → count x s.resolved
      ≡ count_some x (held_by s.current) + count x s.discarded + count x s.retained
empty_handed x s h = omega (
  arith,
  h.accounted,
  ap {B = ℕ} (λ (o : Option PhotoOperation). count_some x (held_by o)) h.gone,
)

-- The facts about the operation that is the current one.
record Held (x : Text) (stage : Stage) (operation : PhotoOperation) (s : State) : Type 0 where
  balance :
      count x s.resolved
      ≡ count_some x operation.media_id + count x s.discarded + count x s.retained
  before : StageMedia stage operation.media_id

settle_current-IsAccounted :
    (x : Text) (settlement : Settlement) (stage : Stage) (operation : PhotoOperation) (s : State)
    → IsAccounted x s
    → Held x stage operation s
    → IsAccounted x (settle_current settlement stage operation s)
unfolding settle_current
settle_current-IsAccounted x (picked none) (at_picker source) operation s h held = record {
  accounted = held.balance;
  waits = tt;
}
settle_current-IsAccounted x (picked (some image)) (at_picker source) operation s h held = record {
  accounted = held.balance;
  waits = held.before;
}
settle_current-IsAccounted x (pick_failed permission) (at_picker source) operation s h held =
    record { accounted = held.balance; waits = tt }
settle_current-IsAccounted x (progressed sent total) (at_upload image) operation s h held = record {
  accounted = h.accounted;
  waits = h.waits;
}
settle_current-IsAccounted x (upload_resolved media_id) (at_upload image) operation s h held =
    record {
      accounted =
          omega (arith, held.balance, ap {B = ℕ} (λ (o : Option Text). count_some x o) held.before);
      waits = tt;
    }
settle_current-IsAccounted x upload_rejected (at_upload image) operation s h held = record {
  accounted = held.balance;
  waits = tt;
}
settle_current-IsAccounted x _ _ operation s h held = h

current-Held :
    (x : Text) (operation : PhotoOperation) (s : State)
    → s.current ≡ some operation
    → IsAccounted x s
    → Held x operation.stage operation s
current-Held x operation s c h = record {
  balance =
      subst
        (λ o.
          count x s.resolved ≡ count_some x (held_by o) + count x s.discarded + count x s.retained)
        c h.accounted;
  before = subst CurrentWaits c h.waits;
}

on_settled-IsAccounted :
    (x : Text) (key : ℕ) (settlement : Settlement) (current : Option PhotoOperation) (s : State)
    → s.current ≡ current
    → IsAccounted x s
    → IsAccounted x (on_settled key settlement current s)
unfolding on_settled
on_settled-IsAccounted x key settlement none s c h = with_late-IsAccounted x _ s h
on_settled-IsAccounted x key settlement (some operation) s c h =
    if_ind (IsAccounted x) (operation.key == key) _ _
      (λ _.
        settle_current-IsAccounted x settlement operation.stage operation s h
          (current-Held x operation s c h))
      (λ _. with_late-IsAccounted x _ s h)

retain-IsAccounted :
    (x : Text) (current : Option PhotoOperation) (s : State)
    → s.current ≡ current
    → IsAccounted x s
    → IsAccounted x (retain_operation current s)
retain-IsAccounted x none s c h = h
retain-IsAccounted x (some operation) s c h =
    let held = current-Held x operation s c h in
    record {
      accounted = omega (arith, held.balance, count-discard_media x operation.media_id s.retained);
      waits = tt;
    }

cleared : (x : Text) (s : State) → IsAccounted x s → Cleared x (clear_operation s)
cleared x s h = clear_current-Cleared x s.current s refl h.accounted

retry-IsAccounted :
    (x : Text) (photo : PhotoState) (s : State)
    → IsAccounted x s
    → IsAccounted x (retry_photo photo s)
unfolding retry_photo
retry-IsAccounted x (error (some image) message) s h = record {
  accounted = omega (arith, (cleared x s h).accounted);
  waits = refl;
}
retry-IsAccounted x _ s h = h

pub step-IsAccounted :
    (x : Text) (event : Event) (s : State) → IsAccounted x s → IsAccounted x (step event s)
unfolding step pick_photo cancel_upload
step-IsAccounted x (pick source) s h = record {
  accounted = omega (arith, (cleared x s h).accounted);
  waits = refl;
}
step-IsAccounted x retry s h = retry-IsAccounted x s.photo s h
step-IsAccounted x cancel s h = record {
  accounted = empty_handed x (clear_operation s) (cleared x s h);
  waits = subst CurrentWaits (sym (cleared x s h).gone) tt;
}
step-IsAccounted x unmount s h = record {
  accounted = empty_handed x (clear_operation s) (cleared x s h);
  waits = subst CurrentWaits (sym (cleared x s h).gone) tt;
}
step-IsAccounted x retain s h = retain-IsAccounted x s.current s refl h
step-IsAccounted x (settle key settlement) s h =
    on_settled-IsAccounted x key settlement s.current s refl h

run-IsAccounted :
    (x : Text) (events : List Event) (s : State) → IsAccounted x s → IsAccounted x (run events s)
unfolding run
run-IsAccounted x [] s h = h
run-IsAccounted x (event ∷ events) s h =
    run-IsAccounted x events (step event s) (step-IsAccounted x event s h)

-- In every order of picks, retries, cancels, unmounts, retains and late promises: each media that an
-- upload resolved to is, as often as it did, held by the current operation, discarded, or retained
-- for the registration.
pub run_accounts :
    (events : List Event) (x : Text)
    → count x (run events initial).resolved
      ≡ count_some x (held_by (run events initial).current)
        + count x (run events initial).discarded
        + count x (run events initial).retained
run_accounts events x =
    (run-IsAccounted x events initial (record { accounted = omega arith; waits = tt })).accounted
