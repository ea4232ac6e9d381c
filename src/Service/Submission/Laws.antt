-- ===== src/Service/Submission/Laws.antt =====
-- The request that answers a submission is the only one that can.
use coffix.Prelude.{
  ℕ, ◌≡◌, ap, subst, Bool, true, false, Option, some, List, [], ◌∷◌, ◌++◌, Text, filter,
  if◌then◌else◌, Bool-cases, inl, inr, All,
}
use coffix.Service.Submission.{ServiceRequest, Submission, matches, only, reconcile_submission}
use coffix.Service.Submission.Answers.{IsAnswer, matches-IsAnswer, IsAnswer-matches}

-- `item` is the only one of the items that passes the test.
record Passing (p : ServiceRequest → Bool) (item : ServiceRequest) (items : List ServiceRequest)
    : Type 0 where
  before : List ServiceRequest
  after : List ServiceRequest
  split : items ≡ before ++ item ∷ after
  passes : p item ≡ true
  none_before : All (λ other. p other ≡ false) before
  none_after : All (λ other. p other ≡ false) after

filter-none_pass :
    (p : ServiceRequest → Bool) (items : List ServiceRequest)
    → filter p items ≡ []
    → All (λ other. p other ≡ false) items
filter-none_pass p [] e = tt
filter-none_pass p (x ∷ xs) e = elim (Bool-cases (p x)) [
  | inl good ↦ cc (subst (λ b. (if b then x ∷ filter p xs else filter p xs) ≡ []) good e)
  | inr bad ↦ (
    bad,
    filter-none_pass p xs (subst (λ b. (if b then x ∷ filter p xs else filter p xs) ≡ []) bad e),
  )
]

filter-Passing :
    (p : ServiceRequest → Bool) (items : List ServiceRequest) (item : ServiceRequest)
    → filter p items ≡ item ∷ []
    → Passing p item items
filter-Passing p [] item e = cc
filter-Passing p (x ∷ xs) item e = elim (Bool-cases (p x)) [
  | inl good ↦
      let found : x ∷ filter p xs ≡ item ∷ [] =
        subst (λ b. (if b then x ∷ filter p xs else filter p xs) ≡ item ∷ []) good e in
      let same : x ≡ item = cc in
      let rest : filter p xs ≡ [] = cc in
      record {
        before = [];
        after = xs;
        split = ap (λ y. y ∷ xs) same;
        passes = subst (λ y. p y ≡ true) same good;
        none_before = tt;
        none_after = filter-none_pass p xs rest;
      }
  | inr bad ↦
      let ih =
        filter-Passing p xs item
          (subst (λ b. (if b then x ∷ filter p xs else filter p xs) ≡ item ∷ []) bad e) in
      record {
        before = x ∷ ih.before;
        after = ih.after;
        split = ap (λ ys. x ∷ ys) ih.split;
        passes = ih.passes;
        none_before = (bad, ih.none_before);
        none_after = ih.none_after;
      }
]

only-eq :
    (items : List ServiceRequest) (item : ServiceRequest)
    → only items ≡ some item
    → items ≡ item ∷ []
only-eq [] item e = cc
only-eq (x ∷ []) item e = cc
only-eq (x ∷ y ∷ ys) item e = cc

-- `item` is the only one of the items with the property.
pub record IsOnly (P : ServiceRequest → Type 0) (item : ServiceRequest)
    (items : List ServiceRequest) : Type 0 where
  pub before : List ServiceRequest
  pub after : List ServiceRequest
  pub split : items ≡ before ++ item ∷ after
  pub holds : P item
  pub none_before : All (λ other. ¬ P other) before
  pub none_after : All (λ other. ¬ P other) after

fails_all :
    (date : Text → Option ℕ) (sub : Submission) (items : List ServiceRequest)
    → All (λ other. matches date sub other ≡ false) items
    → All (λ other. ¬ IsAnswer date sub other) items
fails_all date sub [] h = tt
fails_all date sub (x ∷ xs) h =
    (λ answers. cc (IsAnswer-matches date sub x answers, h.0), fails_all date sub xs h.1)

-- The request that a lost submission is taken for did not exist before it, is of the machine of the draft
-- and has all that was asked for, and it is the only request of the list that does.
pub reconcile_submission-IsOnly :
    (date : Text → Option ℕ) (sub : Submission) (items : List ServiceRequest)
    (item : ServiceRequest)
    → reconcile_submission date (some sub) items ≡ some item
    → IsOnly (IsAnswer date sub) item items
unfolding reconcile_submission
reconcile_submission-IsOnly date sub items item found =
    let passing =
      filter-Passing (matches date sub) items item
        (only-eq (filter (matches date sub) items) item found) in
    record {
      before = passing.before;
      after = passing.after;
      split = passing.split;
      holds = matches-IsAnswer date sub item passing.passes;
      none_before = fails_all date sub passing.before passing.none_before;
      none_after = fails_all date sub passing.after passing.none_after;
    }
