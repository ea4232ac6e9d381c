-- ===== src/Machines/Register/Lists.antt =====
-- What holds of all models holds of those that are suggested.
use coffix.Prelude.{
  ℕ, zero, suc, ◌≡◌, Bool, true, Option, none, some, List, [], ◌∷◌, filter, find, take, All, if_ind,
}
use coffix.Machines.Register.Page.{insert_by, sort_by}

-- The lists of suggestions keep what holds of all their members.
module _ {ℓ κ} {A : Type ℓ} (P : A → Type κ) where
  pub All-filter :
      (test : A → Bool) (xs : List A) → All (λ x. test x ≡ true → P x) xs → All P (filter test xs)
  All-filter test [] h = tt
  All-filter test (x ∷ xs) h =
      if_ind (All P) (test x) _ _ (λ e. (h.0 e, All-filter test xs h.1))
        (λ e. All-filter test xs h.1)

  pub All-narrow : (test : A → Bool) (xs : List A) → All P xs → All P (filter test xs)
  All-narrow test [] h = tt
  All-narrow test (x ∷ xs) h =
      if_ind (All P) (test x) _ _ (λ e. (h.0, All-narrow test xs h.1)) (λ e. All-narrow test xs h.1)

  pub All-insert_by :
      (after : A → A → Bool) (x : A) (ys : List A) → P x → All P ys → All P (insert_by after x ys)
  All-insert_by after x [] hx hys = (hx, tt)
  All-insert_by after x (y ∷ ys) hx hys =
      if_ind (All P) (after x y) _ _ (λ e. (hys.0, All-insert_by after x ys hx hys.1))
        (λ e. (hx, hys))

  pub All-sort_by : (after : A → A → Bool) (xs : List A) → All P xs → All P (sort_by after xs)
  All-sort_by after [] h = tt
  All-sort_by after (x ∷ xs) h =
      All-insert_by after x (sort_by after xs) h.0 (All-sort_by after xs h.1)

  pub All-take : (n : ℕ) (xs : List A) → All P xs → All P (take n xs)
  All-take zero xs h = tt
  All-take (suc n) [] h = tt
  All-take (suc n) (x ∷ xs) h = (h.0, All-take n xs h.1)

  abbrev pub Holds : Option A → Type κ
  Holds none = Unit
  Holds (some x) = P x

  pub find-Holds : (test : A → Bool) (xs : List A) → All P xs → Holds (find test xs)
  find-Holds test [] h = tt
  find-Holds test (x ∷ xs) h = if_ind Holds (test x) _ _ (λ e. h.0) (λ e. find-Holds test xs h.1)

pub All-imp {ℓ κ μ} :
    {A : Type ℓ} (P : A → Type κ) (Q : A → Type μ) (xs : List A)
    → ((x : A) → P x → Q x)
    → All P xs
    → All Q xs
All-imp P Q [] f h = tt
All-imp P Q (x ∷ xs) f h = (f x h.0, All-imp P Q xs f h.1)
