-- ===== src/Payments/Attempt/Laws.antt =====
-- One key stands for one shipping fee.
use coffix.Prelude.{
  ℕ, ◌+◌, ◌<◌, ◌≡◌, ◌≢◌, refl, sym, ◌⊎◌, inl, inr, not, ◌&&◌, Option, none, some, List, [], ◌∷◌,
  Text, if_ind, arith, All, subst,
}
use coffix.Api.{ApiError}
use coffix.Payments.{shipping_changed}
use coffix.Payments.Attempt.{
  Attempt, State, initial, attempt_or_new, send_attempt, start_with, finished, is_shipping_change,
  on_rejected, Event, pressed, checked_out, rejected, cart_refetched, cart_changed, step, run,
}

-- Two requests with one review have one fee.
abbrev pub Agrees : Attempt → Attempt → Type 0
Agrees a b = (a.review ≢ b.review) ⊎ (a.shipping ≡ b.shipping)

abbrev pub AllAgree : List Attempt → Type 0
AllAgree [] = Unit
AllAgree (a ∷ more) = All (Agrees a) more × AllAgree more

-- The requests of before are of earlier reviews, or those of the attempt that is kept.
abbrev Fits : Option Attempt → ℕ → Attempt → Type 0
Fits none review a = a.review < review
Fits (some kept) review a =
    (a.review < review) ⊎ ((a.review ≡ review) × (a.shipping ≡ kept.shipping))

abbrev Current : Option Attempt → ℕ → Type 0
Current none review = Unit
Current (some kept) review = kept.review ≡ review

record IsKeyed (s : State) : Type 0 where
  current : Current s.attempt s.review_number
  fits : All (Fits s.attempt s.review_number) s.requests
  agree : AllAgree s.requests

All-Fits_kept :
    (review shipping : ℕ) (requests : List Attempt)
    → All (Fits none review) requests
    → All (Fits (some (record { review = review; shipping = shipping })) review) requests
All-Fits_kept review shipping [] h = tt
All-Fits_kept review shipping (a ∷ more) h = (inl h.0, All-Fits_kept review shipping more h.1)

Fits-review :
    (attempt : Option Attempt) (review : ℕ) (a : Attempt)
    → Fits attempt review a
    → a.review < review + 1
Fits-review none review a h = omega arith
Fits-review (some kept) review a (inl h) = omega arith
Fits-review (some kept) review a (inr h) = omega (arith, h.0)

All-Fits_next :
    (attempt : Option Attempt) (review : ℕ) (requests : List Attempt)
    → All (Fits attempt review) requests
    → All (Fits none (review + 1)) requests
All-Fits_next attempt review [] h = tt
All-Fits_next attempt review (a ∷ more) h =
    (Fits-review attempt review a h.0, All-Fits_next attempt review more h.1)

All-Agrees :
    (kept : Attempt) (review : ℕ) (requests : List Attempt)
    → kept.review ≡ review
    → All (Fits (some kept) review) requests
    → All (Agrees kept) requests
All-Agrees kept review [] e h = tt
All-Agrees kept review (a ∷ more) e (inl earlier, h) =
    (inl (λ same. omega (arith, earlier, same, e)), All-Agrees kept review more e h)
All-Agrees kept review (a ∷ more) e (inr now, h) =
    (inr (sym now.1), All-Agrees kept review more e h)

send-IsKeyed :
    (attempt : Option Attempt) (shipping : ℕ) (s : State)
    → s.attempt ≡ attempt
    → IsKeyed s
    → IsKeyed (send_attempt (attempt_or_new attempt s.review_number shipping) s)
send-IsKeyed none shipping s e h =
    let fits =
      All-Fits_kept s.review_number shipping s.requests
        (subst (λ o. All (Fits o s.review_number) s.requests) e h.fits) in
    record {
      current = refl;
      fits = (inr (refl, refl), fits);
      agree = (
        All-Agrees (record { review = s.review_number; shipping = shipping }) s.review_number
            s.requests refl fits,
        h.agree,
      );
    }
send-IsKeyed (some kept) shipping s e h =
    let current : kept.review ≡ s.review_number =
      subst (λ o. Current o s.review_number) e h.current in
    let fits = subst (λ o. All (Fits o s.review_number) s.requests) e h.fits in
    record {
      current = current;
      fits = (inr (current, refl), fits);
      agree = (All-Agrees kept s.review_number s.requests current fits, h.agree);
    }

start-IsKeyed : (shipping : Option ℕ) (s : State) → IsKeyed s → IsKeyed (start_with shipping s)
unfolding start_with
start-IsKeyed none s h = h
start-IsKeyed (some shipping) s h =
    if_ind IsKeyed _ _ _ (λ _. h) (λ _. send-IsKeyed s.attempt shipping s refl h)

rejected-IsKeyed : (error : ApiError) (s : State) → IsKeyed s → IsKeyed (on_rejected error s)
unfolding on_rejected
rejected-IsKeyed error s h =
    if_ind IsKeyed (is_shipping_change error) _ _
      (λ _. record {
        current = tt;
        fits = All-Fits_next s.attempt s.review_number s.requests h.fits;
        agree = h.agree;
      })
      (λ _. record { current = h.current; fits = h.fits; agree = h.agree })

step-IsKeyed : (event : Event) (s : State) → IsKeyed s → IsKeyed (step event s)
unfolding step
step-IsKeyed pressed s h = start-IsKeyed s.cart_shipping s h
step-IsKeyed (checked_out order_id) s h =
    if_ind IsKeyed (s.in_flight && not s.refetching)
      (record (finished s) { opened = order_id ∷ s.opened }) s
      (λ _. record { current = h.current; fits = h.fits; agree = h.agree }) (λ _. h)
step-IsKeyed (rejected error) s h =
    if_ind IsKeyed (s.in_flight && not s.refetching) (on_rejected error s) s
      (λ _. rejected-IsKeyed error s h) (λ _. h)
step-IsKeyed cart_refetched s h =
    if_ind IsKeyed s.refetching (record (finished s) { message = shipping_changed }) s
      (λ _. record { current = h.current; fits = h.fits; agree = h.agree }) (λ _. h)
step-IsKeyed (cart_changed shipping) s h = record {
  current = h.current;
  fits = h.fits;
  agree = h.agree;
}

run-IsKeyed : (events : List Event) (s : State) → IsKeyed s → IsKeyed (run events s)
unfolding run
run-IsKeyed [] s h = h
run-IsKeyed (event ∷ events) s h = run-IsKeyed events (step event s) (step-IsKeyed event s h)

-- However the presses, answers and changes of the cart are ordered: any two checkout requests of the
-- page with the same number in their idempotency key expect the same shipping fee.
pub run-AllAgree :
    (address_id checkout_key : Text) (cart_shipping : Option ℕ) (events : List Event)
    → AllAgree (run events (initial address_id checkout_key cart_shipping)).requests
run-AllAgree address_id checkout_key cart_shipping events =
    (run-IsKeyed events (initial address_id checkout_key cart_shipping)
      (record { current = tt; fits = tt; agree = tt })).agree
