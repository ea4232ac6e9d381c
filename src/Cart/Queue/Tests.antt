-- ===== src/Cart/Queue/Tests.antt =====
-- Runs of the queue, and its theorems at concrete inputs.
use coffix.Prelude.{
  ℕ, ◌*◌, ◌+◌, ◌≡◌, refl, true, false, none, some, [], ◌∷◌, ◌++◌, lookup, insert, erase, has, arith,
}
use coffix.Api.{ApiError}
use coffix.Cart.{CartItem, Cart, active, set, optimistic_cart, optimistic_items, cart_message}
use coffix.Cart.Optimistic.{IsConsistent, optimistic_cart-IsConsistent}
use coffix.Cart.Queue.{State, sending, act, answer, reject, refetched, step, run, idle}
use coffix.Cart.Queue.Invariant.{IsAligned, run-IsAligned}
use coffix.Cart.Queue.Delivery.{
  acts, answer_sends_latest, action_lost_in_refetch, reject_rolls_back,
}

abbrev beans : ℕ → CartItem
beans quantity = record {
  attributes = [];
  image_alt_he = none;
  image_url = none;
  is_active = true;
  line_total_agorot = 4500 * quantity;
  name_he = "beans";
  product_id = "p1";
  product_type = "beans";
  quantity = quantity;
  sku_code = "B-1";
  sku_id = "b";
  stock_quantity = some 10;
  unit_price_agorot = 4500;
}

abbrev cart_of : ℕ → Cart
cart_of quantity = record {
  expires_at = "2026-09-03T10:30:00Z";
  id = "c1";
  items = beans quantity ∷ [];
  last_activity_at = "2026-09-03T10:00:00Z";
  shipping_agorot = 2000;
  status = active;
  subtotal_agorot = 4500 * quantity;
  total_agorot = 4500 * quantity + 2000;
  total_quantity = quantity;
  version = 1;
}

-- The first action of a line has been sent, and then its request failed.
abbrev sent_one : State
sent_one = step (act "b" (set 2)) (idle (some (cart_of 1)))

abbrev failed : State
failed = step (reject "b" ApiError.other) sent_one

two_actions_one_request :
    (run
      (act "b" (set 2)
        ∷ act "b" (set 3)
        ∷ act "b" (set 5)
        ∷ answer "b" (cart_of 2)
        ∷ answer "b" (cart_of 5)
        ∷ [])
      (idle (some (cart_of 1)))).requests
    ≡ ("b", set 2) ∷ ("b", set 5) ∷ []
unfolding run step lookup insert erase
two_actions_one_request = refl

optimistic_cart-IsConsistent_example :
    (updated : Cart) × (optimistic_cart (some (cart_of 1)) "b" (set 3) ≡ some updated)
    × IsConsistent updated
optimistic_cart-IsConsistent_example =
    optimistic_cart-IsConsistent (cart_of 1) "b" (set 3) (omega arith)

shown :
    optimistic_cart (some (cart_of 1)) "b" (set 2)
    ≡ some (record (cart_of 2) { total_agorot = 6500 })
unfolding optimistic_cart optimistic_items
shown = refl

run-IsAligned_example : IsAligned "b" (run (act "b" (set 2) ∷ []) (idle (some (cart_of 1))))
run-IsAligned_example = run-IsAligned (some (cart_of 1)) (act "b" (set 2) ∷ []) "b"

answer_sends_latest_example :
    ((step (answer "b" (cart_of 2)) (acts "b" ((set 3 ∷ []) ++ set 5 ∷ []) sent_one)).requests
      ≡ sent_one.requests ++ ("b", set 5) ∷ [])
    × ((step (answer "b" (cart_of 2)) (acts "b" ((set 3 ∷ []) ++ set 5 ∷ []) sent_one)).cache
        ≡ optimistic_cart (some (cart_of 2)) "b" (set 5))
    × (lookup "b"
          (step (answer "b" (cart_of 2)) (acts "b" ((set 3 ∷ []) ++ set 5 ∷ []) sent_one)).processes
        ≡ some (sending (set 5)))
unfolding step lookup insert
answer_sends_latest_example =
    answer_sends_latest "b" sent_one (set 2)
      (record { confirmed = some (cart_of 1); latest = none }) (set 3 ∷ []) (set 5) (cart_of 2) refl
      refl

action_lost_in_refetch_example :
    ((step (refetched "b" none) (acts "b" (set 4 ∷ []) failed)).requests ≡ failed.requests)
    × (has "b" (step (refetched "b" none) (acts "b" (set 4 ∷ []) failed)).queues ≡ false)
    × (has "b" (step (refetched "b" none) (acts "b" (set 4 ∷ []) failed)).pending_skus ≡ false)
unfolding step lookup insert
action_lost_in_refetch_example =
    action_lost_in_refetch "b" failed (set 2)
      (record { confirmed = some (cart_of 1); latest = none }) (set 4 ∷ []) none refl refl

reject_rolls_back_example :
    ((step
        (reject "b" ApiError.other)
        (acts "b" (set 2 ∷ set 3 ∷ []) (idle (some (cart_of 1))))).cache
      ≡ some (cart_of 1))
    × ((step
          (reject "b" ApiError.other)
          (acts "b" (set 2 ∷ set 3 ∷ []) (idle (some (cart_of 1))))).requests
        ≡ ("b", set 2) ∷ [])
    × ((step
          (reject "b" ApiError.other)
          (acts "b" (set 2 ∷ set 3 ∷ []) (idle (some (cart_of 1))))).message
        ≡ cart_message ApiError.other)
unfolding lookup
reject_rolls_back_example =
    reject_rolls_back "b" (idle (some (cart_of 1))) (set 2) (set 3 ∷ []) ApiError.other refl
