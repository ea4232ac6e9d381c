-- ===== src/Catalog/Selection/Laws.antt =====
-- What the product page adds to the cart.
use coffix.Prelude.{
  ℕ, ◌+◌, ◌-◌, ◌≤◌, leb, ◌≡◌, refl, Bool, true, false, ◌||◌, Option, none, some, List, [], ◌∷◌,
  String, str_eq, All, if◌then◌else◌, if_ind, arith, Option-cases, inl, inr,
}
use coffix.Storage.{ok, failed}
use coffix.Catalog.{Sku, Product, is_sellable, maximum_quantity}
use coffix.Catalog.Selection.{
  display_sku, sellable_of, selected_sku, maximum_for, Add, State, current_sku, selection_key_of,
  initial, render, is_disabled, clamp, decrease, increase, add_sku, add_to_cart, Event, fetched,
  sku_chosen, image_chosen, decrease_pressed, increase_pressed, add_pressed, add_settled, handle,
  step, run,
}

-- A request for an active SKU with stock, of 1 to 99 pieces.
abbrev pub IsOrderable : Add → Type 0
IsOrderable add = (is_sellable add.sku ≡ true) × (1 ≤ add.quantity) × (add.quantity ≤ 99)

record IsSound (s : State) : Type 0 where
  low : 1 ≤ s.quantity
  high : s.quantity ≤ 99
  orderable : All IsOrderable s.adds

maximum-le : (o : Option Sku) → maximum_for o ≤ 99
unfolding maximum_quantity
maximum-le none = omega arith
maximum-le (some sku) = elim (Option-cases sku.stock_quantity) [
  | inl e ↦ rw e (omega arith)
  | inr (stock, e) ↦ rw e (ground arith)
]

clamp_bounds : (m n : ℕ) → 1 ≤ m → m ≤ 99 → (1 ≤ clamp 1 m n) × (clamp 1 m n ≤ 99)
clamp_bounds m n h k = ground arith

sellable_of-is_sellable :
    (active : Bool) (displayed : Option Sku) (sku : Sku)
    → sellable_of active displayed ≡ some sku
    → is_sellable sku ≡ true
sellable_of-is_sellable active none sku e = cc
sellable_of-is_sellable active (some displayed) sku e = ground arith

selected_sku-is_sellable :
    (product : Option Product) (selected : Option String) (sku : Sku)
    → selected_sku product selected ≡ some sku
    → is_sellable sku ≡ true
unfolding selected_sku
selected_sku-is_sellable none selected sku e = cc
selected_sku-is_sellable (some product) selected sku e =
    sellable_of-is_sellable product.is_active (display_sku (some product) selected) sku e

maximum_pos : (sku : Sku) → is_sellable sku ≡ true → 1 ≤ maximum_quantity sku
unfolding maximum_quantity
maximum_pos sku h = elim (Option-cases sku.stock_quantity) [
  | inl e ↦ rw e (omega arith)
  | inr (stock, e) ↦ ground arith
]

maximum_for_pos : (s : State) → 1 ≤ maximum_for (current_sku s)
maximum_for_pos s = elim (Option-cases (current_sku s)) [
  | inl e ↦ rw e (omega arith)
  | inr (sku, e) ↦
      rw e (maximum_pos sku (selected_sku-is_sellable s.product s.selected_sku_id sku e))
]

set_quantity-IsSound :
    (b : Bool) (s : State) (n : ℕ)
    → IsSound s
    → IsSound (if b then s else record s { quantity = clamp 1 (maximum_for (current_sku s)) n })
set_quantity-IsSound true s n h = h
set_quantity-IsSound false s n h =
    let bounds =
      clamp_bounds (maximum_for (current_sku s)) n (maximum_for_pos s)
        (maximum-le (current_sku s)) in
    record { low = bounds.0; high = bounds.1; orderable = h.orderable }

add_sku-IsSound :
    (o : Option Sku) (s : State) → current_sku s ≡ o → IsSound s → IsSound (add_sku o s)
add_sku-IsSound none s e h = h
add_sku-IsSound (some sku) s e h = record {
  low = h.low;
  high = h.high;
  orderable =
      ((selected_sku-is_sellable s.product s.selected_sku_id sku e, h.low, h.high), h.orderable);
}

handle-IsSound : (event : Event) (s : State) → IsSound s → IsSound (handle event s)
unfolding handle decrease increase add_to_cart
handle-IsSound (fetched product) s h = record {
  low = h.low;
  high = h.high;
  orderable = h.orderable;
}
handle-IsSound (sku_chosen id) s h = record { low = h.low; high = h.high; orderable = h.orderable }
handle-IsSound (image_chosen id) s h = record {
  low = h.low;
  high = h.high;
  orderable = h.orderable;
}
handle-IsSound decrease_pressed s h =
    set_quantity-IsSound (is_disabled s || leb s.quantity 1) s (s.quantity - 1) h
handle-IsSound increase_pressed s h =
    set_quantity-IsSound (is_disabled s || leb (maximum_for (current_sku s)) s.quantity) s
      (s.quantity + 1) h
handle-IsSound add_pressed s h =
    if_ind IsSound (is_disabled s) s (add_sku (current_sku s) s) (λ _. h)
      (λ _. add_sku-IsSound (current_sku s) s refl h)
handle-IsSound (add_settled (ok answer)) s h = record {
  low = h.low;
  high = h.high;
  orderable = h.orderable;
}
handle-IsSound (add_settled failed) s h = record {
  low = h.low;
  high = h.high;
  orderable = h.orderable;
}

render-IsSound : (s : State) → IsSound s → IsSound (render s)
unfolding render
render-IsSound s h =
    if_ind IsSound (str_eq s.selection_key (selection_key_of (current_sku s))) s
      (record s { selection_key = selection_key_of (current_sku s); quantity = 1 }) (λ _. h)
      (λ _. record { low = omega arith; high = omega arith; orderable = h.orderable })

run-IsSound : (events : List Event) (s : State) → IsSound s → IsSound (run events s)
unfolding run step
run-IsSound [] s h = h
run-IsSound (event ∷ events) s h =
    run-IsSound events (step event s) (render-IsSound (handle event s) (handle-IsSound event s h))

-- Whatever products are fetched, SKUs are chosen and buttons are pressed: each request to add to the
-- cart is for a SKU that was active and in stock when it was made, and for 1 to 99 pieces.
pub run-IsOrderable :
    (product : Option Product) (events : List Event)
    → All IsOrderable (run events (initial product)).adds
run-IsOrderable product events =
    (run-IsSound events (initial product)
      (record { low = omega arith; high = omega arith; orderable = tt })).orderable
