-- ===== src/Cart/Optimistic.antt =====
-- What an optimistic update of mutations.ts does to the totals of a cart.
use coffix.Prelude.{
  ℕ, ◌+◌, ◌*◌, ◌≡◌, ◌≢◌, refl, ap, List, [], ◌∷◌, Option, none, some, String, arith, All,
}
use coffix.Cart.{
  CartItem, Cart, CartAction, remove, set, line_totals, quantities, set_quantity, optimistic_items,
  optimistic_cart, with_items,
}

-- A line costs its quantity at its unit price.
abbrev pub IsPriced : CartItem → Type 0
IsPriced item = item.line_total_agorot ≡ item.unit_price_agorot * item.quantity

-- The cost of all lines, from quantities and unit prices alone.
abbrev pub cost : List CartItem → ℕ
cost [] = 0
cost (item ∷ items) = item.unit_price_agorot * item.quantity + cost items

pub record IsConsistent (cart : Cart) : Type 0 where
  pub priced : All IsPriced cart.items
  pub subtotal : cart.subtotal_agorot ≡ cost cart.items
  pub counted : cart.total_quantity ≡ quantities cart.items

line_totals-eq-cost : (items : List CartItem) → All IsPriced items → line_totals items ≡ cost items
line_totals-eq-cost [] h = refl
line_totals-eq-cost (item ∷ items) h = omega (arith, h.0, line_totals-eq-cost items h.1)

optimistic_items-IsPriced :
    (sku_id : String) (action : CartAction) (items : List CartItem)
    → All IsPriced items
    → All IsPriced (optimistic_items sku_id action items)
unfolding optimistic_items
optimistic_items-IsPriced sku_id remove [] h = tt
optimistic_items-IsPriced sku_id (set quantity) [] h = tt
optimistic_items-IsPriced sku_id remove (item ∷ items) h =
    ground (arith, optimistic_items-IsPriced sku_id remove items h.1)
optimistic_items-IsPriced sku_id (set quantity) (item ∷ items) h =
    ground (arith, optimistic_items-IsPriced sku_id (set quantity) items h.1)

-- Whatever the action, the optimistic cart has priced lines and totals that are those of its lines.
pub optimistic_cart-IsConsistent :
    (cart : Cart) (sku_id : String) (action : CartAction)
    → All IsPriced cart.items
    → (updated : Cart) × (optimistic_cart (some cart) sku_id action ≡ some updated)
      × IsConsistent updated
unfolding optimistic_cart
optimistic_cart-IsConsistent cart sku_id action h =
    let items = optimistic_items sku_id action cart.items in
    let priced = optimistic_items-IsPriced sku_id action cart.items h in
    (
      with_items cart items,
      refl,
      record { priced = priced; subtotal = line_totals-eq-cost items priced; counted = refl },
    )

set_quantity_absorb :
    (sku_id : String) (p q : ℕ) (item : CartItem)
    → set_quantity sku_id q (set_quantity sku_id p item) ≡ set_quantity sku_id q item
set_quantity_absorb sku_id p q item = ground arith

optimistic_items_absorb :
    (sku_id : String) (p : ℕ) (action : CartAction) (items : List CartItem)
    → optimistic_items sku_id action (optimistic_items sku_id (set p) items)
      ≡ optimistic_items sku_id action items
unfolding optimistic_items
optimistic_items_absorb sku_id p remove [] = refl
optimistic_items_absorb sku_id p (set q) [] = refl
optimistic_items_absorb sku_id p remove (item ∷ items) =
    ground (arith, optimistic_items_absorb sku_id p remove items)
optimistic_items_absorb sku_id p (set q) (item ∷ items) =
    ground
      (arith, set_quantity_absorb sku_id p q item, optimistic_items_absorb sku_id p (set q) items)

-- An action makes every earlier change of the same line's quantity irrelevant.
pub optimistic_cart_absorb :
    (cart : Option Cart) (sku_id : String) (p : ℕ) (action : CartAction)
    → optimistic_cart (optimistic_cart cart sku_id (set p)) sku_id action
      ≡ optimistic_cart cart sku_id action
unfolding optimistic_cart
optimistic_cart_absorb none sku_id p action = refl
optimistic_cart_absorb (some cart) sku_id p action =
    ap (λ items. some (with_items cart items)) (optimistic_items_absorb sku_id p action cart.items)

-- The optimistic update leaves `total_agorot` as it was: where the total included the shipping and
-- the update changes the subtotal, the total no longer does.
pub optimistic_cart-stale_total :
    (cart updated : Cart) (sku_id : String) (action : CartAction)
    → cart.total_agorot ≡ cart.subtotal_agorot + cart.shipping_agorot
    → optimistic_cart (some cart) sku_id action ≡ some updated
    → updated.subtotal_agorot ≢ cart.subtotal_agorot
    → updated.total_agorot ≢ updated.subtotal_agorot + updated.shipping_agorot
unfolding optimistic_cart
optimistic_cart-stale_total cart updated sku_id action h e changed = ground arith
