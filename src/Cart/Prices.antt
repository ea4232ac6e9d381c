-- ===== src/Cart/Prices.antt =====
-- The price comparison of mutations.ts against the last price that a cart lists for a SKU.
use coffix.Prelude.{
  ℕ, ◌≡◌, ◌↔◌, refl, false, not, Option, none, some, List, [], ◌∷◌, String, str_eq, arith,
  if◌then◌else◌, any, All, lookup, insert, lookup-insert, or_option,
}
use coffix.Cart.{CartItem, Cart, add_prices, is_price, price_changed}

-- The price of the last line with this SKU.
abbrev pub last_price : String → List CartItem → Option ℕ
last_price sku_id [] = none
last_price sku_id (item ∷ items) =
    or_option (last_price sku_id items)
      (if str_eq item.sku_id sku_id then some item.unit_price_agorot else none)

lookup-add_prices :
    (k : String) (items : List CartItem) (prices : List (String × ℕ))
    → lookup k (add_prices prices items) ≡ or_option (last_price k items) (lookup k prices)
lookup-add_prices k [] prices = refl
lookup-add_prices k (item ∷ items) prices = ground (
  arith,
  lookup-add_prices k items (insert item.sku_id item.unit_price_agorot prices),
  lookup-insert item.sku_id k item.unit_price_agorot prices,
)

is_price_iff :
    (old : Option ℕ) (price : ℕ) → (not (is_price old price) ≡ false) ↔ (old ≡ some price)
is_price_iff old price = ground arith

any_changed_iff :
    (prices : List (String × ℕ)) (items : List CartItem)
    → (any (λ item. not (is_price (lookup item.sku_id prices) item.unit_price_agorot)) items
        ≡ false)
      ↔ All (λ item. lookup item.sku_id prices ≡ some item.unit_price_agorot) items
any_changed_iff prices [] = ground arith
any_changed_iff prices (item ∷ items) = ground (
  arith,
  is_price_iff (lookup item.sku_id prices) item.unit_price_agorot,
  any_changed_iff prices items,
)

All-last_price :
    (previous items : List CartItem)
    → All (λ item. lookup item.sku_id (add_prices [] previous) ≡ some item.unit_price_agorot) items
      ↔ All (λ item. last_price item.sku_id previous ≡ some item.unit_price_agorot) items
unfolding lookup
All-last_price previous [] = ground arith
All-last_price previous (item ∷ items) =
    ground (arith, lookup-add_prices item.sku_id previous [], All-last_price previous items)

-- The prices count as unchanged exactly when every line of the new cart has the last price that the
-- previous cart lists for its SKU; a line with a new SKU counts as a change.
pub price_changed_iff :
    (previous next : Cart)
    → (price_changed (some previous) next ≡ false)
      ↔ All (λ item. last_price item.sku_id previous.items ≡ some item.unit_price_agorot) next.items
unfolding price_changed
price_changed_iff previous next =
    let (to, from) = any_changed_iff (add_prices [] previous.items) next.items in
    let (to', from') = All-last_price previous.items next.items in
    (λ h. to' (to h), λ h. from (from' h))
