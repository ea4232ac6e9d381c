-- ===== src/Cart.antt =====
-- mobile/src/features/cart: the cart of the server (packages/api-client/src/generated.ts), and the
-- pure functions of mutations.ts and queries.ts. Amounts in agorot and quantities are whole and
-- not negative. The children hold the request queue of mutations.ts, expiry.ts and the proofs.
pub mod Optimistic
pub mod Queue
pub mod Expiry
pub mod Prices
use coffix.Prelude.{
  ℕ, ◌+◌, ◌*◌, Bool, true, false, not, ◌||◌, Option, none, some, List, [], ◌∷◌, map, String, str_eq,
  ◌==◌, if◌then◌else◌, filter, any, lookup, insert,
}
use coffix.Api.{ApiError}

pub record CartItem : Type 0 where
  pub attributes : List (String × String)
  pub image_alt_he : Option String
  pub image_url : Option String
  pub is_active : Bool
  pub line_total_agorot : ℕ
  pub name_he : String
  pub product_id : String
  pub product_type : String
  pub quantity : ℕ
  pub sku_code : String
  pub sku_id : String
  pub stock_quantity : Option ℕ
  pub unit_price_agorot : ℕ

pub data CartStatus : Type 0 where
  active expired checked_out : CartStatus

pub record Cart : Type 0 where
  pub expires_at : String
  pub id : String
  pub items : List CartItem
  pub last_activity_at : String
  pub shipping_agorot : ℕ
  pub status : CartStatus
  pub subtotal_agorot : ℕ
  pub total_agorot : ℕ
  pub total_quantity : ℕ
  pub version : ℕ

pub data CartAction : Type 0 where
  remove : CartAction
  set : ℕ → CartAction

-- The two `reduce` calls.
abbrev pub line_totals : List CartItem → ℕ
line_totals [] = 0
line_totals (item ∷ items) = item.line_total_agorot + line_totals items

abbrev pub quantities : List CartItem → ℕ
quantities [] = 0
quantities (item ∷ items) = item.quantity + quantities items

abbrev pub set_quantity : String → ℕ → CartItem → CartItem
set_quantity sku_id quantity item =
    if str_eq item.sku_id sku_id
    then record item { line_total_agorot = item.unit_price_agorot * quantity; quantity = quantity }
    else item

unfoldable pub optimistic_items : String → CartAction → List CartItem → List CartItem
optimistic_items sku_id remove items = filter (λ item. not (str_eq item.sku_id sku_id)) items
optimistic_items sku_id (set quantity) items = map (set_quantity sku_id quantity) items

abbrev pub with_items : Cart → List CartItem → Cart
with_items cart items = record cart {
  items = items;
  subtotal_agorot = line_totals items;
  total_quantity = quantities items;
}

unfoldable pub optimistic_cart : Option Cart → String → CartAction → Option Cart
optimistic_cart none sku_id action = none
optimistic_cart (some cart) sku_id action =
    some (with_items cart (optimistic_items sku_id action cart.items))

-- `new Map(items.map(item => [item.sku_id, item.unit_price_agorot]))`: a later entry wins.
abbrev pub add_prices : List (String × ℕ) → List CartItem → List (String × ℕ)
add_prices prices [] = prices
add_prices prices (item ∷ items) =
    add_prices (insert item.sku_id item.unit_price_agorot prices) items

abbrev pub is_price : Option ℕ → ℕ → Bool
is_price none price = false
is_price (some old) price = old == price

unfoldable pub price_changed : Option Cart → Cart → Bool
price_changed none next = false
price_changed (some previous) next =
    let prices = add_prices [] previous.items in
    any (λ item. not (is_price (lookup item.sku_id prices) item.unit_price_agorot)) next.items

-- The texts that the hook shows, one constructor each; `no_message` is the empty string.
pub data CartMessage : Type 0 where
  no_message insufficient_stock cart_expired update_failed price_updated : CartMessage

unfoldable pub cart_message : ApiError → CartMessage
cart_message (ApiError.problem p) =
    if str_eq p.code "INSUFFICIENT_STOCK"
    then insufficient_stock
    else if str_eq p.code "CART_EXPIRED"
    then cart_expired
    else update_failed
cart_message ApiError.other = update_failed

unfoldable pub is_cart_expired_error : ApiError → Bool
is_cart_expired_error (ApiError.problem p) = str_eq p.code "CART_EXPIRED"
is_cart_expired_error ApiError.other = false
