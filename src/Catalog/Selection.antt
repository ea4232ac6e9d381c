-- ===== src/Catalog/Selection.antt =====
-- mobile/app/(tabs)/(shop)/product/[productId].tsx with components/QuantityStepper.tsx: what the
-- page of a product selects, and what it adds to the cart. The id of the product stays the same.
pub mod Laws
use coffix.Prelude.{
  ℕ, ◌+◌, ◌-◌, min, max, ltb, leb, ◌==◌, Bool, true, false, not, ◌&&◌, ◌||◌, Option, none, some,
  List, [], ◌∷◌, String, str_eq, Text, decimal, find, filter, first, or_option, if◌then◌else◌,
  is_some,
}
use coffix.Storage.{Outcome, ok, failed}
use coffix.Catalog.{
  Sku, ProductMedia, Category, Product, CatalogImage, safe_image_url, product_image, has_stock,
  is_sellable, first_sellable_sku, maximum_quantity,
}

pub data StockLabel : Type 0 where
  stock_available sold_out in_stock : StockLabel
  few_left : ℕ → StockLabel

-- `undefined`, where there is no SKU, and `null`
unfoldable pub stock_label : Option (Option ℕ) → StockLabel
stock_label none = sold_out
stock_label (some none) = stock_available
stock_label (some (some stock)) =
    if stock == 0 then sold_out else if leb stock 5 then few_left stock else in_stock

abbrev pub is_chosen : Option String → Sku → Bool
is_chosen none item = false
is_chosen (some id) item = str_eq item.id id && item.is_active

unfoldable pub display_sku : Option Product → Option String → Option Sku
display_sku none selected = none
display_sku (some product) selected = or_option (find (is_chosen selected) product.skus) (
    or_option (first_sellable_sku product)
      (or_option (find (λ (item : Sku). item.is_active) product.skus) (first product.skus)))

abbrev pub sellable_of : Bool → Option Sku → Option Sku
sellable_of active none = none
sellable_of active (some displayed) =
    if active && is_sellable displayed then some displayed else none

-- The SKU that can be bought.
unfoldable pub selected_sku : Option Product → Option String → Option Sku
unfolding display_sku
selected_sku none selected = none
selected_sku (some product) selected =
    sellable_of product.is_active (display_sku (some product) selected)

abbrev pub maximum_for : Option Sku → ℕ
maximum_for none = 1
maximum_for (some sku) = maximum_quantity sku

abbrev pub is_shown_for : Option Sku → ProductMedia → Bool
is_shown_for none item =
    elim item.sku_id [ none ↦ true | some id ↦ str_eq id "" ] && safe_image_url item.url
is_shown_for (some sku) item =
    elim item.sku_id [ none ↦ true | some id ↦ str_eq id "" || str_eq id sku.id ]
    && safe_image_url item.url

-- The pictures of the product that belong to it or to the displayed SKU.
unfoldable pub gallery : Option Product → Option Sku → List ProductMedia
gallery none displayed = []
gallery (some product) displayed = filter (is_shown_for displayed) product.media

abbrev pub is_image : Option String → ProductMedia → Bool
is_image none item = false
is_image (some id) item = str_eq item.id id

abbrev pub active_image : List ProductMedia → Option String → Option ProductMedia
active_image items selected = or_option (find (is_image selected) items) (first items)

abbrev pub fallback_image : Option Product → Option Category → Option CatalogImage
fallback_image none category = none
fallback_image (some product) category = product_image (record product { media = [] }) category

abbrev pub image_of : Option ProductMedia → Option Product → Option Category → Option CatalogImage
image_of none product category = fallback_image product category
image_of (some media) product category = some (record { alt = media.alt_text_he; url = media.url })

-- A request to add to the cart.
pub record Add : Type 0 where
  pub sku : Sku
  pub quantity : ℕ

pub data AddStatus : Type 0 where
  idle pending error success : AddStatus

-- `selection_key` is the id of the SKU in `selectionKey`; `adds` are the requests, the last one first.
pub record State : Type 0 where
  pub product : Option Product
  pub selected_sku_id : Option String
  pub selected_image : Option String
  pub quantity : ℕ
  pub selection_key : String
  pub add_status : AddStatus
  pub adds : List Add

abbrev pub current_sku : State → Option Sku
current_sku s = selected_sku s.product s.selected_sku_id

-- `sku?.id ?? ''`
abbrev pub selection_key_of : Option Sku → String
selection_key_of none = ""
selection_key_of (some sku) = sku.id

abbrev pub initial : Option Product → State
initial product = record {
  product = product;
  selected_sku_id = none;
  selected_image = none;
  quantity = 1;
  selection_key = selection_key_of (selected_sku product none);
  add_status = idle;
  adds = [];
}

-- What a render does first.
unfoldable pub render : State → State
render s =
    if str_eq s.selection_key (selection_key_of (current_sku s))
    then s
    else record s { selection_key = selection_key_of (current_sku s); quantity = 1 }

abbrev pub is_pending : AddStatus → Bool
is_pending pending = true
is_pending _ = false

-- `disabled` of the stepper and the button
abbrev pub is_disabled : State → Bool
is_disabled s = not (is_some (current_sku s)) || is_pending s.add_status

-- `Math.min(maximum, Math.max(minimum, next))`
abbrev pub clamp : ℕ → ℕ → ℕ → ℕ
clamp minimum maximum next = min maximum (max minimum next)

unfoldable pub decrease : State → State
decrease s =
    if is_disabled s || leb s.quantity 1
    then s
    else record s { quantity = clamp 1 (maximum_for (current_sku s)) (s.quantity - 1) }

unfoldable pub increase : State → State
increase s =
    if is_disabled s || leb (maximum_for (current_sku s)) s.quantity
    then s
    else record s { quantity = clamp 1 (maximum_for (current_sku s)) (s.quantity + 1) }

abbrev pub add_sku : Option Sku → State → State
add_sku none s = s
add_sku (some sku) s = record s {
  add_status = pending;
  adds = record { sku = sku; quantity = s.quantity } ∷ s.adds;
}

unfoldable pub add_to_cart : State → State
add_to_cart s = if is_disabled s then s else add_sku (current_sku s) s

-- How `addToCart` settles.
abbrev pub added : Outcome (Unit {0}) → State → State
added (ok answer) s = record s { add_status = success }
added failed s = record s { add_status = error }

pub data Event : Type 0 where
  fetched : Product → Event
  sku_chosen image_chosen : String → Event
  decrease_pressed increase_pressed add_pressed : Event
  add_settled : Outcome (Unit {0}) → Event

unfoldable pub handle : Event → State → State
unfolding decrease increase add_to_cart
handle (fetched product) s = record s { product = some product }
handle (sku_chosen id) s = record s { selected_sku_id = some id; selected_image = none }
handle (image_chosen id) s = record s { selected_image = some id }
handle decrease_pressed s = decrease s
handle increase_pressed s = increase s
handle add_pressed s = add_to_cart s
handle (add_settled outcome) s = added outcome s

unfoldable pub step : Event → State → State
unfolding handle render
step event s = render (handle event s)

unfoldable pub run : List Event → State → State
unfolding step
run [] s = s
run (event ∷ events) s = run events (step event s)
