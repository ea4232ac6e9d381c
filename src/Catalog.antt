-- ===== src/Catalog.antt =====
-- mobile/src/features/catalog/types.ts: the products of the catalog, their images and prices. The
-- pages of a search are in Catalog/Paging, the product page in Catalog/Selection.
pub mod Paging
pub mod Selection
mod Tests
use coffix.Prelude.{
  ℕ, zero, suc, ◌/◌, ◌%◌, min, ltb, leb, ◌==◌, Bool, true, false, ◌&&◌, ◌||◌, Option, none, some,
  List, [], ◌∷◌, ◌++◌, reverse, String, Text, codes, is_digit, decimal, pad_two, find, first,
  if◌then◌else◌,
}

-- The fields that are read.
pub record Sku : Type 0 where
  pub id : String
  pub is_active : Bool
  pub stock_quantity : Option ℕ
  pub price_agorot : ℕ

pub record ProductMedia : Type 0 where
  pub id : String
  pub sku_id : Option String
  pub url : Text
  pub alt_text_he : Text

pub record Category : Type 0 where
  pub id : String
  pub image_url : Option Text
  pub name_he : Text

pub record Product : Type 0 where
  pub is_active : Bool
  pub media : List ProductMedia
  pub skus : List Sku

pub record CatalogImage : Type 0 where
  pub alt : Text
  pub url : Text

-- What follows a prefix.
abbrev pub strip_prefix : Text → Text → Option Text
strip_prefix [] s = some s
strip_prefix (c ∷ p) [] = none
strip_prefix (c ∷ p) (d ∷ s) = if c == d then strip_prefix p s else none

-- `\d*\/`
abbrev pub digits_slash : Text → Bool
digits_slash [] = false
digits_slash (c ∷ s) = c == b'/' || (is_digit c && digits_slash s)

-- `(:\d+)?\/`
abbrev pub port_slash : Text → Bool
port_slash [] = false
port_slash (c ∷ []) = c == b'/'
port_slash (c ∷ (d ∷ s)) = c == b'/' || (c == b':' && (is_digit d && digits_slash s))

abbrev pub is_local_host : Option Text → Bool
is_local_host none = false
is_local_host (some rest) = port_slash rest

abbrev pub has_prefix : Text → Text → Bool
has_prefix p s = elim (strip_prefix p s) [ none ↦ false | some rest ↦ true ]

unfoldable pub safe_image_url : Text → Bool
safe_image_url url =
    has_prefix (codes "https://") url
    || is_local_host (strip_prefix (codes "http://localhost") url)
    || is_local_host (strip_prefix (codes "http://10.0.2.2") url)
    || is_local_host (strip_prefix (codes "http://127.0.0.1") url)

abbrev pub safe_image : Text → Option Text → Option CatalogImage
safe_image alt none = none
safe_image alt (some []) = none
safe_image alt (some (c ∷ url)) =
    if safe_image_url (c ∷ url) then some (record { alt = alt; url = c ∷ url }) else none

unfoldable pub category_image : Category → Option CatalogImage
category_image category = safe_image category.name_he category.image_url

abbrev pub optional_category_image : Option Category → Option CatalogImage
optional_category_image none = none
optional_category_image (some category) = category_image category

abbrev pub media_or : Option ProductMedia → Option CatalogImage → Option CatalogImage
media_or none other = other
media_or (some media) other =
    if safe_image_url media.url
    then some (record { alt = media.alt_text_he; url = media.url })
    else other

unfoldable pub product_image : Product → Option Category → Option CatalogImage
product_image product category = media_or (first product.media) (optional_category_image category)

-- `sku.stock_quantity === null || sku.stock_quantity > 0`
abbrev pub has_stock : Option ℕ → Bool
has_stock none = true
has_stock (some stock) = ltb 0 stock

abbrev pub is_sellable : Sku → Bool
is_sellable sku = sku.is_active && has_stock sku.stock_quantity

unfoldable pub first_sellable_sku : Product → Option Sku
first_sellable_sku product = if product.is_active then find is_sellable product.skus else none

abbrev pub maximum_of : Option ℕ → ℕ
maximum_of none = 99
maximum_of (some stock) = min 99 stock

unfoldable pub maximum_quantity : Sku → ℕ
maximum_quantity sku = maximum_of sku.stock_quantity

-- `toLocaleString('en-US')` of a whole number: a comma before each three digits that others precede.
-- The digits come with the last one first.
abbrev pub group_reversed : Text → Text
group_reversed [] = []
group_reversed (a ∷ []) = a ∷ []
group_reversed (a ∷ (b ∷ [])) = a ∷ b ∷ []
group_reversed (a ∷ (b ∷ (c ∷ []))) = a ∷ b ∷ c ∷ []
group_reversed (a ∷ (b ∷ (c ∷ (d ∷ more)))) = a ∷ b ∷ c ∷ b',' ∷ group_reversed (d ∷ more)

unfoldable pub grouped : ℕ → Text
grouped n = reverse (group_reversed (reverse (decimal n)))

-- The cents, if there are any.
abbrev pub cents : ℕ → Text
cents remainder = if remainder == 0 then [] else b'.' ∷ pad_two (decimal remainder)

unfoldable pub format_ils : ℕ → Text
unfolding grouped
format_ils agorot = codes "₪" ++ grouped (agorot / 100) ++ cents (agorot % 100)
