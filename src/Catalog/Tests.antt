-- ===== src/Catalog/Tests.antt =====
-- A product that is bought, a search of two pages, and prices and images as they are shown.
use coffix.Prelude.{
  ℕ, ◌≡◌, refl, ◌-◌, ◌+◌, ◌*◌, ◌/◌, ◌≤◌, true, false, some, List, [], ◌∷◌, All, codes, decimal,
  is_digit, arith,
}
use coffix.Storage.{ok}
use coffix.Catalog.{
  Sku, Product, safe_image_url, grouped, format_ils, first_sellable_sku, maximum_quantity,
}
use coffix.Catalog.Paging.{fetch_pages}
use coffix.Catalog.Paging.Laws.{answer_page, pages_from, fetch_pages_ends}
use coffix.Catalog.Selection.{
  display_sku, selected_sku, initial, render, decrease, increase, add_to_cart, Event, fetched,
  increase_pressed, add_pressed, add_settled, run,
}
use coffix.Catalog.Selection.Laws.{IsOrderable, run-IsOrderable}

price_shown : format_ils 123456705 ≡ codes "₪1,234,567.05"
unfolding format_ils grouped decimal
price_shown = refl

port_allowed : safe_image_url (codes "http://10.0.2.2:8000/a.png") ≡ true
unfolding safe_image_url is_digit
port_allowed = refl

host_checked : safe_image_url (codes "http://localhost.example.com/a.png") ≡ false
unfolding safe_image_url is_digit
host_checked = refl

abbrev beans : ℕ → Sku
beans stock = record {
  id = "s1";
  is_active = true;
  stock_quantity = some stock;
  price_agorot = 5900;
}

abbrev coffee : ℕ → Product
coffee stock = record { is_active = true; media = []; skus = beans stock ∷ [] }

abbrev buy_two : List Event
buy_two = increase_pressed ∷ add_pressed ∷ add_settled (ok tt) ∷ increase_pressed ∷ []

two_added :
    (run buy_two (initial (some (coffee 2)))).adds ≡ record { sku = beans 2; quantity = 2 } ∷ []
unfolding run render decrease increase add_to_cart display_sku selected_sku first_sellable_sku
    maximum_quantity
two_added = refl

-- The stock falls while the page is open: the quantity stays.
stock_falls :
    (run
      (increase_pressed ∷ increase_pressed ∷ fetched (coffee 2) ∷ add_pressed ∷ [])
      (initial (some (coffee 9)))).adds
    ≡ record { sku = beans 2; quantity = 3 } ∷ []
unfolding run render decrease increase add_to_cart display_sku selected_sku first_sellable_sku
    maximum_quantity
stock_falls = refl

run-IsOrderable_example : All IsOrderable (run buy_two (initial (some (coffee 2)))).adds
run-IsOrderable_example = run-IsOrderable (some (coffee 2)) buy_two

fetch_pages_ends_example :
    (fetch_pages (answer_page 12 25) 3 1 ≡ some (pages_from 12 25 1 3))
    × (25 ≤ (1 + (25 - 1) / 12) * 12)
    × ((25 - 1) / 12 * 12 ≤ 25)
fetch_pages_ends_example = fetch_pages_ends 12 25 3 (omega arith) (omega arith)
