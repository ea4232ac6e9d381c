-- ===== src/Catalog/Paging.antt =====
-- mobile/src/features/catalog/queries.ts and useDebouncedSearch.ts: the pages of a search, which
-- react-query asks for one after the other, and the debounced text of the search.
pub mod Laws
use coffix.Prelude.{
  ℕ, zero, suc, ◌+◌, ◌*◌, ltb, Bool, true, false, not, ◌&&◌, ◌||◌, Option, none, some, List, [],
  ◌∷◌, Text, trim, is_empty, text_eq, leb, if◌then◌else◌,
}

-- The fields of `ProductList` that are read.
pub record ProductPage : Type 0 where
  pub page : ℕ
  pub limit : ℕ
  pub total : ℕ

abbrev pub page_size : ℕ
page_size = 12

unfoldable pub get_next_page_param : ProductPage → Option ℕ
get_next_page_param last =
    if ltb (last.page * last.limit) last.total then some (last.page + 1) else none

abbrev pub limit_or_default : Option ℕ → ℕ
limit_or_default none = page_size
limit_or_default (some limit) = limit

abbrev pub fetch_next :
    (ℕ → ProductPage)
    → (ℕ → Option (List ProductPage))
    → ProductPage
    → Option ℕ
    → Option (List ProductPage)
fetch_next server fetch last none = some (last ∷ [])
fetch_next server fetch last (some page) = elim (fetch page) [
  | none ↦ none
  | some pages ↦ some (last ∷ pages)
]

-- The pages that are asked for while each next one is fetched, from the server's answer to a page
-- number; `none` when the fuel runs out.
unfoldable pub fetch_pages : (ℕ → ProductPage) → ℕ → ℕ → Option (List ProductPage)
fetch_pages server zero page = none
fetch_pages server (suc fuel) page =
    fetch_next server (fetch_pages server fuel) (server page) (get_next_page_param (server page))

-- The hook's text and its debounced text; `timer` is the text that the pending timer will set.
pub record Search : Type 0 where
  pub normalized : Text
  pub debounced : Text
  pub timer : Option Text

abbrev pub begin_search : ℕ → Text → Search
begin_search delay_ms value = record {
  normalized = trim value;
  debounced = trim value;
  timer = if leb delay_ms 0 || is_empty (trim value) then none else some (trim value);
}

-- A render with a new value; the effect runs again only when the normalized text differs.
unfoldable pub search_changed : ℕ → Text → Search → Search
search_changed delay_ms value s =
    let text = trim value in
    if text_eq text s.normalized then s else record {
      normalized = text;
      debounced = if is_empty text then [] else s.debounced;
      timer = if leb delay_ms 0 || is_empty text then none else some text;
    }

abbrev pub fire : Option Text → Search → Search
fire none s = s
fire (some text) s = record s { debounced = text; timer = none }

abbrev pub timer_fired : Search → Search
timer_fired s = fire s.timer s

abbrev pub search_text : ℕ → Search → Text
search_text delay_ms s = if leb delay_ms 0 then s.normalized else s.debounced
