-- ===== src/Catalog/Paging/Laws.antt =====
-- The pages of a search end.
use coffix.Prelude.{
  ℕ, zero, suc, ◌+◌, ◌-◌, ◌*◌, ◌/◌, ◌≤◌, ◌<◌, ◌≡◌, refl, subst, none, some, List, [], ◌∷◌, arith,
}
use coffix.Catalog.Paging.{ProductPage, get_next_page_param, fetch_pages}

-- A server with a fixed number of products answers the page that it is asked for.
abbrev pub answer_page : ℕ → ℕ → ℕ → ProductPage
answer_page limit total page = record { page = page; limit = limit; total = total }

-- The pages from `page` on, as many as given.
abbrev pub pages_from : ℕ → ℕ → ℕ → ℕ → List ProductPage
pages_from limit total page zero = []
pages_from limit total page (suc n) =
    answer_page limit total page ∷ pages_from limit total (page + 1) n

next_more :
    (limit total page : ℕ)
    → page * limit < total
    → get_next_page_param (answer_page limit total page) ≡ some (page + 1)
unfolding get_next_page_param
next_more limit total page h = ground arith

next_last :
    (limit total page : ℕ)
    → total ≤ page * limit
    → get_next_page_param (answer_page limit total page) ≡ none
unfolding get_next_page_param
next_last limit total page h = ground arith

earlier : (limit total n page : ℕ) → (page + suc n - 1) * limit < total → page * limit < total
earlier limit total n page h = grind arith

-- With `n` more pages to come than this one.
fetch_from :
    (limit total n fuel page : ℕ)
    → (0 < n → (page + n - 1) * limit < total)
    → total ≤ (page + n) * limit
    → n < fuel
    → fetch_pages (answer_page limit total) fuel page ≡ some (pages_from limit total page (suc n))
unfolding fetch_pages
fetch_from limit total n zero page more last f = absurd (omega arith)
fetch_from limit total zero (suc fuel) page more last f =
    rw (next_last limit total page (subst (λ (p : ℕ). total ≤ p * limit) (omega arith) last)) refl
fetch_from limit total (suc n) (suc fuel) page more last f =
    rw (next_more limit total page (earlier limit total n page (more (omega arith)))) (
      rw
        (fetch_from limit total n fuel (page + 1)
          (λ h. subst (λ (p : ℕ). p * limit < total) (omega arith) (more (omega arith)))
          (subst (λ (p : ℕ). total ≤ p * limit) (omega arith) last) (omega arith))
        refl)

-- When the server answers each page of a search with the same limit, which is not 0, and the same
-- total: however large that is, the pages end; they are pages 1 to the one that holds the last product,
-- and one more unit of fuel than that is enough.
pub fetch_pages_ends :
    (limit total fuel : ℕ)
    → 0 < limit
    → (total - 1) / limit < fuel
    → (fetch_pages (answer_page limit total) fuel 1
        ≡ some (pages_from limit total 1 (suc ((total - 1) / limit))))
      × (total ≤ (1 + (total - 1) / limit) * limit)
      × ((total - 1) / limit * limit ≤ total)
fetch_pages_ends limit total fuel h f =
    let covered : total ≤ (1 + (total - 1) / limit) * limit = grind arith in
    let needed : 0 < (total - 1) / limit → (total - 1) / limit * limit < total = λ p. grind arith in
    (
      fetch_from limit total ((total - 1) / limit) fuel 1
          (λ p. subst (λ (n : ℕ). n * limit < total) (omega arith) (needed p)) covered f,
      covered,
      grind arith,
    )
