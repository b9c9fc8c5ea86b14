-- ===== src/LogViewer/Paging.antt =====
-- Moving between the pages of the log, and what is requested.
use huntarr.Base.{
  ℕ, suc, ◌+◌, ◌-◌, ◌*◌, ◌/◌, ◌<◌, ◌≤◌, max, String, Bool, if◌then◌else◌, ltb, ◌≡◌, refl, arith,
  subst, ap, lookup, decimal, some,
}
use huntarr.LogViewer.{Viewer, total_pages, prev_page, next_page, query}

-- A page that exists, fifty entries to a page.
pub record IsPaged (v : Viewer) : Type 0 where
  pub size : v.per_page ≡ 50
  pub first : 1 ≤ v.page
  pub last : v.page ≤ total_pages v

-- Both buttons lead to a page that exists.
next_page-IsPaged :
    (hidden : Bool) (v : Viewer)
    → IsPaged v
    → IsPaged (next_page hidden v)
      × IsPaged (prev_page hidden v)
      × ((next_page hidden v).page ≡ (if ltb v.page (total_pages v) then suc v.page else v.page))
      × ((prev_page hidden v).page ≡ (if ltb 1 v.page then v.page - 1 else v.page))
unfolding next_page prev_page
next_page-IsPaged hidden v h = ground arith

page_start :
    (page total per_page : ℕ)
    → per_page ≡ 50
    → 1 ≤ page
    → page ≤ max 1 ((total + (per_page - 1)) / per_page)
    → 0 < total
    → (page - 1) * per_page < total
page_start page total per_page size first last some_entry = rw size (
    let bound : page ≤ max 1 ((total + 49) / 50) =
      subst (λ n. page ≤ max 1 ((total + (n - 1)) / n)) size last in
    omega arith)

-- The place that is asked for.
query-lt :
    (to_iso : String → String) (v : Viewer)
    → IsPaged v
    → 0 < v.total
    → (n : ℕ) × (lookup "limit" (query to_iso v) ≡ some (decimal 50))
      × (lookup "offset" (query to_iso v) ≡ some (decimal n))
      × (n < v.total)
unfolding query total_pages lookup
query-lt to_iso v h t = (
  (v.page - 1) * v.per_page,
  ap (λ (k : ℕ). some (decimal k)) h.size,
  refl,
  page_start v.page v.total v.per_page h.size h.first h.last t,
)

-- From a page that exists, both buttons lead to a page that exists: one further or one back where
-- there is one, and the same page where there is none. Unless there is no entry at all, the request
-- for the page asks for fifty entries from a place below the total.
pub next_page-query :
    (hidden : Bool) (to_iso : String → String) (v : Viewer)
    → IsPaged v
    → 0 < v.total
    → IsPaged (next_page hidden v)
      × IsPaged (prev_page hidden v)
      × ((next_page hidden v).page ≡ (if ltb v.page (total_pages v) then suc v.page else v.page))
      × ((prev_page hidden v).page ≡ (if ltb 1 v.page then v.page - 1 else v.page))
      × (n : ℕ) × (lookup "limit" (query to_iso v) ≡ some (decimal 50))
      × (lookup "offset" (query to_iso v) ≡ some (decimal n))
      × (n < v.total)
next_page-query hidden to_iso v h t =
    let (next, prev, forward, back) = next_page-IsPaged hidden v h in
    let (n, limit, offset, below) = query-lt to_iso v h t in
    (next, prev, forward, back, n, limit, offset, below)
