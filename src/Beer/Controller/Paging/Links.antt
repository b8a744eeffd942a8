-- ===== src/Beer/Controller/Paging/Links.antt =====
-- The links of a page (internal/beer/delivery/http/links.go).
use native.Mathlib.Nat.{div-lt_iff_lt-mul}
use beer_avaliation_api.Base.{
  ◌≡◌, ◌↔◌, ℕ, ◌+◌, ◌-◌, ◌*◌, ◌/◌, ◌^◌, ◌≤◌, ◌<◌, ℤ, pos, negsuc, String, [], ◌∷◌, ltb, arith,
  ltb→lt, Bool-cases, inl, inr,
}
use beer_avaliation_api.Http.{Request, Headers, header_set}
use beer_avaliation_api.Beer.Controller.Paging.{
  last_page, at_least_one, link_text, join_links, page_links, link_target, link_pages,
  set_pagination_links,
}

covers_iff :
    (total size page : ℕ)
    → 1 ≤ total
    → 1 ≤ size
    → ((total + size - 1) / size ≤ page) ↔ (total ≤ page * size)
covers_iff total size page h k =
    let split = div-lt_iff_lt-mul {k = size} {x = total + size - 1} {y = page + 1} k in
    ground (arith, split)

last_page-pos :
    (total size : ℕ)
    → total + size ≤ 2 ^ 63
    → last_page total size ≡ pos ((total + size - 1) / size)
unfolding last_page
last_page-pos total size h = ground arith

at_least_one-pos : (page : ℤ) → 1 ≤ at_least_one page
unfolding at_least_one
at_least_one-pos (negsuc n) = omega arith
at_least_one-pos (pos n) = ground arith

page_links-inner :
    (target : String) (page last : ℕ) (size : ℤ)
    → page < last
    → 1 < last
    → page_links target page last size
      ≡ link_text target (page + 1) size "next" ∷ link_text target last size "last" ∷ []
unfolding page_links
page_links-inner target page last size h k = ground arith

link_pages-inner :
    (target : String) (page last : ℕ) (size : ℤ) (h : Headers)
    → 1 ≤ page
    → page < last
    → link_pages target page (pos last) size h
      ≡ header_set "Link"
          (join_links
            (link_text target (page + 1) size "next")
            (link_text target last size "last" ∷ []))
          h
unfolding link_pages
link_pages-inner target page last size h one before =
    let links = page_links-inner target page last size before (omega (arith, one, before)) in
    ground (arith, links, before)

link_pages-outer :
    (target : String) (page last : ℕ) (size : ℤ) (h : Headers)
    → last ≤ page
    → link_pages target page (pos last) size h ≡ h
unfolding link_pages
link_pages-outer target page last size h after = ground arith

set_pagination_links-link_pages {ℓ} :
    {B : Type ℓ} (req : Request B) (page : ℤ) (size total : ℕ) (path : String) (h : Headers)
    → 1 ≤ size
    → 1 ≤ total
    → set_pagination_links req page (pos size) total path h
      ≡ link_pages (link_target req path) (at_least_one page) (last_page total size) (pos size) h
unfolding set_pagination_links
set_pagination_links-link_pages req page size total path h one some_left = ground arith

set_pagination_links-none {ℓ} :
    {B : Type ℓ} (req : Request B) (page : ℤ) (size total : ℕ) (path : String) (h : Headers)
    → total ≡ 0
    → set_pagination_links req page (pos size) total path h ≡ h
unfolding set_pagination_links
set_pagination_links-none req page size total path h none_left = ground arith

-- A page after which no beers are left is sent without links. Any other page is sent with links to
-- the next page and to the last one, which holds the last beer.
pub set_pagination_links_cases {ℓ} :
    {B : Type ℓ} (req : Request B) (page : ℤ) (size total : ℕ) (path : String) (h : Headers)
    → 1 ≤ size
    → total + size ≤ 2 ^ 63
    → (total ≤ at_least_one page * size → set_pagination_links req page (pos size) total path h ≡ h)
      × (at_least_one page * size < total
          → (last : ℕ) × (total ≤ last * size)
            × ((last - 1) * size < total)
            × (set_pagination_links req page (pos size) total path h
                ≡ header_set "Link"
                    (join_links
                      (link_text (link_target req path) (at_least_one page + 1) (pos size) "next")
                      (link_text (link_target req path) last (pos size) "last" ∷ []))
                    h))
set_pagination_links_cases req page size total path h one fits =
    let current = at_least_one page in
    let last = (total + size - 1) / size in
    let target = link_target req path in
    let known = at_least_one-pos page in
    let paged = last_page-pos total size fits in
    (
      λ enough. elim (Bool-cases (ltb 0 total)) [
        | inl e ↦
            let some_left = ltb→lt 0 total e in
            let reached : last ≤ current =
              ground (arith, covers_iff total size current some_left one) in
            rw (
              set_pagination_links-link_pages req page size total path h one some_left,
              paged,
              link_pages-outer target current last (pos size) h reached,
            )
        | inr e ↦ set_pagination_links-none req page size total path h (ground arith)
      ],
      λ more.
          let some_left : 1 ≤ total = omega (arith, more) in
          let before : current < last =
            ground (arith, more, covers_iff total size current some_left one) in
          let whole : total ≤ last * size =
            ground (arith, covers_iff total size last some_left one) in
          let tight : (last - 1) * size < total =
            ground (arith, before, known, covers_iff total size (last - 1) some_left one) in
          (
            last,
            whole,
            tight,
            rw (
              set_pagination_links-link_pages req page size total path h one some_left,
              paged,
              link_pages-inner target current last (pos size) h known before,
            ),
          ),
    )
