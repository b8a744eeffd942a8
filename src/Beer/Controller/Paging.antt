-- ===== src/Beer/Controller/Paging.antt =====
-- How the controllers page: `clampPageSize` and `getIntParam` of
-- internal/beer/delivery/http/beer_controller.go, `clampLimit` of moderation_controller.go, and
-- internal/beer/delivery/http/links.go, all beside each other.
pub mod Links
use Prim.Native.String.{◌++◌ as str_append}
use native.Mathlib.Nat.{div-lt_iff_lt-mul}
use beer_avaliation_api.Base.{
  ◌≡◌, ◌↔◌, refl, ℕ, ◌+◌, ◌-◌, ◌*◌, ◌/◌, ◌^◌, ◌≤◌, ◌<◌, ℤ, pos, negsuc, String, false, ◌||◌, not,
  ◌&&◌, none, some, List, [], ◌∷◌, ◌++◌, if◌then◌else◌, ltb, leb, ◌==◌, str_eq, arith, sym, ap, ◌∙◌,
  if_cases, ltb→lt, eq_iff, Bool-cases, inl, inr,
}
use beer_avaliation_api.Base.Integer.{neg, atoi, itoa, itoa_pos, atoi-itoa_pos}
use beer_avaliation_api.Http.{Request, query_get, header_get, Headers, header_set}

-- `clampPageSize`
unfoldable pub clamp_page_size : ℤ → ℤ
clamp_page_size (negsuc n) = pos 1
clamp_page_size (pos n) = if ltb n 1 then pos 1 else if ltb 50 n then pos 50 else pos n

-- `getIntParam`
unfoldable pub get_int_param {ℓ} : {B : Type ℓ} → Request B → String → ℤ → ℤ
unfolding query_get atoi
get_int_param req key default_value =
    let param = query_get req key in
    if str_eq param ""
    then default_value
    else elim (atoi param) [ none ↦ default_value | some value ↦ value ]

-- `clampLimit`
unfoldable pub clamp_limit : String → ℤ
unfolding atoi
clamp_limit raw = if str_eq raw "" then pos 20 else elim (atoi raw) [
  | none ↦ pos 20
  | some value ↦ elim value [
    | negsuc n ↦ pos 20
    | pos n ↦ if ltb n 1 then pos 20 else if ltb 100 n then pos 100 else pos n
  ]
]

-- `(total + pageSize - 1) / pageSize` for positive numbers, in 64 bits: a sum that wraps is negative,
-- and division rounds to zero.
unfoldable pub last_page : ℕ → ℕ → ℤ
unfolding neg
last_page total size =
    let sum = total + size - 1 in
    if ltb sum (2 ^ 63) then pos (sum / size) else neg ((2 ^ 64 - sum) / size)

-- `if page < 1 { page = 1 }`
unfoldable pub at_least_one : ℤ → ℕ
at_least_one (negsuc n) = 1
at_least_one (pos n) = if ltb n 1 then 1 else n

-- `fmt.Sprintf` of a link.
unfoldable pub link_text : String → ℕ → ℤ → String → String
unfolding itoa itoa_pos
link_text target page page_size rel = str_append "<" (
    str_append target (
      str_append "?page=" (
        str_append (itoa_pos page) (
          str_append "&pageSize="
            (str_append (itoa page_size) (str_append ">; rel=\"" (str_append rel "\"")))))))

-- `joinLinks` of a first link and the others.
unfoldable pub join_links : String → List String → String
join_links out [] = out
join_links out (l ∷ ls) = join_links (str_append out (str_append ", " l)) ls

-- The scheme of the links: what the proxy says, if it says one of the two.
unfoldable pub scheme_of {ℓ} : {B : Type ℓ} → Request B → String
unfolding header_get
scheme_of req =
    let proto = header_get req "X-Forwarded-Proto" in
    let scheme = if not req.is_tls && str_eq proto "http" then "http" else "https" in
    if str_eq proto "http" || str_eq proto "https" then proto else scheme

-- The links of a page before the last one.
unfoldable pub page_links : String → ℕ → ℕ → ℤ → List String
unfolding link_text
page_links target page last page_size =
    (if ltb page last then link_text target (page + 1) page_size "next" ∷ [] else [])
    ++ (if ltb 1 last then link_text target last page_size "last" ∷ [] else [])

abbrev set_links : List String → Headers → Headers
unfolding header_set join_links
set_links [] h = h
set_links (l ∷ ls) h = header_set "Link" (join_links l ls) h

-- `base+path`
unfoldable pub link_target {ℓ} : {B : Type ℓ} → Request B → String → String
unfolding scheme_of
link_target req path = str_append (scheme_of req) (str_append "://" (str_append req.host path))

-- The end of `setPaginationLinks`, with the last page in hand.
unfoldable pub link_pages : String → ℕ → ℤ → ℤ → Headers → Headers
unfolding page_links header_set join_links
link_pages target current (negsuc n) page_size h = h
link_pages target current (pos last) page_size h =
    if leb last current then h else set_links (page_links target current last page_size) h

-- `setPaginationLinks`
unfoldable pub set_pagination_links {ℓ} :
    {B : Type ℓ} → Request B → ℤ → ℤ → ℕ → String → Headers → Headers
unfolding last_page at_least_one link_target link_pages
set_pagination_links req page (negsuc n) total path h = h
set_pagination_links req page (pos size) total path h =
    let current = at_least_one page in
    if total == 0 || size == 0
    then h
    else link_pages (link_target req path) current (last_page total size) (pos size) h

-- Whatever a client asks for, a page holds from 1 to 50 beers, and a size in that range is kept.
pub clamp_page_size_bounds :
    (n : ℤ)
    → (size : ℕ) × (clamp_page_size n ≡ pos size)
      × (1 ≤ size)
      × (size ≤ 50)
      × ((asked : ℕ) → n ≡ pos asked → 1 ≤ asked → asked ≤ 50 → size ≡ asked)
unfolding clamp_page_size
clamp_page_size_bounds (negsuc n) = (1, refl, omega arith, omega arith, λ asked e. ground arith)
clamp_page_size_bounds (pos n) =
    if_cases
      (λ c.
        (size : ℕ) × (c ≡ pos size)
        × (1 ≤ size)
        × (size ≤ 50)
        × ((asked : ℕ) → pos n ≡ pos asked → 1 ≤ asked → asked ≤ 50 → size ≡ asked))
      (ltb n 1) (λ e. (1, refl, omega arith, omega arith, λ asked p. ground arith))
      (λ e.
        if_cases
          (λ c.
            (size : ℕ) × (c ≡ pos size)
            × (1 ≤ size)
            × (size ≤ 50)
            × ((asked : ℕ) → pos n ≡ pos asked → 1 ≤ asked → asked ≤ 50 → size ≡ asked))
          (ltb 50 n) (λ f. (50, refl, omega arith, omega arith, λ asked p. ground arith))
          (λ f. (n, refl, ground arith, ground arith, λ asked p. ground arith)))
