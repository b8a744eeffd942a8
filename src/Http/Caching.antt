-- ===== src/Http/Caching.antt =====
-- pkg/response/cache.go: the ETags of the responses and the answer 304.
use Prim.Native.String.{◌++◌ as str_append}
use beer_avaliation_api.Base.{
  ◌≡◌, ◌↔◌, ◌⊎◌, ◌≢◌, ℕ, pos, String, Bool, true, false, not, ◌&&◌, List, [], ◌∷◌, if◌then◌else◌,
  str_eq, arith, eq_iff,
}
use beer_avaliation_api.Base.Integer.{itoa}
use beer_avaliation_api.Base.Text.{trim_space, split_comma}
use beer_avaliation_api.Http.{Request, header_get, Headers, header_set, header_add, Response, empty}

unfoldable pub quoted : String → String
quoted text = str_append "\"" (str_append text "\"")

-- `ETagForVersion`
unfoldable pub etag_for_version : String → String
unfolding quoted
etag_for_version version = quoted version

-- `ETagForContent`; the parameter is SHA-256 of the payload, in hexadecimal.
unfoldable pub etag_for_content : (String → String) → String → String
unfolding quoted
etag_for_content sha256_hex payload = quoted (sha256_hex payload)

-- The loop of `IfNoneMatchMatches`.
unfoldable pub any_candidate : String → List String → Bool
any_candidate etag [] = false
any_candidate etag (c ∷ cs) =
    let rest = any_candidate etag cs in
    let t = trim_space c in if not (str_eq t "") && str_eq t etag then true else rest

-- `IfNoneMatchMatches` of the header's value.
unfoldable pub if_none_match_matches : String → String → Bool
unfolding any_candidate
if_none_match_matches inm etag =
    if str_eq inm ""
    then false
    else if str_eq inm "*"
    then true
    else any_candidate etag (split_comma inm)

-- `SetCacheHeaders`
unfoldable pub set_cache_headers : String → ℕ → Bool → Headers → Headers
unfolding header_set header_add itoa
set_cache_headers etag max_age must_revalidate h =
    let age = str_append "public, max-age=" (itoa (pos max_age)) in
    header_set "Cache-Control" (if must_revalidate then str_append age ", must-revalidate" else age)
      (header_add "Vary" "Accept-Encoding" (header_set "ETag" etag h))

-- `SendNotModified`
unfoldable pub send_not_modified {ℓ} : {P : Type ℓ} → String → Headers → Response P
unfolding header_set
send_not_modified etag h = record {
  status = 304;
  headers =
      header_set "Cache-Control" "public, max-age=0, must-revalidate"
        (if str_eq etag "" then h else header_set "ETag" etag h);
  content = empty;
}

-- The shape of the reads that a client may revalidate: the answer 304, or the answer with the
-- headers for caches, for a number of seconds.
unfoldable pub revalidated {ℓ κ} :
    {P : Type ℓ} {B : Type κ} → Request B → String → ℕ → (Headers → Response P) → Response P
unfolding header_get if_none_match_matches send_not_modified set_cache_headers
revalidated req etag max_age answer =
    if if_none_match_matches (header_get req "If-None-Match") etag
    then send_not_modified etag []
    else answer (set_cache_headers etag max_age true [])

-- One of the texts is the ETag, with spaces around it.
abbrev pub IsListed : String → List String → Type 0
IsListed etag [] = ⊥
IsListed etag (c ∷ cs) = (trim_space c ≡ etag) ⊎ IsListed etag cs

any_candidate_iff :
    (etag : String) (candidates : List String)
    → (any_candidate etag candidates ≡ true) ↔ ((etag ≢ "") × IsListed etag candidates)
unfolding any_candidate
any_candidate_iff etag [] = ground arith
any_candidate_iff etag (c ∷ cs) =
    ground (arith, any_candidate_iff etag cs, eq_iff (trim_space c) etag, eq_iff (trim_space c) "")

-- The header of a client matches an ETag exactly if it is `*`, or if the ETag is not empty and stands
-- in the header between commas, character by character; so the weak form `W/"v1"` does not stand for
-- `"v1"`. An empty header and an empty candidate match no ETag.
pub if_none_match_matches_iff :
    (inm etag : String)
    → (if_none_match_matches inm etag ≡ true)
      ↔ ((inm ≢ "") × ((inm ≡ "*") ⊎ ((etag ≢ "") × IsListed etag (split_comma inm))))
unfolding if_none_match_matches
if_none_match_matches_iff inm etag =
    ground (arith, any_candidate_iff etag (split_comma inm), eq_iff inm "", eq_iff inm "*")

-- A client that sends back the ETag of the resource is answered 304 without a body, and one that
-- sends none is given the resource.
pub revalidated_cases {ℓ κ} :
    {P : Type ℓ} {B : Type κ} (req : Request B) (etag : String) (max_age : ℕ)
    (answer : Headers → Response P)
    → etag ≢ ""
    → (IsListed etag (split_comma (header_get req "If-None-Match"))
        → header_get req "If-None-Match" ≢ ""
        → revalidated req etag max_age answer ≡ send_not_modified etag [])
      × (header_get req "If-None-Match" ≡ ""
          → revalidated req etag max_age answer ≡ answer (set_cache_headers etag max_age true []))
unfolding revalidated
revalidated_cases req etag max_age answer h =
    let inm = header_get req "If-None-Match" in
    let matches = if_none_match_matches_iff inm etag in
    (ground (arith, matches), ground (arith, matches))
