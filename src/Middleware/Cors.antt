-- ===== src/Middleware/Cors.antt =====
-- pkg/middleware/cors.go: which origins may call, and what a preflight is answered.
use beer_avaliation_api.Base.{
  ◌≡◌, ◌≢◌, refl, String, Bool, true, false, not, Option, none, some, List, [], ◌∷◌, map,
  if◌then◌else◌, str_eq, select, arith, eq_iff,
}
use beer_avaliation_api.Base.Text.{trim_space, split_comma}
use beer_avaliation_api.Http.{Request, header_get, Headers, header_set, Handler, empty}

-- `parseList`
unfoldable pub parse_list : String → List String
unfolding split_comma trim_space select
parse_list text =
    if str_eq text ""
    then []
    else select (λ p. not (str_eq p "")) (map trim_space (split_comma text))

unfoldable pub has_origin : String → List String → Bool
has_origin origin [] = false
has_origin origin (o ∷ os) =
    let rest = has_origin origin os in if str_eq o origin then true else rest

-- `isAllowedOrigin`; the regular expression, if one is configured, is the test that it compiles to.
unfoldable pub is_allowed_origin : String → List String → Option (String → Bool) → Bool
unfolding has_origin
is_allowed_origin origin allowed re =
    if has_origin origin allowed
    then true
    else elim re [ none ↦ false | some matches ↦ matches origin ]

-- The headers of a response to an origin that is allowed.
unfoldable pub cors_headers : String → Headers → Headers
unfolding header_set
cors_headers origin h = header_set "Access-Control-Max-Age" "43200" (
    header_set "Access-Control-Allow-Credentials" "true" (
      header_set "Access-Control-Allow-Headers"
        "Accept, Content-Type, Content-Length, Accept-Encoding, Authorization, X-CSRF-Token"
        (header_set "Access-Control-Allow-Methods" "GET, POST, PUT, DELETE, PATCH, OPTIONS"
          (header_set "Access-Control-Allow-Origin" origin h))))

-- `CORSMiddleware`; `next` is given the headers that are set before it.
unfoldable pub cors_middleware {ℓ} :
    {P S : Type ℓ} {B : Type ℓ}
    → List String
    → Option (String → Bool)
    → String
    → (Headers → Request B → Handler P S)
    → Request B
    → Handler P S
unfolding header_get is_allowed_origin cors_headers
cors_middleware allowed re method next req s =
    let origin = header_get req "Origin" in
    let inner = next (cors_headers origin []) req s in
    let direct = next [] req s in
    if str_eq origin ""
    then direct
    else if not (is_allowed_origin origin allowed re)
    then (record { status = 403; headers = []; content = empty }, s)
    else if str_eq method "OPTIONS"
    then (record { status = 204; headers = cors_headers origin []; content = empty }, s)
    else inner

-- A request from an origin that is not allowed is answered 403 without the handler, and the state is
-- not touched; so is, with 204, a preflight from an origin that is. A request without an origin is
-- the handler's alone.
pub cors_middleware_cases :
    {P S B : Type 0} (allowed : List String) (re : Option (String → Bool)) (method : String)
    (next : Headers → Request B → Handler P S) (req : Request B) (s : S)
    → (header_get req "Origin" ≡ "" → cors_middleware allowed re method next req s ≡ next [] req s)
      × (header_get req "Origin" ≢ ""
          → is_allowed_origin (header_get req "Origin") allowed re ≡ false
          → cors_middleware allowed re method next req s
            ≡ (record { status = 403; headers = []; content = empty }, s))
      × (header_get req "Origin" ≢ ""
          → is_allowed_origin (header_get req "Origin") allowed re ≡ true
          → method ≡ "OPTIONS"
          → cors_middleware allowed re method next req s ≡ (
            record {
              status = 204;
              headers = cors_headers (header_get req "Origin") [];
              content = empty;
            },
            s,
          ))
unfolding cors_middleware
cors_middleware_cases allowed re method next req s =
    let origin = header_get req "Origin" in
    (
      λ absent. rw absent refl,
      λ there closed.
          let filled : str_eq origin "" ≡ false = ground (arith, there, eq_iff origin "") in
          rw (filled, closed) refl,
      λ there open_to preflight.
          let filled : str_eq origin "" ≡ false = ground (arith, there, eq_iff origin "") in
          rw (filled, open_to, preflight) refl,
    )
