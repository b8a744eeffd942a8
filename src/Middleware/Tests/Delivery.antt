-- ===== src/Middleware/Tests/Delivery.antt =====
-- The compressing writer and CORS at concrete requests.
use beer_avaliation_api.Base.{
  ◌≡◌, ◌≢◌, refl, ℕ, suc, String, Bool, true, false, Option, none, some, List, [], ◌∷◌, map,
  if◌then◌else◌, str_eq, arith, eq_iff,
}
use beer_avaliation_api.Middleware.Context.{background}
use beer_avaliation_api.Http.{absent, Request, header_get, Headers, Handler, empty}
use beer_avaliation_api.Middleware.Compression.{
  write_header, write, compression_middleware, compression_middleware-status,
}
use beer_avaliation_api.Middleware.Cors.{is_allowed_origin, cors_middleware}

compression_middleware-status_example :
    (compression_middleware true (write_header 304 ∷ write "a" ∷ map write ("b" ∷ [])) ≡ 304)
    × (compression_middleware true (write_header 304 ∷ []) ≡ (if true then 200 else 304))
compression_middleware-status_example =
    compression_middleware-status 304 "a" ("b" ∷ []) true (omega arith)

-- A request from the address `origin`.
abbrev from : String → Request (Unit {0})
from origin = record {
  path = "/api/beers";
  host = "api.example";
  is_tls = true;
  id = "";
  comment_id = "";
  query = [];
  headers = ("Origin", origin) ∷ [];
  body = absent;
  context = background;
  trace = "";
}

abbrev options : String
options = "OPTIONS"

-- A handler that counts its calls.
abbrev counted : Headers → Request (Unit {0}) → Handler ℕ ℕ
counted headers req s = (record { status = 200; headers = headers; content = empty }, suc s)

-- The preflight from an origin that is allowed.
preflight :
    (cors_middleware
      ("https://app.example" ∷ [])
      none
      options
      counted
      (from "https://app.example")
      4).0.status
    ≡ 204
unfolding cors_middleware header_get is_allowed_origin beer_avaliation_api.Base.Dict.lookup
preflight = refl
