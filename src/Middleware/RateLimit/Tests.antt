-- ===== src/Middleware/RateLimit/Tests.antt =====
-- The limiter at concrete requests (pkg/middleware/rate_limit.go).
use beer_avaliation_api.Base.{◌≡◌, some, List, [], ◌∷◌, arith, select}
use beer_avaliation_api.Base.Dict.{lookup, insert}
use beer_avaliation_api.Middleware.Context.{background}
use beer_avaliation_api.Middleware.RateLimit.{
  new_rate_limiter_with, periodic_cleanup, cleanup_expired, enforce_cap, admit, allow, cleanup_hits,
}
use beer_avaliation_api.Middleware.RateLimit.Window.{Call, spec_run, IsSparse, granted}
use beer_avaliation_api.Middleware.RateLimit.Agreement.{allow_all, HasRoom}
use beer_avaliation_api.Middleware.RateLimit.Refines.{allow_all-eq-spec_run, allow_all-IsSparse}
use beer_avaliation_api.Middleware.RateLimit.Handler.{Request}

abbrev two_calls : List Call
two_calls = (1, "i:1") ∷ (2, "i:1") ∷ []

two_calls-HasRoom : HasRoom (new_rate_limiter_with 1 10 0) two_calls
unfolding new_rate_limiter_with periodic_cleanup cleanup_expired cleanup_hits allow enforce_cap
    admit lookup insert select
two_calls-HasRoom = (omega arith, (omega arith, tt))

allow_all-eq-spec_run_example :
    allow_all (new_rate_limiter_with 1 10 0) two_calls ≡ spec_run 1 10 [] two_calls
allow_all-eq-spec_run_example =
    allow_all-eq-spec_run 1 10 0 two_calls (omega arith, (omega arith, tt)) two_calls-HasRoom

allow_all-IsSparse_example :
    IsSparse 1 10 (granted two_calls (allow_all (new_rate_limiter_with 1 10 0) two_calls))
allow_all-IsSparse_example =
    allow_all-IsSparse 1 10 0 two_calls (omega arith, (omega arith, tt)) two_calls-HasRoom

abbrev post : Request
post = record {
  method = "POST";
  context = background;
  remote_addr = "10.0.0.1:99";
  host = some "10.0.0.1";
  forwarded_for = "";
}
