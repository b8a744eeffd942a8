-- ===== src/Middleware/RateLimit/Refines.antt =====
-- `allow` implements the sliding window of the specification (pkg/middleware/rate_limit.go), as
-- long as it never has to evict a key.
use beer_avaliation_api.Base.{ℕ, ◌<◌, ◌≤◌, ◌≡◌, refl, String, List, [], ◌∷◌, arith, length, select}
use beer_avaliation_api.Base.Dict.{lookup}
use mathlib.Core.Path.{ap₂}
use beer_avaliation_api.Middleware.RateLimit.{
  RateLimiter, new_rate_limiter_with, max_rate_limit_keys, periodic_cleanup, enforce_cap, allow,
}
use beer_avaliation_api.Middleware.RateLimit.Window.{
  Call, log_times, spec_allow, spec_run, IsChronological, granted, IsSparse, spec_run-IsSparse,
}
use beer_avaliation_api.Middleware.RateLimit.Agreement.{
  allow_all, HasRoom, Agrees, admit-Agrees, periodic_cleanup-Agrees,
}

enforce_cap_roomy : (rl : RateLimiter) → length rl.hits < max_rate_limit_keys → enforce_cap rl ≡ rl
unfolding enforce_cap
enforce_cap_roomy rl h = ground arith

allow-Agrees :
    (limit window from now : ℕ) (key : String) (rl : RateLimiter) (log : List Call)
    → from ≤ now
    → length (periodic_cleanup now rl).hits < max_rate_limit_keys
    → Agrees limit window from rl log
    → ((allow now key rl).1 ≡ (spec_allow limit window (now, key) log).1)
      × Agrees limit window now (allow now key rl).0 (spec_allow limit window (now, key) log).0
unfolding allow
allow-Agrees limit window from now key rl log later here a =
    rw (enforce_cap_roomy (periodic_cleanup now rl) here) (
      admit-Agrees limit window now log key (periodic_cleanup now rl)
        (periodic_cleanup-Agrees limit window now log from rl later a))

allow_all-Agrees :
    (limit window from : ℕ) (rl : RateLimiter) (log cs : List Call)
    → Agrees limit window from rl log
    → IsChronological from cs
    → HasRoom rl cs
    → allow_all rl cs ≡ spec_run limit window log cs
unfolding allow_all spec_run
allow_all-Agrees limit window from rl log [] a times room = refl
allow_all-Agrees limit window from rl log ((now, key) ∷ cs) a (later, times) (here, room) =
    let (passed, next) = allow-Agrees limit window from now key rl log later here a in
    ap₂ ◌∷◌ passed (
      allow_all-Agrees limit window now (allow now key rl).0
        (spec_allow limit window (now, key) log).0 cs next times room)

new_rate_limiter-Agrees :
    (limit window start : ℕ)
    → Agrees limit window start (new_rate_limiter_with limit window start) []
unfolding new_rate_limiter_with lookup log_times
new_rate_limiter-Agrees limit window start = record {
  same_limit = refl;
  same_window = refl;
  distinct = tt;
  same_times = λ k later l. refl;
}

-- From a new limiter, while times do not decrease and the map has room for one more key before
-- each call, `allow` answers each request as the sliding window log does: it passes exactly when
-- fewer than `limit` requests of its key were admitted after `now - window`.
pub allow_all-eq-spec_run :
    (limit window start : ℕ) (cs : List Call)
    → IsChronological start cs
    → HasRoom (new_rate_limiter_with limit window start) cs
    → allow_all (new_rate_limiter_with limit window start) cs ≡ spec_run limit window [] cs
allow_all-eq-spec_run limit window start cs times room =
    allow_all-Agrees limit window start (new_rate_limiter_with limit window start) [] cs
      (new_rate_limiter-Agrees limit window start) times room

nil-IsSparse : (limit window : ℕ) → IsSparse limit window []
unfolding log_times select
nil-IsSparse limit window key end = omega arith

-- Under the same conditions, of the requests that `allow` admitted at most `limit` of any key lie
-- in any window `end - window < t ≤ end`.
pub allow_all-IsSparse :
    (limit window start : ℕ) (cs : List Call)
    → IsChronological start cs
    → HasRoom (new_rate_limiter_with limit window start) cs
    → IsSparse limit window (granted cs (allow_all (new_rate_limiter_with limit window start) cs))
allow_all-IsSparse limit window start cs times room =
    rw (allow_all-eq-spec_run limit window start cs times room)
      (spec_run-IsSparse limit window [] cs (nil-IsSparse limit window))
