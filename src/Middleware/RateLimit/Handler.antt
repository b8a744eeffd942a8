-- ===== src/Middleware/RateLimit/Handler.antt =====
-- The middleware around the limiter (pkg/middleware/rate_limit.go): the key of a request, and what
-- a request is answered.
use beer_avaliation_api.Base.{
  ℕ, ◌≡◌, ◌≢◌, String, Bool, false, not, ◌&&◌, ◌||◌, Option, none, some, List, [], ◌∷◌, arith, leb,
  if◌then◌else◌, str_eq, eq_iff, inl, inr, Bool-cases, Option-cases,
}
use beer_avaliation_api.Base.Text.{trim_space, split_comma}
use beer_avaliation_api.Middleware.Context.{Context, user_id_from_context}
use beer_avaliation_api.Middleware.RateLimit.{
  RateLimiter, new_rate_limiter_with, default_write_rate_limit, default_write_rate_limit_window,
  allow,
}
use beer_avaliation_api.Middleware.RateLimit.Invariant.{IsWellFormed, allow-IsWellFormed}
use Prim.Native.String.{◌++◌}
use Prim.Native.String.compare
use text.Mathlib.TextLemmas.{cons-append}
use text.Mathlib.Text.{starts_with}

-- What the middleware reads of a request: `host` is the result of `net.SplitHostPort` on the remote
-- address, `none` for an error.
pub record Request : Type 0 where
  pub method : String
  pub context : Context
  pub remote_addr : String
  pub host : Option String
  pub forwarded_for : String

unfoldable pub remote_ip : Request → String
remote_ip r = elim r.host [ none ↦ r.remote_addr | some host ↦ host ]

abbrev first_part : List String → String
first_part [] = ""
first_part (part ∷ parts) = part

-- The client's address; `trust_proxy` is `TRUST_PROXY=true` in the environment.
unfoldable pub client_ip : Bool → Request → String
unfolding remote_ip
client_ip trust_proxy r =
    if trust_proxy && not (str_eq r.forwarded_for "")
    then trim_space (first_part (split_comma r.forwarded_for))
    else remote_ip r

-- `clientKey`
unfoldable pub client_key : Bool → Request → String
client_key trust_proxy r = elim (user_id_from_context r.context) [
  | none ↦ "i:" ++ client_ip trust_proxy r
  | some uid ↦ if not (str_eq uid "") then "u:" ++ uid else "i:" ++ client_ip trust_proxy r
]

-- `clientKeyType`
unfoldable pub client_key_type : String → String
client_key_type key = if starts_with key "u:" then "user" else "ip"

-- `isWriteMethod`
unfoldable pub is_write_method : String → Bool
is_write_method method =
    str_eq method "POST" || str_eq method "PUT" || str_eq method "DELETE" || str_eq method "PATCH"

pub data Answer : Type 0 where
  -- 429 with `Retry-After: 60`
  too_many_requests : Answer
  -- the next handler runs
  next : Answer

-- The handler that `NewRateLimitMiddleware` and `RateLimitMiddleware` return.
unfoldable pub serve : Bool → Bool → ℕ → Request → RateLimiter → RateLimiter × Answer
serve disabled trust_proxy now r rl =
    if disabled || not (is_write_method r.method)
    then (rl, next)
    else let (rl', passed) = allow now (client_key trust_proxy r) rl in
      (rl', if passed then next else too_many_requests)

-- The limiter of `NewRateLimitMiddleware`: a limit or a window that is not positive is replaced.
unfoldable pub new_rate_limit_middleware : ℕ → ℕ → ℕ → RateLimiter
new_rate_limit_middleware limit window now =
    new_rate_limiter_with (if leb limit 0 then default_write_rate_limit else limit)
      (if leb window 0 then default_write_rate_limit_window else window) now

append-ne-nil : (a b s : String) → str_eq (a ++ b) s ≡ false → a ++ b ≢ s
append-ne-nil a b s e h = ground (arith, eq_iff (a ++ b) s)

ip_key-ne-nil : (s : String) → "i:" ++ s ≢ ""
ip_key-ne-nil s = append-ne-nil "i:" s "" (rw (cons-append, compare.cons-nil))

user_key-ne-nil : (s : String) → "u:" ++ s ≢ ""
user_key-ne-nil s = append-ne-nil "u:" s "" (rw (cons-append, compare.cons-nil))

client_key-ne-nil : (trust_proxy : Bool) (r : Request) → client_key trust_proxy r ≢ ""
unfolding client_key
client_key-ne-nil trust_proxy r =
    let ip = ip_key-ne-nil (client_ip trust_proxy r) in
    elim (Option-cases r.context.user_id) [
      | inl e ↦ rw (e, client_key) ip
      | inr (uid, e) ↦ ground (arith, e, ip, user_key-ne-nil uid)
    ]

-- The middleware keeps the limiter within its bounds, whatever the request.
pub serve-IsWellFormed :
    (disabled trust_proxy : Bool) (now : ℕ) (r : Request) (rl : RateLimiter)
    → IsWellFormed rl
    → IsWellFormed (serve disabled trust_proxy now r rl).0
unfolding serve
serve-IsWellFormed disabled trust_proxy now r rl v =
    elim (Bool-cases (disabled || not (is_write_method r.method))) [
      | inl e ↦ rw (e, serve) v
      | inr e ↦
          rw (e, serve)
            (allow-IsWellFormed now (client_key trust_proxy r) rl (client_key-ne-nil trust_proxy r)
              v)
    ]

-- A new middleware starts within its bounds, for every limit and window.
pub new_rate_limit_middleware-IsWellFormed :
    (limit window now : ℕ) → IsWellFormed (new_rate_limit_middleware limit window now)
unfolding new_rate_limit_middleware new_rate_limiter_with
new_rate_limit_middleware-IsWellFormed limit window now = record {
  positive = ground arith;
  entries = tt;
  capped = omega arith;
}
