-- ===== src/Middleware/RateLimit.antt =====
-- pkg/middleware/rate_limit.go: the limiter of writes. Times are nanoseconds, an argument of each
-- call (`time.Now()`). A comparison with `now - window` is written as one with a sum, since `-` on
-- ℕ stops at 0 and Go's times do not. The order of a map stands for that of Go's iteration.
pub mod Invariant
pub mod Window
pub mod Agreement
pub mod Refines
pub mod Handler
mod Tests
use beer_avaliation_api.Base.{
  ℕ, ◌+◌, ◌*◌, String, Bool, true, false, ◌||◌, Option, none, some, List, [], ◌∷◌, ◌++◌, ltb, leb,
  ◌==◌, if◌then◌else◌, str_eq, length, select,
}
use beer_avaliation_api.Base.Dict.{Dict, lookup, insert, delete}

abbrev pub second : ℕ
second = 1000000000

abbrev pub default_write_rate_limit : ℕ
default_write_rate_limit = 10

abbrev pub default_write_rate_limit_window : ℕ
default_write_rate_limit_window = 60 * second

abbrev pub max_rate_limit_keys : ℕ
max_rate_limit_keys = 100000

abbrev pub rate_limit_cleanup_interval : ℕ
rate_limit_cleanup_interval = 300 * second

pub record RateLimiter : Type 0 where
  pub hits : Dict (List ℕ)
  pub limit : ℕ
  pub window : ℕ
  pub last_cleanup : ℕ

-- `newRateLimiterWith`
unfoldable pub new_rate_limiter_with : ℕ → ℕ → ℕ → RateLimiter
new_rate_limiter_with limit window now = record {
  hits = [];
  limit = limit;
  window = window;
  last_cleanup = now;
}

-- `t.After(now.Add(-window))`
abbrev pub after_cutoff : ℕ → ℕ → ℕ → Bool
after_cutoff window now t = ltb now (t + window)

-- The loop of `cleanupExpired`.
unfoldable pub cleanup_hits : ℕ → ℕ → Dict (List ℕ) → Dict (List ℕ)
cleanup_hits window now [] = []
cleanup_hits window now ((k, times) ∷ m) =
    let rest = cleanup_hits window now m in
    let filtered = select (after_cutoff window now) times in
    if length filtered == 0 then rest else (k, filtered) ∷ rest

pub cleanup_expired : ℕ → RateLimiter → RateLimiter
cleanup_expired now rl = record rl { hits = cleanup_hits rl.window now rl.hits }

-- The loop of `evictOldest`, over `first`, `oldestKey` and `oldestTime`.
pub scan_oldest : Dict (List ℕ) → Bool → String → ℕ → String × ℕ
scan_oldest [] first oldest_key oldest_time = (oldest_key, oldest_time)
scan_oldest ((k, []) ∷ m) first oldest_key oldest_time = scan_oldest m first oldest_key oldest_time
scan_oldest ((k, t ∷ ts) ∷ m) first oldest_key oldest_time =
    let taken = scan_oldest m false k t in
    let kept = scan_oldest m first oldest_key oldest_time in
    if first || ltb t oldest_time then taken else kept

pub evict_oldest : RateLimiter → RateLimiter
evict_oldest rl =
    let oldest_key = (scan_oldest rl.hits true "" 0).0 in
    if str_eq oldest_key "" then rl else record rl { hits = delete oldest_key rl.hits }

-- `rl.hits[key]`, the nil slice for a key that is not there.
abbrev pub times_of : String → Dict (List ℕ) → List ℕ
times_of k m = elim (lookup k m) [ none ↦ [] | some times ↦ times ]

-- The first part of `allow`: at most one full cleanup in each interval.
pub periodic_cleanup : ℕ → RateLimiter → RateLimiter
periodic_cleanup now rl =
    if leb (rl.last_cleanup + rate_limit_cleanup_interval) now
    then record (cleanup_expired now rl) { last_cleanup = now }
    else rl

-- The second part: room for one more key.
pub enforce_cap : RateLimiter → RateLimiter
enforce_cap rl = if leb max_rate_limit_keys (length rl.hits) then evict_oldest rl else rl

-- The third part: the window of the key.
pub admit : ℕ → String → RateLimiter → RateLimiter × Bool
admit now key rl =
    let filtered = select (after_cutoff rl.window now) (times_of key rl.hits) in
    if leb rl.limit (length filtered)
    then (record rl { hits = insert key filtered rl.hits }, false)
    else (record rl { hits = insert key (filtered ++ now ∷ []) rl.hits }, true)

pub allow : ℕ → String → RateLimiter → RateLimiter × Bool
allow now key rl = admit now key (enforce_cap (periodic_cleanup now rl))
