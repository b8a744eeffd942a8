-- ===== src/Middleware/RateLimit/Invariant.antt =====
-- The bounds that `allow` keeps on what the limiter stores (pkg/middleware/rate_limit.go).
use beer_avaliation_api.Base.{
  ℕ, ◌+◌, ◌<◌, ◌≤◌, ◌≡◌, ◌≢◌, refl, ◌∙◌, ◌==◌, String, Bool, true, false, inl, inr, ◌⊎◌, List, [],
  ◌∷◌, ◌++◌, arith, leb, str_eq, eq_iff, length, length-append, select, length-select-le, All,
  if_elim, if_cases,
}
use beer_avaliation_api.Base.Dict.{
  Dict, lookup, insert, delete, HasKey, length-insert-le, length-delete-lt, All-delete, All-insert,
}
use beer_avaliation_api.Middleware.RateLimit.{
  RateLimiter, after_cutoff, max_rate_limit_keys, rate_limit_cleanup_interval, cleanup_hits,
  cleanup_expired, scan_oldest, evict_oldest, times_of, periodic_cleanup, enforce_cap, admit, allow,
}

-- An entry has a key of its own, at least one time, and at most `limit` of them.
abbrev pub IsEntry : ℕ → String × List ℕ → Type 0
IsEntry limit e = (e.0 ≢ "") × (0 < length e.1) × (length e.1 ≤ limit)

pub record IsWellFormed (rl : RateLimiter) : Type 0 where
  pub positive : 0 < rl.limit
  pub entries : All (IsEntry rl.limit) rl.hits
  pub capped : length rl.hits ≤ max_rate_limit_keys

cleanup_hits-IsEntry :
    (limit window now : ℕ) (m : Dict (List ℕ))
    → All (IsEntry limit) m
    → All (IsEntry limit) (cleanup_hits window now m)
unfolding cleanup_hits
cleanup_hits-IsEntry limit window now [] h = tt
cleanup_hits-IsEntry limit window now ((k, times) ∷ m) (p, h) =
    let rest = cleanup_hits-IsEntry limit window now m h in
    let kept = cleanup_hits window now m in
    let filtered = select (after_cutoff window now) times in
    if_cases (All (IsEntry limit)) (length filtered == 0) {x = kept} {y = (k, filtered) ∷ kept}
      (λ _. rest)
      (λ e. (
        (p.0, ground arith, omega (arith, length-select-le (after_cutoff window now) times)),
        rest,
      ))

length-cleanup_hits-le :
    (window now : ℕ) (m : Dict (List ℕ)) → length (cleanup_hits window now m) ≤ length m
unfolding cleanup_hits
length-cleanup_hits-le window now [] = omega arith
length-cleanup_hits-le window now ((k, times) ∷ m) =
    ground (arith, length-cleanup_hits-le window now m)

-- The scan returns the key it started from, or a key of the map.
scan_oldest-HasKey :
    (m : Dict (List ℕ)) (key : String) (t : ℕ)
    → ((scan_oldest m false key t).0 ≡ key) ⊎ HasKey (scan_oldest m false key t).0 m
unfolding scan_oldest
scan_oldest-HasKey [] key t = inl refl
scan_oldest-HasKey ((k, []) ∷ m) key t = ground (arith, scan_oldest-HasKey m key t)
scan_oldest-HasKey ((k, t' ∷ ts) ∷ m) key t =
    ground (arith, scan_oldest-HasKey m k t', scan_oldest-HasKey m key t)

ne-nil_of_HasKey :
    (limit : ℕ) (k : String) (m : Dict (List ℕ)) → All (IsEntry limit) m → HasKey k m → k ≢ ""
ne-nil_of_HasKey limit k [] _ f = absurd f
ne-nil_of_HasKey limit k ((j, times) ∷ m) (p, h) (inl e) = λ q. p.0 (e ∙ q)
ne-nil_of_HasKey limit k ((j, times) ∷ m) (p, h) (inr f) = ne-nil_of_HasKey limit k m h f

-- Over entries that are not empty the scan finds a key of the map.
oldest-HasKey :
    (limit : ℕ) (m : Dict (List ℕ))
    → All (IsEntry limit) m
    → 0 < length m
    → HasKey (scan_oldest m true "" 0).0 m
unfolding scan_oldest
oldest-HasKey limit [] _ l = absurd (omega arith)
oldest-HasKey limit ((k, []) ∷ m) (p, h) l = absurd (omega arith)
oldest-HasKey limit ((k, t ∷ ts) ∷ m) (p, h) l = ground (arith, scan_oldest-HasKey m k t)

evict_oldest-IsEntry :
    (rl : RateLimiter)
    → All (IsEntry rl.limit) rl.hits
    → All (IsEntry rl.limit) (evict_oldest rl).hits
unfolding evict_oldest
evict_oldest-IsEntry rl h =
    let oldest = (scan_oldest rl.hits true "" 0).0 in
    let smaller : RateLimiter = record rl { hits = delete oldest rl.hits } in
    if_elim (λ (r : RateLimiter). All (IsEntry rl.limit) r.hits) (str_eq oldest "") {x = rl}
      {y = smaller} h (All-delete (IsEntry rl.limit) oldest rl.hits h)

length-evict_oldest-lt :
    (rl : RateLimiter)
    → All (IsEntry rl.limit) rl.hits
    → 0 < length rl.hits
    → length (evict_oldest rl).hits < length rl.hits
unfolding evict_oldest
length-evict_oldest-lt rl h l =
    let oldest = (scan_oldest rl.hits true "" 0).0 in
    let found = oldest-HasKey rl.limit rl.hits h l in
    ground (
      arith,
      eq_iff oldest "",
      ne-nil_of_HasKey rl.limit oldest rl.hits h found,
      length-delete-lt oldest rl.hits found,
    )

length-times_of-le :
    (limit : ℕ) (k : String) (m : Dict (List ℕ))
    → All (IsEntry limit) m
    → length (times_of k m) ≤ limit
unfolding lookup
length-times_of-le limit k [] h = omega arith
length-times_of-le limit k ((j, times) ∷ m) (p, h) = ground (arith, length-times_of-le limit k m h)

periodic_cleanup-IsWellFormed :
    (now : ℕ) (rl : RateLimiter) → IsWellFormed rl → IsWellFormed (periodic_cleanup now rl)
unfolding periodic_cleanup cleanup_expired
periodic_cleanup-IsWellFormed now rl v =
    let smaller = length-cleanup_hits-le rl.window now rl.hits in
    if_elim IsWellFormed (leb (rl.last_cleanup + rate_limit_cleanup_interval) now)
      {x = record rl { hits = cleanup_hits rl.window now rl.hits; last_cleanup = now }} {y = rl}
      (record {
        positive = v.positive;
        entries = cleanup_hits-IsEntry rl.limit rl.window now rl.hits v.entries;
        capped = omega (arith, v.capped, smaller);
      })
      v

-- After the second part there is room for one more key.
enforce_cap_room :
    (rl : RateLimiter)
    → IsWellFormed rl
    → All (IsEntry rl.limit) (enforce_cap rl).hits
      × (length (enforce_cap rl).hits < max_rate_limit_keys)
unfolding enforce_cap
enforce_cap_room rl v =
    let smaller = length-evict_oldest-lt rl v.entries in
    if_cases
      (λ (r : RateLimiter). All (IsEntry rl.limit) r.hits × (length r.hits < max_rate_limit_keys))
      (leb max_rate_limit_keys (length rl.hits)) {x = evict_oldest rl} {y = rl}
      (λ e. (evict_oldest-IsEntry rl v.entries, ground (arith, v.capped, smaller)))
      (λ e. (v.entries, ground arith))

limit-enforce_cap : (rl : RateLimiter) → (enforce_cap rl).limit ≡ rl.limit
unfolding enforce_cap evict_oldest
limit-enforce_cap rl = ground arith

window-enforce_cap : (rl : RateLimiter) → (enforce_cap rl).window ≡ rl.window
unfolding enforce_cap evict_oldest
window-enforce_cap rl = ground arith

admit-IsWellFormed :
    (now : ℕ) (key : String) (rl : RateLimiter)
    → key ≢ ""
    → 0 < rl.limit
    → All (IsEntry rl.limit) rl.hits
    → length rl.hits < max_rate_limit_keys
    → IsWellFormed (admit now key rl).0
unfolding admit
admit-IsWellFormed now key rl named pos h room =
    let times = times_of key rl.hits in
    let filtered = select (after_cutoff rl.window now) times in
    let full : RateLimiter = record rl { hits = insert key filtered rl.hits } in
    let longer : RateLimiter = record rl { hits = insert key (filtered ++ now ∷ []) rl.hits } in
    let short = length-select-le (after_cutoff rl.window now) times in
    let bound = length-times_of-le rl.limit key rl.hits h in
    if_cases (λ (r : RateLimiter × Bool). IsWellFormed r.0) (leb rl.limit (length filtered))
      {x = (full, false)} {y = (longer, true)}
      (λ e. record {
        positive = pos;
        entries =
            All-insert (IsEntry rl.limit) key filtered rl.hits
              (named, ground arith, omega (arith, short, bound)) h;
        capped = omega (arith, length-insert-le key filtered rl.hits);
      })
      (λ e. record {
        positive = pos;
        entries =
            All-insert (IsEntry rl.limit) key (filtered ++ now ∷ []) rl.hits
              (
                named,
                omega (arith, length-append filtered (now ∷ [])),
                ground (arith, length-append filtered (now ∷ [])),
              )
              h;
        capped = omega (arith, length-insert-le key (filtered ++ now ∷ []) rl.hits);
      })

-- Whatever the clock says, a call of `allow` with a key keeps the limiter within its bounds: at
-- most `max_rate_limit_keys` keys, none of them empty, each with between one and `limit` times.
pub allow-IsWellFormed :
    (now : ℕ) (key : String) (rl : RateLimiter)
    → key ≢ ""
    → IsWellFormed rl
    → IsWellFormed (allow now key rl).0
unfolding allow
allow-IsWellFormed now key rl named v =
    let cleaned = periodic_cleanup now rl in
    let w = periodic_cleanup-IsWellFormed now rl v in
    let (entries, room) = enforce_cap_room cleaned w in
    let same = limit-enforce_cap cleaned in
    admit-IsWellFormed now key (enforce_cap cleaned) named (rw same w.positive) (rw same entries)
      room
