-- ===== src/Middleware/RateLimit/Agreement.antt =====
-- When the limiter and the log of the specification agree (pkg/middleware/rate_limit.go): after
-- `now` they show every key the same times, and each step keeps it so.
use beer_avaliation_api.Base.{
  ℕ, ◌+◌, ◌<◌, ◌≤◌, ◌≡◌, refl, ◌∙◌, String, Bool, true, inl, inr, List, [], ◌∷◌, ◌++◌, arith, leb,
  ◌==◌, if◌then◌else◌, str_eq, eq_iff, length, select, select-append, select-select, if_elim,
  Bool-cases,
}
use beer_avaliation_api.Base.Dict.{
  Dict, lookup, insert, HasKey, Distinct, lookup-insert, insert-Distinct, lookup-eq-none_of_not,
}
use mathlib.Core.List.{append-nil}
use beer_avaliation_api.Middleware.RateLimit.{
  RateLimiter, after_cutoff, max_rate_limit_keys, rate_limit_cleanup_interval, cleanup_hits,
  cleanup_expired, times_of, periodic_cleanup, admit, allow,
}
use beer_avaliation_api.Middleware.RateLimit.Window.{Call, log_times, log_times-append, spec_allow}

-- A run of the limiter.
unfoldable pub allow_all : RateLimiter → List Call → List Bool
allow_all rl [] = []
allow_all rl ((now, key) ∷ cs) = let (rl', passed) = allow now key rl in passed ∷ allow_all rl' cs

-- Before each call the map, after its periodic cleanup, has room for one more key.
abbrev pub HasRoom : RateLimiter → List Call → Type 0
HasRoom rl [] = Unit
HasRoom rl ((now, key) ∷ cs) =
    (length (periodic_cleanup now rl).hits < max_rate_limit_keys) × HasRoom (allow now key rl).0 cs

HasKey-cleanup :
    (window now : ℕ) (k : String) (m : Dict (List ℕ))
    → HasKey k (cleanup_hits window now m)
    → HasKey k m
unfolding cleanup_hits
HasKey-cleanup window now k [] h = h
HasKey-cleanup window now k ((j, ts) ∷ m) h = ground (arith, HasKey-cleanup window now k m)

cleanup-Distinct :
    (window now : ℕ) (m : Dict (List ℕ)) → Distinct m → Distinct (cleanup_hits window now m)
unfolding cleanup_hits
cleanup-Distinct window now [] h = tt
cleanup-Distinct window now ((j, ts) ∷ m) (fresh, h) =
    let rest = cleanup-Distinct window now m h in
    let filtered = select (after_cutoff window now) ts in
    if_elim Distinct (length filtered == 0) {x = cleanup_hits window now m}
      {y = (j, filtered) ∷ cleanup_hits window now m} rest
      (λ g. fresh (HasKey-cleanup window now j m g), rest)

-- What a later window keeps is unchanged by an earlier cutoff.
select_later :
    (window now later : ℕ) (ts : List ℕ)
    → now ≤ later
    → select (after_cutoff window later) (select (after_cutoff window now) ts)
      ≡ select (after_cutoff window later) ts
select_later window now later ts h =
    select-select (after_cutoff window now) (after_cutoff window later) ts (λ x e. ground arith)

eq-nil_of_length : (ts : List ℕ) → (length ts == 0) ≡ true → ts ≡ []
eq-nil_of_length [] h = refl
eq-nil_of_length (t ∷ ts) h = ground arith

select_nil : (p : ℕ → Bool) → select p [] ≡ []
unfolding select
select_nil p = refl

-- The cleanup hides no time that a later window can see.
times_of-cleanup :
    (window now later : ℕ) (k : String) (m : Dict (List ℕ))
    → now ≤ later
    → Distinct m
    → select (after_cutoff window later) (times_of k (cleanup_hits window now m))
      ≡ select (after_cutoff window later) (times_of k m)
unfolding lookup cleanup_hits
times_of-cleanup window now later k [] h d = refl
times_of-cleanup window now later k ((j, ts) ∷ m) h (fresh, d) =
    let filtered = select (after_cutoff window now) ts in
    let ih = times_of-cleanup window now later k m h d in
    let same = select_later window now later ts h in
    let gone =
      lookup-eq-none_of_not j (cleanup_hits window now m)
        (λ g. fresh (HasKey-cleanup window now j m g)) in
    ground (
      arith,
      ih,
      same,
      gone,
      eq_iff j k,
      eq-nil_of_length filtered,
      select_nil (after_cutoff window later),
    )

-- The limiter agrees with the log on every window that ends at `from` or later.
pub record Agrees (limit window from : ℕ) (rl : RateLimiter) (log : List Call) : Type 0 where
  pub same_limit : rl.limit ≡ limit
  pub same_window : rl.window ≡ window
  pub distinct : Distinct rl.hits
  pub same_times :
      (k : String) (later : ℕ)
      → from ≤ later
      → select (after_cutoff window later) (times_of k rl.hits)
        ≡ select (after_cutoff window later) (log_times k log)

module _ (limit window now : ℕ) (log : List Call) where
  pub periodic_cleanup-Agrees :
      (from : ℕ) (rl : RateLimiter)
      → from ≤ now
      → Agrees limit window from rl log
      → Agrees limit window now (periodic_cleanup now rl) log
  unfolding periodic_cleanup cleanup_expired
  periodic_cleanup-Agrees from rl h a =
      let kept : Agrees limit window now rl log = record {
        same_limit = a.same_limit;
        same_window = a.same_window;
        distinct = a.distinct;
        same_times = λ k later l. a.same_times k later (omega arith);
      } in
      if_elim (λ r. Agrees limit window now r log)
        (leb (rl.last_cleanup + rate_limit_cleanup_interval) now)
        {x = record rl { hits = cleanup_hits rl.window now rl.hits; last_cleanup = now }} {y = rl}
        (record {
          same_limit = a.same_limit;
          same_window = a.same_window;
          distinct = cleanup-Distinct rl.window now rl.hits a.distinct;
          same_times = λ k later l. rw a.same_window (
              times_of-cleanup window now later k rl.hits l a.distinct ∙ kept.same_times k later l);
        })
        kept

  times_of-insert :
      (k j : String) (ts : List ℕ) (m : Dict (List ℕ))
      → times_of j (insert k ts m) ≡ (if str_eq k j then ts else times_of j m)
  times_of-insert k j ts m = ground (arith, lookup-insert k j ts m)

  module _ (key : String) (rl : RateLimiter) (a : Agrees limit window now rl log) where
    abbrev seen : List ℕ
    seen = select (after_cutoff window now) (times_of key rl.hits)

    abbrev logged : List ℕ
    logged = select (after_cutoff window now) (log_times key log)

    seen-eq-logged : seen ≡ logged
    seen-eq-logged = a.same_times key now (omega arith)

    insert-same_times :
        (k : String) (later : ℕ)
        → now ≤ later
        → select (after_cutoff window later) (times_of k (insert key seen rl.hits))
          ≡ select (after_cutoff window later) (log_times k log)
    insert-same_times k later l = ground (
      arith,
      times_of-insert key k seen rl.hits,
      eq_iff key k,
      select_later window now later (times_of key rl.hits) l,
      a.same_times k later l,
    )

    push-same_times :
        (k : String) (later : ℕ)
        → now ≤ later
        → select (after_cutoff window later) (times_of k (insert key (seen ++ now ∷ []) rl.hits))
          ≡ select (after_cutoff window later) (log_times k (log ++ (now, key) ∷ []))
    unfolding log_times
    push-same_times k later l =
        rw (times_of-insert key k (seen ++ now ∷ []) rl.hits, log_times-append k log)
          (ground (
            arith,
            eq_iff key k,
            select-append (after_cutoff window later) seen (now ∷ []),
            select-append (after_cutoff window later) (log_times k log) (now ∷ []),
            append-nil (log_times k log),
            select_later window now later (times_of key rl.hits) l,
            a.same_times k later l,
          ))

    -- The limiter and the log decide alike, and go on agreeing.
    pub admit-Agrees :
        ((admit now key rl).1 ≡ (spec_allow limit window (now, key) log).1)
        × Agrees limit window now (admit now key rl).0 (spec_allow limit window (now, key) log).0
    unfolding admit spec_allow
    admit-Agrees =
        rw (a.same_window, a.same_limit, seen-eq-logged)
          (elim (Bool-cases (leb limit (length logged))) [
            | inl full ↦
                rw (full, spec_allow)
                  (
                    refl,
                    record {
                      same_limit = refl;
                      same_window = refl;
                      distinct = insert-Distinct key logged rl.hits a.distinct;
                      same_times = λ k later l. rw seen-eq-logged at (insert-same_times k later l);
                    },
                  )
            | inr room ↦
                rw (room, spec_allow)
                  (
                    refl,
                    record {
                      same_limit = refl;
                      same_window = refl;
                      distinct = insert-Distinct key (logged ++ now ∷ []) rl.hits a.distinct;
                      same_times = λ k later l. rw seen-eq-logged at (push-same_times k later l);
                    },
                  )
          ])
