-- ===== src/Database/Attempts.antt =====
-- How often a call of the database is tried, and what the caller sees (pkg/database/retry.go).
use beer_avaliation_api.Base.{
  ℕ, zero, suc, ◌+◌, ◌≤◌, ◌<◌, ◌≡◌, inl, inr, true, false, none, arith, length, Bool-cases,
  Option-cases, leb, leb→le,
}
use mathlib.Core.Path.{subst}
use beer_avaliation_api.Database.{Surroundings, is_retried, retry_from, retry_exec}

module _ {A : Type 0} (base_delay : ℕ) (env : Surroundings A) where
  retry_from_bounds :
      (left attempt : ℕ)
      → ((retry_from base_delay env left attempt).attempts ≤ attempt + left + 1)
        × (length (retry_from base_delay env left attempt).delays ≤ left)
        × (attempt + length (retry_from base_delay env left attempt).delays
            ≤ (retry_from base_delay env left attempt).attempts)
  unfolding retry_from
  retry_from_bounds zero attempt = elim (Option-cases (env.ended_before attempt)) [
    | inl e ↦ (ground (arith, e), ground (arith, e), ground (arith, e))
    | inr (x, e) ↦ (ground (arith, e), ground (arith, e), ground (arith, e))
  ]
  retry_from_bounds (suc left) attempt =
      let (a, b, c) = retry_from_bounds left (attempt + 1) in
      elim (Option-cases (env.ended_before attempt)) [
        | inr (x, e) ↦ (ground (arith, e), ground (arith, e), ground (arith, e))
        | inl e ↦ elim (Bool-cases (is_retried base_delay env (env.outcome attempt))) [
          | inr final ↦
              (ground (arith, e, final), ground (arith, e, final), ground (arith, e, final))
          | inl again ↦ elim (Option-cases (env.ended_while_waiting attempt)) [
            | inr (x, w) ↦ (
              ground (arith, e, again, w),
              ground (arith, e, again, w),
              ground (arith, e, again, w),
            )
            | inl w ↦ (
              ground (arith, e, again, w),
              ground (arith, e, again, w),
              ground (arith, e, again, w),
            )
          ]
        ]
      ]

  -- The function runs at most once more than there are retries, and at least once for each delay;
  -- there are at most as many delays as retries.
  pub retry_exec_bounds :
      (max_retries : ℕ)
      → ((retry_exec base_delay env max_retries).attempts ≤ max_retries + 1)
        × (length (retry_exec base_delay env max_retries).delays ≤ max_retries)
        × (length (retry_exec base_delay env max_retries).delays
            ≤ (retry_exec base_delay env max_retries).attempts)
  unfolding retry_exec
  retry_exec_bounds max_retries =
      let (a, b, c) = retry_from_bounds max_retries 0 in (omega (arith, a), b, omega (arith, c))

  -- The attempt `k` is the last one among those up to `last`: the ones from `from` on and before it
  -- returned errors worth another attempt, and it did not, unless it is `last` itself.
  pub record IsDecisive (from last k : ℕ) : Type 0 where
    pub started : from ≤ k
    pub within : k ≤ last
    pub before : (j : ℕ) → from ≤ j → j < k → is_retried base_delay env (env.outcome j) ≡ true
    pub decides : k < last → is_retried base_delay env (env.outcome k) ≡ false

  retry_from-IsDecisive :
      ((k : ℕ) → env.ended_before k ≡ none)
      → ((k : ℕ) → env.ended_while_waiting k ≡ none)
      → (left attempt : ℕ)
      → (k : ℕ) × IsDecisive attempt (attempt + left) k
        × ((retry_from base_delay env left attempt).result ≡ env.outcome k)
        × ((retry_from base_delay env left attempt).attempts ≡ k + 1)
  unfolding retry_from
  retry_from-IsDecisive running waits zero attempt = (
    attempt,
    record {
      started = omega arith;
      within = omega arith;
      before = λ j h l. absurd (omega arith);
      decides = λ l. absurd (omega arith);
    },
    ground (arith, running attempt),
    ground (arith, running attempt),
  )
  retry_from-IsDecisive running waits (suc left) attempt =
      let (k, d, r, n) = retry_from-IsDecisive running waits left (attempt + 1) in
      elim (Bool-cases (is_retried base_delay env (env.outcome attempt))) [
        | inr final ↦ (
          attempt,
          record {
            started = omega arith;
            within = omega arith;
            before = λ j h l. absurd (omega arith);
            decides = λ l. final;
          },
          ground (arith, running attempt, final),
          ground (arith, running attempt, final),
        )
        | inl again ↦ (
          k,
          record {
            started = omega (arith, d.started);
            within = omega (arith, d.within);
            before = λ j h l. elim (Bool-cases (leb (attempt + 1) j)) [
              | inl later ↦ d.before j (leb→le (attempt + 1) j later) l
              | inr here ↦
                  let same : attempt ≡ j = ground arith in
                  subst (λ i. is_retried base_delay env (env.outcome i) ≡ true) same again
            ];
            decides = λ l. d.decides (omega arith);
          },
          ground (arith, running attempt, waits attempt, again, r),
          ground (arith, running attempt, waits attempt, again, n),
        )
      ]

  -- While the context does not end, the caller sees the outcome of one attempt: the first that did
  -- not return a transient error, or, if all did, the one after the last retry; and the function ran
  -- up to that attempt and not after it.
  pub retry_exec-IsDecisive :
      (max_retries : ℕ)
      → ((k : ℕ) → env.ended_before k ≡ none)
      → ((k : ℕ) → env.ended_while_waiting k ≡ none)
      → (k : ℕ) × IsDecisive 0 max_retries k
        × ((retry_exec base_delay env max_retries).result ≡ env.outcome k)
        × ((retry_exec base_delay env max_retries).attempts ≡ k + 1)
  unfolding retry_exec
  retry_exec-IsDecisive max_retries running waits =
      let same : 0 + max_retries ≡ max_retries = omega arith in
      let (k, d, r, n) = retry_from-IsDecisive running waits max_retries 0 in
      (k, subst (λ last. IsDecisive 0 last k) same d, r, n)
