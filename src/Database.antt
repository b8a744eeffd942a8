-- ===== src/Database.antt =====
-- pkg/database/retry.go: retries with growing delays around the calls of the database. Times are
-- nanoseconds. A negative number of retries, which the environment cannot set, is left out.
pub mod Attempts
mod Tests
use beer_avaliation_api.Base.{
  ℕ, zero, suc, ◌+◌, ◌*◌, ◌^◌, String, Bool, true, false, not, ◌||◌, Option, none, some, List, [],
  ◌∷◌, if◌then◌else◌, str_eq,
}
use text.Mathlib.Text.{starts_with}
use beer_avaliation_api.Errors.{Error}
use beer_avaliation_api.Results.{Result, ok, err}

abbrev pub default_max_retries : ℕ
default_max_retries = 3

abbrev pub default_base_delay : ℕ
default_base_delay = 100 * 1000000

pub record RetryableDb : Type 0 where
  pub max_retries : ℕ
  pub base_delay : ℕ

-- `NewRetryableDB` with `loadEnvConfig`: what the environment holds that parses and is not negative.
unfoldable pub new_retryable_db : Option ℕ → Option ℕ → RetryableDb
new_retryable_db retries delay = record {
  max_retries = elim retries [ none ↦ default_max_retries | some n ↦ n ];
  base_delay = elim delay [ none ↦ default_base_delay | some d ↦ d ];
}

-- `strings.Contains`
unfoldable pub contains_text : String → String → Bool
contains_text part String.[] = str_eq part ""
contains_text part (String.◌∷◌ c s) =
    let rest = contains_text part s in if starts_with (String.◌∷◌ c s) part then true else rest

-- `IsTransientError` on the text of an error that is not nil; the text of `driver.ErrBadConn` is the
-- first of these.
unfoldable pub is_transient_error : String → Bool
unfolding contains_text
is_transient_error text =
    contains_text "driver: bad connection" text
    || contains_text "sql: database is closed" text
    || contains_text "connection reset" text
    || contains_text "broken pipe" text
    || contains_text "57P01" text

-- What surrounds a run of `retryExec`, by the number of the attempt: what the function returns, the
-- error of the context before the attempt, the jitter, and the error of the context if it ends while
-- the timer runs; and the text of an error.
pub record Surroundings (A : Type 0) : Type 0 where
  pub outcome : ℕ → Result A
  pub ended_before : ℕ → Option Error
  pub jitter : ℕ → ℕ
  pub ended_while_waiting : ℕ → Option Error
  pub text_of : Error → String

-- How a run ended: its result, how often the function ran, and the delays.
pub record Run (A : Type 0) : Type 0 where
  pub result : Result A
  pub attempts : ℕ
  pub delays : List ℕ

abbrev pub delayed : {A : Type 0} → ℕ → Run A → Run A
delayed d run = record run { delays = d ∷ run.delays }

module _ {A : Type 0} (base_delay : ℕ) (env : Surroundings A) where
  -- Whether an attempt returned an error that is worth another one.
  unfoldable pub is_retried : Result A → Bool
  is_retried (ok a) = false
  is_retried (err e) = is_transient_error (env.text_of e)

  unfoldable pub delay_after : ℕ → ℕ
  delay_after attempt = 2 ^ attempt * base_delay + env.jitter attempt

  -- The loop of `retryExec` at an attempt, with the attempts left after it.
  unfoldable pub retry_from : ℕ → ℕ → Run A
  unfolding is_retried delay_after
  retry_from zero attempt = elim (env.ended_before attempt) [
    | some e ↦ record { result = err e; attempts = attempt; delays = [] }
    | none ↦ record { result = env.outcome attempt; attempts = attempt + 1; delays = [] }
  ]
  retry_from (suc left) attempt =
      let rest = retry_from left (attempt + 1) in
      elim (env.ended_before attempt) [
        | some e ↦ record { result = err e; attempts = attempt; delays = [] }
        | none ↦
            if not (is_retried (env.outcome attempt))
            then record { result = env.outcome attempt; attempts = attempt + 1; delays = [] }
            else elim (env.ended_while_waiting attempt) [
              | some e ↦ record {
                result = err e;
                attempts = attempt + 1;
                delays = delay_after attempt ∷ [];
              }
              | none ↦ delayed (delay_after attempt) rest
            ]
      ]

  -- `retryExec`
  unfoldable pub retry_exec : ℕ → Run A
  unfolding retry_from
  retry_exec max_retries = retry_from max_retries 0
