-- ===== src/Database/Tests.antt =====
-- A call of the database that fails once and then succeeds (pkg/database/retry.go).
use beer_avaliation_api.Base.{ℕ, ◌+◌, ◌≡◌, refl, String, none, ltb, if◌then◌else◌}
use beer_avaliation_api.Errors.{Error, plain}
use beer_avaliation_api.Results.{ok, err}
use beer_avaliation_api.Database.{Surroundings, retry_exec}
use beer_avaliation_api.Database.Attempts.{IsDecisive, retry_exec-IsDecisive}

abbrev text : Error → String
text e = "write: broken pipe"

abbrev flaky : Surroundings ℕ
flaky = record {
  outcome = λ k. if ltb k 1 then err (plain "write: broken pipe") else ok k;
  ended_before = λ k. none;
  jitter = λ k. 7;
  ended_while_waiting = λ k. none;
  text_of = text;
}

retry_exec-IsDecisive_example :
    (k : ℕ) × IsDecisive 100 flaky 0 3 k
    × ((retry_exec 100 flaky 3).result ≡ flaky.outcome k)
    × ((retry_exec 100 flaky 3).attempts ≡ k + 1)
retry_exec-IsDecisive_example = retry_exec-IsDecisive 100 flaky 3 (λ k. refl) (λ k. refl)
