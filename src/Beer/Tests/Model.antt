-- ===== src/Beer/Tests/Model.antt =====
-- The ratings and the enums at concrete values (internal/beer/model).
use beer_avaliation_api.Base.{ℕ, ◌+◌, ◌*◌, ◌/◌, ◌≤◌, ◌<◌, arith}
use native.Mathlib.Nat.{mod-lt, lt_of_mul-lt-mul_left, le_of_mul-le-mul_left}
use native.Mathlib.Omega.{div_any}
use beer_avaliation_api.Beer.Model.{
  Rounding, set_rating_aggregates, set_rating_aggregates_bounds, rating_sums,
}
use beer_avaliation_api.Beer.Tests.{pils}

-- A rounding: the tenths of the quotient, rounded down.
abbrev tenths : ℕ → ℕ → ℕ
tenths sum count = 10 * sum / count

quotient_bounds :
    (n count : ℕ) → 0 < count → (count * (n / count) ≤ n) × (n < count * (n / count + 1))
quotient_bounds n count h = omega (arith, div_any n count, mod-lt n h)

tenths_above : (lo sum count : ℕ) → 0 < count → lo * count ≤ sum → 10 * lo ≤ tenths sum count
tenths_above lo sum count h l =
    let q = 10 * sum / count in
    let (low, high) = quotient_bounds (10 * sum) count h in
    let less : count * (10 * lo) < count * (q + 1) = omega (arith, high) in
    omega (arith, lt_of_mul-lt-mul_left count less)

tenths_below : (hi sum count : ℕ) → 0 < count → sum ≤ hi * count → tenths sum count ≤ 10 * hi
tenths_below hi sum count h l =
    let q = 10 * sum / count in
    let (low, high) = quotient_bounds (10 * sum) count h in
    let less : count * q ≤ count * (10 * hi) = omega (arith, low) in le_of_mul-le-mul_left less h

tenths-Rounding : Rounding tenths
tenths-Rounding = record { above = tenths_above; below = tenths_below }

set_rating_aggregates_bounds_example :
    ((set_rating_aggregates tenths pils).total_reviews ≤ 1)
    × (10 ≤ (set_rating_aggregates tenths pils).average_rating)
    × ((set_rating_aggregates tenths pils).average_rating ≤ 50)
unfolding set_rating_aggregates rating_sums
set_rating_aggregates_bounds_example =
    set_rating_aggregates_bounds tenths pils tenths-Rounding (omega arith)
