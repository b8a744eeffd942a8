-- ===== src/Uuid/Tests.antt =====
-- Identifiers of concrete times (pkg/uuid/uuid.go).
use beer_avaliation_api.Base.{ℕ, ◌≤◌, ◌<◌, ◌≡◌, refl, arith}
use beer_avaliation_api.Uuid.{new_v7, hex_digits, number_of, nth, new_v7-time}

abbrev ones : ℕ → ℕ
ones i = 255

written : new_v7 ones 1700000000000 ≡ "018bcfe5-6800-7fff-bfff-ffffffffffff"
unfolding new_v7
written = refl

new_v7-time_example :
    (number_of 12 0 (hex_digits (new_v7 ones 1700000000000)) ≡ 1700000000000)
    × (nth 12 (hex_digits (new_v7 ones 1700000000000)) ≡ 7)
    × (8 ≤ nth 16 (hex_digits (new_v7 ones 1700000000000)))
    × (nth 16 (hex_digits (new_v7 ones 1700000000000)) < 12)
new_v7-time_example = new_v7-time ones 1700000000000 (λ i. omega arith) (omega arith)
