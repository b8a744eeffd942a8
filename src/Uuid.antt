-- ===== src/Uuid.antt =====
-- pkg/uuid/uuid.go: identifiers that begin with the time.
mod Tests
use Prim.Native.Char.{Char, code}
use beer_avaliation_api.Base.{
  ℕ, zero, suc, ◌+◌, ◌-◌, ◌*◌, ◌/◌, ◌%◌, ◌^◌, ◌≤◌, ◌<◌, ◌≡◌, refl, String, Bool, ◌||◌, List, [],
  ◌∷◌, if◌then◌else◌, ltb, leb, ◌==◌, arith, All, Bool-cases, inl, inr, ap, false, ◌∙◌,
}
use beer_avaliation_api.Base.Integer.{digit}

abbrev letter : ℕ → Char
letter zero = "a"
letter (suc zero) = "b"
letter (suc (suc zero)) = "c"
letter (suc (suc (suc zero))) = "d"
letter (suc (suc (suc (suc zero)))) = "e"
letter _ = "f"

-- `hexd[d]`
unfoldable pub hex : ℕ → Char
hex d = if ltb d 10 then digit d else letter (d - 10)

-- A dash stands before the bytes 4, 6, 8 and 10.
unfoldable pub has_dash : ℕ → Bool
has_dash i = i == 4 || i == 6 || i == 8 || i == 10

-- `format`, from the byte at an index.
unfoldable pub format_from : ℕ → List ℕ → String
unfolding hex has_dash
format_from i [] = ""
format_from i (b ∷ bs) =
    let rest = String.◌∷◌ (hex (b / 16)) (String.◌∷◌ (hex (b % 16)) (format_from (i + 1) bs)) in
    if has_dash i then String.◌∷◌ "-" rest else rest

-- The bytes of `NewV7`: the milliseconds in 16 and in 32 bits, then the random bytes with the version
-- in place of four bits and the variant in place of two.
unfoldable pub v7_bytes : (ℕ → ℕ) → ℕ → List ℕ
v7_bytes rand_bytes now =
    let high = now / 2 ^ 32 % 2 ^ 16 in
    let low = now % 2 ^ 32 in
    (high / 2 ^ 8)
    ∷ (high % 2 ^ 8)
    ∷ (low / 2 ^ 24)
    ∷ (low / 2 ^ 16 % 2 ^ 8)
    ∷ (low / 2 ^ 8 % 2 ^ 8)
    ∷ (low % 2 ^ 8)
    ∷ (0x70 + rand_bytes 0 % 2 ^ 4)
    ∷ (rand_bytes 1)
    ∷ (0x80 + rand_bytes 2 % 2 ^ 6)
    ∷ (rand_bytes 3)
    ∷ (rand_bytes 4)
    ∷ (rand_bytes 5)
    ∷ (rand_bytes 6)
    ∷ (rand_bytes 7)
    ∷ (rand_bytes 8)
    ∷ (rand_bytes 9)
    ∷ []

-- `NewV7`, of the bytes that `rand.Read` has filled in and of the time in milliseconds.
unfoldable pub new_v7 : (ℕ → ℕ) → ℕ → String
unfolding v7_bytes format_from
new_v7 rand_bytes now = format_from 0 (v7_bytes rand_bytes now)

-- The reading of an identifier: its hexadecimal digits.
abbrev hex_value : Char → ℕ
hex_value c = if ltb (code c) b'a' then code c - b'0' else code c - b'a' + 10

unfoldable pub hex_digits : String → List ℕ
hex_digits String.[] = []
hex_digits (String.◌∷◌ c others) =
    let rest = hex_digits others in if code c == b'-' then rest else hex_value c ∷ rest

-- The number that the first digits write.
unfoldable pub number_of : ℕ → ℕ → List ℕ → ℕ
number_of zero read digits = read
number_of (suc n) read [] = read
number_of (suc n) read (d ∷ digits) = number_of n (read * 16 + d) digits

unfoldable pub nth : ℕ → List ℕ → ℕ
nth n [] = 0
nth zero (d ∷ digits) = d
nth (suc n) (d ∷ digits) = nth n digits

hex_value-hex : (d : ℕ) → d < 16 → hex_value (hex d) ≡ d
unfolding hex
hex_value-hex zero h = refl
hex_value-hex (suc zero) h = refl
hex_value-hex (suc (suc zero)) h = refl
hex_value-hex (suc (suc (suc zero))) h = refl
hex_value-hex (suc (suc (suc (suc zero)))) h = refl
hex_value-hex (suc (suc (suc (suc (suc zero))))) h = refl
hex_value-hex (suc (suc (suc (suc (suc (suc zero)))))) h = refl
hex_value-hex (suc (suc (suc (suc (suc (suc (suc zero))))))) h = refl
hex_value-hex (suc (suc (suc (suc (suc (suc (suc (suc zero)))))))) h = refl
hex_value-hex (suc (suc (suc (suc (suc (suc (suc (suc (suc zero))))))))) h = refl
hex_value-hex (suc (suc (suc (suc (suc (suc (suc (suc (suc (suc zero)))))))))) h = refl
hex_value-hex (suc (suc (suc (suc (suc (suc (suc (suc (suc (suc (suc zero))))))))))) h = refl
hex_value-hex (suc (suc (suc (suc (suc (suc (suc (suc (suc (suc (suc (suc zero)))))))))))) h = refl
hex_value-hex (suc (suc (suc (suc (suc (suc (suc (suc (suc (suc (suc (suc (suc zero))))))))))))) h =
    refl
hex_value-hex
      (suc (suc (suc (suc (suc (suc (suc (suc (suc (suc (suc (suc (suc (suc zero)))))))))))))) h =
    refl
hex_value-hex
      (suc (suc (suc (suc (suc (suc (suc (suc (suc (suc (suc (suc (suc (suc (suc zero)))))))))))))))
      h =
    refl
hex_value-hex
      (suc
        (suc (suc (suc (suc (suc (suc (suc (suc (suc (suc (suc (suc (suc (suc (suc d))))))))))))))))
      h =
    absurd (omega arith)

hex-ne-dash : (d : ℕ) → d < 16 → code (hex d) == b'-' ≡ false
unfolding hex
hex-ne-dash zero h = refl
hex-ne-dash (suc zero) h = refl
hex-ne-dash (suc (suc zero)) h = refl
hex-ne-dash (suc (suc (suc zero))) h = refl
hex-ne-dash (suc (suc (suc (suc zero)))) h = refl
hex-ne-dash (suc (suc (suc (suc (suc zero))))) h = refl
hex-ne-dash (suc (suc (suc (suc (suc (suc zero)))))) h = refl
hex-ne-dash (suc (suc (suc (suc (suc (suc (suc zero))))))) h = refl
hex-ne-dash (suc (suc (suc (suc (suc (suc (suc (suc zero)))))))) h = refl
hex-ne-dash (suc (suc (suc (suc (suc (suc (suc (suc (suc zero))))))))) h = refl
hex-ne-dash (suc (suc (suc (suc (suc (suc (suc (suc (suc (suc zero)))))))))) h = refl
hex-ne-dash (suc (suc (suc (suc (suc (suc (suc (suc (suc (suc (suc zero))))))))))) h = refl
hex-ne-dash (suc (suc (suc (suc (suc (suc (suc (suc (suc (suc (suc (suc zero)))))))))))) h = refl
hex-ne-dash (suc (suc (suc (suc (suc (suc (suc (suc (suc (suc (suc (suc (suc zero))))))))))))) h =
    refl
hex-ne-dash (suc (suc (suc (suc (suc (suc (suc (suc (suc (suc (suc (suc (suc (suc zero))))))))))))))
      h =
    refl
hex-ne-dash
      (suc (suc (suc (suc (suc (suc (suc (suc (suc (suc (suc (suc (suc (suc (suc zero)))))))))))))))
      h =
    refl
hex-ne-dash
      (suc
        (suc (suc (suc (suc (suc (suc (suc (suc (suc (suc (suc (suc (suc (suc (suc d))))))))))))))))
      h =
    absurd (omega arith)

unfoldable nibbles : List ℕ → List ℕ
nibbles [] = []
nibbles (b ∷ bs) = b / 16 ∷ b % 16 ∷ nibbles bs

hex_digits-hex :
    (d : ℕ) (others : String)
    → d < 16
    → hex_digits (String.◌∷◌ (hex d) others) ≡ d ∷ hex_digits others
unfolding hex_digits
hex_digits-hex d others h = rw (hex-ne-dash d h, hex_value-hex d h) refl

hex_digits-byte :
    (b : ℕ) (others : String)
    → b < 256
    → hex_digits (String.◌∷◌ (hex (b / 16)) (String.◌∷◌ (hex (b % 16)) others))
      ≡ b / 16 ∷ b % 16 ∷ hex_digits others
hex_digits-byte b others h =
    hex_digits-hex (b / 16) (String.◌∷◌ (hex (b % 16)) others) (omega (arith, h))
    ∙ ap (λ ds. b / 16 ∷ ds) (hex_digits-hex (b % 16) others (omega arith))

hex_digits-format_from :
    (i : ℕ) (bs : List ℕ) → All (λ b. b < 256) bs → hex_digits (format_from i bs) ≡ nibbles bs
unfolding format_from hex_digits nibbles
hex_digits-format_from i [] h = refl
hex_digits-format_from i (b ∷ bs) (small, others) =
    let rest = String.◌∷◌ (hex (b / 16)) (String.◌∷◌ (hex (b % 16)) (format_from (i + 1) bs)) in
    let read : hex_digits rest ≡ b / 16 ∷ b % 16 ∷ nibbles bs =
      hex_digits-byte b (format_from (i + 1) bs) small
      ∙ ap (λ ds. b / 16 ∷ b % 16 ∷ ds) (hex_digits-format_from (i + 1) bs others) in
    elim (Bool-cases (has_dash i)) [ inl e ↦ rw e read | inr e ↦ rw e read ]

pair-byte : (read b : ℕ) → (read * 16 + b / 16) * 16 + b % 16 ≡ read * 256 + b
pair-byte read b = omega arith

high_bytes : (high : ℕ) → (0 * 256 + high / 2 ^ 8) * 256 + high % 2 ^ 8 ≡ high
high_bytes high = omega arith

low_bytes :
    (high low : ℕ)
    → low < 2 ^ 32
    → (((high * 256 + low / 2 ^ 24) * 256 + low / 2 ^ 16 % 2 ^ 8) * 256 + low / 2 ^ 8 % 2 ^ 8) * 256
        + low % 2 ^ 8
      ≡ high * 2 ^ 32 + low
low_bytes high low h = omega (arith, h)

-- An identifier holds the time that it was made at, in its first twelve digits, up to the year
-- 10889; its version is 7 and its variant is 8 to b.
pub new_v7-time :
    (rand_bytes : ℕ → ℕ) (now : ℕ)
    → ((i : ℕ) → rand_bytes i < 256)
    → now < 2 ^ 48
    → (number_of 12 0 (hex_digits (new_v7 rand_bytes now)) ≡ now)
      × (nth 12 (hex_digits (new_v7 rand_bytes now)) ≡ 7)
      × (8 ≤ nth 16 (hex_digits (new_v7 rand_bytes now)))
      × (nth 16 (hex_digits (new_v7 rand_bytes now)) < 12)
unfolding new_v7 v7_bytes number_of nth nibbles
new_v7-time rand_bytes now bytes h =
    let high = now / 2 ^ 32 % 2 ^ 16 in
    let low = now % 2 ^ 32 in
    let small : All (λ b. b < 256) (v7_bytes rand_bytes now) = (
      omega arith,
      (
        omega arith,
        (
          omega arith,
          (
            omega arith,
            (
              omega arith,
              (
                omega arith,
                (
                  omega arith,
                  (
                    bytes 1,
                    (
                      omega arith,
                      (
                        bytes 3,
                        (bytes 4, (bytes 5, (bytes 6, (bytes 7, (bytes 8, (bytes 9, tt)))))),
                      ),
                    ),
                  ),
                ),
              ),
            ),
          ),
        ),
      ),
    ) in
    let n0 : ℕ = 0 in
    let n1 : ℕ = n0 * 256 + high / 2 ^ 8 in
    let n2 : ℕ = n1 * 256 + high % 2 ^ 8 in
    let n3 : ℕ = n2 * 256 + low / 2 ^ 24 in
    let n4 : ℕ = n3 * 256 + low / 2 ^ 16 % 2 ^ 8 in
    let n5 : ℕ = n4 * 256 + low / 2 ^ 8 % 2 ^ 8 in
    let whole : high * 2 ^ 32 + low ≡ now = omega (arith, h) in
    rw (hex_digits-format_from 0 (v7_bytes rand_bytes now) small) (
      rw
          (
            pair-byte n0 (high / 2 ^ 8),
            pair-byte n1 (high % 2 ^ 8),
            pair-byte n2 (low / 2 ^ 24),
            pair-byte n3 (low / 2 ^ 16 % 2 ^ 8),
            pair-byte n4 (low / 2 ^ 8 % 2 ^ 8),
            pair-byte n5 (low % 2 ^ 8),
            high_bytes high,
          )
          (low_bytes high low (omega arith) ∙ whole),
      omega arith,
      omega arith,
      omega arith,
    )
