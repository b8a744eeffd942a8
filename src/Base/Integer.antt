-- ===== src/Base/Integer.antt =====
-- Go's `int`, of which the program passes on the pages, the limits and the offsets of its callers,
-- `strconv.Atoi`, which reads them, and `strconv.Itoa`, which writes them.
use Prim.Native.Nat.{ℕ, zero, suc, ◌+◌, ◌-◌, ◌*◌, ◌/◌, ◌%◌, ◌^◌, ◌<◌}
use Prim.Native.Char.{Char, code}
use native.Mathlib.Omega.{arith}
use mathlib.Core.Path.{◌≡◌, refl}
use Prim.Native.String.{String}
use mathlib.Core.Bool.{◌&&◌}
use mathlib.Core.Logic.{inl, inr}
use mathlib.Core.Option.{Option, none, some}
use beer_avaliation_api.Base.Tests.{if◌then◌else◌, ltb, leb, Bool-cases, ltb→lt, ◌==◌}

-- `negsuc n` is `-(n+1)`.
pub data ℤ : Type 0 where
  pos : ℕ → ℤ
  negsuc : ℕ → ℤ

unfoldable pub neg : ℕ → ℤ
neg zero = pos zero
neg (suc n) = negsuc n

-- The number that the characters write after the one that is read already, if all are digits.
unfoldable pub digits_from : ℕ → String → Option ℕ
digits_from read String.[] = some read
digits_from read (String.◌∷◌ c others) =
    let rest = digits_from (read * 10 + (code c - b'0')) others in
    if leb b'0' (code c) && leb (code c) b'9' then rest else none

-- A number of at least one digit, up to a bound.
unfoldable pub digits_up_to : ℕ → String → Option ℕ
unfolding digits_from
digits_up_to bound String.[] = none
digits_up_to bound (String.◌∷◌ c others) = elim (digits_from 0 (String.◌∷◌ c others)) [
  | none ↦ none
  | some n ↦ if leb n bound then some n else none
]

abbrev as_sign : (ℕ → ℤ) → Option ℕ → Option ℤ
as_sign sign none = none
as_sign sign (some n) = some (sign n)

-- `strconv.Atoi`, and `strconv.ParseInt` in base 10: a sign, digits, and 64 bits at most.
unfoldable pub atoi : String → Option ℤ
unfolding digits_up_to neg
atoi String.[] = none
atoi (String.◌∷◌ c others) =
    if code c == b'-'
    then as_sign neg (digits_up_to (2 ^ 63) others)
    else if code c == b'+'
    then as_sign pos (digits_up_to (2 ^ 63 - 1) others)
    else as_sign pos (digits_up_to (2 ^ 63 - 1) (String.◌∷◌ c others))

abbrev pub digit : ℕ → Char
digit zero = "0"
digit (suc zero) = "1"
digit (suc (suc zero)) = "2"
digit (suc (suc (suc zero))) = "3"
digit (suc (suc (suc (suc zero)))) = "4"
digit (suc (suc (suc (suc (suc zero))))) = "5"
digit (suc (suc (suc (suc (suc (suc zero)))))) = "6"
digit (suc (suc (suc (suc (suc (suc (suc zero))))))) = "7"
digit (suc (suc (suc (suc (suc (suc (suc (suc zero)))))))) = "8"
digit _ = "9"

-- The digits of a number before those that are written; each step takes the last one off, so a fuel
-- above the number is enough.
unfoldable pub digits_of : ℕ → ℕ → String → String
digits_of zero n written = written
digits_of (suc fuel) n written =
    let rest = digits_of fuel (n / 10) (String.◌∷◌ (digit (n % 10)) written) in
    if ltb n 10 then String.◌∷◌ (digit n) written else rest

-- `strconv.Itoa` of a number that is not negative.
unfoldable pub itoa_pos : ℕ → String
unfolding digits_of
itoa_pos n = digits_of (suc n) n ""

-- `strconv.Itoa`
unfoldable pub itoa : ℤ → String
unfolding itoa_pos
itoa (pos n) = itoa_pos n
itoa (negsuc n) = String.◌∷◌ "-" (itoa_pos (suc n))

code-digit : (d : ℕ) → d < 10 → code (digit d) ≡ b'0' + d
code-digit zero h = refl
code-digit (suc zero) h = refl
code-digit (suc (suc zero)) h = refl
code-digit (suc (suc (suc zero))) h = refl
code-digit (suc (suc (suc (suc zero)))) h = refl
code-digit (suc (suc (suc (suc (suc zero))))) h = refl
code-digit (suc (suc (suc (suc (suc (suc zero)))))) h = refl
code-digit (suc (suc (suc (suc (suc (suc (suc zero))))))) h = refl
code-digit (suc (suc (suc (suc (suc (suc (suc (suc zero)))))))) h = refl
code-digit (suc (suc (suc (suc (suc (suc (suc (suc (suc zero))))))))) h = refl
code-digit (suc (suc (suc (suc (suc (suc (suc (suc (suc (suc d)))))))))) h = absurd (omega arith)

digits_from-digit :
    (n d : ℕ) (others : String)
    → d < 10
    → digits_from n (String.◌∷◌ (digit d) others) ≡ digits_from (n * 10 + d) others
unfolding digits_from
digits_from-digit n d others h = ground (arith, code-digit d h)

digits_from-digits_of :
    (fuel n : ℕ) (written : String)
    → n < fuel
    → digits_from 0 (digits_of fuel n written) ≡ digits_from n written
unfolding digits_of
digits_from-digits_of zero n written h = absurd (omega arith)
digits_from-digits_of (suc fuel) n written h = ground (
  arith,
  digits_from-digit 0 n written,
  digits_from-digit (n / 10) (n % 10) written,
  digits_from-digits_of fuel (n / 10) (String.◌∷◌ (digit (n % 10)) written),
)

digits_of-head :
    (fuel n : ℕ) (written : String)
    → n < fuel
    → (d : ℕ) × (others : String) × (d < 10)
      × (digits_of fuel n written ≡ String.◌∷◌ (digit d) others)
unfolding digits_of
digits_of-head zero n written h = absurd (omega arith)
digits_of-head (suc fuel) n written h =
    let next = String.◌∷◌ (digit (n % 10)) written in
    elim (Bool-cases (ltb n 10)) [
      | inl e ↦ (n, written, ltb→lt n 10 e, ground (arith, e))
      | inr e ↦
          let inside : n / 10 < fuel = ground arith in
          let (d, others, small, shape) = digits_of-head fuel (n / 10) next inside in
          (d, others, small, ground (arith, e, shape))
    ]

-- What is written is read back.
pub atoi-itoa_pos : (n : ℕ) → n < 2 ^ 63 → atoi (itoa_pos n) ≡ some (pos n)
unfolding atoi itoa_pos digits_up_to
atoi-itoa_pos n h =
    let (d, others, small, shape) = digits_of-head (suc n) n "" (omega arith) in
    let read : digits_from 0 (digits_of (suc n) n "") ≡ digits_from n "" =
      digits_from-digits_of (suc n) n "" (omega arith) in
    let whole : digits_from 0 (String.◌∷◌ (digit d) others) ≡ some n =
      ground (arith, read, shape) in
    ground (arith, shape, whole, code-digit d small)
