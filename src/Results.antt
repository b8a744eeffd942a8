-- ===== src/Results.antt =====
-- A Go function that returns `(T, error)` returns a `Result`; a method that changes a state is an
-- action of `Exec`, which keeps what was written before an error.
use beer_avaliation_api.Base.{◌≡◌, ◌⊎◌, inl, inr, refl, Bool, true, false}
use beer_avaliation_api.Errors.{Error}

pub data Result {ℓ} (A : Type ℓ) : Type ℓ where
  ok : A → Result A
  err : Error → Result A

abbrev pub Exec {ℓ} : Type ℓ → Type ℓ → Type ℓ
Exec S A = S → Result A × S

abbrev pub is_ok {ℓ} : {A : Type ℓ} → Result A → Bool
is_ok (ok a) = true
is_ok (err e) = false

pub Result-cases {ℓ} :
    {A : Type ℓ} (r : Result A) → ((a : A) × (r ≡ ok a)) ⊎ ((e : Error) × (r ≡ err e))
Result-cases (ok a) = inl (a, refl)
Result-cases (err e) = inr (e, refl)

module _ {ℓ} {S A : Type ℓ} where
  abbrev pub pure : A → Exec S A
  pure a s = (ok a, s)

  abbrev pub raise : Error → Exec S A
  raise e s = (err e, s)

  abbrev pub lift : Result A → Exec S A
  lift r s = (r, s)

  abbrev pub map_error : (Error → Error) → Result A × S → Result A × S
  map_error f (ok a, s) = (ok a, s)
  map_error f (err e, s) = (err (f e), s)

  -- `if err != nil { return f(err) }`
  infixl 10 ◌or_raise◌
  abbrev pub ◌or_raise◌ : Exec S A → (Error → Error) → Exec S A
  ◌or_raise◌ m f s = map_error f (m s)

  -- `v, err := m`, with the result in hand
  abbrev pub try : Exec S A → Exec S (Result A)
  try m s = let (r, s') = m s in (ok r, s')

module _ {ℓ} {S A B : Type ℓ} where
  abbrev pub continue : Result A × S → (A → Exec S B) → Result B × S
  continue (ok a, s) f = f a s
  continue (err e, s) f = (err e, s)

  infixl 5 ◌>>=◌ ◌>>◌
  abbrev pub ◌>>=◌ : Exec S A → (A → Exec S B) → Exec S B
  ◌>>=◌ m f s = continue (m s) f

  abbrev pub ◌>>◌ : Exec S A → Exec S B → Exec S B
  m >> n = m >>= λ _. n

abbrev pub guard {ℓ} : {S : Type ℓ} → Bool → Error → Exec S Unit
guard true e s = (ok tt, s)
guard false e s = (err e, s)
