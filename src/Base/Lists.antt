-- ===== src/Base/Lists.antt =====
-- Lists measured by native numbers, selection by a Boolean test, and the predicate `All`.
use Prim.Native.Nat.{ℕ, suc, ◌+◌, ◌≤◌}
use mathlib.Core.Path.{◌≡◌, refl}
use mathlib.Core.Bool.{Bool, true}
use mathlib.Core.List.{List, [], ◌∷◌, ◌++◌}
use native.Mathlib.Omega.{arith}
use mathlib.Core.Logic.{◌⊎◌, inl, inr}
use beer_avaliation_api.Base.Tests.{if◌then◌else◌, if_elim, if_cases}

module _ {ℓ} {A : Type ℓ} where
  abbrev pub length : List A → ℕ
  length [] = 0
  length (x ∷ xs) = suc (length xs)

  pub length-append : (xs ys : List A) → length (xs ++ ys) ≡ length xs + length ys
  length-append [] ys = omega arith
  length-append (x ∷ xs) ys = omega (arith, length-append xs ys)

  -- `for _, x := range xs { if p(x) { out = append(out, x) } }`
  unfoldable pub select : (A → Bool) → List A → List A
  select p [] = []
  select p (x ∷ xs) = let rest = select p xs in if p x then x ∷ rest else rest

  pub length-select-le : (p : A → Bool) (xs : List A) → length (select p xs) ≤ length xs
  unfolding select
  length-select-le p [] = omega arith
  length-select-le p (x ∷ xs) = ground (arith, length-select-le p xs)

  pub select-append :
      (p : A → Bool) (xs ys : List A) → select p (xs ++ ys) ≡ select p xs ++ select p ys
  unfolding select
  select-append p [] ys = refl
  select-append p (x ∷ xs) ys = ground (arith, select-append p xs ys)

  -- Selecting by the weaker test first changes nothing.
  pub select-select :
      (p q : A → Bool) (xs : List A)
      → ((x : A) → q x ≡ true → p x ≡ true)
      → select q (select p xs) ≡ select q xs
  unfolding select
  select-select p q [] h = refl
  select-select p q (x ∷ xs) h = ground (arith, h x, select-select p q xs h)

  pub select_comm : (p q : A → Bool) (xs : List A) → select q (select p xs) ≡ select p (select q xs)
  unfolding select
  select_comm p q [] = refl
  select_comm p q (x ∷ xs) = ground (arith, select_comm p q xs)

module _ {ℓ κ} {A : Type ℓ} (P : A → Type κ) where
  abbrev pub All : List A → Type κ
  All [] = Unit
  All (x ∷ xs) = P x × All xs

  pub All-append : (xs ys : List A) → All xs → All ys → All (xs ++ ys)
  All-append [] ys _ k = k
  All-append (x ∷ xs) ys (p, h) k = (p, All-append xs ys h k)

  pub All-select : (p : A → Bool) (xs : List A) → All xs → All (select p xs)
  unfolding select
  All-select p [] h = tt
  All-select p (x ∷ xs) (here, rest) =
      let kept = All-select p xs rest in if_elim All (p x) (here, kept) kept

module _ {ℓ} {A : Type ℓ} where
  abbrev pub Any : (A → Type 0) → List A → Type 0
  Any P [] = ⊥
  Any P (x ∷ xs) = P x ⊎ Any P xs

  -- One of the elements has what all of them have.
  pub Any-All :
      (P Q R : A → Type 0) (xs : List A)
      → ((x : A) → P x → Q x → R x)
      → Any P xs
      → All Q xs
      → Any R xs
  Any-All P Q R [] f h qs = absurd h
  Any-All P Q R (x ∷ xs) f (inl p) (q, qs) = inl (f x p q)
  Any-All P Q R (x ∷ xs) f (inr later) (q, qs) = inr (Any-All P Q R xs f later qs)

  pub Any-map : (P Q : A → Type 0) (xs : List A) → ((x : A) → P x → Q x) → Any P xs → Any Q xs
  Any-map P Q [] f h = absurd h
  Any-map P Q (x ∷ xs) f (inl p) = inl (f x p)
  Any-map P Q (x ∷ xs) f (inr later) = inr (Any-map P Q xs f later)

  pub Any-const : (Q : Type 0) (xs : List A) → Any (λ x. Q) xs → Q
  Any-const Q [] h = absurd h
  Any-const Q (x ∷ xs) (inl q) = q
  Any-const Q (x ∷ xs) (inr later) = Any-const Q xs later

  pub All-selected : (p : A → Bool) (xs : List A) → All (λ x. p x ≡ true) (select p xs)
  unfolding select
  All-selected p [] = tt
  All-selected p (x ∷ xs) =
      let kept = All-selected p xs in
      if_cases (All (λ x. p x ≡ true)) (p x) (λ e. (e, kept)) (λ e. kept)
