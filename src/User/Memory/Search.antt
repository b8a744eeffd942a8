-- ===== src/User/Memory/Search.antt =====
-- The three loops of the store: find, replace and remove the first element that fits
-- (internal/user/repository/user_repository_memory.go).
use beer_avaliation_api.Base.{
  ◌+◌, ◌≡◌, inl, inr, refl, Bool, true, false, none, some, List, [], ◌∷◌, ◌++◌, arith, length,
  if◌then◌else◌, Bool-cases,
}
use beer_avaliation_api.User.Memory.{find, replace_first, remove_first}

module _ {ℓ} {A : Type ℓ} (fits : A → Bool) where
  pub find-fits : (xs : List A) (a : A) → find fits xs ≡ some a → fits a ≡ true
  unfolding find
  find-fits [] a h = cc
  find-fits (x ∷ xs) a h = elim (Bool-cases (fits x)) [
    | inl e ↦ ground (arith, e)
    | inr e ↦ find-fits xs a (ground (arith, e))
  ]

  pub find-append :
      (xs : List A) (a : A)
      → find fits xs ≡ none
      → find fits (xs ++ a ∷ []) ≡ (if fits a then some a else none)
  unfolding find
  find-append [] a h = refl
  find-append (x ∷ xs) a h = ground (arith, find-append xs a)

  pub length-replace_first :
      (f : A → A) (xs : List A) → length (replace_first fits f xs) ≡ length xs
  unfolding replace_first
  length-replace_first f [] = refl
  length-replace_first f (x ∷ xs) = ground (arith, length-replace_first f xs)

  -- What was found is found changed, if the change keeps what fits.
  pub find-replace_first :
      (f : A → A) (xs : List A) (a : A)
      → find fits xs ≡ some a
      → fits (f a) ≡ true
      → find fits (replace_first fits f xs) ≡ some (f a)
  unfolding find replace_first
  find-replace_first f [] a h k = cc
  find-replace_first f (x ∷ xs) a h k = elim (Bool-cases (fits x)) [
    | inl e ↦ ground (arith, e)
    | inr e ↦ ground (arith, e, find-replace_first f xs a)
  ]

  -- A change that leaves what was found as it was changes nothing.
  pub replace_first_same :
      (f : A → A) (xs : List A) (a : A)
      → find fits xs ≡ some a
      → f a ≡ a
      → replace_first fits f xs ≡ xs
  unfolding find replace_first
  replace_first_same f [] a h k = refl
  replace_first_same f (x ∷ xs) a h k = elim (Bool-cases (fits x)) [
    | inl e ↦ ground (arith, e)
    | inr e ↦ ground (arith, e, replace_first_same f xs a)
  ]

  -- A search by another test does not see the change, if that test never holds where this one does.
  pub find-replace_first_other :
      (other : A → Bool) (f : A → A) (xs : List A)
      → ((a : A) → fits a ≡ true → (other a ≡ false) × (other (f a) ≡ false))
      → find other (replace_first fits f xs) ≡ find other xs
  unfolding find replace_first
  find-replace_first_other other f [] h = refl
  find-replace_first_other other f (x ∷ xs) h =
      ground (arith, h x, find-replace_first_other other f xs h)

  pub length-remove_first :
      (xs : List A) (a : A) → find fits xs ≡ some a → length (remove_first fits xs) + 1 ≡ length xs
  unfolding find remove_first
  length-remove_first [] a h = cc
  length-remove_first (x ∷ xs) a h = ground (arith, length-remove_first xs a)

  pub find-remove_first_other :
      (other : A → Bool) (xs : List A)
      → ((a : A) → fits a ≡ true → other a ≡ false)
      → find other (remove_first fits xs) ≡ find other xs
  unfolding find remove_first
  find-remove_first_other other [] h = refl
  find-remove_first_other other (x ∷ xs) h = ground (arith, h x, find-remove_first_other other xs h)
