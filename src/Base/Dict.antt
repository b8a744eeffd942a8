-- ===== src/Base/Dict.antt =====
-- Go's `map[string]V` as an association list. The order of the list stands for the order of an
-- iteration, which Go leaves open: what is proved for every list holds for every order.
use Prim.Native.Nat.{◌+◌, ◌≤◌, ◌<◌}
use Prim.Native.String.{String}
use mathlib.Core.Path.{◌≡◌, refl}
use mathlib.Core.Logic.{◌⊎◌, inl, inr}
use mathlib.Core.Option.{Option, none, some}
use mathlib.Core.List.{List, [], ◌∷◌}
use native.Mathlib.Omega.{arith}
use text.Mathlib.Text.{◌==◌}
use text.Mathlib.TextEquality.{eq_iff}
use beer_avaliation_api.Base.Tests.{if◌then◌else◌, if_elim, if_cases, Bool-cases}
use beer_avaliation_api.Base.Lists.{length, All}

abbrev pub Dict {ℓ} : Type ℓ → Type ℓ
Dict V = List (String × V)

module _ {ℓ} {V : Type ℓ} where
  -- `delete(m, k)`
  unfoldable pub delete : String → Dict V → Dict V
  delete k [] = []
  delete k ((j, v) ∷ m) = let rest = delete k m in if j == k then rest else (j, v) ∷ rest

  -- `v, ok := m[k]`
  unfoldable pub lookup : String → Dict V → Option V
  lookup key [] = none
  lookup key ((other, value) ∷ entries) =
      let later = lookup key entries in if other == key then some value else later

  -- `m[k] = v`: the entry stays at its place, and a new one goes to the end.
  unfoldable pub insert : String → V → Dict V → Dict V
  insert key value [] = (key, value) ∷ []
  insert key value ((other, old) ∷ entries) =
      let later = insert key value entries in
      if other == key then (key, value) ∷ entries else (other, old) ∷ later

  pub lookup-insert :
      (key asked : String) (value : V) (entries : Dict V)
      → lookup asked (insert key value entries)
        ≡ (if key == asked then some value else lookup asked entries)
  unfolding lookup insert
  lookup-insert key asked value [] = refl
  lookup-insert key asked value ((other, old) ∷ entries) =
      let later = lookup-insert key asked value entries in
      ground (arith, eq_iff other asked, eq_iff other key, eq_iff key asked)

  pub lookup-delete :
      (k j : String) (m : Dict V) → lookup j (delete k m) ≡ (if k == j then none else lookup j m)
  unfolding lookup delete
  lookup-delete k j [] = ground arith
  lookup-delete k j ((i, v) ∷ m) =
      ground (arith, lookup-delete k j m, eq_iff i k, eq_iff i j, eq_iff k j)

  pub length-insert-le : (k : String) (v : V) (m : Dict V) → length (insert k v m) ≤ length m + 1
  unfolding insert
  length-insert-le k v [] = omega arith
  length-insert-le k v ((j, w) ∷ m) = ground (arith, length-insert-le k v m)

  pub length-delete-le : (k : String) (m : Dict V) → length (delete k m) ≤ length m
  unfolding delete
  length-delete-le k [] = omega arith
  length-delete-le k ((j, v) ∷ m) = ground (arith, length-delete-le k m)

  -- A key of the map, by the scan that finds it.
  abbrev pub HasKey : String → Dict V → Type 0
  HasKey k [] = ⊥
  HasKey k ((j, v) ∷ m) = (j ≡ k) ⊎ HasKey k m

  pub length-delete-lt : (k : String) (m : Dict V) → HasKey k m → length (delete k m) < length m
  unfolding delete
  length-delete-lt k [] h = absurd h
  length-delete-lt k ((j, v) ∷ m) h =
      ground (arith, eq_iff j k, length-delete-lt k m, length-delete-le k m)

  -- The keys of a Go map are distinct.
  abbrev pub Distinct : Dict V → Type 0
  Distinct [] = Unit
  Distinct ((k, v) ∷ m) = ¬ HasKey k m × Distinct m

  pub lookup-eq-none_of_not : (k : String) (m : Dict V) → ¬ HasKey k m → lookup k m ≡ none
  unfolding lookup
  lookup-eq-none_of_not k [] h = refl
  lookup-eq-none_of_not k ((j, v) ∷ m) h =
      let later = lookup-eq-none_of_not k m (λ g. h (inr g)) in
      elim (Bool-cases (j == k)) [
        | inl e ↦ absurd (h (inl ((eq_iff j k).0 e)))
        | inr e ↦ rw e later
      ]

  HasKey-insert :
      (k j : String) (v : V) (m : Dict V) → HasKey j (insert k v m) → (k ≡ j) ⊎ HasKey j m
  unfolding insert
  HasKey-insert k j v [] h = ground arith
  HasKey-insert k j v ((i, w) ∷ m) h = ground (arith, HasKey-insert k j v m, eq_iff i k)

  HasKey-delete : (k j : String) (m : Dict V) → HasKey j (delete k m) → HasKey j m
  unfolding delete
  HasKey-delete k j [] h = h
  HasKey-delete k j ((i, w) ∷ m) h = ground (arith, HasKey-delete k j m)

  pub insert-Distinct : (k : String) (v : V) (m : Dict V) → Distinct m → Distinct (insert k v m)
  unfolding insert
  insert-Distinct k v [] h = (λ f. f, tt)
  insert-Distinct k v ((j, w) ∷ m) (fresh, h) =
      if_cases Distinct (j == k) {x = (k, v) ∷ m} {y = (j, w) ∷ insert k v m}
        (λ e. ((λ g. fresh (rw ((eq_iff j k).0 e) g)), h))
        (λ e. (
          (λ g. elim (HasKey-insert k j v m g) [
            | inl p ↦ absurd (ground (arith, eq_iff j k))
            | inr q ↦ fresh q
          ]),
          insert-Distinct k v m h,
        ))

  pub delete-Distinct : (k : String) (m : Dict V) → Distinct m → Distinct (delete k m)
  unfolding delete
  delete-Distinct k [] h = tt
  delete-Distinct k ((j, w) ∷ m) (fresh, h) =
      let rest = delete-Distinct k m h in
      if_elim Distinct (j == k) {x = delete k m} {y = (j, w) ∷ delete k m} rest
        (λ g. fresh (HasKey-delete k j m g), rest)

  module _ {κ} (P : String × V → Type κ) where
    pub All-delete : (k : String) (m : Dict V) → All P m → All P (delete k m)
    unfolding delete
    All-delete k [] h = h
    All-delete k ((j, v) ∷ m) (p, h) =
        let rest = All-delete k m h in if_elim (All P) (j == k) rest (p, rest)

    pub All-insert : (k : String) (v : V) (m : Dict V) → P (k, v) → All P m → All P (insert k v m)
    unfolding insert
    All-insert k v [] p h = (p, h)
    All-insert k v ((j, w) ∷ m) p (q, h) = if_elim (All P) (j == k) (p, h) (q, All-insert k v m p h)
