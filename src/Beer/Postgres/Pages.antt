-- ===== src/Beer/Postgres/Pages.antt =====
-- `GetPaginated` of internal/beer/repository/beer_repository.go: a page of the beers, the newest first.
use Prim.Native.Nat.{Ordering}
use Prim.Native.String.{compare}
use mathlib.Core.List.{Perm, map-append}
use mathlib.Core.List.Perm
use beer_avaliation_api.Base.{
  ℕ, zero, suc, ◌+◌, ◌-◌, ◌*◌, ◌^◌, ◌%◌, ◌≤◌, ◌<◌, ℤ, pos, negsuc, ◌≡◌, refl, sym, ap, ◌∙◌, Bool,
  true, false, ◌&&◌, ◌||◌, List, [], ◌∷◌, ◌++◌, map, if◌then◌else◌, if_elim, ltb, ◌==◌, length,
  arith,
}
use beer_avaliation_api.Errors.{plain}
use beer_avaliation_api.Results.{Result, ok, err, Exec, ◌>>=◌}
use beer_avaliation_api.User.Model.{Timestamp, missing, rfc3339, malformed}
use beer_avaliation_api.Beer.Model.{Beer}
use beer_avaliation_api.Beer.Postgres.{Row, Db, run, read_row}

-- The first rows of a listing, and those after the first.
unfoldable pub take_rows {ℓ} : {A : Type ℓ} → ℕ → List A → List A
take_rows zero xs = []
take_rows (suc n) [] = []
take_rows (suc n) (x ∷ xs) = x ∷ take_rows n xs

unfoldable pub drop_rows {ℓ} : {A : Type ℓ} → ℕ → List A → List A
drop_rows zero xs = xs
drop_rows (suc n) [] = []
drop_rows (suc n) (x ∷ xs) = drop_rows n xs

-- `DESC NULLS LAST`: a time is above no time.
unfoldable pub rank : Timestamp → ℕ
rank missing = 0
rank (rfc3339 seconds) = suc seconds
rank (malformed text) = 0

-- `ORDER BY created_at DESC NULLS LAST, id DESC`
unfoldable pub comes_first : Row → Row → Bool
unfolding rank
comes_first x y =
    ltb (rank y.created_at) (rank x.created_at)
    || rank x.created_at == rank y.created_at
      && elim (compare y.id x.id) [ Ordering.gt ↦ false | _ ↦ true ]

unfoldable pub insert_row : Row → List Row → List Row
unfolding comes_first
insert_row x [] = x ∷ []
insert_row x (y ∷ ys) =
    let rest = insert_row x ys in if comes_first x y then x ∷ y ∷ ys else y ∷ rest

unfoldable pub newest_rows : List Row → List Row
unfolding insert_row
newest_rows [] = []
newest_rows (x ∷ xs) = insert_row x (newest_rows xs)

-- An `int` as 64 bits, and back.
unfoldable pub to_word : ℤ → ℕ
to_word (pos n) = n % 2 ^ 64
to_word (negsuc n) = 2 ^ 64 - 1 - n % 2 ^ 64

unfoldable pub of_word : ℕ → ℤ
of_word w = if ltb w (2 ^ 63) then pos w else negsuc (2 ^ 64 - 1 - w)

-- `(page - 1) * pageSize`, which wraps.
unfoldable pub page_offset : ℤ → ℤ → ℤ
unfolding to_word of_word
page_offset page page_size =
    of_word ((((to_word page + (2 ^ 64 - 1)) % 2 ^ 64) * to_word page_size) % 2 ^ 64)

-- `LIMIT` and `OFFSET`; the server refuses negative ones.
unfoldable pub page_rows : ℤ → ℤ → Db → Result (List Row) × Db
unfolding take_rows drop_rows newest_rows
page_rows (pos limit) (pos offset) db =
    (ok (take_rows limit (drop_rows offset (newest_rows db.beers))), db)
page_rows _ _ db = (err (plain "LIMIT or OFFSET must not be negative"), db)

-- `GetPaginated`: the page without media, which it selects but does not decode, and the count of all
-- beers.
unfoldable pub get_paginated : (ℕ → ℕ → ℕ) → ℤ → ℤ → Exec Db (List Beer × ℕ)
unfolding run page_rows page_offset read_row
get_paginated round_tenths page page_size = do
  rows ← run (page_rows page_size (page_offset page page_size))
  total ← run (λ db. (ok (length db.beers), db))
  λ db. (ok (map (read_row round_tenths []) rows, total), db)

insert_row-Perm : (x : Row) (ys : List Row) → Perm (insert_row x ys) (x ∷ ys)
unfolding insert_row
insert_row-Perm x [] = Perm.refl (x ∷ [])
insert_row-Perm x (y ∷ ys) =
    if_elim (λ zs. Perm zs (x ∷ y ∷ ys)) (comes_first x y) (Perm.refl (x ∷ y ∷ ys))
      (Perm.trans (Perm.cons _ (insert_row-Perm x ys)) (Perm.swap _ _ _))

pub newest_rows-Perm : (xs : List Row) → Perm (newest_rows xs) xs
unfolding newest_rows
newest_rows-Perm [] = Perm.refl []
newest_rows-Perm (x ∷ xs) =
    Perm.trans (insert_row-Perm x (newest_rows xs)) (Perm.cons _ (newest_rows-Perm xs))

insert_row-length : (x : Row) (ys : List Row) → length (insert_row x ys) ≡ suc (length ys)
unfolding insert_row
insert_row-length x [] = refl
insert_row-length x (y ∷ ys) = ground (arith, insert_row-length x ys)

newest_rows-length : (xs : List Row) → length (newest_rows xs) ≡ length xs
unfolding newest_rows
newest_rows-length [] = refl
newest_rows-length (x ∷ xs) = insert_row-length x (newest_rows xs) ∙ ap suc (newest_rows-length xs)

module _ {ℓ} {A : Type ℓ} where
  take_rows-all : (n : ℕ) (xs : List A) → length xs ≤ n → take_rows n xs ≡ xs
  unfolding take_rows
  take_rows-all zero [] h = refl
  take_rows-all zero (x ∷ xs) h = absurd (omega (arith, h))
  take_rows-all (suc n) [] h = refl
  take_rows-all (suc n) (x ∷ xs) h = ap (λ ys. x ∷ ys) (take_rows-all n xs (omega (arith, h)))

  take_rows-nil : (n : ℕ) → take_rows {A = A} n [] ≡ []
  unfolding take_rows
  take_rows-nil zero = refl
  take_rows-nil (suc n) = refl

  take_rows-add :
      (m n : ℕ) (xs : List A)
      → take_rows m xs ++ take_rows n (drop_rows m xs) ≡ take_rows (m + n) xs
  unfolding take_rows drop_rows
  take_rows-add zero n xs = let same : n ≡ zero + n = omega arith in ap (λ k. take_rows k xs) same
  take_rows-add (suc m) n [] = take_rows-nil n ∙ sym (take_rows-nil (suc m + n))
  take_rows-add (suc m) n (x ∷ xs) =
      let same : suc (m + n) ≡ suc m + n = omega arith in
      ap (λ ys. x ∷ ys) (take_rows-add m n xs) ∙ ap (λ k. take_rows k (x ∷ xs)) same

-- Where nothing wraps, the offset is the product.
page_offset-pos :
    (page size : ℕ)
    → page < 2 ^ 63
    → size < 2 ^ 63
    → page * size < 2 ^ 63
    → page_offset (pos (suc page)) (pos size) ≡ pos (page * size)
unfolding page_offset to_word of_word
page_offset-pos page size h k l =
    let before : (suc page % 2 ^ 64 + (2 ^ 64 - 1)) % 2 ^ 64 ≡ page = omega (arith, h) in
    let whole : size % 2 ^ 64 ≡ size = omega (arith, k) in
    let product = page * size in rw (before, whole) (ground (arith, l))

module _ (round_tenths : ℕ → ℕ → ℕ) where
  get_paginated-ok :
      (page size : ℕ) (db : Db)
      → db.faults ≡ []
      → page < 2 ^ 63
      → size < 2 ^ 63
      → page * size < 2 ^ 63
      → get_paginated round_tenths (pos (suc page)) (pos size) db ≡ (
        ok (
          map
              (read_row round_tenths [])
              (take_rows size (drop_rows (page * size) (newest_rows db.beers))),
          length db.beers,
        ),
        db,
      )
  unfolding get_paginated run page_rows
  get_paginated-ok page size db quiet h k l = rw (page_offset-pos page size h k l, quiet) refl

  -- The beers of a page, and of the first pages.
  unfoldable pub page_beers : ℕ → ℕ → Db → List Beer
  unfolding get_paginated
  page_beers page size db = elim (get_paginated round_tenths (pos page) (pos size) db).0 [
    | ok (beers, total) ↦ beers
    | err e ↦ []
  ]

  page_beers-ok :
      (page size : ℕ) (db : Db)
      → db.faults ≡ []
      → page < 2 ^ 63
      → size < 2 ^ 63
      → page * size < 2 ^ 63
      → page_beers (suc page) size db
        ≡ map
            (read_row round_tenths [])
            (take_rows size (drop_rows (page * size) (newest_rows db.beers)))
  unfolding page_beers
  page_beers-ok page size db quiet h k l =
      let read = get_paginated-ok page size db quiet h k l in ground (arith, read)

  unfoldable pub scroll : ℕ → ℕ → Db → List Beer
  unfolding page_beers
  scroll zero size db = []
  scroll (suc n) size db = scroll n size db ++ page_beers (suc n) size db

  scroll-take_rows :
      (pages size : ℕ) (db : Db)
      → db.faults ≡ []
      → 1 ≤ size
      → size < 2 ^ 63
      → pages * size < 2 ^ 63
      → scroll pages size db
        ≡ map (read_row round_tenths []) (take_rows (pages * size) (newest_rows db.beers))
  unfolding scroll take_rows
  scroll-take_rows zero size db quiet one small h =
      let none_left : 0 * size ≡ 0 = omega arith in rw none_left refl
  scroll-take_rows (suc n) size db quiet one small h =
      let less : n * size < 2 ^ 63 = grind (arith, h) in
      let few : n < 2 ^ 63 = grind (arith, less, one) in
      let sum : n * size + size ≡ suc n * size = grind arith in
      rw
        (
          scroll-take_rows n size db quiet one small less,
          page_beers-ok n size db quiet few small less,
          ← sum,
          ← take_rows-add (n * size) size (newest_rows db.beers),
          map-append,
        )
        refl

  -- A client that follows the pages of a catalogue that stays as it is sees every beer, each of them
  -- once: the pages one after another are the rows of the table, in some order.
  pub scroll-Perm :
      (pages size : ℕ) (db : Db)
      → db.faults ≡ []
      → 1 ≤ size
      → size < 2 ^ 63
      → pages * size < 2 ^ 63
      → length db.beers ≤ pages * size
      → (rows : List Row) × Perm rows db.beers
        × (scroll pages size db ≡ map (read_row round_tenths []) rows)
  scroll-Perm pages size db quiet one small h enough =
      let rows = newest_rows db.beers in
      let all : length rows ≤ pages * size = ground (arith, newest_rows-length db.beers, enough) in
      (
        rows,
        newest_rows-Perm db.beers,
        scroll-take_rows pages size db quiet one small h
            ∙ ap (map (read_row round_tenths [])) (take_rows-all (pages * size) rows all),
      )
