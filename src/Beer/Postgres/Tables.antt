-- ===== src/Beer/Postgres/Tables.antt =====
-- What the statements of internal/beer/repository/beer_repository.go leave in the table of beers,
-- and that the repository keeps the promises that the usecases rely on.
use beer_avaliation_api.Base.{
  ℕ, ◌≡◌, inl, inr, refl, ap, String, not, Option, none, some, List, [], ◌∷◌, if◌then◌else◌, str_eq,
  arith, Option-cases, select, eq_iff,
}
use beer_avaliation_api.Results.{ok}
use beer_avaliation_api.Beer.Model.{Beer, Comment, set_rating_aggregates}
use beer_avaliation_api.Beer.Postgres.{
  Row, Db, has_id, run_cases, find_row, unmarshal, set_row, update_rows, read_row, scan_row,
  read_by_id, get_by_id,
}
use beer_avaliation_api.Beer.Postgres.Statements.{write_rows, update, delete_rows, remove}
use beer_avaliation_api.Beer.Postgres.Transactions.{tables}

-- The comments of a row, as the readers give them.
abbrev pub comments_of : Option Row → Option (List Comment)
unfolding unmarshal
comments_of none = none
comments_of (some row) = some (unmarshal row.comments)

-- The comments of each beer of the table.
abbrev pub rows_view : List Row → String → Option (List Comment)
rows_view rows id = comments_of (find_row id rows)

abbrev pub comments_view : Db → String → Option (List Comment)
comments_view db = rows_view db.beers

pub find_row-update_rows :
    (f : Row → Row) (id other : String) (rows : List Row)
    → ((row : Row) → (f row).id ≡ row.id)
    → find_row other (update_rows f id rows) ≡ (
        if str_eq other id
        then elim (find_row id rows) [ none ↦ none | some row ↦ some (f row) ]
        else find_row other rows)
unfolding find_row update_rows
find_row-update_rows f id other [] h = ground arith
find_row-update_rows f id other (row ∷ rows) h = ground (
  arith,
  find_row-update_rows f id other rows h,
  h row,
  eq_iff row.id id,
  eq_iff row.id other,
  eq_iff other id,
)

find_row-select :
    (id : String) (rows : List Row) → find_row id (select (λ row. not (has_id id row)) rows) ≡ none
unfolding find_row select
find_row-select id [] = refl
find_row-select id (row ∷ rows) = ground (arith, find_row-select id rows)

scan_row-ok :
    (round_tenths : ℕ → ℕ → ℕ) (row : Row) (beer : Beer)
    → scan_row round_tenths row ≡ ok beer
    → beer ≡ read_row round_tenths (unmarshal row.media) row
unfolding scan_row
scan_row-ok round_tenths row beer h = elim (Option-cases row.description) [
  | inl missed ↦ absurd (ground (arith, missed, h))
  | inr (d, e) ↦ elim (Option-cases row.image_url) [
    | inl missed ↦ absurd (ground (arith, missed, e, h))
    | inr (u, f) ↦ ground (arith, e, f, h)
  ]
]

pub get_by_id-tables :
    (round_tenths : ℕ → ℕ → ℕ) (id : String) (db : Db)
    → tables (get_by_id round_tenths id db).1 ≡ tables db
unfolding get_by_id read_by_id
get_by_id-tables round_tenths id db = elim (run_cases (read_by_id round_tenths id) db) [
  | inl (e, faults, met) ↦ ground (arith, met)
  | inr (faults, ran) ↦ ground (arith, ran)
]

-- What `GetByID` gives is a row of the table, which stays as it is.
pub get_by_id-ok :
    (round_tenths : ℕ → ℕ → ℕ) (id : String) (db db' : Db) (beer : Beer)
    → get_by_id round_tenths id db ≡ (ok beer, db')
    → (tables db' ≡ tables db)
      × ((row : Row) × (find_row id db.beers ≡ some row)
          × (beer ≡ read_row round_tenths (unmarshal row.media) row))
unfolding get_by_id read_by_id
get_by_id-ok round_tenths id db db' beer h = elim (run_cases (read_by_id round_tenths id) db) [
  | inl (e, faults, met) ↦ absurd (ground (arith, met, h))
  | inr (faults, ran) ↦ elim (Option-cases (find_row id db.beers)) [
    | inl missed ↦ absurd (ground (arith, missed, ran, h))
    | inr (row, found) ↦ (
      ground (arith, found, ran, h),
      (row, found, scan_row-ok round_tenths row beer (ground (arith, found, ran, h))),
    )
  ]
]

set_row-id : (clock : ℕ) (beer : Beer) (row : Row) → (set_row clock beer row).id ≡ row.id
unfolding set_row
set_row-id clock beer row = refl

-- A beer that `Update` writes was in the table, and afterwards its row is the one that the statement
-- sets; the rows of the other beers are as they were.
pub update-ok :
    (id : String) (beer : Beer) (db db' : Db)
    → update id beer db ≡ (ok tt, db')
    → (row : Row) × (find_row id db.beers ≡ some row)
      × (db'.events ≡ db.events)
      × ((other : String)
          → find_row other db'.beers ≡ (
              if str_eq other id
              then some (set_row db.clock beer row)
              else find_row other db.beers))
unfolding update write_rows
update-ok id beer db db' h = elim (run_cases (write_rows id beer) db) [
  | inl (e, faults, met) ↦ absurd (ground (arith, met, h))
  | inr (faults, ran) ↦ elim (Option-cases (find_row id db.beers)) [
    | inl missed ↦ absurd (ground (arith, missed, ran, h))
    | inr (row, found) ↦
        let left : db'.beers ≡ update_rows (set_row db.clock beer) id db.beers =
          ground (arith, found, ran, h) in
        (
          row,
          found,
          ground (arith, found, ran, h),
          λ other.
              let there =
                find_row-update_rows (set_row db.clock beer) id other db.beers
                  (set_row-id db.clock beer) in
              ground (arith, left, there, found),
        )
  ]
]

-- A beer that `Delete` deletes is not in the table afterwards.
pub remove-ok :
    (id : String) (db db' : Db) → remove id db ≡ (ok tt, db') → find_row id db'.beers ≡ none
unfolding remove delete_rows
remove-ok id db db' h = elim (run_cases (delete_rows id) db) [
  | inl (e, faults, met) ↦ absurd (ground (arith, met, h))
  | inr (faults, ran) ↦ elim (Option-cases (find_row id db.beers)) [
    | inl missed ↦ absurd (ground (arith, missed, ran, h))
    | inr (row, found) ↦
        let left : db'.beers ≡ select (λ row. not (has_id id row)) db.beers =
          ground (arith, found, ran, h) in
        rw left (find_row-select id db.beers)
  ]
]

-- The comments of a beer that `GetByID` gives are those of its row.
pub get_by_id-view :
    (round_tenths : ℕ → ℕ → ℕ) (id : String) (db db' : Db) (beer : Beer)
    → get_by_id round_tenths id db ≡ (ok beer, db')
    → comments_view db id ≡ some beer.comments
unfolding read_row set_rating_aggregates
get_by_id-view round_tenths id db db' beer h =
    let (same, (row, found, read)) = get_by_id-ok round_tenths id db db' beer h in
    ground (arith, found, ap (λ (b : Beer). b.comments) read)

-- After an `Update` the comments of the beer are those that were written, and those of no other beer
-- have changed.
pub update-view :
    (id : String) (beer : Beer) (db db' : Db) (other : String)
    → update id beer db ≡ (ok tt, db')
    → comments_view db' other
      ≡ (if str_eq other id then some beer.comments else comments_view db other)
unfolding set_row unmarshal
update-view id beer db db' other h =
    let (row, found, events, rows) = update-ok id beer db db' h in ground (arith, rows other)
