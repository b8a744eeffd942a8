-- ===== src/Beer/Postgres/Statements.antt =====
-- The statements of internal/beer/repository/beer_repository.go that change the tables.
use beer_avaliation_api.Base.{ℕ, String, not, Option, none, some, [], ◌∷◌, ◌++◌, str_eq, select}
use beer_avaliation_api.Errors.{plain, wrap}
use beer_avaliation_api.Results.{Result, ok, err, Exec}
use beer_avaliation_api.Beer.Model.{Beer, Comment}
use beer_avaliation_api.Beer.Repository.{Event}
use beer_avaliation_api.Beer.Usecase.Comments.{cut_comment}
use beer_avaliation_api.Beer.Postgres.{
  Row, Db, run, find_row, has_id, beer_not_found, duplicate_key, foreign_key, set_row, update_rows,
  new_row, get_by_id,
}

unfoldable pub put_row : Beer → Db → Result (Unit {0}) × Db
unfolding find_row new_row
put_row beer db = elim (find_row beer.id db.beers) [
  | some row ↦ (err duplicate_key, db)
  | none ↦ (ok tt, record db { beers = db.beers ++ (new_row db.clock beer ∷ []) })
]

-- `Create`
unfoldable pub create : Beer → Exec Db Unit
unfolding run put_row
create beer = run (put_row beer)

-- No row affected is a 404.
abbrev affected : Option Row → Db → Result (Unit {0}) × Db
affected none db = (err beer_not_found, db)
affected (some row) db = (ok tt, db)

unfoldable pub write_rows : String → Beer → Db → Result (Unit {0}) × Db
unfolding find_row update_rows set_row
write_rows id beer db =
    affected (find_row id db.beers)
      (record db { beers = update_rows (set_row db.clock beer) id db.beers })

-- `Update`: the rows that it changes are those of the identifier.
unfoldable pub update : String → Beer → Exec Db Unit
unfolding run write_rows
update id beer = run (write_rows id beer)

unfoldable pub delete_rows : String → Db → Result (Unit {0}) × Db
unfolding find_row select
delete_rows id db = affected (find_row id db.beers) (record db {
  beers = select (λ row. not (has_id id row)) db.beers;
  events = select (λ ev. not (str_eq ev.beer_id id)) db.events;
  reports = select (λ r. not (str_eq r.beer_id id)) db.reports;
  requests = select (λ r. not (str_eq r.beer_id id)) db.requests;
})

-- `Delete`; the events of the beer go with it (`ON DELETE CASCADE`).
unfoldable pub remove : String → Exec Db Unit
unfolding run delete_rows
remove id = run (delete_rows id)

unfoldable pub put_event : Event → Db → Result (Unit {0}) × Db
unfolding find_row
put_event event db = elim (find_row event.beer_id db.beers) [
  | none ↦ (err foreign_key, db)
  | some row ↦ (ok tt, record db { events = db.events ++ (event ∷ []) })
]

-- `INSERT INTO beer_events`, whose beer must be there.
unfoldable pub insert_event : Event → Exec Db Unit
unfolding run put_event
insert_event event = run (put_event event)

-- `AddComment` of the repository.
unfoldable pub add_comment : (ℕ → ℕ → ℕ) → String → Comment → Exec Db Unit
unfolding get_by_id update
add_comment round_tenths id comment db =
    let (r, db') = get_by_id round_tenths id db in
    elim r [
      | err e ↦ (err (wrap "failed to get beer" e), db')
      | ok beer ↦ update id (record beer { comments = beer.comments ++ (comment ∷ []) }) db'
    ]

-- `DeleteComment` of the repository.
unfoldable pub delete_comment : (ℕ → ℕ → ℕ) → String → String → Exec Db Unit
unfolding get_by_id update cut_comment
delete_comment round_tenths id comment_id db =
    let (r, db') = get_by_id round_tenths id db in
    elim r [
      | err e ↦ (err (wrap "failed to get beer" e), db')
      | ok beer ↦ elim (cut_comment comment_id beer.comments) [
        | none ↦ (err (plain "comment not found"), db')
        | some comments ↦ update id (record beer { comments = comments }) db'
      ]
    ]
