-- ===== src/User/Postgres/Seed.antt =====
-- `SeedAdmin` of internal/user/usecase/user_usecase.go on the repository of
-- internal/user/repository/user_repository.go.
use beer_avaliation_api.Base.{
  ℕ, ◌≡◌, ◌≢◌, inl, inr, String, Bool, true, false, none, some, List, [], ◌∷◌, str_eq, ◌==◌, length,
  select, arith, eq_iff, Bool-cases,
}
use beer_avaliation_api.Results.{ok}
use beer_avaliation_api.User.Model.{User, role_admin}
use beer_avaliation_api.User.Services.{Services, Moment, available}
use beer_avaliation_api.User.Usecase.Accounts.{seed_admin, seed_admin_found}
use beer_avaliation_api.User.Postgres.{
  Row, Db, send, find, change, has_id, has_email, clashes, as_user,
}
use beer_avaliation_api.User.Postgres.Accounts.{
  get_by_email, read_user, with_password, update, rename, rename_user, some_rows,
}
use beer_avaliation_api.User.Postgres.Transactions.{begin_tx, commit_tx, exec_in_tx}
use beer_avaliation_api.User.Postgres.Sessions.{postgres_users}

select-found :
    (p : Row → Bool) (rows : List Row) (row : Row)
    → find p rows ≡ some row
    → length (select p rows) == 0 ≡ false
unfolding find select
select-found p [] row h = absurd (ground (arith, h))
select-found p (x ∷ xs) row h = elim (Bool-cases (p x)) [
  | inl e ↦ ground (arith, e)
  | inr e ↦ ground (arith, e, select-found p xs row, h)
]

find-rename :
    (db : Db) (user : User) (email : String) (rows : List Row) (row : Row)
    → user.email ≡ email
    → find (has_email email) rows ≡ some row
    → find (has_id row.id) rows ≡ some row
    → find (has_email email) (change (has_id row.id) (rename db user) rows)
      ≡ some (rename db user row)
unfolding find change rename
find-rename db user email [] row e h k = absurd (ground (arith, h))
find-rename db user email (x ∷ xs) row e h k = elim (Bool-cases (str_eq x.id row.id)) [
  | inl same ↦
      let it : x ≡ row = ground (arith, same, k) in
      ground (arith, same, it, e, eq_iff user.email email)
  | inr differs ↦ elim (Bool-cases (str_eq x.email email)) [
    | inl hit ↦
        let it : x ≡ row = ground (arith, hit, h) in
        absurd (ground (arith, it, differs, eq_iff row.id row.id))
    | inr missed ↦ ground (
      arith,
      differs,
      missed,
      find-rename db user email xs row e (ground (arith, missed, h)) (ground (arith, differs, k)),
    )
  ]
]

update-renamed :
    (id : String) (user : User) (row : Row) (db : Db)
    → db.faults ≡ []
    → find (has_id id) db.users ≡ some row
    → find (clashes id user.username user.email) db.users ≡ none
    → update id user db
      ≡ (ok tt, record db { users = change (has_id id) (rename db user) db.users })
unfolding update send rename_user some_rows
update-renamed id user row db quiet held free =
    let some_left = select-found (has_id id) db.users row held in
    ground (arith, quiet, free, some_left)

get_by_email-found :
    (email p : String) (row : Row) (db : Db)
    → db.faults ≡ []
    → find (has_email email) db.users ≡ some row
    → row.password ≡ some p
    → get_by_email email db ≡ (ok (record (as_user row) { password = p }), db)
unfolding get_by_email send read_user with_password
get_by_email-found email p row db quiet found secret = ground (arith, quiet, found, secret)

found-email :
    (email : String) (rows : List Row) (row : Row)
    → find (has_email email) rows ≡ some row
    → row.email ≡ email
unfolding find
found-email email [] row h = absurd (ground (arith, h))
found-email email (x ∷ xs) row h = ground (arith, found-email email xs row, h, eq_iff x.email email)

-- On a database without faults, the seed with an address and a password reports success on an account
-- that has the address and a password and is no administrator, and leaves it without the role: of its
-- row only the time of the last change is new. The keys of the table are taken to hold: the identifier
-- finds the same row, and no other row has its name or address.
pub seed_admin_unpromoted :
    (sv : Services) (uuid_at : ℕ → String) (m : Moment) (email password p : String) (row : Row)
    (db : Db)
    → email ≢ ""
    → password ≢ ""
    → db.faults ≡ []
    → find (has_email email) db.users ≡ some row
    → find (has_id row.id) db.users ≡ some row
    → row.password ≡ some p
    → row.role ≢ role_admin
    → find (clashes row.id row.username row.email) db.users ≡ none
    → (db' : Db) × (seed_admin sv (some (postgres_users true uuid_at)) m email password db
        ≡ (ok tt, db'))
      × (find (has_email email) db'.users ≡ some (record row { updated_at = db.clock }))
unfolding seed_admin seed_admin_found available postgres_users exec_in_tx begin_tx commit_tx
seed_admin_unpromoted sv uuid_at m email password p row db named given quiet found held secret plain
      free =
    let address : row.email ≡ email = found-email email db.users row found in
    let promoted : User = record (as_user row) { password = p; role = role_admin } in
    let read = get_by_email-found email p row db quiet found secret in
    let done = update-renamed row.id promoted row db quiet held free in
    let renamed = find-rename db promoted email db.users row address found held in
    (
      record db { users = change (has_id row.id) (rename db promoted) db.users },
      ground (
        arith,
        quiet,
        read,
        done,
        eq_iff email "",
        eq_iff password "",
        eq_iff row.role role_admin,
      ),
      renamed,
    )
