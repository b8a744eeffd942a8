-- ===== src/User/Postgres/Accounts.antt =====
-- The statements on users and their push subscriptions
-- (internal/user/repository/user_repository.go).
use beer_avaliation_api.Base.{
  ℕ, String, Bool, false, not, ◌&&◌, ◌||◌, Option, none, some, [], ◌∷◌, ◌++◌, if◌then◌else◌, str_eq,
  ◌==◌, length, select,
}
use beer_avaliation_api.Errors.{plain, wrap}
use beer_avaliation_api.Results.{Result, ok, err, Exec}
use beer_avaliation_api.User.Model.{User}
use beer_avaliation_api.User.Postgres.{
  Row, Db, send, not_found, duplicate_key, find, change, has_id, has_email, clashes, as_user,
}

-- The row that `Create` inserts: `provider` has a default, and there is no subject.
unfoldable pub local_row : Db → User → Row
local_row db user = record {
  id = user.id;
  username = user.username;
  email = user.email;
  password = some user.password;
  role = user.role;
  provider = "local";
  external_sub = none;
  created = user.created;
  updated_at = db.clock;
}

abbrev taken : User → Row → Bool
taken user row = has_id user.id row || str_eq row.username user.username || has_email user.email row

unfoldable pub put_user : User → Db → Result (Unit {0}) × Db
unfolding find local_row
put_user user db = elim (find (taken user) db.users) [
  | some row ↦ (err duplicate_key, db)
  | none ↦ (ok tt, record db { users = db.users ++ (local_row db user ∷ []) })
]

-- `Create`
unfoldable pub create : User → Exec Db Unit
unfolding send put_user
create user = send "failed to create user" (put_user user)

-- A row that is asked for: `sql.ErrNoRows` is told apart from other errors.
unfoldable pub found_or : String → Option User → Result User
found_or text none = err (not_found text)
found_or text (some user) = ok user

unfoldable pub read_user : (Row → Bool) → Db → Result (Option Row) × Db
unfolding find
read_user p db = (ok (find p db.users), db)

-- `GetByID`
unfoldable pub get_by_id : String → Exec Db User
unfolding send read_user as_user
get_by_id id db =
    let (r, db') = send "failed to get user" (read_user (has_id id)) db in
    elim r [
      | err e ↦ (err e, db')
      | ok none ↦ (err (not_found "get user"), db')
      | ok (some row) ↦ (ok (as_user row), db')
    ]

-- The scan of `GetByEmail`, whose password cannot hold NULL.
unfoldable pub with_password : Row → Result User
unfolding as_user
with_password row = elim row.password [
  | none ↦ err (wrap "failed to get user" (plain "converting NULL to string is unsupported"))
  | some password ↦ ok (record (as_user row) { password = password })
]

-- `GetByEmail`
unfoldable pub get_by_email : String → Exec Db User
unfolding send read_user with_password
get_by_email email db =
    let (r, db') = send "failed to get user" (read_user (has_email email)) db in
    elim r [
      | err e ↦ (err e, db')
      | ok none ↦ (err (not_found "get user by email"), db')
      | ok (some row) ↦ (with_password row, db')
    ]

abbrev has_subject : String → Option String → Bool
has_subject sub none = false
has_subject sub (some other) = str_eq other sub

abbrev pub is_external : String → String → Row → Bool
is_external provider sub row = str_eq row.provider provider && has_subject sub row.external_sub

unfoldable pub as_external : Row → User
unfolding as_user
as_external row = record (as_user row) {
  provider = row.provider;
  external_sub = elim row.external_sub [ none ↦ "" | some sub ↦ sub ];
}

-- `GetByExternal`
unfoldable pub get_by_external : String → String → Exec Db User
unfolding send read_user as_external
get_by_external provider sub db =
    let (r, db') =
      send "failed to get user by external" (read_user (is_external provider sub)) db in
    elim r [
      | err e ↦ (err e, db')
      | ok none ↦ (err (not_found "get user by external"), db')
      | ok (some row) ↦ (ok (as_external row), db')
    ]

unfoldable pub external_row : Db → User → Row
external_row db user = record {
  id = user.id;
  username = user.username;
  email = user.email;
  password = none;
  role = user.role;
  provider = user.provider;
  external_sub = some user.external_sub;
  created = user.created;
  updated_at = db.clock;
}

-- `ON CONFLICT (provider, external_sub) DO UPDATE`, with the trigger on `updated_at`; another row
-- with the name or the address stands in the way.
unfoldable pub upsert_user : User → Db → Result User × Db
unfolding find change external_row as_external
upsert_user user db = elim (find (is_external user.provider user.external_sub) db.users) [
  | some row ↦
      let renamed : Row = record row {
        username = user.username;
        email = user.email;
        updated_at = db.clock;
      } in
      elim (find (clashes row.id user.username user.email) db.users) [
        | some other ↦ (err duplicate_key, db)
        | none ↦ (
          ok (as_external renamed),
          record db { users = change (has_id row.id) (λ old. renamed) db.users },
        )
      ]
  | none ↦ elim (find (taken user) db.users) [
    | some other ↦ (err duplicate_key, db)
    | none ↦ (
      ok (as_external (external_row db user)),
      record db { users = db.users ++ (external_row db user ∷ []) },
    )
  ]
]

-- `UpsertByExternal`
unfoldable pub upsert_by_external : User → Exec Db User
unfolding send upsert_user
upsert_by_external user = send "failed to upsert external user" (upsert_user user)

unfoldable pub rename : Db → User → Row → Row
rename db user row = record row {
  username = user.username;
  email = user.email;
  updated_at = db.clock;
}

-- The number of the rows that a statement affects.
unfoldable pub rename_user : String → User → Db → Result ℕ × Db
unfolding find change select rename
rename_user id user db = elim (find (clashes id user.username user.email) db.users) [
  | some other ↦ (if length (select (has_id id) db.users) == 0 then ok 0 else err duplicate_key, db)
  | none ↦ (
    ok (length (select (has_id id) db.users)),
    record db { users = change (has_id id) (rename db user) db.users },
  )
]

-- `if rows == 0 { return fmt.Errorf(…) }`
unfoldable pub some_rows : String → Result ℕ × Db → Result (Unit {0}) × Db
some_rows text (err e, db) = (err e, db)
some_rows text (ok n, db) = (if n == 0 then err (plain text) else ok tt, db)

-- `Update`
unfoldable pub update : String → User → Exec Db Unit
unfolding send rename_user some_rows
update id user db =
    some_rows "user not found" (send "failed to update user" (rename_user id user) db)

-- The row goes with its tokens and its subscriptions (`ON DELETE CASCADE`).
unfoldable pub erase_user : String → Db → Result ℕ × Db
unfolding select
erase_user id db = (
  ok (length (select (has_id id) db.users)),
  record db {
    users = select (λ row. not (has_id id row)) db.users;
    tokens = select (λ t. not (str_eq t.user_id id)) db.tokens;
    subscriptions = select (λ s. not (str_eq s.user_id id)) db.subscriptions;
  },
)

-- `Delete`
unfoldable pub remove : String → Exec Db Unit
unfolding send erase_user some_rows
remove id db = some_rows "user not found" (send "failed to delete user" (erase_user id) db)
