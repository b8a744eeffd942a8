-- ===== src/User/Postgres.antt =====
-- internal/user/repository/user_repository.go: the statements of the PostgreSQL repository, as what
-- they do to the tables `beerUsers`, `refresh_tokens` and `push_subscriptions` of
-- internal/app/migrations.
pub mod Accounts
pub mod Transactions
pub mod Sessions
pub mod Laws
pub mod Tokens
pub mod Seed
use beer_avaliation_api.Base.{
  ◌≡◌, ◌⊎◌, inl, inr, refl, ℕ, ◌+◌, String, Bool, true, false, not, ◌&&◌, ◌||◌, Option, none, some,
  List, [], ◌∷◌, ◌++◌, if◌then◌else◌, str_eq, length, select,
}
use beer_avaliation_api.Errors.{Error, plain, wrap, sentinel, user_not_found}
use beer_avaliation_api.Results.{Result, ok, err, Exec, map_error}
use beer_avaliation_api.User.Model.{Timestamp, missing, User, RefreshToken, PushSubscription}

-- A row of `beerUsers`; a social account has no password, and a local one no subject.
pub record Row : Type 0 where
  pub id : String
  pub username : String
  pub email : String
  pub password : Option String
  pub role : String
  pub provider : String
  pub external_sub : Option String
  pub created : Timestamp
  pub updated_at : Timestamp

-- The tables, the time of the server, how many identifiers it has drawn, and the faults that the
-- next statements meet: a statement takes one, and `none` lets it through.
pub record Db : Type 0 where
  pub users : List Row
  pub tokens : List RefreshToken
  pub subscriptions : List PushSubscription
  pub clock : Timestamp
  pub drawn : ℕ
  pub faults : List (Option Error)

abbrev pub faulty : {A : Type 0} → List (Option Error) → (Db → Result A × Db) → Db → Result A × Db
faulty [] f db = f db
faulty (none ∷ faults) f db = f (record db { faults = faults })
faulty (some e ∷ faults) f db = (err e, record db { faults = faults })

-- A statement whose error is wrapped in a text.
unfoldable pub send : {A : Type 0} → String → (Db → Result A × Db) → Exec Db A
send text f db = map_error (wrap text) (faulty db.faults f db)

-- A statement meets a fault and does nothing, or runs on the tables as they are.
pub send_cases :
    {A : Type 0} (text : String) (f : Db → Result A × Db) (db : Db)
    → ((e : Error) × (faults : List (Option Error)) × (send text f db
          ≡ (err (wrap text e), record db { faults = faults })))
      ⊎ ((faults : List (Option Error)) × (send text f db
            ≡ map_error (wrap text) (f (record db { faults = faults }))))
unfolding send
send_cases text f db = go db.faults
  where
    go :
        (faults : List (Option Error))
        → ((e : Error) × (rest : List (Option Error)) × (map_error (wrap text) (faulty faults f db)
              ≡ (err (wrap text e), record db { faults = rest })))
          ⊎ ((rest : List (Option Error)) × (map_error (wrap text) (faulty faults f db)
                ≡ map_error (wrap text) (f (record db { faults = rest }))))
    go [] = inr (db.faults, refl)
    go (none ∷ faults) = inr (faults, refl)
    go (some e ∷ faults) = inl (e, faults, refl)

-- `fmt.Errorf("…: %w", ErrUserNotFound)`
abbrev pub not_found : String → Error
not_found text = wrap text (sentinel user_not_found)

abbrev pub duplicate_key : Error
duplicate_key = plain "duplicate key value violates unique constraint"

-- The first row that a condition holds of.
unfoldable pub find {ℓ} : {A : Type ℓ} → (A → Bool) → List A → Option A
find p [] = none
find p (x ∷ xs) = let rest = find p xs in if p x then some x else rest

unfoldable pub change {ℓ} : {A : Type ℓ} → (A → Bool) → (A → A) → List A → List A
change p f [] = []
change p f (x ∷ xs) = let rest = change p f xs in if p x then f x ∷ rest else x ∷ rest

abbrev pub has_id : String → Row → Bool
has_id id row = str_eq row.id id

abbrev pub has_email : String → Row → Bool
has_email email row = str_eq row.email email

-- The unique columns: another row has the name or the address.
abbrev pub clashes : String → String → String → Row → Bool
clashes id username email row =
    not (str_eq row.id id) && (str_eq row.username username || str_eq row.email email)

-- A user as `GetByID` selects it: without the password and the provider.
unfoldable pub as_user : Row → User
as_user row = record {
  id = row.id;
  username = row.username;
  email = row.email;
  password = "";
  role = row.role;
  provider = "";
  external_sub = "";
  created = row.created;
  updated_at = row.updated_at;
}
