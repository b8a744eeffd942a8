-- ===== src/User/Tests/Rotation.antt =====
-- The rotation of refresh tokens and the seed of the administrator on concrete tables
-- (internal/user/usecase/user_usecase.go, internal/user/repository/user_repository.go).
use beer_avaliation_api.Base.{
  ℕ, ◌≡◌, ◌≢◌, refl, String, true, false, none, some, [], ◌∷◌, arith, str_eq, eq_iff,
}
use beer_avaliation_api.Results.{ok, err}
use beer_avaliation_api.User.Model.{
  User, RefreshToken, missing, format_time, is_expired, role_admin,
}
use beer_avaliation_api.User.Repository.{UserRepository}
use beer_avaliation_api.User.Services.{TokenPair, available}
use beer_avaliation_api.User.Usecase.Accounts.{seed_admin}
use beer_avaliation_api.User.Usecase.Issue.{IsIssued}
use beer_avaliation_api.User.Usecase.Sessions.{
  invalid_refresh_token, refresh_record, issue_token_pair, refresh_tokens, refresh_stored, rotate,
}
use beer_avaliation_api.User.Usecase.Rotation.{
  TokenTable, Refused, revoked_token, rotation, rotation_once, reuse_locks_out,
}
use beer_avaliation_api.User.Postgres.{Row, Db, find, change, send, has_email}
use beer_avaliation_api.User.Postgres.Accounts.{get_by_id, read_user}
use beer_avaliation_api.User.Postgres.Sessions.{
  postgres_users, get_refresh_token_by_hash, read_token, revoke_refresh_token, revoke_where,
  revoke_all_refresh_tokens, create_refresh_token, put_token,
}
use beer_avaliation_api.User.Postgres.Tokens.{token_row, postgres_tokens}
use beer_avaliation_api.User.Postgres.Seed.{seed_admin_unpromoted}
use beer_avaliation_api.User.Tests.{plain_services, moment, token}

abbrev ana_row : Row
ana_row = record {
  id = "u-1";
  username = "Ana";
  email = "ana@example.org";
  password = some "secret-1";
  role = "user";
  provider = "local";
  external_sub = none;
  created = missing;
  updated_at = missing;
}

abbrev before : Db
before = record {
  users = ana_row ∷ [];
  tokens = token ∷ [];
  subscriptions = [];
  clock = missing;
  drawn = 0;
  faults = [];
}

abbrev ids : ℕ → String
ids n = "u-next"

abbrev repo : UserRepository Db
repo = postgres_users true ids

abbrev pair : TokenPair
pair = record { access_token = "jwt"; refresh_token = "fresh" }

abbrev fresh_token : RefreshToken
fresh_token = refresh_record plain_services (some repo) moment "u-1" "fresh"

abbrev after : Db
after = record before { tokens = revoked_token token ∷ fresh_token ∷ [] }

rotated : refresh_tokens plain_services (some repo) moment "raw" before ≡ (ok pair, after)
unfolding refresh_tokens refresh_stored rotate issue_token_pair available find change send
    is_expired format_time get_by_id read_user get_refresh_token_by_hash read_token
    revoke_refresh_token revoke_where create_refresh_token put_token postgres_users
rotated = refl

fresh-ne-raw : plain_services.hash_token "fresh" ≢ plain_services.hash_token "raw"
fresh-ne-raw e =
    let differs : str_eq "fresh" "raw" ≡ false = refl in
    ground (arith, differs, eq_iff "fresh" "raw")

postgres_tokens_example : TokenTable (postgres_users true ids) token_row
postgres_tokens_example = postgres_tokens true ids

rotation_example :
    (t : RefreshToken) × (new : RefreshToken) × (user : User) × (s₁ : Db) × (s₂ : Db) × (token_row
        before "raw"
      ≡ some t)
    × (t.revoked ≡ false)
    × (is_expired t moment.now ≡ false)
    × (repo.get_by_id t.user_id s₁ ≡ (ok user, s₂))
    × (plain_services.generate_token t.user_id user.role ≡ ok "jwt")
    × (token_row after "raw" ≡ some (revoked_token t))
    × IsIssued plain_services moment t.user_id "fresh" new
    × (token_row after "fresh" ≡ some new)
rotation_example =
    rotation plain_services repo token_row (postgres_tokens true ids) moment "raw" before after pair
      rotated fresh-ne-raw

rotation_once_example : Refused plain_services repo moment "raw" after
rotation_once_example =
    rotation_once plain_services repo token_row (postgres_tokens true ids) moment moment "raw"
      before after pair rotated fresh-ne-raw

abbrev locked_token : RefreshToken
locked_token = revoked_token fresh_token

abbrev locked : Db
locked = record before { tokens = revoked_token token ∷ locked_token ∷ [] }

raw_read : repo.get_refresh_token_by_hash "" "raw" after ≡ (ok (revoked_token token), after)
unfolding get_refresh_token_by_hash read_token send find postgres_users
raw_read = refl

all_revoked : repo.revoke_all_refresh_tokens "u-1" after ≡ (ok tt, locked)
unfolding revoke_all_refresh_tokens revoke_where send change postgres_users
all_revoked = refl

fresh_locked : token_row locked "fresh" ≡ some locked_token
unfolding find
fresh_locked = refl

abbrev text_raw : String
text_raw = "raw"

raw-ne-nil : text_raw ≢ ""
raw-ne-nil e =
    let differs : str_eq "raw" "" ≡ false = refl in ground (arith, differs, eq_iff "raw" "")

reuse_locks_out_example :
    (refresh_tokens plain_services (some repo) moment "raw" after
      ≡ (err invalid_refresh_token, locked))
    × Refused plain_services repo moment "fresh" locked
reuse_locks_out_example =
    reuse_locks_out plain_services repo token_row (postgres_tokens true ids) moment moment "raw"
      "fresh" after after locked (revoked_token token) locked_token raw-ne-nil refl raw_read
      all_revoked fresh_locked refl

abbrev admin_email : String
admin_email = "ana@example.org"

abbrev admin_password : String
admin_password = "pw"

email-ne-nil : admin_email ≢ ""
email-ne-nil e =
    let differs : str_eq admin_email "" ≡ false = refl in
    ground (arith, differs, eq_iff admin_email "")

password-ne-nil : admin_password ≢ ""
password-ne-nil e =
    let differs : str_eq admin_password "" ≡ false = refl in
    ground (arith, differs, eq_iff admin_password "")

ana-ne-admin : ana_row.role ≢ role_admin
ana-ne-admin e =
    let differs : str_eq "user" "admin" ≡ false = refl in
    ground (arith, differs, eq_iff "user" "admin")

seed_admin_unpromoted_example :
    (db' : Db) × (seed_admin plain_services
        (some (postgres_users true ids))
        moment
        admin_email
        admin_password
        before
      ≡ (ok tt, db'))
    × (find (has_email admin_email) db'.users ≡ some (record ana_row { updated_at = missing }))
unfolding find
seed_admin_unpromoted_example =
    seed_admin_unpromoted plain_services ids moment admin_email admin_password "secret-1" ana_row
      before email-ne-nil password-ne-nil refl refl refl refl ana-ne-admin refl
