-- ===== src/User/Tests/Controller.antt =====
-- The handlers for accounts and the PostgreSQL repository at concrete requests and rows
-- (internal/user/delivery/http, internal/user/repository/user_repository.go).
use beer_avaliation_api.Base.{
  ℕ, ◌≡◌, ◌≢◌, refl, String, true, false, none, some, [], ◌∷◌, arith, str_eq, eq_iff, All,
}
use beer_avaliation_api.Errors.{Error}
use beer_avaliation_api.Results.{ok, err}
use beer_avaliation_api.Middleware.Context.{Context}
use beer_avaliation_api.User.Model.{RefreshToken, missing}
use beer_avaliation_api.User.Usecase.Access.{not_allowed}
use beer_avaliation_api.User.Usecase.Accounts.{get_profile, register}
use beer_avaliation_api.User.Services.{available, require_user_access}
use beer_avaliation_api.Http.{absent, decoded, Request, with_body}
use beer_avaliation_api.Http.Statuses.{IsAnswered, error_status}
use beer_avaliation_api.User.Controller.{UserTools}
use beer_avaliation_api.User.Controller.Handlers.{
  get_profile_handler, update_profile_handler, delete_account_handler,
  list_push_subscriptions_handler,
}
use beer_avaliation_api.User.Controller.Access.{get_profile_handler_404, account_refused}
use beer_avaliation_api.User.Postgres.{Row, Db, find}
use beer_avaliation_api.User.Postgres.Sessions.{
  has_hash, revoke_all_refresh_tokens, revoke_where, revoked_token, postgres_users,
}
use beer_avaliation_api.User.Postgres.Laws.{Revoked, revoke_all_refresh_tokens-ok, register_taken}
use beer_avaliation_api.User.Tests.{plain_services, moment, ana, token, rows_repository}
use beer_avaliation_api.User.Tests.Sessions.{stranger, stranger-MayAccess}

abbrev tools : UserTools
tools = record {
  site = record {
    problem_type = λ code. code;
    status_text = λ status. "";
    rfc3339_text = λ seconds. "";
  };
  validate_user = λ user. none;
  validate_credentials = λ credentials. none;
  validate_oauth = λ body. none;
  validate_refresh = λ raw. none;
}

-- A stranger asks for the account `u-1`.
abbrev asked : Request (Unit {0})
asked = record {
  path = "/api/users/u-1";
  host = "api.example";
  is_tls = true;
  id = "u-1";
  comment_id = "";
  query = [];
  headers = [];
  body = absent;
  context = stranger;
  trace = "";
}

id-ne-nil : asked.id ≢ ""
id-ne-nil e =
    let differs : str_eq "u-1" "" ≡ false = refl in ground (arith, differs, e, eq_iff "u-1" "")

denied : get_profile plain_services (some rows_repository) stranger "u-1" [] ≡ (not_allowed, [])
unfolding get_profile available require_user_access beer_avaliation_api.Middleware.Context.is_admin
denied = refl

get_profile_handler_404_example :
    IsAnswered [] 404 (get_profile_handler tools plain_services (some rows_repository) asked [])
get_profile_handler_404_example =
    get_profile_handler_404 tools plain_services (some rows_repository) asked [] [] _ id-ne-nil
      denied

account_refused_example :
    IsAnswered [] 404 (get_profile_handler tools plain_services (some rows_repository) asked [])
    × IsAnswered [] 403
        (delete_account_handler tools plain_services (some rows_repository) asked [])
    × IsAnswered [] 403
        (list_push_subscriptions_handler tools plain_services (some rows_repository) asked [])
    × IsAnswered [] 403 (
        update_profile_handler tools plain_services
          (some rows_repository)
          (with_body asked (decoded ana))
          [])
account_refused_example =
    account_refused tools plain_services rows_repository asked (with_body asked (decoded ana)) ana
      [] id-ne-nil stranger-MayAccess id-ne-nil refl refl stranger-MayAccess

abbrev social : Row
social = record {
  id = "u-1";
  username = "Ana";
  email = "ana@example.org";
  password = none;
  role = "user";
  provider = "google";
  external_sub = some "g-1";
  created = missing;
  updated_at = missing;
}

abbrev other_token : RefreshToken
other_token = record token { id = "t-2"; user_id = "u-2"; token_hash = "other" }

abbrev accounts : Db
accounts = record {
  users = social ∷ [];
  tokens = token ∷ other_token ∷ [];
  subscriptions = [];
  clock = missing;
  drawn = 0;
  faults = [];
}

abbrev ids : ℕ → String
ids n = "u-next"

register_taken_example :
    (e : Error) × (register plain_services (some (postgres_users true ids)) moment ana accounts
      ≡ (err e, accounts))
    × (error_status e 0 ≡ 500)
unfolding find
register_taken_example = register_taken plain_services true ids moment ana social accounts refl refl

abbrev after : Db
after = record accounts { tokens = revoked_token token ∷ other_token ∷ [] }

revoked : revoke_all_refresh_tokens "u-1" accounts ≡ (ok tt, after)
unfolding revoke_all_refresh_tokens revoke_where beer_avaliation_api.User.Postgres.send
    beer_avaliation_api.User.Postgres.change
revoked = refl

revoke_all_refresh_tokens-ok_example :
    All (Revoked "u-1") after.tokens
    × (after.users ≡ accounts.users)
    × ((token_hash : String) (t : RefreshToken)
        → find (has_hash token_hash) accounts.tokens ≡ some t
        → t.user_id ≢ "u-1"
        → find (has_hash token_hash) after.tokens ≡ some t)
revoke_all_refresh_tokens-ok_example = revoke_all_refresh_tokens-ok "u-1" accounts after revoked
