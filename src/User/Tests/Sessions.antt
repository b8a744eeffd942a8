-- ===== src/User/Tests/Sessions.antt =====
-- Runs of the user usecases (internal/user/usecase/user_usecase.go).
use beer_avaliation_api.Base.{
  ◌≤◌, ◌≡◌, inl, inr, refl, String, true, false, some, List, [], ◌∷◌, arith, str_eq, eq_iff,
}
use beer_avaliation_api.Base.Text.{byte_length}
use beer_avaliation_api.Errors.{Error, is_sentinel, user_not_found}
use beer_avaliation_api.Results.{ok, err}
use beer_avaliation_api.Middleware.Context.{Context}
use beer_avaliation_api.User.Model.{User, RefreshToken, format_time, role_user}
use beer_avaliation_api.User.Repository.{UserRepository}
use beer_avaliation_api.User.Services.{TokenPair, available}
use beer_avaliation_api.User.Usecase.Accounts.{register, register_found, register_new}
use beer_avaliation_api.User.Usecase.Sessions.{
  invalid_credentials, refresh_record, login, login_found, issue_token_pair,
}
use beer_avaliation_api.User.Usecase.Issue.{IsIssued}
use beer_avaliation_api.User.Usecase.Access.{MayAccess}
use beer_avaliation_api.User.Usecase.Logins.{Authenticated, login-ok, register-ok}
use beer_avaliation_api.User.Tests.{plain_services, moment, ana, rows_repository}

abbrev Rows : Type 0
Rows = List RefreshToken

abbrev pub stranger : Context
stranger = record { user_id = some "u-2"; role = some "user" }

pub stranger-MayAccess : ¬ MayAccess stranger "u-1"
stranger-MayAccess h =
    let role : str_eq "user" "admin" ≡ false = refl in
    let user : str_eq "u-2" "u-1" ≡ false = refl in
    elim h [
      | inl e ↦ absurd (ground (arith, role, eq_iff "user" "admin"))
      | inr e ↦ absurd (ground (arith, user, eq_iff "u-2" "u-1"))
    ]

-- The repository with one account.
abbrev one_account : UserRepository Rows
one_account = record rows_repository { get_by_email = λ email s. (ok ana, s) }

abbrev pair : TokenPair
pair = record { access_token = "jwt"; refresh_token = "fresh" }

abbrev fresh_token : RefreshToken
fresh_token = refresh_record plain_services (some one_account) moment "u-1" "fresh"

logged_in :
    login plain_services (some one_account) moment "ana@example.org" "secret-1" []
    ≡ (ok pair, fresh_token ∷ [])
unfolding login login_found issue_token_pair available byte_length
logged_in = refl

login-ok_example :
    (user : User) × (s₁ : Rows) × Authenticated plain_services one_account "ana@example.org"
      "secret-1" [] user s₁
    × (plain_services.generate_token user.id user.role ≡ ok pair.access_token)
    × (t : RefreshToken) × IsIssued plain_services moment user.id "fresh" t
    × (one_account.create_refresh_token t s₁ ≡ (ok tt, fresh_token ∷ []))
login-ok_example =
    login-ok plain_services one_account moment "ana@example.org" "secret-1" [] (fresh_token ∷ [])
      pair logged_in

wrong_password :
    login plain_services (some one_account) moment "ana@example.org" "guess" []
    ≡ (err invalid_credentials, [])
unfolding login login_found available byte_length
wrong_password = refl

registered : register plain_services (some rows_repository) moment ana [] ≡ (ok tt, [])
unfolding register register_found register_new available is_sentinel byte_length
registered = refl

register-ok_example :
    (e : Error) × (s₁ : Rows) × (hashed : String) × (rows_repository.get_by_email ana.email []
      ≡ (err e, s₁))
    × (is_sentinel e user_not_found ≡ true)
    × (byte_length ana.password ≤ 72)
    × (plain_services.hash_password ana.password ≡ ok hashed)
    × (rows_repository.create
          (record ana {
            password = hashed;
            created = format_time moment.now;
            role = role_user;
            id = moment.user_id;
          })
          s₁
        ≡ (ok tt, []))
register-ok_example = register-ok plain_services rows_repository moment ana [] [] registered
