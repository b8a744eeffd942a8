-- ===== src/User/Services.antt =====
-- What the user usecases take from outside, and the guards that they share
-- (internal/user/usecase/user_usecase.go).
use beer_avaliation_api.Base.{ℕ, ◌*◌, String, Bool, Option, none, some, if◌then◌else◌, str_eq}
use beer_avaliation_api.Errors.{nil, new_app_error, new_unavailable_error}
use beer_avaliation_api.Results.{Result, ok, err, Exec, raise}
use beer_avaliation_api.Middleware.Context.{Context, user_id_from_context, is_admin}
use beer_avaliation_api.User.Model.{second}
use beer_avaliation_api.User.Repository.{UserRepository}

-- `auth.TokenPair`
pub record TokenPair : Type 0 where
  pub access_token : String
  pub refresh_token : String

-- `auth.OIDCClaims`
pub record OidcClaims : Type 0 where
  pub sub : String
  pub email : String
  pub username : String

-- `hash_password` and `compare_password` are bcrypt's, `hash_token` is
-- `auth.HashToken`, `generate_token` is `auth.GenerateToken` at the time of the call, and `verifier`
-- is `auth.OIDC().Verifier`, `none` for a provider that is not configured.
pub record Services : Type 0 where
  pub hash_password : String → Result String
  pub compare_password : String → String → Bool
  pub hash_token : String → String
  pub generate_token : String → String → Result String
  pub verifier : String → Option (String → Result OidcClaims)

-- The time of a call, the identifiers that it draws from `uuid.MustNewV7`, and the outcome of
-- `auth.GenerateRefreshToken`.
pub record Moment : Type 0 where
  pub now : ℕ
  pub user_id : String
  pub token_id : String
  pub raw_refresh_token : Result String

-- `auth.RefreshTokenTTL()`
abbrev pub refresh_token_ttl : ℕ
refresh_token_ttl = 30 * 24 * 3600 * second

-- `unavailable`, at the head of every method: the usecase may have been built with no repository.
unfoldable pub available :
    {S : Type 0} {A : Type 0} → Option (UserRepository S) → (UserRepository S → Exec S A) → Exec S A
available none f = raise new_unavailable_error
available (some repo) f = f repo

-- `requireUserAccess`
unfoldable pub require_user_access : {S : Type 0} → Context → String → Exec S Unit
require_user_access ctx user_id s =
    if is_admin ctx then (ok tt, s) else elim (user_id_from_context ctx) [
      | none ↦ (err (new_app_error 403 "you are not allowed to access this user" nil), s)
      | some requester ↦
          if str_eq requester user_id
          then (ok tt, s)
          else (err (new_app_error 403 "you are not allowed to access this user" nil), s)
    ]
