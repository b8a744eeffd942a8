-- ===== src/User/Usecase/Sessions.antt =====
-- Logins and the rotation of refresh tokens (internal/user/usecase/user_usecase.go).
use beer_avaliation_api.Base.{
  ◌+◌, String, false, not, Option, none, some, ltb, if◌then◌else◌, str_eq,
}
use beer_avaliation_api.Base.Text.{byte_length}
use beer_avaliation_api.Errors.{Error, nil, user_not_found, new_app_error, is_sentinel}
use beer_avaliation_api.Results.{Exec, raise, pure, lift, ◌or_raise◌, try, ◌>>=◌, ◌>>◌}
use beer_avaliation_api.User.Model.{User, RefreshToken, missing, format_time, role_user, is_expired}
use beer_avaliation_api.User.Repository.{UserRepository}
use beer_avaliation_api.User.Services.{
  TokenPair, OidcClaims, Services, Moment, refresh_token_ttl, available,
}

abbrev pub invalid_credentials : Error
invalid_credentials = new_app_error 401 "invalid credentials" nil

abbrev pub invalid_refresh_token : Error
invalid_refresh_token = new_app_error 401 "invalid refresh token" nil

module _ {S : Type 0} (sv : Services) (u : Option (UserRepository S)) where
  -- The refresh token that `issueTokenPair` stores.
  abbrev pub refresh_record : Moment → String → String → RefreshToken
  refresh_record m user_id raw = record {
    id = m.token_id;
    user_id = user_id;
    token_hash = sv.hash_token raw;
    expires_at = format_time (m.now + refresh_token_ttl);
    revoked = false;
    created_at = format_time m.now;
  }

  -- `issueTokenPair`
  unfoldable pub issue_token_pair : UserRepository S → Moment → String → String → Exec S TokenPair
  issue_token_pair repo m user_id role = do
    access ←
        lift (sv.generate_token user_id role) or_raise new_app_error 500 "failed to generate token"
    raw ← lift m.raw_refresh_token or_raise new_app_error 500 "failed to generate refresh token"
    repo.create_refresh_token (refresh_record m user_id raw)
        or_raise new_app_error 500 "failed to persist refresh token"
    pure (record { access_token = access; refresh_token = raw })

  unfoldable pub login_found : UserRepository S → Moment → String → User → Exec S TokenPair
  login_found repo m password user =
      if not (sv.compare_password user.password password)
      then raise invalid_credentials
      else issue_token_pair repo m user.id user.role

  -- `Login`
  unfoldable pub login : Moment → String → String → Exec S TokenPair
  unfolding available login_found
  login m email password = available u λ repo.
      if ltb 72 (byte_length password) then raise invalid_credentials else do
        user ← repo.get_by_email email or_raise λ e. invalid_credentials
        login_found repo m password user

  -- The user that `OAuthLogin` hands to `UpsertByExternal`.
  abbrev pub external_user : Moment → String → OidcClaims → User
  external_user m provider claims = record {
    id = m.user_id;
    username = claims.username;
    email = claims.email;
    password = "";
    role = role_user;
    provider = provider;
    external_sub = claims.sub;
    created = format_time m.now;
    updated_at = missing;
  }

  -- `OAuthLogin`
  unfoldable pub oauth_login : Moment → String → String → Exec S TokenPair
  unfolding available
  oauth_login m provider id_token = available u λ repo. elim (sv.verifier provider) [
    | none ↦ raise (new_app_error 400 "unsupported provider" nil)
    | some verify ↦ do
      claims ← lift (verify id_token) or_raise new_app_error 401 "invalid id_token"
      user ←
          repo.upsert_by_external (external_user m provider claims)
          or_raise new_app_error 500 "failed to create user"
      issue_token_pair repo m user.id user.role
          or_raise new_app_error 500 "failed to generate token"
  ]

  unfoldable pub refresh_lookup_error : Error → Error
  refresh_lookup_error e =
      if is_sentinel e user_not_found
      then invalid_refresh_token
      else new_app_error 500 "failed to lookup refresh token" e

  unfoldable pub refresh_user_error : Error → Error
  refresh_user_error e =
      if is_sentinel e user_not_found
      then invalid_refresh_token
      else new_app_error 500 "failed to lookup user" e

  -- `RefreshTokens` for a stored token that is neither revoked nor expired.
  unfoldable pub rotate : UserRepository S → Moment → RefreshToken → Exec S TokenPair
  unfolding refresh_user_error
  rotate repo m stored = do
    user ← repo.get_by_id stored.user_id or_raise refresh_user_error
    repo.revoke_refresh_token stored.user_id stored.token_hash
        or_raise new_app_error 500 "failed to revoke refresh token"
    issue_token_pair repo m stored.user_id user.role

  unfoldable pub refresh_stored : UserRepository S → Moment → RefreshToken → Exec S TokenPair
  refresh_stored repo m stored =
      if stored.revoked
      then (try (repo.revoke_all_refresh_tokens stored.user_id) >>= λ ignored.
          raise invalid_refresh_token)
      else if is_expired stored m.now
      then raise invalid_refresh_token
      else rotate repo m stored

  -- `RefreshTokens`
  unfoldable pub refresh_tokens : Moment → String → Exec S TokenPair
  unfolding available refresh_lookup_error refresh_stored
  refresh_tokens m refresh_token = available u λ repo.
      if str_eq refresh_token "" then raise invalid_refresh_token else do
        stored ←
            repo.get_refresh_token_by_hash "" (sv.hash_token refresh_token)
            or_raise refresh_lookup_error
        refresh_stored repo m stored
