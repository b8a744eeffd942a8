-- ===== src/User/Usecase/Logins.antt =====
-- What a login, a registration and the seed of the administrator have established
-- (internal/user/usecase/user_usecase.go).
use beer_avaliation_api.Base.{◌≤◌, ◌≡◌, ◌⊎◌, inl, inr, String, true, some, arith, ltb, Bool-cases}
use beer_avaliation_api.Base.Text.{byte_length}
use beer_avaliation_api.Errors.{Error, user_not_found, is_sentinel}
use beer_avaliation_api.Results.{ok, err, Result-cases}
use beer_avaliation_api.User.Model.{User, RefreshToken, format_time, role_user}
use beer_avaliation_api.User.Repository.{UserRepository}
use beer_avaliation_api.User.Services.{TokenPair, Services, Moment}
use beer_avaliation_api.User.Usecase.Accounts.{register}
use beer_avaliation_api.User.Usecase.Sessions.{
  invalid_credentials, refresh_record, issue_token_pair, login,
}
use beer_avaliation_api.User.Usecase.Issue.{IsIssued, refresh_record-IsIssued}

module _ {S : Type 0} (sv : Services) (repo : UserRepository S) where
  -- The address is known and the password, of at most 72 bytes, is the account's.
  abbrev pub Authenticated : String → String → S → User → S → Type 0
  Authenticated email password s user s₁ =
      (repo.get_by_email email s ≡ (ok user, s₁))
      × (byte_length password ≤ 72)
      × (sv.compare_password user.password password ≡ true)

  -- A login that succeeds has checked the password, signed for the account's own role, and stored
  -- one new token of the account, live for thirty days, with the hash of the refresh token that it
  -- returns.
  pub login-ok :
      (m : Moment) (email password : String) (s s' : S) (pair : TokenPair)
      → login sv (some repo) m email password s ≡ (ok pair, s')
      → (user : User) × (s₁ : S) × Authenticated email password s user s₁
        × (sv.generate_token user.id user.role ≡ ok pair.access_token)
        × (t : RefreshToken) × IsIssued sv m user.id pair.refresh_token t
        × (repo.create_refresh_token t s₁ ≡ (ok tt, s'))
  unfolding login issue_token_pair
  login-ok m email password s s' pair e =
      let (found, s₁) = repo.get_by_email email s in
      elim (Result-cases found) [
        | inr (x, failed) ↦ absurd (ground (arith, failed))
        | inl (user, got) ↦ (
          user,
          s₁,
          (ground (arith, got), ground (arith, got), ground (arith, got)),
          ground (arith, got),
          refresh_record sv (some repo) m user.id pair.refresh_token,
          refresh_record-IsIssued sv repo m user.id pair.refresh_token,
          ground (arith, got),
        )
      ]

  -- A login that fails answers one and the same error, unless the password has been checked: the
  -- answer does not tell whether the address is known.
  pub login-err :
      (m : Moment) (email password : String) (s s' : S) (e : Error)
      → login sv (some repo) m email password s ≡ (err e, s')
      → (e ≡ invalid_credentials)
        ⊎ ((user : User) × (s₁ : S) × Authenticated email password s user s₁)
  unfolding login
  login-err m email password s s' e h =
      let (found, s₁) = repo.get_by_email email s in
      elim (Result-cases found) [
        | inr (x, failed) ↦ inl (ground (arith, failed))
        | inl (user, got) ↦ elim (Bool-cases (ltb 72 (byte_length password))) [
          | inl long ↦ inl (ground (arith, got, long))
          | inr short ↦ elim (Bool-cases (sv.compare_password user.password password)) [
            | inl same ↦ inr (user, s₁, (ground (arith, got), ground arith, same))
            | inr other ↦ inl (ground (arith, got, short, other))
          ]
        ]
      ]

  -- A registration that succeeds found no user with the address, and stored the hash of a password
  -- of at most 72 bytes under a new identifier and the role of a plain user, whatever was asked for.
  pub register-ok :
      (m : Moment) (user : User) (s s' : S)
      → register sv (some repo) m user s ≡ (ok tt, s')
      → (e : Error) × (s₁ : S) × (hashed : String) × (repo.get_by_email user.email s ≡ (err e, s₁))
        × (is_sentinel e user_not_found ≡ true)
        × (byte_length user.password ≤ 72)
        × (sv.hash_password user.password ≡ ok hashed)
        × (repo.create
              (record user {
                password = hashed;
                created = format_time m.now;
                role = role_user;
                id = m.user_id;
              })
              s₁
            ≡ (ok tt, s'))
  unfolding register
  register-ok m user s s' h =
      let (found, s₁) = repo.get_by_email user.email s in
      elim (Result-cases found) [
        | inl (other, got) ↦ absurd (ground (arith, got))
        | inr (e, missed) ↦ elim (Result-cases (sv.hash_password user.password)) [
          | inr (x, failed) ↦ absurd (ground (arith, missed, failed))
          | inl (hashed, made) ↦ (
            e,
            s₁,
            hashed,
            ground (arith, missed),
            ground (arith, missed),
            ground (arith, missed),
            made,
            ground (arith, missed, made),
          )
        ]
      ]
