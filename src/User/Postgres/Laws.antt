-- ===== src/User/Postgres/Laws.antt =====
-- What the repository of internal/user/repository/user_repository.go leaves behind, alone and under
-- the usecases.
use beer_avaliation_api.Base.{
  ℕ, ◌≡◌, ◌≢◌, inl, inr, refl, sym, ◌∙◌, String, Bool, true, false, not, ◌&&◌, none, some, List, [],
  ◌∷◌, if◌then◌else◌, str_eq, arith, All, if_cases, eq_iff, Option-cases,
}
use mathlib.Core.Path.{subst}
use beer_avaliation_api.Errors.{Error, nil, plain, wrap, is_sentinel, as_app, new_app_error}
use beer_avaliation_api.Results.{ok, err}
use beer_avaliation_api.User.Model.{User, RefreshToken}
use beer_avaliation_api.User.Services.{Services, Moment, available}
use beer_avaliation_api.User.Usecase.Accounts.{register, register_found}
use beer_avaliation_api.Http.Statuses.{error_status}
use beer_avaliation_api.User.Postgres.{Row, Db, send, send_cases, find, change, has_email}
use beer_avaliation_api.User.Postgres.Accounts.{get_by_email, read_user, with_password}
use beer_avaliation_api.User.Postgres.Sessions.{
  revoke_where, revoke_all_refresh_tokens, revoked_token, postgres_users, has_hash,
}

-- The tokens of a user are revoked.
abbrev pub Revoked : String → RefreshToken → Type 0
Revoked user_id t = t.user_id ≡ user_id → t.revoked ≡ true

change-All-Revoked :
    (user_id : String) (tokens : List RefreshToken)
    → All
        (Revoked user_id)
        (change (λ t. str_eq t.user_id user_id && not t.revoked) revoked_token tokens)
unfolding change
change-All-Revoked user_id [] = tt
change-All-Revoked user_id (t ∷ ts) =
    let rest = change-All-Revoked user_id ts in
    if_cases (All (Revoked user_id)) (str_eq t.user_id user_id && not t.revoked)
      (λ e. ((λ _. refl), rest))
      (λ e. ((λ same. ground (arith, e, same, eq_iff t.user_id user_id)), rest))

pub find-change :
    (p q : RefreshToken → Bool) (f : RefreshToken → RefreshToken) (tokens : List RefreshToken)
    → ((t : RefreshToken) → p (f t) ≡ p t)
    → find p (change q f tokens)
      ≡ elim (find p tokens) [ none ↦ none | some t ↦ some (if q t then f t else t) ]
unfolding find change
find-change p q f [] h = refl
find-change p q f (t ∷ ts) h = ground (arith, find-change p q f ts h, h t)

-- After `RevokeAllRefreshTokens` every token of the user is revoked, and a token that was not the
-- user's is found under its hash as it was.
pub revoke_all_refresh_tokens-ok :
    (user_id : String) (db db' : Db)
    → revoke_all_refresh_tokens user_id db ≡ (ok tt, db')
    → All (Revoked user_id) db'.tokens
      × (db'.users ≡ db.users)
      × ((token_hash : String) (t : RefreshToken)
          → find (has_hash token_hash) db.tokens ≡ some t
          → t.user_id ≢ user_id
          → find (has_hash token_hash) db'.tokens ≡ some t)
unfolding revoke_all_refresh_tokens revoke_where
revoke_all_refresh_tokens-ok user_id db db' h =
    let mine : RefreshToken → Bool = λ t. str_eq t.user_id user_id && not t.revoked in
    elim (send_cases "failed to revoke all refresh tokens" (revoke_where mine) db) [
      | inl (e, faults, met) ↦ absurd (ground (arith, met, h))
      | inr (faults, ran) ↦
          let left : db'.tokens ≡ change mine revoked_token db.tokens = ground (arith, ran, h) in
          (
            subst (All (Revoked user_id)) (sym left) (change-All-Revoked user_id db.tokens),
            ground (arith, ran, h),
            λ token_hash t found other.
                let there =
                  find-change (has_hash token_hash) mine revoked_token db.tokens (λ x. refl) in
                let kept : mine t ≡ false = ground (arith, other, eq_iff t.user_id user_id) in
                rw left (there ∙ rw (found, kept) refl),
          )
    ]

get_by_email-found :
    (email : String) (row : Row) (db : Db)
    → db.faults ≡ []
    → find (has_email email) db.users ≡ some row
    → get_by_email email db ≡ (with_password row, db)
unfolding get_by_email send read_user
get_by_email-found email row db quiet found = ground (arith, quiet, found)

-- A registration under an address that is taken, on a database without faults, is refused with a
-- 400 if the account has a password. If it is a social account, whose password is NULL, the
-- registration fails with a 500, since the row cannot be read.
pub register_taken :
    (sv : Services) (begins : Bool) (uuid_at : ℕ → String) (m : Moment) (user : User) (row : Row)
    (db : Db)
    → db.faults ≡ []
    → find (has_email user.email) db.users ≡ some row
    → (e : Error) × (register sv (some (postgres_users begins uuid_at)) m user db ≡ (err e, db))
      × (error_status e 0 ≡ elim row.password [ none ↦ 500 | some password ↦ 400 ])
unfolding register available postgres_users with_password register_found as_app new_app_error
    is_sentinel
register_taken sv begins uuid_at m user row db quiet found =
    let read = get_by_email-found user.email row db quiet found in
    elim (Option-cases row.password) [
      | inl e ↦ (
        new_app_error 500 "failed to lookup user"
            (wrap "failed to get user" (plain "converting NULL to string is unsupported")),
        ground (arith, read, e),
        ground (arith, e),
      )
      | inr (password, e) ↦ (
        new_app_error 400 "email already registered" nil,
        ground (arith, read, e),
        ground (arith, e),
      )
    ]
