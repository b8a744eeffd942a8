-- ===== src/User/Usecase/Access.antt =====
-- Who may use the methods on an account (internal/user/usecase/user_usecase.go).
use beer_avaliation_api.Base.{
  ◌≡◌, ◌⊎◌, inl, inr, String, false, some, arith, eq_iff, str_eq, Bool-cases, Option-cases,
}
use beer_avaliation_api.Errors.{nil, new_app_error}
use beer_avaliation_api.Results.{Result, ok, err}
use beer_avaliation_api.Middleware.Context.{Context, is_admin, is_admin_iff}
use beer_avaliation_api.User.Model.{User, PushSubscription}
use beer_avaliation_api.User.Repository.{UserRepository}
use beer_avaliation_api.User.Services.{Services, require_user_access}
use beer_avaliation_api.User.Usecase.Accounts.{
  get_profile, update_profile, delete_account, subscribe_push, unsubscribe_push,
  list_push_subscriptions,
}

-- The caller is an administrator, or the account is its own.
abbrev pub MayAccess : Context → String → Type 0
MayAccess ctx id = (ctx.role ≡ some "admin") ⊎ (ctx.user_id ≡ some id)

abbrev pub not_allowed {ℓ} : {A : Type ℓ} → Result A
not_allowed = err (new_app_error 403 "you are not allowed to access this user" nil)

module _ {S : Type 0} (ctx : Context) (id : String) (s : S) where
  require_user_access_granted : MayAccess ctx id → require_user_access {S = S} ctx id s ≡ (ok tt, s)
  unfolding require_user_access
  require_user_access_granted (inl admin) = rw ((is_admin_iff ctx).1 admin)
  require_user_access_granted (inr own) = ground (arith, own, eq_iff id id)

  require_user_access_refused :
      ¬ MayAccess ctx id → require_user_access {S = S} ctx id s ≡ (not_allowed, s)
  unfolding require_user_access
  require_user_access_refused h =
      let plain : is_admin ctx ≡ false = elim (Bool-cases (is_admin ctx)) [
        | inl e ↦ absurd (h (inl ((is_admin_iff ctx).0 e)))
        | inr e ↦ e
      ] in
      elim (Option-cases ctx.user_id) [
        | inl e ↦ ground (arith, e, plain)
        | inr (other, e) ↦ elim (Bool-cases (str_eq other id)) [
          | inl same ↦ absurd (h (inr (rw (← (eq_iff other id).0 same) e)))
          | inr differs ↦ ground (arith, e, plain, differs)
        ]
      ]

module _ {S : Type 0} (sv : Services) (repo : UserRepository S) where
  -- A caller that is neither an administrator nor the account's owner gets a 403 from each of the
  -- six methods on an account, and the repository is not touched.
  pub access_refused :
      (ctx : Context) (id : String) (s : S) (user : User) (sub : PushSubscription)
      (endpoint : String)
      → ¬ MayAccess ctx id
      → (get_profile sv (some repo) ctx id s ≡ (not_allowed, s))
        × (update_profile sv (some repo) ctx id user s ≡ (not_allowed, s))
        × (delete_account sv (some repo) ctx id s ≡ (not_allowed, s))
        × (subscribe_push sv (some repo) ctx id sub s ≡ (not_allowed, s))
        × (unsubscribe_push sv (some repo) ctx id endpoint s ≡ (not_allowed, s))
        × (list_push_subscriptions sv (some repo) ctx id s ≡ (not_allowed, s))
  unfolding get_profile update_profile delete_account subscribe_push unsubscribe_push
      list_push_subscriptions
  access_refused ctx id s user sub endpoint h =
      let refused = require_user_access_refused ctx id s h in
      (rw refused, rw refused, rw refused, rw refused, rw refused, rw refused)
