-- ===== src/User/Usecase/Accounts.antt =====
-- Registration, profiles, push subscriptions and the seed of the administrator
-- (internal/user/usecase/user_usecase.go).
use beer_avaliation_api.Base.{String, not, ◌||◌, Option, List, ltb, if◌then◌else◌, str_eq}
use beer_avaliation_api.Base.Text.{byte_length}
use beer_avaliation_api.Errors.{Error, nil, wrap, user_not_found, new_app_error, is_sentinel}
use beer_avaliation_api.Results.{Result, ok, err, Exec, raise, pure, ◌or_raise◌, try, ◌>>=◌, ◌>>◌}
use beer_avaliation_api.Middleware.Context.{Context}
use beer_avaliation_api.User.Model.{
  User, PushSubscription, missing, format_time, role_user, role_admin,
}
use beer_avaliation_api.User.Repository.{UserRepository}
use beer_avaliation_api.User.Services.{Services, Moment, available, require_user_access}

module _ {S : Type 0} (sv : Services) (u : Option (UserRepository S)) where
  -- `Register` from the point where no user has the address.
  unfoldable pub register_new : UserRepository S → Moment → User → Exec S Unit
  register_new repo m user =
      if ltb 72 (byte_length user.password)
      then raise (new_app_error 400 "password too long" nil)
      else elim (sv.hash_password user.password) [
        | err e ↦ raise (new_app_error 500 "failed to hash password" e)
        | ok hashed ↦
            repo.create (record user {
              password = hashed;
              created = format_time m.now;
              role = role_user;
              id = m.user_id;
            })
            or_raise new_app_error 500 "failed to create user"
      ]

  unfoldable pub register_found : UserRepository S → Moment → User → Result User → Exec S Unit
  unfolding register_new
  register_found repo m user (ok other) = raise (new_app_error 400 "email already registered" nil)
  register_found repo m user (err e) =
      if not (is_sentinel e user_not_found)
      then raise (new_app_error 500 "failed to lookup user" e)
      else register_new repo m user

  -- `Register`
  unfoldable pub register : Moment → User → Exec S Unit
  unfolding available register_found
  register m user =
      available u
        λ repo. do found ← try (repo.get_by_email user.email); register_found repo m user found

  unfoldable pub profile_error : Error → Error
  profile_error e =
      if is_sentinel e user_not_found
      then new_app_error 404 "user not found" e
      else new_app_error 500 "failed to get profile" e

  -- `GetProfile`
  unfoldable pub get_profile : Context → String → Exec S User
  unfolding available profile_error
  get_profile ctx id =
      available u λ repo. do require_user_access ctx id; repo.get_by_id id or_raise profile_error

  -- `UpdateProfile`
  unfoldable pub update_profile : Context → String → User → Exec S Unit
  unfolding available
  update_profile ctx id user = available u λ repo. do
    require_user_access ctx id
    repo.update id user or_raise new_app_error 500 "failed to update profile"

  -- `DeleteAccount`
  unfoldable pub delete_account : Context → String → Exec S Unit
  unfolding available
  delete_account ctx id = available u λ repo. do
    require_user_access ctx id
    repo.remove id or_raise new_app_error 500 "failed to delete account"

  -- `SubscribePush`
  unfoldable pub subscribe_push : Context → String → PushSubscription → Exec S Unit
  unfolding available
  subscribe_push ctx user_id sub = available u λ repo. do
    require_user_access ctx user_id
    repo.create_push_subscription (record sub { user_id = user_id })
        or_raise new_app_error 500 "failed to subscribe push"

  -- `UnsubscribePush`
  unfoldable pub unsubscribe_push : Context → String → String → Exec S Unit
  unfolding available
  unsubscribe_push ctx user_id endpoint = available u λ repo. do
    require_user_access ctx user_id
    repo.delete_push_subscription_by_endpoint user_id endpoint
        or_raise new_app_error 500 "failed to unsubscribe push"

  -- `ListPushSubscriptions`
  unfoldable pub list_push_subscriptions : Context → String → Exec S (List PushSubscription)
  unfolding available
  list_push_subscriptions ctx user_id = available u λ repo. do
    require_user_access ctx user_id
    repo.list_push_subscriptions user_id
        or_raise new_app_error 500 "failed to list push subscriptions"

  -- The function that `SeedAdmin` runs in a transaction.
  unfoldable pub seed_admin_found :
      UserRepository S → Moment → String → String → Result User → Exec S Unit
  seed_admin_found repo m email password (ok existing) =
      if str_eq existing.role role_admin
      then pure tt
      else repo.update existing.id (record existing { role = role_admin })
        or_raise wrap "failed to promote admin"
  seed_admin_found repo m email password (err e) =
      if not (is_sentinel e user_not_found)
      then raise (wrap "seed admin lookup" e)
      else elim (sv.hash_password password) [
        | err e ↦ raise (wrap "failed to hash admin password" e)
        | ok hashed ↦
            repo.create (record {
              id = m.user_id;
              username = "admin";
              email = email;
              password = hashed;
              role = role_admin;
              provider = "";
              external_sub = "";
              created = format_time m.now;
              updated_at = missing;
            })
            or_raise wrap "failed to create admin"
      ]

  -- `SeedAdmin`, given `ADMIN_EMAIL` and `ADMIN_PASSWORD`.
  unfoldable pub seed_admin : Moment → String → String → Exec S Unit
  unfolding available seed_admin_found
  seed_admin m email password = available u λ repo.
      if str_eq email "" || str_eq password ""
      then pure tt
      else repo.exec_in_tx (do
        existing ← try (repo.get_by_email email)
        seed_admin_found repo m email password existing)
