-- ===== src/User/Repository.antt =====
-- The interface `UserRepository` of internal/user/repository/user_repository.go, as the usecases
-- take it: a record of actions on a state of its own. The function that runs in a transaction is
-- given the same repository: the methods of `txRepo` act on the state within the transaction. The
-- methods that no usecase calls are left out.
use beer_avaliation_api.Base.{String, List}
use beer_avaliation_api.Results.{Exec}
use beer_avaliation_api.User.Model.{User, RefreshToken, PushSubscription}

pub record UserRepository (S : Type 0) : Type 0 where
  pub create : User → Exec S Unit
  pub get_by_id : String → Exec S User
  pub get_by_email : String → Exec S User
  pub upsert_by_external : User → Exec S User
  pub update : String → User → Exec S Unit
  pub remove : String → Exec S Unit
  pub create_push_subscription : PushSubscription → Exec S Unit
  pub list_push_subscriptions : String → Exec S (List PushSubscription)
  pub delete_push_subscription_by_endpoint : String → String → Exec S Unit
  pub create_refresh_token : RefreshToken → Exec S Unit
  pub get_refresh_token_by_hash : String → String → Exec S RefreshToken
  pub revoke_refresh_token : String → String → Exec S Unit
  pub revoke_all_refresh_tokens : String → Exec S Unit
  pub exec_in_tx : Exec S Unit → Exec S Unit
