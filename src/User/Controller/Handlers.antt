-- ===== src/User/Controller/Handlers.antt =====
-- The handlers themselves (internal/user/delivery/http/user_controller.go).
use Prim.Native.String.{◌++◌ as str_append}
use beer_avaliation_api.Base.{String, ◌||◌, Option, none, some, [], if◌then◌else◌, str_eq, ◌==◌}
use beer_avaliation_api.Errors.{Error, as_app, app_error_is}
use beer_avaliation_api.User.Model.{User, PushSubscription}
use beer_avaliation_api.User.Repository.{UserRepository}
use beer_avaliation_api.User.Services.{Services, Moment}
use beer_avaliation_api.User.Usecase.Accounts.{
  register, get_profile, update_profile, delete_account, subscribe_push, unsubscribe_push,
  list_push_subscriptions,
}
use beer_avaliation_api.User.Usecase.Sessions.{login, oauth_login, refresh_tokens}
use beer_avaliation_api.Http.{
  Request, Response, Handler, time_text, send_response, send_new_problem, send_handled, respond,
}
use beer_avaliation_api.Http.Caching.{etag_for_version, revalidated}
use beer_avaliation_api.User.Controller.{
  UserPayload, profile, subscriptions, Credentials, OauthBody, UserTools, with_sent, when_valid,
  with_id, message, tokens_of,
}

module _ {S : Type 0} (tools : UserTools) (sv : Services) (u : Option (UserRepository S)) where
  -- The answer of `Register` to an error.
  unfoldable pub not_registered : Request User → Error → Response UserPayload
  not_registered req e = elim (as_app e) [
    | none ↦ send_handled tools.site req e "Failed to register user" 500 []
    | some appErr ↦ send_handled tools.site req e appErr.detail appErr.code []
  ]

  -- `Register`
  unfoldable pub register_handler : Moment → Request User → Handler UserPayload S
  unfolding with_sent when_valid not_registered register
  register_handler m req = with_sent tools.site req req.body λ user.
      when_valid tools.site req (tools.validate_user user) λ s.
        respond (register sv u m user s) (not_registered req)
          λ done. send_response 201 (message "User registered successfully") []

  -- `Login`
  unfoldable pub login_handler : Moment → Request Credentials → Handler UserPayload S
  unfolding with_sent when_valid login
  login_handler m req = with_sent tools.site req req.body λ c.
      when_valid tools.site req (tools.validate_credentials c) λ s.
        respond (login sv u m c.email c.password s)
          (λ e. send_handled tools.site req e "Invalid credentials" 401 [])
          λ t. send_response 200 (tokens_of t) []

  -- `OAuth`
  unfoldable pub oauth_handler : Moment → Request OauthBody → Handler UserPayload S
  unfolding with_sent when_valid oauth_login
  oauth_handler m req = with_sent tools.site req req.body λ b.
      when_valid tools.site req (tools.validate_oauth b) λ s.
        respond (oauth_login sv u m b.provider b.id_token s)
          (λ e. send_handled tools.site req e "OAuth login failed" 401 [])
          λ t. send_response 200 (tokens_of t) []

  -- `Refresh`
  unfoldable pub refresh_handler : Moment → Request String → Handler UserPayload S
  unfolding with_sent when_valid refresh_tokens
  refresh_handler m req = with_sent tools.site req req.body λ token.
      when_valid tools.site req (tools.validate_refresh token) λ s.
        respond (refresh_tokens sv u m token s)
          (λ e. send_handled tools.site req e "Invalid refresh token" 401 [])
          λ t. send_response 200 (tokens_of t) []

  -- The answer of `GetProfile` to an error.
  unfoldable pub profile_not_read : Request (Unit {0}) → Error → Response UserPayload
  unfolding app_error_is
  profile_not_read req e =
      let otherwise = send_handled tools.site req e "Failed to get profile" 500 [] in
      elim (as_app e) [
        | none ↦ otherwise
        | some appErr ↦
            if appErr.code == 404 || app_error_is appErr e
            then send_new_problem tools.site 404 "not_found" "Utilizador não encontrado."
            else otherwise
      ]

  -- `GetProfile`
  unfoldable pub get_profile_handler : Request (Unit {0}) → Handler UserPayload S
  unfolding with_id profile_not_read etag_for_version revalidated time_text get_profile
  get_profile_handler req = with_id tools.site req λ s.
      respond (get_profile sv u req.context req.id s) (profile_not_read req) λ user.
        let version = str_append user.id (str_append ":" (time_text tools.site user.updated_at)) in
        revalidated req (etag_for_version version) 120 λ h. send_response 200 (profile user) h

  -- `UpdateProfile`
  unfoldable pub update_profile_handler : Request User → Handler UserPayload S
  unfolding with_id with_sent when_valid update_profile
  update_profile_handler req = with_id tools.site req (
      with_sent tools.site req req.body λ sent.
        when_valid tools.site req (tools.validate_user sent) λ s.
          let user : User = record sent { id = ""; role = "" } in
          respond (update_profile sv u req.context req.id user s)
            (λ e. send_handled tools.site req e "Failed to update profile" 500 [])
            λ done. send_response 200 (message "Profile updated successfully") [])

  -- `DeleteAccount`
  unfoldable pub delete_account_handler : Request (Unit {0}) → Handler UserPayload S
  unfolding with_id delete_account
  delete_account_handler req = with_id tools.site req λ s.
      respond (delete_account sv u req.context req.id s)
        (λ e. send_handled tools.site req e "Failed to delete account" 500 [])
        λ done. send_response 200 (message "Account deleted successfully") []

  -- `SubscribePush`
  unfoldable pub subscribe_push_handler : Request PushSubscription → Handler UserPayload S
  unfolding with_id with_sent subscribe_push
  subscribe_push_handler req = with_id tools.site req (
      with_sent tools.site req req.body λ sub s.
        if str_eq sub.endpoint "" || str_eq sub.p256dh "" || str_eq sub.auth ""
        then (
          send_new_problem tools.site 400 "invalid_push_subscription"
              "endpoint, p256dh e auth são obrigatórios.",
          s,
        )
        else respond (subscribe_push sv u req.context req.id sub s)
            (λ e. send_handled tools.site req e "Failed to subscribe push" 500 [])
            λ done. send_response 201 (message "Push subscription created") [])

  -- `UnsubscribePush`, whose body is an endpoint.
  unfoldable pub unsubscribe_push_handler : Request String → Handler UserPayload S
  unfolding with_id with_sent unsubscribe_push
  unsubscribe_push_handler req = with_id tools.site req (
      with_sent tools.site req req.body λ endpoint s.
        if str_eq endpoint ""
        then (send_new_problem tools.site 400 "invalid_request_body" "endpoint é obrigatório.", s)
        else respond (unsubscribe_push sv u req.context req.id endpoint s)
            (λ e. send_handled tools.site req e "Failed to unsubscribe push" 500 [])
            λ done. send_response 200 (message "Push subscription removed") [])

  -- `ListPushSubscriptions`
  unfoldable pub list_push_subscriptions_handler : Request (Unit {0}) → Handler UserPayload S
  unfolding with_id list_push_subscriptions
  list_push_subscriptions_handler req = with_id tools.site req λ s.
      respond (list_push_subscriptions sv u req.context req.id s)
        (λ e. send_handled tools.site req e "Failed to list push subscriptions" 500 [])
        λ subs. send_response 200 (subscriptions subs) []
