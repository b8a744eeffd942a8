-- ===== src/User/Controller.antt =====
-- The handlers of internal/user/delivery/http/user_controller.go, over the operations of the usecase.
pub mod Handlers
pub mod Access
use Prim.Native.String.{◌++◌ as str_append}
use beer_avaliation_api.Base.{
  ℕ, String, Bool, true, false, ◌||◌, Option, none, some, List, [], ◌∷◌, if◌then◌else◌, str_eq,
  ◌==◌,
}
use beer_avaliation_api.Base.Dict.{Dict}
use beer_avaliation_api.Errors.{Error, AppError, as_app, app_error_is, new_problem, Problem}
use beer_avaliation_api.Results.{Result, Exec}
use beer_avaliation_api.User.Model.{User, PushSubscription}
use beer_avaliation_api.User.Repository.{UserRepository}
use beer_avaliation_api.User.Services.{Services, Moment, TokenPair}
use beer_avaliation_api.User.Usecase.Accounts.{
  register, get_profile, update_profile, delete_account, subscribe_push, unsubscribe_push,
  list_push_subscriptions,
}
use beer_avaliation_api.User.Usecase.Sessions.{login, oauth_login, refresh_tokens}
use beer_avaliation_api.Http.{
  Site, Body, absent, undecoded, decoded, Request, Response, Handler, time_text, send_response,
  send_problem, send_new_problem, send_handled, respond,
}
use beer_avaliation_api.Http.Caching.{etag_for_version, revalidated}
use beer_avaliation_api.Http.Validation.{Invalid, validation_details}

pub data UserPayload : Type 0 where
  fields : Dict String → UserPayload
  profile : User → UserPayload
  subscriptions : List PushSubscription → UserPayload

-- The bodies of `Login`, `OAuth`, `Refresh` and `UnsubscribePush`.
pub record Credentials : Type 0 where
  pub email : String
  pub password : String

pub record OauthBody : Type 0 where
  pub provider : String
  pub id_token : String

-- go-playground's validator, with the rules of the struct tags.
pub record UserTools : Type 0 where
  pub site : Site
  pub validate_user : User → Option Invalid
  pub validate_credentials : Credentials → Option Invalid
  pub validate_oauth : OauthBody → Option Invalid
  pub validate_refresh : String → Option Invalid

-- `sendValidationProblem`
unfoldable pub send_validation_problem {ℓ} :
    {B : Type ℓ} → Site → Request B → Invalid → Response UserPayload
unfolding send_problem validation_details new_problem
send_validation_problem site req invalid =
    let p : Problem =
      record (new_problem site.problem_type site.status_text 400 "validation_failed"
        "Os dados enviados contêm erros de validação.") { details = validation_details invalid } in
    send_problem site
      (some (if str_eq req.trace "" then p else (record p { trace_id = req.trace }))) []

unfoldable pub invalid_body : Site → Response UserPayload
invalid_body site =
    send_new_problem site 400 "invalid_request_body" "O corpo da requisição é inválido."

unfoldable pub missing_id : Site → Response UserPayload
missing_id site = send_new_problem site 400 "bad_request" "O ID do utilizador é obrigatório."

-- `r.Body` nil, or not decoded, and the rest.
unfoldable pub with_sent {ℓ} :
    {B : Type ℓ} {S : Type 0}
    → Site
    → Request B
    → Body B
    → (B → Handler UserPayload S)
    → S
    → Response UserPayload × S
unfolding invalid_body
with_sent site req absent rest s = (invalid_body site, s)
with_sent site req (undecoded e) rest s = (send_handled site req e "Invalid request body" 400 [], s)
with_sent site req (decoded b) rest s = rest b s

-- `if err := c.validator.Struct(…); err != nil { … }`, and the rest.
unfoldable pub when_valid {ℓ} :
    {B : Type ℓ} {S : Type 0}
    → Site
    → Request B
    → Option Invalid
    → Handler UserPayload S
    → Handler UserPayload S
unfolding send_validation_problem
when_valid site req none rest s = rest s
when_valid site req (some invalid) rest s = (send_validation_problem site req invalid, s)

-- `if id == "" { … }`, and the rest.
unfoldable pub with_id {ℓ} :
    {B : Type ℓ} {S : Type 0} → Site → Request B → Handler UserPayload S → Handler UserPayload S
unfolding missing_id
with_id site req rest s = if str_eq req.id "" then (missing_id site, s) else rest s

abbrev pub message : String → UserPayload
message text = fields (("message", text) ∷ [])

abbrev pub tokens_of : TokenPair → UserPayload
tokens_of t = fields (("accessToken", t.access_token) ∷ ("refreshToken", t.refresh_token) ∷ [])
