-- ===== src/User/Controller/Access.antt =====
-- What the handlers of internal/user/delivery/http/user_controller.go answer to callers who may not
-- use an account, and to a profile that cannot be read.
use beer_avaliation_api.Base.{
  ◌≡◌, ◌≢◌, ◌⊎◌, inl, inr, refl, sym, ◌∙◌, String, false, Option, none, some, [], arith, str_eq,
  eq_iff, Bool-cases, Option-cases,
}
use mathlib.Core.Path.{subst}
use beer_avaliation_api.Errors.{
  Error, nil, AppError, as_app, app_error_is, new_app_error, new_unavailable_error, is_sentinel,
  user_not_found,
}
use beer_avaliation_api.Results.{Result, ok, err, Result-cases}
use beer_avaliation_api.Middleware.Context.{Context, is_admin}
use beer_avaliation_api.User.Model.{missing, User, PushSubscription}
use beer_avaliation_api.User.Repository.{UserRepository}
use beer_avaliation_api.User.Services.{Services, available, require_user_access}
use beer_avaliation_api.User.Usecase.Accounts.{profile_error, get_profile, update_profile}
use beer_avaliation_api.User.Usecase.Access.{MayAccess, not_allowed, access_refused}
use beer_avaliation_api.Http.{
  Body, with_body, decoded, Request, Handler, respond, send_response, send_handled,
}
use beer_avaliation_api.Http.Statuses.{
  IsProblem, IsAnswered, send_handled-IsProblem, send_new_problem-IsProblem,
}
use beer_avaliation_api.User.Controller.{
  UserPayload, UserTools, message, with_id, with_sent, when_valid,
}
use beer_avaliation_api.User.Controller.Handlers.{
  profile_not_read, get_profile_handler, update_profile_handler, delete_account_handler,
  list_push_subscriptions_handler,
}

abbrev refusal : Error
unfolding new_app_error
refusal = new_app_error 403 "you are not allowed to access this user" nil

-- A subscription that is of no account.
abbrev unused : PushSubscription
unused = record {
  id = "";
  user_id = "";
  endpoint = "";
  p256dh = "";
  auth = "";
  user_agent = "";
  created_at = missing;
  updated_at = missing;
  last_used_at = missing;
}

abbrev HasApp : Error → Type 0
HasApp e = (appErr : AppError) × (as_app e ≡ some appErr)

module _ {S : Type 0} (sv : Services) (u : Option (UserRepository S)) where
  profile_error-HasApp : (e : Error) → HasApp (profile_error sv u e)
  unfolding profile_error as_app new_app_error
  profile_error-HasApp e = elim (Bool-cases (is_sentinel e user_not_found)) [
    | inl same ↦ rw same (_, refl)
    | inr differs ↦ rw differs (_, refl)
  ]

HasApp-err :
    {S A : Type 0} (x e : Error) (s s' : S)
    → ◌≡◌ {A = Result A × S} (err x, s) (err e, s')
    → HasApp x
    → HasApp e
HasApp-err x e s s' h (appErr, found) =
    let same : x ≡ e = ground (arith, h) in (appErr, rw (← same) found)

require_user_access-cases :
    {S : Type 0} (ctx : Context) (id : String) (s : S)
    → (require_user_access {S = S} ctx id s ≡ (ok tt, s))
      ⊎ (require_user_access {S = S} ctx id s ≡ (not_allowed, s))
unfolding require_user_access
require_user_access-cases ctx id s = elim (Bool-cases (is_admin ctx)) [
  | inl e ↦ inl (rw e refl)
  | inr plain ↦ elim (Option-cases ctx.user_id) [
    | inl e ↦ inr (ground (arith, e, plain))
    | inr (other, e) ↦ elim (Bool-cases (str_eq other id)) [
      | inl same ↦ inl (ground (arith, e, plain, same))
      | inr differs ↦ inr (ground (arith, e, plain, differs))
    ]
  ]
]

-- Every error of the usecase is an `AppError`.
get_profile-HasApp :
    {S : Type 0} (sv : Services) (u : Option (UserRepository S)) (ctx : Context) (id : String)
    (s s' : S) (e : Error)
    → get_profile sv u ctx id s ≡ (err e, s')
    → HasApp e
unfolding get_profile available new_unavailable_error as_app new_app_error
get_profile-HasApp sv none ctx id s s' e h = HasApp-err _ e s s' h (_, refl)
get_profile-HasApp {S = S} sv (some repo) ctx id s s' e h =
    elim (require_user_access-cases {S = S} ctx id s) [
      | inr refused ↦
          let same : new_app_error 403 "you are not allowed to access this user" nil ≡ e =
            ground (arith, refused, h) in
          subst HasApp same (_, refl)
      | inl passed ↦
          let (r, t) = repo.get_by_id id s in
          elim (Result-cases r) [
            | inl (user, got) ↦ absurd (ground (arith, passed, got, h))
            | inr (x, failed) ↦
                let same : profile_error sv (some repo) x ≡ e = ground (arith, passed, failed, h) in
                subst HasApp same (profile_error-HasApp sv (some repo) x)
          ]
    ]

named-false : (id : String) → id ≢ "" → str_eq id "" ≡ false
named-false id named = ground (arith, named, eq_iff id "")

profile_not_read-IsProblem :
    {S : Type 0} (tools : UserTools) (sv : Services) (u : Option (UserRepository S))
    (req : Request (Unit {0})) (e : Error)
    → HasApp e
    → IsProblem 404 (profile_not_read tools sv u req e)
unfolding profile_not_read app_error_is
profile_not_read-IsProblem tools sv u req e (appErr, found) =
    let answer =
      send_new_problem-IsProblem {P = UserPayload} tools.site 404 "not_found"
        "Utilizador não encontrado." in
    ground (arith, found, answer)

with_sent-decoded :
    {B S : Type 0} (tools : UserTools) (req : Request B) (body : Body B)
    (rest : B → Handler UserPayload S) (b : B) (s : S)
    → body ≡ decoded b
    → with_sent tools.site req body rest s ≡ rest b s
unfolding with_sent
with_sent-decoded tools req body rest b s h = rw h refl

update_profile_handler-valid :
    {S : Type 0} (tools : UserTools) (sv : Services) (u : Option (UserRepository S))
    (req : Request User) (sent : User) (s : S)
    → req.id ≢ ""
    → req.body ≡ decoded sent
    → tools.validate_user sent ≡ none
    → update_profile_handler tools sv u req s
      ≡ respond
          (update_profile sv u req.context req.id (record sent { id = ""; role = "" }) s)
          (λ e. send_handled tools.site req e "Failed to update profile" 500 [])
          (λ done. send_response 200 (message "Profile updated successfully") [])
unfolding update_profile_handler with_id when_valid
update_profile_handler-valid tools sv u req sent s named body valid =
    let filled = named-false req.id named in
    rw filled (with_sent-decoded tools req req.body _ sent s body ∙ rw valid refl)

module _ {S : Type 0} (tools : UserTools) (sv : Services) where
  -- A profile that cannot be read is answered 404 whatever the reason: an account that is not there,
  -- a caller who may not see it, a database that fails or is not ready.
  pub get_profile_handler_404 :
      (u : Option (UserRepository S)) (req : Request (Unit {0})) (s s' : S) (e : Error)
      → req.id ≢ ""
      → get_profile sv u req.context req.id s ≡ (err e, s')
      → IsAnswered s' 404 (get_profile_handler tools sv u req s)
  unfolding get_profile_handler with_id respond
  get_profile_handler_404 u req s s' e named h =
      let filled = named-false req.id named in
      let answer =
        profile_not_read-IsProblem tools sv u req e
          (get_profile-HasApp sv u req.context req.id s s' e h) in
      rw (filled, h) (refl, answer)

  -- A caller who is neither an administrator nor the owner of an account is answered 403 when it
  -- asks to change or to delete the account or to list its subscriptions, 404 when it asks for its
  -- profile, and the state is not touched.
  pub account_refused :
      (repo : UserRepository S) (req : Request (Unit {0})) (change : Request User) (sent : User)
      (s : S)
      → req.id ≢ ""
      → ¬ MayAccess req.context req.id
      → change.id ≢ ""
      → change.body ≡ decoded sent
      → tools.validate_user sent ≡ none
      → ¬ MayAccess change.context change.id
      → IsAnswered s 404 (get_profile_handler tools sv (some repo) req s)
        × IsAnswered s 403 (delete_account_handler tools sv (some repo) req s)
        × IsAnswered s 403 (list_push_subscriptions_handler tools sv (some repo) req s)
        × IsAnswered s 403 (update_profile_handler tools sv (some repo) change s)
  unfolding delete_account_handler list_push_subscriptions_handler with_id respond as_app
      new_app_error
  account_refused repo req change sent s named closed named' body valid closed' =
      let filled = named-false req.id named in
      let sub : PushSubscription = unused in
      let (got, kept, erased, subscribed, unsubscribed, listed) =
        access_refused sv repo req.context req.id s (record sent { id = ""; role = "" }) sub ""
          closed in
      let (got', kept', erased', subscribed', unsubscribed', listed') =
        access_refused sv repo change.context change.id s (record sent { id = ""; role = "" }) sub
          "" closed' in
      (
        get_profile_handler_404 (some repo) req s s _ named got,
        rw (filled, erased)
            (refl, send_handled-IsProblem tools.site req refusal "Failed to delete account" 500 []),
        rw (filled, listed)
            (
              refl,
              send_handled-IsProblem tools.site req refusal "Failed to list push subscriptions" 500
                  [],
            ),
        subst (IsAnswered s 403)
            (sym
              (update_profile_handler-valid tools sv (some repo) change sent s named' body valid))
            (rw kept' (
              refl,
              send_handled-IsProblem tools.site change refusal "Failed to update profile" 500 [],
            )),
      )

  -- A client cannot change its role or its identifier: what it sends for them has no influence on the
  -- answer or on the state, where the validator lets both bodies through.
  pub forged_profile :
      (u : Option (UserRepository S)) (req : Request User) (sent : User) (id role : String) (s : S)
      → req.id ≢ ""
      → tools.validate_user (record sent { id = id; role = role }) ≡ none
      → tools.validate_user sent ≡ none
      → update_profile_handler tools sv u
          (with_body req (decoded (record sent { id = id; role = role })))
          s
        ≡ update_profile_handler tools sv u (with_body req (decoded sent)) s
  unfolding send_handled
  forged_profile u req sent id role s named valid valid' =
      let forged : User = record sent { id = id; role = role } in
      update_profile_handler-valid tools sv u (with_body req (decoded forged)) forged s named refl
        valid
      ∙ sym (
          update_profile_handler-valid tools sv u (with_body req (decoded sent)) sent s named refl
            valid')
