-- ===== src/Beer/Controller/Protected.antt =====
-- What a client of the handlers that change beers can and cannot bring about
-- (internal/beer/delivery/http/beer_controller.go).
use beer_avaliation_api.Base.{
  ◌≡◌, ◌≢◌, inl, inr, refl, String, Option, none, some, List, [], ◌∙◌, sym, arith, Option-cases,
}
use mathlib.Core.Path.{subst}
use beer_avaliation_api.Errors.{new_app_error, Error, nil, plain, as_app, AppError}
use beer_avaliation_api.Results.{Result, ok, err}
use beer_avaliation_api.User.Model.{Timestamp}
use beer_avaliation_api.Http.{
  with_body, Body, absent, undecoded, decoded, Request, Response, json, Handler, send_response,
  send_app_error, send_handled, respond, read_body,
}
use beer_avaliation_api.Http.Statuses.{
  IsProblem, IsAnswered, error_status, send_handled-IsProblem, send_app_error-IsProblem,
}
use beer_avaliation_api.Http.Validation.{Invalid, validation_message}
use beer_avaliation_api.Beer.Model.{Beer, MediaItem, Comment}
use beer_avaliation_api.Beer.Repository.{BeerRepository, EventStore, Moderator}
use beer_avaliation_api.Beer.Usecase.Changes.{Instant}
use beer_avaliation_api.Beer.Usecase.Catalog.{update}
use beer_avaliation_api.Beer.Usecase.Guards.{MayModify, changes_refused, remove_refused}
use beer_avaliation_api.Beer.Controller.{Payload, beer_payload, Tools}
use beer_avaliation_api.Beer.Controller.Writes.{
  no_body, bad_body, validate_beer, when_valid, received_beer, received_update, send_app_or_handled,
  create_beer, update_beer, delete_beer, add_comment_to_beer,
}

-- A beer with the fields that the server keeps for itself forged by a client.
abbrev pub forge : String → String → Timestamp → Timestamp → List Comment → Beer → Beer
forge id owner created updated comments beer = record beer {
  id = id;
  created_by = owner;
  created_at = created;
  updated_at = updated;
  comments = comments;
}

-- The body is refused: there is none, it is not decoded, or a check finds fault with it.
abbrev pub IsBad : {B : Type 0} → (B → Option Invalid) → Body B → Type 0
IsBad check absent = Unit
IsBad check (undecoded e) = as_app e ≡ none
IsBad check (decoded b) = (invalid : Invalid) × (check b ≡ some invalid)

-- The answer 400, from a handler that has not touched the state.
abbrev pub IsRefused : {S : Type 0} → S → Response Payload × S → Type 0
IsRefused s answer = IsAnswered s 400 answer

read_body-IsRefused :
    {B S : Type 0} (tools : Tools) (req : Request B) (check : B → Option Invalid) (body : Body B)
    (rest : B → Handler Payload S) (s : S)
    → IsBad check body
    → ((b : B) (invalid : Invalid) → check b ≡ some invalid → IsRefused s (rest b s))
    → IsRefused s (read_body body (no_body tools req) (bad_body tools req) rest s)
unfolding read_body no_body bad_body as_app
read_body-IsRefused tools req check absent rest s h k = (
  refl,
  send_handled-IsProblem tools.site req (plain "request body is empty") "Invalid request body" 400
      [],
)
read_body-IsRefused tools req check (undecoded e) rest s h k =
    let response : Response Payload = send_handled tools.site req e "Invalid request body" 400 [] in
    let answer : IsProblem (error_status e 400) response =
      send_handled-IsProblem tools.site req e "Invalid request body" 400 [] in
    let status : error_status e 400 ≡ 400 = ground (arith, h) in
    (refl, subst (λ n. IsProblem n response) status answer)
read_body-IsRefused tools req check (decoded b) rest s (invalid, h) k = k b invalid h

abbrev beer_error : Invalid → AppError
beer_error invalid = record {
  code = 400;
  detail = validation_message invalid;
  error_code = "";
  details = [];
  action = none;
  trace_id = "";
}

when_valid-IsRefused :
    {B S : Type 0} (tools : Tools) (req : Request B) (beer : Beer) (rest : Handler Payload S)
    (s : S) (invalid : Invalid)
    → tools.validate_beer beer ≡ some invalid
    → IsRefused s (when_valid tools req (validate_beer tools beer) rest s)
unfolding when_valid validate_beer as_app new_app_error
when_valid-IsRefused tools req beer rest s invalid h =
    let found : validate_beer tools beer ≡ new_app_error 400 (validation_message invalid) nil =
      rw (validate_beer, h) in
    subst (λ e. IsRefused s (when_valid tools req e rest s)) (sym found)
      (refl, send_app_error-IsProblem tools.site req (beer_error invalid))

module _ {S : Type 0} (tools : Tools) (r : Option (BeerRepository S))
    (events : Option (EventStore S)) where
  -- The identifier, the author, the times and the comments that a client sends with a new beer have
  -- no influence on the answer or on the state. Neither have the identifier, the author and the time
  -- of creation that it sends with a change.
  pub forged_fields :
      (m : Instant) (req : Request Beer) (sent : Beer) (id owner : String)
      (created updated : Timestamp) (comments : List Comment) (s : S)
      → (create_beer tools r events m
            (with_body req (decoded (forge id owner created updated comments sent)))
            s
          ≡ create_beer tools r events m (with_body req (decoded sent)) s)
        × (update_beer tools r events m
              (with_body req (decoded (forge id owner created sent.updated_at sent.comments sent)))
              s
            ≡ update_beer tools r events m (with_body req (decoded sent)) s)
  unfolding create_beer update_beer received_beer received_update no_body bad_body send_handled
      send_app_error send_app_or_handled read_body when_valid
  forged_fields m req sent id owner created updated comments s = (refl, refl)

  -- A request to create, to change or to comment whose body is missing, is not decoded or is found
  -- invalid is answered 400, and the state stays as it was.
  pub rejected_input :
      (moderator : Option (Moderator S)) (m : Instant) (id : String) (new change : Request Beer)
      (comment : Request Comment) (s : S)
      → IsBad (λ b. tools.validate_beer (received_beer tools b)) new.body
      → IsBad (λ b. tools.validate_beer (received_update tools change.id b)) change.body
      → IsBad (λ c. tools.validate_comment (record c { text = tools.sanitize c.text })) comment.body
      → IsRefused s (create_beer tools r events m new s)
        × IsRefused s (update_beer tools r events m change s)
        × IsRefused s (add_comment_to_beer tools r events moderator m id comment s)
  unfolding create_beer update_beer add_comment_to_beer as_app
  rejected_input moderator m id new change comment s h k l = (
    read_body-IsRefused tools new _ new.body _ s h
        (λ b invalid e. when_valid-IsRefused tools new _ _ s invalid e),
    read_body-IsRefused tools change _ change.body _ s k
        (λ b invalid e. when_valid-IsRefused tools change _ _ s invalid e),
    read_body-IsRefused tools comment _ comment.body _ s l (λ c invalid e. rw e (
      refl,
      send_handled-IsProblem tools.site comment (plain invalid.text) "Invalid input" 400 [],
    )),
  )

send_app_or_handled-IsProblem :
    {B : Type 0} (tools : Tools) (req : Request B) (message : String) (e : Error)
    → IsProblem (error_status e 500) (send_app_or_handled tools req message e)
unfolding send_app_or_handled
send_app_or_handled-IsProblem tools req message e = elim (Option-cases (as_app e)) [
  | inl missed ↦
      let answer = send_handled-IsProblem {P = Payload} tools.site req e message 500 [] in
      ground (arith, missed, answer)
  | inr (appErr, found) ↦
      let answer = send_app_error-IsProblem {P = Payload} tools.site req appErr in
      ground (arith, found, answer)
]

respond-IsAnswered :
    {B A S : Type 0} (tools : Tools) (req : Request B) (message : String) (result : Result A × S)
    (done : A → Response Payload) (e : Error) (s' : S)
    → result ≡ (err e, s')
    → IsAnswered s'
        (error_status e 500)
        (respond result (send_app_or_handled tools req message) done)
unfolding respond
respond-IsAnswered tools req message result done e s' h =
    subst
      (λ x.
        IsAnswered s' (error_status e 500) (respond x (send_app_or_handled tools req message) done))
      (sym h) (refl, send_app_or_handled-IsProblem tools req message e)

-- An answer with a payload is the answer to a success.
pub respond-json :
    {B A S : Type 0} (tools : Tools) (req : Request B) (message : String) (result : Result A × S)
    (done : A → Response Payload) (p : Payload)
    → (respond result (send_app_or_handled tools req message) done).0.content ≡ json p
    → (a : A) × (result ≡ (ok a, (respond result (send_app_or_handled tools req message) done).1))
unfolding respond
respond-json tools req message (ok a, s) done p h = (a, refl)
respond-json tools req message (err e, s) done p h =
    let (status, q, content, same) = send_app_or_handled-IsProblem tools req message e in
    absurd (ground (arith, content, h))

pub read_body-decoded :
    {B S : Type 0} (body : Body B) (none_given : Response Payload)
    (refuse : Error → Response Payload) (rest : B → Handler Payload S) (b : B) (s : S)
    → body ≡ decoded b
    → read_body body none_given refuse rest s ≡ rest b s
unfolding read_body
read_body-decoded body none_given refuse rest b s h = rw h refl

when_valid-none :
    {B S : Type 0} (tools : Tools) (req : Request B) (beer : Beer) (rest : Handler Payload S)
    (s : S)
    → tools.validate_beer beer ≡ none
    → when_valid tools req (validate_beer tools beer) rest s ≡ rest s
unfolding when_valid validate_beer
when_valid-none tools req beer rest s h =
    let passed : validate_beer tools beer ≡ nil = rw (validate_beer, h) in rw passed refl

module _ {S : Type 0} (tools : Tools) (repo : BeerRepository S)
    (events : Option (EventStore S)) where
  pub update_beer-valid :
      (m : Instant) (req : Request Beer) (sent : Beer) (s : S)
      → req.body ≡ decoded sent
      → tools.validate_beer (received_update tools req.id sent) ≡ none
      → update_beer tools (some repo) events m req s
        ≡ respond
            (update (some repo) events req.context m req.id (received_update tools req.id sent) s)
            (send_app_or_handled tools req "Failed to update beer")
            (λ done. send_response 200 (beer_payload (received_update tools req.id sent)) [])
  unfolding update_beer
  update_beer-valid m req sent s body valid =
      read_body-decoded req.body (no_body tools req) (bad_body tools req) _ sent s body
      ∙ when_valid-none tools req (received_update tools req.id sent) _ s valid

  -- A change by a caller who may not modify the beer, and a deletion by a caller who is no
  -- administrator, are answered 403, and nothing but the read has happened to the repository.
  pub forbidden_changes :
      (m : Instant) (change : Request Beer) (deletion : Request (Unit {0}))
      (sent found erased : Beer) (item : MediaItem) (s s₁ s₂ : S)
      → change.body ≡ decoded sent
      → tools.validate_beer (received_update tools change.id sent) ≡ none
      → repo.get_by_id change.id s ≡ (ok found, s₁)
      → ¬ MayModify change.context found.created_by
      → repo.get_by_id deletion.id s ≡ (ok erased, s₂)
      → deletion.context.role ≢ some "admin"
      → IsAnswered s₁ 403 (update_beer tools (some repo) events m change s)
        × IsAnswered s₂ 403 (delete_beer tools (some repo) events m deletion s)
  unfolding delete_beer as_app new_app_error
  forbidden_changes m change deletion sent found erased item s s₁ s₂ body valid read h read' k = (
    subst (IsAnswered s₁ 403) (sym (update_beer-valid m change sent s body valid)) (
        respond-IsAnswered tools change "Failed to update beer" _ _ _ s₁ (
          (changes_refused repo events change.context m change.id
            (received_update tools change.id sent) found item s s₁ read h).0)),
    respond-IsAnswered tools deletion "Failed to delete beer" _ _ _ s₂
        (remove_refused repo events deletion.context m deletion.id erased s s₂ read' k),
  )
