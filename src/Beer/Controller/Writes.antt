-- ===== src/Beer/Controller/Writes.antt =====
-- The handlers that change beers and their comments
-- (internal/beer/delivery/http/beer_controller.go), over the operations of the usecase.
use beer_avaliation_api.Base.{String, Option, none, some, [], ◌∷◌}
use beer_avaliation_api.Errors.{Error, nil, plain, new_app_error, as_app}
use beer_avaliation_api.Middleware.Context.{user_id_from_context}
use beer_avaliation_api.User.Model.{missing, format_time}
use beer_avaliation_api.Http.{
  Request, Response, Handler, empty, send_response, send_app_error, send_handled, read_body,
  respond,
}
use beer_avaliation_api.Http.Validation.{validation_message}
use beer_avaliation_api.Beer.Model.{Beer, Comment}
use beer_avaliation_api.Beer.Repository.{BeerRepository, EventStore, Moderator}
use beer_avaliation_api.Beer.Usecase.Changes.{Instant}
use beer_avaliation_api.Beer.Usecase.Catalog.{create, stamp, update, remove}
use beer_avaliation_api.Beer.Usecase.Comments.{add_comment, delete_comment, like_comment}
use beer_avaliation_api.Beer.Controller.{Payload, beer_payload, fields, Tools}

-- `if errors.As(err, &appErr) { sendAppError(…) } else { handleError(…, 500) }`
unfoldable pub send_app_or_handled {ℓ} :
    {B : Type ℓ} → Tools → Request B → String → Error → Response Payload
send_app_or_handled tools req message e = elim (as_app e) [
  | some appErr ↦ send_app_error tools.site req appErr
  | none ↦ send_handled tools.site req e message 500 []
]

-- The answers to a request without a body, and to one that is not decoded.
unfoldable pub no_body {ℓ} : {B : Type ℓ} → Tools → Request B → Response Payload
no_body tools req =
    send_handled tools.site req (plain "request body is empty") "Invalid request body" 400 []

unfoldable pub bad_body {ℓ} : {B : Type ℓ} → Tools → Request B → Error → Response Payload
bad_body tools req e = send_handled tools.site req e "Invalid request body" 400 []

-- `validateBeer`
unfoldable pub validate_beer : Tools → Beer → Error
unfolding validation_message
validate_beer tools beer = elim (tools.validate_beer beer) [
  | none ↦ nil
  | some invalid ↦ new_app_error 400 (validation_message invalid) nil
]

-- `if err := c.validateBeer(beer); err != nil { … }`, and the rest.
unfoldable pub when_valid {ℓ} :
    {B : Type ℓ} {S : Type 0} → Tools → Request B → Error → Handler Payload S → Handler Payload S
unfolding as_app
when_valid tools req nil rest s = rest s
when_valid tools req e rest s = (
  elim (as_app e) [
    | some appErr ↦ send_app_error tools.site req appErr
    | none ↦ send_handled tools.site req e "Invalid beer" 400 []
  ],
  s,
)

-- What `CreateBeer` keeps of the beer that a client sends.
unfoldable pub received_beer : Tools → Beer → Beer
received_beer tools beer = record beer {
  comments = [];
  id = "";
  created_by = "";
  created_at = missing;
  updated_at = missing;
  name = tools.sanitize beer.name;
  description = tools.sanitize beer.description;
}

-- What `UpdateBeer` keeps of it.
unfoldable pub received_update : Tools → String → Beer → Beer
received_update tools id beer = record beer {
  id = id;
  created_by = "";
  created_at = missing;
  name = tools.sanitize beer.name;
  description = tools.sanitize beer.description;
}

-- The comment that `AddComment` passes on, of the one that a client sends with its text sanitized.
unfoldable pub received_comment {ℓ} :
    {B : Type ℓ} → Request B → Instant → String → Comment → Comment
received_comment req m id comment =
    let fresh : Comment = record comment { id = id; likes = 0 } in
    let owned : Comment = elim (user_id_from_context req.context) [
      | none ↦ fresh
      | some uid ↦ record fresh { created_by = uid }
    ] in
    record owned { created_at = format_time m.now }

module _ {S : Type 0} (tools : Tools) (r : Option (BeerRepository S))
    (events : Option (EventStore S)) where
  -- `CreateBeer`
  unfoldable pub create_beer : Instant → Request Beer → Handler Payload S
  unfolding received_beer validate_beer when_valid create stamp
  create_beer m req = read_body req.body (no_body tools req) (bad_body tools req) λ sent.
      let beer = received_beer tools sent in
      when_valid tools req (validate_beer tools beer) λ s.
        respond (create r events req.context m beer s)
          (send_app_or_handled tools req "Failed to create beer")
          λ done. send_response 201 (beer_payload (stamp req.context m beer)) []

  -- `UpdateBeer`
  unfoldable pub update_beer : Instant → Request Beer → Handler Payload S
  unfolding received_update validate_beer when_valid update
  update_beer m req = read_body req.body (no_body tools req) (bad_body tools req) λ sent.
      let beer = received_update tools req.id sent in
      when_valid tools req (validate_beer tools beer) λ s.
        respond (update r events req.context m req.id beer s)
          (send_app_or_handled tools req "Failed to update beer")
          λ done. send_response 200 (beer_payload beer) []

  -- `DeleteBeer`
  unfoldable pub delete_beer : Instant → Request (Unit {0}) → Handler Payload S
  unfolding remove
  delete_beer m req s =
      respond (remove r events req.context m req.id s)
        (send_app_or_handled tools req "Failed to delete beer")
        λ done. record { status = 204; headers = []; content = empty }

  -- `AddComment`; the new identifier is drawn before the usecase draws its own.
  unfoldable pub add_comment_to_beer :
      Option (Moderator S) → Instant → String → Request Comment → Handler Payload S
  unfolding received_comment add_comment
  add_comment_to_beer moderator m id req =
      read_body req.body (no_body tools req) (bad_body tools req) λ sent s.
        let clean : Comment = record sent { text = tools.sanitize sent.text } in
        let comment = received_comment req m id clean in
        elim (tools.validate_comment clean) [
          | some invalid ↦
              (send_handled tools.site req (plain invalid.text) "Invalid input" 400 [], s)
          | none ↦
              respond (add_comment r events moderator m req.id comment s)
                (λ e. send_handled tools.site req e "Failed to add comment" 500 [])
                λ done.
                  send_response 200
                    (fields
                      (("message", "Comment added successfully") ∷ ("commentId", comment.id) ∷ []))
                    []
        ]

  -- `DeleteComment`
  unfoldable pub delete_beer_comment : Instant → Request (Unit {0}) → Handler Payload S
  unfolding delete_comment
  delete_beer_comment m req s =
      respond (delete_comment r events req.context m req.id req.comment_id s)
        (send_app_or_handled tools req "Failed to delete comment")
        λ done. send_response 200 (fields (("message", "Comment deleted successfully") ∷ [])) []

  -- `LikeComment`
  unfoldable pub like_beer_comment : Instant → Request (Unit {0}) → Handler Payload S
  unfolding like_comment
  like_beer_comment m req s =
      let user_id : String = elim (user_id_from_context req.context) [
        | none ↦ ""
        | some uid ↦ uid
      ] in
      respond (like_comment r events m req.id req.comment_id user_id "" s)
        (send_app_or_handled tools req "Failed to like comment")
        λ done. send_response 200 (fields (("message", "Comment liked successfully") ∷ [])) []
