-- ===== src/Beer/Usecase/Comments.antt =====
-- Adding, deleting and liking comments (internal/beer/usecase/beer_usecase.go).
use beer_avaliation_api.Base.{
  ◌+◌, String, Bool, true, false, not, Option, none, some, List, [], ◌∷◌, ◌++◌, if◌then◌else◌,
  str_eq,
}
use Prim.Native.String.{◌++◌ as str_append}
use beer_avaliation_api.Errors.{Error, nil, new_app_error, new_app_error_with_code}
use beer_avaliation_api.Results.{Result, ok, err, Exec, lift, ◌or_raise◌, ◌>>=◌, ◌>>◌}
use beer_avaliation_api.Middleware.Context.{Context, is_admin}
use beer_avaliation_api.Beer.Model.{Comment}
use beer_avaliation_api.Beer.Repository.{BeerRepository, EventStore, Moderator}
use beer_avaliation_api.Beer.Usecase.Changes.{
  Instant, with_repo, new_beer_event, exec_comment_mutation,
}

-- The shape of the three functions that change a beer's comments in a transaction: read the beer,
-- change the comments or stop, write the beer.
unfoldable pub edit_comments :
    {S : Type 0}
    → BeerRepository S
    → String
    → String
    → (List Comment → Result (List Comment))
    → Exec S Unit
edit_comments repo id failure step = do
  beer ← repo.get_by_id id or_raise new_app_error 404 "Beer not found"
  comments ← lift (step beer.comments)
  repo.update id (record beer { comments = comments }) or_raise new_app_error 500 failure

-- The loop of `DeleteComment`: the comments without the first of the identifier, `none` if there is
-- no such comment.
unfoldable pub cut_comment : String → List Comment → Option (List Comment)
cut_comment comment_id [] = none
cut_comment comment_id (c ∷ cs) =
    let rest = cut_comment comment_id cs in
    if str_eq c.id comment_id
    then some cs
    else elim rest [ none ↦ none | some others ↦ some (c ∷ others) ]

-- The body of `DeleteComment` between its read and its write; the search comes before the guard.
unfoldable pub delete_step : Context → String → List Comment → Result (List Comment)
delete_step ctx comment_id comments = elim (cut_comment comment_id comments) [
  | none ↦ err (new_app_error 404 "comment not found" nil)
  | some others ↦
      if not (is_admin ctx)
      then err (new_app_error 403 "only admins can delete comments" nil)
      else ok others
]

unfoldable pub contains : String → List String → Bool
contains x [] = false
contains x (y ∷ ys) = let rest = contains x ys in if str_eq y x then true else rest

-- Who likes: the user under a prefix, or the device of an anonymous request.
unfoldable pub liker_of : String → String → String
liker_of user_id device_id = if not (str_eq user_id "") then str_append "u:" user_id else device_id

unfoldable pub like_one : String → Comment → Comment
like_one liker c = record c { likes = c.likes + 1; liked_by = c.liked_by ++ (liker ∷ []) }

-- The loop of `LikeComment`.
unfoldable pub like_step : String → String → List Comment → Result (List Comment)
unfolding like_one
like_step liker comment_id [] = err (new_app_error 404 "Comment not found" nil)
like_step liker comment_id (c ∷ cs) =
    let rest = like_step liker comment_id cs in
    if str_eq c.id comment_id
    then (if contains liker c.liked_by
        then err (new_app_error 400 "already liked" nil)
        else ok (like_one liker c ∷ cs))
    else elim rest [ ok others ↦ ok (c ∷ others) | err e ↦ err e ]

-- `NewNoopModerator`, which `NewBeerUsecase` puts in place of no moderator.
abbrev pub noop_moderator : {S : Type 0} → Moderator S
noop_moderator text s = ((true, nil), s)

unfoldable pub moderator_of : {S : Type 0} → Option (Moderator S) → Moderator S
moderator_of none = noop_moderator
moderator_of (some moderator) = moderator

-- What `AddComment` makes of the moderator's two answers.
unfoldable pub moderated : {S : Type 0} → (Bool × Error) × S → Result (Unit {0}) × S
moderated ((false, e), s) = (
  err (
      new_app_error_with_code 422 "O comentário viola as diretrizes de conteúdo da comunidade."
        "INAPPROPRIATE_CONTENT"),
  s,
)
moderated ((true, nil), s) = (ok tt, s)
moderated ((true, e), s) = (err (new_app_error 500 "Moderation check failed" e), s)

module _ {S : Type 0} (r : Option (BeerRepository S)) (events : Option (EventStore S)) where
  -- `AddComment`
  unfoldable pub add_comment : Option (Moderator S) → Instant → String → Comment → Exec S Unit
  unfolding with_repo exec_comment_mutation
  add_comment moderator m id comment = with_repo r λ repo. do
    λ s. moderated (moderator_of moderator comment.text s)
    exec_comment_mutation repo events m
        (new_beer_event m.now m.event_id id "comment.added" (("commentId", comment.id) ∷ []))
        (edit_comments repo id "Failed to update beer with new comment"
          λ comments. ok (comments ++ (comment ∷ [])))

  -- `DeleteComment`
  unfoldable pub delete_comment : Context → Instant → String → String → Exec S Unit
  unfolding with_repo exec_comment_mutation
  delete_comment ctx m id comment_id = with_repo r λ repo.
      exec_comment_mutation repo events m
        (new_beer_event m.now m.event_id id "comment.deleted" (("commentId", comment_id) ∷ []))
        (edit_comments repo id "Failed to update beer after deleting comment"
          (delete_step ctx comment_id))

  -- `LikeComment`
  unfoldable pub like_comment : Instant → String → String → String → String → Exec S Unit
  unfolding with_repo exec_comment_mutation
  like_comment m beer_id comment_id user_id device_id = with_repo r λ repo.
      exec_comment_mutation repo events m
        (new_beer_event m.now m.event_id beer_id "comment.liked" (("commentId", comment_id) ∷ []))
        (edit_comments repo beer_id "Failed to update comment likes"
          (like_step (liker_of user_id device_id) comment_id))
