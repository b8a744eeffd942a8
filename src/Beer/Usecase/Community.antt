-- ===== src/Beer/Usecase/Community.antt =====
-- What adding, deleting and liking a comment have done when they succeed
-- (internal/beer/usecase/beer_usecase.go).
use beer_avaliation_api.Base.{
  ◌≡◌, ◌≢◌, ◌⊎◌, inl, inr, String, Bool, true, false, Option, some, List, [], ◌∷◌, ◌++◌, arith, sym,
  eq_iff, str_eq, if◌then◌else◌, All, All-append, Bool-cases,
}
use mathlib.Core.Path.{subst}
use beer_avaliation_api.Errors.{Error, nil, sentinel, plain, wrap, app}
use beer_avaliation_api.Results.{ok, Result-cases}
use beer_avaliation_api.Middleware.Context.{Context}
use beer_avaliation_api.Beer.Model.{Comment}
use beer_avaliation_api.Beer.Repository.{BeerRepository, EventStore, Moderator}
use beer_avaliation_api.Beer.Usecase.Changes.{Instant, new_beer_event}
use beer_avaliation_api.Beer.Usecase.Comments.{
  contains, liker_of, like_one, like_step, cut_comment, moderator_of, moderated, add_comment,
  delete_comment, like_comment,
}
use beer_avaliation_api.Beer.Usecase.Refines.{CommentTable, mutation-edit_comments}
use beer_avaliation_api.Beer.Usecase.Steps.{
  IsFirst, IsCounted, cut_comment-some, cut_comment-All, delete_step-ok, like_step-ok,
  like_step_twice, like_step-IsCounted,
}

moderated-ok :
    {S : Type 0} (answer : (Bool × Error) × S) (s : S)
    → moderated answer ≡ (ok tt, s)
    → answer ≡ ((true, nil), s)
unfolding moderated
moderated-ok ((false, e), t) s h = absurd (ground (arith, h))
moderated-ok ((true, nil), t) s h = ground (arith, h)
moderated-ok ((true, sentinel e), t) s h = absurd (ground (arith, h))
moderated-ok ((true, plain e), t) s h = absurd (ground (arith, h))
moderated-ok ((true, wrap e x), t) s h = absurd (ground (arith, h))
moderated-ok ((true, app e x), t) s h = absurd (ground (arith, h))

-- The comments of the beer `id` went from `old` to `new`, and those of no other beer changed.
pub record Replaces (view view' : String → Option (List Comment)) (id : String)
    (old new : List Comment) : Type 0 where
  pub held : view id ≡ some old
  pub set : (other : String) → view' other ≡ (if str_eq other id then some new else view other)

abbrev pub AllCounted : (String → Option (List Comment)) → Type 0
AllCounted view =
    (id : String) (comments : List Comment) → view id ≡ some comments → All IsCounted comments

Replaces-AllCounted :
    (view view' : String → Option (List Comment)) (id : String) (old new : List Comment)
    → Replaces view view' id old new
    → (All IsCounted old → All IsCounted new)
    → AllCounted view
    → AllCounted view'
Replaces-AllCounted view view' id old new change keep counted other comments h =
    elim (Bool-cases (str_eq other id)) [
      | inl same ↦
          let reached : new ≡ comments = (ground (arith, same, h, change.set other)) in
          subst (All IsCounted) reached (keep (counted id old change.held))
      | inr differs ↦ counted other comments (ground (arith, differs, h, change.set other))
    ]

module _ {S : Type 0} (repo : BeerRepository S) (events : Option (EventStore S))
    (view : S → String → Option (List Comment)) (table : CommentTable S repo events view) where
  like_comment-steps :
      (m : Instant) (beer_id comment_id user_id device_id : String) (s s' : S)
      → like_comment (some repo) events m beer_id comment_id user_id device_id s ≡ (ok tt, s')
      → (old : List Comment) × (new : List Comment) × (like_step
            (liker_of user_id device_id)
            comment_id
            old
          ≡ ok new)
        × Replaces (view s) (view s') beer_id old new
  unfolding like_comment
  like_comment-steps m beer_id comment_id user_id device_id s s' h =
      let (old, new, held, made, set) =
        mutation-edit_comments repo events view table m _ beer_id _ _ s s' h in
      (old, new, made, record { held = held; set = set })

  -- A like that succeeds has changed one comment of one beer: the first one of the identifier, which
  -- the liker did not like before, has one more like and the liker at the end of those who like it.
  pub like_comment-ok :
      (m : Instant) (beer_id comment_id user_id device_id : String) (s s' : S)
      → like_comment (some repo) events m beer_id comment_id user_id device_id s ≡ (ok tt, s')
      → (old : List Comment) × (before : List Comment) × (c : Comment) × (after : List Comment)
        × IsFirst comment_id old before c after
        × (contains (liker_of user_id device_id) c.liked_by ≡ false)
        × Replaces
            (view s)
            (view s')
            beer_id
            old
            (before ++ (like_one (liker_of user_id device_id) c ∷ after))
  like_comment-ok m beer_id comment_id user_id device_id s s' h =
      let (old, new, made, change) =
        like_comment-steps m beer_id comment_id user_id device_id s s' h in
      let (before, c, after, first, fresh, e) = like_step-ok _ comment_id old new made in
      (
        old,
        before,
        c,
        after,
        first,
        fresh,
        subst (Replaces (view s) (view s') beer_id old) e change,
      )

  -- Once a like has succeeded, no second like of the same comment succeeds for the same user, or
  -- for the same device of an anonymous request, while the comments are as the first like left them.
  pub like_comment_once :
      (m m' : Instant) (beer_id comment_id user_id device_id : String) (s s' t t' : S)
      → like_comment (some repo) events m beer_id comment_id user_id device_id s ≡ (ok tt, s')
      → view t ≡ view s'
      → like_comment (some repo) events m' beer_id comment_id user_id device_id t ≢ (ok tt, t')
  like_comment_once m m' beer_id comment_id user_id device_id s s' t t' h same again =
      let (old, new, made, change) =
        like_comment-steps m beer_id comment_id user_id device_id s s' h in
      let (old', new', made', change') =
        like_comment-steps m' beer_id comment_id user_id device_id t t' again in
      ground (
        arith,
        same,
        made,
        made',
        change.set beer_id,
        change'.held,
        eq_iff beer_id beer_id,
        like_step_twice (liker_of user_id device_id) comment_id old new made,
      )

  delete_comment-steps :
      (ctx : Context) (m : Instant) (id comment_id : String) (s s' : S)
      → delete_comment (some repo) events ctx m id comment_id s ≡ (ok tt, s')
      → (ctx.role ≡ some "admin")
        × (old : List Comment) × (new : List Comment) × (cut_comment comment_id old ≡ some new)
        × Replaces (view s) (view s') id old new
  unfolding delete_comment
  delete_comment-steps ctx m id comment_id s s' h =
      let (old, new, held, made, set) =
        mutation-edit_comments repo events view table m _ id _ _ s s' h in
      let (admin, cut) = delete_step-ok ctx comment_id old new made in
      (admin, old, new, cut, record { held = held; set = set })

  -- A deletion of a comment that succeeds was asked for by an administrator, and has taken out one
  -- comment of one beer: the first one of the identifier.
  pub delete_comment-ok :
      (ctx : Context) (m : Instant) (id comment_id : String) (s s' : S)
      → delete_comment (some repo) events ctx m id comment_id s ≡ (ok tt, s')
      → (ctx.role ≡ some "admin")
        × (old : List Comment) × (before : List Comment) × (c : Comment) × (after : List Comment)
        × IsFirst comment_id old before c after
        × Replaces (view s) (view s') id old (before ++ after)
  delete_comment-ok ctx m id comment_id s s' h =
      let (admin, old, new, cut, change) = delete_comment-steps ctx m id comment_id s s' h in
      let (before, c, after, first, e) = cut_comment-some comment_id old new cut in
      (admin, old, before, c, after, first, subst (Replaces (view s) (view s') id old) e change)

  -- A comment that is added was let through by the moderator, and stands at the end of the beer's
  -- comments as they were after the moderator's answer; no other beer changed.
  pub add_comment-ok :
      (moderator : Option (Moderator S)) (m : Instant) (id : String) (comment : Comment) (s s' : S)
      → add_comment (some repo) events moderator m id comment s ≡ (ok tt, s')
      → (s₀ : S) × (old : List Comment) × (moderator_of moderator comment.text s
          ≡ ((true, nil), s₀))
        × Replaces (view s₀) (view s') id old (old ++ (comment ∷ []))
  unfolding add_comment
  add_comment-ok moderator m id comment s s' h =
      let (r, s₀) = moderated (moderator_of moderator comment.text s) in
      elim (Result-cases r) [
        | inr (x, e) ↦ absurd (ground (arith, e))
        | inl (_, e) ↦
            let event =
              new_beer_event m.now m.event_id id "comment.added" (("commentId", comment.id) ∷ []) in
            let (old, new, held, made, set) =
              mutation-edit_comments repo events view table m event id
                "Failed to update beer with new comment"
                (λ comments. ok (comments ++ (comment ∷ []))) s₀ s' (ground (arith, e)) in
            (
              s₀,
              old,
              moderated-ok (moderator_of moderator comment.text s) s₀ (ground (arith, e)),
              record { held = held; set = λ other. ground (arith, made, set other) },
            )
      ]

  -- While every comment has as many likes as names that like it, none of them twice, so it is after
  -- an added comment that has it so, after a deletion and after a like, provided the moderator
  -- changes no beer.
  pub comments-AllCounted :
      (moderator : Option (Moderator S)) (ctx : Context) (m : Instant)
      (id comment_id user_id device_id : String) (comment : Comment) (s s' : S)
      → ((text : String) → view (moderator_of moderator text s).1 ≡ view s)
      → IsCounted comment
      → AllCounted (view s)
      → (add_comment (some repo) events moderator m id comment s ≡ (ok tt, s'))
        ⊎ (delete_comment (some repo) events ctx m id comment_id s ≡ (ok tt, s'))
        ⊎ (like_comment (some repo) events m id comment_id user_id device_id s ≡ (ok tt, s'))
      → AllCounted (view s')
  comments-AllCounted moderator ctx m id comment_id user_id device_id comment s s' quiet fine
        counted (inl h) =
      let (s₀, old, answer, change) = add_comment-ok moderator m id comment s s' h in
      let kept : view s₀ ≡ view s = ground (arith, answer, quiet comment.text) in
      Replaces-AllCounted (view s₀) (view s') id old (old ++ (comment ∷ [])) change
        (λ k. All-append IsCounted old (comment ∷ []) k (fine, tt))
        (subst AllCounted (sym kept) counted)
  comments-AllCounted moderator ctx m id comment_id user_id device_id comment s s' quiet fine
        counted (inr (inl h)) =
      let (admin, old, new, cut, change) = delete_comment-steps ctx m id comment_id s s' h in
      Replaces-AllCounted (view s) (view s') id old new change
        (cut_comment-All IsCounted comment_id old new cut) counted
  comments-AllCounted moderator ctx m id comment_id user_id device_id comment s s' quiet fine
        counted (inr (inr h)) =
      let (old, new, made, change) = like_comment-steps m id comment_id user_id device_id s s' h in
      Replaces-AllCounted (view s) (view s') id old new change
        (like_step-IsCounted (liker_of user_id device_id) comment_id old new made) counted
