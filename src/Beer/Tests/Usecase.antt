-- ===== src/Beer/Tests/Usecase.antt =====
-- Runs of the usecases of the catalogue (internal/beer/usecase/beer_usecase.go).
use beer_avaliation_api.Base.{
  ℕ, ◌≡◌, ◌≢◌, inl, inr, refl, Bool, true, false, none, some, List, [], ◌∷◌, ◌++◌, arith, str_eq,
  All, Bool-cases, if◌then◌else◌,
}
use mathlib.Core.Path.{subst}
use beer_avaliation_api.Errors.{nil}
use beer_avaliation_api.Results.{Result, ok}
use beer_avaliation_api.Beer.Model.{Beer, Comment}
use beer_avaliation_api.Beer.Tests.{
  Shelf, shelf_repository, shelf_view, no_events, shelf_table, instant, visitor, admin, review,
  pils, shelf,
}
use beer_avaliation_api.Beer.Usecase.Changes.{
  commit, exec_comment_mutation, publish_beer_event, with_repo,
}
use beer_avaliation_api.Beer.Usecase.Catalog.{remove}
use beer_avaliation_api.Beer.Usecase.Comments.{
  add_comment, delete_comment, like_comment, contains, liker_of, like_one, like_step, edit_comments,
  moderator_of, moderated, delete_step, cut_comment,
}
use beer_avaliation_api.Beer.Usecase.Steps.{IsFirst, IsCounted}
use beer_avaliation_api.Beer.Usecase.Community.{
  Replaces, AllCounted, like_comment-ok, like_comment_once, delete_comment-ok, add_comment-ok,
  comments-AllCounted,
}
use beer_avaliation_api.Middleware.Context.{is_admin}

abbrev emptied : Shelf
emptied other = if str_eq other "b-1" then none else shelf other

removed : remove (some shelf_repository) no_events admin instant "b-1" shelf ≡ (ok tt, emptied)
unfolding remove with_repo commit is_admin publish_beer_event
removed = refl

abbrev nothing_found : Result (List Beer × ℕ × Bool)
nothing_found = ok ([], 0, false)

abbrev liked_review : Comment
liked_review = record review { likes = 1; liked_by = "u:ana" ∷ [] }

abbrev liked_shelf : Shelf
liked_shelf other =
    if str_eq other "b-1" then some (record pils { comments = liked_review ∷ [] }) else shelf other

liked :
    like_comment (some shelf_repository) no_events instant "b-1" "c-1" "ana" "" shelf
    ≡ (ok tt, liked_shelf)
unfolding like_comment with_repo exec_comment_mutation commit edit_comments like_step like_one
    contains liker_of publish_beer_event
liked = refl

like_comment-ok_example :
    (old : List Comment) × (before : List Comment) × (c : Comment) × (after : List Comment)
    × IsFirst "c-1" old before c after
    × (contains (liker_of "ana" "") c.liked_by ≡ false)
    × Replaces
        (shelf_view shelf)
        (shelf_view liked_shelf)
        "b-1"
        old
        (before ++ (like_one (liker_of "ana" "") c ∷ after))
like_comment-ok_example =
    like_comment-ok shelf_repository no_events shelf_view shelf_table instant "b-1" "c-1" "ana" ""
      shelf liked_shelf liked

like_comment_once_example :
    like_comment (some shelf_repository) no_events instant "b-1" "c-1" "ana" "" liked_shelf
    ≢ (ok tt, liked_shelf)
like_comment_once_example =
    like_comment_once shelf_repository no_events shelf_view shelf_table instant instant "b-1" "c-1"
      "ana" "" shelf liked_shelf liked_shelf liked_shelf liked refl

abbrev silent_shelf : Shelf
silent_shelf other =
    if str_eq other "b-1" then some (record pils { comments = [] }) else shelf other

deleted :
    delete_comment (some shelf_repository) no_events admin instant "b-1" "c-1" shelf
    ≡ (ok tt, silent_shelf)
unfolding delete_comment with_repo exec_comment_mutation commit edit_comments delete_step
    cut_comment is_admin publish_beer_event
deleted = refl

delete_comment-ok_example :
    (admin.role ≡ some "admin")
    × (old : List Comment) × (before : List Comment) × (c : Comment) × (after : List Comment)
    × IsFirst "c-1" old before c after
    × Replaces (shelf_view shelf) (shelf_view silent_shelf) "b-1" old (before ++ after)
delete_comment-ok_example =
    delete_comment-ok shelf_repository no_events shelf_view shelf_table admin instant "b-1" "c-1"
      shelf silent_shelf deleted

abbrev long_shelf : Shelf
long_shelf other =
    if str_eq other "b-1"
    then some (record pils { comments = review ∷ review ∷ [] })
    else shelf other

added :
    add_comment (some shelf_repository) no_events none instant "b-1" review shelf
    ≡ (ok tt, long_shelf)
unfolding add_comment with_repo exec_comment_mutation commit edit_comments moderator_of moderated
    publish_beer_event
added = refl

add_comment-ok_example :
    (s₀ : Shelf) × (old : List Comment) × (moderator_of {S = Shelf} none review.text shelf
      ≡ ((true, nil), s₀))
    × Replaces (shelf_view s₀) (shelf_view long_shelf) "b-1" old (old ++ (review ∷ []))
add_comment-ok_example =
    add_comment-ok shelf_repository no_events shelf_view shelf_table none instant "b-1" review shelf
      long_shelf added

shelf-AllCounted : AllCounted (shelf_view shelf)
shelf-AllCounted id comments h = elim (Bool-cases (str_eq id "b-1")) [
  | inl e ↦
      let same : review ∷ [] ≡ comments = ground (arith, e) in
      subst (All IsCounted) same ((refl, tt), tt)
  | inr e ↦ absurd (ground (arith, e))
]

comments-AllCounted_example : AllCounted (shelf_view liked_shelf)
unfolding moderator_of
comments-AllCounted_example =
    comments-AllCounted shelf_repository no_events shelf_view shelf_table none visitor instant "b-1"
      "c-1" "ana" "" review shelf liked_shelf (λ text. refl) (refl, tt) shelf-AllCounted
      (inr (inr liked))
