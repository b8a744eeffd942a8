-- ===== src/Beer/Tests.antt =====
-- The catalogue at concrete beers: a repository in a function, and runs of the usecases on it.
mod Usecase
mod Search
mod Moderation
mod Model
mod Controller
mod Postgres
use beer_avaliation_api.Beer.Usecase.Guards.{MayModify}
use beer_avaliation_api.Base.{
  ℕ, ◌+◌, ◌*◌, ◌/◌, ◌≤◌, ◌<◌, ◌≡◌, ◌≢◌, ◌⊎◌, inl, inr, refl, ap, sym, ◌∙◌, String, Bool, true,
  false, Option, none, some, List, [], ◌∷◌, ◌++◌, arith, str_eq, eq_iff, Option-cases, Bool-cases,
  if◌then◌else◌, All, length,
}
use beer_avaliation_api.Errors.{Error, nil, new_app_error}
use beer_avaliation_api.Results.{Result, ok, err, Exec, raise, Result-cases}
use beer_avaliation_api.Middleware.Context.{Context}
use beer_avaliation_api.User.Model.{missing}
use beer_avaliation_api.Beer.Model.{
  Beer, Comment, MediaItem, Rounding, set_rating_aggregates, set_rating_aggregates_bounds,
}
use beer_avaliation_api.Beer.Repository.{BeerRepository, EventStore}
use beer_avaliation_api.Beer.Usecase.Changes.{
  Instant, can_modify, commit, exec_comment_mutation, publish_beer_event, with_repo,
}
use beer_avaliation_api.Beer.Usecase.Refines.{CommentTable}

abbrev pub Shelf : Type 0
Shelf = String → Option Beer

abbrev stored : Option Beer → Result Beer
stored none = err (new_app_error 404 "beer not found" nil)
stored (some b) = ok b

abbrev put : String → Beer → Shelf → Shelf
put id beer s other = if str_eq other id then some beer else s other

abbrev committed : Shelf → Result (Unit {0}) × Shelf → Result (Unit {0}) × Shelf
committed s (ok u, t) = (ok tt, t)
committed s (err e, t) = (err e, s)

abbrev pub shelf_repository : BeerRepository Shelf
shelf_repository = record {
  get_all = λ s. (ok [], s);
  create = λ beer s. (ok tt, put beer.id beer s);
  get_paginated = λ page page_size s. (ok ([], 0), s);
  get_by_id = λ id s. (stored (s id), s);
  update = λ id beer s. (ok tt, put id beer s);
  remove = λ id s. (ok tt, λ other. if str_eq other id then none else s other);
  search_beers = λ filters s. (ok ([], 0, false), s);
  exec_in_tx = λ change s. committed s (change s);
  exec_in_tx_with_event = none;
}

abbrev comments_of : Option Beer → Option (List Comment)
comments_of none = none
comments_of (some b) = some b.comments

abbrev pub shelf_view : Shelf → String → Option (List Comment)
shelf_view s id = comments_of (s id)

abbrev pub no_events : Option (EventStore Shelf)
no_events = none

shelf-reads :
    (id : String) (s s' : Shelf) (beer : Beer)
    → shelf_repository.get_by_id id s ≡ (ok beer, s')
    → (shelf_view s id ≡ some beer.comments) × (shelf_view s' ≡ shelf_view s)
shelf-reads id s s' beer h = (
  elim (Option-cases (s id)) [
    | inl e ↦ absurd (ground (arith, e, h))
    | inr (b, e) ↦ ground (arith, e, h)
  ],
  ap shelf_view (sym (ap (λ (p : Result Beer × Shelf). p.1) h)),
)

shelf-writes :
    (id : String) (beer : Beer) (s s' : Shelf) (other : String)
    → shelf_repository.update id beer s ≡ (ok tt, s')
    → shelf_view s' other ≡ (if str_eq other id then some beer.comments else shelf_view s other)
shelf-writes id beer s s' other h =
    let made : put id beer s ≡ s' = ap (λ (p : Result (Unit {0}) × Shelf). p.1) h in
    rw (← made) (elim (Bool-cases (str_eq other id)) [ inl e ↦ rw e refl | inr e ↦ rw e refl ])

committed-ok :
    (s s' : Shelf) (p : Result (Unit {0}) × Shelf)
    → committed s p ≡ (ok tt, s')
    → (s₁ : Shelf) × (p ≡ (ok tt, s₁)) × (shelf_view s' ≡ shelf_view s₁)
committed-ok s s' (ok tt, t) h =
    (t, refl, ap shelf_view (sym (ap (λ (p : Result (Unit {0}) × Shelf). p.1) h)))
committed-ok s s' (err e, t) h = absurd (ground (arith, h))

pub shelf_table : CommentTable Shelf shelf_repository no_events shelf_view
unfolding publish_beer_event
shelf_table = record {
  reads = shelf-reads;
  writes = shelf-writes;
  commits = λ change s s' h.
      let (s₁, done, same) = committed-ok s s' (change s) h in (s, s₁, refl, done, same);
  commits_with = λ atomic event change s s' e h. absurd (ground (arith, e));
  publishes = λ m beer_id kind payload s. refl;
  caches = λ store event s e. absurd (ground (arith, e));
}

abbrev pub instant : Instant
instant = record {
  now = 1700000000000000000;
  beer_id = "b-new";
  event_id = "e-1";
  published_id = "e-2";
}

abbrev pub visitor : Context
visitor = record { user_id = some "ana"; role = some "user" }

abbrev pub admin : Context
admin = record { user_id = some "root"; role = some "admin" }

abbrev pub review : Comment
review = record {
  id = "c-1";
  text = "crisp";
  rating = 4;
  likes = 0;
  liked_by = [];
  created_by = "rui";
  created_at = missing;
  purchase_location = none;
  purchase_map_url = none;
}

abbrev pub pils : Beer
pils = record {
  id = "b-1";
  name = "Pils";
  style = "Pilsner";
  description = "";
  image_url = "";
  alcohol = none;
  taste = "";
  aroma = "";
  color = "";
  body = "";
  carbonation = "";
  finish = "";
  comments = review ∷ [];
  media = [];
  created_by = "rui";
  created_at = missing;
  updated_at = missing;
  purchase_location = none;
  purchase_map_url = none;
  average_rating = 0;
  total_reviews = 0;
}

abbrev pub picture : MediaItem
picture = record { url = "/media/1.png"; kind = "image/png"; size = 2048 }

abbrev pub shelf : Shelf
shelf = put "b-1" pils (λ other. none)

pub visitor-MayModify : ¬ MayModify visitor "rui"
visitor-MayModify h =
    let role : str_eq "user" "admin" ≡ false = refl in
    let user : str_eq "ana" "rui" ≡ false = refl in
    elim h [
      | inl e ↦ absurd (ground (arith, role, eq_iff "user" "admin"))
      | inr (n, e) ↦ absurd (ground (arith, user, eq_iff "ana" "rui"))
    ]
