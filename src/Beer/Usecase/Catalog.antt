-- ===== src/Beer/Usecase/Catalog.antt =====
-- Reading and changing the catalogue, and media (internal/beer/usecase/beer_usecase.go).
use beer_avaliation_api.Base.{
  ℤ, pos, ℕ, String, Bool, Option, none, some, List, [], ◌∷◌, ◌++◌, map, if◌then◌else◌, str_eq,
}
use beer_avaliation_api.Errors.{
  Error, nil, ProblemDetail, new_app_error, new_app_error_with_details,
}
use beer_avaliation_api.Results.{
  Result, ok, err, Exec, raise, pure, guard, ◌or_raise◌, try, ◌>>=◌, ◌>>◌,
}
use beer_avaliation_api.Middleware.Context.{Context, user_id_from_context, is_admin}
use beer_avaliation_api.User.Model.{format_time}
use beer_avaliation_api.Beer.Model.{Beer, MediaItem, BeerFilters}
use beer_avaliation_api.Beer.Repository.{Event, BeerRepository, EventStore}
use beer_avaliation_api.Beer.Usecase.Changes.{
  Instant, can_modify, with_repo, new_beer_event, publish_event_cache, publish_beer_event, commit,
}

-- What `Create` writes into the beer that it is given: the identifier, unless there is one, the
-- creator, if one is known, and the time.
unfoldable pub stamp : Context → Instant → Beer → Beer
stamp ctx m beer =
    let named : Beer = if str_eq beer.id "" then (record beer { id = m.beer_id }) else beer in
    let owned : Beer = elim (user_id_from_context ctx) [
      | none ↦ named
      | some uid ↦ record named { created_by = uid }
    ] in
    record owned { created_at = format_time m.now }

-- The filters of the search for beers of a similar name.
abbrev pub similar : String → BeerFilters
similar name = record {
  query = name;
  style = "";
  min_alcohol = none;
  max_alcohol = none;
  taste = "";
  page = pos 1;
  page_size = pos 5;
  fuzzy = none;
}

abbrev pub duplicate_detail : Beer → ProblemDetail
duplicate_detail b = record { field = ""; code = "duplicate_beer"; detail = b.name }

abbrev pub duplicate : List Beer → Error
duplicate existing =
    new_app_error_with_details 409 "Uma cerveja com nome semelhante já existe" "DUPLICATE_BEER"
      (map duplicate_detail existing)

unfoldable pub attach : MediaItem → Beer → Beer
attach item beer =
    let longer : Beer = record beer { media = beer.media ++ (item ∷ []) } in
    if str_eq beer.image_url "" then (record longer { image_url = item.url }) else longer

module _ {S : Type 0} (r : Option (BeerRepository S)) (events : Option (EventStore S)) where
  -- `GetAll`
  unfoldable pub get_all : Exec S (List Beer)
  unfolding with_repo
  get_all = with_repo r λ repo. repo.get_all or_raise new_app_error 500 "Failed to retrieve beers"

  -- `Create` after its search, which found no similar name.
  unfoldable pub create_new : BeerRepository S → Instant → Beer → Exec S Unit
  unfolding commit
  create_new repo m beer =
      let insert : Exec S Unit =
        repo.create beer or_raise new_app_error 500 "Failed to create beer" in
      commit repo events m
        (new_beer_event m.now m.event_id beer.id "beer.created" (("name", beer.name) ∷ [])) insert
        insert

  -- `Create` with the outcome of its search in hand; an error of the search is passed over.
  unfoldable pub create_searched :
      BeerRepository S → Instant → Beer → Result (List Beer × ℕ × Bool) → Exec S Unit
  unfolding create_new
  create_searched repo m beer (ok (b ∷ existing, total, fuzzy)) = raise (duplicate (b ∷ existing))
  create_searched repo m beer (ok ([], total, fuzzy)) = create_new repo m beer
  create_searched repo m beer (err e) = create_new repo m beer

  -- `Create`; the beer that the caller's pointer holds afterwards is `stamp ctx m beer`.
  unfoldable pub create : Context → Instant → Beer → Exec S Unit
  unfolding with_repo create_searched stamp
  create ctx m beer = with_repo r λ repo. do
    found ← try (repo.search_beers (similar beer.name))
    create_searched repo m (stamp ctx m beer) found

  -- `GetByID`
  unfoldable pub get_by_id : String → Exec S Beer
  unfolding with_repo
  get_by_id id = with_repo r λ repo. repo.get_by_id id

  -- `GetPaginated`
  unfoldable pub get_paginated : ℤ → ℤ → Exec S (List Beer × ℕ)
  unfolding with_repo
  get_paginated page page_size = with_repo r λ repo.
      repo.get_paginated page page_size
      or_raise new_app_error 500 "Failed to retrieve paginated beers"

  -- `Update`
  unfoldable pub update : Context → Instant → String → Beer → Exec S Unit
  unfolding with_repo commit
  update ctx m id beer = with_repo r λ repo. do
    existing ← repo.get_by_id id
    guard (can_modify ctx existing.created_by)
        (new_app_error 403 "you are not allowed to update this beer" nil)
    (let write : Exec S Unit =
          repo.update id beer or_raise new_app_error 500 "Failed to update beer" in
        commit repo events m
          (new_beer_event m.now m.event_id id "beer.updated" (("name", beer.name) ∷ [])) write
          write)

  -- `Delete`
  unfoldable pub remove : Context → Instant → String → Exec S Unit
  unfolding with_repo commit
  remove ctx m id = with_repo r λ repo. do
    _ ← repo.get_by_id id
    guard (is_admin ctx) (new_app_error 403 "only admins can delete beers" nil)
    (let erase : Exec S Unit = repo.remove id or_raise new_app_error 500 "Failed to delete beer" in
        commit repo events m (new_beer_event m.now m.event_id id "beer.deleted" []) erase erase)

  -- `AddMedia` of the beer that it has read and that the caller may change.
  unfoldable pub add_media_allowed :
      BeerRepository S → Instant → String → MediaItem → Beer → Exec S (List MediaItem)
  unfolding attach
  add_media_allowed repo m id item beer =
      let event = new_beer_event m.now m.event_id id "beer.media.added" (("url", item.url) ∷ []) in
      let plain : Exec S (List MediaItem) = (do
        repo.update id (attach item beer) or_raise new_app_error 500 "Failed to attach media"
        publish_beer_event events m id event.kind event.payload
        pure (attach item beer).media) in
      elim repo.exec_in_tx_with_event [
        | none ↦ plain
        | some atomic ↦ elim events [
          | none ↦ plain
          | some store ↦ do
            added ← atomic (List MediaItem) event (do
              current ← repo.get_by_id id
              repo.update id (attach item current)
              pure (attach item current).media)
            _ ← try (publish_event_cache store event)
            pure added
        ]
      ]

  -- `AddMedia`
  unfoldable pub add_media : Context → Instant → String → MediaItem → Exec S (List MediaItem)
  unfolding with_repo add_media_allowed
  add_media ctx m id item = with_repo r λ repo. do
    beer ← repo.get_by_id id
    guard (can_modify ctx beer.created_by)
        (new_app_error 403 "you are not allowed to modify this beer" nil)
    add_media_allowed repo m id item beer

  -- `SearchBeers`
  unfoldable pub search_beers : BeerFilters → Exec S (List Beer × ℕ × Bool)
  unfolding with_repo
  search_beers filters =
      with_repo r
        λ repo. repo.search_beers filters or_raise new_app_error 500 "Failed to search beers"

  -- `ListBeerEvents`, which asks for no repository.
  unfoldable pub list_beer_events : String → ℤ → Exec S (List Event)
  list_beer_events beer_id since = elim events [
    | none ↦ pure []
    | some store ↦ store.list_since beer_id since
  ]
