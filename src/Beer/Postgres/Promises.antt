-- ===== src/Beer/Postgres/Promises.antt =====
-- The repository of internal/beer/repository/beer_repository.go under the usecases of
-- internal/beer/usecase/beer_usecase.go.
use beer_avaliation_api.Base.{
  ℕ, ◌≡◌, inl, inr, refl, sym, ap, ◌∙◌, String, Bool, true, false, Option, none, some, List, [],
  arith, Bool-cases, Option-cases,
}
use beer_avaliation_api.Errors.{Error, nil, new_app_error}
use beer_avaliation_api.Results.{Result, ok, err, Exec, Result-cases, ◌or_raise◌}
use beer_avaliation_api.Middleware.Context.{Context, is_admin}
use beer_avaliation_api.Beer.Model.{Beer, BeerFilters}
use beer_avaliation_api.Beer.Repository.{Event, BeerRepository, EventStore}
use beer_avaliation_api.Beer.Usecase.Changes.{
  Instant, commit, new_beer_event, publish_event_cache, publish_beer_event,
}
use beer_avaliation_api.Beer.Usecase.Catalog.{remove as remove_beer}
use beer_avaliation_api.Beer.Usecase.Refines.{CommentTable}
use beer_avaliation_api.Beer.Postgres.{Db, run_cases, find_row, get_by_id}
use beer_avaliation_api.Beer.Postgres.Statements.{insert_event, put_event, remove}
use beer_avaliation_api.Beer.Postgres.Transactions.{
  tables, transaction-ok, exec_in_tx, exec_in_tx_with_event, exec_in_tx_with_event_cases,
  postgres_repository,
}
use beer_avaliation_api.Beer.Postgres.Tables.{
  rows_view, comments_view, get_by_id-view, update-view, get_by_id-ok, get_by_id-tables, remove-ok,
}
use beer_avaliation_api.Beer.Postgres.Events.{postgres_store}

pub or_raise-ok :
    {A : Type 0} (m : Exec Db A) (f : Error → Error) (s t : Db) (a : A)
    → (m or_raise f) s ≡ (ok a, t)
    → m s ≡ (ok a, t)
or_raise-ok m f s t a h =
    let (r, u) = m s in
    elim (Result-cases r) [
      | inl (b, made) ↦ ground (arith, made, h)
      | inr (e, failed) ↦ absurd (ground (arith, failed, h))
    ]

-- A deletion and an event of the same beer cannot be committed together.
deletion_event_fails :
    (begins : Bool) (event : Event) (f : Error → Error) (id : String) (db db' : Db)
    (r : Result (Unit {0}))
    → event.beer_id ≡ id
    → exec_in_tx_with_event begins event (remove id or_raise f) db ≡ (r, db')
    → ((e : Error) × (r ≡ err e)) × (tables db' ≡ tables db)
deletion_event_fails begins event f id db db' r named h =
    elim (exec_in_tx_with_event_cases begins event (remove id or_raise f) db db' r h) [
      | inl (e, failed, same) ↦ ((e, failed), same)
      | inr (u, s, t, row, done, same, ran, found, left) ↦
          let gone = remove-ok id s t (or_raise-ok (remove id) f s t u ran) in
          absurd (ground (arith, found, gone, named))
    ]

module _ (round_tenths : ℕ → ℕ → ℕ) (begins : Bool)
    (searched : BeerFilters → Exec Db (List Beer × ℕ × Bool)) where
  abbrev repo : BeerRepository Db
  repo = postgres_repository round_tenths begins searched

  -- Where events are stored, no beer can be deleted: the row of the event would refer to a beer that
  -- the transaction has deleted. Whoever asks, the answer is an error and the tables stay as they
  -- were.
  pub remove_blocked :
      (store : EventStore Db) (ctx : Context) (m : Instant) (id : String) (db db' : Db)
      (r : Result (Unit {0}))
      → remove_beer
          (some (postgres_repository round_tenths begins searched))
          (some store)
          ctx
          m
          id
          db
        ≡ (r, db')
      → ((e : Error) × (r ≡ err e)) × (tables db' ≡ tables db)
  unfolding remove_beer commit postgres_repository new_beer_event
  remove_blocked store ctx m id db db' r h =
      let (read, db₁) = get_by_id round_tenths id db in
      let kept : tables db₁ ≡ tables db = get_by_id-tables round_tenths id db in
      let event = new_beer_event m.now m.event_id id "beer.deleted" [] in
      let (q, db₂) =
        exec_in_tx_with_event begins event
          (remove id or_raise new_app_error 500 "Failed to delete beer") db₁ in
      let ((x, blocked), same) =
        deletion_event_fails begins event (new_app_error 500 "Failed to delete beer") id db₁ db₂ q
          refl refl in
      elim (Result-cases read) [
        | inr (e, failed) ↦ ((e, ground (arith, failed, h)), ground (arith, failed, h, kept))
        | inl (found, got) ↦ elim (Bool-cases (is_admin ctx)) [
          | inr plain ↦ (
            (new_app_error 403 "only admins can delete beers" nil, ground (arith, got, plain, h)),
            ground (arith, got, plain, h, kept),
          )
          | inl admin ↦ (
            (x, ground (arith, got, admin, blocked, h)),
            ground (arith, got, admin, blocked, h, same, kept),
          )
        ]
      ]

same_beers : (s t : Db) → tables s ≡ tables t → s.beers ≡ t.beers
same_beers s t h = ground (arith, h)

insert_event-beers : (event : Event) (s : Db) → (insert_event event s).1.beers ≡ s.beers
unfolding insert_event put_event
insert_event-beers event s = elim (run_cases (put_event event) s) [
  | inl (e, faults, met) ↦ ground (arith, met)
  | inr (faults, ran) ↦ elim (Option-cases (find_row event.beer_id s.beers)) [
    | inl missed ↦ ground (arith, missed, ran)
    | inr (row, found) ↦ ground (arith, found, ran)
  ]
]

abbrev pub store_of : Bool → (List (String × String) → String) → Option (EventStore Db)
store_of true marshal = some (postgres_store marshal)
store_of false marshal = none

publishes :
    (stored : Bool) (marshal : List (String × String) → String) (m : Instant)
    (beer_id kind : String) (payload : List (String × String)) (s : Db)
    → comments_view (publish_beer_event (store_of stored marshal) m beer_id kind payload s).1
      ≡ comments_view s
unfolding publish_beer_event postgres_store new_beer_event
publishes false marshal m beer_id kind payload s = refl
publishes true marshal m beer_id kind payload s = ap rows_view (insert_event-beers _ s)

caches :
    (stored : Bool) (marshal : List (String × String) → String) (store : EventStore Db)
    (event : Event) (s : Db)
    → store_of stored marshal ≡ some store
    → comments_view (publish_event_cache store event s).1 ≡ comments_view s
unfolding publish_event_cache postgres_store
caches false marshal store event s e = absurd (ground (arith, e))
caches true marshal store event s e =
    ap
      (λ (o : Option (EventStore Db)). (elim o [
        | none ↦ comments_view s
        | some t ↦ comments_view (publish_event_cache t event s).1
      ]))
      (sym e)

commits_with :
    (begins : Bool) (event : Event) (change : Exec Db Unit) (s s' : Db)
    → exec_in_tx_with_event begins event change s ≡ (ok tt, s')
    → (s₀ : Db) × (s₁ : Db) × (comments_view s₀ ≡ comments_view s)
      × (change s₀ ≡ (ok tt, s₁))
      × (comments_view s' ≡ comments_view s₁)
commits_with begins event change s s' h =
    elim (exec_in_tx_with_event_cases begins event change s s' (ok tt) h) [
      | inl (e, failed, same) ↦ absurd (ground (arith, failed))
      | inr (u, s₀, t, row, done, same, ran, found, left) ↦
          (s₀, t, ap rows_view (same_beers s₀ s same), ran, ap rows_view (ground (arith, left)))
    ]

module _ (round_tenths : ℕ → ℕ → ℕ) (begins : Bool)
    (searched : BeerFilters → Exec Db (List Beer × ℕ × Bool)) where
  -- The repository keeps the promises of `CommentTable`, with the events in PostgreSQL or with none.
  pub postgres_table :
      (marshal : List (String × String) → String) (stored : Bool)
      → CommentTable Db
          (postgres_repository round_tenths begins searched)
          (store_of stored marshal)
          comments_view
  unfolding postgres_repository publish_beer_event publish_event_cache postgres_store exec_in_tx
      new_beer_event
  postgres_table marshal stored = record {
    reads = λ id s s' beer h. (
      get_by_id-view round_tenths id s s' beer h,
      ap rows_view (same_beers s' s (get_by_id-ok round_tenths id s s' beer h).0),
    );
    writes = λ id beer s s' other h. update-view id beer s s' other h;
    commits = λ change s s' h.
        let (s₀, t, same, done, left) = transaction-ok begins change s s' tt h in
        (s₀, t, ap rows_view (same_beers s₀ s same), done, ap rows_view (same_beers s' t left));
    commits_with = λ atomic event change s s' e h.
        let run_of : Option ((A : Type 0) → Event → Exec Db A → Exec Db A)
            → Result (Unit {0}) × Db =
          λ o. elim o [ none ↦ (ok tt, s) | some f ↦ f Unit event change s ] in
        let ran : exec_in_tx_with_event begins event change s ≡ (ok tt, s') = ap run_of e ∙ h in
        commits_with begins event change s s' ran;
    publishes = λ m beer_id kind payload s. publishes stored marshal m beer_id kind payload s;
    caches = λ store event s e. caches stored marshal store event s e;
  }
