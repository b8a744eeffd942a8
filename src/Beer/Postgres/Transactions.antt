-- ===== src/Beer/Postgres/Transactions.antt =====
-- `ExecInTx` and `ExecInTxWithEvent` of internal/beer/repository/beer_repository.go, and the
-- repository as the usecases take it.
use beer_avaliation_api.Base.{
  ℕ, ◌≡◌, ◌⊎◌, inl, inr, refl, Bool, true, false, Option, some, List, [], ◌∷◌, ◌++◌, arith,
  Option-cases,
}
use beer_avaliation_api.Errors.{Error, new_unavailable_error}
use beer_avaliation_api.Results.{Result, ok, err, Exec, Result-cases}
use beer_avaliation_api.Beer.Model.{Beer, BeerFilters}
use beer_avaliation_api.Beer.Repository.{Event, BeerRepository}
use beer_avaliation_api.Beer.Moderation.{BeerReport, BeerDeletionRequest}
use beer_avaliation_api.Beer.Postgres.Pages.{get_paginated}
use beer_avaliation_api.Beer.Postgres.{Row, Db, run, run_cases, find_row, get_by_id, get_all}
use beer_avaliation_api.Beer.Postgres.Statements.{put_event, create, update, remove, insert_event}

-- `tx.Rollback`: the tables are as before; the faults that were met stay met.
abbrev pub rolled_back : Db → Db → Db
rolled_back before after = record after {
  beers = before.beers;
  events = before.events;
  reports = before.reports;
  requests = before.requests;
}

-- `BeginTx` and `Commit`: nothing of the tables, but a statement each.
unfoldable pub begin_tx : Exec Db Unit
unfolding run
begin_tx = run λ db. (ok tt, db)

unfoldable pub commit_tx : Exec Db Unit
unfolding run
commit_tx = run λ db. (ok tt, db)

-- Either meets a fault or goes through.
abbrev Sent : (Exec Db Unit) → Db → Type 0
Sent m db =
    ((e : Error) × (faults : List (Option Error)) × (m db ≡ (err e, record db { faults = faults })))
    ⊎ ((faults : List (Option Error)) × (m db ≡ (ok tt, record db { faults = faults })))

begin_tx_cases : (db : Db) → Sent begin_tx db
unfolding begin_tx
begin_tx_cases db = run_cases (λ d. (ok tt, d)) db

commit_tx_cases : (db : Db) → Sent commit_tx db
unfolding commit_tx
commit_tx_cases db = run_cases (λ d. (ok tt, d)) db

-- The end of a transaction that has done `done`, from the state before it.
abbrev finish_commit : {A : Type 0} → Db → A → Result (Unit {0}) × Db → Result A × Db
finish_commit before a (ok u, db) = (ok a, db)
finish_commit before a (err e, db) = (err e, rolled_back before db)

abbrev finish : {A : Type 0} → Db → Result A × Db → Result A × Db
finish before (ok a, db) = finish_commit before a (commit_tx db)
finish before (err e, db) = (err e, rolled_back before db)

abbrev within : {A : Type 0} → Exec Db A → Result (Unit {0}) × Db → Result A × Db
within body (ok u, db) = finish db (body db)
within body (err e, db) = (err e, db)

-- A transaction around a body; `begins` says that the handle of the repository has `BeginTx`, which
-- the one within a transaction has not.
unfoldable pub transaction : {A : Type 0} → Bool → Exec Db A → Exec Db A
transaction false body db = (err new_unavailable_error, db)
transaction true body db = within body (begin_tx db)

-- `ExecInTx`
unfoldable pub exec_in_tx : Bool → Exec Db Unit → Exec Db Unit
unfolding transaction
exec_in_tx begins fn = transaction begins fn

abbrev then_insert : {A : Type 0} → Event → Result A × Db → Result A × Db
unfolding insert_event
then_insert event (err e, db) = (err e, db)
then_insert event (ok a, db) =
    let (r, db') = insert_event event db in elim r [ ok u ↦ (ok a, db') | err e ↦ (err e, db') ]

-- `ExecInTxWithEvent`
unfoldable pub exec_in_tx_with_event : {A : Type 0} → Bool → Event → Exec Db A → Exec Db A
unfolding transaction insert_event
exec_in_tx_with_event begins event fn = transaction begins λ db. then_insert event (fn db)

-- The repository; `searched` stands for `SearchBeers`.
unfoldable pub postgres_repository :
    (ℕ → ℕ → ℕ) → Bool → (BeerFilters → Exec Db (List Beer × ℕ × Bool)) → BeerRepository Db
unfolding get_by_id get_all get_paginated create update remove exec_in_tx exec_in_tx_with_event
postgres_repository round_tenths begins searched = record {
  get_all = get_all round_tenths;
  create = create;
  get_paginated = get_paginated round_tenths;
  get_by_id = get_by_id round_tenths;
  update = update;
  remove = remove;
  search_beers = searched;
  exec_in_tx = exec_in_tx begins;
  exec_in_tx_with_event = some (λ A event fn. exec_in_tx_with_event begins event fn);
}

-- What the tables hold.
abbrev pub tables : Db → List Row × List Event × List BeerReport × List BeerDeletionRequest
tables db = (db.beers, db.events, db.reports, db.requests)

finish-err :
    {A : Type 0} (before : Db) (done : Result A × Db) (e : Error) (db' : Db)
    → finish before done ≡ (err e, db')
    → tables db' ≡ tables before
finish-err before (err x, db) e db' h = ground (arith, h)
finish-err before (ok a, db) e db' h = elim (commit_tx_cases db) [
  | inl (x, faults, met) ↦ ground (arith, met, h)
  | inr (faults, ran) ↦ absurd (ground (arith, ran, h))
]

finish-ok :
    {A : Type 0} (before : Db) (done : Result A × Db) (a : A) (db' : Db)
    → finish before done ≡ (ok a, db')
    → (t : Db) × (done ≡ (ok a, t)) × (tables db' ≡ tables t)
finish-ok before (err x, db) a db' h = absurd (ground (arith, h))
finish-ok before (ok b, db) a db' h = elim (commit_tx_cases db) [
  | inl (x, faults, met) ↦ absurd (ground (arith, met, h))
  | inr (faults, ran) ↦ (db, ground (arith, ran, h), ground (arith, ran, h))
]

-- A transaction that fails leaves the tables as they were.
pub transaction-err :
    {A : Type 0} (begins : Bool) (body : Exec Db A) (db db' : Db) (e : Error)
    → transaction begins body db ≡ (err e, db')
    → tables db' ≡ tables db
unfolding transaction
transaction-err false body db db' e h = ground (arith, h)
transaction-err true body db db' e h = elim (begin_tx_cases db) [
  | inl (x, faults, met) ↦ ground (arith, met, h)
  | inr (faults, ran) ↦
      let start : Db = record db { faults = faults } in
      finish-err start (body start) e db' (ground (arith, ran, h))
]

-- One that does not has run its body on the tables, and they are as the body left them.
pub transaction-ok :
    {A : Type 0} (begins : Bool) (body : Exec Db A) (db db' : Db) (a : A)
    → transaction begins body db ≡ (ok a, db')
    → (s : Db) × (t : Db) × (tables s ≡ tables db) × (body s ≡ (ok a, t)) × (tables db' ≡ tables t)
unfolding transaction
transaction-ok false body db db' a h = absurd (ground (arith, h))
transaction-ok true body db db' a h = elim (begin_tx_cases db) [
  | inl (x, faults, met) ↦ absurd (ground (arith, met, h))
  | inr (faults, ran) ↦
      let start : Db = record db { faults = faults } in
      let (t, done, same) = finish-ok start (body start) a db' (ground (arith, ran, h)) in
      (start, t, refl, done, same)
]

insert_event-ok :
    (event : Event) (db db' : Db)
    → insert_event event db ≡ (ok tt, db')
    → ((row : Row) × (find_row event.beer_id db.beers ≡ some row))
      × (db'.beers ≡ db.beers)
      × (db'.reports ≡ db.reports)
      × (db'.requests ≡ db.requests)
      × (db'.events ≡ db.events ++ (event ∷ []))
unfolding insert_event put_event
insert_event-ok event db db' h = elim (run_cases (put_event event) db) [
  | inl (e, faults, met) ↦ absurd (ground (arith, met, h))
  | inr (faults, ran) ↦ elim (Option-cases (find_row event.beer_id db.beers)) [
    | inl missed ↦ absurd (ground (arith, missed, ran, h))
    | inr (row, found) ↦ (
      (row, found),
      ground (arith, found, ran, h),
      ground (arith, found, ran, h),
      ground (arith, found, ran, h),
      ground (arith, found, ran, h),
    )
  ]
]

-- A change and its event are one: if either fails, the tables are as they were; if neither does, the
-- beers are as the change left them and the event stands after the events that it left, and its
-- beer is there.
pub exec_in_tx_with_event_cases :
    {A : Type 0} (begins : Bool) (event : Event) (fn : Exec Db A) (db db' : Db) (r : Result A)
    → exec_in_tx_with_event begins event fn db ≡ (r, db')
    → ((e : Error) × (r ≡ err e) × (tables db' ≡ tables db))
      ⊎ ((a : A) × (s : Db) × (t : Db) × (row : Row) × (r ≡ ok a)
          × (tables s ≡ tables db)
          × (fn s ≡ (ok a, t))
          × (find_row event.beer_id t.beers ≡ some row)
          × (tables db' ≡ (t.beers, t.events ++ (event ∷ []), t.reports, t.requests)))
unfolding exec_in_tx_with_event
exec_in_tx_with_event_cases begins event fn db db' (err e) h =
    inl (e, refl, transaction-err begins (λ d. then_insert event (fn d)) db db' e h)
exec_in_tx_with_event_cases begins event fn db db' (ok a) h =
    let (s, u, same, done, left) =
      transaction-ok begins (λ d. then_insert event (fn d)) db db' a h in
    let (r, t) = fn s in
    elim (Result-cases r) [
      | inr (e, failed) ↦ absurd (ground (arith, failed, done))
      | inl (b, made) ↦
          let (q, v) = insert_event event t in
          elim (Result-cases q) [
            | inr (e, failed) ↦ absurd (ground (arith, failed, made, done))
            | inl (nothing, put) ↦
                let ((row, found), beers, reports, requests, events) =
                  insert_event-ok event t v (ground (arith, put)) in
                inr (
                  a,
                  s,
                  t,
                  row,
                  refl,
                  same,
                  ground (arith, made, put, done),
                  found,
                  ground (arith, made, put, done, left, beers, reports, requests, events),
                )
          ]
    ]
