-- ===== src/Beer/Postgres/Moderation.antt =====
-- internal/beer/repository/moderation_repository.go: the statements on the tables of reports and of
-- requests for deletion, with the unique indices and the foreign keys of internal/app/migrations.
use beer_avaliation_api.Base.{
  ℕ, ℤ, pos, negsuc, String, Bool, true, false, ◌&&◌, ◌||◌, none, some, List, [], ◌∷◌, ◌++◌,
  if◌then◌else◌, str_eq, ltb, ◌==◌, length, select,
}
use beer_avaliation_api.Errors.{nil, plain, new_app_error}
use beer_avaliation_api.Results.{Result, ok, err, Exec, ◌>>=◌}
use beer_avaliation_api.Beer.Moderation.{
  BeerReport, BeerDeletionRequest, Filter, ModerationRepository,
}
use beer_avaliation_api.Beer.Postgres.Pages.{take_rows, drop_rows}
use beer_avaliation_api.Beer.Postgres.{Db, run, find_row, foreign_key, duplicate_key}
use beer_avaliation_api.Beer.Postgres.Transactions.{exec_in_tx}

-- `ORDER BY created_at DESC` by the time that is given.
unfoldable pub insert_newest {ℓ} : {A : Type ℓ} → (A → ℕ) → A → List A → List A
insert_newest time x [] = x ∷ []
insert_newest time x (y ∷ ys) =
    let rest = insert_newest time x ys in if ltb (time x) (time y) then y ∷ rest else x ∷ y ∷ ys

unfoldable pub newest_first {ℓ} : {A : Type ℓ} → (A → ℕ) → List A → List A
unfolding insert_newest
newest_first time [] = []
newest_first time (x ∷ xs) = insert_newest time x (newest_first time xs)

-- `if filter.Limit <= 0 { filter.Limit = 20 }`
unfoldable pub limit_of : ℤ → ℕ
limit_of (negsuc n) = 20
limit_of (pos n) = if n == 0 then 20 else n

-- `if filter.Offset > 0 { offset = filter.Offset }`
unfoldable pub offset_of : ℤ → ℕ
offset_of (negsuc n) = 0
offset_of (pos n) = n

-- A condition `AND column = $n`, which is written unless the value is empty.
unfoldable pub fits : String → String → Bool
fits wanted column = str_eq wanted "" || str_eq column wanted

unfoldable pub report_fits : Filter → BeerReport → Bool
unfolding fits
report_fits filter r =
    fits filter.beer_id r.beer_id && fits filter.user_id r.user_id && fits filter.status r.status

unfoldable pub request_fits : Filter → BeerDeletionRequest → Bool
unfolding fits
request_fits filter r =
    fits filter.beer_id r.beer_id && fits filter.user_id r.user_id && fits filter.status r.status

-- A page of a listing: the newest first.
unfoldable pub page_of {ℓ} : {A : Type ℓ} → (A → ℕ) → ℕ → ℕ → List A → List A
unfolding take_rows drop_rows newest_first
page_of time limit offset rows = take_rows limit (drop_rows offset (newest_first time rows))

unfoldable pub count_rows {ℓ} : {A : Type ℓ} → List A → Db → Result ℕ × Db
count_rows rows db = (ok (length rows), db)

-- What the server says of a negative limit or offset.
unfoldable pub paged_rows : {A : Type 0} → (A → ℕ) → ℤ → ℤ → List A → Db → Result (List A) × Db
unfolding page_of
paged_rows time (pos limit) (pos offset) rows db = (ok (page_of time limit offset rows), db)
paged_rows time _ _ rows db = (err (plain "LIMIT or OFFSET must not be negative"), db)

-- `GetReportsByBeerID`
unfoldable pub get_reports_by_beer_id : String → ℤ → ℤ → Exec Db (List BeerReport × ℕ)
unfolding run select count_rows paged_rows
get_reports_by_beer_id beer_id limit offset = do
  total ← run (λ db. count_rows (select (λ r. str_eq r.beer_id beer_id) db.reports) db)
  reports ← run (λ db.
      paged_rows (λ r. r.created_at) limit offset
        (select (λ r. str_eq r.beer_id beer_id) db.reports) db)
  λ db. (ok (reports, total), db)

-- `GetReports`
unfoldable pub get_reports : Filter → Exec Db (List BeerReport × ℕ)
unfolding run select count_rows paged_rows report_fits limit_of offset_of
get_reports filter = do
  total ← run (λ db. count_rows (select (report_fits filter) db.reports) db)
  reports ← run (λ db.
      paged_rows (λ r. r.created_at) (pos (limit_of filter.limit)) (pos (offset_of filter.offset))
        (select (report_fits filter) db.reports) db)
  λ db. (ok (reports, total), db)

-- `GetDeletionRequests`
unfoldable pub get_deletion_requests : Filter → Exec Db (List BeerDeletionRequest × ℕ)
unfolding run select count_rows paged_rows request_fits limit_of offset_of
get_deletion_requests filter = do
  total ← run (λ db. count_rows (select (request_fits filter) db.requests) db)
  requests ← run (λ db.
      paged_rows (λ r. r.created_at) (pos (limit_of filter.limit)) (pos (offset_of filter.offset))
        (select (request_fits filter) db.requests) db)
  λ db. (ok (requests, total), db)

-- The unique index on the open reports of a user on a beer.
unfoldable pub has_open_report : String → String → List BeerReport → Bool
has_open_report beer_id user_id [] = false
has_open_report beer_id user_id (r ∷ rs) =
    let rest = has_open_report beer_id user_id rs in
    if str_eq r.beer_id beer_id && str_eq r.user_id user_id && str_eq r.status "open"
    then true
    else rest

unfoldable pub put_report : BeerReport → Db → Result (Unit {0}) × Db
unfolding find_row has_open_report
put_report report db = elim (find_row report.beer_id db.beers) [
  | none ↦ (err foreign_key, db)
  | some row ↦
      if str_eq report.status "open" && has_open_report report.beer_id report.user_id db.reports
      then (err duplicate_key, db)
      else (ok tt, record db { reports = db.reports ++ (report ∷ []) })
]

-- `CreateReport`
unfoldable pub create_report : BeerReport → Exec Db Unit
unfolding run put_report
create_report report = run (put_report report)

-- The same for the requests that are pending.
unfoldable pub has_pending_request : String → String → List BeerDeletionRequest → Bool
has_pending_request beer_id user_id [] = false
has_pending_request beer_id user_id (r ∷ rs) =
    let rest = has_pending_request beer_id user_id rs in
    if str_eq r.beer_id beer_id && str_eq r.user_id user_id && str_eq r.status "pending"
    then true
    else rest

unfoldable pub put_request : BeerDeletionRequest → Db → Result (Unit {0}) × Db
unfolding find_row has_pending_request
put_request req db = elim (find_row req.beer_id db.beers) [
  | none ↦ (err foreign_key, db)
  | some row ↦
      if str_eq req.status "pending" && has_pending_request req.beer_id req.user_id db.requests
      then (err duplicate_key, db)
      else (ok tt, record db { requests = db.requests ++ (req ∷ []) })
]

-- `CreateDeletionRequest`
unfoldable pub create_deletion_request : BeerDeletionRequest → Exec Db Unit
unfolding run put_request
create_deletion_request req = run (put_request req)

unfoldable pub settle_report : String → String → String → ℕ → List BeerReport → List BeerReport
settle_report id status by at [] = []
settle_report id status by at (r ∷ rs) =
    let rest = settle_report id status by at rs in
    if str_eq r.id id
    then (record r { status = status; resolved_by = some by; resolved_at = some at }) ∷ rest
    else r ∷ rest

unfoldable pub has_report : String → List BeerReport → Bool
has_report id [] = false
has_report id (r ∷ rs) = let rest = has_report id rs in if str_eq r.id id then true else rest

-- `ResolveReport`
unfoldable pub resolve_report : String → String → String → ℕ → Exec Db Unit
unfolding run settle_report has_report
resolve_report id status by at = run λ db. (
  if has_report id db.reports then ok tt else err (new_app_error 404 "report not found" nil),
  record db { reports = settle_report id status by at db.reports },
)

unfoldable pub settle_request :
    String → String → String → ℕ → List BeerDeletionRequest → List BeerDeletionRequest
settle_request id status by at [] = []
settle_request id status by at (r ∷ rs) =
    let rest = settle_request id status by at rs in
    if str_eq r.id id
    then (record r { status = status; reviewed_by = some by; reviewed_at = some at }) ∷ rest
    else r ∷ rest

unfoldable pub has_request : String → List BeerDeletionRequest → Bool
has_request id [] = false
has_request id (r ∷ rs) = let rest = has_request id rs in if str_eq r.id id then true else rest

-- `ResolveDeletionRequest`
unfoldable pub resolve_deletion_request : String → String → String → ℕ → Exec Db Unit
unfolding run settle_request has_request
resolve_deletion_request id status by at = run λ db. (
  if has_request id db.requests
      then ok tt
      else err (new_app_error 404 "deletion request not found" nil),
  record db { requests = settle_request id status by at db.requests },
)

-- `PostgresModerationRepository`
unfoldable pub postgres_moderation : Bool → ModerationRepository Db
unfolding create_report get_reports_by_beer_id get_reports resolve_report create_deletion_request
    get_deletion_requests resolve_deletion_request exec_in_tx
postgres_moderation begins = record {
  create_report = create_report;
  get_reports_by_beer_id = get_reports_by_beer_id;
  get_reports = get_reports;
  resolve_report = resolve_report;
  create_deletion_request = create_deletion_request;
  get_deletion_requests = get_deletion_requests;
  resolve_deletion_request = resolve_deletion_request;
  exec_in_tx = exec_in_tx begins;
}
