-- ===== src/Beer/Moderation.antt =====
-- Reports and requests for the deletion of a beer: internal/beer/model/moderation.go,
-- the interface of internal/beer/repository/moderation_repository.go, and
-- internal/beer/usecase/moderation_usecase.go. Times are nanoseconds.
pub mod Controller
use beer_avaliation_api.Base.{
  ℤ, pos, ℕ, String, Bool, true, false, Option, none, some, List, [], ◌∷◌, if◌then◌else◌, str_eq,
}
use beer_avaliation_api.Errors.{Error, nil, new_app_error}
use beer_avaliation_api.Results.{Result, ok, err, Exec, raise, pure, guard, ◌or_raise◌, ◌>>=◌, ◌>>◌}
use beer_avaliation_api.Middleware.Context.{Context, is_admin}
use beer_avaliation_api.Beer.Repository.{BeerRepository}

pub record BeerReport : Type 0 where
  pub id : String
  pub beer_id : String
  pub user_id : String
  pub reason : String
  pub description : String
  pub status : String
  pub created_at : ℕ
  pub resolved_by : Option String
  pub resolved_at : Option ℕ

pub record BeerDeletionRequest : Type 0 where
  pub id : String
  pub beer_id : String
  pub user_id : String
  pub reason : String
  pub details : String
  pub status : String
  pub created_at : ℕ
  pub reviewed_by : Option String
  pub reviewed_at : Option ℕ

-- `BeerReportInput`, and `BeerDeletionRequestInput` with its details as the text.
pub record Input : Type 0 where
  pub reason : String
  pub text : String

-- `ReportFilter` and `DeletionRequestFilter`
pub record Filter : Type 0 where
  pub beer_id : String
  pub user_id : String
  pub status : String
  pub limit : ℤ
  pub offset : ℤ

abbrev pub approved : String
approved = "approved"

-- `ModerationRepository`; the function of `exec_in_tx` acts on the state within the transaction,
-- through this repository and the one of the beers.
pub record ModerationRepository (S : Type 0) : Type 0 where
  pub create_report : BeerReport → Exec S Unit
  pub get_reports_by_beer_id : String → ℤ → ℤ → Exec S (List BeerReport × ℕ)
  pub get_reports : Filter → Exec S (List BeerReport × ℕ)
  pub resolve_report : String → String → String → ℕ → Exec S Unit
  pub create_deletion_request : BeerDeletionRequest → Exec S Unit
  pub get_deletion_requests : Filter → Exec S (List BeerDeletionRequest × ℕ)
  pub resolve_deletion_request : String → String → String → ℕ → Exec S Unit
  pub exec_in_tx : Exec S Unit → Exec S Unit

-- The filter of the search within `ResolveDeletionRequest`.
abbrev pub newest_only : Filter
newest_only = record { beer_id = ""; user_id = ""; status = ""; limit = pos 1; offset = pos 0 }

-- The loop of `ResolveDeletionRequest` that looks for its target.
unfoldable pub find_request : String → List BeerDeletionRequest → Option BeerDeletionRequest
find_request req_id [] = none
find_request req_id (r ∷ rs) =
    let rest = find_request req_id rs in if str_eq r.id req_id then some r else rest

module _ {S : Type 0} (repo : ModerationRepository S) (beers : BeerRepository S) where
  -- `ReportBeer`, at a time and with a new identifier.
  unfoldable pub report_beer : ℕ → String → String → String → Input → Exec S Unit
  report_beer now id beer_id user_id input = repo.create_report (record {
    id = id;
    beer_id = beer_id;
    user_id = user_id;
    reason = input.reason;
    description = input.text;
    status = "open";
    created_at = now;
    resolved_by = none;
    resolved_at = none;
  })

  -- `GetReportsByBeerID`
  unfoldable pub get_reports_by_beer_id : String → ℤ → ℤ → Exec S (List BeerReport × ℕ)
  get_reports_by_beer_id beer_id limit offset = repo.get_reports_by_beer_id beer_id limit offset

  -- `GetReports`
  unfoldable pub get_reports : Filter → Exec S (List BeerReport × ℕ)
  get_reports filter = repo.get_reports filter

  -- `ResolveReport`
  unfoldable pub resolve_report : Context → ℕ → String → String → String → Exec S Unit
  resolve_report ctx now report_id status admin_id = do
    guard (is_admin ctx) (new_app_error 403 "only admins can resolve reports" nil)
    repo.resolve_report report_id status admin_id now

  -- `RequestDeletion`
  unfoldable pub request_deletion : ℕ → String → String → String → Input → Exec S Unit
  request_deletion now id beer_id user_id input = repo.create_deletion_request (record {
    id = id;
    beer_id = beer_id;
    user_id = user_id;
    reason = input.reason;
    details = input.text;
    status = "pending";
    created_at = now;
    reviewed_by = none;
    reviewed_at = none;
  })

  -- `GetDeletionRequests`
  unfoldable pub get_deletion_requests : Filter → Exec S (List BeerDeletionRequest × ℕ)
  get_deletion_requests filter = repo.get_deletion_requests filter

  unfoldable pub delete_target : Option BeerDeletionRequest → Exec S Unit
  delete_target none = raise (new_app_error 404 "deletion request not found" nil)
  delete_target (some target) =
      beers.remove target.beer_id
      or_raise new_app_error 500 "failed to delete beer after approving request"

  -- The search for the request that was approved, and the deletion of its beer.
  unfoldable pub delete_approved : String → Exec S Unit
  unfolding delete_target
  delete_approved req_id = do
    listed ←
        repo.get_deletion_requests newest_only
        or_raise new_app_error 500 "failed to get deletion request"
    delete_target (find_request req_id listed.0)

  -- The function that `ResolveDeletionRequest` runs in a transaction.
  unfoldable pub resolve_in_tx : ℕ → String → String → String → Exec S Unit
  unfolding delete_approved
  resolve_in_tx now req_id status admin_id = do
    repo.resolve_deletion_request req_id status admin_id now
    if str_eq status approved then delete_approved req_id else pure tt

  -- `ResolveDeletionRequest`
  unfoldable pub resolve_deletion_request : Context → ℕ → String → String → String → Exec S Unit
  unfolding resolve_in_tx
  resolve_deletion_request ctx now req_id status admin_id = do
    guard (is_admin ctx) (new_app_error 403 "only admins can resolve deletion requests" nil)
    repo.exec_in_tx (resolve_in_tx now req_id status admin_id)
