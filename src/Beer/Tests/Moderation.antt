-- ===== src/Beer/Tests/Moderation.antt =====
-- Requests for deletion on concrete tables (internal/beer/usecase/moderation_usecase.go on
-- internal/beer/repository): two beers, and a request for each.
use beer_avaliation_api.Base.{
  ℕ, ◌/◌, ◌≡◌, ◌≤◌, ◌<◌, inl, inr, refl, String, true, false, not, none, some, [], ◌∷◌, All, Any,
  arith, str_eq, eq_iff, select,
}
use beer_avaliation_api.Errors.{Error}
use beer_avaliation_api.Results.{Result, ok, err}
use beer_avaliation_api.Middleware.Context.{is_admin}
use beer_avaliation_api.Beer.Moderation.{
  BeerDeletionRequest, approved, find_request, resolve_deletion_request,
}
use beer_avaliation_api.Beer.Postgres.{Db}
use beer_avaliation_api.Beer.Postgres.Transactions.{
  tables, postgres_repository, begin_tx, commit_tx,
}
use beer_avaliation_api.Beer.Postgres.Moderation.{postgres_moderation}
use beer_avaliation_api.Beer.Postgres.Decisions.{approval-ok, approval_of_older}
use beer_avaliation_api.Beer.Tests.{admin}
use beer_avaliation_api.Beer.Tests.Postgres.{row, shelved, unsearched}

abbrev request : String → String → ℕ → BeerDeletionRequest
request id beer_id created_at = record {
  id = id;
  beer_id = beer_id;
  user_id = "ana";
  reason = "DUPLICATE";
  details = "twice in the catalogue";
  status = "pending";
  created_at = created_at;
  reviewed_by = none;
  reviewed_at = none;
}

abbrev two_requests : Db
two_requests = record shelved {
  beers = row ∷ record row { id = "b-2" } ∷ [];
  requests = request "r-1" "b-1" 1 ∷ request "r-2" "b-2" 2 ∷ [];
}

abbrev approve : String → Result (Unit {0}) × Db
approve req_id =
    resolve_deletion_request (postgres_moderation true)
      (postgres_repository (λ s c. s / c) false unsearched) admin 5 req_id approved "root"
      two_requests

newest_approved : approve "r-2" ≡ (ok tt, (approve "r-2").1)
unfolding resolve_deletion_request is_admin postgres_moderation begin_tx find_request
    postgres_repository commit_tx
newest_approved = refl

approval-ok_example :
    (admin.role ≡ some "admin")
    × (beer_id : String) × (created_at : ℕ) × Any
        (λ x. (x.id ≡ "r-2") × (x.beer_id ≡ beer_id) × (x.created_at ≡ created_at))
        two_requests.requests
    × All (λ x. x.created_at ≤ created_at) two_requests.requests
    × ((approve "r-2").1.beers ≡ select (λ row. not (str_eq row.id beer_id)) two_requests.beers)
    × All (λ x. not (str_eq x.beer_id beer_id) ≡ true) (approve "r-2").1.requests
approval-ok_example =
    approval-ok (λ s c. s / c) true unsearched admin 5 "r-2" "root" two_requests (approve "r-2").1
      newest_approved

abbrev newest_id : String
newest_id = "r-2"

newest-ne-older : newest_id ≡ "r-1" → 2 < 2
newest-ne-older e =
    let differs : str_eq "r-2" "r-1" ≡ false = refl in
    absurd (ground (arith, differs, eq_iff "r-2" "r-1", e))

approval_of_older_example :
    ((e : Error) × ((approve "r-1").0 ≡ err e)) × (tables (approve "r-1").1 ≡ tables two_requests)
approval_of_older_example =
    approval_of_older (λ s c. s / c) true unsearched admin 5 "r-1" "root" 2 two_requests _ _
      (inr (inl refl)) ((λ e. omega arith), (newest-ne-older, tt)) refl
