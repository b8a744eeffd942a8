-- ===== src/Beer/Moderation/Controller.antt =====
-- The handlers of internal/beer/delivery/http/moderation_controller.go.
use beer_avaliation_api.Base.{ℕ, ℤ, pos, String, Option, none, some, List, [], if◌then◌else◌, ◌==◌}
use beer_avaliation_api.Errors.{Error, as_app}
use beer_avaliation_api.Middleware.Context.{user_id_from_context}
use beer_avaliation_api.Http.{
  Site, absent, undecoded, decoded, Request, Response, Handler, query_get, send_response,
  send_app_error, send_handled, respond,
}
use beer_avaliation_api.Http.Validation.{Invalid, validation_message}
use beer_avaliation_api.Beer.Repository.{BeerRepository}
use beer_avaliation_api.Beer.Moderation.{
  BeerReport, BeerDeletionRequest, Input, Filter, ModerationRepository, report_beer,
  get_reports_by_beer_id, get_reports, resolve_report, request_deletion, get_deletion_requests,
  resolve_deletion_request,
}
use beer_avaliation_api.Beer.Controller.Paging.{clamp_limit, get_int_param}

-- The payloads; a listing has its total, limit and offset.
pub data ModerationPayload : Type 0 where
  done : String → ModerationPayload
  reports_page : List BeerReport → ℕ → ℤ → ℤ → ModerationPayload
  requests_page : List BeerDeletionRequest → ℕ → ℤ → ℤ → ModerationPayload

-- The validators of the two inputs, and of a status that is to be one of two.
pub record ModerationTools : Type 0 where
  pub site : Site
  pub validate_input : Input → Option Invalid
  pub validate_status : String → String → String → Option Invalid

-- The first `AppError` of the chain, which is there: the one that `NewAppError` makes.
unfoldable pub refuse {ℓ} : {B : Type ℓ} → Site → Request B → String → Response ModerationPayload
refuse site req detail = send_app_error site req (record {
  code = 400;
  detail = detail;
  error_code = "";
  details = [];
  action = none;
  trace_id = "";
})

-- `if r.Body == nil`, the decoding and the validation at the head of the handlers that write.
unfoldable pub checked {ℓ} :
    {B : Type ℓ} {S : Type ℓ}
    → Site
    → Request B
    → (B → Option Invalid)
    → (B → S → Response ModerationPayload × S)
    → S
    → Response ModerationPayload × S
unfolding refuse validation_message
checked site req check rest s = elim req.body [
  | absent ↦ (refuse site req "request body is empty", s)
  | undecoded e ↦ (refuse site req "invalid request body", s)
  | decoded b ↦ elim (check b) [
    | some invalid ↦ (refuse site req (validation_message invalid), s)
    | none ↦ rest b s
  ]
]

-- `if errors.As(err, &appErr) && appErr.Code == 409 { sendAppError(…) } else { handleError(…, 500) }`
unfoldable pub send_conflict {ℓ} :
    {B : Type ℓ} → Site → Request B → String → Error → Response ModerationPayload
send_conflict site req message e =
    let otherwise = send_handled site req e message 500 [] in
    elim (as_app e) [
      | none ↦ otherwise
      | some appErr ↦ if appErr.code == 409 then send_app_error site req appErr else otherwise
    ]

-- `if errors.As(err, &appErr) { sendAppError(…) } else { handleError(…, 500) }`
unfoldable pub send_resolution {ℓ} :
    {B : Type ℓ} → Site → Request B → String → Error → Response ModerationPayload
send_resolution site req message e = elim (as_app e) [
  | none ↦ send_handled site req e message 500 []
  | some appErr ↦ send_app_error site req appErr
]

unfoldable pub caller {ℓ} : {B : Type ℓ} → Request B → String
caller req = elim (user_id_from_context req.context) [ none ↦ "" | some uid ↦ uid ]

-- The filter of a listing, from the query.
unfoldable pub filter_of {ℓ} : {B : Type ℓ} → Request B → Filter
unfolding query_get clamp_limit get_int_param
filter_of req = record {
  beer_id = query_get req "beerId";
  user_id = query_get req "userId";
  status = query_get req "status";
  limit = clamp_limit (query_get req "limit");
  offset = get_int_param req "offset" (pos 0);
}

module _ {S : Type 0} (tools : ModerationTools) (repo : ModerationRepository S)
    (beers : BeerRepository S) where
  -- `ReportBeer`, at a time and with a new identifier.
  unfoldable pub report_beer_handler : ℕ → String → Request Input → Handler ModerationPayload S
  unfolding checked caller send_conflict report_beer
  report_beer_handler now id req = checked tools.site req tools.validate_input λ input s.
      respond (report_beer repo beers now id req.id (caller req) input s)
        (send_conflict tools.site req "Failed to report beer")
        λ u. send_response 201 (done "Beer reported successfully") []

  -- `RequestDeletion`
  unfoldable pub request_deletion_handler : ℕ → String → Request Input → Handler ModerationPayload S
  unfolding checked caller send_conflict request_deletion
  request_deletion_handler now id req = checked tools.site req tools.validate_input λ input s.
      respond (request_deletion repo beers now id req.id (caller req) input s)
        (send_conflict tools.site req "Failed to request deletion")
        λ u. send_response 201 (done "Deletion request submitted successfully") []

  -- `GetBeerReports`
  unfoldable pub get_beer_reports_handler : Request (Unit {0}) → Handler ModerationPayload S
  unfolding query_get clamp_limit get_int_param get_reports_by_beer_id
  get_beer_reports_handler req s =
      let limit = clamp_limit (query_get req "limit") in
      let offset = get_int_param req "offset" (pos 0) in
      respond (get_reports_by_beer_id repo beers req.id limit offset s)
        (λ e. send_handled tools.site req e "Failed to get beer reports" 500 [])
        λ (reports, total). send_response 200 (reports_page reports total limit offset) []

  -- `GetReports`
  unfoldable pub get_reports_handler : Request (Unit {0}) → Handler ModerationPayload S
  unfolding filter_of get_reports
  get_reports_handler req s =
      let filter = filter_of req in
      respond (get_reports repo beers filter s)
        (λ e. send_handled tools.site req e "Failed to get reports" 500 [])
        λ (reports, total).
          send_response 200 (reports_page reports total filter.limit filter.offset) []

  -- `ResolveReport`
  unfoldable pub resolve_report_handler : ℕ → Request String → Handler ModerationPayload S
  unfolding checked caller send_resolution resolve_report
  resolve_report_handler now req =
      checked tools.site req (tools.validate_status "resolved" "dismissed") λ status s.
        respond (resolve_report repo beers req.context now req.id status (caller req) s)
          (send_resolution tools.site req "Failed to resolve report")
          λ u. send_response 200 (done "Report resolved successfully") []

  -- `ResolveDeletionRequest`
  unfoldable pub resolve_deletion_request_handler : ℕ → Request String → Handler ModerationPayload S
  unfolding checked caller send_resolution resolve_deletion_request
  resolve_deletion_request_handler now req =
      checked tools.site req (tools.validate_status "approved" "rejected") λ status s.
        respond (resolve_deletion_request repo beers req.context now req.id status (caller req) s)
          (send_resolution tools.site req "Failed to resolve deletion request")
          λ u. send_response 200 (done "Deletion request resolved successfully") []

  -- `GetDeletionRequests`
  unfoldable pub get_deletion_requests_handler : Request (Unit {0}) → Handler ModerationPayload S
  unfolding filter_of get_deletion_requests
  get_deletion_requests_handler req s =
      let filter = filter_of req in
      respond (get_deletion_requests repo beers filter s)
        (λ e. send_handled tools.site req e "Failed to get deletion requests" 500 [])
        λ (requests, total).
          send_response 200 (requests_page requests total filter.limit filter.offset) []
