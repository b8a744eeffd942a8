-- ===== src/Errors.antt =====
-- pkg/errors/errors.go and pkg/errors/problem.go: application errors, their chains of causes, and
-- the RFC 7807 problems that the handlers send.

use beer_avaliation_api.Base.{
  ℕ, String, Bool, true, false, Option, none, some, List, [], ◌==◌, if◌then◌else◌, str_eq,
}
use beer_avaliation_api.Base.Dict.{Dict}

pub record ProblemDetail : Type 0 where
  pub field : String
  pub code : String
  pub detail : String

-- `type` is spelled `kind`.
pub record ProblemAction : Type 0 where
  pub kind : String
  pub uri : String
  pub meta : Dict String

pub record Problem : Type 0 where
  pub kind : String
  pub title : String
  pub status : ℕ
  pub code : String
  pub detail : String
  pub instance_uri : String
  pub trace_id : String
  pub details : List ProblemDetail
  pub action : Option ProblemAction

-- The fields of an `AppError` but its cause, which is an error again.
pub record AppError : Type 0 where
  pub code : ℕ
  pub detail : String
  pub error_code : String
  pub details : List ProblemDetail
  pub action : Option ProblemAction
  pub trace_id : String

-- The package variables that are compared by identity.
pub data Sentinel : Type 0 where
  missing_secret database_unavailable inappropriate_content user_not_found : Sentinel

abbrev pub same_sentinel : Sentinel → Sentinel → Bool
same_sentinel missing_secret missing_secret = true
same_sentinel database_unavailable database_unavailable = true
same_sentinel inappropriate_content inappropriate_content = true
same_sentinel user_not_found user_not_found = true
same_sentinel _ _ = false

-- A Go `error`: nil, a sentinel, a plain text, `fmt.Errorf` with `%w`, or an `*AppError`.
pub data Error : Type 0 where
  nil : Error
  sentinel : Sentinel → Error
  plain : String → Error
  wrap : String → Error → Error
  app : AppError → Error → Error

unfoldable pub new_app_error : ℕ → String → Error → Error
new_app_error code detail cause =
    app
      (record {
        code = code;
        detail = detail;
        error_code = "";
        details = [];
        action = none;
        trace_id = "";
      })
      cause

unfoldable pub new_app_error_with_code : ℕ → String → String → Error
new_app_error_with_code code detail error_code =
    app
      (record {
        code = code;
        detail = detail;
        error_code = error_code;
        details = [];
        action = none;
        trace_id = "";
      })
      nil

unfoldable pub new_app_error_with_details : ℕ → String → String → List ProblemDetail → Error
new_app_error_with_details code detail error_code details =
    app
      (record {
        code = code;
        detail = detail;
        error_code = error_code;
        details = details;
        action = none;
        trace_id = "";
      })
      nil

unfoldable pub new_unavailable_error : Error
unfolding new_app_error
new_unavailable_error = new_app_error 503 "database is not ready" (sentinel database_unavailable)

-- `errors.As(err, &appErr)`: the first `*AppError` on the chain, which `Unwrap` walks.
unfoldable pub as_app : Error → Option AppError
as_app (app e cause) = some e
as_app (wrap message cause) = as_app cause
as_app nil = none
as_app (sentinel s) = none
as_app (plain message) = none

-- `(*AppError).Is`.
unfoldable pub app_error_is : AppError → Error → Bool
unfolding as_app
app_error_is e target = elim (as_app target) [ none ↦ false | some t ↦ t.code == e.code ]

-- `errors.Is(err, target)` for a sentinel as target: on the way down an `AppError` is asked by
-- its `Is`.
unfoldable pub is_sentinel : Error → Sentinel → Bool
is_sentinel nil target = false
is_sentinel (sentinel s) target = same_sentinel s target
is_sentinel (plain message) target = false
is_sentinel (wrap message cause) target = is_sentinel cause target
is_sentinel (app e cause) target =
    let rest = is_sentinel cause target in if app_error_is e (sentinel target) then true else rest

unfoldable pub http_status_slug : ℕ → String
http_status_slug status =
    if status == 400
    then "bad_request"
    else if status == 401
    then "unauthorized"
    else if status == 403
    then "forbidden"
    else if status == 404
    then "not_found"
    else if status == 409
    then "conflict"
    else if status == 422
    then "unprocessable_entity"
    else if status == 429
    then "too_many_requests"
    else if status == 500
    then "internal_server_error"
    else if status == 503
    then "service_unavailable"
    else "error"

-- `problem_type` is `ProblemType` over the configured base, `status_text` is `http.StatusText`.
module _ (problem_type : String → String) (status_text : ℕ → String) where
  unfoldable pub new_problem : ℕ → String → String → Problem
  new_problem status code detail = record {
    kind = problem_type code;
    title = status_text status;
    status = status;
    code = code;
    detail = detail;
    instance_uri = "";
    trace_id = "";
    details = [];
    action = none;
  }

  -- `(*AppError).ToProblem`
  unfoldable pub to_problem : AppError → String → Problem
  to_problem e instance_uri =
      let code = if str_eq e.error_code "" then http_status_slug e.code else e.error_code in
      record {
        kind = problem_type code;
        title = status_text e.code;
        status = e.code;
        code = code;
        detail = e.detail;
        instance_uri = instance_uri;
        trace_id = e.trace_id;
        details = e.details;
        action = e.action;
      }

  -- `handleError` of internal/beer/delivery/http/beer_controller.go, and `respondError` of
  -- internal/user/delivery/http/user_controller.go: the status of an `AppError` on the chain wins.
  unfoldable pub handle_error : Error → String → ℕ → String → Problem
  unfolding new_problem
  handle_error err message status_code trace =
      let status : ℕ = elim (as_app err) [ none ↦ status_code | some e ↦ e.code ] in
      let p = new_problem status (http_status_slug status) message in
      if str_eq trace "" then p else record p { trace_id = trace }
