-- ===== src/Http.antt =====
-- What the controllers read of a request and write to a response (`net/http`), with
-- pkg/response/response.go. A decoder of JSON is outside: a request comes with what decoding its
-- body gave, and a payload is the value that is encoded.
pub mod Caching
pub mod Validation
pub mod Statuses
mod Tests
use beer_avaliation_api.Base.{
  ℕ, String, Bool, Option, none, some, List, [], ◌∷◌, ◌++◌, if◌then◌else◌, str_eq,
}
use beer_avaliation_api.Base.Dict.{Dict, lookup, insert}
use beer_avaliation_api.Errors.{
  Error, AppError, Problem, ProblemDetail, ProblemAction, http_status_slug, new_problem, to_problem,
  handle_error,
}
use beer_avaliation_api.Results.{Result, ok, err}
use beer_avaliation_api.Middleware.Context.{Context}
use beer_avaliation_api.User.Model.{Timestamp, missing, rfc3339, malformed}

-- `ProblemType` over the configured base, `http.StatusText`, and `time.RFC3339` at a whole second.
pub record Site : Type 0 where
  pub problem_type : String → String
  pub status_text : ℕ → String
  pub rfc3339_text : ℕ → String

-- The text of a time field.
unfoldable pub time_text : Site → Timestamp → String
time_text site missing = ""
time_text site (rfc3339 seconds) = site.rfc3339_text seconds
time_text site (malformed text) = text

-- `r.Body`: nil, refused by the decoder (or longer than `MaxBytesReader` allows), or read.
pub data Body {ℓ} (B : Type ℓ) : Type ℓ where
  absent : Body B
  undecoded : Error → Body B
  decoded : B → Body B

-- `id` and `comment_id` are path values, `trace` is `middleware.TraceIDFromContext`, and `is_tls`
-- says that `r.TLS` is not nil. The names of headers are canonical; of a query, the first value of
-- each name.
pub record Request {ℓ} (B : Type ℓ) : Type ℓ where
  pub path : String
  pub host : String
  pub is_tls : Bool
  pub id : String
  pub comment_id : String
  pub query : Dict String
  pub headers : Dict String
  pub body : Body B
  pub context : Context
  pub trace : String

-- A request with another body.
abbrev pub with_body {ℓ κ} : {B : Type ℓ} {C : Type κ} → Request B → Body C → Request C
with_body req body = record {
  path = req.path;
  host = req.host;
  is_tls = req.is_tls;
  id = req.id;
  comment_id = req.comment_id;
  query = req.query;
  headers = req.headers;
  body = body;
  context = req.context;
  trace = req.trace;
}

unfoldable pub text_of : Option String → String
text_of none = ""
text_of (some value) = value

-- `query.Get(key)`
unfoldable pub query_get {ℓ} : {B : Type ℓ} → Request B → String → String
unfolding text_of
query_get req key = text_of (lookup key req.query)

-- `r.Header.Get(key)`
unfoldable pub header_get {ℓ} : {B : Type ℓ} → Request B → String → String
unfolding text_of
header_get req key = text_of (lookup key req.headers)

-- `w.Header()`: what the handler sets, each header with its values.
abbrev pub Headers : Type 0
Headers = Dict (List String)

-- `w.Header().Set`
unfoldable pub header_set : String → String → Headers → Headers
header_set key value h = insert key (value ∷ []) h

-- `w.Header().Add`
unfoldable pub header_add : String → String → Headers → Headers
header_add key value h = elim (lookup key h) [
  | none ↦ insert key (value ∷ []) h
  | some values ↦ insert key (values ++ (value ∷ [])) h
]

pub data Content {ℓ} (P : Type ℓ) : Type ℓ where
  empty : Content P
  problem : Problem → Content P
  json : P → Content P

pub record Response {ℓ} (P : Type ℓ) : Type ℓ where
  pub status : ℕ
  pub headers : Headers
  pub content : Content P

abbrev pub Handler {ℓ} : Type ℓ → Type ℓ → Type ℓ
Handler P S = S → Response P × S

module _ {ℓ} {P : Type ℓ} where
  -- `SendResponse`
  unfoldable pub send_response : ℕ → P → Headers → Response P
  unfolding header_set
  send_response status payload h = record {
    status = status;
    headers = header_set "Content-Type" "application/json" h;
    content = json payload;
  }

  -- `SendProblem`
  unfoldable pub send_problem : Site → Option Problem → Headers → Response P
  unfolding header_set
  send_problem site given h =
      let p : Problem = elim given [
        | none ↦
            new_problem site.problem_type site.status_text 500 "internal_server_error"
              "Erro interno do servidor."
        | some p ↦ p
      ] in
      record {
        status = p.status;
        headers = header_set "Content-Type" "application/problem+json" h;
        content = problem p;
      }

  -- A problem of `NewProblem`, sent.
  unfoldable pub send_new_problem : Site → ℕ → String → String → Response P
  unfolding send_problem
  send_new_problem site status code detail =
      send_problem site (some (new_problem site.problem_type site.status_text status code detail))
        []

  -- `sendAppError`
  unfoldable pub send_app_error {κ} : {B : Type κ} → Site → Request B → AppError → Response P
  unfolding send_problem
  send_app_error site req e =
      let p = to_problem site.problem_type site.status_text e req.path in
      send_problem site
        (some (if str_eq req.trace "" then p else (record p { trace_id = req.trace }))) []

  -- `handleError` and `respondError`: the problem of Errors.handle_error, sent.
  unfoldable pub send_handled {κ} :
      {B : Type κ} → Site → Request B → Error → String → ℕ → Headers → Response P
  unfolding send_problem
  send_handled site req e message status h =
      send_problem site
        (some (handle_error site.problem_type site.status_text e message status req.trace)) h

  -- `if r.Body == nil { … }`, `if err := Decode(&v); err != nil { … }`, and the rest.
  unfoldable pub read_body {κ} :
      {B : Type κ} {S : Type ℓ}
      → Body B
      → Response P
      → (Error → Response P)
      → (B → Handler P S)
      → Handler P S
  read_body absent none_given refuse rest s = (none_given, s)
  read_body (undecoded e) none_given refuse rest s = (refuse e, s)
  read_body (decoded b) none_given refuse rest s = rest b s

  -- `if err := f(); err != nil { … }`, and the answer.
  unfoldable pub respond :
      {A S : Type ℓ} → Result A × S → (Error → Response P) → (A → Response P) → Response P × S
  respond (ok a, s) fail done = (done a, s)
  respond (err e, s) fail done = (fail e, s)

-- `ProblemOption`
abbrev pub ProblemOption : Type 0
ProblemOption = Problem → Problem

unfoldable pub with_problem_code : String → ProblemOption
with_problem_code code p = record p { code = code }

unfoldable pub with_problem_trace : String → ProblemOption
with_problem_trace trace_id p = record p { trace_id = trace_id }

unfoldable pub with_problem_details : List ProblemDetail → ProblemOption
with_problem_details details p = record p { details = p.details ++ details }

unfoldable pub with_problem_action : Option ProblemAction → ProblemOption
with_problem_action action p = record p { action = action }

unfoldable pub apply_options : List ProblemOption → Problem → Problem
apply_options [] p = p
apply_options (o ∷ os) p = apply_options os (o p)

-- `SendError`
unfoldable pub send_error {ℓ} :
    {P : Type ℓ} → Site → String → ℕ → List ProblemOption → Headers → Response P
unfolding send_problem
send_error site detail status_code opts h =
    send_problem site
      (some (
        apply_options opts (
          new_problem site.problem_type site.status_text status_code (http_status_slug status_code)
            detail)))
      h
