-- ===== src/Lib.antt =====
-- A verification library of the beer review API, a Go service: accounts with rotating refresh
-- tokens, a shared catalogue of beers with comments, likes and media, and its moderation. A request
-- passes the middleware to a controller, which calls a usecase, which calls a repository and an
-- event store; each of these layers is modelled on the interface of the next one.
--
-- The program's parts and their files:
--   * pkg/errors (errors.go, problem.go): Errors. A Go `error` is the data type `Error`, `errors.Is`
--     and `errors.As` walk its chain. `handle_error` is what the controllers make of an error.
--   * A Go function that returns a value and an error returns a `Result`; a method that changes state
--     is an action of `Exec`, which keeps what was written before an error (Results).
--   * pkg/response (response.go, cache.go) and pkg/validation/helpers.go: Http (requests, responses
--     and handlers as values), Http/Caching (ETags and 304), Http/Validation (messages of failed
--     rules), Http/Statuses (which status and problem an error is answered with).
--   * pkg/middleware/auth.go and pkg/auth/jwt.go: Middleware/Context (the request context),
--     Middleware/Auth (`generate_token`, `validate_token`, `auth`, `require_admin`), Auth/Bearer.
--   * pkg/middleware/rate_limit.go: Middleware/RateLimit (`allow`, with its cleanup and eviction),
--     RateLimit/Window (the specification: a log of the admitted requests), RateLimit/Agreement and
--     RateLimit/Refines (the refinement), RateLimit/Invariant, RateLimit/Handler (the middleware).
--   * pkg/middleware/compression.go and cors.go: Middleware/Compression, Middleware/Cors.
--   * internal/user: User/Model, User/Repository (the interface), User/Memory (the store of
--     user_repository_memory.go, with theorems in its children), User/Postgres (user_repository.go:
--     Accounts, Sessions, Transactions, and theorems in Laws, Tokens and Seed), User/Services (what the
--     usecases take from outside, and their guards), User/Usecase (`user_usecase.go`: Accounts,
--     Sessions, and theorems in Access, Issue, Logins and Rotation), User/Controller
--     (delivery/http/user_controller.go: Handlers, with theorems in Access).
--   * internal/beer: Beer/Model (with the enums), Beer/Repository (the interfaces), Beer/Usecase
--     (`beer_usecase.go`: Changes, Catalog, Comments), Beer/Moderation (`moderation_usecase.go`),
--     Beer/Search (the placeholders of `SearchBeers` of beer_repository.go), Beer/Postgres
--     (beer_repository.go: the tables, Statements, Pages for `GetPaginated`, Transactions, and
--     theorems in Tables, Decisions, Promises and Puts; Events is pkg/events/postgres_store.go,
--     Moderation is moderation_repository.go), Beer/Controller (delivery/http: Paging for the page sizes and, with
--     Links, for links.go, Writes and Reads for the handlers of beer_controller.go and feed.go,
--     theorems in Protected), Beer/Moderation/Controller (moderation_controller.go), Beer/Filters
--     (pkg/moderation).
--   * pkg/events/composite_store.go: Events. pkg/uuid/uuid.go: Uuid, on the random bytes and the time.
--   * pkg/database/retry.go: Database (`retry_exec`, over what each attempt returns).
--
-- The usecases work on any repository: an argument, a record of actions on a state of its own. What
-- a theorem needs of it is a record of laws: `TokenTable` (the table refresh_tokens),
-- `CommentTable` (the comments of each beer). The PostgreSQL repository of users fills the first,
-- that of beers the second; a statement may fail in either. What a library promises is `ReadsBack`
-- (golang-jwt) or `Rounding` (floats). The children Tests run the theorems at concrete values.
-- bcrypt, SHA-256, OIDC, the sanitizer, the JSON encoder, the validator of struct tags, the caches
-- and UUIDs are arguments too.
--
-- A database is a record of tables, each a list of rows. A statement is what its SQL does to the
-- rows, with the keys that internal/app/migrations declares; `faults` is the list of what the next
-- statements meet, so that any of them may fail. A transaction that fails puts the tables back. The
-- rows that `SearchBeers` selects are an argument of the repository.
--
-- Times are nanoseconds on ℕ and an argument of each call; a comparison with an earlier time is
-- written with a sum, since `-` on ℕ stops at 0. A Go `int` from a request is ℤ (Base/Integer, with
-- `strconv.Atoi` and its bounds), and the length of a text is its bytes in UTF-8; `Likes` and
-- `TotalReviews` are natural numbers, far below the bounds of `int`. Maps are association lists,
-- whose order stands for Go's iteration. A lock makes a method one step. The one loop on fuel
-- writes the digits of a number, with one unit of fuel more than the number; every other loop runs
-- over a list.
--
-- Not modelled: HTTP routing and the encoding of JSON, the upload of media, logging, metrics,
-- tracing, OIDC key fetching, the Redis stores of events and of moderation, statistics, monitoring,
-- start-up and shutdown, full text search inside PostgreSQL.
mod Base
pub mod Errors
pub mod Results
pub mod Http
pub mod Middleware
pub mod User
pub mod Beer
pub mod Events
pub mod Uuid
pub mod Database
