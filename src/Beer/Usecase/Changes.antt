-- ===== src/Beer/Usecase/Changes.antt =====
-- What the methods of internal/beer/usecase/beer_usecase.go share: the guard on changes, the events,
-- and the two ways of committing a change.
use beer_avaliation_api.Base.{
  ℕ, String, Bool, true, false, Option, none, some, List, if◌then◌else◌, str_eq,
}
use beer_avaliation_api.Errors.{new_unavailable_error}
use beer_avaliation_api.Results.{Exec, raise, pure, try, ◌>>=◌, ◌>>◌}
use beer_avaliation_api.Middleware.Context.{Context, user_id_from_context, is_admin}
use beer_avaliation_api.Beer.Repository.{Event, BeerRepository, EventStore}

-- The time of a call, and the identifiers that it draws from `uuid.MustNewV7`: for a new beer, for
-- the event that is made first, and for the one that `publishBeerEvent` makes.
pub record Instant : Type 0 where
  pub now : ℕ
  pub beer_id : String
  pub event_id : String
  pub published_id : String

-- `canModify`
unfoldable pub can_modify : Context → String → Bool
can_modify ctx owner_id =
    if is_admin ctx
    then true
    else if str_eq owner_id ""
    then false
    else elim (user_id_from_context ctx) [ none ↦ false | some uid ↦ str_eq uid owner_id ]

-- `unavailable`, at the head of every method.
unfoldable pub with_repo :
    {S : Type 0} {A : Type 0} → Option (BeerRepository S) → (BeerRepository S → Exec S A) → Exec S A
with_repo none f = raise new_unavailable_error
with_repo (some repo) f = f repo

-- `newBeerEvent`
unfoldable pub new_beer_event : ℕ → String → String → String → List (String × String) → Event
new_beer_event now id beer_id kind payload = record {
  kind = kind;
  id = id;
  beer_id = beer_id;
  payload = payload;
  timestamp = now;
}

-- `publishEventCache`: the outcome of the cache is dropped.
unfoldable pub publish_event_cache : {S : Type 0} → EventStore S → Event → Exec S Unit
publish_event_cache store event = elim store.publish_cache [
  | none ↦ pure tt
  | some publish_cache ↦ do _ ← try (publish_cache event.beer_id event); pure tt
]

-- `publishBeerEvent`: the event is made again, with an identifier of its own.
unfoldable pub publish_beer_event :
    {S : Type 0}
    → Option (EventStore S)
    → Instant
    → String
    → String
    → List (String × String)
    → Exec S Unit
publish_beer_event none m beer_id kind payload = pure tt
publish_beer_event (some store) m beer_id kind payload =
    store.publish beer_id (new_beer_event m.now m.published_id beer_id kind payload)

-- The end of `Create`, `Update` and `Delete`, and the body of `execCommentMutation`: the change runs
-- in one transaction with its event where there is an event store and the repository has
-- `ExecInTxWithEvent`; otherwise it runs as `plain`, and the event is published after it.
unfoldable pub commit :
    {S : Type 0}
    → BeerRepository S
    → Option (EventStore S)
    → Instant
    → Event
    → Exec S Unit
    → Exec S Unit
    → Exec S Unit
commit repo events m event change plain = elim repo.exec_in_tx_with_event [
  | none ↦ do plain; publish_beer_event events m event.beer_id event.kind event.payload
  | some atomic ↦ elim events [
    | none ↦ plain
    | some store ↦ do atomic Unit event change; publish_event_cache store event
  ]
]

-- `execCommentMutation`
unfoldable pub exec_comment_mutation :
    {S : Type 0}
    → BeerRepository S
    → Option (EventStore S)
    → Instant
    → Event
    → Exec S Unit
    → Exec S Unit
unfolding commit
exec_comment_mutation repo events m event change =
    commit repo events m event change (repo.exec_in_tx change)
