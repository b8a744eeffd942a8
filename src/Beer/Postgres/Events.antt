-- ===== src/Beer/Postgres/Events.antt =====
-- pkg/events/postgres_store.go: the events of each beer in the table `beer_events`.
use Prim.Native.Nat.{Ordering}
use Prim.Native.String.{compare}
use beer_avaliation_api.Base.{
  ℕ, ℤ, pos, negsuc, ◌*◌, String, Bool, true, false, ◌&&◌, ◌||◌, Option, none, some, List, [], ◌∷◌,
  if◌then◌else◌, str_eq, ltb, ◌==◌, select,
}
use beer_avaliation_api.Results.{ok, Exec}
use beer_avaliation_api.User.Model.{second}
use beer_avaliation_api.Beer.Repository.{Event, EventStore}
use beer_avaliation_api.Beer.Postgres.{Db, run}
use beer_avaliation_api.Beer.Postgres.Statements.{insert_event}

-- `timestamp > $2`, of a time in nanoseconds and one in seconds.
unfoldable pub is_after : ℤ → ℕ → Bool
is_after (negsuc n) timestamp = true
is_after (pos n) timestamp = ltb (n * second) timestamp

-- `ORDER BY timestamp ASC, id ASC`
unfoldable pub is_before : Event → Event → Bool
is_before e f =
    ltb e.timestamp f.timestamp
    || e.timestamp == f.timestamp && elim (compare e.id f.id) [ Ordering.gt ↦ false | _ ↦ true ]

unfoldable pub insert_ordered : Event → List Event → List Event
unfolding is_before
insert_ordered e [] = e ∷ []
insert_ordered e (f ∷ fs) =
    let rest = insert_ordered e fs in if is_before e f then e ∷ f ∷ fs else f ∷ rest

unfoldable pub order_events : List Event → List Event
unfolding insert_ordered
order_events [] = []
order_events (e ∷ es) = insert_ordered e (order_events es)

-- The first event of the newest time.
unfoldable pub newest : List Event → Option Event
newest [] = none
newest (e ∷ es) = elim (newest es) [
  | none ↦ some e
  | some f ↦ if ltb e.timestamp f.timestamp then some f else some e
]

unfoldable pub events_of : String → List Event → List Event
unfolding select
events_of beer_id events = select (λ ev. str_eq ev.beer_id beer_id) events

-- `ListSince`
unfoldable pub list_since : String → ℤ → Exec Db (List Event)
unfolding run events_of order_events is_after select
list_since beer_id since = run λ db. (
  ok (order_events (select (λ ev. is_after since ev.timestamp) (events_of beer_id db.events))),
  db,
)

-- `LatestEvent`: the member is the text of the data, which the parameter encodes.
unfoldable pub latest_event : (List (String × String) → String) → String → Exec Db String
unfolding run events_of newest
latest_event marshal beer_id = run λ db. (
  elim (newest (events_of beer_id db.events)) [ none ↦ ok "" | some ev ↦ ok (marshal ev.payload) ],
  db,
)

-- `PostgresStore`
unfoldable pub postgres_store : (List (String × String) → String) → EventStore Db
unfolding insert_event list_since latest_event
postgres_store marshal = record {
  publish = λ beer_id ev. insert_event (record ev { beer_id = beer_id });
  publish_cache = none;
  list_since = list_since;
  latest_event = latest_event marshal;
}
