-- ===== src/Events/Tests.antt =====
-- The composite store with a cache and a durable store that are lists of events
-- (pkg/events/composite_store.go).
use beer_avaliation_api.Base.{◌≡◌, ◌⊎◌, refl, pos, none, some, List, [], ◌∷◌}
use beer_avaliation_api.Errors.{Error}
use beer_avaliation_api.Results.{Result, ok, err}
use beer_avaliation_api.Beer.Repository.{Event, EventStore}
use beer_avaliation_api.Events.{Reader, Primary, list_since, publish, composite_store_cases}

-- What the cache holds, and what the durable store holds.
abbrev Both : Type 0
Both = List Event × List Event

abbrev liked : Event
liked = record { id = "e1"; kind = "beer.liked"; beer_id = "b1"; payload = []; timestamp = 7 }

abbrev reader : Reader Both
reader = record {
  list_since = λ beer_id since s. (ok s.0, s);
  latest_event = λ beer_id s. (ok "", s);
}

abbrev cache : Primary Both
cache = record { publish = λ beer_id ev s. (ok tt, (ev ∷ s.0, s.1)); reader = some reader }

abbrev durable : EventStore Both
durable = record {
  publish = λ beer_id ev s. (ok tt, (s.0, ev ∷ s.1));
  publish_cache = none;
  list_since = λ beer_id since s. (ok s.1, s);
  latest_event = λ beer_id s. (ok "", s);
}

composite_store_cases_example :
    ((publish (some cache) (some durable) "b1" liked ([], [])).0
      ≡ (durable.publish "b1" liked ([], [])).0)
    × ((e : Error)
        → (durable.publish "b1" liked ([], [])).0 ≡ err e
        → publish (some cache) (some durable) "b1" liked ([], [])
          ≡ durable.publish "b1" liked ([], []))
    × ((e : Event) (es : List Event) (s' : Both)
        → reader.list_since "b1" (pos 0) ([], []) ≡ (ok (e ∷ es), s')
        → list_since (some cache) (some durable) "b1" (pos 0) ([], []) ≡ (ok (e ∷ es), s'))
    × ((s' : Both) (seen : Result (List Event))
        → reader.list_since "b1" (pos 0) ([], []) ≡ (seen, s')
        → (seen ≡ ok []) ⊎ ((e : Error) × (seen ≡ err e))
        → list_since (some cache) (some durable) "b1" (pos 0) ([], [])
          ≡ durable.list_since "b1" (pos 0) s')
composite_store_cases_example =
    composite_store_cases cache reader durable "b1" liked (pos 0) ([], []) refl

-- An event that only the durable store has is listed.
from_durable :
    list_since (some cache) (some durable) "b1" (pos 0) ([], liked ∷ [])
    ≡ (ok (liked ∷ []), ([], liked ∷ []))
unfolding list_since
from_durable = refl
