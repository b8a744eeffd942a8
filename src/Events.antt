-- ===== src/Events.antt =====
-- pkg/events/composite_store.go: a cache of events before a durable store.
mod Tests
use beer_avaliation_api.Base.{
  ◌≡◌, ◌⊎◌, inl, inr, refl, ℤ, String, Bool, Option, none, some, List, [], ◌∷◌, if◌then◌else◌,
  str_eq, arith, Option-cases,
}
use beer_avaliation_api.Errors.{Error}
use beer_avaliation_api.Results.{Result, ok, err, Exec, pure, Result-cases}
use beer_avaliation_api.Beer.Repository.{Event, EventStore}

-- `Store`: what reads events.
pub record Reader (S : Type 0) : Type 0 where
  pub list_since : String → ℤ → Exec S (List Event)
  pub latest_event : String → Exec S String

-- `Publisher`; `reader` is there for one that is a `Store` too.
pub record Primary (S : Type 0) : Type 0 where
  pub publish : String → Event → Exec S Unit
  pub reader : Option (Reader S)

module _ {S : Type 0} (primary : Option (Primary S)) (fallback : Option (EventStore S)) where
  abbrev from_fallback : String → ℤ → Exec S (List Event)
  from_fallback beer_id since = elim fallback [
    | none ↦ pure []
    | some store ↦ store.list_since beer_id since
  ]

  abbrev listed : String → ℤ → Result (List Event) × S → Result (List Event) × S
  listed beer_id since (ok (e ∷ es), s) = (ok (e ∷ es), s)
  listed beer_id since (ok [], s) = from_fallback beer_id since s
  listed beer_id since (err e, s) = from_fallback beer_id since s

  abbrev reader_of : Option (Primary S) → Option (Reader S)
  reader_of none = none
  reader_of (some p) = p.reader

  -- `ListSince`
  unfoldable pub list_since : String → ℤ → Exec S (List Event)
  list_since beer_id since s = elim (reader_of primary) [
    | none ↦ from_fallback beer_id since s
    | some r ↦ listed beer_id since (r.list_since beer_id since s)
  ]

  abbrev newest_of_fallback : String → Exec S String
  newest_of_fallback beer_id = elim fallback [
    | none ↦ pure ""
    | some store ↦ store.latest_event beer_id
  ]

  abbrev newest : String → Result String × S → Result String × S
  newest beer_id (ok member, s) =
      let below = newest_of_fallback beer_id s in if str_eq member "" then below else (ok member, s)
  newest beer_id (err e, s) = newest_of_fallback beer_id s

  -- `LatestEvent`
  unfoldable pub latest_event : String → Exec S String
  latest_event beer_id s = elim (reader_of primary) [
    | none ↦ newest_of_fallback beer_id s
    | some r ↦ newest beer_id (r.latest_event beer_id s)
  ]

  -- The cache is refreshed, and what comes of it is dropped.
  abbrev refreshed : String → Event → S → Result (Unit {0}) × S
  refreshed beer_id ev s = elim primary [
    | none ↦ (ok tt, s)
    | some p ↦ (ok tt, (p.publish beer_id ev s).1)
  ]

  abbrev then_refresh : String → Event → Result (Unit {0}) × S → Result (Unit {0}) × S
  then_refresh beer_id ev (ok u, s) = refreshed beer_id ev s
  then_refresh beer_id ev (err e, s) = (err e, s)

  -- `Publish`
  unfoldable pub publish : String → Event → Exec S Unit
  publish beer_id ev s = elim fallback [
    | none ↦ refreshed beer_id ev s
    | some store ↦ then_refresh beer_id ev (store.publish beer_id ev s)
  ]

  -- `PublishCache`
  unfoldable pub publish_cache : String → Event → Exec S Unit
  publish_cache beer_id ev s = elim primary [ none ↦ (ok tt, s) | some p ↦ p.publish beer_id ev s ]

  -- `CompositeStore`
  unfoldable pub composite_store : EventStore S
  unfolding publish publish_cache list_since latest_event
  composite_store = record {
    publish = publish;
    publish_cache = some publish_cache;
    list_since = list_since;
    latest_event = latest_event;
  }

-- Whether an event is published is up to the durable store: the answer is its answer, whatever the
-- cache does, and where it refuses the event the cache is not told. A reader is given the events of
-- the cache if it has any, and those of the durable store if it has none or fails.
pub composite_store_cases :
    {S : Type 0} (p : Primary S) (r : Reader S) (store : EventStore S) (beer_id : String)
    (ev : Event) (since : ℤ) (s : S)
    → p.reader ≡ some r
    → ((publish (some p) (some store) beer_id ev s).0 ≡ (store.publish beer_id ev s).0)
      × ((e : Error)
          → (store.publish beer_id ev s).0 ≡ err e
          → publish (some p) (some store) beer_id ev s ≡ store.publish beer_id ev s)
      × ((e : Event) (es : List Event) (s' : S)
          → r.list_since beer_id since s ≡ (ok (e ∷ es), s')
          → list_since (some p) (some store) beer_id since s ≡ (ok (e ∷ es), s'))
      × ((s' : S) (seen : Result (List Event))
          → r.list_since beer_id since s ≡ (seen, s')
          → (seen ≡ ok []) ⊎ ((e : Error) × (seen ≡ err e))
          → list_since (some p) (some store) beer_id since s ≡ store.list_since beer_id since s')
unfolding publish list_since
composite_store_cases p r store beer_id ev since s reads =
    let (answer, t) = store.publish beer_id ev s in
    (
      elim (Result-cases answer) [
        | inl (u, done) ↦ ground (arith, done)
        | inr (e, failed) ↦ ground (arith, failed)
      ],
      λ e failed. ground (arith, failed),
      λ e es s' got. ground (arith, reads, got),
      λ s' seen got missed. ground (arith, reads, got, missed),
    )
