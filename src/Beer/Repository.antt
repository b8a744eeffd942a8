-- ===== src/Beer/Repository.antt =====
-- The interfaces that the beer usecases take: `BeerRepository` of
-- internal/beer/repository/beer_repository.go, the event store of pkg/events/events.go and the
-- moderator of pkg/moderation/moderator.go, as actions on one state.
use beer_avaliation_api.Base.{ℤ, ℕ, String, Bool, Option, List}
use beer_avaliation_api.Errors.{Error}
use beer_avaliation_api.Results.{Exec}
use beer_avaliation_api.Beer.Model.{Beer, BeerFilters}

-- `events.Event`; the payload is a list of names and texts, and the timestamp is in nanoseconds.
pub record Event : Type 0 where
  pub kind : String
  pub id : String
  pub beer_id : String
  pub payload : List (String × String)
  pub timestamp : ℕ

-- The function that runs in a transaction is given the same repository: the methods of a
-- transactional repository act on the state within the transaction. `exec_in_tx_with_event` is
-- `none` for a repository without that method; its function returns what the source's function
-- assigns to a captured variable.
pub record BeerRepository (S : Type 0) : Type 1 where
  pub get_all : Exec S (List Beer)
  pub create : Beer → Exec S Unit
  pub get_paginated : ℤ → ℤ → Exec S (List Beer × ℕ)
  pub get_by_id : String → Exec S Beer
  pub update : String → Beer → Exec S Unit
  pub remove : String → Exec S Unit
  pub search_beers : BeerFilters → Exec S (List Beer × ℕ × Bool)
  pub exec_in_tx : Exec S Unit → Exec S Unit
  pub exec_in_tx_with_event : Option ((A : Type 0) → Event → Exec S A → Exec S A)

-- `publish_cache` is `none` for a store without that method. The time of `list_since` is in whole
-- seconds, as its one caller makes it. `latest_event` gives the member of the newest event, empty if
-- there is none; its score, which no caller reads, is left out.
pub record EventStore (S : Type 0) : Type 0 where
  pub publish : String → Event → Exec S Unit
  pub publish_cache : Option (String → Event → Exec S Unit)
  pub list_since : String → ℤ → Exec S (List Event)
  pub latest_event : String → Exec S String

-- `Moderator`: the answer and the error stand side by side.
abbrev pub Moderator : Type 0 → Type 0
Moderator S = String → S → (Bool × Error) × S
