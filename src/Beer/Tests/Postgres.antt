-- ===== src/Beer/Tests/Postgres.antt =====
-- The PostgreSQL repository of beers on concrete tables (internal/beer/repository), and the
-- moderator of OpenAI (pkg/moderation).
use beer_avaliation_api.Base.{
  map, ℕ, ◌/◌, ◌≡◌, ◌≢◌, ◌⊎◌, refl, String, Bool, true, false, none, some, List, [], ◌∷◌, ◌++◌,
  arith, str_eq, eq_iff,
}
use beer_avaliation_api.Base.Text.{trim_space}
use beer_avaliation_api.Errors.{Error}
use beer_avaliation_api.Results.{Result, ok, err, Exec}
use beer_avaliation_api.User.Model.{missing}
use beer_avaliation_api.Http.{read_body, respond, send_response, decoded, json, with_body}
use beer_avaliation_api.Beer.Model.{Beer, BeerFilters, set_rating_aggregates, rating_sums}
use beer_avaliation_api.Beer.Repository.{Event}
use beer_avaliation_api.Beer.Usecase.Catalog.{remove, update}
use beer_avaliation_api.Beer.Usecase.Refines.{CommentTable}
use beer_avaliation_api.Middleware.Context.{is_admin}
use beer_avaliation_api.Beer.Usecase.Changes.{
  can_modify, with_repo, commit, new_beer_event, publish_event_cache,
}
use beer_avaliation_api.Beer.Controller.Writes.{
  when_valid, validate_beer, update_beer, received_update,
}
use beer_avaliation_api.Beer.Controller.{beer_payload}
use beer_avaliation_api.Beer.Postgres.{
  value, Row, Db, find_row, run, read_row, scan_row, read_by_id, get_by_id, update_rows, set_row,
  unmarshal,
}
use beer_avaliation_api.Beer.Postgres.Statements.{
  update as write_beer, write_rows, insert_event, put_event,
}
use mathlib.Core.List.{Perm}
use beer_avaliation_api.Beer.Postgres.Pages.{scroll, scroll-Perm}
use beer_avaliation_api.Beer.Postgres.Tables.{comments_view}
use beer_avaliation_api.Beer.Postgres.Transactions.{
  tables, transaction, begin_tx, commit_tx, exec_in_tx_with_event, exec_in_tx_with_event_cases,
  postgres_repository,
}
use beer_avaliation_api.Beer.Postgres.Events.{postgres_store}
use beer_avaliation_api.Beer.Postgres.Promises.{store_of, remove_blocked, postgres_table}
use beer_avaliation_api.Beer.Postgres.Puts.{Updates, update_beer-Updates}
use beer_avaliation_api.Beer.Filters.{
  Reply, Outcome, replied, openai_moderator, openai_moderator-flagged,
}
use beer_avaliation_api.Beer.Usecase.Comments.{moderated}
use beer_avaliation_api.Beer.Tests.{instant, admin, review, pils}
use beer_avaliation_api.Beer.Tests.Controller.{tools, asked}

abbrev pub row : Row
row = record {
  id = "b-1";
  name = "Pils";
  style = "Pilsner";
  description = some "golden";
  image_url = some "";
  alcohol = none;
  taste = "";
  aroma = "";
  color = "";
  body = "";
  carbonation = "";
  finish = "";
  comments = value (review ∷ []);
  media = value [];
  created_by = "ana";
  created_at = missing;
  updated_at = missing;
  purchase_location = none;
  purchase_map_url = none;
}

abbrev pub shelved : Db
shelved = record {
  beers = row ∷ [];
  events = [];
  reports = [];
  requests = [];
  clock = 7;
  faults = [];
}

abbrev two_beers : Db
two_beers = record shelved { beers = row ∷ record row { id = "b-2" } ∷ [] }

abbrev pub unsearched : BeerFilters → Exec Db (List Beer × ℕ × Bool)
unsearched filters db = (ok ([], 0, false), db)

abbrev encode : List (String × String) → String
encode payload = ""

abbrev commented : Event
commented = record {
  kind = "beer.commented";
  id = "e-1";
  beer_id = "b-1";
  payload = [];
  timestamp = 7;
}

abbrev unchanged : Exec Db Unit
unchanged db = (ok tt, db)

exec_in_tx_with_event_cases_example :
    let run : Result (Unit {0}) × Db = exec_in_tx_with_event true commented unchanged shelved in
    ((e : Error) × (run.0 ≡ err e) × (tables run.1 ≡ tables shelved))
    ⊎ ((a : Unit {0}) × (s : Db) × (t : Db) × (held : Row) × (run.0 ≡ ok a)
        × (tables s ≡ tables shelved)
        × (unchanged s ≡ (ok a, t))
        × (find_row "b-1" t.beers ≡ some held)
        × (tables run.1 ≡ (t.beers, t.events ++ (commented ∷ []), t.reports, t.requests)))
exec_in_tx_with_event_cases_example =
    exec_in_tx_with_event_cases true commented unchanged shelved
      (exec_in_tx_with_event true commented unchanged shelved).1
      (exec_in_tx_with_event true commented unchanged shelved).0 refl

remove_blocked_example :
    let run : Result (Unit {0}) × Db =
      remove
        (some (postgres_repository (λ s c. s / c) true unsearched))
        (some (postgres_store encode))
        admin
        instant
        "b-1"
        shelved in
    ((e : Error) × (run.0 ≡ err e)) × (tables run.1 ≡ tables shelved)
remove_blocked_example =
    remove_blocked (λ s c. s / c) true unsearched (postgres_store encode) admin instant "b-1"
      shelved _ _ refl

-- Two pages of one beer each hold the two beers.
scroll-Perm_example :
    (rows : List Row) × Perm rows (row ∷ record row { id = "b-2" } ∷ [])
    × (scroll (λ s c. s / c) 2 1 two_beers ≡ map (read_row (λ s c. s / c) []) rows)
scroll-Perm_example =
    scroll-Perm (λ s c. s / c) 2 1 two_beers refl (omega arith) (omega arith) (omega arith)
      (omega arith)

postgres_table_example :
    CommentTable Db
      (postgres_repository (λ s c. s / c) true unsearched)
      (some (postgres_store encode))
      comments_view
postgres_table_example = postgres_table (λ s c. s / c) true unsearched encode true

abbrev flagged : Outcome
flagged = replied (record { status = 200; results = ok (true ∷ []) })

-- An API that flags every text.
abbrev flag : String → ℕ → Outcome × ℕ
flag text s = (flagged, s)

swear-ne-blank : trim_space "swear" ≢ ""
unfolding trim_space
swear-ne-blank e =
    let differs : str_eq "swear" "" ≡ false = refl in ground (arith, differs, e, eq_iff "swear" "")

openai_moderator-flagged_example :
    ((openai_moderator flag "swear" 1).0.0 ≡ false
      → (reply : Reply) × (others : List Bool) × (flagged ≡ replied reply)
        × (reply.status ≡ 200)
        × (reply.results ≡ ok (true ∷ others)))
    × ((reply : Reply) (e : Error)
        → flagged ≡ replied reply
        → reply.status ≡ 200
        → reply.results ≡ err e
        → (x : Error) × (moderated {S = ℕ} (openai_moderator flag "swear" 1) ≡ (err x, 1)))
openai_moderator-flagged_example =
    openai_moderator-flagged flag "swear" 1 1 flagged swear-ne-blank refl

abbrev described : Beer
described = record pils { description = "new"; created_by = "ana" }

-- The change is answered with the beer.
answered :
    (update_beer tools
      (some (postgres_repository (λ s c. s / c) true unsearched))
      (store_of true encode)
      instant
      (with_body asked (decoded described))
      shelved).0.content
    ≡ json (beer_payload (received_update tools "b-1" described))
unfolding update_beer read_body when_valid validate_beer respond send_response received_update
    update with_repo can_modify is_admin commit get_by_id read_by_id scan_row read_row run find_row
    postgres_repository exec_in_tx_with_event transaction begin_tx commit_tx insert_event put_event
    write_beer write_rows update_rows set_row publish_event_cache new_beer_event postgres_store
    set_rating_aggregates rating_sums unmarshal
answered = refl

update_beer-Updates_example :
    Updates "b-1"
      (received_update tools "b-1" described)
      (row ∷ [])
      (update_beer tools
        (some (postgres_repository (λ s c. s / c) true unsearched))
        (store_of true encode)
        instant
        (with_body asked (decoded described))
        shelved).1.beers
update_beer-Updates_example =
    update_beer-Updates (λ s c. s / c) true unsearched encode tools true instant
      (with_body asked (decoded described)) described
      (beer_payload (received_update tools "b-1" described)) shelved refl refl answered
