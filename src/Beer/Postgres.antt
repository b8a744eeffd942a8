-- ===== src/Beer/Postgres.antt =====
-- internal/beer/repository/beer_repository.go: the statements of the PostgreSQL repository, as what
-- they do to the tables `beers` and `beer_events` that internal/app/migrations declares.
pub mod Statements
pub mod Pages
pub mod Transactions
pub mod Tables
pub mod Events
pub mod Moderation
pub mod Decisions
pub mod Promises
pub mod Puts
use beer_avaliation_api.Base.{
  ◌≡◌, ◌⊎◌, inl, inr, refl, ℕ, zero, suc, ◌+◌, ◌-◌, ◌*◌, ℤ, pos, negsuc, String, Bool, true, false,
  not, ◌&&◌, Option, none, some, List, [], ◌∷◌, ◌++◌, map, if◌then◌else◌, str_eq, ltb, ◌==◌, length,
  select,
}
use Prim.Native.String.{compare}
use Prim.Native.Nat.{Ordering}
use beer_avaliation_api.Errors.{Error, nil, plain, wrap, new_app_error, new_unavailable_error}
use beer_avaliation_api.Results.{Result, ok, err, Exec}
use beer_avaliation_api.User.Model.{Timestamp, rfc3339}
use beer_avaliation_api.Beer.Model.{Float64, Beer, Comment, MediaItem, set_rating_aggregates}
use beer_avaliation_api.Beer.Repository.{Event}
use beer_avaliation_api.Beer.Usecase.Comments.{cut_comment}
use beer_avaliation_api.Beer.Moderation.{BeerReport, BeerDeletionRequest}

-- A JSONB column as Go reads it: empty, not decoded into the type, or a value.
pub data Json {ℓ} (A : Type ℓ) : Type ℓ where
  blank : Json A
  undecodable : Json A
  value : A → Json A

-- A row of `beers`; the columns that may be NULL are options.
pub record Row : Type 0 where
  pub id : String
  pub name : String
  pub style : String
  pub description : Option String
  pub image_url : Option String
  pub alcohol : Option Float64
  pub taste : String
  pub aroma : String
  pub color : String
  pub body : String
  pub carbonation : String
  pub finish : String
  pub comments : Json (List Comment)
  pub media : Json (List MediaItem)
  pub created_by : String
  pub created_at : Timestamp
  pub updated_at : Timestamp
  pub purchase_location : Option String
  pub purchase_map_url : Option String

-- The two tables, the time of the server, and the faults that the next statements meet: a statement
-- takes one from the list, and `none` lets it through. A fault stands for the network, for a value
-- that the server refuses, and for all else that is not written in the statement.
pub record Db : Type 0 where
  pub beers : List Row
  pub events : List Event
  pub reports : List BeerReport
  pub requests : List BeerDeletionRequest
  pub clock : ℕ
  pub faults : List (Option Error)

abbrev faulty : {A : Type 0} → List (Option Error) → (Db → Result A × Db) → Db → Result A × Db
faulty [] f db = f db
faulty (none ∷ faults) f db = f (record db { faults = faults })
faulty (some e ∷ faults) f db = (err e, record db { faults = faults })

-- A statement that is sent.
unfoldable pub run : {A : Type 0} → (Db → Result A × Db) → Exec Db A
run f db = faulty db.faults f db

-- A statement that is sent meets a fault and does nothing, or runs on the tables as they are.
pub run_cases :
    {A : Type 0} (f : Db → Result A × Db) (db : Db)
    → ((e : Error) × (faults : List (Option Error)) × (run f db
          ≡ (err e, record db { faults = faults })))
      ⊎ ((faults : List (Option Error)) × (run f db ≡ f (record db { faults = faults })))
unfolding run
run_cases f db = go db.faults
  where
    go :
        (faults : List (Option Error))
        → ((e : Error) × (rest : List (Option Error)) × (faulty faults f db
              ≡ (err e, record db { faults = rest })))
          ⊎ ((rest : List (Option Error)) × (faulty faults f db ≡ f (record db { faults = rest })))
    go [] = inr (db.faults, refl)
    go (none ∷ faults) = inr (faults, refl)
    go (some e ∷ faults) = inl (e, faults, refl)

unfoldable pub find_row : String → List Row → Option Row
find_row id [] = none
find_row id (row ∷ rows) =
    let rest = find_row id rows in if str_eq row.id id then some row else rest

-- `unmarshalComments` and `unmarshalMedia`
unfoldable pub unmarshal {ℓ} : {A : Type ℓ} → Json (List A) → List A
unmarshal blank = []
unmarshal undecodable = []
unmarshal (value xs) = xs

-- The `String` of a `sql.NullString`
abbrev pub null_string : Option String → String
null_string none = ""
null_string (some text) = text

abbrev pub beer_not_found : Error
unfolding new_app_error
beer_not_found = new_app_error 404 "beer not found" nil

-- What the server says of a key that is there, and of one that is missing.
abbrev pub duplicate_key : Error
duplicate_key = plain "duplicate key value violates unique constraint"

abbrev pub foreign_key : Error
foreign_key = plain "insert or update violates foreign key constraint"

-- `$12` of the statement of `Update`: an empty URL keeps the old one.
abbrev coalesce_url : String → Option String → Option String
coalesce_url url old = if str_eq url "" then old else some url

-- The `SET` of `Update`, and the trigger `set_updated_at`.
unfoldable pub set_row : ℕ → Beer → Row → Row
set_row clock beer row = record row {
  name = beer.name;
  style = beer.style;
  taste = beer.taste;
  aroma = beer.aroma;
  color = beer.color;
  body = beer.body;
  carbonation = beer.carbonation;
  alcohol = beer.alcohol;
  finish = beer.finish;
  comments = value beer.comments;
  media = value beer.media;
  image_url = coalesce_url beer.image_url row.image_url;
  purchase_location = beer.purchase_location;
  purchase_map_url = beer.purchase_map_url;
  updated_at = rfc3339 clock;
}

unfoldable pub update_rows : (Row → Row) → String → List Row → List Row
update_rows f id [] = []
update_rows f id (row ∷ rows) =
    let rest = update_rows f id rows in if str_eq row.id id then f row ∷ rest else row ∷ rest

-- The row that `Create` inserts; `media` and `updated_at` have defaults.
unfoldable pub new_row : ℕ → Beer → Row
new_row clock beer = record {
  id = beer.id;
  name = beer.name;
  style = beer.style;
  description = some beer.description;
  image_url = some beer.image_url;
  alcohol = beer.alcohol;
  taste = beer.taste;
  aroma = beer.aroma;
  color = beer.color;
  body = beer.body;
  carbonation = beer.carbonation;
  finish = beer.finish;
  comments = value beer.comments;
  media = value [];
  created_by = beer.created_by;
  created_at = beer.created_at;
  updated_at = rfc3339 clock;
  purchase_location = beer.purchase_location;
  purchase_map_url = beer.purchase_map_url;
}

abbrev pub has_id : String → Row → Bool
has_id id row = str_eq row.id id

-- `round_tenths` is the rounding of `setRatingAggregates`.
module _ (round_tenths : ℕ → ℕ → ℕ) where
  -- A row as the lists read it: NULL is the empty text.
  unfoldable pub read_row : List MediaItem → Row → Beer
  unfolding unmarshal set_rating_aggregates
  read_row media row = set_rating_aggregates round_tenths (record {
    id = row.id;
    name = row.name;
    style = row.style;
    description = null_string row.description;
    image_url = null_string row.image_url;
    alcohol = row.alcohol;
    taste = row.taste;
    aroma = row.aroma;
    color = row.color;
    body = row.body;
    carbonation = row.carbonation;
    finish = row.finish;
    comments = unmarshal row.comments;
    media = media;
    created_by = row.created_by;
    created_at = row.created_at;
    updated_at = row.updated_at;
    purchase_location = row.purchase_location;
    purchase_map_url = row.purchase_map_url;
    average_rating = 0;
    total_reviews = 0;
  })

  -- The scan of `GetByID`, into texts that cannot hold NULL.
  unfoldable pub scan_row : Row → Result Beer
  unfolding unmarshal read_row
  scan_row row = elim row.description [
    | none ↦ err (plain "converting NULL to string is unsupported")
    | some d ↦ elim row.image_url [
      | none ↦ err (plain "converting NULL to string is unsupported")
      | some u ↦ ok (read_row (unmarshal row.media) row)
    ]
  ]

  unfoldable pub read_by_id : String → Db → Result Beer × Db
  unfolding find_row scan_row
  read_by_id id db =
      (elim (find_row id db.beers) [ none ↦ err beer_not_found | some row ↦ scan_row row ], db)

  -- `GetByID`
  unfoldable pub get_by_id : String → Exec Db Beer
  unfolding run read_by_id
  get_by_id id = run (read_by_id id)

  -- `GetAll`; the server may give the rows in any order.
  unfoldable pub get_all : Exec Db (List Beer)
  unfolding run read_row unmarshal
  get_all db =
      let (r, db') =
        run (λ d. (ok (map (λ row. read_row (unmarshal row.media) row) d.beers), d)) db in
      elim r [ ok beers ↦ (ok beers, db') | err e ↦ (err (wrap "failed to get beers" e), db') ]
