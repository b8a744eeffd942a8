-- ===== src/Beer/Search.antt =====
-- The statements of `SearchBeers` of internal/beer/repository/beer_repository.go: which placeholder
-- each condition is written with, and the arguments in order. The text of the statement and its
-- rows are left out; a condition is named by its column.
pub mod Placeholders
use beer_avaliation_api.Base.{
  ℤ, ℕ, ◌+◌, String, Option, none, some, List, [], ◌∷◌, ◌++◌, if◌then◌else◌, str_eq, length,
}
use beer_avaliation_api.Beer.Model.{Float64, BeerFilters}

-- `skip page size` is `(page-1)*size`.
pub data Argument : Type 0 where
  text : String → Argument
  number : Float64 → Argument
  count : ℤ → Argument
  skip : ℤ → ℤ → Argument

-- `qb`, `args` and `argPosition`.
pub record Builder : Type 0 where
  pub conditions : List (String × ℕ)
  pub args : List Argument
  pub position : ℕ

-- A condition at the next placeholder, without the step of `argPosition`.
abbrev pub put_condition : String → Argument → Builder → Builder
put_condition column value b = record b {
  conditions = b.conditions ++ ((column, b.position) ∷ []);
  args = b.args ++ (value ∷ []);
}

abbrev pub add_condition : String → Argument → Builder → Builder
add_condition column value b = record (put_condition column value b) { position = b.position + 1 }

unfoldable pub add_text : String → String → Builder → Builder
add_text column value b = if str_eq value "" then b else add_condition column (text value) b

unfoldable pub add_number : String → Option Float64 → Builder → Builder
add_number column none b = b
add_number column (some value) b = add_condition column (number value) b

-- The conditions on the style and the alcohol.
unfoldable pub add_filters : BeerFilters → Builder → Builder
unfolding add_text add_number
add_filters filters b =
    add_number "max_alcohol" filters.max_alcohol
      (add_number "min_alcohol" filters.min_alcohol (add_text "style" filters.style b))

-- A statement as it is sent.
pub record Statement : Type 0 where
  pub conditions : List (String × ℕ)
  pub limit_at : ℕ
  pub offset_at : ℕ
  pub args : List Argument

abbrev pub paged : BeerFilters → Builder → Statement
paged filters b = record {
  conditions = b.conditions;
  limit_at = b.position;
  offset_at = b.position + 1;
  args = b.args ++ (count filters.page_size ∷ skip filters.page filters.page_size ∷ []);
}

-- The start of the statement: the condition of the full text search, if there is a query.
unfoldable pub start : BeerFilters → Builder
start filters =
    if str_eq filters.query ""
    then record { conditions = []; args = []; position = 1 }
    else record {
      conditions = ("search_vector", 1) ∷ [];
      args = text filters.query ∷ [];
      position = 2;
    }

-- The condition on the taste in the first statement, after which `argPosition` does not step.
unfoldable pub put_taste : String → Builder → Builder
put_taste taste b = if str_eq taste "" then b else put_condition "taste" (text taste) b

-- The first statement; its `argPosition` is set again from the arguments before the page.
unfoldable pub search_statement : BeerFilters → Statement
unfolding start add_filters put_taste
search_statement filters =
    let b = put_taste filters.taste (add_filters filters (start filters)) in
    paged filters (record b { position = length b.args + 1 })

-- The statement of the fallback, sent when the first one counted no beers for a query.
unfoldable pub fuzzy_statement : BeerFilters → Statement
unfolding add_filters add_text
fuzzy_statement filters =
    let similar : Builder = record {
      conditions = ("similarity", 1) ∷ [];
      args = text filters.query ∷ [];
      position = 1;
    } in
    paged filters (add_text "taste" filters.taste (add_filters filters similar))
