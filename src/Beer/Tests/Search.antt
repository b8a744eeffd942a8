-- ===== src/Beer/Tests/Search.antt =====
-- Searches at a concrete query (internal/beer/repository/beer_repository.go).
use beer_avaliation_api.Base.{pos, ◌+◌, ◌<◌, none, [], ◌∷◌, ◌++◌, length, All}
use beer_avaliation_api.Beer.Model.{BeerFilters}
use beer_avaliation_api.Beer.Search.{search_statement, fuzzy_statement}
use beer_avaliation_api.Beer.Search.Placeholders.{
  Follows, search_statement-Follows, fuzzy_statement_short,
}

abbrev pilsners : BeerFilters
pilsners = record {
  query = "pils";
  style = "Pilsner";
  min_alcohol = none;
  max_alcohol = none;
  taste = "Amargo";
  page = pos 1;
  page_size = pos 5;
  fuzzy = none;
}

search_statement-Follows_example :
    Follows 1
      ((search_statement pilsners).conditions
        ++ (("limit", (search_statement pilsners).limit_at)
            ∷ ("offset", (search_statement pilsners).offset_at)
            ∷ []))
      (length (search_statement pilsners).args + 1)
search_statement-Follows_example = search_statement-Follows pilsners

fuzzy_statement_short_example :
    All (λ c. c.1 < length (fuzzy_statement pilsners).args) (fuzzy_statement pilsners).conditions
    × ((fuzzy_statement pilsners).limit_at < length (fuzzy_statement pilsners).args)
    × ((fuzzy_statement pilsners).offset_at < length (fuzzy_statement pilsners).args)
fuzzy_statement_short_example = fuzzy_statement_short pilsners
