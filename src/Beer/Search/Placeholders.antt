-- ===== src/Beer/Search/Placeholders.antt =====
-- Whether the placeholders of the statements of `SearchBeers` are those of their arguments
-- (internal/beer/repository/beer_repository.go).
use beer_avaliation_api.Base.{
  ℕ, ◌+◌, ◌≤◌, ◌<◌, ◌≡◌, refl, String, Option, none, some, List, [], ◌∷◌, ◌++◌, arith, str_eq,
  length, length-append, All, All-append, if_elim,
}
use mathlib.Core.Path.{subst}
use beer_avaliation_api.Beer.Model.{Float64, BeerFilters}
use beer_avaliation_api.Beer.Search.{
  Argument, text, number, count, skip, Builder, put_condition, add_condition, add_text, add_number,
  add_filters, start, put_taste, search_statement, fuzzy_statement,
}

-- The placeholders are `n`, `n + 1`, … up to the one before `m`.
abbrev pub Follows : ℕ → List (String × ℕ) → ℕ → Type 0
Follows n [] m = n ≡ m
Follows n ((column, p) ∷ cs) m = (p ≡ n) × Follows (n + 1) cs m

Follows-append :
    (n m : ℕ) (cs : List (String × ℕ)) (column : String)
    → Follows n cs m
    → Follows n (cs ++ ((column, m) ∷ [])) (m + 1)
Follows-append n m [] column h = (ground arith, ground arith)
Follows-append n m ((c, p) ∷ cs) column (here, rest) =
    (here, Follows-append (n + 1) m cs column rest)

Follows-append_two :
    (n m : ℕ) (cs : List (String × ℕ)) (first second : String)
    → Follows n cs m
    → Follows n (cs ++ ((first, m) ∷ (second, m + 1) ∷ [])) (m + 2)
Follows-append_two n m [] first second h = (ground arith, (ground arith, omega (arith, h)))
Follows-append_two n m ((c, p) ∷ cs) first second (here, rest) =
    (here, Follows-append_two (n + 1) m cs first second rest)

abbrev IsNumbered : Builder → Type 0
IsNumbered b = Follows 1 b.conditions b.position × (b.position ≡ length b.args + 1)

add_condition-IsNumbered :
    (column : String) (value : Argument) (b : Builder)
    → IsNumbered b
    → IsNumbered (add_condition column value b)
add_condition-IsNumbered column value b (h, k) = (
  Follows-append 1 b.position b.conditions column h,
  omega (arith, length-append b.args (value ∷ [])),
)

-- In the fallback `argPosition` is the number of arguments, and no condition lies above it.
abbrev IsBehind : Builder → Type 0
IsBehind b = All (λ c. c.1 ≤ b.position) b.conditions × (b.position ≡ length b.args)

All-le : (cs : List (String × ℕ)) (m : ℕ) → All (λ c. c.1 ≤ m) cs → All (λ c. c.1 ≤ m + 1) cs
All-le [] m h = tt
All-le (c ∷ cs) m (here, rest) = (omega arith, All-le cs m rest)

All-lt : (cs : List (String × ℕ)) (m n : ℕ) → All (λ c. c.1 ≤ m) cs → m < n → All (λ c. c.1 < n) cs
All-lt [] m n h l = tt
All-lt (c ∷ cs) m n (here, rest) l = (omega arith, All-lt cs m n rest l)

add_condition-IsBehind :
    (column : String) (value : Argument) (b : Builder)
    → IsBehind b
    → IsBehind (add_condition column value b)
add_condition-IsBehind column value b (h, k) = (
  All-append (λ c. c.1 ≤ b.position + 1) b.conditions ((column, b.position) ∷ [])
      (All-le b.conditions b.position h) (omega arith, tt),
  omega (arith, length-append b.args (value ∷ [])),
)

-- A property of builders that every condition keeps is kept by the filters.
module _ (P : Builder → Type 0)
    (keep : (column : String) (value : Argument) (b : Builder)
      → P b
      → P (add_condition column value b)) where
  add_text_keeps : (column value : String) (b : Builder) → P b → P (add_text column value b)
  unfolding add_text
  add_text_keeps column value b h =
      if_elim P (str_eq value "") {x = b} {y = add_condition column (text value) b} h
        (keep column (text value) b h)

  add_number_keeps :
      (column : String) (value : Option Float64) (b : Builder) → P b → P (add_number column value b)
  unfolding add_number
  add_number_keeps column none b h = h
  add_number_keeps column (some value) b h = keep column (number value) b h

  add_filters_keeps : (filters : BeerFilters) (b : Builder) → P b → P (add_filters filters b)
  unfolding add_filters
  add_filters_keeps filters b h =
      add_number_keeps "max_alcohol" filters.max_alcohol
        (add_number "min_alcohol" filters.min_alcohol (add_text "style" filters.style b))
        (add_number_keeps "min_alcohol" filters.min_alcohol (add_text "style" filters.style b)
          (add_text_keeps "style" filters.style b h))

start-IsNumbered : (filters : BeerFilters) → IsNumbered (start filters)
unfolding start
start-IsNumbered filters =
    if_elim IsNumbered (str_eq filters.query "")
      {x = record { conditions = []; args = []; position = 1 }}
      {y = record {
        conditions = ("search_vector", 1) ∷ [];
        args = text filters.query ∷ [];
        position = 2;
      }}
      (refl, omega arith) ((refl, omega arith), omega arith)

-- With `argPosition` set again from the arguments.
abbrev IsReady : Builder → Type 0
IsReady b = Follows 1 b.conditions (length b.args + 1)

put_taste-IsReady : (taste : String) (b : Builder) → IsNumbered b → IsReady (put_taste taste b)
unfolding put_taste
put_taste-IsReady taste b (h, k) =
    if_elim IsReady (str_eq taste "") {x = b} {y = put_condition "taste" (text taste) b}
      (subst (Follows 1 b.conditions) k h)
      (subst (Follows 1 (b.conditions ++ (("taste", b.position) ∷ [])))
        (omega (arith, length-append b.args (text taste ∷ [])))
        (Follows-append 1 b.position b.conditions "taste" h))

-- In the first statement of a search the conditions, the limit and the offset are written with the
-- placeholders from 1 on, in order and each once, as many as there are arguments.
pub search_statement-Follows :
    (filters : BeerFilters)
    → Follows 1
        ((search_statement filters).conditions
          ++ (("limit", (search_statement filters).limit_at)
              ∷ ("offset", (search_statement filters).offset_at)
              ∷ []))
        (length (search_statement filters).args + 1)
unfolding search_statement
search_statement-Follows filters =
    let b = put_taste filters.taste (add_filters filters (start filters)) in
    let page = count filters.page_size ∷ skip filters.page filters.page_size ∷ [] in
    let m = length b.args + 1 in
    let ready = put_taste-IsReady filters.taste (add_filters filters (start filters)) (
      add_filters_keeps IsNumbered add_condition-IsNumbered filters (start filters)
        (start-IsNumbered filters)) in
    let whole : m + 2 ≡ length (b.args ++ page) + 1 = omega (arith, length-append b.args page) in
    subst (Follows 1 (b.conditions ++ (("limit", m) ∷ ("offset", m + 1) ∷ []))) whole
      (Follows-append_two 1 m b.conditions "limit" "offset" ready)

-- In the statement of the fallback no placeholder reaches the last argument: the statement is always
-- sent with an argument that it has no placeholder for.
pub fuzzy_statement_short :
    (filters : BeerFilters)
    → All (λ c. c.1 < length (fuzzy_statement filters).args) (fuzzy_statement filters).conditions
      × ((fuzzy_statement filters).limit_at < length (fuzzy_statement filters).args)
      × ((fuzzy_statement filters).offset_at < length (fuzzy_statement filters).args)
unfolding fuzzy_statement
fuzzy_statement_short filters =
    let similar : Builder = record {
      conditions = ("similarity", 1) ∷ [];
      args = text filters.query ∷ [];
      position = 1;
    } in
    let b = add_text "taste" filters.taste (add_filters filters similar) in
    let page = count filters.page_size ∷ skip filters.page filters.page_size ∷ [] in
    let (h, k) =
      add_text_keeps IsBehind add_condition-IsBehind "taste" filters.taste
        (add_filters filters similar)
        (add_filters_keeps IsBehind add_condition-IsBehind filters similar
          ((omega arith, tt), omega arith)) in
    let longer = length-append b.args page in
    (
      All-lt b.conditions b.position (length (b.args ++ page)) h (omega (arith, longer, k)),
      omega (arith, longer, k),
      omega (arith, longer, k),
    )
