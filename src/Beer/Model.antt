-- ===== src/Beer/Model.antt =====
-- internal/beer/model: beers, comments, media, filters, and the allowlists of the enums.
pub mod Enums
use beer_avaliation_api.Base.{
  ℤ, ℕ, ◌+◌, ◌≤◌, ◌<◌, ◌*◌, ◌≡◌, String, Bool, true, false, ◌&&◌, Option, none, some, List, [], ◌∷◌,
  leb, ltb, if◌then◌else◌, length, arith,
}
use beer_avaliation_api.User.Model.{Timestamp}

-- A `float64`, which the program only carries: its bit pattern.
pub record Float64 : Type 0 where
  pub bits : ℕ

pub record MediaItem : Type 0 where
  pub url : String
  pub kind : String
  pub size : ℕ

pub record Comment : Type 0 where
  pub id : String
  pub text : String
  pub rating : ℕ
  pub likes : ℕ
  pub liked_by : List String
  pub created_by : String
  pub created_at : Timestamp
  pub purchase_location : Option String
  pub purchase_map_url : Option String

-- `average_rating` is in tenths: `AverageRating` has one decimal.
pub record Beer : Type 0 where
  pub id : String
  pub name : String
  pub style : String
  pub description : String
  pub image_url : String
  pub alcohol : Option Float64
  pub taste : String
  pub aroma : String
  pub color : String
  pub body : String
  pub carbonation : String
  pub finish : String
  pub comments : List Comment
  pub media : List MediaItem
  pub created_by : String
  pub created_at : Timestamp
  pub updated_at : Timestamp
  pub purchase_location : Option String
  pub purchase_map_url : Option String
  pub average_rating : ℕ
  pub total_reviews : ℕ

pub record BeerFilters : Type 0 where
  pub query : String
  pub style : String
  pub min_alcohol : Option Float64
  pub max_alcohol : Option Float64
  pub taste : String
  pub page : ℤ
  pub page_size : ℤ
  pub fuzzy : Option Bool

-- The loop of `setRatingAggregates` of internal/beer/repository/beer_repository.go: the sum and the
-- count of the ratings from 1 to 5.
unfoldable pub rating_sums : List Comment → ℕ → ℕ → ℕ × ℕ
rating_sums [] sum count = (sum, count)
rating_sums (c ∷ cs) sum count =
    let valid = leb 1 c.rating && leb c.rating 5 in
    rating_sums cs (if valid then sum + c.rating else sum) (if valid then count + 1 else count)

-- `round_tenths sum count` is `math.Round(float64(sum)/float64(count)*10)`.
unfoldable pub set_rating_aggregates : (ℕ → ℕ → ℕ) → Beer → Beer
set_rating_aggregates round_tenths b =
    let (sum, count) = rating_sums b.comments 0 0 in
    let counted : Beer = record b { total_reviews = count } in
    if ltb 0 count then record counted { average_rating = round_tenths sum count } else counted

-- Division by a positive count and rounding of floating point numbers are monotone and exact on
-- whole quotients.
pub record Rounding (round_tenths : ℕ → ℕ → ℕ) : Type 0 where
  pub above : (lo sum count : ℕ) → 0 < count → lo * count ≤ sum → 10 * lo ≤ round_tenths sum count
  pub below : (hi sum count : ℕ) → 0 < count → sum ≤ hi * count → round_tenths sum count ≤ 10 * hi

rating_sums_bounds :
    (cs : List Comment) (sum count : ℕ)
    → count ≤ sum
    → sum ≤ 5 * count
    → ((rating_sums cs sum count).1 ≤ (rating_sums cs sum count).0)
      × ((rating_sums cs sum count).0 ≤ 5 * (rating_sums cs sum count).1)
      × ((rating_sums cs sum count).1 ≤ count + length cs)
unfolding rating_sums
rating_sums_bounds [] sum count h k = (h, k, omega arith)
rating_sums_bounds (c ∷ cs) sum count h k =
    ground (
      arith,
      rating_sums_bounds cs (sum + c.rating) (count + 1),
      rating_sums_bounds cs sum count h k,
    )

-- The average of a beer with a valid rating lies between one and five, and such a beer has at most
-- as many reviews as comments.
pub set_rating_aggregates_bounds :
    (round_tenths : ℕ → ℕ → ℕ) (b : Beer)
    → Rounding round_tenths
    → 1 ≤ (set_rating_aggregates round_tenths b).total_reviews
    → ((set_rating_aggregates round_tenths b).total_reviews ≤ length b.comments)
      × (10 ≤ (set_rating_aggregates round_tenths b).average_rating)
      × ((set_rating_aggregates round_tenths b).average_rating ≤ 50)
unfolding set_rating_aggregates
set_rating_aggregates_bounds round_tenths b rounding h =
    let (sum, count) = rating_sums b.comments 0 0 in
    let (low, high, few) = rating_sums_bounds b.comments 0 0 (omega arith) (omega arith) in
    let reviewed : 0 < count = ground arith in
    (
      ground (arith, few),
      ground (arith, rounding.above 1 sum count reviewed (omega (arith, low))),
      ground (arith, rounding.below 5 sum count reviewed (omega (arith, high))),
    )
