-- ===== src/Beer/Controller.antt =====
-- internal/beer/delivery/http: the payloads of the handlers for beers and what they take from third
-- parties. The handlers are in the modules below.
pub mod Paging
pub mod Writes
pub mod Reads
pub mod Protected
use beer_avaliation_api.Base.{ℕ, ℤ, String, Bool, Option, List}
use beer_avaliation_api.Base.Dict.{Dict}
use beer_avaliation_api.Results.{Result}
use beer_avaliation_api.Http.{Site}
use beer_avaliation_api.Http.Validation.{Invalid}
use beer_avaliation_api.Beer.Model.{Float64, Beer, Comment}
use beer_avaliation_api.Beer.Model.Enums.{EnumValues}
use beer_avaliation_api.Beer.Repository.{Event}

-- `HomeFeedItem`
pub record HomeFeedItem : Type 0 where
  pub id : String
  pub name : String
  pub style : String
  pub image_url : String
  pub alcohol : Option Float64
  pub comment_count : ℕ

-- `HomeFeed`
pub record HomeFeed : Type 0 where
  pub featured : List HomeFeedItem
  pub total : ℕ
  pub page : ℤ
  pub page_size : ℤ

-- What the handlers encode. A nil slice, which they turn into an empty one, is a list without
-- elements; `beers_found` has the page of a search and its `fuzzy_match`.
pub data Payload : Type 0 where
  beer_payload : Beer → Payload
  fields : Dict String → Payload
  beers_page : List Beer → ℕ → ℤ → ℤ → Payload
  beers_found : List Beer → ℕ → ℤ → ℤ → Bool → Payload
  feed : HomeFeed → Payload
  enums : EnumValues → Payload
  events_since : List Event → ℤ → Payload

-- `sanitize` is bluemonday's policy, the validators are go-playground's with the rules of the
-- struct tags, `marshal` is `json.Marshal`, `sha256_hex` is the hash of an encoded payload, and `hash8_hex` is the hash of a
-- text, cut to eight bytes.
pub record Tools : Type 0 where
  pub site : Site
  pub sanitize : String → String
  pub validate_beer : Beer → Option Invalid
  pub validate_comment : Comment → Option Invalid
  pub marshal : Payload → Result String
  pub sha256_hex : String → String
  pub hash8_hex : String → String
  pub parse_float : String → Option Float64
  pub to_lower : String → String
