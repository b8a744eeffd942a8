-- ===== src/Beer/Controller/Reads.antt =====
-- The handlers that read beers and events (internal/beer/delivery/http/beer_controller.go, feed.go).
use beer_avaliation_api.Base.Text.{byte_length}
use Prim.Native.String.{◌++◌ as str_append, len, find}
use beer_avaliation_api.Base.{
  ℕ, ℤ, pos, negsuc, String, Bool, true, false, ◌||◌, Option, none, some, List, [], ◌∷◌, map,
  length, if◌then◌else◌, str_eq, ltb, leb, ◌==◌,
}
use beer_avaliation_api.Base.Integer.{atoi}
use beer_avaliation_api.Errors.{Error, as_app}
use beer_avaliation_api.Results.{ok, err}
use beer_avaliation_api.Http.{
  Request, query_get, header_get, Headers, header_set, Response, Handler, empty, time_text,
  send_response, send_new_problem, send_app_error, send_handled, respond,
}
use beer_avaliation_api.Http.Caching.{etag_for_version, etag_for_content, revalidated}
use beer_avaliation_api.Beer.Model.{Beer, BeerFilters}
use beer_avaliation_api.Beer.Model.Enums.{enum_values}
use beer_avaliation_api.Beer.Repository.{Event, BeerRepository, EventStore}
use beer_avaliation_api.Beer.Usecase.Catalog.{
  get_by_id, get_paginated, search_beers, list_beer_events,
}
use beer_avaliation_api.Beer.Controller.{
  Payload, beer_payload, beers_page, beers_found, feed, enums, events_since, Tools, HomeFeedItem,
}
use beer_avaliation_api.Beer.Controller.Paging.{
  clamp_page_size, get_int_param, set_pagination_links,
}

-- The end of the handlers whose ETag is the hash of the payload.
unfoldable pub send_cached {ℓ} :
    {B : Type ℓ} → Tools → Request B → Payload → String → ℕ → (Headers → Headers) → Response Payload
unfolding etag_for_content revalidated
send_cached tools req payload failure max_age links = elim (tools.marshal payload) [
  | err e ↦ send_handled tools.site req e failure 500 []
  | ok body ↦
      revalidated req (etag_for_content tools.sha256_hex body) max_age
        λ h. send_response 200 payload (links h)
]

-- `HomeFeedItem` of a beer.
unfoldable pub feed_item : Beer → HomeFeedItem
feed_item b = record {
  id = b.id;
  name = b.name;
  style = b.style;
  image_url = b.image_url;
  alcohol = b.alcohol;
  comment_count = length b.comments;
}

-- `strconv.ParseBool`
unfoldable pub parse_bool : String → Option Bool
parse_bool text =
    if str_eq text "1"
      || str_eq text "t"
      || str_eq text "T"
      || str_eq text "true"
      || str_eq text "TRUE"
      || str_eq text "True"
    then some true
    else if str_eq text "0"
        || str_eq text "f"
        || str_eq text "F"
        || str_eq text "false"
        || str_eq text "FALSE"
        || str_eq text "False"
    then some false
    else none

abbrev pub max_search_query_length : ℕ
max_search_query_length = 200

-- The filters of `SearchBeers`; a parameter that is not read is left out.
unfoldable pub filters_of {ℓ} : {B : Type ℓ} → Tools → Request B → BeerFilters
unfolding query_get get_int_param clamp_page_size parse_bool
filters_of tools req =
    let fuzzy = query_get req "fuzzy" in
    let min_alc = query_get req "minAlcohol" in
    let max_alc = query_get req "maxAlcohol" in
    record {
      query = query_get req "q";
      style = query_get req "style";
      taste = query_get req "taste";
      page = get_int_param req "page" (pos 1);
      page_size = clamp_page_size (get_int_param req "limit" (pos 10));
      fuzzy = if str_eq fuzzy "" then none else parse_bool fuzzy;
      min_alcohol = if str_eq min_alc "" then none else tools.parse_float min_alc;
      max_alcohol = if str_eq max_alc "" then none else tools.parse_float max_alc;
    }

-- `time.Time{}.Unix()`
abbrev pub year_one : ℤ
year_one = negsuc 62135596799

-- `since` of `ListBeerEvents`, in seconds.
unfoldable pub since_of {ℓ} : {B : Type ℓ} → Request B → ℤ
unfolding query_get atoi
since_of req =
    let since = query_get req "since" in
    if str_eq since ""
    then year_one
    else elim (atoi since) [ none ↦ year_one | some seconds ↦ seconds ]

-- `events.SanitizeETag`
unfoldable pub sanitize_etag : (String → String) → String → String
sanitize_etag hash8_hex member =
    if str_eq member "" then "W/\"0\"" else str_append "W/\"" (str_append (hash8_hex member) "\"")

abbrev last_id : Event → List Event → String
last_id e [] = e.id
last_id e (next ∷ es) = last_id next es

-- `GetEnums`
unfoldable pub get_enums {ℓ} : {B : Type ℓ} → Tools → Request B → Response Payload
unfolding enum_values send_cached
get_enums tools req = send_cached tools req (enums enum_values) "Failed to encode enums" 3600 λ h. h

-- `UploadBeerMedia`
unfoldable pub upload_beer_media : Tools → Response Payload
upload_beer_media tools =
    send_new_problem tools.site 501 "media_disabled" "Upload de mídia não está disponível."

-- `strings.Contains`
unfoldable pub contains_text : String → String → Bool
contains_text text part = leb (find text part) (len text)

-- The answer of `GetBeerByID` to an error.
unfoldable pub beer_not_read {ℓ} : {B : Type ℓ} → Tools → Request B → Error → Response Payload
unfolding contains_text
beer_not_read tools req e =
    let otherwise = send_handled tools.site req e "Failed to retrieve beer" 500 [] in
    elim (as_app e) [
      | none ↦ otherwise
      | some appErr ↦
          if appErr.code == 404 || contains_text (tools.to_lower appErr.detail) "not found"
          then send_app_error tools.site req appErr
          else otherwise
    ]

-- The version of a beer: its identifier and the time of its last change.
unfoldable pub beer_version : Tools → Beer → String
unfolding time_text
beer_version tools beer = str_append beer.id (str_append ":" (time_text tools.site beer.updated_at))

module _ {S : Type 0} (tools : Tools) (r : Option (BeerRepository S))
    (events : Option (EventStore S)) where
  -- `GetAllBeers`
  unfoldable pub get_all_beers : Request (Unit {0}) → Handler Payload S
  unfolding get_int_param clamp_page_size set_pagination_links send_cached get_paginated
  get_all_beers req s =
      let page = get_int_param req "page" (pos 1) in
      let page_size = clamp_page_size (get_int_param req "pageSize" (pos 10)) in
      respond (get_paginated r events page page_size s)
        (λ e.
          let status : ℕ = elim (as_app e) [ none ↦ 500 | some appErr ↦ appErr.code ] in
          send_handled tools.site req e "Failed to retrieve beers" status [])
        λ (beers, total).
          send_cached tools req (beers_page beers total page page_size) "Failed to encode beers" 30
            (set_pagination_links req page page_size total "/api/v1/beers")

  -- `GetBeerByID`
  unfoldable pub get_beer_by_id : Request (Unit {0}) → Handler Payload S
  unfolding beer_not_read etag_for_version beer_version revalidated get_by_id
  get_beer_by_id req s = respond (get_by_id r events req.id s) (beer_not_read tools req) λ beer.
      revalidated req (etag_for_version (beer_version tools beer)) 300
        λ h. send_response 200 (beer_payload beer) h

  -- `SearchBeers`
  unfoldable pub search : Request (Unit {0}) → Handler Payload S
  unfolding filters_of search_beers byte_length
  search req s =
      let filters = filters_of tools req in
      if ltb max_search_query_length (byte_length (query_get req "q"))
      then (
        send_new_problem tools.site 400 "invalid_request"
            "Search query exceeds maximum length of 200 characters",
        s,
      )
      else respond (search_beers r events filters s)
          (λ e. send_handled tools.site req e "Failed to search beers" 500 [])
          λ (beers, total, fuzzy_match).
            send_response 200 (beers_found beers total filters.page filters.page_size fuzzy_match)
              []

  -- `GetHomeFeed`
  unfoldable pub get_home_feed : Request (Unit {0}) → Handler Payload S
  unfolding get_int_param feed_item set_pagination_links send_cached get_paginated
  get_home_feed req s =
      let page = get_int_param req "page" (pos 1) in
      let page_size = get_int_param req "pageSize" (pos 20) in
      respond (get_paginated r events page page_size s)
        (λ e. send_handled tools.site req e "Failed to load home feed" 500 [])
        λ (beers, total).
          send_cached tools req
            (feed (record {
              featured = map feed_item beers;
              total = total;
              page = page;
              page_size = page_size;
            }))
            "Failed to encode home feed" 30
            (set_pagination_links req page page_size total "/api/v1/feed")

  abbrev events_headers : Headers
  unfolding header_set
  events_headers =
      header_set "Vary" "Accept-Encoding, If-None-Match" (header_set "Cache-Control" "no-cache" [])

  -- `w.Header().Set("ETag", …)`, and 304 if the client has sent it.
  unfoldable pub answer_etag {ℓ} :
      {B : Type ℓ}
      → Request B
      → String
      → Headers
      → (Headers → Handler Payload S)
      → Handler Payload S
  unfolding header_set header_get
  answer_etag req etag h rest s =
      let tagged = header_set "ETag" etag h in
      if str_eq (header_get req "If-None-Match") etag
      then (record { status = 304; headers = tagged; content = empty }, s)
      else rest tagged s

  -- `ListBeerEvents` after its look at the newest event.
  unfoldable pub list_events : Request (Unit {0}) → Headers → Handler Payload S
  unfolding since_of sanitize_etag answer_etag list_beer_events
  list_events req h s =
      let since = since_of req in
      let (listed, s') = list_beer_events r events req.id since s in
      elim listed [
        | err e ↦ (send_handled tools.site req e "Failed to list events" 500 h, s')
        | ok evts ↦
            let answer : Headers → Handler Payload S =
              λ g t. (send_response 200 (events_since evts since) g, t) in
            elim evts [
              | [] ↦ answer h s'
              | first ∷ others ↦
                  answer_etag req (sanitize_etag tools.hash8_hex (last_id first others)) h answer s'
            ]
      ]

  -- `ListBeerEvents`
  unfoldable pub list_events_of_beer : Request (Unit {0}) → Handler Payload S
  unfolding list_events
  list_events_of_beer req s =
      if str_eq req.id ""
      then (send_new_problem tools.site 400 "invalid_request" "beer id is required", s)
      else elim events [
        | none ↦ list_events req events_headers s
        | some store ↦
            let (newest, s') = store.latest_event req.id s in
            elim newest [
              | err e ↦ (
                send_handled tools.site req e "Failed to get latest event" 500 events_headers,
                s',
              )
              | ok member ↦
                  answer_etag req (sanitize_etag tools.hash8_hex member) events_headers
                    (list_events req) s'
            ]
      ]
