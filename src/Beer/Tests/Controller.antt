-- ===== src/Beer/Tests/Controller.antt =====
-- The handlers for beers at concrete requests (internal/beer/delivery/http).
use beer_avaliation_api.Base.{
  ◌+◌, ◌*◌, ◌-◌, ◌≤◌, ◌<◌, ◌≡◌, ◌≢◌, refl, ℕ, pos, true, false, none, some, [], ◌∷◌, arith, str_eq,
  eq_iff,
}
use beer_avaliation_api.Errors.{plain}
use beer_avaliation_api.Results.{ok}
use beer_avaliation_api.Http.{absent, undecoded, decoded, Request, with_body, header_set}
use beer_avaliation_api.Http.Statuses.{IsAnswered}
use beer_avaliation_api.Beer.Controller.{Tools}
use beer_avaliation_api.Beer.Controller.Paging.{
  at_least_one, link_text, link_target, join_links, set_pagination_links,
}
use beer_avaliation_api.Beer.Controller.Paging.Links.{set_pagination_links_cases}
use beer_avaliation_api.Beer.Controller.Writes.{
  create_beer, update_beer, delete_beer, add_comment_to_beer,
}
use beer_avaliation_api.Beer.Controller.Protected.{IsRefused, rejected_input, forbidden_changes}
use beer_avaliation_api.Beer.Tests.{
  shelf_repository, no_events, instant, visitor, review, pils, picture, shelf, visitor-MayModify,
}

abbrev pub tools : Tools
tools = record {
  site = record {
    problem_type = λ code. code;
    status_text = λ status. "";
    rfc3339_text = λ seconds. "";
  };
  sanitize = λ text. text;
  validate_beer = λ beer. none;
  validate_comment = λ comment. some (record { text = "text is required"; fields = none });
  marshal = λ payload. ok "";
  sha256_hex = λ text. text;
  hash8_hex = λ text. text;
  parse_float = λ text. none;
  to_lower = λ text. text;
}

-- A request for the beer `b-1` by a visitor.
abbrev pub asked : Request (Unit {0})
asked = record {
  path = "/api/beers";
  host = "api.example";
  is_tls = true;
  id = "b-1";
  comment_id = "";
  query = ("page", "3") ∷ [];
  headers = [];
  body = absent;
  context = visitor;
  trace = "";
}

set_pagination_links_cases_example :
    (45 ≤ at_least_one (pos 2) * 20
      → set_pagination_links asked (pos 2) (pos 20) 45 "/api/beers" [] ≡ [])
    × (at_least_one (pos 2) * 20 < 45
        → (last : ℕ) × (45 ≤ last * 20)
          × ((last - 1) * 20 < 45)
          × (set_pagination_links asked (pos 2) (pos 20) 45 "/api/beers" []
              ≡ header_set "Link"
                  (join_links
                    (link_text
                      (link_target asked "/api/beers")
                      (at_least_one (pos 2) + 1)
                      (pos 20)
                      "next")
                    (link_text (link_target asked "/api/beers") last (pos 20) "last" ∷ []))
                  []))
set_pagination_links_cases_example =
    set_pagination_links_cases asked (pos 2) 20 45 "/api/beers" [] (omega arith) (omega arith)

rejected_input_example :
    IsRefused shelf
      (create_beer tools (some shelf_repository) no_events instant (with_body asked absent) shelf)
    × IsRefused shelf (
        update_beer tools
          (some shelf_repository)
          no_events
          instant
          (with_body asked (undecoded (plain "unexpected EOF")))
          shelf)
    × IsRefused shelf (
        add_comment_to_beer tools
          (some shelf_repository)
          no_events
          none
          instant
          "c-2"
          (with_body asked (decoded review))
          shelf)
unfolding beer_avaliation_api.Errors.as_app
rejected_input_example =
    rejected_input tools (some shelf_repository) no_events none instant "c-2"
      (with_body asked absent) (with_body asked (undecoded (plain "unexpected EOF")))
      (with_body asked (decoded review)) shelf tt refl (_, refl)

visitor-ne-admin : visitor.role ≢ some "admin"
visitor-ne-admin e =
    let role : str_eq "user" "admin" ≡ false = refl in
    ground (arith, role, e, eq_iff "user" "admin")

forbidden_changes_example :
    IsAnswered shelf 403 (
      update_beer tools
        (some shelf_repository)
        no_events
        instant
        (with_body asked (decoded pils))
        shelf)
    × IsAnswered shelf 403 (delete_beer tools (some shelf_repository) no_events instant asked shelf)
forbidden_changes_example =
    forbidden_changes tools shelf_repository no_events instant (with_body asked (decoded pils))
      asked pils pils pils picture shelf shelf shelf refl refl refl visitor-MayModify refl
      visitor-ne-admin
