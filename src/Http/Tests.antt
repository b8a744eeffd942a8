-- ===== src/Http/Tests.antt =====
-- Revalidation at concrete headers (pkg/response/cache.go).
use beer_avaliation_api.Base.{◌≡◌, ◌≢◌, ◌↔◌, ◌⊎◌, refl, String, true, false}
use beer_avaliation_api.Base.Text.{split_comma, trim_space}
use beer_avaliation_api.Http.Caching.{
  etag_for_version, if_none_match_matches, IsListed, if_none_match_matches_iff,
}

abbrev tag : String
tag = "\"v2\""

abbrev both : String
both = "\"v1\", \"v2\""

if_none_match_matches_iff_example :
    (if_none_match_matches both tag ≡ true)
    ↔ ((both ≢ "") × ((both ≡ "*") ⊎ ((tag ≢ "") × IsListed tag (split_comma both))))
if_none_match_matches_iff_example = if_none_match_matches_iff both tag

listed : if_none_match_matches both tag ≡ true
unfolding if_none_match_matches split_comma trim_space
listed = refl

-- A text of empty candidates does not match an empty ETag.
empty_candidates : if_none_match_matches " , " "" ≡ false
unfolding if_none_match_matches split_comma trim_space
empty_candidates = refl

-- The weak form of the ETag is another text.
weak_unlisted : if_none_match_matches "W/\"v2\"" tag ≡ false
unfolding if_none_match_matches split_comma trim_space
weak_unlisted = refl

tagged : etag_for_version "v2" ≡ tag
unfolding etag_for_version
tagged = refl
