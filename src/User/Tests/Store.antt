-- ===== src/User/Tests/Store.antt =====
-- Runs of the store in memory (internal/user/repository/user_repository_memory.go).
use beer_avaliation_api.Base.{ℕ, ◌≡◌, ◌≢◌, refl, String, false, [], ◌∷◌, arith, str_eq, eq_iff}
use beer_avaliation_api.Results.{ok}
use beer_avaliation_api.User.Model.{User}
use beer_avaliation_api.User.Memory.{MemoryStore, find, get_by_id, get_refresh_token_by_hash}
use beer_avaliation_api.User.Tests.{ana, token}

abbrev store : MemoryStore
store = record {
  users = ana ∷ [];
  subscriptions = [];
  refresh_tokens = token ∷ [];
  next_sub_id = 0;
}

abbrev renamed : User
renamed = record ana { username = "Ana B" }

abbrev letters : ℕ → String
letters n = "a"

ana_found : (get_by_id "u-1" store).0 ≡ ok ana
unfolding get_by_id find
ana_found = refl

abbrev other_id : String
other_id = "u-2"

other-ne-ana : other_id ≢ "u-1"
other-ne-ana e =
    let differs : str_eq "u-2" "u-1" ≡ false = refl in ground (arith, differs, eq_iff "u-2" "u-1")

token_found : (get_refresh_token_by_hash "u-1" "raw" store).0 ≡ ok token
unfolding get_refresh_token_by_hash find
token_found = refl
