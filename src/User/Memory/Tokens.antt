-- ===== src/User/Memory/Tokens.antt =====
-- The refresh tokens and the push subscriptions of the store
-- (internal/user/repository/user_repository_memory.go).
use beer_avaliation_api.Base.{
  ℕ, ◌+◌, ◌<◌, ◌≡◌, refl, String, none, some, List, [], ◌∷◌, map, arith, str_eq, eq_iff,
  if◌then◌else◌,
}
use beer_avaliation_api.Results.{ok}
use beer_avaliation_api.User.Model.{RefreshToken}
use beer_avaliation_api.User.Memory.Search.{find-fits}
use beer_avaliation_api.User.Memory.{
  MemoryStore, revoke, has_hash, find, sub_id, get_refresh_token_by_hash, revoke_of_user,
  revoke_all_refresh_tokens,
}

abbrev pub revoked_for : String → RefreshToken → RefreshToken
revoked_for user_id t = if str_eq t.user_id user_id then revoke t else t

revoke_of_user-eq-map :
    (user_id : String) (ts : List RefreshToken)
    → revoke_of_user user_id ts ≡ map (revoked_for user_id) ts
unfolding revoke_of_user
revoke_of_user-eq-map user_id [] = refl
revoke_of_user-eq-map user_id (t ∷ ts) = ground (arith, revoke_of_user-eq-map user_id ts)

find-map_revoked :
    (user_id other token_hash : String) (ts : List RefreshToken)
    → find (has_hash other token_hash) (map (revoked_for user_id) ts)
      ≡ (elim (find (has_hash other token_hash) ts) [
        | none ↦ none
        | some t ↦ some (revoked_for user_id t)
      ])
unfolding find
find-map_revoked user_id other token_hash [] = refl
find-map_revoked user_id other token_hash (t ∷ ts) =
    ground (arith, find-map_revoked user_id other token_hash ts)

-- After `RevokeAllRefreshTokens` a token is looked up as before, except that the tokens of that
-- user, and no others, are revoked.
pub revoke_all-get_refresh_token_by_hash :
    (user_id other token_hash : String) (r : MemoryStore) (t : RefreshToken)
    → (get_refresh_token_by_hash other token_hash r).0 ≡ ok t
    → (get_refresh_token_by_hash other token_hash (revoke_all_refresh_tokens user_id r).1).0
      ≡ ok (if str_eq other user_id then revoke t else t)
unfolding get_refresh_token_by_hash revoke_all_refresh_tokens
revoke_all-get_refresh_token_by_hash user_id other token_hash r t h =
    let fits = has_hash other token_hash in
    let found : find fits r.refresh_tokens ≡ some t = ground arith in
    rw
      (
        revoke_of_user-eq-map user_id r.refresh_tokens,
        find-map_revoked user_id other token_hash r.refresh_tokens,
        found,
      )
      (ground (arith, find-fits fits r.refresh_tokens t found, eq_iff t.user_id other))

-- The identifiers of push subscriptions repeat: from the tenth on, after every twenty-six.
pub sub_id_repeats :
    (char_text : ℕ → String) (n : ℕ) → 9 < n → sub_id char_text (n + 26) ≡ sub_id char_text n
unfolding sub_id
sub_id_repeats char_text n h = ground (arith)
