-- ===== src/User/Usecase/Issue.antt =====
-- What `issueTokenPair` of internal/user/usecase/user_usecase.go stores.
use beer_avaliation_api.Base.{◌+◌, ◌*◌, ◌≡◌, refl, String, false, some, arith}
use beer_avaliation_api.Results.{ok}
use beer_avaliation_api.User.Model.{RefreshToken, format_time, second}
use beer_avaliation_api.User.Repository.{UserRepository}
use beer_avaliation_api.User.Services.{TokenPair, Services, Moment}
use beer_avaliation_api.User.Usecase.Sessions.{refresh_record, issue_token_pair}

-- A token of a user that is stored for a text: the hash of the text and not the text, live, and for
-- thirty days.
pub record IsIssued (sv : Services) (m : Moment) (owner raw : String) (t : RefreshToken)
    : Type 0 where
  pub id : t.id ≡ m.token_id
  pub user_id : t.user_id ≡ owner
  pub token_hash : t.token_hash ≡ sv.hash_token raw
  pub revoked : t.revoked ≡ false
  pub created_at : t.created_at ≡ format_time m.now
  pub expires_at : t.expires_at ≡ format_time (m.now + 30 * 24 * 3600 * second)

module _ {S : Type 0} (sv : Services) (repo : UserRepository S) where
  pub refresh_record-IsIssued :
      (m : Moment) (user_id raw : String)
      → IsIssued sv m user_id raw (refresh_record sv (some repo) m user_id raw)
  refresh_record-IsIssued m user_id raw = record {
    id = refl;
    user_id = refl;
    token_hash = refl;
    revoked = refl;
    created_at = refl;
    expires_at = refl;
  }

  -- What a successful issue has stored.
  pub issue_token_pair-ok :
      (m : Moment) (user_id role : String) (s s' : S) (pair : TokenPair)
      → issue_token_pair sv (some repo) repo m user_id role s ≡ (ok pair, s')
      → (m.raw_refresh_token ≡ ok pair.refresh_token)
        × (sv.generate_token user_id role ≡ ok pair.access_token)
        × (repo.create_refresh_token (refresh_record sv (some repo) m user_id pair.refresh_token) s
            ≡ (ok tt, s'))
  unfolding issue_token_pair
  issue_token_pair-ok m user_id role s s' pair e = (ground arith, ground arith, ground arith)
