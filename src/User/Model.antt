-- ===== src/User/Model.antt =====
-- internal/user/model: users, refresh tokens and push subscriptions.
use beer_avaliation_api.Base.{
  ℕ, ◌+◌, ◌*◌, ◌/◌, ◌≤◌, ◌<◌, ◌≡◌, String, Bool, true, false, arith, ltb,
}

-- Times are nanoseconds since the epoch.
abbrev pub second : ℕ
second = 1000000000

-- The text of a time field: empty, in RFC 3339 at a whole second, or another text.
pub data Timestamp : Type 0 where
  missing : Timestamp
  rfc3339 : ℕ → Timestamp
  malformed : String → Timestamp

-- `t.UTC().Format(time.RFC3339)`: the fraction of a second is dropped.
unfoldable pub format_time : ℕ → Timestamp
format_time t = rfc3339 (t / second)

abbrev pub role_user : String
role_user = "user"

abbrev pub role_admin : String
role_admin = "admin"

pub record User : Type 0 where
  pub id : String
  pub username : String
  pub email : String
  pub password : String
  pub role : String
  pub provider : String
  pub external_sub : String
  pub created : Timestamp
  pub updated_at : Timestamp

pub record RefreshToken : Type 0 where
  pub id : String
  pub user_id : String
  pub token_hash : String
  pub expires_at : Timestamp
  pub revoked : Bool
  pub created_at : Timestamp

pub record PushSubscription : Type 0 where
  pub id : String
  pub user_id : String
  pub endpoint : String
  pub p256dh : String
  pub auth : String
  pub user_agent : String
  pub created_at : Timestamp
  pub updated_at : Timestamp
  pub last_used_at : Timestamp

abbrev expired_at : Timestamp → ℕ → Bool
expired_at missing now = true
expired_at (rfc3339 s) now = ltb (s * second) now
expired_at (malformed text) now = true

-- `(RefreshToken).IsExpired` at the time `now`.
unfoldable pub is_expired : RefreshToken → ℕ → Bool
is_expired t now = expired_at t.expires_at now

-- A token whose expiry was formatted from `end` is live up to the whole second of `end`, so for all
-- but the last second of its life, and has expired after `end`.
pub is_expired-format_time :
    (t : RefreshToken) (end now : ℕ)
    → t.expires_at ≡ format_time end
    → (now + second ≤ end → is_expired t now ≡ false) × (end < now → is_expired t now ≡ true)
unfolding is_expired format_time
is_expired-format_time t end now e = ground (arith, e)
