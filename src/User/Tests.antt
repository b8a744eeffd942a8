-- ===== src/User/Tests.antt =====
-- Concrete services and a concrete repository for the user usecases: the rows of `refresh_tokens`
-- are a list, the newest version of a row first.
mod Sessions
mod Store
mod Controller
mod Rotation
use beer_avaliation_api.Base.{
  ℕ, ◌+◌, ◌*◌, ◌≡◌, ◌≢◌, ◌⊎◌, inl, inr, refl, ap, sym, ◌∙◌, String, Bool, true, false, not, ◌&&◌,
  Option, none, some, List, [], ◌∷◌, arith, str_eq, eq_iff, Option-cases, Bool-cases, if◌then◌else◌,
}
use beer_avaliation_api.Errors.{Error, nil, sentinel, user_not_found}
use beer_avaliation_api.Results.{Result, ok, err, Exec, pure}
use beer_avaliation_api.User.Model.{
  User, RefreshToken, PushSubscription, missing, format_time, second,
}
use beer_avaliation_api.User.Repository.{UserRepository}
use beer_avaliation_api.User.Services.{Services, Moment}
use beer_avaliation_api.User.Memory.{find, revoke_of_user, revoke}
use beer_avaliation_api.User.Memory.Search.{find-fits}
use beer_avaliation_api.User.Usecase.Rotation.{revoked_token}

abbrev pub plain_services : Services
plain_services = record {
  hash_password = λ p. ok p;
  compare_password = str_eq;
  hash_token = λ t. t;
  generate_token = λ user_id role. ok "jwt";
  verifier = λ provider. none;
}

abbrev pub moment : Moment
moment = record {
  now = 1700000000 * 1000000000;
  user_id = "u-new";
  token_id = "t-new";
  raw_refresh_token = ok "fresh";
}

abbrev pub ana : User
ana = record {
  id = "u-1";
  username = "Ana";
  email = "ana@example.org";
  password = "secret-1";
  role = "user";
  provider = "google";
  external_sub = "g-1";
  created = missing;
  updated_at = missing;
}

abbrev pub token : RefreshToken
token = record {
  id = "t-1";
  user_id = "u-1";
  token_hash = "raw";
  expires_at = format_time (1700000100 * 1000000000);
  revoked = false;
  created_at = missing;
}

abbrev pub subscription : PushSubscription
subscription = record {
  id = "";
  user_id = "";
  endpoint = "https://push.example.org/1";
  p256dh = "";
  auth = "";
  user_agent = "";
  created_at = missing;
  updated_at = missing;
  last_used_at = missing;
}

abbrev pub hashed : String → RefreshToken → Bool
hashed h t = str_eq t.token_hash h

abbrev pub selected_row : Option RefreshToken → Result RefreshToken
selected_row none = err (sentinel user_not_found)
selected_row (some t) = ok t

abbrev pub with_revoked : Option RefreshToken → List RefreshToken → List RefreshToken
with_revoked none s = s
with_revoked (some t) s = revoked_token t ∷ s

abbrev pub rows_repository : UserRepository (List RefreshToken)
rows_repository = record {
  create = λ user s. (ok tt, s);
  get_by_id = λ id s. (ok ana, s);
  get_by_email = λ email s. (err (sentinel user_not_found), s);
  upsert_by_external = λ user s. (ok user, s);
  update = λ id user s. (ok tt, s);
  remove = λ id s. (ok tt, s);
  create_push_subscription = λ sub s. (ok tt, s);
  list_push_subscriptions = λ user_id s. (ok [], s);
  delete_push_subscription_by_endpoint = λ user_id endpoint s. (ok tt, s);
  create_refresh_token = λ t s. (ok tt, t ∷ s);
  get_refresh_token_by_hash = λ user_id h s. (selected_row (find (hashed h) s), s);
  revoke_refresh_token = λ user_id h s. (ok tt, with_revoked (find (hashed h) s) s);
  revoke_all_refresh_tokens = λ user_id s. (ok tt, revoke_of_user user_id s);
  exec_in_tx = λ change s. change s;
}
