-- ===== src/User/Postgres/Sessions.antt =====
-- The statements on push subscriptions and refresh tokens, the transactions, and the repository as
-- the usecases take it (internal/user/repository/user_repository.go).
use beer_avaliation_api.Base.{
  ℕ, ◌+◌, String, Bool, true, not, ◌&&◌, Option, none, some, List, [], ◌∷◌, ◌++◌, str_eq, length,
  select,
}
use beer_avaliation_api.Errors.{Error, plain}
use beer_avaliation_api.Results.{Result, ok, err, Exec}
use beer_avaliation_api.User.Model.{missing, RefreshToken, PushSubscription}
use beer_avaliation_api.User.Repository.{UserRepository}
use beer_avaliation_api.User.Postgres.{Db, send, not_found, duplicate_key, find, change, has_id}
use beer_avaliation_api.User.Postgres.Transactions.{exec_in_tx}
use beer_avaliation_api.User.Postgres.Accounts.{
  create, get_by_id, get_by_email, upsert_by_external, update, remove, some_rows,
}

abbrev pub foreign_key : Error
foreign_key = plain "insert or update violates foreign key constraint"

abbrev pub is_subscription : String → String → PushSubscription → Bool
is_subscription user_id endpoint s = str_eq s.user_id user_id && str_eq s.endpoint endpoint

abbrev pub has_hash : String → RefreshToken → Bool
has_hash token_hash t = str_eq t.token_hash token_hash

-- `uuid_at` is `gen_random_uuid()`, by how many were drawn before.
module _ (uuid_at : ℕ → String) where
  unfoldable pub put_subscription : PushSubscription → Db → Result (Unit {0}) × Db
  unfolding find change
  put_subscription sub db = elim (find (has_id sub.user_id) db.users) [
    | none ↦ (err foreign_key, db)
    | some row ↦ elim (find (is_subscription sub.user_id sub.endpoint) db.subscriptions) [
      | some old ↦
          let renewed : PushSubscription = record old {
            p256dh = sub.p256dh;
            auth = sub.auth;
            user_agent = sub.user_agent;
            updated_at = db.clock;
          } in
          (
            ok tt,
            record db {
              subscriptions =
                  change (is_subscription sub.user_id sub.endpoint) (λ s. renewed) db.subscriptions;
            },
          )
      | none ↦
          let fresh : PushSubscription = record sub {
            id = uuid_at db.drawn;
            created_at = db.clock;
            updated_at = db.clock;
            last_used_at = missing;
          } in
          (
            ok tt,
            record db { subscriptions = db.subscriptions ++ (fresh ∷ []); drawn = db.drawn + 1 },
          )
    ]
  ]

  -- `CreatePushSubscription`
  unfoldable pub create_push_subscription : PushSubscription → Exec Db Unit
  unfolding send put_subscription
  create_push_subscription sub = send "failed to create push subscription" (put_subscription sub)

-- `ListPushSubscriptions`
unfoldable pub list_push_subscriptions : String → Exec Db (List PushSubscription)
unfolding send select
list_push_subscriptions user_id =
    send "failed to list push subscriptions"
      λ db. (ok (select (λ s. str_eq s.user_id user_id) db.subscriptions), db)

-- `DELETE FROM push_subscriptions`, with the number of its rows.
unfoldable pub cut_subscriptions : (PushSubscription → Bool) → Db → Result ℕ × Db
unfolding select
cut_subscriptions p db = (
  ok (length (select p db.subscriptions)),
  record db { subscriptions = select (λ s. not (p s)) db.subscriptions },
)

-- `DeletePushSubscription`
unfoldable pub delete_push_subscription : String → Exec Db Unit
unfolding send cut_subscriptions some_rows
delete_push_subscription id db =
    some_rows "push subscription not found"
      (send "failed to delete push subscription" (cut_subscriptions (λ s. str_eq s.id id)) db)

-- `DeletePushSubscriptionByEndpoint`
unfoldable pub delete_push_subscription_by_endpoint : String → String → Exec Db Unit
unfolding send cut_subscriptions some_rows
delete_push_subscription_by_endpoint user_id endpoint db = some_rows "push subscription not found" (
    send "failed to delete push subscription by endpoint"
      (cut_subscriptions (is_subscription user_id endpoint)) db)

unfoldable pub put_token : RefreshToken → Db → Result (Unit {0}) × Db
unfolding find
put_token token db = elim (find (has_id token.user_id) db.users) [
  | none ↦ (err foreign_key, db)
  | some row ↦ elim (find (has_hash token.token_hash) db.tokens) [
    | some other ↦ (err duplicate_key, db)
    | none ↦ (ok tt, record db { tokens = db.tokens ++ (token ∷ []) })
  ]
]

-- `CreateRefreshToken`
unfoldable pub create_refresh_token : RefreshToken → Exec Db Unit
unfolding send put_token
create_refresh_token token = send "failed to create refresh token" (put_token token)

unfoldable pub read_token : String → Db → Result (Option RefreshToken) × Db
unfolding find
read_token token_hash db = (ok (find (has_hash token_hash) db.tokens), db)

-- `GetRefreshTokenByHash`, which passes over the user.
unfoldable pub get_refresh_token_by_hash : String → String → Exec Db RefreshToken
unfolding send read_token
get_refresh_token_by_hash user_id token_hash db =
    let (r, db') = send "failed to get refresh token" (read_token token_hash) db in
    elim r [
      | err e ↦ (err e, db')
      | ok none ↦ (err (not_found "get refresh token"), db')
      | ok (some token) ↦ (ok token, db')
    ]

abbrev pub revoked_token : RefreshToken → RefreshToken
revoked_token t = record t { revoked = true }

unfoldable pub revoke_where : (RefreshToken → Bool) → Db → Result (Unit {0}) × Db
unfolding change
revoke_where p db = (ok tt, record db { tokens = change p revoked_token db.tokens })

-- `RevokeRefreshToken`
unfoldable pub revoke_refresh_token : String → String → Exec Db Unit
unfolding send revoke_where
revoke_refresh_token user_id token_hash =
    send "failed to revoke refresh token"
      (revoke_where (λ t. str_eq t.user_id user_id && has_hash token_hash t))

-- `RevokeAllRefreshTokens`
unfoldable pub revoke_all_refresh_tokens : String → Exec Db Unit
unfolding send revoke_where
revoke_all_refresh_tokens user_id =
    send "failed to revoke all refresh tokens"
      (revoke_where (λ t. str_eq t.user_id user_id && not t.revoked))

-- `PostgresUserRepository`
unfoldable pub postgres_users : Bool → (ℕ → String) → UserRepository Db
unfolding create get_by_id get_by_email upsert_by_external update remove create_push_subscription
    list_push_subscriptions delete_push_subscription_by_endpoint create_refresh_token
    get_refresh_token_by_hash revoke_refresh_token revoke_all_refresh_tokens exec_in_tx
postgres_users begins uuid_at = record {
  create = create;
  get_by_id = get_by_id;
  get_by_email = get_by_email;
  upsert_by_external = upsert_by_external;
  update = update;
  remove = remove;
  create_push_subscription = create_push_subscription uuid_at;
  list_push_subscriptions = list_push_subscriptions;
  delete_push_subscription_by_endpoint = delete_push_subscription_by_endpoint;
  create_refresh_token = create_refresh_token;
  get_refresh_token_by_hash = get_refresh_token_by_hash;
  revoke_refresh_token = revoke_refresh_token;
  revoke_all_refresh_tokens = revoke_all_refresh_tokens;
  exec_in_tx = exec_in_tx begins;
}
