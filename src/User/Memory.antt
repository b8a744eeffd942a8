-- ===== src/User/Memory.antt =====
-- internal/user/repository/user_repository_memory.go: the store in memory. A loop over a slice that
-- returns at the first fit is a recursion on the list. The lock makes each method one step.
pub mod Search
pub mod Users
pub mod Tokens
use beer_avaliation_api.Base.{
  ℕ, ◌+◌, ◌-◌, ◌%◌, ◌*◌, String, Bool, true, false, not, ◌&&◌, ◌||◌, Option, none, some, List, [],
  ◌∷◌, ◌++◌, leb, ltb, ◌==◌, if◌then◌else◌, str_eq, length, select,
}
use beer_avaliation_api.Errors.{Error, nil, new_app_error}
use beer_avaliation_api.Results.{Result, ok, err, Exec}
use beer_avaliation_api.User.Model.{User, RefreshToken, PushSubscription, Timestamp, format_time}

pub record MemoryStore : Type 0 where
  pub users : List User
  pub subscriptions : List PushSubscription
  pub refresh_tokens : List RefreshToken
  pub next_sub_id : ℕ

-- `NewInMemoryUserRepository`
abbrev pub empty_store : MemoryStore
empty_store = record { users = []; subscriptions = []; refresh_tokens = []; next_sub_id = 0 }

module _ {ℓ} {A : Type ℓ} (fits : A → Bool) where
  -- The first element that fits.
  unfoldable pub find : List A → Option A
  find [] = none
  find (x ∷ xs) = let rest = find xs in if fits x then some x else rest

  -- The list with `f` applied to the first element that fits.
  unfoldable pub replace_first : (A → A) → List A → List A
  replace_first f [] = []
  replace_first f (x ∷ xs) = let rest = replace_first f xs in if fits x then f x ∷ xs else x ∷ rest

  -- `append(xs[:i], xs[i+1:]...)` at the first element that fits.
  unfoldable pub remove_first : List A → List A
  remove_first [] = []
  remove_first (x ∷ xs) = let rest = remove_first xs in if fits x then xs else x ∷ rest

abbrev pub found_or_404 {ℓ} : {A : Type ℓ} → String → Option A → Result A
found_or_404 message none = err (new_app_error 404 message nil)
found_or_404 message (some a) = ok a

abbrev pub has_id : String → User → Bool
has_id id u = str_eq u.id id

abbrev pub has_email : String → User → Bool
has_email email u = str_eq u.email email

abbrev pub has_external : String → String → User → Bool
has_external provider external_sub u =
    str_eq u.provider provider && str_eq u.external_sub external_sub

abbrev pub has_hash : String → String → RefreshToken → Bool
has_hash user_id token_hash t = str_eq t.user_id user_id && str_eq t.token_hash token_hash

abbrev pub has_endpoint : String → String → PushSubscription → Bool
has_endpoint user_id endpoint s = str_eq s.user_id user_id && str_eq s.endpoint endpoint

unfoldable pub create : User → Exec MemoryStore Unit
create user r = (ok tt, record r { users = r.users ++ user ∷ [] })

unfoldable pub get_by_id : String → Exec MemoryStore User
get_by_id id r = (found_or_404 "user not found" (find (has_id id) r.users), r)

unfoldable pub get_by_email : String → Exec MemoryStore User
get_by_email email r = (found_or_404 "user not found" (find (has_email email) r.users), r)

unfoldable pub get_by_external : String → String → Exec MemoryStore User
get_by_external provider external_sub r =
    (found_or_404 "user not found" (find (has_external provider external_sub) r.users), r)

abbrev pub with_contact : User → User → User
with_contact user u = record u { username = user.username; email = user.email }

unfoldable pub upsert_by_external : User → Exec MemoryStore User
upsert_by_external user r =
    let fits = has_external user.provider user.external_sub in
    elim (find fits r.users) [
      | none ↦ (ok user, record r { users = r.users ++ user ∷ [] })
      | some u ↦ (
        ok (with_contact user u),
        record r { users = replace_first fits (with_contact user) r.users },
      )
    ]

-- The end of a method that writes to the first element that fits.
abbrev write_found {ℓ} :
    {A : Type ℓ} → String → Option A → MemoryStore → MemoryStore → Result (Unit {0}) × MemoryStore
write_found message none new old = (err (new_app_error 404 message nil), old)
write_found message (some a) new old = (ok tt, new)

unfoldable pub update : String → User → Exec MemoryStore Unit
update id user r =
    let users = replace_first (has_id id) (with_contact user) r.users in
    write_found "user not found" (find (has_id id) r.users) (record r { users = users }) r

unfoldable pub remove : String → Exec MemoryStore Unit
remove id r =
    let users = remove_first (has_id id) r.users in
    write_found "user not found" (find (has_id id) r.users) (record r { users = users }) r

-- `string(rune(n))` for a code point below 128 is one character; `char_text` is that conversion.
module _ (char_text : ℕ → String) where
  unfoldable pub sub_id : ℕ → String
  sub_id n = if ltb 9 n then char_text (b'a' + (n - 10) % 26) else char_text (b'0' + n % 10)

  -- `now` is `time.Now()`, formatted in the local zone.
  unfoldable pub create_push_subscription : ℕ → PushSubscription → Exec MemoryStore Unit
  create_push_subscription now sub r =
      let n = r.next_sub_id + 1 in
      let stamped : PushSubscription = record sub {
        id = sub_id n;
        created_at = format_time now;
        updated_at = format_time now;
      } in
      (ok tt, record r { next_sub_id = n; subscriptions = r.subscriptions ++ stamped ∷ [] })

unfoldable pub list_push_subscriptions : String → Exec MemoryStore (List PushSubscription)
list_push_subscriptions user_id r = (ok (select (λ s. str_eq s.user_id user_id) r.subscriptions), r)

unfoldable pub delete_push_subscription : String → Exec MemoryStore Unit
delete_push_subscription id r =
    let fits : PushSubscription → Bool = λ s. str_eq s.id id in
    write_found "push subscription not found" (find fits r.subscriptions)
      (record r { subscriptions = remove_first fits r.subscriptions }) r

unfoldable pub delete_push_subscription_by_endpoint : String → String → Exec MemoryStore Unit
delete_push_subscription_by_endpoint user_id endpoint r =
    let fits = has_endpoint user_id endpoint in
    write_found "push subscription not found" (find fits r.subscriptions)
      (record r { subscriptions = remove_first fits r.subscriptions }) r

unfoldable pub create_refresh_token : RefreshToken → Exec MemoryStore Unit
create_refresh_token token r = (ok tt, record r { refresh_tokens = r.refresh_tokens ++ token ∷ [] })

unfoldable pub get_refresh_token_by_hash : String → String → Exec MemoryStore RefreshToken
get_refresh_token_by_hash user_id token_hash r = (
  found_or_404 "refresh token not found" (find (has_hash user_id token_hash) r.refresh_tokens),
  r,
)

abbrev pub revoke : RefreshToken → RefreshToken
revoke t = record t { revoked = true }

unfoldable pub revoke_refresh_token : String → String → Exec MemoryStore Unit
revoke_refresh_token user_id token_hash r =
    let fits = has_hash user_id token_hash in
    write_found "refresh token not found" (find fits r.refresh_tokens)
      (record r { refresh_tokens = replace_first fits revoke r.refresh_tokens }) r

-- The loop of `RevokeAllRefreshTokens`.
unfoldable pub revoke_of_user : String → List RefreshToken → List RefreshToken
revoke_of_user user_id [] = []
revoke_of_user user_id (t ∷ ts) =
    (if str_eq t.user_id user_id && not t.revoked then revoke t else t) ∷ revoke_of_user user_id ts

unfoldable pub revoke_all_refresh_tokens : String → Exec MemoryStore Unit
revoke_all_refresh_tokens user_id r =
    (ok tt, record r { refresh_tokens = revoke_of_user user_id r.refresh_tokens })
