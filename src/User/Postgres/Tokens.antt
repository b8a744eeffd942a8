-- ===== src/User/Postgres/Tokens.antt =====
-- The table of refresh tokens of internal/user/repository/user_repository.go, as the rotation of
-- internal/user/usecase/user_usecase.go relies on it.
use beer_avaliation_api.Base.{
  ℕ, ◌≡◌, ◌⊎◌, inl, inr, refl, ap, ◌∙◌, String, Bool, true, false, ◌&&◌, Option, none, some, List,
  [], ◌∷◌, ◌++◌, if◌then◌else◌, str_eq, arith, All, Bool-cases, Option-cases, eq_iff,
}
use beer_avaliation_api.Errors.{Error, wrap}
use beer_avaliation_api.Results.{ok, err}
use beer_avaliation_api.User.Model.{RefreshToken}
use beer_avaliation_api.User.Usecase.Rotation.{TokenTable}
use beer_avaliation_api.User.Postgres.{Db, send_cases, find, change, has_id}
use beer_avaliation_api.User.Postgres.Accounts.{get_by_id, read_user}
use beer_avaliation_api.User.Postgres.Sessions.{
  has_hash, put_token, create_refresh_token, read_token, get_refresh_token_by_hash, revoke_where,
  revoke_refresh_token, revoked_token, postgres_users,
}
use beer_avaliation_api.User.Postgres.Laws.{Revoked, find-change, revoke_all_refresh_tokens-ok}

-- The row of `refresh_tokens` with a hash.
abbrev pub token_row : Db → String → Option RefreshToken
token_row db h = find (has_hash h) db.tokens

find-has_hash :
    (h : String) (tokens : List RefreshToken) (t : RefreshToken)
    → find (has_hash h) tokens ≡ some t
    → t.token_hash ≡ h
unfolding find
find-has_hash h [] t e = absurd (ground (arith, e))
find-has_hash h (x ∷ xs) t e = ground (arith, find-has_hash h xs t, e, eq_iff x.token_hash h)

-- A token whose hash is new is the row with its hash, after the others.
find-append :
    (tokens : List RefreshToken) (t : RefreshToken) (h : String)
    → find (has_hash t.token_hash) tokens ≡ none
    → find (has_hash h) (tokens ++ (t ∷ []))
      ≡ (if str_eq t.token_hash h then some t else find (has_hash h) tokens)
unfolding find
find-append [] t h free = refl
find-append (x ∷ xs) t h free = ground (
  arith,
  free,
  find-append xs t h,
  eq_iff x.token_hash h,
  eq_iff t.token_hash h,
  eq_iff x.token_hash t.token_hash,
)

find-Revoked :
    (user_id h : String) (tokens : List RefreshToken) (t : RefreshToken)
    → All (Revoked user_id) tokens
    → find (has_hash h) tokens ≡ some t
    → t.user_id ≡ user_id
    → t.revoked ≡ true
unfolding find
find-Revoked user_id h [] t all e own = absurd (ground (arith, e))
find-Revoked user_id h (x ∷ xs) t (first, others) e own =
    elim (Bool-cases (str_eq x.token_hash h)) [
      | inl same ↦
          let it : x ≡ t = ground (arith, same, e) in
          ground (arith, it, first (ap (λ (r : RefreshToken). r.user_id) it ∙ own))
      | inr differs ↦ find-Revoked user_id h xs t others (ground (arith, differs, e)) own
    ]

selected :
    (db : Db) (h : String) (t : RefreshToken)
    → token_row db h ≡ some t
    → (db' : Db) × ((get_refresh_token_by_hash "" h db ≡ (ok t, db'))
        ⊎ ((e : Error) × (get_refresh_token_by_hash "" h db ≡ (err e, db'))))
unfolding get_refresh_token_by_hash read_token
selected db h t held = elim (send_cases "failed to get refresh token" (read_token h) db) [
  | inl (e, faults, met) ↦ (
    record db { faults = faults },
    inr (wrap "failed to get refresh token" e, ground (arith, met)),
  )
  | inr (faults, ran) ↦ (record db { faults = faults }, inl (ground (arith, ran, held)))
]

selected_ok :
    (db db' : Db) (h : String) (t : RefreshToken)
    → get_refresh_token_by_hash "" h db ≡ (ok t, db')
    → (token_row db h ≡ some t) × (db'.tokens ≡ db.tokens)
unfolding get_refresh_token_by_hash read_token
selected_ok db db' h t e = elim (send_cases "failed to get refresh token" (read_token h) db) [
  | inl (x, faults, met) ↦ absurd (ground (arith, met, e))
  | inr (faults, ran) ↦ elim (Option-cases (token_row db h)) [
    | inl missed ↦ absurd (ground (arith, ran, missed, e))
    | inr (u, found) ↦ (ground (arith, ran, found, e), ground (arith, ran, found, e))
  ]
]

get_by_id-tokens : (db : Db) (id : String) → (get_by_id id db).1.tokens ≡ db.tokens
unfolding get_by_id read_user
get_by_id-tokens db id = elim (send_cases "failed to get user" (read_user (has_id id)) db) [
  | inl (x, faults, met) ↦ ground (arith, met)
  | inr (faults, ran) ↦ elim (Option-cases (find (has_id id) db.users)) [
    | inl missed ↦ ground (arith, ran, missed)
    | inr (row, found) ↦ ground (arith, ran, found)
  ]
]

inserted :
    (db db' : Db) (t : RefreshToken) (h : String)
    → create_refresh_token t db ≡ (ok tt, db')
    → token_row db' h ≡ (if str_eq t.token_hash h then some t else token_row db h)
unfolding create_refresh_token put_token
inserted db db' t h e = elim (send_cases "failed to create refresh token" (put_token t) db) [
  | inl (x, faults, met) ↦ absurd (ground (arith, met, e))
  | inr (faults, ran) ↦ elim (Option-cases (find (has_id t.user_id) db.users)) [
    | inl missed ↦ absurd (ground (arith, ran, missed, e))
    | inr (row, owner) ↦ elim (Option-cases (token_row db t.token_hash)) [
      | inr (other, clash) ↦ absurd (ground (arith, ran, owner, clash, e))
      | inl free ↦
          let left : db'.tokens ≡ db.tokens ++ (t ∷ []) = ground (arith, ran, owner, free, e) in
          rw left (find-append db.tokens t h free)
    ]
  ]
]

revoked_one :
    (db db' : Db) (t : RefreshToken) (h : String)
    → token_row db t.token_hash ≡ some t
    → revoke_refresh_token t.user_id t.token_hash db ≡ (ok tt, db')
    → token_row db' h ≡ (if str_eq t.token_hash h then some (revoked_token t) else token_row db h)
unfolding revoke_refresh_token revoke_where
revoked_one db db' t h held e =
    let it : RefreshToken → Bool = λ x. str_eq x.user_id t.user_id && has_hash t.token_hash x in
    elim (send_cases "failed to revoke refresh token" (revoke_where it) db) [
      | inl (x, faults, met) ↦ absurd (ground (arith, met, e))
      | inr (faults, ran) ↦
          let left : db'.tokens ≡ change it revoked_token db.tokens = ground (arith, ran, e) in
          let there = find-change (has_hash h) it revoked_token db.tokens (λ x. refl) in
          rw left (
            there ∙ elim (Bool-cases (str_eq t.token_hash h)) [
              | inl same ↦
                  let named = (eq_iff t.token_hash h).0 same in
                  let mine : it t ≡ true =
                    ground (arith, eq_iff t.user_id t.user_id, eq_iff t.token_hash t.token_hash) in
                  let found : token_row db h ≡ some t = rw (← named) held in
                  rw (found, mine, same) refl
              | inr differs ↦ elim (Option-cases (token_row db h)) [
                | inl missed ↦ rw (missed, differs) refl
                | inr (u, found) ↦
                    let named = find-has_hash h db.tokens u found in
                    let spared : it u ≡ false = ground (
                      arith,
                      named,
                      differs,
                      eq_iff u.token_hash t.token_hash,
                      eq_iff t.token_hash h,
                    ) in
                    rw (found, spared, differs) refl
              ]
            ])
    ]

-- The repository of users in PostgreSQL keeps the promises of `TokenTable`, whatever faults its
-- statements meet.
pub postgres_tokens :
    (begins : Bool) (uuid_at : ℕ → String) → TokenTable (postgres_users begins uuid_at) token_row
unfolding postgres_users
postgres_tokens begins uuid_at = record {
  row-token_hash = λ db h t e. find-has_hash h db.tokens t e;
  selected = selected;
  selected_ok = λ db db' h t e.
      let (held, same) = selected_ok db db' h t e in
      (held, λ other. ap (find (has_hash other)) same);
  row-get_by_id = λ db id h. ap (find (has_hash h)) (get_by_id-tokens db id);
  inserted = inserted;
  revoked_one = revoked_one;
  revoked_all = λ db db' user_id h t e found own.
      find-Revoked user_id h db'.tokens t (revoke_all_refresh_tokens-ok user_id db db' e).0 found
        own;
}
