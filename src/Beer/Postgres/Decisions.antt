-- ===== src/Beer/Postgres/Decisions.antt =====
-- What an approval of a request for deletion does: `ResolveDeletionRequest` of
-- internal/beer/usecase/moderation_usecase.go on the repositories of internal/beer/repository.
use beer_avaliation_api.Base.{
  pos, ℕ, ◌≤◌, ◌<◌, ◌≡◌, inl, inr, refl, sym, ap, ◌∙◌, String, Bool, true, false, not, some, List,
  [], ◌∷◌, if◌then◌else◌, arith, ltb, ltb→lt, str_eq, eq_iff, select, All, Any, Any-map, Any-All,
  Any-const, All-selected, Option-cases, Bool-cases,
}
use mathlib.Core.Path.{subst}
use beer_avaliation_api.Errors.{Error, nil, new_app_error}
use beer_avaliation_api.Results.{Result, ok, err, Exec, Result-cases}
use beer_avaliation_api.Middleware.Context.{Context, is_admin, is_admin_iff}
use beer_avaliation_api.Beer.Model.{Beer, BeerFilters}
use beer_avaliation_api.Beer.Moderation.{
  BeerDeletionRequest, approved, newest_only, find_request, resolve_in_tx, delete_approved,
  delete_target,
}
use beer_avaliation_api.Beer.Moderation.{resolve_deletion_request as resolve}
use beer_avaliation_api.Beer.Postgres.{Db, run_cases, find_row, has_id}
use beer_avaliation_api.Beer.Postgres.Statements.{remove, delete_rows}
use beer_avaliation_api.Beer.Postgres.Pages.{take_rows, drop_rows}
use beer_avaliation_api.Beer.Postgres.Transactions.{
  tables, transaction-ok, transaction-err, exec_in_tx, postgres_repository,
}
use beer_avaliation_api.Beer.Repository.{BeerRepository}
use beer_avaliation_api.Beer.Postgres.Promises.{or_raise-ok}
use beer_avaliation_api.Beer.Postgres.Moderation.{
  insert_newest, newest_first, fits, request_fits, limit_of, offset_of, page_of, paged_rows,
  count_rows, get_deletion_requests, settle_request, has_request, resolve_deletion_request,
  postgres_moderation,
}

abbrev time_of : BeerDeletionRequest → ℕ
time_of r = r.created_at

-- The request stands among the requests, and none is newer.
abbrev pub IsNewest : BeerDeletionRequest → List BeerDeletionRequest → Type 0
IsNewest r rs = Any (λ x. x ≡ r) rs × All (λ x. x.created_at ≤ r.created_at) rs

All-below :
    (m n : ℕ) (rs : List BeerDeletionRequest)
    → m ≤ n
    → All (λ x. x.created_at ≤ m) rs
    → All (λ x. x.created_at ≤ n) rs
All-below m n [] h k = tt
All-below m n (x ∷ xs) h (first, others) = (omega (arith, h, first), All-below m n xs h others)

-- What the first row of a listing is among all rows.
abbrev IsFirstOf : List BeerDeletionRequest → List BeerDeletionRequest → Type 0
IsFirstOf [] rs = rs ≡ []
IsFirstOf (r ∷ others) rs = IsNewest r rs

insert_newest-IsFirstOf :
    (x : BeerDeletionRequest) (sorted rs : List BeerDeletionRequest)
    → IsFirstOf sorted rs
    → IsFirstOf (insert_newest time_of x sorted) (x ∷ rs)
unfolding insert_newest
insert_newest-IsFirstOf x [] rs h =
    subst (λ xs. IsNewest x (x ∷ xs)) (sym h) (inl refl, (omega arith, tt))
insert_newest-IsFirstOf x (y ∷ ys) rs (there, below) =
    elim (Bool-cases (ltb (time_of x) (time_of y))) [
      | inl older ↦
          let newer = ltb→lt (time_of x) (time_of y) older in
          rw older (inr there, (omega (arith, newer), below))
      | inr newer ↦
          let later : time_of y ≤ time_of x = ground (arith, newer) in
          rw newer (inl refl, (omega arith, All-below (time_of y) (time_of x) rs later below))
    ]

newest_first-IsFirstOf : (rs : List BeerDeletionRequest) → IsFirstOf (newest_first time_of rs) rs
unfolding newest_first
newest_first-IsFirstOf [] = refl
newest_first-IsFirstOf (x ∷ xs) =
    insert_newest-IsFirstOf x (newest_first time_of xs) xs (newest_first-IsFirstOf xs)

-- Whether two requests are the same but for what a decision sets.
abbrev IsSettled : BeerDeletionRequest → BeerDeletionRequest → Type 0
IsSettled r x = (x.id ≡ r.id) × (x.beer_id ≡ r.beer_id) × (x.created_at ≡ r.created_at)

-- A request that was settled was there before.
settle_request-Any :
    (id status by : String) (at : ℕ) (r : BeerDeletionRequest) (rs : List BeerDeletionRequest)
    → Any (λ x. x ≡ r) (settle_request id status by at rs)
    → Any (IsSettled r) rs
unfolding settle_request
settle_request-Any id status by at r [] h = h
settle_request-Any id status by at r (x ∷ rs) h = elim (Bool-cases (str_eq x.id id)) [
  | inl e ↦ elim (rw e at h) [
    | inl same ↦ inl (
      ap (λ (y : BeerDeletionRequest). y.id) same,
      ap (λ (y : BeerDeletionRequest). y.beer_id) same,
      ap (λ (y : BeerDeletionRequest). y.created_at) same,
    )
    | inr later ↦ inr (settle_request-Any id status by at r rs later)
  ]
  | inr e ↦ elim (rw e at h) [
    | inl same ↦ inl (
      ap (λ (y : BeerDeletionRequest). y.id) same,
      ap (λ (y : BeerDeletionRequest). y.beer_id) same,
      ap (λ (y : BeerDeletionRequest). y.created_at) same,
    )
    | inr later ↦ inr (settle_request-Any id status by at r rs later)
  ]
]

settle_request-All :
    (id status by : String) (at n : ℕ) (rs : List BeerDeletionRequest)
    → All (λ x. x.created_at ≤ n) (settle_request id status by at rs)
    → All (λ x. x.created_at ≤ n) rs
unfolding settle_request
settle_request-All id status by at n [] h = tt
settle_request-All id status by at n (x ∷ rs) h = elim (Bool-cases (str_eq x.id id)) [
  | inl e ↦
      let (first, others) = rw e at h in (first, settle_request-All id status by at n rs others)
  | inr e ↦
      let (first, others) = rw e at h in (first, settle_request-All id status by at n rs others)
]

all-fit : (rs : List BeerDeletionRequest) → select (request_fits newest_only) rs ≡ rs
unfolding select request_fits fits
all-fit [] = refl
all-fit (r ∷ rs) = ap (λ xs. r ∷ xs) (all-fit rs)

-- The listing that the approval reads: the newest request, if there is one.
listed-ok :
    (db db' : Db) (rs : List BeerDeletionRequest) (total : ℕ)
    → get_deletion_requests newest_only db ≡ (ok (rs, total), db')
    → (rs ≡ take_rows 1 (newest_first time_of db.requests)) × (tables db' ≡ tables db)
unfolding get_deletion_requests count_rows paged_rows page_of limit_of offset_of drop_rows
listed-ok db db' rs total h =
    let all = all-fit db.requests in
    let counted : Db → Result ℕ × Db =
      λ d. count_rows (select (request_fits newest_only) d.requests) d in
    let paged : Db → Result (List BeerDeletionRequest) × Db = λ d.
      paged_rows (λ r. r.created_at) (pos (limit_of newest_only.limit))
        (pos (offset_of newest_only.offset)) (select (request_fits newest_only) d.requests) d in
    elim (run_cases counted db) [
      | inl (e, faults, met) ↦ absurd (ground (arith, met, h))
      | inr (faults, ran) ↦
          let start : Db = record db { faults = faults } in
          elim (run_cases paged start) [
            | inl (e, faults', met) ↦ absurd (ground (arith, ran, met, h))
            | inr (faults', done) ↦
                (ground (arith, ran, done, h, all), ground (arith, ran, done, h, all))
          ]
    ]

settled-ok :
    (id status by : String) (at : ℕ) (db db' : Db)
    → resolve_deletion_request id status by at db ≡ (ok tt, db')
    → (db'.beers ≡ db.beers) × (db'.requests ≡ settle_request id status by at db.requests)
unfolding resolve_deletion_request
settled-ok id status by at db db' h =
    let settle : Db → Result (Unit {0}) × Db = λ d. (
      if has_request id d.requests
          then ok tt
          else err (new_app_error 404 "deletion request not found" nil),
      record d { requests = settle_request id status by at d.requests },
    ) in
    elim (run_cases settle db) [
      | inl (e, faults, met) ↦ absurd (ground (arith, met, h))
      | inr (faults, ran) ↦ elim (Bool-cases (has_request id db.requests)) [
        | inl there ↦ (ground (arith, ran, there, h), ground (arith, ran, there, h))
        | inr missing ↦ absurd (ground (arith, ran, missing, h))
      ]
    ]

removed-ok :
    (id : String) (db db' : Db)
    → remove id db ≡ (ok tt, db')
    → (db'.beers ≡ select (λ row. not (has_id id row)) db.beers)
      × (db'.requests ≡ select (λ r. not (str_eq r.beer_id id)) db.requests)
unfolding remove delete_rows
removed-ok id db db' h = elim (run_cases (delete_rows id) db) [
  | inl (e, faults, met) ↦ absurd (ground (arith, met, h))
  | inr (faults, ran) ↦ elim (Option-cases (find_row id db.beers)) [
    | inl missed ↦ absurd (ground (arith, missed, ran, h))
    | inr (row, found) ↦ (ground (arith, found, ran, h), ground (arith, found, ran, h))
  ]
]

first-found :
    (req_id : String) (sorted : List BeerDeletionRequest) (r : BeerDeletionRequest)
    → find_request req_id (take_rows 1 sorted) ≡ some r
    → (others : List BeerDeletionRequest) × (sorted ≡ r ∷ others) × (r.id ≡ req_id)
unfolding find_request take_rows
first-found req_id [] r h = absurd (ground (arith, h))
first-found req_id (x ∷ xs) r h = (
  xs,
  ap (λ y. y ∷ xs)
      (elim (Bool-cases (str_eq x.id req_id)) [
        | inl e ↦ ground (arith, e, h)
        | inr e ↦ absurd (ground (arith, e, h))
      ]),
  ground (arith, h, eq_iff x.id req_id),
)

-- The request named cannot be the newest and older than another.
older-absurd :
    (req_id : String) (newer created_at : ℕ) (rs : List BeerDeletionRequest)
    → Any (λ x. x.created_at ≡ newer) rs
    → All (λ x. x.id ≡ req_id → x.created_at < newer) rs
    → Any (λ x. (x.id ≡ req_id) × (x.created_at ≡ created_at)) rs
    → All (λ x. x.created_at ≤ created_at) rs
    → ⊥
older-absurd req_id newer created_at rs there older named below =
    let reached : newer ≤ created_at = Any-const (newer ≤ created_at) rs (
      Any-All _ _ (λ x. newer ≤ created_at) rs (λ x at under. omega (arith, at, under)) there
        below) in
    let passed : created_at < newer = Any-const (created_at < newer) rs (
      Any-All _ _ (λ x. created_at < newer) rs
        (λ x (id, at) early. let lower = early id in omega (arith, at, lower)) named older) in
    omega (arith, reached, passed)

module _ (round_tenths : ℕ → ℕ → ℕ) (begins : Bool)
    (searched : BeerFilters → Exec Db (List Beer × ℕ × Bool)) where
  abbrev beers : BeerRepository Db
  beers = postgres_repository round_tenths false searched

  -- The function that the transaction runs.
  resolve_in_tx-ok :
      (now : ℕ) (req_id admin_id : String) (db db' : Db)
      → resolve_in_tx (postgres_moderation begins) beers now req_id approved admin_id db
        ≡ (ok tt, db')
      → (r : BeerDeletionRequest) × (others : List BeerDeletionRequest) × (r.id ≡ req_id)
        × (newest_first time_of (settle_request req_id approved admin_id now db.requests)
            ≡ r ∷ others)
        × (db'.beers ≡ select (λ row. not (has_id r.beer_id row)) db.beers)
        × All (λ x. not (str_eq x.beer_id r.beer_id) ≡ true) db'.requests
  unfolding resolve_in_tx delete_approved delete_target postgres_moderation postgres_repository
  resolve_in_tx-ok now req_id admin_id db db' h =
      let (done, s₁) = resolve_deletion_request req_id approved admin_id now db in
      let (listed, s₂) = get_deletion_requests newest_only s₁ in
      let same : str_eq approved approved ≡ true = refl in
      elim (Result-cases done) [
        | inr (e, failed) ↦ absurd (ground (arith, failed, h))
        | inl (u, set) ↦
            let (beers₁, requests₁) =
              settled-ok req_id approved admin_id now db s₁ (ground (arith, set)) in
            elim (Result-cases listed) [
              | inr (e, failed) ↦ absurd (ground (arith, set, failed, h, same))
              | inl (page, got) ↦
                  let (rows, kept) = listed-ok s₁ s₂ page.0 page.1 (ground (arith, got)) in
                  elim (Option-cases (find_request req_id page.0)) [
                    | inl missed ↦ absurd (ground (arith, set, got, missed, h, same))
                    | inr (r, found) ↦
                        let (others, order, named) =
                          first-found req_id (newest_first time_of s₁.requests) r
                            (rw rows at found) in
                        let (left, cut) = removed-ok r.beer_id s₂ db' (
                          or_raise-ok (remove r.beer_id)
                            (new_app_error 500 "failed to delete beer after approving request") s₂
                            db' tt (ground (arith, set, got, found, h, same))) in
                        let whole : s₂.beers ≡ db.beers = ground (arith, kept, beers₁) in
                        (
                          r,
                          others,
                          named,
                          ap (newest_first time_of) (sym requests₁) ∙ order,
                          left ∙ ap (select (λ row. not (has_id r.beer_id row))) whole,
                          subst (All (λ x. not (str_eq x.beer_id r.beer_id) ≡ true)) (sym cut)
                              (All-selected (λ x. not (str_eq x.beer_id r.beer_id)) s₂.requests),
                        )
                  ]
            ]
      ]

  -- An approval on PostgreSQL that succeeds was made by an administrator. The request that it names
  -- was there, and none was newer. The beer of that request, and nothing else, was deleted from the
  -- beers, and no request for that beer is left, the approved one included.
  pub approval-ok :
      (ctx : Context) (now : ℕ) (req_id admin_id : String) (db db' : Db)
      → resolve
          (postgres_moderation begins)
          (postgres_repository round_tenths false searched)
          ctx
          now
          req_id
          approved
          admin_id
          db
        ≡ (ok tt, db')
      → (ctx.role ≡ some "admin")
        × (beer_id : String) × (created_at : ℕ) × Any
            (λ x. (x.id ≡ req_id) × (x.beer_id ≡ beer_id) × (x.created_at ≡ created_at))
            db.requests
        × All (λ x. x.created_at ≤ created_at) db.requests
        × (db'.beers ≡ select (λ row. not (str_eq row.id beer_id)) db.beers)
        × All (λ x. not (str_eq x.beer_id beer_id) ≡ true) db'.requests
  unfolding resolve postgres_moderation exec_in_tx
  approval-ok ctx now req_id admin_id db db' h =
      let admin : is_admin ctx ≡ true = ground arith in
      let body = resolve_in_tx (postgres_moderation begins) beers now req_id approved admin_id in
      let (s, t, same, ran, left) =
        transaction-ok begins body db db' tt (ground (arith, admin, h)) in
      let (r, others, named, order, gone, cut) = resolve_in_tx-ok now req_id admin_id s t ran in
      let settled = settle_request req_id approved admin_id now s.requests in
      let (there, below) =
        subst (λ sorted. IsFirstOf sorted settled) order (newest_first-IsFirstOf settled) in
      let whole : s.requests ≡ db.requests = ground (arith, same) in
      (
        (is_admin_iff ctx).0 admin,
        r.beer_id,
        r.created_at,
        subst (Any _) whole (
            Any-map (IsSettled r) _ s.requests (λ x (id, beer, at). (id ∙ named, beer, at))
              (settle_request-Any req_id approved admin_id now r s.requests there)),
        subst (All (λ x. x.created_at ≤ r.created_at)) whole
            (settle_request-All req_id approved admin_id now r.created_at s.requests below),
        ground (arith, gone, same, left),
        subst (All (λ x. not (str_eq x.beer_id r.beer_id) ≡ true)) (ground (arith, left)) cut,
      )

  -- An approval on PostgreSQL never succeeds when another request is newer than all of the
  -- identifier: whoever asks, the answer is an error, and the tables stay as they were.
  pub approval_of_older :
      (ctx : Context) (now : ℕ) (req_id admin_id : String) (newer : ℕ) (db db' : Db)
      (answer : Result (Unit {0}))
      → Any (λ x. x.created_at ≡ newer) db.requests
      → All (λ x. x.id ≡ req_id → x.created_at < newer) db.requests
      → resolve
          (postgres_moderation begins)
          (postgres_repository round_tenths false searched)
          ctx
          now
          req_id
          approved
          admin_id
          db
        ≡ (answer, db')
      → ((e : Error) × (answer ≡ err e)) × (tables db' ≡ tables db)
  unfolding resolve postgres_moderation exec_in_tx
  approval_of_older ctx now req_id admin_id newer db db' (ok tt) there older h =
      let (admin, beer_id, created_at, named, below, gone, cut) =
        approval-ok ctx now req_id admin_id db db' h in
      absurd (
        older-absurd req_id newer created_at db.requests there older
          (Any-map _ (λ x. (x.id ≡ req_id) × (x.created_at ≡ created_at)) db.requests
            (λ x (id, beer, at). (id, at)) named)
          below)
  approval_of_older ctx now req_id admin_id newer db db' (err e) there older h =
      elim (Bool-cases (is_admin ctx)) [
        | inr plain ↦ ((e, refl), ground (arith, plain, h))
        | inl admin ↦ (
          (e, refl),
          transaction-err begins
              (resolve_in_tx (postgres_moderation begins) beers now req_id approved admin_id) db db'
              e (ground (arith, admin, h)),
        )
      ]
