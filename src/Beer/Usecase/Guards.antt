-- ===== src/Beer/Usecase/Guards.antt =====
-- Who may change the catalogue (internal/beer/usecase/beer_usecase.go).
use beer_avaliation_api.Base.{
  ℕ, ◌≡◌, ◌≢◌, ◌↔◌, ◌⊎◌, inl, inr, refl, String, Bool, true, false, Option, some, List, [], ◌∷◌,
  arith, eq_iff, Bool-cases, Option-cases,
}
use beer_avaliation_api.Errors.{nil, new_app_error}
use beer_avaliation_api.Results.{Result, ok, err, Result-cases}
use beer_avaliation_api.Middleware.Context.{Context, is_admin, is_admin_iff}
use beer_avaliation_api.Beer.Model.{Beer, MediaItem}
use beer_avaliation_api.Beer.Repository.{BeerRepository, EventStore}
use beer_avaliation_api.Beer.Usecase.Changes.{Instant, can_modify}
use beer_avaliation_api.Beer.Usecase.Catalog.{
  similar, duplicate, create, update, remove, add_media, create_new, stamp,
}

-- The caller is an administrator, or the owner of something that has an owner.
abbrev pub MayModify : Context → String → Type 0
MayModify ctx owner = (ctx.role ≡ some "admin") ⊎ ((owner ≢ "") × (ctx.user_id ≡ some owner))

-- `canModify` lets through the administrators and the owners, and for what has no owner the
-- administrators only.
pub can_modify_iff :
    (ctx : Context) (owner : String) → (can_modify ctx owner ≡ true) ↔ MayModify ctx owner
unfolding can_modify
can_modify_iff ctx owner = elim (Bool-cases (is_admin ctx)) [
  | inl admin ↦ (λ _. inl ((is_admin_iff ctx).0 admin), λ _. rw admin)
  | inr plain ↦ elim (Option-cases ctx.user_id) [
    | inl e ↦ ground (arith, e, plain, is_admin_iff ctx)
    | inr (uid, e) ↦ ground (arith, e, plain, is_admin_iff ctx, eq_iff uid owner, eq_iff owner "")
  ]
]

module _ {S : Type 0} (repo : BeerRepository S) (events : Option (EventStore S)) where
  -- On a beer that is in the repository, a caller that may not modify it gets a 403 from an update
  -- and from adding media, and nothing but the read has happened to the repository.
  pub changes_refused :
      (ctx : Context) (m : Instant) (id : String) (beer found : Beer) (item : MediaItem) (s s₁ : S)
      → repo.get_by_id id s ≡ (ok found, s₁)
      → ¬ MayModify ctx found.created_by
      → (update (some repo) events ctx m id beer s
          ≡ (err (new_app_error 403 "you are not allowed to update this beer" nil), s₁))
        × (add_media (some repo) events ctx m id item s
            ≡ (err (new_app_error 403 "you are not allowed to modify this beer" nil), s₁))
  unfolding update add_media
  changes_refused ctx m id beer found item s s₁ read h =
      let closed : can_modify ctx found.created_by ≡ false =
        elim (Bool-cases (can_modify ctx found.created_by)) [
          | inl e ↦ absurd (h ((can_modify_iff ctx found.created_by).0 e))
          | inr e ↦ e
        ] in
      (rw (read, closed), rw (read, closed))

  -- On a beer that is in the repository, a caller that is no administrator gets a 403 from a
  -- deletion.
  pub remove_refused :
      (ctx : Context) (m : Instant) (id : String) (found : Beer) (s s₁ : S)
      → repo.get_by_id id s ≡ (ok found, s₁)
      → ctx.role ≢ some "admin"
      → remove (some repo) events ctx m id s
        ≡ (err (new_app_error 403 "only admins can delete beers" nil), s₁)
  unfolding remove
  remove_refused ctx m id found s s₁ read h =
      let closed : is_admin ctx ≡ false = ground (arith, h, is_admin_iff ctx) in rw (read, closed)

  -- A deletion of a beer that succeeds was asked for by an administrator, for a beer that the
  -- repository had.
  pub remove-ok :
      (ctx : Context) (m : Instant) (id : String) (s s' : S)
      → remove (some repo) events ctx m id s ≡ (ok tt, s')
      → (ctx.role ≡ some "admin")
        × ((found : Beer) × (s₁ : S) × (repo.get_by_id id s ≡ (ok found, s₁)))
  unfolding remove
  remove-ok ctx m id s s' h =
      let (read, s₁) = repo.get_by_id id s in
      elim (Result-cases read) [
        | inr (x, failed) ↦ absurd (ground (arith, failed))
        | inl (found, got) ↦ elim (Bool-cases (is_admin ctx)) [
          | inl admin ↦ ((is_admin_iff ctx).0 admin, (found, s₁, ground (arith, got)))
          | inr plain ↦ absurd (ground (arith, got, plain))
        ]
      ]

  -- A creation whose search finds beers is answered 409, with one detail for each beer found, and
  -- nothing but the search has happened to the repository. A creation whose search fails or finds
  -- nothing goes on with the beer stamped.
  pub create_searches :
      (ctx : Context) (m : Instant) (beer : Beer) (s s₁ : S) (found : Result (List Beer × ℕ × Bool))
      → repo.search_beers (similar beer.name) s ≡ (found, s₁)
      → ((b : Beer) × (bs : List Beer) × (total : ℕ) × (fuzzy : Bool) × (found
            ≡ ok (b ∷ bs, total, fuzzy))
          × (create (some repo) events ctx m beer s ≡ (err (duplicate (b ∷ bs)), s₁)))
        ⊎ (create (some repo) events ctx m beer s
            ≡ create_new (some repo) events repo m (stamp ctx m beer) s₁)
  unfolding create
  create_searches ctx m beer s s₁ (ok (b ∷ bs, total, fuzzy)) h =
      inl (b, bs, total, fuzzy, refl, rw h)
  create_searches ctx m beer s s₁ (ok ([], total, fuzzy)) h = inr (rw h)
  create_searches ctx m beer s s₁ (err e) h = inr (rw h)
