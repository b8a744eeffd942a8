-- ===== src/Beer/Postgres/Puts.antt =====
-- What `PUT /beers/{id}` of internal/beer/delivery/http/beer_controller.go leaves in the table of
-- beers of internal/beer/repository/beer_repository.go.
use beer_avaliation_api.Base.{
  ℕ, ◌≡◌, ◌≢◌, inl, inr, refl, sym, ap, ◌∙◌, String, Bool, true, false, none, some, List, [], ◌∷◌,
  arith, Bool-cases, eq_iff,
}
use mathlib.Core.Path.{subst}
use beer_avaliation_api.Errors.{Error, new_app_error}
use beer_avaliation_api.Results.{ok, Exec, Result-cases, ◌or_raise◌}
use beer_avaliation_api.Middleware.Context.{Context}
use beer_avaliation_api.Http.{Request, Response, decoded, json}
use beer_avaliation_api.Beer.Model.{Beer, BeerFilters}
use beer_avaliation_api.Beer.Repository.{Event}
use beer_avaliation_api.Beer.Usecase.Changes.{
  Instant, can_modify, commit, new_beer_event, publish_event_cache,
}
use beer_avaliation_api.Beer.Usecase.Catalog.{update as change_beer}
use beer_avaliation_api.Beer.Controller.{Payload, Tools}
use beer_avaliation_api.Beer.Controller.Writes.{update_beer, received_update}
use beer_avaliation_api.Beer.Controller.Protected.{update_beer-valid, respond-json}
use beer_avaliation_api.Beer.Postgres.{value, Row, Db, find_row, get_by_id, set_row}
use beer_avaliation_api.Beer.Postgres.Statements.{update}
use beer_avaliation_api.Beer.Postgres.Transactions.{
  tables, exec_in_tx_with_event, exec_in_tx_with_event_cases, postgres_repository,
}
use beer_avaliation_api.Beer.Postgres.Tables.{get_by_id-tables, update-ok}
use beer_avaliation_api.Beer.Postgres.Events.{postgres_store}
use beer_avaliation_api.Beer.Postgres.Promises.{store_of, or_raise-ok}

-- What an update makes of a row: the comments and the media are those of the beer that is written,
-- the description and the author are the old ones.
pub record IsUpdated (beer : Beer) (old new : Row) : Type 0 where
  pub name : new.name ≡ beer.name
  pub comments : new.comments ≡ value beer.comments
  pub media : new.media ≡ value beer.media
  pub description : new.description ≡ old.description
  pub created_by : new.created_by ≡ old.created_by

-- One beer of the table was updated, and the rows of the others are as they were.
pub record Updates (id : String) (beer : Beer) (rows rows' : List Row) : Type 0 where
  pub old : Row
  pub new : Row
  pub held : find_row id rows ≡ some old
  pub left : find_row id rows' ≡ some new
  pub is_updated : IsUpdated beer old new
  pub others : (other : String) → other ≢ id → find_row other rows' ≡ find_row other rows

update-Updates :
    (id : String) (beer : Beer) (db db' : Db)
    → update id beer db ≡ (ok tt, db')
    → Updates id beer db.beers db'.beers
unfolding set_row
update-Updates id beer db db' h =
    let (row, found, events, rows) = update-ok id beer db db' h in
    record {
      old = row;
      new = set_row db.clock beer row;
      held = found;
      left = ground (arith, rows id, eq_iff id id);
      is_updated = record {
        name = refl;
        comments = refl;
        media = refl;
        description = refl;
        created_by = refl;
      };
      others = λ other differs. ground (arith, rows other, eq_iff other id);
    }

Updates-subst :
    (id : String) (beer : Beer) (rows rows' left left' : List Row)
    → rows ≡ left
    → rows' ≡ left'
    → Updates id beer rows rows'
    → Updates id beer left left'
Updates-subst id beer rows rows' left left' h k u =
    subst (Updates id beer left) k (subst (λ r. Updates id beer r rows') h u)

module _ (round_tenths : ℕ → ℕ → ℕ) (begins : Bool)
    (searched : BeerFilters → Exec Db (List Beer × ℕ × Bool))
    (marshal : List (String × String) → String) where
  written :
      (stored : Bool) (m : Instant) (event : Event) (id : String) (beer : Beer) (f : Error → Error)
      (s s' : Db)
      → commit
          (postgres_repository round_tenths begins searched)
          (store_of stored marshal)
          m
          event
          (update id beer or_raise f)
          (update id beer or_raise f)
          s
        ≡ (ok tt, s')
      → Updates id beer s.beers s'.beers
  unfolding commit postgres_repository publish_event_cache postgres_store
  written false m event id beer f s s' h =
      update-Updates id beer s s' (or_raise-ok (update id beer) f s s' tt h)
  written true m event id beer f s s' h =
      let (q, s₁) = exec_in_tx_with_event begins event (update id beer or_raise f) s in
      elim (exec_in_tx_with_event_cases begins event (update id beer or_raise f) s s₁ q refl) [
        | inl (e, failed, same) ↦ absurd (ground (arith, failed, h))
        | inr (u, s₀, t, row, done, same, ran, found, left) ↦
            Updates-subst id beer s₀.beers t.beers s.beers s'.beers (ground (arith, same))
              (ground (arith, done, left, h))
              (update-Updates id beer s₀ t (or_raise-ok (update id beer) f s₀ t tt ran))
      ]

  change_beer-Updates :
      (stored : Bool) (ctx : Context) (m : Instant) (id : String) (beer : Beer) (db db' : Db)
      → change_beer
          (some (postgres_repository round_tenths begins searched))
          (store_of stored marshal)
          ctx
          m
          id
          beer
          db
        ≡ (ok tt, db')
      → Updates id beer db.beers db'.beers
  unfolding change_beer postgres_repository
  change_beer-Updates stored ctx m id beer db db' h =
      let (read, db₁) = get_by_id round_tenths id db in
      let kept : tables db₁ ≡ tables db = get_by_id-tables round_tenths id db in
      elim (Result-cases read) [
        | inr (e, failed) ↦ absurd (ground (arith, failed, h))
        | inl (found, got) ↦ elim (Bool-cases (can_modify ctx found.created_by)) [
          | inr closed ↦ absurd (ground (arith, got, closed, h))
          | inl open_to ↦
              let wrote =
                written stored m
                  (new_beer_event m.now m.event_id id "beer.updated" (("name", beer.name) ∷ [])) id
                  beer (new_app_error 500 "Failed to update beer") db₁ db'
                  (ground (arith, got, open_to, h)) in
              Updates-subst id beer db₁.beers db'.beers db.beers db'.beers (ground (arith, kept))
                refl wrote
        ]
      ]

  -- A request to change a beer that is answered with the beer has put the comments and the media of
  -- its body in the place of those that the row held, and has left the description of the row.
  pub update_beer-Updates :
      (tools : Tools) (stored : Bool) (m : Instant) (req : Request Beer) (sent : Beer) (p : Payload)
      (db : Db)
      → req.body ≡ decoded sent
      → tools.validate_beer (received_update tools req.id sent) ≡ none
      → (update_beer tools
          (some (postgres_repository round_tenths begins searched))
          (store_of stored marshal)
          m
          req
          db).0.content
        ≡ json p
      → Updates req.id
          (received_update tools req.id sent)
          db.beers
          (update_beer tools
            (some (postgres_repository round_tenths begins searched))
            (store_of stored marshal)
            m
            req
            db).1.beers
  update_beer-Updates tools stored m req sent p db body valid h =
      let same =
        update_beer-valid tools (postgres_repository round_tenths begins searched)
          (store_of stored marshal) m req sent db body valid in
      let (u, done) =
        respond-json tools req "Failed to update beer" _ _ p
          (sym (ap (λ (a : Response Payload × Db). a.0.content) same) ∙ h) in
      Updates-subst req.id (received_update tools req.id sent) db.beers _ db.beers _ refl
        (sym (ap (λ (a : Response Payload × Db). a.1.beers) same))
        (change_beer-Updates stored req.context m req.id (received_update tools req.id sent) db _
          done)
