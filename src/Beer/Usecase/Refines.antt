-- ===== src/Beer/Usecase/Refines.antt =====
-- What a change of the comments does to the comments of every beer
-- (internal/beer/usecase/beer_usecase.go, execCommentMutation).
use beer_avaliation_api.Base.{
  ◌≡◌, inl, inr, String, Option, some, List, arith, str_eq, if◌then◌else◌, Option-cases,
}
use beer_avaliation_api.Results.{Result, ok, Exec, Result-cases}
use beer_avaliation_api.Beer.Model.{Beer, Comment}
use beer_avaliation_api.Beer.Repository.{Event, BeerRepository, EventStore}
use beer_avaliation_api.Beer.Usecase.Changes.{
  Instant, publish_event_cache, publish_beer_event, exec_comment_mutation,
}
use beer_avaliation_api.Beer.Usecase.Comments.{edit_comments}

-- What the repository and the event store promise, in terms of the comments that each state holds
-- for each beer: reads change nothing, a write sets the comments of one beer, a transaction that is
-- committed did what its function did, and no event touches the beers.
pub record CommentTable (S : Type 0) (repo : BeerRepository S) (events : Option (EventStore S))
    (view : S → String → Option (List Comment)) : Type 1 where
  pub reads :
      (id : String) (s s' : S) (beer : Beer)
      → repo.get_by_id id s ≡ (ok beer, s')
      → (view s id ≡ some beer.comments) × (view s' ≡ view s)
  pub writes :
      (id : String) (beer : Beer) (s s' : S) (other : String)
      → repo.update id beer s ≡ (ok tt, s')
      → view s' other ≡ (if str_eq other id then some beer.comments else view s other)
  pub commits :
      (change : Exec S Unit) (s s' : S)
      → repo.exec_in_tx change s ≡ (ok tt, s')
      → (s₀ : S) × (s₁ : S) × (view s₀ ≡ view s) × (change s₀ ≡ (ok tt, s₁)) × (view s' ≡ view s₁)
  pub commits_with :
      (atomic : (A : Type 0) → Event → Exec S A → Exec S A) (event : Event) (change : Exec S Unit)
      (s s' : S)
      → repo.exec_in_tx_with_event ≡ some atomic
      → atomic Unit event change s ≡ (ok tt, s')
      → (s₀ : S) × (s₁ : S) × (view s₀ ≡ view s) × (change s₀ ≡ (ok tt, s₁)) × (view s' ≡ view s₁)
  pub publishes :
      (m : Instant) (beer_id kind : String) (payload : List (String × String)) (s : S)
      → view (publish_beer_event events m beer_id kind payload s).1 ≡ view s
  pub caches :
      (store : EventStore S) (event : Event) (s : S)
      → events ≡ some store
      → view (publish_event_cache store event s).1 ≡ view s

module _ {S : Type 0} (repo : BeerRepository S) (events : Option (EventStore S))
    (view : S → String → Option (List Comment)) (table : CommentTable S repo events view) where
  -- A committed mutation has run its function.
  pub exec_comment_mutation-ok :
      (m : Instant) (event : Event) (change : Exec S Unit) (s s' : S)
      → exec_comment_mutation repo events m event change s ≡ (ok tt, s')
      → (s₀ : S) × (s₁ : S) × (view s₀ ≡ view s) × (change s₀ ≡ (ok tt, s₁)) × (view s' ≡ view s₁)
  unfolding exec_comment_mutation
  exec_comment_mutation-ok m event change s s' h = elim (Option-cases repo.exec_in_tx_with_event) [
    | inl e ↦
        let (r, s₂) = repo.exec_in_tx change s in
        let (s₀, s₁, began, ran, same) = table.commits change s s₂ (ground (arith, e)) in
        (
          s₀,
          s₁,
          began,
          ran,
          ground (arith, e, same, table.publishes m event.beer_id event.kind event.payload s₂),
        )
    | inr (atomic, e) ↦ elim (Option-cases events) [
      | inl silent ↦ table.commits change s s' (ground (arith, e, silent))
      | inr (store, heard) ↦
          let (r, s₂) = atomic Unit event change s in
          let (s₀, s₁, began, ran, same) =
            table.commits_with atomic event change s s₂ e (ground (arith, e, heard)) in
          (s₀, s₁, began, ran, ground (arith, e, heard, same, table.caches store event s₂ heard))
    ]
  ]

  pub edit_comments-ok :
      (id failure : String) (step : List Comment → Result (List Comment)) (s s₁ : S)
      → edit_comments repo id failure step s ≡ (ok tt, s₁)
      → (old : List Comment) × (new : List Comment) × (view s id ≡ some old)
        × (step old ≡ ok new)
        × ((other : String) → view s₁ other ≡ (if str_eq other id then some new else view s other))
  unfolding edit_comments
  edit_comments-ok id failure step s s₁ h =
      let (read, s₂) = repo.get_by_id id s in
      elim (Result-cases read) [
        | inr (x, failed) ↦ absurd (ground (arith, failed))
        | inl (beer, got) ↦ elim (Result-cases (step beer.comments)) [
          | inr (x, failed) ↦ absurd (ground (arith, got, failed))
          | inl (new, made) ↦
              let (held, kept) = table.reads id s s₂ beer (ground (arith, got)) in
              (
                beer.comments,
                new,
                held,
                made,
                λ other. ground (
                  arith,
                  kept,
                  table.writes id (record beer { comments = new }) s₂ s₁ other
                      (ground (arith, got, made)),
                ),
              )
        ]
      ]

  -- A committed change of the comments of one beer is the step on the comments that the beer had.
  pub mutation-edit_comments :
      (m : Instant) (event : Event) (id failure : String)
      (step : List Comment → Result (List Comment)) (s s' : S)
      → exec_comment_mutation repo events m event (edit_comments repo id failure step) s
        ≡ (ok tt, s')
      → (old : List Comment) × (new : List Comment) × (view s id ≡ some old)
        × (step old ≡ ok new)
        × ((other : String) → view s' other ≡ (if str_eq other id then some new else view s other))
  mutation-edit_comments m event id failure step s s' h =
      let (s₀, s₁, began, ran, same) =
        exec_comment_mutation-ok m event (edit_comments repo id failure step) s s' h in
      let (old, new, held, made, set) = edit_comments-ok id failure step s₀ s₁ ran in
      (old, new, ground (arith, began, held), made, λ other. ground (arith, began, same, set other))
