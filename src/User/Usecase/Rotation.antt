-- ===== src/User/Usecase/Rotation.antt =====
-- The rotation of refresh tokens (internal/user/usecase/user_usecase.go), over a repository whose
-- `refresh_tokens` table behaves as the statements of
-- internal/user/repository/user_repository.go say.
use beer_avaliation_api.Base.{
  ◌≡◌, ◌≢◌, ◌⊎◌, refl, Bool-cases, inl, inr, ◌∙◌, ap, String, true, false, Option, some, arith,
  eq_iff, str_eq, if◌then◌else◌,
}
use beer_avaliation_api.Results.{Result, ok, err, Result-cases}
use beer_avaliation_api.User.Model.{User, RefreshToken, is_expired}
use beer_avaliation_api.User.Repository.{UserRepository}
use beer_avaliation_api.User.Services.{TokenPair, Services, Moment}
use beer_avaliation_api.User.Usecase.Sessions.{
  invalid_refresh_token, refresh_record, issue_token_pair, rotate, refresh_tokens,
  refresh_lookup_error,
}
use beer_avaliation_api.User.Usecase.Issue.{IsIssued, refresh_record-IsIssued, issue_token_pair-ok}
use beer_avaliation_api.Errors.{Error}

abbrev pub revoked_token : RefreshToken → RefreshToken
revoked_token t = record t { revoked = true }

-- The table of refresh tokens, seen through its unique index on the hash: `row` is the row with a
-- hash. Any statement may fail; one that succeeds has its documented effect.
pub record TokenTable {S : Type 0} (repo : UserRepository S)
    (row : S → String → Option RefreshToken) : Type 0 where
  pub row-token_hash : (s : S) (h : String) (t : RefreshToken) → row s h ≡ some t → t.token_hash ≡ h
  -- SELECT … WHERE token_hash = $1
  pub selected :
      (s : S) (h : String) (t : RefreshToken)
      → row s h ≡ some t
      → (s' : S) × ((repo.get_refresh_token_by_hash "" h s ≡ (ok t, s'))
          ⊎ ((e : Error) × (repo.get_refresh_token_by_hash "" h s ≡ (err e, s'))))
  pub selected_ok :
      (s s' : S) (h : String) (t : RefreshToken)
      → repo.get_refresh_token_by_hash "" h s ≡ (ok t, s')
      → (row s h ≡ some t) × ((other : String) → row s' other ≡ row s other)
  -- SELECT … FROM beerUsers
  pub row-get_by_id : (s : S) (id h : String) → row (repo.get_by_id id s).1 h ≡ row s h
  -- INSERT INTO refresh_tokens
  pub inserted :
      (s s' : S) (t : RefreshToken) (h : String)
      → repo.create_refresh_token t s ≡ (ok tt, s')
      → row s' h ≡ (if str_eq t.token_hash h then some t else row s h)
  -- UPDATE refresh_tokens SET revoked = true WHERE user_id = $1 AND token_hash = $2
  pub revoked_one :
      (s s' : S) (t : RefreshToken) (h : String)
      → row s t.token_hash ≡ some t
      → repo.revoke_refresh_token t.user_id t.token_hash s ≡ (ok tt, s')
      → row s' h ≡ (if str_eq t.token_hash h then some (revoked_token t) else row s h)
  -- UPDATE refresh_tokens SET revoked = true WHERE user_id = $1 AND revoked = false
  pub revoked_all :
      (s s' : S) (user_id h : String) (t : RefreshToken)
      → repo.revoke_all_refresh_tokens user_id s ≡ (ok tt, s')
      → row s' h ≡ some t
      → t.user_id ≡ user_id
      → t.revoked ≡ true

-- The token is refused: as one that is not valid, or because it could not be looked up.
abbrev pub Refused : {S : Type 0} → Services → UserRepository S → Moment → String → S → Type 0
Refused {S} sv repo m token s =
    ((refresh_tokens sv (some repo) m token s).0 ≡ err invalid_refresh_token)
    ⊎ ((e : Error) × (s' : S) × (repo.get_refresh_token_by_hash "" (sv.hash_token token) s
          ≡ (err e, s'))
        × (refresh_tokens sv (some repo) m token s
            ≡ (err (refresh_lookup_error sv (some repo) e), s')))

module _ {S : Type 0} (sv : Services) (repo : UserRepository S)
    (row : S → String → Option RefreshToken) (table : TokenTable repo row) where
  rotate-ok :
      (m : Moment) (t : RefreshToken) (s s' : S) (pair : TokenPair)
      → rotate sv (some repo) repo m t s ≡ (ok pair, s')
      → (user : User) × (s₁ : S) × (s₂ : S) × (repo.get_by_id t.user_id s ≡ (ok user, s₁))
        × (repo.revoke_refresh_token t.user_id t.token_hash s₁ ≡ (ok tt, s₂))
        × (issue_token_pair sv (some repo) repo m t.user_id user.role s₂ ≡ (ok pair, s'))
  unfolding rotate
  rotate-ok m t s s' pair e =
      let (found, s₁) = repo.get_by_id t.user_id s in
      let (done, s₂) = repo.revoke_refresh_token t.user_id t.token_hash s₁ in
      elim (Result-cases found) [
        | inr (x, failed) ↦ absurd (ground (arith, failed))
        | inl (user, got) ↦ (user, s₁, s₂, ground (arith, got), ground arith, ground (arith, got))
      ]

  refresh_tokens-ok :
      (m : Moment) (token : String) (s s' : S) (pair : TokenPair)
      → refresh_tokens sv (some repo) m token s ≡ (ok pair, s')
      → (t : RefreshToken) × (s₁ : S) × (token ≢ "")
        × (row s (sv.hash_token token) ≡ some t)
        × ((other : String) → row s₁ other ≡ row s other)
        × (t.revoked ≡ false)
        × (is_expired t m.now ≡ false)
        × (rotate sv (some repo) repo m t s₁ ≡ (ok pair, s'))
  unfolding refresh_tokens
  refresh_tokens-ok m token s s' pair e =
      let h = sv.hash_token token in
      let (got, s₁) = repo.get_refresh_token_by_hash "" h s in
      elim (Result-cases got) [
        | inr (x, failed) ↦ absurd (ground (arith, failed))
        | inl (t, found) ↦
            let (stored, same) = table.selected_ok s s₁ h t (ground (arith, found)) in
            (
              t,
              s₁,
              ground (arith, eq_iff token ""),
              stored,
              same,
              ground (arith, found),
              ground (arith, found),
              ground (arith, found),
            )
      ]

  -- A token that is revoked is refused.
  refresh_tokens-revoked :
      (m : Moment) (token : String) (s : S) (t : RefreshToken)
      → row s (sv.hash_token token) ≡ some t
      → t.revoked ≡ true
      → Refused sv repo m token s
  unfolding refresh_tokens
  refresh_tokens-revoked m token s t stored revoked =
      let (s', looked) = table.selected s (sv.hash_token token) t stored in
      elim (Bool-cases (str_eq token "")) [
        | inl unnamed ↦ inl (ground (arith, unnamed))
        | inr named ↦ elim looked [
          | inl found ↦ inl (ground (arith, named, found, revoked))
          | inr (e, failed) ↦ inr (e, s', failed, ground (arith, named, failed))
        ]
      ]

  -- On a repository that keeps the promises of `TokenTable`, a refresh that succeeds was given a
  -- stored token that was neither revoked nor expired; it signs for the role that the account has
  -- now, leaves that token revoked, and stores a new one of the same account, live for thirty days,
  -- with the hash of the refresh token that it returns, if that hash is not the one of the old
  -- token.
  pub rotation :
      (m : Moment) (token : String) (s s' : S) (pair : TokenPair)
      → refresh_tokens sv (some repo) m token s ≡ (ok pair, s')
      → sv.hash_token pair.refresh_token ≢ sv.hash_token token
      → (t : RefreshToken) × (new : RefreshToken) × (user : User) × (s₁ : S) × (s₂ : S) × (row s
            (sv.hash_token token)
          ≡ some t)
        × (t.revoked ≡ false)
        × (is_expired t m.now ≡ false)
        × (repo.get_by_id t.user_id s₁ ≡ (ok user, s₂))
        × (sv.generate_token t.user_id user.role ≡ ok pair.access_token)
        × (row s' (sv.hash_token token) ≡ some (revoked_token t))
        × IsIssued sv m t.user_id pair.refresh_token new
        × (row s' (sv.hash_token pair.refresh_token) ≡ some new)
  rotation m token s s' pair e fresh =
      let (t, s₁, named, stored, same_rows, live, young, rotated) =
        refresh_tokens-ok m token s s' pair e in
      let (user, s₂, s₃, got, revoked, issued) = rotate-ok m t s₁ s' pair rotated in
      let (raw, access, created) =
        issue_token_pair-ok sv repo m t.user_id user.role s₃ s' pair issued in
      let h = sv.hash_token token in
      let new = refresh_record sv (some repo) m t.user_id pair.refresh_token in
      let same : t.token_hash ≡ h = table.row-token_hash s h t stored in
      let kept : row s₂ h ≡ some t =
        rw (ap (λ (p : Result User × S). p.1) got) at (table.row-get_by_id s₁ t.user_id h)
        ∙ same_rows h
        ∙ stored in
      let after : row s₃ h ≡ some (revoked_token t) =
        table.revoked_one s₂ s₃ t h (rw same kept) revoked
        ∙ ground (arith, same, eq_iff t.token_hash h) in
      let old = table.inserted s₃ s' new h created in
      let made = table.inserted s₃ s' new new.token_hash created in
      (
        t,
        new,
        user,
        s₁,
        s₂,
        stored,
        live,
        young,
        got,
        access,
        old ∙ ground (arith, after, fresh, eq_iff new.token_hash h),
        refresh_record-IsIssued sv repo m t.user_id pair.refresh_token,
        made ∙ ground (arith, eq_iff new.token_hash new.token_hash),
      )

  -- On a repository that keeps the promises of `TokenTable`, a refresh token works once: after a
  -- refresh that succeeds and returns a token with another hash, its token is refused, as one that is
  -- not valid or because it could not be looked up.
  pub rotation_once :
      (m later : Moment) (token : String) (s s' : S) (pair : TokenPair)
      → refresh_tokens sv (some repo) m token s ≡ (ok pair, s')
      → sv.hash_token pair.refresh_token ≢ sv.hash_token token
      → Refused sv repo later token s'
  rotation_once m later token s s' pair e fresh =
      let (t, new, user, s₁, s₂, stored, live, young, got, access, after, issued, made) =
        rotation m token s s' pair e fresh in
      refresh_tokens-revoked later token s' (revoked_token t) after refl

  -- On a repository that keeps the promises of `TokenTable`, a token that was revoked before is refused
  -- where the statements that read it and that revoke the tokens of its user succeed, and in the
  -- state that this leaves every token of the user is refused, as one that is not valid or because it
  -- could not be looked up.
  pub reuse_locks_out :
      (m later : Moment) (token other : String) (s s₁ s' : S) (t o : RefreshToken)
      → token ≢ ""
      → t.revoked ≡ true
      → repo.get_refresh_token_by_hash "" (sv.hash_token token) s ≡ (ok t, s₁)
      → repo.revoke_all_refresh_tokens t.user_id s₁ ≡ (ok tt, s')
      → row s' (sv.hash_token other) ≡ some o
      → o.user_id ≡ t.user_id
      → (refresh_tokens sv (some repo) m token s ≡ (err invalid_refresh_token, s'))
        × Refused sv repo later other s'
  unfolding refresh_tokens
  reuse_locks_out m later token other s s₁ s' t o named revoked read done found own = (
    ground (arith, eq_iff token "", read, revoked, done),
    refresh_tokens-revoked later other s' o found
        (table.revoked_all s₁ s' t.user_id (sv.hash_token other) o done found own),
  )
