-- ===== src/Middleware/Auth/Bearer.antt =====
-- What the bearer check lets through (pkg/middleware/auth.go, pkg/auth/jwt.go).
use beer_avaliation_api.Base.{
  ℕ, ◌+◌, ◌≤◌, ◌≡◌, sym, ◌∙◌, ◌≢◌, ◌↔◌, ap, String, Bool, true, false, inl, inr, some, arith,
  str_eq, eq_iff, eq_refl, Bool-cases,
}
use beer_avaliation_api.Errors.{nil, new_app_error}
use beer_avaliation_api.Results.{ok, err}
use beer_avaliation_api.Middleware.Context.{Context, is_admin, is_admin_iff}
use beer_avaliation_api.Middleware.Auth.{
  Jwt, Passage, refused, passed, access_token_ttl, issuer_claim, cut_space, generate_token,
  validate_token, ReadsBack, issued_claims, refused, auth, admin_only, require_admin,
}
use text.Mathlib.TextLemmas.{cons-append, nil-append}
use Prim.Native.String.{◌++◌}
use Prim.Native.String.compare

-- The split at the first space undoes the concatenation, if the first part has no space.
cut_space-Bearer : (token : String) → cut_space ("Bearer " ++ token) ≡ some ("Bearer", token)
unfolding cut_space
cut_space-Bearer token = rw (
  cons-append, cons-append, cons-append, cons-append, cons-append, cons-append, cons-append,
  nil-append,
)

Bearer-ne-nil : (token : String) → str_eq ("Bearer " ++ token) "" ≡ false
Bearer-ne-nil token = rw (cons-append, compare.cons-nil)

admin_only-passed_iff :
    (p : Passage) (next : Context)
    → (admin_only p ≡ passed next) ↔ ((p ≡ passed next) × (next.role ≡ some "admin"))
admin_only-passed_iff (refused status code) next = ground arith
admin_only-passed_iff (passed ctx) next =
    let (to, from) = is_admin_iff ctx in
    elim (Bool-cases (is_admin ctx)) [
      | inl e ↦ (
        (λ h.
            let same : ctx ≡ next = ground arith in
            (ap passed same, ap (λ (c : Context). c.role) (sym same) ∙ to e)),
        (λ h. ground arith),
      )
      | inr e ↦ (
        (λ h. ground arith),
        (λ h.
            let same : ctx ≡ next = ground arith in
            cc (from (ap (λ (c : Context). c.role) same ∙ h.1), e)),
      )
    ]

module _ (jwt : Jwt) where
  validate_token_live :
      (issued now : ℕ) (user_id role : String) (token : String)
      → ReadsBack jwt (issued_claims issued user_id role)
      → generate_token jwt true issued user_id role ≡ ok token
      → now + 1000000000 ≤ issued + access_token_ttl
      → validate_token jwt true now token ≡ ok (user_id, role)
  unfolding generate_token validate_token
  validate_token_live issued now user_id role token reads e l =
      let (d, read, u, r, i) = reads.live now l in
      let signed : jwt.sign (issued_claims issued user_id role) ≡ token = ground arith in
      ground (arith, signed, read, u, r, i, eq_iff d.issuer issuer_claim)

  validate_token_expired :
      (issued now : ℕ) (user_id role : String) (token : String)
      → ReadsBack jwt (issued_claims issued user_id role)
      → generate_token jwt true issued user_id role ≡ ok token
      → issued + access_token_ttl ≤ now
      → validate_token jwt true now token ≡ err (new_app_error 401 "invalid token signature" nil)
  unfolding generate_token validate_token
  validate_token_expired issued now user_id role token reads e l =
      let signed : jwt.sign (issued_claims issued user_id role) ≡ token = ground arith in
      ground (arith, signed, reads.expired now l)

  -- A request that carries an issued token as its bearer token passes `Auth` while a second of the
  -- token's hour is left, and its context then names the token's user and role.
  pub auth-generate_token :
      (issued now : ℕ) (ctx : Context) (user_id role token : String)
      → ReadsBack jwt (issued_claims issued user_id role)
      → generate_token jwt true issued user_id role ≡ ok token
      → token ≢ ""
      → now + 1000000000 ≤ issued + access_token_ttl
      → auth jwt true now ctx ("Bearer " ++ token)
        ≡ passed (record ctx { user_id = some user_id; role = some role })
  unfolding auth
  auth-generate_token issued now ctx user_id role token reads e named l =
      let valid = validate_token_live issued now user_id role token reads e l in
      rw (Bearer-ne-nil token, cut_space-Bearer token)
        (ground (arith, valid, eq_iff token "", eq_refl "Bearer"))

  -- The same request is refused with 401 from the end of the token's hour on.
  pub auth-generate_token_expired :
      (issued now : ℕ) (ctx : Context) (user_id role token : String)
      → ReadsBack jwt (issued_claims issued user_id role)
      → generate_token jwt true issued user_id role ≡ ok token
      → token ≢ ""
      → issued + access_token_ttl ≤ now
      → auth jwt true now ctx ("Bearer " ++ token) ≡ refused 401 "invalid_token"
  unfolding auth
  auth-generate_token_expired issued now ctx user_id role token reads e named l =
      let invalid = validate_token_expired issued now user_id role token reads e l in
      rw (Bearer-ne-nil token, cut_space-Bearer token)
        (ground (arith, invalid, eq_iff token "", eq_refl "Bearer"))

  -- `RequireAdmin` calls its handler exactly when `Auth` would, with a context whose role is admin.
  pub require_admin-passed_iff :
      (has_secret : Bool) (now : ℕ) (ctx next : Context) (header : String)
      → (require_admin jwt has_secret now ctx header ≡ passed next)
        ↔ ((auth jwt has_secret now ctx header ≡ passed next) × (next.role ≡ some "admin"))
  unfolding require_admin
  require_admin-passed_iff has_secret now ctx next header =
      admin_only-passed_iff (auth jwt has_secret now ctx header) next
