-- ===== src/Middleware/Auth.antt =====
-- The bearer check of pkg/middleware/auth.go over the tokens of pkg/auth/jwt.go. The JWT library is
-- a parameter: it signs claims, and reads a token back while it has not expired.
pub mod Bearer
use beer_avaliation_api.Base.{
  ℕ, ◌+◌, ◌*◌, ◌≤◌, ◌≡◌, String, Bool, true, false, not, ◌&&◌, ◌||◌, Option, none, some,
  if◌then◌else◌, str_eq,
}
use beer_avaliation_api.Errors.{Error, sentinel, missing_secret, new_app_error, nil}
use beer_avaliation_api.Results.{Result, ok, err}
use beer_avaliation_api.Middleware.Context.{Context, is_admin}

-- `accessTokenTTL`, in nanoseconds.
abbrev pub access_token_ttl : ℕ
access_token_ttl = 3600 * 1000000000

abbrev pub issuer_claim : String
issuer_claim = "beer-review-app"

pub record Claims : Type 0 where
  pub user_id : String
  pub role : String
  pub expires_at : ℕ
  pub issuer : String

-- golang-jwt/v5 with one HMAC secret: `sign` is `SignedString`, `parse now` is `ParseWithClaims`
-- with its check of the method, `none` standing for an error or an invalid token.
pub record Jwt : Type 0 where
  pub sign : Claims → String
  pub parse : ℕ → String → Option Claims

-- The library's promise on a token that it signed. An expiry is kept in whole seconds, so a token is
-- read back while a second of its life is left, and not from its expiry on.
pub record ReadsBack (jwt : Jwt) (c : Claims) : Type 0 where
  pub live :
      (now : ℕ)
      → now + 1000000000 ≤ c.expires_at
      → (d : Claims) × (jwt.parse now (jwt.sign c) ≡ some d)
        × (d.user_id ≡ c.user_id)
        × (d.role ≡ c.role)
        × (d.issuer ≡ c.issuer)
  pub expired : (now : ℕ) → c.expires_at ≤ now → jwt.parse now (jwt.sign c) ≡ none

-- The claims that `GenerateToken` signs.
abbrev pub issued_claims : ℕ → String → String → Claims
issued_claims now user_id role = record {
  user_id = user_id;
  role = role;
  expires_at = now + access_token_ttl;
  issuer = issuer_claim;
}

-- What a handler behind a middleware answers: it was refused with a status and a code, or the next
-- handler is called with a context.
pub data Passage : Type 0 where
  refused : ℕ → String → Passage
  passed : Context → Passage

-- `strings.Cut(s, " ")`: the text before the first space, and the text after it.
unfoldable pub cut_space : String → Option (String × String)
cut_space String.[] = none
cut_space (String.◌∷◌ c s) =
    let rest = cut_space s in
    if str_eq (String.◌∷◌ c String.[]) " "
    then some (String.[], s)
    else elim rest [ none ↦ none | some (a, b) ↦ some (String.◌∷◌ c a, b) ]

abbrev pub admin_only : Passage → Passage
admin_only (refused status code) = refused status code
admin_only (passed ctx) = if not (is_admin ctx) then refused 403 "forbidden" else passed ctx

module _ (jwt : Jwt) where
  -- `GenerateToken`; `has_secret` is `len(jwtSecret) != 0`.
  unfoldable pub generate_token : Bool → ℕ → String → String → Result String
  generate_token has_secret now user_id role =
      if not has_secret
      then err (sentinel missing_secret)
      else ok (jwt.sign (issued_claims now user_id role))

  -- `ValidateToken`
  unfoldable pub validate_token : Bool → ℕ → String → Result (String × String)
  unfolding new_app_error
  validate_token has_secret now token =
      if not has_secret then err (sentinel missing_secret) else elim (jwt.parse now token) [
        | none ↦ err (new_app_error 401 "invalid token signature" nil)
        | some c ↦
            if not (str_eq c.issuer issuer_claim)
            then err (new_app_error 401 "invalid token issuer" nil)
            else ok (c.user_id, c.role)
      ]

  -- The end of `Auth`, once the header is split.
  unfoldable pub check_bearer : Bool → ℕ → Context → String → Option (String × String) → Passage
  check_bearer has_secret now ctx header none = refused 401 "unauthorized"
  check_bearer has_secret now ctx header (some (scheme, token)) =
      if not (str_eq scheme "Bearer") || str_eq token ""
      then refused 401 "unauthorized"
      else elim (validate_token has_secret now token) [
        | err e ↦ refused 401 "invalid_token"
        | ok (user_id, role) ↦ passed (record ctx { user_id = some user_id; role = some role })
      ]

  -- `Auth`: `header` is the `Authorization` header, empty when it is missing.
  unfoldable pub auth : Bool → ℕ → Context → String → Passage
  unfolding check_bearer
  auth has_secret now ctx header =
      if str_eq header ""
      then refused 401 "unauthorized"
      else check_bearer has_secret now ctx header (cut_space header)

  -- `RequireAdmin`
  unfoldable pub require_admin : Bool → ℕ → Context → String → Passage
  require_admin has_secret now ctx header = admin_only (auth has_secret now ctx header)
