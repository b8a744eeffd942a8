-- ===== src/Middleware/Tests.antt =====
-- The middleware at concrete requests (pkg/middleware, pkg/auth/jwt.go).
mod Delivery
use beer_avaliation_api.Base.{
  ◌≡◌, ◌≢◌, ◌↔◌, refl, String, true, false, none, some, arith, leb, eq_iff, str_eq, if◌then◌else◌,
}
use Prim.Native.String.{◌++◌}
use beer_avaliation_api.Results.{ok}
use beer_avaliation_api.Middleware.Context.{Context, background}
use beer_avaliation_api.Middleware.Auth.{
  access_token_ttl, issued_claims, ReadsBack, Jwt, passed, refused, generate_token, auth,
  require_admin,
}
use beer_avaliation_api.Middleware.Auth.Bearer.{
  auth-generate_token, auth-generate_token_expired, require_admin-passed_iff,
}

-- A library that signs every claim alike, and reads the claims of one administrator back.
abbrev jwt : Jwt
jwt = record {
  sign = λ c. "signed";
  parse =
      λ now token. if leb access_token_ttl now then none else some (issued_claims 0 "ana" "admin");
}

jwt-ReadsBack : ReadsBack jwt (issued_claims 0 "ana" "admin")
jwt-ReadsBack = record {
  live = λ now l. (issued_claims 0 "ana" "admin", ground arith, refl, refl, refl);
  expired = λ now l. ground arith;
}

abbrev signed : String
signed = "signed"

signed-ne-nil : signed ≢ ""
signed-ne-nil e =
    let differs : str_eq "signed" "" ≡ false = refl in ground (arith, differs, eq_iff "signed" "")

generated : generate_token jwt true 0 "ana" "admin" ≡ ok "signed"
unfolding generate_token
generated = refl

auth-generate_token_example :
    auth jwt true 5 background ("Bearer " ++ "signed")
    ≡ passed (record background { user_id = some "ana"; role = some "admin" })
auth-generate_token_example =
    auth-generate_token jwt 0 5 background "ana" "admin" "signed" jwt-ReadsBack generated
      signed-ne-nil (omega arith)

abbrev ana : Context
ana = record { user_id = some "ana"; role = some "admin" }

require_admin-passed_iff_example :
    (require_admin jwt true 5 background "Bearer signed" ≡ passed ana)
    ↔ ((auth jwt true 5 background "Bearer signed" ≡ passed ana) × (ana.role ≡ some "admin"))
require_admin-passed_iff_example =
    require_admin-passed_iff jwt true 5 background ana "Bearer signed"
