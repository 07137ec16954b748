-- ===== src/Tests/Tokens.antt =====
-- Applications of the theorems on tokens (src/token.rs): an access token and an ID token of one
-- login.
use nano_mockidp.Base.{true, none, some, [], ◌∷◌, ◌≡◌, ◌↔◌, refl, ◌<◌}
use nano_mockidp.Base.Map.{get, insert, remove}
use nano_mockidp.Upstream.Seal.{same_bytes}
use nano_mockidp.Base.Result.{ok}
use nano_mockidp.Crates.{Crates, ReadsBack}
use nano_mockidp.Json.{Claims, string, json_u64}
use nano_mockidp.Tests.Fixture.{libraries, libraries-IsFaithful, key, lib}
use nano_mockidp.Token.Acceptance.{IsAccepted, verify_iff, verify-issue}
use nano_mockidp.Token.Claims.{access_claims-reserved}
use nano_mockidp.Token.Issue.{Issuer, IssueParams, is_protected, access_claims, issue}
use nano_mockidp.Token.Jws.{jose_header, sign}
use nano_mockidp.Token.Verify.{exact, verify}

abbrev pub issuer : Issuer
issuer = record {
  key = key;
  issuer = "http://localhost:8080";
  access_ttl = 3600;
  id_ttl = 600;
  default_claims = ("iss", string "forged") ∷ ("team", string "default") ∷ [];
}

abbrev pub params : IssueParams
params = record {
  client_id = "web";
  audience = none;
  scope = some "openid";
  nonce = some "n";
  claims = ("sub", string "alice") ∷ ("exp", string "never") ∷ ("team", string "core") ∷ [];
  auth_time = 990;
  sid = some "s1";
  expires_in = none;
  with_id_token = true;
}

abbrev pub claims : Claims
claims = access_claims issuer params 1000 "j1"

abbrev pub header : Claims
header = jose_header lib key "at+jwt"

-- The libraries that read these claims.
abbrev pub reader : Crates
reader = libraries header claims

abbrev header_reads : ReadsBack reader (jose_header reader key "at+jwt")
unfolding same_bytes get
header_reads = record { copy = header; read = refl; same = λ k. refl }

abbrev claims_reads : ReadsBack reader (access_claims issuer params 1000 "j1")
unfolding same_bytes get access_claims insert remove is_protected
claims_reads = record { copy = claims; read = refl; same = λ k. refl }

verify-issue_example :
    verify reader key
      (exact "http://localhost:8080")
      (issue reader issuer params 1000 "j1" "j2").access_token
      4599
    ≡ ok claims
unfolding claims_reads access_claims
verify-issue_example =
    verify-issue reader issuer params 1000 4599 "j1" "j2" (libraries-IsFaithful header claims)
      header_reads claims_reads

access_claims-reserved_example :
    (get "iss" claims ≡ some (string "http://localhost:8080"))
    × (get "iat" claims ≡ some (json_u64 1000))
    × (get "exp" claims ≡ some (json_u64 4600))
    × (get "jti" claims ≡ some (string "j1"))
access_claims-reserved_example = access_claims-reserved issuer params 1000 "j1"

verify_iff_example :
    (verify reader key (exact "http://localhost:8080") (sign reader key claims "at+jwt") 4599
      ≡ ok claims)
    ↔ ((a : IsAccepted reader key
          (exact "http://localhost:8080")
          (sign reader key claims "at+jwt")
          claims)
        × (4599 < a.exp))
verify_iff_example =
    verify_iff reader key (exact "http://localhost:8080") (sign reader key claims "at+jwt") 4599
      claims
