-- ===== src/Token/Verify.antt =====
-- `verify` and `verify_allow_expired` (src/token.rs): a token is accepted by its signature, its
-- expiry and its issuer.
use nano_mockidp.Base.{ℕ, String, Bool, true, false, not, ◌&&◌, ◌==◌, leb, and_then}
use nano_mockidp.Base.Text.{◌⊕◌, trim_end_slashes}
use nano_mockidp.Base.Result.{Result, ok, ok_or, ◌>>=◌}
use nano_mockidp.Base.Map.{get}
use nano_mockidp.Crates.{Crates, SigningKey}
use nano_mockidp.Json.{Claims, as_str, as_u64}
use nano_mockidp.Token.Jws.{verify_signature, check, map_err}

pub data IssuerCheck : Type 0 where
  exact : String → IssuerCheck
  path_only : String → IssuerCheck

module _ (lib : Crates) where
  unfoldable pub check_issuer : IssuerCheck → String → Result String (Unit {0})
  check_issuer (exact expected) iss =
      check (iss == expected) ("issuer mismatch: " ⊕ lib.debug iss ⊕ " != " ⊕ lib.debug expected)
  check_issuer (path_only path) iss = do
    url ← map_err "iss is not a URL: " (lib.parse_url iss)
    check (trim_end_slashes url.path == path)
        ("iss path " ⊕ lib.debug url.path ⊕ " does not match issuer path " ⊕ lib.debug path)

  unfoldable pub verify_inner : SigningKey → IssuerCheck → String → Bool → ℕ → Result String Claims
  unfolding check_issuer
  verify_inner key issuer token check_exp now = do
    claims ← verify_signature lib key.verifier token
    exp ← ok_or (and_then (get "exp" claims) as_u64) "missing exp claim"
    live ← check (not (check_exp && leb exp now)) "token expired"
    iss ← ok_or (and_then (get "iss" claims) as_str) "missing iss claim"
    issued_here ← check_issuer issuer iss
    ok claims

  unfoldable pub verify : SigningKey → IssuerCheck → String → ℕ → Result String Claims
  unfolding verify_inner
  verify key issuer token now = verify_inner key issuer token true now

  -- Expired tokens pass, so the clock is not read.
  unfoldable pub verify_allow_expired : SigningKey → IssuerCheck → String → Result String Claims
  unfolding verify_inner
  verify_allow_expired key issuer token = verify_inner key issuer token false 0
