-- ===== src/Upstream/IdToken.antt =====
-- `verify_id_token` of src/upstream/client.rs: the checks of an upstream ID token.
use nano_mockidp.Base.{
  ℕ, ◌+◌, ◌-◌, ◌^◌, String, Bool, false, not, Option, some, ◌==◌, any, ltb, leb, if◌then◌else◌,
  and_then, same_text, unwrap_or,
}
use nano_mockidp.Base.Text.{◌⊕◌, trim_end_slashes}
use nano_mockidp.Base.Handler
use nano_mockidp.Base.Map.{get}
use nano_mockidp.Base.Result.{Result, ok, ok_or, ◌>>=◌}
use nano_mockidp.Config.{UpstreamConfig}
use nano_mockidp.Crates.{Crates}
use nano_mockidp.Json.{Value, string, array, Claims, items, as_str, as_u64}
use nano_mockidp.Token.Jws.{value_get, check, jws_header, verify_signature}
use nano_mockidp.Upstream.Client.{Task, key}
use nano_mockidp.Upstream.Wire.{Verifier, Wire, Moment}

abbrev pub leeway : ℕ
leeway = 60

-- `u64::saturating_add`
unfoldable pub saturating_add : ℕ → ℕ → ℕ
saturating_add a b = if ltb (a + b) (2 ^ 64) then a + b else 2 ^ 64 - 1

-- `aud` is the client, or a list that has it.
abbrev pub names_client : String → Option Value → Bool
names_client client_id (some (string a)) = a == client_id
names_client client_id (some (array vs)) =
    any (λ v. same_text (as_str v) (some client_id)) (items vs)
names_client client_id _ = false

module _ (lib : Crates) (cfg : UpstreamConfig) where
  -- What follows the choice of the key, with the reading of the clock in seconds.
  unfoldable pub check_id_token : Verifier → String → String → ℕ → Result String Claims
  unfolding verify_signature trim_end_slashes saturating_add
  check_id_token verifier id_token nonce now = do
    claims ← verify_signature lib verifier id_token
    let iss = unwrap_or (and_then (get "iss" claims) as_str) ""
    issued_here ←
        check (trim_end_slashes iss == cfg.issuer)
          ("id_token iss " ⊕ lib.debug iss ⊕ " is not " ⊕ lib.debug cfg.issuer)
    for_us ←
        check (names_client cfg.client_id (get "aud" claims))
          ("id_token aud does not contain " ⊕ lib.debug cfg.client_id)
    exp ← ok_or (and_then (get "exp" claims) as_u64) "id_token has no exp"
    live ← check (not (leb (saturating_add exp leeway) now)) "id_token expired"
    asked ←
        check (same_text (and_then (get "nonce" claims) as_str) (some nonce))
          "id_token nonce mismatch"
    ok claims

  -- `verify_id_token`; the last argument is the reading of the clock at the check of `exp`
  unfoldable pub verify_id_token : Wire → Moment → Moment → String → String → ℕ → Task Claims
  unfolding jws_header key check_id_token
  verify_id_token wire at jwks_at id_token nonce now =
      Handler.◌>>=◌ (Handler.lift (jws_header lib id_token)) (λ header.
        Handler.◌>>=◌ (key lib wire cfg at jwks_at (and_then (value_get "kid" header) as_str))
          (λ verifier. Handler.lift (check_id_token verifier id_token nonce now)))
