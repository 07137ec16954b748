-- ===== src/Config/UpstreamSettings.antt =====
-- `parse_upstream` of src/config.rs: the settings of the upstream gate.
use nano_mockidp.Base.{
  String, Bool, not, ◌&&◌, Option, none, some, List, [], ◌∷◌, ◌==◌, if◌then◌else◌, any, contains,
  unwrap_or,
}
use nano_mockidp.Base.Text.{◌⊕◌, trim, trim_end_slashes, split_once, split_whitespace}
use nano_mockidp.Base.Result.{Result, ok, err, ok_or, ◌>>=◌}
use nano_mockidp.Config.{UpstreamConfig}
use nano_mockidp.Config.Parse.{
  Readers, Settings, setting, or_default, parse_url, parse_seconds, comma_list,
}
use nano_mockidp.Crates.{Crates}

-- `RESERVED_CLAIMS`
abbrev pub reserved_claims : List String
reserved_claims = "sub" ∷ "iss" ∷ "aud" ∷ "azp" ∷ "exp" ∷ "iat" ∷ "jti" ∷ "nonce" ∷ "auth_time" ∷ []

abbrev pub has_openid : String → Bool
has_openid scope = any (λ s. s == "openid") (split_whitespace scope)

-- A scope that has `openid`.
unfoldable pub with_openid : String → String
unfolding split_whitespace
with_openid scope = if has_openid scope then scope else "openid " ⊕ scope

abbrev pub path_and_value : Option (String × String) → Option (String × String)
path_and_value none = none
path_and_value (some (path, value)) =
    if not (trim path == "") && not (trim value == "") then some (trim path, trim value) else none

abbrev pub first_reserved : List String → Option String
first_reserved [] = none
first_reserved (c ∷ cs) = if contains reserved_claims c then some c else first_reserved cs

abbrev pub trimmed : Option String → Option String
trimmed none = none
trimmed (some s) = some (trim s)

module _ (lib : Crates) where
  unfoldable pub parse_requirement : Option String → Result String (Option (String × String))
  unfolding trim split_once
  parse_requirement none = ok none
  parse_requirement (some v) = elim (path_and_value (split_once b'=' (trim v))) [
    | some required ↦ ok (some required)
    | none ↦ err ("UPSTREAM_REQUIRE_CLAIM: expected path=value, got " ⊕ lib.debug v)
  ]

  unfoldable pub parse_sub_claim : Option String → Result String (Option String)
  parse_sub_claim none = ok none
  parse_sub_claim (some c) =
      if contains reserved_claims c
      then err ("UPSTREAM_SUB_TOKEN_CLAIM: " ⊕ lib.debug c ⊕ " is reserved, pick another name")
      else ok (some c)

  unfoldable pub parse_forwarded : String → Result String (List String)
  unfolding comma_list
  parse_forwarded v = elim (first_reserved (comma_list v)) [
    | none ↦ ok (comma_list v)
    | some c ↦
        err ("UPSTREAM_FORWARD_CLAIMS: " ⊕ lib.debug c ⊕ " is reserved, it cannot be forwarded")
  ]

  -- What follows once `UPSTREAM_ISSUER` is set.
  unfoldable pub parse_gate : Readers → Settings → String → Result String UpstreamConfig
  unfolding setting trim trim_end_slashes parse_url with_openid parse_requirement parse_seconds
      parse_sub_claim parse_forwarded
  parse_gate readers m given = do
    let issuer = trim_end_slashes (trim given)
    url ← parse_url lib "UPSTREAM_ISSUER" issuer
    client_id ←
        ok_or (trimmed (setting m "UPSTREAM_CLIENT_ID"))
          "UPSTREAM_CLIENT_ID is required when UPSTREAM_ISSUER is set"
    required ← parse_requirement (setting m "UPSTREAM_REQUIRE_CLAIM")
    session_ttl ←
        or_default (parse_seconds lib readers "UPSTREAM_SESSION_TTL") 28800
          (setting m "UPSTREAM_SESSION_TTL")
    sub_token_claim ← parse_sub_claim (trimmed (setting m "UPSTREAM_SUB_TOKEN_CLAIM"))
    forward_claims ← parse_forwarded (unwrap_or (setting m "UPSTREAM_FORWARD_CLAIMS") "")
    ok (record {
      issuer = issuer;
      client_id = client_id;
      client_secret = trimmed (setting m "UPSTREAM_CLIENT_SECRET");
      scope = with_openid (trim (unwrap_or (setting m "UPSTREAM_SCOPE") "openid email profile"));
      require_claim = required;
      session_ttl = session_ttl;
      sub_token_claim = sub_token_claim;
      forward_claims = forward_claims;
      ca_path = setting m "UPSTREAM_CA_PATH";
    })

  -- `parse_upstream`
  unfoldable pub parse_upstream : Readers → Settings → Result String (Option UpstreamConfig)
  unfolding parse_gate setting
  parse_upstream readers m = elim (setting m "UPSTREAM_ISSUER") [
    | none ↦ ok none
    | some given ↦ do u ← parse_gate readers m given; ok (some u)
  ]
