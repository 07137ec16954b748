-- ===== src/Routes/Userinfo.antt =====
-- src/routes/userinfo.rs: the claims of a bearer token.
use nano_mockidp.Base.{
  String, Option, none, some, List, [], ◌∷◌, if◌then◌else◌, and_then, non_empty,
}
use nano_mockidp.Base.Text.{◌⊕◌, trim, strip_prefix, replace_char}
use nano_mockidp.Base.Map.{remove}
use nano_mockidp.Base.Result.{Result, ok, err}
use nano_mockidp.Crates.{Crates}
use nano_mockidp.Http.{Headers, Response, Body, none, json_response}
use nano_mockidp.Json.{Claims}
use nano_mockidp.State.{AppState, Env, issuer_check}
use nano_mockidp.Store.Data.{unix_secs, Store}
use nano_mockidp.Store.Ops.{is_blocked}
use nano_mockidp.Token.Verify.{verify}

-- `userinfo::bearer`
unfoldable pub bearer : Headers → Option String
bearer headers =
    and_then (headers "authorization")
      (λ v. and_then (strip_prefix "Bearer " v) (λ t. non_empty (some (trim t))))

abbrev pub unauthorized : String → Response
unauthorized msg = record {
  status = 401;
  headers =
      (
        "www-authenticate",
        "Bearer error=\"invalid_token\", error_description=\"" ⊕ replace_char b'"' "'" msg ⊕ "\"",
      )
      ∷ [];
  body = Body.none;
}

-- `STRIP`
abbrev pub stripped : List String
stripped = "exp" ∷ "iat" ∷ "jti" ∷ "at_hash" ∷ "nonce" ∷ "azp" ∷ "scope" ∷ []

unfoldable pub strip : List String → Claims → Claims
strip [] claims = claims
strip (k ∷ ks) claims = strip ks (remove k claims)

abbrev pub userinfo_answer : Result String Claims → Store → Response
userinfo_answer (err e) s = unauthorized e
userinfo_answer (ok claims) s =
    if is_blocked claims s
    then unauthorized "token revoked or subject disabled"
    else json_response (strip stripped claims)

-- `userinfo::handler`
unfoldable pub userinfo_handler : Crates → AppState → Env → Headers → Store → Response
unfolding bearer strip unix_secs
userinfo_handler lib app env headers s = elim (bearer headers) [
  | none ↦ unauthorized "missing bearer token"
  | some token ↦
      userinfo_answer (verify lib app.key (issuer_check app) token (unix_secs (env.now 0))) s
]
