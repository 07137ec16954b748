-- ===== src/Routes/TokenForm.antt =====
-- The form of the token endpoint, its answer, and the steps that the grants share
-- (src/routes/token.rs).
use nano_mockidp.Base.{
  String, Bool, Option, none, some, List, [], ◌∷◌, ◌++◌, ◌==◌, any, if◌then◌else◌, and_then,
  or_else, is_some_and, non_empty,
}
use nano_mockidp.Base.Text.{◌⊕◌, split_whitespace}
use nano_mockidp.Base.Map.{insert}
use nano_mockidp.Base.Handler.{pure, modify, ◌>>◌}
use nano_mockidp.Base.Result.{Result, ok, err}
use nano_mockidp.Crates.{Crates}
use nano_mockidp.Http.{Response, OAuthError, invalid_request, invalid_grant, no_store, json_object}
use nano_mockidp.Json.{Value, string, Claims, json_u64}
use nano_mockidp.State.{AppState, Route}
use nano_mockidp.Store.Data.{Instant, expiring, RefreshEntry, Store}
use nano_mockidp.Store.Ops.{sub_of, is_disabled}
use nano_mockidp.Token.Issue.{TokenSet, pkce_verify, audience_from_resources}

pub record TokenForm : Type 0 where
  pub grant_type : Option String
  pub code : Option String
  pub redirect_uri : Option String
  pub code_verifier : Option String
  pub refresh_token : Option String
  pub client_id : Option String
  pub client_secret : Option String
  pub scope : Option String
  pub audience : Option String
  pub username : Option String

abbrev pub optional : String → Option String → Claims
optional k none = []
optional k (some s) = (k, string s) ∷ []

unfoldable pub token_response : TokenSet → Option String → Option String → Response
token_response set refresh scope = record {
  status = 200;
  headers = no_store;
  body = json_object (
      ("access_token", string set.access_token)
      ∷ ("token_type", string "Bearer")
      ∷ ("expires_in", json_u64 set.expires_in)
      ∷ (optional "scope" scope
          ++ (optional "id_token" set.id_token ++ optional "refresh_token" refresh)));
}

abbrev pub upstream_claim : Option String → Option String → Claims → Claims
upstream_claim (some name) (some sub) claims = insert name (string sub) claims
upstream_claim _ _ claims = claims

-- `with_upstream_claim`
unfoldable pub with_upstream_claim : AppState → Claims → Option String → Claims
with_upstream_claim app claims upstream_sub =
    upstream_claim (and_then app.config.upstream (λ u. u.sub_token_claim)) upstream_sub claims

-- `new_refresh`, with the random token and the reading of the clock that it takes
unfoldable pub new_refresh : AppState → RefreshEntry → String → Instant → Route String
new_refresh app entry token now = do
  modify (λ s. record s {
    refresh = insert token (expiring entry app.config.refresh_token_ttl now) s.refresh;
  })
  pure token

unfoldable pub has_offline_access : Option String → Bool
unfolding split_whitespace
has_offline_access scope =
    is_some_and scope (λ s. any (λ x. x == "offline_access") (split_whitespace s))

abbrev pub disabled_error : String → OAuthError
disabled_error sub = invalid_grant ("subject " ⊕ sub ⊕ " is disabled")

abbrev pub enabled : Option String → Store → Result OAuthError (Unit {0})
enabled none s = ok tt
enabled (some sub) s = if is_disabled sub s then err (disabled_error sub) else ok tt

unfoldable pub ensure_enabled : Claims → Route (Unit {0})
unfolding sub_of
ensure_enabled claims s = (enabled (sub_of claims) s, s)

-- `resolve_audience`: the token-time resources, then the token-time audience, then the fallback
unfoldable pub resolve_audience : TokenForm → List String → Option Value → Option Value
unfolding audience_from_resources
resolve_audience form token_resources fallback =
    or_else (audience_from_resources token_resources)
      (or_else (and_then (non_empty form.audience) (λ a. some (string a))) fallback)

abbrev pub redirect_matches : Option String → String → Result OAuthError (Unit {0})
redirect_matches none uri = err (invalid_request "redirect_uri is required")
redirect_matches (some u) uri =
    if u == uri
    then ok tt
    else err (invalid_grant "redirect_uri does not match the authorization request")

module _ (lib : Crates) where
  abbrev pub pkce_answer : Option String → String → Result OAuthError (Unit {0})
  pkce_answer none challenge = err (invalid_request "code_verifier is required (PKCE)")
  pkce_answer (some verifier) challenge =
      if pkce_verify lib verifier challenge
      then ok tt
      else err (invalid_grant "PKCE verification failed")

  abbrev pub pkce_check : Option String → Option String → Result OAuthError (Unit {0})
  pkce_check none verifier = ok tt
  pkce_check (some challenge) verifier = pkce_answer (non_empty verifier) challenge
