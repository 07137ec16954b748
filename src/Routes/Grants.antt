-- ===== src/Routes/Grants.antt =====
-- The grants of the token endpoint (src/routes/token.rs).
use nano_mockidp.Base.{
  String, Bool, true, false, Option, none, some, List, [], ◌==◌, any, and_then, unwrap_or,
  is_some_and, non_empty,
}
use nano_mockidp.Base.Text.{◌=ᶜ◌, split_by}
use nano_mockidp.Base.Map.{get, insert}
use nano_mockidp.Base.Handler.{pure, guard, gets, act, lift, require, ◌>>=◌, ◌>>◌}
use nano_mockidp.Crates.{Crates}
use nano_mockidp.Http.{Headers, Response, invalid_request, invalid_grant}
use nano_mockidp.Json.{string, Claims}
use nano_mockidp.Routes.Client.{ensure_trusted_client}
use nano_mockidp.State.{AppState, Env, Route, token_issuer}
use nano_mockidp.Store.Data.{unix_secs, Expiring, CodeEntry, RefreshEntry, Subject, Store}
use nano_mockidp.Store.Ops.{sub_of, take_code, take_refresh, peek_refresh}
use nano_mockidp.Token.Issue.{IssueParams, issue, audience_from_resources}
use nano_mockidp.Routes.TokenForm.{
  TokenForm, token_response, with_upstream_claim, new_refresh, has_offline_access, enabled,
  ensure_enabled, resolve_audience, redirect_matches, pkce_check,
}

-- The subject's claims if the administrator set any, else those of the login.
abbrev pub current_claims : Option String → Store → Claims → Claims
current_claims sub s claims =
    unwrap_or (and_then (and_then sub (λ k. get k s.subjects)) (λ (t : Subject). t.claims)) claims

abbrev pub token_subject : Option (Expiring RefreshEntry) → Option String
token_subject found = and_then found (λ (e : Expiring RefreshEntry). sub_of e.value.claims)

abbrev pub wants_openid : Option String → Bool
wants_openid scope = is_some_and scope (λ s. any (λ x. x == "openid") (split_by (λ c. c =ᶜ b' ') s))

module _ (lib : Crates) (app : AppState) (env : Env) (issuer client_id : String) where
  -- What the code grant issues once its checks have passed.
  unfoldable pub code_params : TokenForm → List String → CodeEntry → IssueParams
  unfolding with_upstream_claim resolve_audience audience_from_resources
  code_params form token_resources entry = record {
    client_id = client_id;
    audience = resolve_audience form token_resources (audience_from_resources entry.req.resources);
    scope = entry.req.scope;
    nonce = entry.req.nonce;
    claims = with_upstream_claim app entry.claims entry.upstream_sub;
    auth_time = entry.auth_time;
    sid = some entry.sid;
    expires_in = entry.expires_in;
    with_id_token = true;
  }

  unfoldable pub code_refresh : TokenForm → List String → CodeEntry → RefreshEntry
  unfolding resolve_audience audience_from_resources has_offline_access unix_secs
  code_refresh form token_resources entry = record {
    client_id = client_id;
    scope = entry.req.scope;
    audience = resolve_audience form token_resources (audience_from_resources entry.req.resources);
    claims = entry.claims;
    auth_time = entry.auth_time;
    sid = entry.sid;
    expires_in = entry.expires_in;
    offline = has_offline_access entry.req.scope;
    upstream_sub = entry.upstream_sub;
    upstream_email = entry.upstream_email;
    issued_at = unix_secs (env.now 2);
  }

  -- `grant_type=authorization_code`
  unfoldable pub code_grant : TokenForm → List String → Route Response
  unfolding take_code ensure_enabled code_params code_refresh new_refresh
  code_grant form token_resources = do
    code ← require (non_empty form.code) (invalid_request "code is required")
    taken ← act (take_code (env.now 0) code)
    entry ← require taken (invalid_grant "unknown, expired or already used code")
    guard (entry.req.client_id == client_id) (invalid_grant "code was issued to a different client")
    lift (redirect_matches form.redirect_uri entry.req.redirect_uri)
    lift (pkce_check lib entry.req.code_challenge form.code_verifier)
    ensure_enabled entry.claims
    let set =
        issue lib (token_issuer app issuer) (code_params form token_resources entry)
          (unix_secs (env.now 1)) (env.random 0) (env.random 1)
    refresh ← new_refresh app (code_refresh form token_resources entry) (env.random 2) (env.now 3)
    pure (token_response set (some refresh) entry.req.scope)

  unfoldable pub refresh_params : TokenForm → List String → RefreshEntry → Claims → IssueParams
  unfolding with_upstream_claim resolve_audience
  refresh_params form token_resources entry claims = record {
    client_id = client_id;
    audience = resolve_audience form token_resources entry.audience;
    scope = entry.scope;
    nonce = none;
    claims = with_upstream_claim app claims entry.upstream_sub;
    auth_time = entry.auth_time;
    sid = some entry.sid;
    expires_in = entry.expires_in;
    with_id_token = true;
  }

  unfoldable pub rotated : TokenForm → List String → RefreshEntry → RefreshEntry
  unfolding resolve_audience unix_secs
  rotated form token_resources entry = record entry {
    audience = resolve_audience form token_resources entry.audience;
    issued_at = unix_secs (env.now 3);
  }

  -- `grant_type=refresh_token`
  unfoldable pub refresh_grant : TokenForm → List String → Route Response
  unfolding take_refresh peek_refresh refresh_params rotated new_refresh
  refresh_grant form token_resources = do
    token ← require (non_empty form.refresh_token) (invalid_request "refresh_token is required")
    sub ← gets (λ s. token_subject (peek_refresh (env.now 0) token s))
    (λ s. (enabled sub s, s))
    taken ← act (take_refresh (env.now 1) token)
    entry ← require taken (invalid_grant "unknown, expired, revoked or rotated refresh token")
    claims ← gets (λ s. current_claims sub s entry.claims)
    guard (entry.client_id == client_id)
        (invalid_grant "refresh token was issued to a different client")
    let set =
        issue lib (token_issuer app issuer) (refresh_params form token_resources entry claims)
          (unix_secs (env.now 2)) (env.random 0) (env.random 1)
    refresh ← new_refresh app (rotated form token_resources entry) (env.random 2) (env.now 4)
    pure (token_response set (some refresh) entry.scope)

  unfoldable pub password_params : TokenForm → List String → Claims → IssueParams
  unfolding resolve_audience unix_secs
  password_params form token_resources claims = record {
    client_id = client_id;
    audience = resolve_audience form token_resources none;
    scope = form.scope;
    nonce = none;
    claims = claims;
    auth_time = unix_secs (env.now 0);
    sid = some (env.random 0);
    expires_in = none;
    with_id_token = wants_openid form.scope;
  }

  unfoldable pub password_refresh : TokenForm → List String → Claims → RefreshEntry
  unfolding resolve_audience has_offline_access unix_secs
  password_refresh form token_resources claims = record {
    client_id = client_id;
    scope = form.scope;
    audience = resolve_audience form token_resources none;
    claims = claims;
    auth_time = unix_secs (env.now 0);
    sid = env.random 0;
    expires_in = none;
    offline = has_offline_access form.scope;
    upstream_sub = none;
    upstream_email = none;
    issued_at = unix_secs (env.now 0);
  }

  -- `grant_type=password`
  unfoldable pub password_grant : Headers → TokenForm → List String → Route Response
  unfolding ensure_trusted_client ensure_enabled password_params password_refresh new_refresh
  password_grant headers form token_resources = do
    ensure_trusted_client lib app headers form.client_id form.client_secret
    username ← require (non_empty form.username) (invalid_request "username is required")
    let claims = insert "sub" (string username) []
    ensure_enabled claims
    let set =
        issue lib (token_issuer app issuer) (password_params form token_resources claims)
          (unix_secs (env.now 1)) (env.random 1) (env.random 2)
    refresh ←
        new_refresh app (password_refresh form token_resources claims) (env.random 3) (env.now 2)
    pure (token_response set (some refresh) form.scope)

  unfoldable pub client_params : TokenForm → List String → IssueParams
  unfolding resolve_audience unix_secs
  client_params form token_resources = record {
    client_id = client_id;
    audience = resolve_audience form token_resources none;
    scope = form.scope;
    nonce = none;
    claims = insert "sub" (string client_id) [];
    auth_time = unix_secs (env.now 0);
    sid = none;
    expires_in = none;
    with_id_token = false;
  }

  -- `grant_type=client_credentials`
  unfoldable pub client_grant : Headers → TokenForm → List String → Route Response
  unfolding ensure_trusted_client client_params
  client_grant headers form token_resources = do
    ensure_trusted_client lib app headers form.client_id form.client_secret
    let set =
        issue lib (token_issuer app issuer) (client_params form token_resources)
          (unix_secs (env.now 1)) (env.random 0) (env.random 1)
    pure (token_response set none form.scope)
