-- ===== src/Routes/Exchange.antt =====
-- What the code grant accepts and does.
use mathlib.Core.Path.{subst}
use nano_mockidp.Base.{
  sym, ◌/◌, Option, none, ◌<◌, String, true, false, some, List, ◌≡◌, refl, arith, eq_iff,
  Option-cases, inl, inr, non_empty,
}
use nano_mockidp.Base.Map.{get, insert, remove}
use nano_mockidp.Base.Result.{Result, ok}
use nano_mockidp.Crates.{Crates}
use nano_mockidp.Http.{Response, OAuthError}
use nano_mockidp.Routes.Grants.{code_grant, code_params, code_refresh}
use nano_mockidp.Routes.TokenForm.{TokenForm, token_response, redirect_matches, pkce_check, enabled}
use nano_mockidp.Json.{Value}
use nano_mockidp.Routes.Granted.{
  IsAudience, IsMarked, sub_claim, is_offline, tokens_answer, resolved, audience_of, marked_claims,
  offline_of,
}
use nano_mockidp.State.{AppState, Env, token_issuer}
use nano_mockidp.Store.Data.{
  Expiring, expiring, CodeEntry, RefreshEntry, Store, unix_secs, nanos_per_sec,
}
use nano_mockidp.Store.Ops.{sub_of, is_disabled, live_value}
use nano_mockidp.Token.Issue.{IssueParams, pkce_verify, issue, audience_from_resources}

enabled_of_ok :
    (sub : String) (s : Store) → enabled (some sub) s ≡ ok tt → is_disabled sub s ≡ false
enabled_of_ok sub s h = ground arith

module _ (lib : Crates) (app : AppState) (env : Env) (issuer client_id : String) (form : TokenForm)
    (resources : List String) (s : Store) where
  -- Presenting a code consumes it: whatever the other checks answer, it is gone, and no other code is.
  pub codes-code_grant :
      (code : String)
      → non_empty form.code ≡ some code
      → (code_grant lib app env issuer client_id form resources s).1.codes ≡ remove code s.codes
  unfolding code_grant
  codes-code_grant code given = rw given (ground arith)

  -- The code that a form presents may be exchanged for tokens.
  pub record MayExchange (code : String) (e : Expiring CodeEntry) : Type 0 where
    pub presented : non_empty form.code ≡ some code
    pub stored : get code s.codes ≡ some e
    pub live : env.now 0 < e.expires_at
    pub same_client : e.value.req.client_id ≡ client_id
    pub same_redirect : form.redirect_uri ≡ some e.value.req.redirect_uri
    pub pkce :
        (challenge : String)
        → e.value.req.code_challenge ≡ some challenge
        → (verifier : String) × (non_empty form.code_verifier ≡ some verifier)
          × (pkce_verify lib verifier challenge ≡ true)
    pub enabled : (sub : String) → sub_of e.value.claims ≡ some sub → is_disabled sub s ≡ false

  module _ (code : String) (e : Expiring CodeEntry) (m : MayExchange code e) where
    live_passes : live_value (env.now 0) (some e) ≡ some e.value
    live_passes = let l = m.live in ground arith

    redirect_passes : redirect_matches form.redirect_uri e.value.req.redirect_uri ≡ ok tt
    redirect_passes = rw m.same_redirect (rw ((eq_iff _ e.value.req.redirect_uri).1 refl))

    pkce_passes : pkce_check lib e.value.req.code_challenge form.code_verifier ≡ ok tt
    pkce_passes = elim (Option-cases e.value.req.code_challenge) [
      | inl unasked ↦ rw unasked
      | inr (challenge, asked) ↦
          let (verifier, given, verified) = m.pkce challenge asked in
          rw asked (rw given (rw verified))
    ]

    enabled_passes :
        (t : Store) → t.subjects ≡ s.subjects → enabled (sub_of e.value.claims) t ≡ ok tt
    unfolding is_disabled
    enabled_passes t same = elim (Option-cases (sub_of e.value.claims)) [
      | inl anonymous ↦ rw anonymous
      | inr (sub, named) ↦ rw named (ground (arith, m.enabled sub named))
    ]

  -- The branch of the grant that answers.
  abbrev exchanged : String → CodeEntry → Result OAuthError Response × Store
  exchanged code entry = (
    ok (
        token_response
          (issue lib (token_issuer app issuer)
            (code_params lib app env issuer client_id form resources entry) (unix_secs (env.now 1))
            (env.random 0) (env.random 1))
          (some (env.random 2)) entry.req.scope),
    record s {
      codes = remove code s.codes;
      refresh =
          insert (env.random 2)
            (expiring (code_refresh lib app env issuer client_id form resources entry)
              app.config.refresh_token_ttl (env.now 3))
            s.refresh;
    },
  )

  -- What an exchange answers, and the store after it. The tokens are made for the client, for the
  -- audience that the request asks for or else the one that the login was for, with the scope, the
  -- nonce, the claims, the time and the session of the login, and with the upstream subject if the
  -- settings name a claim for it. The refresh token is for the same, and is an offline one if the
  -- scope asks for it. The code is gone.
  pub record HandsOut (code : String) (entry : CodeEntry)
      (outcome : Result OAuthError Response × Store) : Type 0 where
    pub params : IssueParams
    pub kept : RefreshEntry
    pub granted : Option Value
    pub answer :
        outcome.0
        ≡ ok (
            tokens_answer
              (issue lib
                (record {
                  key = app.key;
                  issuer = issuer;
                  access_ttl = app.config.access_token_ttl;
                  id_ttl = app.config.id_token_ttl;
                  default_claims = app.config.default_claims;
                })
                params
                (unix_secs (env.now 1))
                (env.random 0)
                (env.random 1))
              entry.req.scope
              (env.random 2))
    pub store : outcome.1 ≡ record s {
      codes = remove code s.codes;
      refresh =
          insert (env.random 2) (expiring kept app.config.refresh_token_ttl (env.now 3)) s.refresh;
    }
    pub login_audience : IsAudience none entry.req.resources none granted
    pub audience : IsAudience granted resources (non_empty form.audience) params.audience
    pub claims : IsMarked entry.claims (sub_claim app) entry.upstream_sub params.claims
    pub client : params.client_id ≡ client_id
    pub scope : params.scope ≡ entry.req.scope
    pub nonce : params.nonce ≡ entry.req.nonce
    pub login_time : params.auth_time ≡ entry.auth_time
    pub session : params.sid ≡ some entry.sid
    pub lifetime : params.expires_in ≡ entry.expires_in
    pub id_token : params.with_id_token ≡ true
    pub refreshes : kept ≡ record {
      client_id = client_id;
      scope = entry.req.scope;
      audience = params.audience;
      claims = entry.claims;
      auth_time = entry.auth_time;
      sid = entry.sid;
      expires_in = entry.expires_in;
      offline = is_offline entry.req.scope;
      upstream_sub = entry.upstream_sub;
      upstream_email = entry.upstream_email;
      issued_at = env.now 2 / nanos_per_sec;
    }

  exchanged-HandsOut :
      (code : String) (entry : CodeEntry) → HandsOut code entry (exchanged code entry)
  unfolding token_response code_params code_refresh unix_secs token_issuer
  exchanged-HandsOut code entry = record {
    params = code_params lib app env issuer client_id form resources entry;
    kept = code_refresh lib app env issuer client_id form resources entry;
    granted = audience_from_resources entry.req.resources;
    answer = refl;
    store = refl;
    login_audience = audience_of entry.req.resources;
    audience = resolved form resources (audience_from_resources entry.req.resources);
    claims = marked_claims app entry.claims entry.upstream_sub;
    client = refl;
    scope = refl;
    nonce = refl;
    login_time = refl;
    session = refl;
    lifetime = refl;
    id_token = refl;
    refreshes = rw (offline_of entry.req.scope) refl;
  }

  code_grant_answers :
      (code : String) (e : Expiring CodeEntry)
      → MayExchange code e
      → code_grant lib app env issuer client_id form resources s ≡ exchanged code e.value
  unfolding code_grant
  code_grant_answers code e m = rw m.presented (
      rw m.stored (
        rw (live_passes code e m) (
          rw ((eq_iff e.value.req.client_id client_id).1 m.same_client) (
            rw (redirect_passes code e m) (
              rw (pkce_passes code e m)
                (rw (enabled_passes code e m (record s { codes = remove code s.codes }) refl)))))))

  -- A code that may be exchanged is: the answer has the tokens of its login, the store keeps the new
  -- refresh token, and the code is gone. An expiry has no largest value here.
  pub code_grant-exchanged :
      (code : String) (e : Expiring CodeEntry)
      → MayExchange code e
      → HandsOut code e.value (code_grant lib app env issuer client_id form resources s)
  code_grant-exchanged code e m =
      subst (HandsOut code e.value) (sym (code_grant_answers code e m))
        (exchanged-HandsOut code e.value)

  -- Only a code that may be exchanged is.
  pub code_grant_sound :
      (r : Response)
      → (code_grant lib app env issuer client_id form resources s).0 ≡ ok r
      → (code : String) × (e : Expiring CodeEntry) × MayExchange code e
  unfolding code_grant is_disabled
  code_grant_sound r h = elim (Option-cases (non_empty form.code)) [
    | inl missing ↦ absurd (ground (arith, missing))
    | inr (code, given) ↦ elim (Option-cases (get code s.codes)) [
      | inl unknown ↦ absurd (ground (arith, given, unknown))
      | inr (e, found) ↦ (
        code,
        e,
        record {
          presented = given;
          stored = found;
          live = ground arith;
          same_client = ground (arith, eq_iff e.value.req.client_id client_id);
          same_redirect = elim (Option-cases form.redirect_uri) [
            | inl absent ↦ absurd (ground arith)
            | inr (uri, present) ↦ ground (arith, eq_iff uri e.value.req.redirect_uri)
          ];
          pkce = λ challenge asked. elim (Option-cases (non_empty form.code_verifier)) [
            | inl absent ↦ absurd (ground arith)
            | inr (verifier, present) ↦ (verifier, present, ground arith)
          ];
          enabled = λ sub named. enabled_of_ok sub s (ground (arith, named));
        },
      )
    ]
  ]
