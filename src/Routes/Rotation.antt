-- ===== src/Routes/Rotation.antt =====
-- What the refresh grant accepts and does.
use mathlib.Core.Path.{subst}
use nano_mockidp.Base.{
  sym, ◌/◌, ◌∙◌, ◌≢◌, refl, Option, none, ◌<◌, ◌≤◌, String, true, false, some, List, ◌≡◌, arith,
  ◌==◌, eq_iff, if◌then◌else◌, Bool-cases, Option-cases, inl, inr, non_empty, keep_if,
}
use nano_mockidp.Base.Map.{get, insert, remove}
use nano_mockidp.Base.Result.{Result, ok, err}
use nano_mockidp.Crates.{Crates}
use nano_mockidp.Http.{Response, OAuthError, invalid_grant}
use nano_mockidp.Routes.Grants.{refresh_grant, refresh_params, rotated, current_claims}
use nano_mockidp.Routes.TokenForm.{
  TokenForm, token_response, resolve_audience, enabled, disabled_error,
}
use nano_mockidp.Json.{Value, Claims}
use nano_mockidp.Routes.Granted.{
  IsAudience, IsMarked, IsCurrent, sub_claim, tokens_answer, resolved, marked_claims, set_claims_of,
}
use nano_mockidp.State.{AppState, Env, token_issuer}
use nano_mockidp.Store.Data.{Expiring, expiring, RefreshEntry, Store, unix_secs, nanos_per_sec}
use nano_mockidp.Store.Ops.{sub_of, is_disabled, live_value, is_live}
use nano_mockidp.Token.Issue.{IssueParams, issue}

module _ (lib : Crates) (app : AppState) (env : Env) (issuer client_id : String) (form : TokenForm)
    (resources : List String) (s : Store) where
  -- The refresh token that a form presents is live, and its subject is not disabled.
  pub record IsUsable (token : String) (e : Expiring RefreshEntry) : Type 0 where
    pub presented : non_empty form.refresh_token ≡ some token
    pub stored : get token s.refresh ≡ some e
    pub live : env.now 1 < e.expires_at
    pub enabled : (sub : String) → sub_of e.value.claims ≡ some sub → is_disabled sub s ≡ false

  -- The branch of the grant that answers.
  abbrev refreshed : String → RefreshEntry → Result OAuthError Response × Store
  refreshed token entry = (
    ok (
        token_response
          (issue lib (token_issuer app issuer)
            (refresh_params lib app env issuer client_id form resources entry
              (current_claims (sub_of entry.claims) s entry.claims))
            (unix_secs (env.now 2)) (env.random 0) (env.random 1))
          (some (env.random 2)) entry.scope),
    record s {
      refresh =
          insert (env.random 2)
            (expiring (rotated lib app env issuer client_id form resources entry)
              app.config.refresh_token_ttl (env.now 4))
            (remove token s.refresh);
    },
  )

  -- What a refresh answers, and the store after it. The tokens are those of the login, without a nonce,
  -- for the audience that the request asks for or else the one of the token, with the claims that
  -- an administrator has set for the subject if there are any. The new refresh token is the old
  -- one but for its audience and time of issue, and the old one is gone.
  pub record Renewal (token : String) (entry : RefreshEntry)
      (outcome : Result OAuthError Response × Store) : Type 0 where
    pub params : IssueParams
    pub current : Claims
    pub audience : Option Value
    pub answer :
        outcome.0
        ≡ ok (
            tokens_answer
              (issue lib
                (record {
                  key = app.key;
                  issuer = issuer;
                  access_ttl = app.config.access_token_ttl;
                  id_ttl = app.config.id_token_ttl;
                  default_claims = app.config.default_claims;
                })
                params
                (unix_secs (env.now 2))
                (env.random 0)
                (env.random 1))
              entry.scope
              (env.random 2))
    pub store : outcome.1 ≡ record s {
      refresh =
          insert
            (env.random 2)
            (expiring
              (record {
                client_id = entry.client_id;
                scope = entry.scope;
                audience = audience;
                claims = entry.claims;
                auth_time = entry.auth_time;
                sid = entry.sid;
                expires_in = entry.expires_in;
                offline = entry.offline;
                upstream_sub = entry.upstream_sub;
                upstream_email = entry.upstream_email;
                issued_at = env.now 3 / nanos_per_sec;
              })
              app.config.refresh_token_ttl
              (env.now 4))
            (remove token s.refresh);
    }
    pub asked : IsAudience entry.audience resources (non_empty form.audience) audience
    pub set_claims : IsCurrent (sub_of entry.claims) s entry.claims current
    pub claims : IsMarked current (sub_claim app) entry.upstream_sub params.claims
    pub same_audience : params.audience ≡ audience
    pub client : params.client_id ≡ client_id
    pub scope : params.scope ≡ entry.scope
    pub nonce : params.nonce ≡ none
    pub login_time : params.auth_time ≡ entry.auth_time
    pub session : params.sid ≡ some entry.sid
    pub lifetime : params.expires_in ≡ entry.expires_in
    pub id_token : params.with_id_token ≡ true

  refreshed-Renewal :
      (token : String) (entry : RefreshEntry) → Renewal token entry (refreshed token entry)
  unfolding token_response refresh_params rotated unix_secs token_issuer
  refreshed-Renewal token entry = record {
    params =
        refresh_params lib app env issuer client_id form resources entry
          (current_claims (sub_of entry.claims) s entry.claims);
    current = current_claims (sub_of entry.claims) s entry.claims;
    audience = resolve_audience form resources entry.audience;
    answer = refl;
    store = refl;
    asked = resolved form resources entry.audience;
    set_claims = set_claims_of (sub_of entry.claims) s entry.claims;
    claims =
        marked_claims app (current_claims (sub_of entry.claims) s entry.claims) entry.upstream_sub;
    same_audience = refl;
    client = refl;
    scope = refl;
    nonce = refl;
    login_time = refl;
    session = refl;
    lifetime = refl;
    id_token = refl;
  }

  module _ (clock : env.now 0 ≤ env.now 1) (token : String) (e : Expiring RefreshEntry)
      (m : IsUsable token e) where
    peek_passes : keep_if (is_live (env.now 0)) (some e) ≡ some e
    peek_passes = let l = m.live in ground arith

    live_passes : live_value (env.now 1) (some e) ≡ some e.value
    live_passes = let l = m.live in ground arith

    enabled_passes : enabled (sub_of e.value.claims) s ≡ ok tt
    enabled_passes = elim (Option-cases (sub_of e.value.claims)) [
      | inl anonymous ↦ rw anonymous
      | inr (sub, named) ↦ rw named (ground (arith, m.enabled sub named))
    ]

    usable_refresh : refresh_grant lib app env issuer client_id form resources s ≡ (
        if e.value.client_id == client_id then refreshed token e.value else (
          err (invalid_grant "refresh token was issued to a different client"),
          record s { refresh = remove token s.refresh },
        ))
    unfolding refresh_grant
    usable_refresh = rw m.presented (
        rw m.stored (
          rw peek_passes (
            rw enabled_passes (
              rw m.stored (
                rw live_passes (elim (Bool-cases (e.value.client_id == client_id)) [
                  | inl same ↦ rw same
                  | inr other ↦ rw other
                ]))))))

    -- A usable token is rotated for its own client: the answer has new tokens of the same login, and the
    -- store keeps the new refresh token in place of the old one. Presented by another client, it is
    -- refused and consumed. The clock does not go back between its first two readings, and an
    -- expiry has no largest value here.
    pub refresh_grant-rotates :
        (e.value.client_id ≡ client_id
          → Renewal token e.value (refresh_grant lib app env issuer client_id form resources s))
        × (e.value.client_id ≢ client_id
            → refresh_grant lib app env issuer client_id form resources s ≡ (
              err (invalid_grant "refresh token was issued to a different client"),
              record s { refresh = remove token s.refresh },
            ))
    refresh_grant-rotates = (
      λ same.
          subst (Renewal token e.value)
            (sym (usable_refresh ∙ rw ((eq_iff e.value.client_id client_id).1 same) refl))
            (refreshed-Renewal token e.value),
      λ other. usable_refresh ∙ elim (Bool-cases (e.value.client_id == client_id)) [
        | inl same ↦ absurd (other (ground (arith, same, eq_iff e.value.client_id client_id)))
        | inr differs ↦ rw differs refl
      ],
    )

  -- A disabled subject's token is refused, and it is kept: enabling the subject again revives it.
  pub refresh_grant_disabled :
      (token : String) (e : Expiring RefreshEntry) (sub : String)
      → non_empty form.refresh_token ≡ some token
      → get token s.refresh ≡ some e
      → env.now 0 < e.expires_at
      → sub_of e.value.claims ≡ some sub
      → is_disabled sub s ≡ true
      → refresh_grant lib app env issuer client_id form resources s ≡ (err (disabled_error sub), s)
  unfolding refresh_grant
  refresh_grant_disabled token e sub presented stored live named off =
      rw presented (rw stored (rw peek (rw named (rw off))))
    where
      peek : keep_if (is_live (env.now 0)) (some e) ≡ some e
      peek = ground arith

  -- Only a usable token, presented by its own client, gets an answer, as long as the clock does not go
  -- back between its first two readings: at the first the subject is looked up, and at the second the
  -- token is taken.
  pub refresh_grant_sound :
      env.now 0 ≤ env.now 1
      → (r : Response) → (refresh_grant lib app env issuer client_id form resources s).0 ≡ ok r
      → (token : String) × (e : Expiring RefreshEntry) × IsUsable token e
        × (e.value.client_id ≡ client_id)
  unfolding refresh_grant
  refresh_grant_sound clock r h = elim (Option-cases (non_empty form.refresh_token)) [
    | inl missing ↦ absurd (ground arith)
    | inr (token, given) ↦ elim (Option-cases (get token s.refresh)) [
      | inl unknown ↦ absurd (ground arith)
      | inr (e, found) ↦ (
        token,
        e,
        record {
          presented = given;
          stored = found;
          live = ground arith;
          enabled = λ sub named. ground arith;
        },
        ground (arith, eq_iff e.value.client_id client_id),
      )
    ]
  ]
