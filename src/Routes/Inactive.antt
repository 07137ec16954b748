-- ===== src/Routes/Inactive.antt =====
-- A revoked token stays inactive, however often the store is swept.
use mathlib.Core.Path.{subst}
use nano_mockidp.Base.{
  ℕ, ◌<◌, String, none, some, List, ◌≡◌, inl, inr, refl, arith, if◌then◌else◌, and_then, non_empty,
  eq_iff,
}
use nano_mockidp.Base.Map.{get, get-insert, Distinct-insert}
use nano_mockidp.Base.Handler.{pure}
use nano_mockidp.Base.Result.{ok, to_option, Result-cases}
use nano_mockidp.Crates.{Crates}
use nano_mockidp.Http.{Headers}
use nano_mockidp.Json.{Claims, as_str, as_u64}
use nano_mockidp.Routes.Introspect.{IntrospectForm, introspect_token, introspect_handler, inactive}
use nano_mockidp.Routes.Userinfo.{bearer, userinfo_answer, userinfo_handler}
use nano_mockidp.Routes.Revoke.{RevokeForm, revoke_handler}
use nano_mockidp.Routes.Client.{authenticate_client}
use nano_mockidp.State.{AppState, Env, issuer_check}
use nano_mockidp.Store.Data.{Instant, unix_secs, Store, IsWellFormed}
use nano_mockidp.Store.Ops.{peek_refresh}
use nano_mockidp.Token.Verify.{verify, verify_allow_expired}
use nano_mockidp.Token.Acceptance.{verify_iff, verify_allow_expired_iff}
use nano_mockidp.Store.Revoked.{
  sweeps, AllBefore, Remembers, sweeps-Remembers, sweeps-absent, is_blocked-Remembers,
}

same_exp :
    (c : Claims) (e : ℕ) {claims : Claims} {exp : ℕ}
    → and_then (get "exp" c) as_u64 ≡ some e
    → c ≡ claims
    → and_then (get "exp" claims) as_u64 ≡ some exp
    → e ≡ exp
same_exp c e h same k = ground (arith, h, k, same)

module _ (lib : Crates) (app : AppState) (token jti : String) (exp : ℕ) (claims : Claims)
    (accepted : verify_allow_expired lib app.key (issuer_check app) token ≡ ok claims)
    (has_jti : and_then (get "jti" claims) as_str ≡ some jti)
    (has_exp : and_then (get "exp" claims) as_u64 ≡ some exp) where
  -- Revoking an access or ID token of the calling client remembers its `jti`.
  pub revoke_handler-Remembers :
      (headers : Headers) (form : RevokeForm) (client_id : String) (s : Store)
      → IsWellFormed s
      → authenticate_client lib app headers form.client_id form.client_secret s ≡ (ok client_id, s)
      → non_empty form.token ≡ some token
      → get token s.refresh ≡ none
      → and_then (get "azp" claims) as_str ≡ some client_id
      → Remembers token jti exp (revoke_handler lib app headers form s).1
  unfolding revoke_handler
  revoke_handler-Remembers headers form client_id s w caller given absent azp = rw caller (
      rw given (
        rw absent (
          rw accepted (
            rw azp (
              rw ((eq_iff client_id client_id).1 refl) (
                rw (has_jti, has_exp)
                  (record {
                    well_formed = record {
                      pending = w.pending;
                      codes = w.codes;
                      refresh = w.refresh;
                      clients = w.clients;
                      subjects = w.subjects;
                      revoked_jti = Distinct-insert jti exp s.revoked_jti w.revoked_jti;
                    };
                    revoked = rw get-insert (rw ((eq_iff jti jti).1 refl));
                    no_refresh = absent;
                  })))))))

  -- The two verifications of a token read the same claims.
  verified_same :
      (now : ℕ) (c : Claims)
      → verify lib app.key (issuer_check app) token now ≡ ok c
      → (c ≡ claims) × (now < exp)
  verified_same now c h =
      let (a, live) = (verify_iff lib app.key (issuer_check app) token now c).0 h in
      let again = (verify_allow_expired_iff lib app.key (issuer_check app) token c).1 a in
      let same : c ≡ claims = cc (again, accepted) in
      (same, subst (λ e. now < e) (same_exp c a.exp a.has_exp same has_exp) live)

  -- No later reading of the clock makes a remembered token active.
  pub introspect_token-Remembers :
      (env : Env) (s : Store)
      → (unix_secs (env.now 0) < exp → get jti s.revoked_jti ≡ some exp)
      → get token s.refresh ≡ none
      → introspect_token env token
          (to_option (verify lib app.key (issuer_check app) token (unix_secs (env.now 0))))
          s
        ≡ inactive
  introspect_token-Remembers env s r absent =
      elim (Result-cases (verify lib app.key (issuer_check app) token (unix_secs (env.now 0)))) [
        | inl (c, verified) ↦
            let (same, live) = verified_same (unix_secs (env.now 0)) c verified in
            let blocked = is_blocked-Remembers token jti exp claims s has_jti (r live) in
            rw verified (rw (same, introspect_token) (rw blocked))
        | inr (e, refused) ↦ rw refused (unfold peek_refresh in rw absent)
      ]

  pub userinfo_answer-Remembers :
      (now : ℕ) (s : Store)
      → (now < exp → get jti s.revoked_jti ≡ some exp)
      → (userinfo_answer (verify lib app.key (issuer_check app) token now) s).status ≡ 401
  userinfo_answer-Remembers now s r =
      elim (Result-cases (verify lib app.key (issuer_check app) token now)) [
        | inl (c, verified) ↦
            let (same, live) = verified_same now c verified in
            let blocked = is_blocked-Remembers token jti exp claims s has_jti (r live) in
            rw verified (rw (same, userinfo_answer) (rw blocked))
        | inr (e, refused) ↦ rw refused
      ]

  module _ (headers : Headers) (form : RevokeForm) (client_id : String) (s : Store)
      (well_formed : IsWellFormed s)
      (caller : authenticate_client lib app headers form.client_id form.client_secret s
        ≡ (ok client_id, s))
      (given : non_empty form.token ≡ some token) (absent : get token s.refresh ≡ none)
      (azp : and_then (get "azp" claims) as_str ≡ some client_id) (times : List Instant) (env : Env)
      (before : AllBefore (env.now 0) times) where
    -- The store after the client has revoked the token and the sweeper has run at `times`.
    abbrev pub swept : Store
    swept = sweeps times (revoke_handler lib app headers form s).1

    remembered : Remembers token jti exp (revoke_handler lib app headers form s).1
    remembered =
        revoke_handler-Remembers headers form client_id s well_formed caller given absent azp

    kept : unix_secs (env.now 0) < exp → Remembers token jti exp swept
    kept live = sweeps-Remembers times (env.now 0) token jti exp _ before live remembered

    -- After a client has revoked its access or ID token, `/introspect` answers every caller that it
    -- lets in that the token is inactive, at every later instant and after any sweeps up to that
    -- instant, and it changes nothing.
    pub introspect_handler-revoked :
        (asker : Headers) (asked : IntrospectForm) (name : String)
        → non_empty asked.token ≡ some token
        → (if app.config.strict
              then authenticate_client lib app asker asked.client_id asked.client_secret
              else pure "")
            swept
          ≡ (ok name, swept)
        → introspect_handler lib app env asker asked swept ≡ (ok inactive, swept)
    unfolding introspect_handler
    introspect_handler-revoked asker asked name asks passes = rw passes (
        rw asks (
          rw (
            introspect_token-Remembers env swept (λ live. (kept live).revoked)
              (sweeps-absent times token _ remembered.no_refresh))))

    -- After a client has revoked its access or ID token, `/userinfo` refuses it with status 401, at
    -- every later instant and after any sweeps up to that instant.
    pub userinfo_handler-revoked :
        (asker : Headers)
        → bearer asker ≡ some token
        → (userinfo_handler lib app env asker swept).status ≡ 401
    unfolding userinfo_handler
    userinfo_handler-revoked asker held =
        rw (held, userinfo_handler)
          (userinfo_answer-Remembers (unix_secs (env.now 0)) swept (λ live. (kept live).revoked))
