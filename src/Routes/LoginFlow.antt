-- ===== src/Routes/LoginFlow.antt =====
-- The code that `/authorize` stores for a good login (src/routes/authorize.rs).
use nano_mockidp.Base.{
  ℕ, String, Option, none, some, List, ◌≡◌, refl, Option-cases, inl, inr, ap, Bool-cases,
  if◌then◌else◌, ◌∙◌,
}
use nano_mockidp.Base.Holds.{some-injective}
use nano_mockidp.Base.Map.{insert}
use nano_mockidp.Base.Result.{Result, ok, err, ok-injective}
use nano_mockidp.Crates.{Crates}
use nano_mockidp.Json.{string, Claims}
use nano_mockidp.Routes.Authorize.{
  disabled_sub, lifetime, store_code, issue_code, own_login, with_email, login, authorize_post,
  gate_session, tester_sub, tester_email, persona_claims, as_own,
}
use nano_mockidp.Routes.Validate.{
  AuthzError, page, AuthorizeQuery, LoginForm, validate, resources_from_query,
}
use nano_mockidp.Routes.LoggedIn.{let_in}
use nano_mockidp.State.{AppState, Env}
use nano_mockidp.Store.Data.{AuthRequest, CodeEntry, Store, unix_secs}
use nano_mockidp.Upstream.Seal.{GateSession}

-- The claims of a login as oneself: those of the gate's session.
abbrev own_claims : Option GateSession → Result AuthzError Claims
own_claims none = err (page 400 "as_upstream needs the upstream gate (UPSTREAM_ISSUER)")
own_claims (some t) = ok (with_email t.email (insert "sub" (string t.sub) t.claims))

module _ (lib : Crates) (env : Env) where
  -- The claims of a login: one's own, or those of a persona.
  abbrev pub chosen_claims : LoginForm → Option GateSession → Result AuthzError Claims
  chosen_claims form tester = if as_own form then own_claims tester else persona_claims lib env form

  -- A login that has nothing against it.
  pub record MayLogin (app : AppState) (q : AuthorizeQuery) (raw : Option String)
      (cookies : List String) (form : LoginForm) (s : Store) : Type 0 where
    pub req : AuthRequest
    pub claims : Claims
    pub expires_in : Option ℕ
    pub tester : Option GateSession
    pub passes : let_in lib env app cookies ≡ some tester
    pub valid : validate lib app q (resources_from_query lib raw) s ≡ ok req
    pub chosen : chosen_claims form tester ≡ ok claims
    pub enabled : disabled_sub claims s ≡ none
    pub lives : lifetime form.expires_in ≡ ok expires_in

  module _ (app : AppState) (q : AuthorizeQuery) (raw : Option String) (cookies : List String)
      (form : LoginForm) (s : Store) where
    authorize_post-let_in :
        (t : Option GateSession)
        → let_in lib env app cookies ≡ some t
        → authorize_post lib app env q raw cookies form s
          ≡ login lib env form t s (validate lib app q (resources_from_query lib raw) s)
    unfolding authorize_post
    authorize_post-let_in t h = elim (Option-cases app.gate) [
      | inl no_gate ↦
          let same : none ≡ t = some-injective (rw no_gate at h) in
          rw (no_gate, authorize_post)
            (ap (λ x. login lib env form x s (validate lib app q (resources_from_query lib raw) s))
              same)
      | inr (gate, gated) ↦
          elim (Option-cases (gate_session lib gate cookies (unix_secs (env.now 2)))) [
            | inl stranger ↦ absurd (none_let_in (rw stranger at (rw gated at h)))
            | inr (g, present) ↦
                let same : some g ≡ t = some-injective (rw present at (rw gated at h)) in
                rw (gated, authorize_post)
                  (rw present (
                    ap
                      (λ x.
                        login lib env form x s
                          (validate lib app q (resources_from_query lib raw) s))
                      same))
          ]
    ]
      where
        none_let_in :
            {t : Option GateSession} → ◌≡◌ {A = Option (Option GateSession)} none (some t) → ⊥
        none_let_in p = cc

    module _ (req : AuthRequest) (claims : Claims) (n : Option ℕ)
        (enabled : disabled_sub claims s ≡ none) (lives : lifetime form.expires_in ≡ ok n) where
      issue_stores :
          (sub email : Option String)
          → issue_code lib env req claims form.expires_in sub email s
            ≡ store_code lib env req claims n sub email s
      unfolding issue_code
      issue_stores sub email = rw (enabled, issue_code) (rw lives refl)

      own_stores :
          (t : Option GateSession)
          → own_claims t ≡ ok claims
          → own_login lib env req form t s
            ≡ store_code lib env req claims n (tester_sub t) (tester_email t) s
      unfolding own_login
      own_stores none h = absurd cc
      own_stores (some t) h =
          ap (λ c. issue_code lib env req c form.expires_in (some t.sub) t.email s) (ok-injective h)
          ∙ issue_stores (some t.sub) t.email

      login_stores :
          (t : Option GateSession)
          → chosen_claims form t ≡ ok claims
          → login lib env form t s (ok req)
            ≡ store_code lib env req claims n (tester_sub t) (tester_email t) s
      unfolding login
      login_stores t h = elim (Bool-cases (as_own form)) [
        | inl own ↦ rw (own, login) (own_stores t (rw own at h))
        | inr persona ↦
            rw (persona, login)
              (rw (rw persona at h) (issue_stores (tester_sub t) (tester_email t)))
      ]

    module _ (m : MayLogin app q raw cookies form s) where
      pub authorize_post-stores :
          authorize_post lib app env q raw cookies form s
          ≡ store_code lib env m.req m.claims m.expires_in
              (tester_sub m.tester)
              (tester_email m.tester)
              s
      authorize_post-stores =
          authorize_post-let_in m.tester m.passes
          ∙ ap (login lib env form m.tester s) m.valid
          ∙ login_stores m.req m.claims m.expires_in m.enabled m.lives m.tester m.chosen

      -- The entry that the login stores.
      abbrev pub stored_entry : CodeEntry
      stored_entry = record {
        req = m.req;
        claims = m.claims;
        auth_time = unix_secs (env.now 0);
        sid = env.random 1;
        expires_in = m.expires_in;
        upstream_sub = tester_sub m.tester;
        upstream_email = tester_email m.tester;
      }
