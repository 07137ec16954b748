-- ===== src/Routes/LoggedIn.antt =====
-- What a login that stores a code has passed (src/routes/authorize.rs).
use mathlib.Core.Path.{subst}
use nano_mockidp.Base.{
  ℕ, ◌+◌, ◌*◌, String, false, Option, none, some, List, ◌∷◌, ◌≡◌, refl, arith, eq_iff, Bool-cases,
  Option-cases, inl, inr, and_then,
}
use nano_mockidp.Base.Map.{Map, get, insert, get-insert}
use nano_mockidp.Base.Result.{Result, ok, err, Result-cases}
use nano_mockidp.Crates.{Crates}
use nano_mockidp.Json.{Claims}
use nano_mockidp.Routes.Authorize.{
  Reply, disabled_sub, lifetime, with_code, store_code, issue_code, own_login, login,
  authorize_post, gate_session, tester_sub, tester_email, persona_claims, persona_login, as_own,
}
use nano_mockidp.Routes.Validate.{
  code_ttl, AuthorizeQuery, LoginForm, AuthzError, pair, redirect_to, validate,
  resources_from_query,
}
use nano_mockidp.State.{AppState, Env}
use nano_mockidp.Store.Data.{Expiring, AuthRequest, CodeEntry, Store, nanos_per_sec, unix_secs}
use nano_mockidp.Store.Ops.{sub_of, is_disabled}
use nano_mockidp.Upstream.Seal.{GateSession}

module _ (lib : Crates) (env : Env) where
  -- The session of the gate for a request: `some none` without a gate, and `none` if the gate stops it.
  abbrev pub let_in : AppState → List String → Option (Option GateSession)
  let_in app cookies = elim app.gate [
    | none ↦ some none
    | some gate ↦
        and_then (gate_session lib gate cookies (unix_secs (env.now 2))) (λ t. some (some t))
  ]

  -- A login for a request and as an upstream subject has stored its code: the entry, and the answer
  -- with the code.
  pub record LoggedIn (req : AuthRequest) (upstream_sub upstream_email : Option String)
      (e : Expiring CodeEntry) (reply : Reply) : Type 0 where
    pub request : e.value.req ≡ req
    pub names : e.value.upstream_sub ≡ upstream_sub
    pub mails : e.value.upstream_email ≡ upstream_email
    pub expires : e.expires_at ≡ env.now 1 + code_ttl * nanos_per_sec
    pub enabled :
        (sub : String) → sub_of e.value.claims ≡ some sub → is_disabled sub reply.1 ≡ false
    pub answer :
        reply.0
        ≡ redirect_to lib
            (lib.parse_url req.redirect_uri)
            (("code", env.random 0) ∷ pair "state" req.state)

  -- What is put in first is found.
  first_found :
      {V : Type 0} (k : String) (v w : V) (m : Map V) → get k (insert k v m) ≡ some w → v ≡ w
  first_found k v w m h = ground (arith, h, get-insert k k v m, eq_iff k k)

  module _ (s : Store) (absent : get (env.random 0) s.codes ≡ none) (e : Expiring CodeEntry) where
    store_code-LoggedIn :
        (req : AuthRequest) (claims : Claims) (expires_in : Option ℕ)
        (upstream_sub upstream_email : Option String)
        → disabled_sub claims s ≡ none
        → get
            (env.random 0)
            (store_code lib env req claims expires_in upstream_sub upstream_email s).1.codes
          ≡ some e
        → LoggedIn req upstream_sub upstream_email e
            (store_code lib env req claims expires_in upstream_sub upstream_email s)
    unfolding store_code with_code is_disabled
    store_code-LoggedIn req claims expires_in upstream_sub upstream_email enabled h =
        elim (Result-cases (lib.parse_url req.redirect_uri)) [
          | inr (m, bad) ↦ absurd (ground (arith, absent, rw (bad, store_code) at h))
          | inl (url, good) ↦
              rw (good, store_code)
                (subst
                  (λ x. LoggedIn req upstream_sub upstream_email x (
                    redirect_to lib (ok url) (("code", env.random 0) ∷ pair "state" req.state),
                    with_code lib env req claims expires_in upstream_sub upstream_email s,
                  ))
                  (first_found (env.random 0) _ e s.codes (rw (good, store_code) at h))
                  (record {
                    request = refl;
                    names = refl;
                    mails = refl;
                    expires = refl;
                    enabled = λ sub named. ground (arith, named, enabled);
                    answer = rw good refl;
                  }))
        ]

    issue_code-LoggedIn :
        (req : AuthRequest) (claims : Claims)
        (expires_in upstream_sub upstream_email : Option String)
        → get
            (env.random 0)
            (issue_code lib env req claims expires_in upstream_sub upstream_email s).1.codes
          ≡ some e
        → LoggedIn req upstream_sub upstream_email e
            (issue_code lib env req claims expires_in upstream_sub upstream_email s)
    unfolding issue_code
    issue_code-LoggedIn req claims expires_in upstream_sub upstream_email h =
        elim (Option-cases (disabled_sub claims s)) [
          | inr (sub, disabled) ↦ absurd (ground (arith, absent, h, disabled))
          | inl enabled ↦ elim (Result-cases (lifetime expires_in)) [
            | inr (m, bad) ↦ absurd (ground (arith, absent, h, enabled, bad))
            | inl (n, good) ↦
                rw (enabled, issue_code)
                  (rw good (
                    store_code-LoggedIn req claims n upstream_sub upstream_email enabled
                      (rw good at (rw (enabled, issue_code) at h))))
          ]
        ]

    -- A login for a request that has stored a code.
    abbrev Stored : Result AuthzError AuthRequest → Option GateSession → Reply → Type 0
    Stored r tester reply =
        (req : AuthRequest) × (r ≡ ok req)
        × LoggedIn req (tester_sub tester) (tester_email tester) e reply

    own_login-LoggedIn :
        (req : AuthRequest) (form : LoginForm) (tester : Option GateSession)
        → get (env.random 0) (own_login lib env req form tester s).1.codes ≡ some e
        → LoggedIn req
            (tester_sub tester)
            (tester_email tester)
            e
            (own_login lib env req form tester s)
    unfolding own_login
    own_login-LoggedIn req form none h = absurd (ground (arith, absent, h))
    own_login-LoggedIn req form (some t) h =
        issue_code-LoggedIn req _ form.expires_in (some t.sub) t.email h

    persona-LoggedIn :
        (req : AuthRequest) (form : LoginForm) (upstream_sub upstream_email : Option String)
        (claims : Result AuthzError Claims)
        → get
            (env.random 0)
            (persona_login lib env req form upstream_sub upstream_email s claims).1.codes
          ≡ some e
        → LoggedIn req upstream_sub upstream_email e
            (persona_login lib env req form upstream_sub upstream_email s claims)
    persona-LoggedIn req form upstream_sub upstream_email (err m) h =
        absurd (ground (arith, absent, h))
    persona-LoggedIn req form upstream_sub upstream_email (ok claims) h =
        issue_code-LoggedIn req claims form.expires_in upstream_sub upstream_email h

    login-LoggedIn :
        (form : LoginForm) (tester : Option GateSession) (r : Result AuthzError AuthRequest)
        → get (env.random 0) (login lib env form tester s r).1.codes ≡ some e
        → Stored r tester (login lib env form tester s r)
    unfolding login
    login-LoggedIn form tester (err m) h = absurd (ground (arith, absent, h))
    login-LoggedIn form tester (ok req) h = (
      req,
      refl,
      elim (Bool-cases (as_own form)) [
        | inl own ↦ rw (own, login) (own_login-LoggedIn req form tester (rw (own, login) at h))
        | inr persona ↦
            rw (persona, login)
              (persona-LoggedIn req form (tester_sub tester) (tester_email tester)
                (persona_claims lib env form) (rw (persona, login) at h))
      ],
    )

    -- If a browser's login has stored a code that was not there before, then the gate has let its request
    -- in, the request is valid, the code is for this request and for the upstream subject and email of the
    -- gate's session, and has none without a gate; it expires five minutes later, its own subject is not
    -- disabled, and the answer redirects to the request's URI with the code and the state.
    pub authorize_post-Stored :
        (app : AppState) (q : AuthorizeQuery) (raw : Option String) (cookies : List String)
        (form : LoginForm)
        → get (env.random 0) (authorize_post lib app env q raw cookies form s).1.codes ≡ some e
        → (tester : Option GateSession) × (let_in app cookies ≡ some tester)
          × Stored
              (validate lib app q (resources_from_query lib raw) s)
              tester
              (authorize_post lib app env q raw cookies form s)
    unfolding authorize_post
    authorize_post-Stored app q raw cookies form h = elim (Option-cases app.gate) [
      | inl no_gate ↦ (
        none,
        rw no_gate refl,
        rw (no_gate, authorize_post)
            (login-LoggedIn form none _ (rw (no_gate, authorize_post) at h)),
      )
      | inr (gate, gated) ↦
          elim (Option-cases (gate_session lib gate cookies (unix_secs (env.now 2)))) [
            | inl stranger ↦ absurd (ground (arith, absent, h, gated, stranger))
            | inr (t, present) ↦ (
              some t,
              rw gated (rw present refl),
              rw (gated, authorize_post)
                  (rw present (
                    login-LoggedIn form (some t) _
                      (rw present at (rw (gated, authorize_post) at h)))),
            )
          ]
    ]
