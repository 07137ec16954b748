-- ===== src/Server/Logins.antt =====
-- What `/authorize` keeps (src/routes/authorize.rs): a code is stored only behind the gate.
use nano_mockidp.Base.{
  ℕ, String, Option, none, some, List, ◌≡◌, arith, is_none, refl, sym, ◌∙◌, Option-cases, inl, inr,
}
use nano_mockidp.Base.Holds.{Each-insert}
use nano_mockidp.Base.Map.{insert}
use nano_mockidp.Base.Result.{Result, ok, err, Result-cases}
use nano_mockidp.Crates.{Crates}
use nano_mockidp.Json.{Claims}
use nano_mockidp.Routes.Authorize.{
  disabled_sub, lifetime, with_code, store_code, issue_code, own_login, login, authorize_post,
  gate_session, tester_sub, tester_email, persona_claims, persona_login,
}
use nano_mockidp.Routes.LoginPage.{authorize_get}
use nano_mockidp.Routes.Validate.{pending_ttl}
use nano_mockidp.Routes.Validate.{
  AuthorizeQuery, LoginForm, AuthzError, validate, resources_from_query,
}
use nano_mockidp.Server.Kept.{IsGated, IsKept}
use nano_mockidp.State.{AppState, Env, Gate}
use nano_mockidp.Store.Data.{unix_secs, expiring, Expiring, AuthRequest, Store}
use nano_mockidp.Store.Invariant.{code_insert-IsWellFormed, pending_insert-IsWellFormed}
use nano_mockidp.Upstream.Seal.{GateSession}

module _ (Named : String → Type 0) (lib : Crates) (app : AppState) (env : Env) where
  abbrev Kept : Store → Type 0
  Kept = IsKept Named app.config

  module _ (upstream_sub upstream_email : Option String)
      (gated : IsGated Named app.config upstream_sub) (s : Store) (k : Kept s) where
    store_code-IsKept :
        (req : AuthRequest) (claims : Claims) (expires_in : Option ℕ)
        → Kept (store_code lib env req claims expires_in upstream_sub upstream_email s).1
    unfolding store_code with_code
    store_code-IsKept req claims expires_in = elim (Result-cases (lib.parse_url req.redirect_uri)) [
      | inr (e, bad) ↦ rw (bad, store_code) k
      | inl (url, good) ↦
          rw (good, store_code)
            (record {
              well_formed = code_insert-IsWellFormed (env.random 0) _ s k.well_formed;
              codes = Each-insert _ (env.random 0) _ s.codes gated k.codes;
              refresh = k.refresh;
            })
    ]

    issue_code-IsKept :
        (req : AuthRequest) (claims : Claims) (expires_in : Option String)
        → Kept (issue_code lib env req claims expires_in upstream_sub upstream_email s).1
    unfolding issue_code
    issue_code-IsKept req claims expires_in = elim (Option-cases (disabled_sub claims s)) [
      | inr (sub, disabled) ↦ ground (arith, k, disabled)
      | inl enabled ↦ elim (Result-cases (lifetime expires_in)) [
        | inr (e, bad) ↦ ground (arith, k, enabled, bad)
        | inl (n, good) ↦ ground (arith, enabled, good, store_code-IsKept req claims n)
      ]
    ]

  own_login-IsKept :
      (req : AuthRequest) (form : LoginForm) (tester : Option GateSession) (s : Store)
      → IsGated Named app.config (tester_sub tester)
      → Kept s
      → Kept (own_login lib env req form tester s).1
  unfolding own_login
  own_login-IsKept req form none s gated k = k
  own_login-IsKept req form (some t) s gated k =
      issue_code-IsKept (some t.sub) t.email gated s k req _ form.expires_in

  persona-IsKept :
      (form : LoginForm) (tester : Option GateSession) (s : Store)
      → IsGated Named app.config (tester_sub tester)
      → Kept s
      → (req : AuthRequest) (claims : Result AuthzError Claims)
      → Kept (persona_login lib env req form (tester_sub tester) (tester_email tester) s claims).1
  persona-IsKept form tester s gated k req (err e) = k
  persona-IsKept form tester s gated k req (ok claims) =
      issue_code-IsKept (tester_sub tester) (tester_email tester) gated s k req claims
        form.expires_in

  login-IsKept :
      (form : LoginForm) (tester : Option GateSession) (s : Store)
      (req : Result AuthzError AuthRequest)
      → IsGated Named app.config (tester_sub tester)
      → Kept s
      → Kept (login lib env form tester s req).1
  unfolding login
  login-IsKept form tester s (err e) gated k = k
  login-IsKept form tester s (ok req) gated k = ground (
    arith,
    k,
    own_login-IsKept req form tester s gated k,
    persona-IsKept form tester s gated k req (persona_claims lib env form),
  )

  -- The gate is built from the settings of the gate.
  module _ (matches : is_none app.gate ≡ is_none app.config.upstream) where
    pub authorize_post-IsKept :
        (q : AuthorizeQuery) (raw : Option String) (cookies : List String) (form : LoginForm)
        (s : Store)
        → ((gate : Gate) (t : GateSession)
            → app.gate ≡ some gate
            → gate_session lib gate cookies (unix_secs (env.now 2)) ≡ some t
            → Named t.sub)
        → Kept s
        → Kept (authorize_post lib app env q raw cookies form s).1
    unfolding authorize_post
    authorize_post-IsKept q raw cookies form s named k = elim (Option-cases app.gate) [
      | inl no_gate ↦
          let here =
            login-IsKept form none s (validate lib app q (resources_from_query lib raw) s)
              (inl (sym matches ∙ rw no_gate refl)) k in
          ground (arith, no_gate, here)
      | inr (gate, gated) ↦
          elim (Option-cases (gate_session lib gate cookies (unix_secs (env.now 2)))) [
            | inl absent ↦ ground (arith, k, gated, absent)
            | inr (t, present) ↦
                let here =
                  login-IsKept form (some t) s (validate lib app q (resources_from_query lib raw) s)
                    (inr (t.sub, refl, named gate t gated present)) k in
                ground (arith, gated, present, here)
          ]
    ]

  pending-IsKept :
      (id : String) (e : Expiring AuthRequest) (s : Store)
      → Kept s
      → Kept (record s { pending = insert id e s.pending })
  pending-IsKept id e s k = record {
    well_formed = pending_insert-IsWellFormed id e s k.well_formed;
    codes = k.codes;
    refresh = k.refresh;
  }

  pub authorize_get-IsKept :
      (q : AuthorizeQuery) (raw : Option String) (cookies : List String)
      (login_html : Result String String) (s : Store)
      → Kept s
      → Kept (authorize_get lib app env q raw cookies login_html s).1
  unfolding authorize_get
  authorize_get-IsKept q raw cookies login_html s k =
      elim (Result-cases (validate lib app q (resources_from_query lib raw) s)) [
        | inr (e, refused) ↦ ground (arith, k, refused)
        | inl (req, valid) ↦ ground (
          arith,
          k,
          valid,
          pending-IsKept (env.random 0) (expiring req pending_ttl (env.now 1)) s k,
        )
      ]
