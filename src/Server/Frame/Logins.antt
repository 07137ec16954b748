-- ===== src/Server/Frame/Logins.antt =====
-- `/authorize` (src/routes/authorize.rs) keeps what the elementary updates keep.
use nano_mockidp.Base.{String, Option, none, some, List, arith, Option-cases, inl, inr}
use nano_mockidp.Base.Map.{insert}
use nano_mockidp.Base.Result.{Result, ok, err, Result-cases}
use nano_mockidp.Crates.{Crates}
use nano_mockidp.Json.{Claims}
use nano_mockidp.Routes.Authorize.{
  disabled_sub, lifetime, with_code, store_code, issue_code, own_login, login, authorize_post,
  gate_session, tester_sub, tester_email, persona_claims, persona_login,
}
use nano_mockidp.Routes.LoginPage.{authorize_get}
use nano_mockidp.Routes.Validate.{
  pending_ttl, AuthorizeQuery, LoginForm, AuthzError, validate, resources_from_query,
}
use nano_mockidp.Server.Frame.Rule.{Admitted, Rule}
use nano_mockidp.State.{AppState, Env}
use nano_mockidp.Store.Data.{unix_secs, expiring, AuthRequest, Store}
use nano_mockidp.Upstream.Seal.{GateSession}

module _ {P : Store → Type 0} {allowed : Admitted} (rule : Rule P allowed) (lib : Crates)
    (app : AppState) (env : Env) where
  module _ (admitted : allowed.code (env.random 0)) where
    issue_code-keeps :
        (req : AuthRequest) (claims : Claims)
        (expires_in upstream_sub upstream_email : Option String) (s : Store)
        → P s
        → P (issue_code lib env req claims expires_in upstream_sub upstream_email s).1
    unfolding issue_code store_code with_code
    issue_code-keeps req claims expires_in upstream_sub upstream_email s p =
        elim (Option-cases (disabled_sub claims s)) [
          | inr (sub, disabled) ↦ rw (disabled, issue_code) p
          | inl enabled ↦ elim (Result-cases (lifetime expires_in)) [
            | inr (e, bad) ↦ rw (enabled, issue_code) (rw bad p)
            | inl (n, good) ↦
                rw (enabled, issue_code)
                  (rw good (elim (Result-cases (lib.parse_url req.redirect_uri)) [
                    | inr (e, bad) ↦ rw (bad, store_code) p
                    | inl (url, parses) ↦
                        rw (parses, store_code) (rule.code_inserted (env.random 0) _ s admitted p)
                  ]))
          ]
        ]

    own_login-keeps :
        (req : AuthRequest) (form : LoginForm) (tester : Option GateSession) (s : Store)
        → P s
        → P (own_login lib env req form tester s).1
    unfolding own_login
    own_login-keeps req form none s p = p
    own_login-keeps req form (some t) s p =
        issue_code-keeps req _ form.expires_in (some t.sub) t.email s p

    persona-keeps :
        (form : LoginForm) (tester : Option GateSession) (s : Store)
        → P s
        → (req : AuthRequest) (claims : Result AuthzError Claims)
        → P (persona_login lib env req form (tester_sub tester) (tester_email tester) s claims).1
    persona-keeps form tester s p req (err e) = p
    persona-keeps form tester s p req (ok claims) =
        issue_code-keeps req claims form.expires_in (tester_sub tester) (tester_email tester) s p

    login-keeps :
        (form : LoginForm) (tester : Option GateSession) (s : Store)
        (req : Result AuthzError AuthRequest)
        → P s
        → P (login lib env form tester s req).1
    unfolding login
    login-keeps form tester s (err e) p = p
    login-keeps form tester s (ok req) p = ground (
      arith,
      p,
      own_login-keeps req form tester s p,
      persona-keeps form tester s p req (persona_claims lib env form),
    )

    pub authorize_post-keeps :
        (q : AuthorizeQuery) (raw : Option String) (cookies : List String) (form : LoginForm)
        (s : Store)
        → P s
        → P (authorize_post lib app env q raw cookies form s).1
    unfolding authorize_post
    authorize_post-keeps q raw cookies form s p = elim (Option-cases app.gate) [
      | inl no_gate ↦
          let here =
            login-keeps form none s (validate lib app q (resources_from_query lib raw) s) p in
          ground (arith, no_gate, here)
      | inr (gate, gated) ↦
          elim (Option-cases (gate_session lib gate cookies (unix_secs (env.now 2)))) [
            | inl absent ↦ ground (arith, p, gated, absent)
            | inr (t, present) ↦
                let here =
                  login-keeps form (some t) s (validate lib app q (resources_from_query lib raw) s)
                    p in
                ground (arith, gated, present, here)
          ]
    ]

  pub authorize_get-keeps :
      (q : AuthorizeQuery) (raw : Option String) (cookies : List String)
      (login_html : Result String String) (s : Store)
      → P s
      → P (authorize_get lib app env q raw cookies login_html s).1
  unfolding authorize_get
  authorize_get-keeps q raw cookies login_html s p =
      elim (Result-cases (validate lib app q (resources_from_query lib raw) s)) [
        | inr (e, refused) ↦ ground (arith, p, refused)
        | inl (req, valid) ↦ ground (
          arith,
          p,
          valid,
          rule.pending_set (insert (env.random 0) (expiring req pending_ttl (env.now 1)) s.pending)
              s p,
        )
      ]
