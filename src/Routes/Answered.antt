-- ===== src/Routes/Answered.antt =====
-- A login at /authorize is always answered (src/routes/authorize.rs, `post`).
use nano_mockidp.Base.{
  String, Bool, true, false, Option, none, some, List, [], ◌≡◌, refl, Option-cases, Bool-cases, inl,
  inr, if◌then◌else◌, and_then, is_some, non_empty,
}
use nano_mockidp.Base.Bytes.{as_bytes}
use nano_mockidp.Base.Map.{contains_key}
use nano_mockidp.Base.Text.{trim}
use nano_mockidp.Base.Result.{Result, ok, err, Result-cases}
use nano_mockidp.Crates.{Crates, Url}
use nano_mockidp.Json.{Value, object, Claims}
use nano_mockidp.Routes.Answers.{
  Answers, bind-Answers, ok-Answers, err-Answers, validate-Answers, issue_code_answers,
}
use nano_mockidp.Routes.Authorization.{validate_sound}
use nano_mockidp.Routes.Authorize.{
  own_login, login, persona_claims, persona_login, object_claims, default_sub, typed_claims,
  authorize_post, gate_session, as_own, tester_sub, tester_email,
}
use nano_mockidp.Routes.Validate.{authz_response, validate, AuthorizeQuery, LoginForm}
use nano_mockidp.State.{AppState, Env}
use nano_mockidp.Store.Data.{AuthRequest, Store, unix_secs}
use nano_mockidp.Upstream.Seal.{GateSession}

module _ (lib : Crates) where
  object_claims-Answers :
      (env : Env) (r : Result String Value) → Answers lib (object_claims lib env r)
  unfolding Answers authz_response
  object_claims-Answers env (err e) = refl
  object_claims-Answers env (ok (object fs)) = tt
  object_claims-Answers env (ok v) = refl

  default_sub-Answers :
      (env : Env) (name : Option String) (claims : Claims)
      → Answers lib (default_sub lib env name claims)
  unfolding Answers authz_response
  default_sub-Answers env none claims = refl
  default_sub-Answers env (some u) claims = tt

  typed_claims-Answers :
      (env : Env) (given : Option String) → Answers lib (typed_claims lib env given)
  unfolding typed_claims
  typed_claims-Answers env given =
      elim (Option-cases (and_then given (λ c. non_empty (some (trim c))))) [
        | inl blank ↦ rw (blank, typed_claims) (ok-Answers lib [])
        | inr (raw, typed) ↦
            rw (typed, typed_claims) (object_claims-Answers env (lib.from_slice (as_bytes raw)))
      ]

  named-Answers :
      (env : Env) (b : Bool) (name : Option String) (claims : Claims)
      → Answers lib (if b then ok claims else default_sub lib env name claims)
  named-Answers env true name claims = ok-Answers lib claims
  named-Answers env false name claims = default_sub-Answers env name claims

  persona_claims-Answers :
      (env : Env) (form : LoginForm) → Answers lib (persona_claims lib env form)
  unfolding persona_claims
  persona_claims-Answers env form =
      bind-Answers lib _ _ (typed_claims-Answers env form.claims)
        (λ claims _. named-Answers env (contains_key "sub" claims) _ claims)

  module _ (env : Env) (req : AuthRequest) (url : Url)
      (parses : lib.parse_url req.redirect_uri ≡ ok url) (form : LoginForm) (s : Store) where
    own_login_answers :
        (tester : Option GateSession) → is_some (own_login lib env req form tester s).0 ≡ true
    unfolding own_login authz_response
    own_login_answers none = refl
    own_login_answers (some t) =
        issue_code_answers lib env req url parses _ form.expires_in (some t.sub) t.email s

    persona_login_answers :
        (upstream_sub upstream_email : Option String)
        → is_some
            (persona_login lib env req form upstream_sub upstream_email s
              (persona_claims lib env form)).0
          ≡ true
    persona_login_answers upstream_sub upstream_email =
        elim (Result-cases (persona_claims lib env form)) [
          | inl (claims, typed) ↦ rw typed (
              issue_code_answers lib env req url parses claims form.expires_in upstream_sub
                upstream_email s)
          | inr (e, wrong) ↦ rw wrong (err-Answers lib e wrong (persona_claims-Answers env form))
        ]

    request_answers :
        (tester : Option GateSession) → is_some (login lib env form tester s (ok req)).0 ≡ true
    unfolding login
    request_answers tester = elim (Bool-cases (as_own form)) [
      | inl own ↦ rw (own, login) (own_login_answers tester)
      | inr persona ↦
          rw (persona, login) (persona_login_answers (tester_sub tester) (tester_email tester))
    ]

  module _ (app : AppState) (env : Env) (q : AuthorizeQuery) (form : LoginForm) (s : Store) where
    login_answers :
        (tester : Option GateSession) (resources : List String)
        → is_some (login lib env form tester s (validate lib app q resources s)).0 ≡ true
    unfolding login
    login_answers tester resources = elim (Result-cases (validate lib app q resources s)) [
      | inl (req, valid) ↦
          let promised = validate_sound lib app q resources s req valid in
          rw valid (request_answers env req promised.url promised.redirect_parses form s tester)
      | inr (e, wrong) ↦
          rw (wrong, login) (err-Answers lib e wrong (validate-Answers lib app q resources s))
    ]

    -- Whatever a browser posts to `/authorize`, it is answered: a redirect URI that a redirect goes
    -- to was parsed before, so that no `expect` panics.
    pub authorize_post_answers :
        (raw : Option String) (cookies : List String)
        → is_some (authorize_post lib app env q raw cookies form s).0 ≡ true
    unfolding authorize_post authz_response
    authorize_post_answers raw cookies = elim (Option-cases app.gate) [
      | inl ungated ↦ rw (ungated, authorize_post) (login_answers none _)
      | inr (gate, on) ↦
          rw (on, authorize_post)
            (elim (Option-cases (gate_session lib gate cookies (unix_secs (env.now 2)))) [
              | inl stranger ↦ rw (stranger, authorize_post) refl
              | inr (t, passed) ↦ rw (passed, authorize_post) (login_answers (some t) _)
            ])
    ]
