-- ===== src/Routes/Authorize.antt =====
-- `post` of src/routes/authorize.rs: the login.
use nano_mockidp.Base.{
  ℕ, String, Bool, not, Option, none, some, List, [], ◌∷◌, ◌==◌, if◌then◌else◌, and_then, non_empty,
  is_some_and, keep_if,
}
use nano_mockidp.Base.Text.{◌⊕◌, trim, parse_u64}
use nano_mockidp.Base.Bytes.{as_bytes}
use nano_mockidp.Base.Result.{Result, ok, err, ◌>>=◌}
use nano_mockidp.Base.Map.{insert, contains_key}
use nano_mockidp.Crates.{Crates}
use nano_mockidp.Http.{Response}
use nano_mockidp.Json.{Value, string, object, entries, Claims}
use nano_mockidp.State.{AppState, Env, Gate}
use nano_mockidp.Store.Data.{unix_secs, expiring, AuthRequest, Store}
use nano_mockidp.Store.Ops.{sub_of, is_disabled}
use nano_mockidp.Upstream.Gate.{cookie_value, cookie_name}
use nano_mockidp.Upstream.Seal.{GateSession, sealed_session, opened}
use nano_mockidp.Routes.Validate.{
  code_ttl, AuthorizeQuery, LoginForm, AuthzError, pair, redirect_to, authz_response,
  resources_from_query, validate, page, redirect,
}

-- `Gate::session`: the session of a request, from its `Cookie` headers
unfoldable pub gate_session : Crates → Gate → List String → ℕ → Option GateSession
unfolding opened cookie_value
gate_session lib gate cookies now =
    and_then (cookie_value cookies cookie_name)
      (λ value. opened lib sealed_session gate.key value now)

-- The answer to a login, and the store after it; `none` is a panic.
abbrev pub Reply : Type 0
Reply = Option Response × Store

abbrev pub refuse : Crates → AuthzError → Store → Reply
refuse lib e s = (authz_response lib e, s)

-- `expires_in.map(str::trim).filter(|s| !s.is_empty())`, then `parse::<u64>()`
unfoldable pub lifetime : Option String → Result AuthzError (Option ℕ)
lifetime given = elim (and_then given (λ v. non_empty (some (trim v)))) [
  | none ↦ ok none
  | some v ↦ elim (parse_u64 v) [
    | some n ↦ ok (some n)
    | none ↦ err (page 400 ("expires_in must be an integer, got " ⊕ v))
  ]
]

abbrev pub disabled_sub : Claims → Store → Option String
disabled_sub claims s = keep_if (λ sub. is_disabled sub s) (sub_of claims)

abbrev pub with_email : Option String → Claims → Claims
with_email none claims = claims
with_email (some e) claims = insert "email" (string e) claims

abbrev pub tester_sub : Option GateSession → Option String
tester_sub none = none
tester_sub (some t) = some t.sub

abbrev pub tester_email : Option GateSession → Option String
tester_email none = none
tester_email (some t) = t.email

-- `as_upstream`: the field is given and not blank
abbrev pub as_own : LoginForm → Bool
as_own form = is_some_and form.as_upstream (λ v. not (trim v == ""))

module _ (lib : Crates) (env : Env) where
  -- The store with a new code.
  unfoldable pub with_code :
      AuthRequest → Claims → Option ℕ → Option String → Option String → Store → Store
  unfolding unix_secs
  with_code req claims expires_in upstream_sub upstream_email s = record s {
    codes =
        insert (env.random 0)
          (expiring
            (record {
              req = req;
              claims = claims;
              auth_time = unix_secs (env.now 0);
              sid = env.random 1;
              expires_in = expires_in;
              upstream_sub = upstream_sub;
              upstream_email = upstream_email;
            })
            code_ttl (env.now 1))
          s.codes;
  }

  -- `issue_code` after the checks: the redirect URI is parsed, or `expect` panics before the code is
  -- stored.
  unfoldable pub store_code :
      AuthRequest → Claims → Option ℕ → Option String → Option String → Store → Reply
  unfolding with_code
  store_code req claims expires_in upstream_sub upstream_email s =
      elim (lib.parse_url req.redirect_uri) [
        | err e ↦ (none, s)
        | ok url ↦ (
          redirect_to lib (ok url) (("code", env.random 0) ∷ pair "state" req.state),
          with_code req claims expires_in upstream_sub upstream_email s,
        )
      ]

  abbrev with_lifetime :
      AuthRequest
      → Claims
      → Option String
      → Option String
      → Store
      → Result AuthzError (Option ℕ)
      → Reply
  with_lifetime req claims upstream_sub upstream_email s (err e) = refuse lib e s
  with_lifetime req claims upstream_sub upstream_email s (ok expires_in) =
      store_code req claims expires_in upstream_sub upstream_email s

  -- `issue_code`
  unfoldable pub issue_code :
      AuthRequest → Claims → Option String → Option String → Option String → Store → Reply
  unfolding store_code lifetime authz_response
  issue_code req claims expires_in upstream_sub upstream_email s = elim (disabled_sub claims s) [
    | some sub ↦
        refuse lib
          (redirect req.redirect_uri "access_denied" ("subject " ⊕ sub ⊕ " is disabled") req.state)
          s
    | none ↦ with_lifetime req claims upstream_sub upstream_email s (lifetime expires_in)
  ]

  -- The claims typed at the login form.
  abbrev pub object_claims : Result String Value → Result AuthzError Claims
  object_claims (err e) = err (page 400 ("claims is not valid JSON: " ⊕ e))
  object_claims (ok (object fs)) = ok (entries fs)
  object_claims (ok v) = err (page 400 "claims must be a JSON object")

  unfoldable pub typed_claims : Option String → Result AuthzError Claims
  typed_claims given = elim (and_then given (λ c. non_empty (some (trim c)))) [
    | none ↦ ok []
    | some raw ↦ object_claims (lib.from_slice (as_bytes raw))
  ]

  abbrev pub default_sub : Option String → Claims → Result AuthzError Claims
  default_sub none claims = err (page 400 "username is required (or a `sub` claim)")
  default_sub (some u) claims = ok (insert "sub" (string u) claims)

  -- The typed claims with a `sub`: their own, or the username.
  unfoldable pub persona_claims : LoginForm → Result AuthzError Claims
  unfolding typed_claims contains_key
  persona_claims form = do
    claims ← typed_claims form.claims
    if contains_key "sub" claims
        then ok claims
        else default_sub (and_then form.username (λ u. non_empty (some (trim u)))) claims

  abbrev pub persona_login :
      AuthRequest
      → LoginForm
      → Option String
      → Option String
      → Store
      → Result AuthzError Claims
      → Reply
  persona_login req form upstream_sub upstream_email s (err e) = refuse lib e s
  persona_login req form upstream_sub upstream_email s (ok claims) =
      issue_code req claims form.expires_in upstream_sub upstream_email s

  -- A login as the tester's own identity.
  unfoldable pub own_login : AuthRequest → LoginForm → Option GateSession → Store → Reply
  unfolding issue_code
  own_login req form none s =
      refuse lib (page 400 "as_upstream needs the upstream gate (UPSTREAM_ISSUER)") s
  own_login req form (some t) s =
      issue_code req (with_email t.email (insert "sub" (string t.sub) t.claims)) form.expires_in
        (some t.sub) t.email s

  -- `post` after the gate and the validation; the session is that of the gate, if there is one.
  unfoldable pub login :
      LoginForm → Option GateSession → Store → Result AuthzError AuthRequest → Reply
  unfolding own_login persona_claims issue_code authz_response
  login form tester s (err e) = refuse lib e s
  login form tester s (ok req) =
      if as_own form
      then own_login req form tester s
      else persona_login req form (tester_sub tester) (tester_email tester) s (persona_claims form)

-- `authorize::post`
unfoldable pub authorize_post :
    Crates
    → AppState
    → Env
    → AuthorizeQuery
    → Option String
    → List String
    → LoginForm
    → Store
    → Reply
unfolding login validate resources_from_query gate_session authz_response
authorize_post lib app env q raw cookies form s = elim app.gate [
  | none ↦ login lib env form none s (validate lib app q (resources_from_query lib raw) s)
  | some gate ↦ elim (gate_session lib gate cookies (unix_secs (env.now 2))) [
    | none ↦
        refuse lib
          (page 403 "not signed in at the upstream identity provider: reload the login page") s
    | some t ↦ login lib env form (some t) s (validate lib app q (resources_from_query lib raw) s)
  ]
]
