-- ===== src/Server/LoginFlow.antt =====
-- From a login to tokens: a code is exchanged at `/token` whatever the server has done since the login
-- (src/routes/authorize.rs, src/routes/token.rs).
use nano_mockidp.Base.{
  Bool, false, ◌==◌, if◌then◌else◌, ◌+◌, ◌*◌, ◌<◌, String, true, Option, none, some, List, ◌≡◌, ◌≢◌,
  refl, arith, eq_iff, non_empty, unwrap_or, keep_if, ◌∙◌, ap, Bool-cases, inl, inr,
}
use text.Mathlib.Text.{starts_with}
use nano_mockidp.Base.Bytes.{Bytes}
use nano_mockidp.Base.Holds.{OnSome, absent, present, OnSome_at}
use nano_mockidp.Base.Map.{
  Distinct, get, get-insert, get-remove, get-retain, Distinct-insert, Distinct-remove,
  Distinct-retain,
}
use nano_mockidp.Base.Result.{Result, ok}
use nano_mockidp.Crates.{Crates}
use nano_mockidp.Http.{Headers}
use nano_mockidp.Routes.Authorization.{validate_sound}
use nano_mockidp.Routes.Authorize.{authorize_post, with_code, store_code, disabled_sub}
use nano_mockidp.Routes.Client.{authenticate_client}
use nano_mockidp.Routes.Exchange.{HandsOut, code_grant-exchanged}
use nano_mockidp.Routes.Grants.{code_grant}
use nano_mockidp.Routes.LoginFlow.{MayLogin, stored_entry, authorize_post-stores}
use nano_mockidp.Routes.Token.{token_handler, parse_body, dispatch, resource_values}
use nano_mockidp.Routes.TokenForm.{TokenForm}
use nano_mockidp.Routes.Validate.{code_ttl, AuthorizeQuery, LoginForm, resources_from_query}
use nano_mockidp.Server.{Event, serve_all}
use nano_mockidp.Server.Frame.Events.{AllAdmitted, serve_all-keeps}
use nano_mockidp.Server.Frame.Rule.{Rule, anything}
use nano_mockidp.State.{AppState, Env, app_issuer_for}
use nano_mockidp.Store.Data.{Expiring, expiring, CodeEntry, Store, nanos_per_sec}
use nano_mockidp.Store.Ops.{is_live, is_disabled, sweep}
use nano_mockidp.Token.Issue.{pkce_verify}

-- A code that is stored has this entry, and only one.
abbrev IsOnly : String → Expiring CodeEntry → Store → Type 0
IsOnly code e s = Distinct s.codes × OnSome (λ x. x ≡ e) (get code s.codes)

keeps_OnSome :
    {A : Type 0} {P : A → Type 0} (p : A → _) (o : Option A) → OnSome P o → OnSome P (keep_if p o)
keeps_OnSome p none h = absent
keeps_OnSome p (some a) h = elim (Bool-cases (p a)) [
  | inl kept ↦ rw kept h
  | inr gone ↦ rw gone absent
]

unless_OnSome :
    {A : Type 0} {P : A → Type 0} (b : Bool) (o : Option A)
    → OnSome P o
    → OnSome P (if b then none else o)
unless_OnSome true o h = absent
unless_OnSome false o h = h

differ : (k code : String) → k ≢ code → (k == code) ≡ false
differ k code other = elim (Bool-cases (k == code)) [
  | inl same ↦ absurd (other (ground (arith, same, eq_iff k code)))
  | inr differs ↦ differs
]

single_code_rule :
    (code : String) (e : Expiring CodeEntry)
    → Rule (IsOnly code e) (record anything { code = λ k. k ≢ code })
unfolding sweep
single_code_rule code e = record {
  swept = λ now s any (d, h). (
    Distinct-retain (is_live now) s.codes d,
    rw (get-retain (is_live now) code s.codes d) (keeps_OnSome (is_live now) (get code s.codes) h),
  );
  code_removed = λ k s (d, h).
      (Distinct-remove k s.codes d, rw get-remove (unless_OnSome (k == code) (get code s.codes) h));
  token_removed = λ k s h. h;
  tokens_dropped = λ p s h. h;
  pending_set = λ m s h. h;
  subjects_set = λ m s h. h;
  revoked_inserted = λ jti exp s any h. h;
  code_inserted = λ k x s other (d, h).
      (Distinct-insert k x s.codes d, rw get-insert (rw (differ k code other) h));
  token_inserted = λ k x s any h. h;
  client_inserted = λ k c s any h. h;
}

module _ (lib : Crates) (form_of : Bytes → Result String TokenForm) (app : AppState) where
  token_handler-code_grant :
      (env : Env) (base : String) (headers : Headers) (body : Bytes) (s : Store) (form : TokenForm)
      (client_id : String)
      → starts_with (unwrap_or (headers "content-type") "") "application/x-www-form-urlencoded"
        ≡ true
      → form_of body ≡ ok form
      → form.grant_type ≡ some "authorization_code"
      → authenticate_client lib app headers form.client_id form.client_secret s ≡ (ok client_id, s)
      → token_handler lib form_of app env base headers body s
        ≡ code_grant lib app env
            (app_issuer_for app base)
            client_id
            form
            (resource_values (lib.form_pairs body))
            s
  unfolding token_handler parse_body dispatch
  token_handler-code_grant env base headers body s form client_id typed read grant known =
      rw typed (rw read (rw known (rw grant refl)))

  -- A login that has nothing against it leads to tokens: the gate lets it in, its request is valid, its
  -- claims are read, be they one's own or a persona's, its subject is not disabled and its lifetime is
  -- a number. Whatever requests and sweeps follow, as long as no login draws the same code: if the
  -- code is still there and its five minutes have not passed, a form request to `/token` by the
  -- client of the login, with the code, the redirect URI and the verifier of a challenge, is
  -- answered with the tokens of the login, unless its subject is disabled by then.
  pub login_exchanged :
      (env later : Env) (q : AuthorizeQuery) (raw : Option String) (cookies : List String)
      (form : LoginForm) (s : Store) (m : MayLogin lib env app q raw cookies form s)
      (events : List Event) (base : String) (headers : Headers) (body : Bytes) (request : TokenForm)
      (found : Expiring CodeEntry)
      → let after : Store =
          serve_all lib form_of app events (authorize_post lib app env q raw cookies form s).1 in
        Distinct s.codes
        → AllAdmitted (record anything { code = λ k. k ≢ env.random 0 }) lib app events
        → get (env.random 0) after.codes ≡ some found
        → later.now 0 < env.now 1 + code_ttl * nanos_per_sec
        → starts_with (unwrap_or (headers "content-type") "") "application/x-www-form-urlencoded"
          ≡ true
        → form_of body ≡ ok request
        → request.grant_type ≡ some "authorization_code"
        → non_empty request.code ≡ some (env.random 0)
        → authenticate_client lib app headers request.client_id request.client_secret after
          ≡ (ok m.req.client_id, after)
        → request.redirect_uri ≡ some m.req.redirect_uri
        → ((challenge : String)
            → m.req.code_challenge ≡ some challenge
            → (verifier : String) × (non_empty request.code_verifier ≡ some verifier)
              × (pkce_verify lib verifier challenge ≡ true))
        → disabled_sub m.claims after ≡ none
        → HandsOut lib app later
            (app_issuer_for app base)
            m.req.client_id
            request
            (resource_values (lib.form_pairs body))
            after
            (env.random 0)
            (stored_entry lib env app q raw cookies form s m)
            (token_handler lib form_of app later base headers body after)
  unfolding store_code with_code is_disabled
  login_exchanged env later q raw cookies form s m events base headers body request found distinct
        fresh stored live typed read grant given known redirects proves enabled =
      let code = env.random 0 in
      let entry = expiring (stored_entry lib env app q raw cookies form s m) code_ttl (env.now 1) in
      let after : Store =
        serve_all lib form_of app events (authorize_post lib app env q raw cookies form s).1 in
      let promised = validate_sound lib app q (resources_from_query lib raw) s m.req m.valid in
      let start : IsOnly code entry (authorize_post lib app env q raw cookies form s).1 =
        rw (authorize_post-stores lib env app q raw cookies form s m) (
          rw (promised.redirect_parses, store_code)
            (
              Distinct-insert code entry s.codes distinct,
              rw get-insert (rw ((eq_iff code code).1 refl) (present refl)),
            )) in
      let only : IsOnly code entry after =
        serve_all-keeps (single_code_rule code entry) app lib form_of events _ fresh start in
      rw
        (token_handler-code_grant later base headers body after request m.req.client_id typed read
          grant known)
        (code_grant-exchanged lib app later (app_issuer_for app base) m.req.client_id request
          (resource_values (lib.form_pairs body)) after code entry
          (record {
            presented = given;
            stored = stored ∙ ap some (OnSome_at only.1 stored);
            live = live;
            same_client = refl;
            same_redirect = redirects;
            pkce = proves;
            enabled = λ sub named. ground (arith, named, enabled);
          }))
