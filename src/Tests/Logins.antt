-- ===== src/Tests/Logins.antt =====
-- Applications of the theorems on a login and the exchange of its code (src/routes/authorize.rs and
-- src/routes/token.rs): `alice` logs in for the client `web`.
use mathlib.Core.Path.{subst}
use nano_mockidp.Base.Holds.{some-injective}
use nano_mockidp.Base.{
  String, true, Option, none, some, [], ◌∷◌, ◌≡◌, refl, arith, List, ◌==◌, if◌then◌else◌,
}
use nano_mockidp.Base.Map.{get, insert, remove, retain}
use nano_mockidp.Base.Result.{Result, ok}
use nano_mockidp.Base.Text.{trim}
use nano_mockidp.Json.{string}
use nano_mockidp.Routes.Authorize.{
  authorize_post, persona_claims, disabled_sub, lifetime, tester_sub, tester_email,
}
use nano_mockidp.Base.Bytes.{Bytes, as_bytes}
use nano_mockidp.Http.{Headers}
use nano_mockidp.Routes.Client.{authenticate_client, client_credentials}
use nano_mockidp.Routes.Exchange.{HandsOut}
use nano_mockidp.Routes.Token.{token_handler, resource_values}
use nano_mockidp.Server
use nano_mockidp.Server.{Event, serve_all}
use nano_mockidp.Server.LoginFlow.{login_exchanged}
use nano_mockidp.State.{app_issuer_for}
use nano_mockidp.Routes.LoggedIn.{LoggedIn, let_in, authorize_post-Stored}
use nano_mockidp.Routes.LoginFlow.{MayLogin, stored_entry}
use nano_mockidp.Routes.TokenForm.{TokenForm}
use nano_mockidp.Routes.Validate.{LoginForm, AuthorizeQuery, validate, resources_from_query}
use nano_mockidp.Store.Data.{Expiring, AuthRequest, CodeEntry, Store, expiring}
use nano_mockidp.Store.Ops.{sub_of, is_disabled}
use nano_mockidp.Token.Issue.{pkce_verify}
use nano_mockidp.Upstream.Seal.{GateSession}
use nano_mockidp.Tests.Fixture.{lib, app, env, encode_unary}
use nano_mockidp.Tests.Requests.{query}
use nano_mockidp.Tests.Stores.{store, store-IsWellFormed, request}

abbrev pub login_form : LoginForm
login_form = record {
  username = some "alice";
  claims = none;
  expires_in = none;
  as_upstream = none;
}

-- What the fixture's base64url and hash make of the verifier `!`.
abbrev challenge : String
challenge = encode_unary (33 ∷ [])

abbrev pub challenging : AuthorizeQuery
challenging = record query { code_challenge = some challenge }

abbrev pub asked : AuthRequest
asked = record request { code_challenge = some challenge }

may_login : MayLogin lib env app challenging none [] login_form store
unfolding validate get resources_from_query persona_claims trim insert remove sub_of is_disabled
    lifetime
may_login = record {
  req = asked;
  claims = ("sub", string "alice") ∷ [];
  expires_in = none;
  tester = none;
  passes = refl;
  valid = refl;
  chosen = refl;
  enabled = refl;
  lives = refl;
}

abbrev later : TokenForm
later = record {
  grant_type = some "authorization_code";
  code = some "r0";
  redirect_uri = some "http://app/cb";
  code_verifier = some "!";
  refresh_token = none;
  client_id = some "web";
  client_secret = none;
  scope = none;
  audience = none;
  username = none;
}

verifies : pkce_verify lib "!" challenge ≡ true
unfolding pkce_verify as_bytes
verifies = refl

proves :
    (c : String) → ◌≡◌ {A = Option String} (some challenge) (some c) → pkce_verify lib "!" c ≡ true
proves c asks = subst (λ x. pkce_verify lib "!" x ≡ true) (some-injective asks) verifies

-- The sweeper runs, and a client registers.
abbrev meanwhile : List Event
meanwhile = Server.swept 999000000000 ∷ Server.registered env none ∷ []

abbrev read_later : Bytes → Result String TokenForm
read_later body = ok later

abbrev posted : Headers
posted name = if name == "content-type" then some "application/x-www-form-urlencoded" else none

abbrev after : Store
after =
    serve_all lib read_later app meanwhile
      (authorize_post lib app env challenging none [] login_form store).1

abbrev login_entry : Expiring CodeEntry
login_entry =
    expiring (stored_entry lib env app challenging none [] login_form store may_login) 300
      1000000000000

still_stored : get "r0" after.codes ≡ some login_entry
unfolding serve_all authorize_post get insert remove trim is_disabled sub_of may_login retain
still_stored = refl

lets_in : authenticate_client lib app posted (some "web") none after ≡ (ok "web", after)
unfolding authenticate_client client_credentials serve_all authorize_post get insert remove trim
    is_disabled sub_of
lets_in = refl

still_enabled : disabled_sub (("sub", string "alice") ∷ []) after ≡ none
unfolding serve_all authorize_post get insert remove trim is_disabled sub_of
still_enabled = refl

login_exchanged_example :
    HandsOut lib app env
      (app_issuer_for app "http://localhost:8080")
      "web"
      later
      []
      after
      "r0"
      (stored_entry lib env app challenging none [] login_form store may_login)
      (token_handler lib read_later app env "http://localhost:8080" posted [] after)
unfolding may_login resource_values
login_exchanged_example =
    login_exchanged lib read_later app env env challenging none [] login_form store may_login
      meanwhile "http://localhost:8080" posted [] later login_entry store-IsWellFormed.codes
      (tt, (tt, tt)) still_stored (ground arith) refl refl refl refl lets_in refl
      (λ c asks. ("!", refl, proves c asks)) still_enabled

abbrev entry : Expiring CodeEntry
entry =
    expiring (stored_entry lib env app challenging none [] login_form store may_login) 300
      1000000000000

not_there : get "r0" store.codes ≡ none
unfolding get
not_there = refl

code_stored :
    get "r0" (authorize_post lib app env challenging none [] login_form store).1.codes ≡ some entry
unfolding authorize_post get insert remove trim is_disabled sub_of may_login
code_stored = refl

authorize_post-Stored_example :
    (tester : Option GateSession) × (let_in lib env app [] ≡ some tester)
    × ((req : AuthRequest) × (validate lib app challenging (resources_from_query lib none) store
          ≡ ok req)
        × LoggedIn lib env req
            (tester_sub tester)
            (tester_email tester)
            entry
            (authorize_post lib app env challenging none [] login_form store))
authorize_post-Stored_example =
    authorize_post-Stored lib env store not_there entry app challenging none [] login_form
      code_stored
