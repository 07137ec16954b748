-- ===== src/Tests/Histories.antt =====
-- Applications of the theorems on what the server does over time (src/lib.rs, src/routes): the client `web`
-- uses the code `c1` and the refresh token `t1`, and clients register and log in meanwhile.
use nano_mockidp.Base.{
  String, false, none, some, List, [], ◌∷◌, ◌≡◌, ◌≢◌, ◌↔◌, refl, arith, eq_iff, ◌==◌, if◌then◌else◌,
}
use nano_mockidp.Base.Bytes.{Bytes}
use nano_mockidp.Base.Map.{get}
use nano_mockidp.Base.Result.{Result, ok, err}
use nano_mockidp.Http.{Headers, Response, OAuthError, none, invalid_request}
use nano_mockidp.Json.{end}
use nano_mockidp.Routes.Client.{authenticate_client, client_credentials}
use nano_mockidp.Routes.Grants.{code_grant, refresh_grant}
use nano_mockidp.Store.Ops.{is_disabled, sub_of}
use nano_mockidp.Routes.Revoke.{RevokeForm, revoke_handler}
use nano_mockidp.Routes.Steps.{IsOauthError}
use nano_mockidp.Routes.GrantSteps.{Spent}
use nano_mockidp.Routes.TokenErrors.{token_handler_refuses}
use nano_mockidp.Routes.Token.{token_handler}
use nano_mockidp.Routes.TokenForm.{TokenForm}
use nano_mockidp.Server
use nano_mockidp.Server.{Event, serve_all}
use nano_mockidp.Server.Once.{code_used_once, refresh_used_once, revoked_refresh_refused}
use nano_mockidp.Server.Registered.{Shows, registered, registered_then, registered_client_passes}
use nano_mockidp.Server.Requests.{PresentsCode, PresentsToken}
use nano_mockidp.Tests.Fixture.{lib, app, env}
use nano_mockidp.Tests.Grants.{form}
use nano_mockidp.Tests.Requests.{nobody, query}
use nano_mockidp.Tests.Requests
use nano_mockidp.Tests.Stores.{store, refresh_entry}

abbrev code_form : TokenForm
code_form = record form { grant_type = some "authorization_code" }

abbrev refresh_form : TokenForm
refresh_form = record form { grant_type = some "refresh_token" }

-- The body `[1]` is the code request, and any other the refresh request.
abbrev form_of : Bytes → Result String TokenForm
form_of [] = ok refresh_form
form_of (b ∷ bs) = ok code_form

abbrev posted : Headers
posted name = if name == "content-type" then some "application/x-www-form-urlencoded" else none

abbrev events : List Event
events =
    Server.registered env none
    ∷ Server.logged_in env query none [] Requests.form
    ∷ Server.token_asked env "http://localhost:8080" posted (1 ∷ [])
    ∷ Server.swept 5
    ∷ []

abbrev response_of : Result OAuthError Response → Response
response_of (ok r) = r
response_of (err e) = record { status = 0; headers = []; body = none }

abbrev code_answer : Response
code_answer =
    response_of (token_handler lib form_of app env "http://localhost:8080" posted (1 ∷ []) store).0

code_answered :
    (token_handler lib form_of app env "http://localhost:8080" posted (1 ∷ []) store).0
    ≡ ok code_answer
unfolding token_handler get code_grant is_disabled
code_answered = refl

presents_code : PresentsCode form_of (1 ∷ []) "c1"
presents_code = record { form = code_form; read = refl; grant = refl; given = refl }

code_used_once_example :
    (token_handler lib form_of app env "http://localhost:8080" posted (1 ∷ []) (
      serve_all lib form_of app events
        (token_handler lib form_of app env "http://localhost:8080" posted (1 ∷ []) store).1)).0
    ≢ ok code_answer
code_used_once_example =
    code_used_once lib form_of app env env "http://localhost:8080" "http://localhost:8080" posted
      posted (1 ∷ []) (1 ∷ []) store code_answer code_answer events "c1" presents_code presents_code
      (tt, ((ground (arith, eq_iff "r0" "c1")), ((tt, tt), (tt, tt)))) code_answered

abbrev refresh_answer : Response
refresh_answer =
    response_of (token_handler lib form_of app env "http://localhost:8080" posted [] store).0

refresh_answered :
    (token_handler lib form_of app env "http://localhost:8080" posted [] store).0
    ≡ ok refresh_answer
unfolding token_handler get refresh_grant is_disabled sub_of
refresh_answered = refl

presents_token : PresentsToken form_of [] "t1"
presents_token = record { form = refresh_form; read = refl; grant = refl; given = refl }

new_token : env.random 2 ≢ "t1"
new_token = ground (arith, eq_iff "r2" "t1")

refresh_used_once_example :
    (token_handler lib form_of app env "http://localhost:8080" posted [] (
      serve_all lib form_of app events
        (token_handler lib form_of app env "http://localhost:8080" posted [] store).1)).0
    ≢ ok refresh_answer
refresh_used_once_example =
    refresh_used_once lib form_of app env env "http://localhost:8080" "http://localhost:8080" posted
      posted [] [] store refresh_answer refresh_answer events "t1" presents_token presents_token
      new_token (tt, (tt, ((new_token, new_token), (tt, tt)))) refresh_answered

abbrev revocation : RevokeForm
revocation = record {
  token = some "t1";
  token_type_hint = none;
  client_id = some "web";
  client_secret = none;
}

let_in : authenticate_client lib app nobody (some "web") none store ≡ (ok "web", store)
unfolding authenticate_client get
let_in = refl

revoked_refresh_refused_example :
    (token_handler lib form_of app env "http://localhost:8080" posted []
      (serve_all lib form_of app events (revoke_handler lib app nobody revocation store).1)).0
    ≢ ok refresh_answer
unfolding get
revoked_refresh_refused_example =
    revoked_refresh_refused lib form_of app nobody posted revocation "web" store let_in "t1"
      (refresh_entry false) events env "http://localhost:8080" [] refresh_answer refl refl refl
      (tt, (tt, ((new_token, new_token), (tt, tt)))) presents_token

abbrev meanwhile : List Event
meanwhile = Server.swept 5 ∷ Server.logged_in env query none [] Requests.form ∷ []

registered_client_passes_example :
    ((authenticate_client lib app nobody
        (some "r0")
        (some "r1")
        (registered_then lib form_of app env end store meanwhile)).0
      ≡ ok "r0")
    ↔ Shows (client_credentials lib nobody (some "r0") (some "r1")) (registered env end)
registered_client_passes_example =
    registered_client_passes lib form_of app env end store meanwhile nobody (some "r0") (some "r1")
      (tt, (tt, tt)) refl

-- A request with the code `c1` and without a redirect URI.
abbrev unredirected : Bytes → Result String TokenForm
unredirected body = ok (record code_form { redirect_uri = none })

abbrev uri_missing : OAuthError
uri_missing = invalid_request "redirect_uri is required"

uri_is_missing :
    (token_handler lib unredirected app env "http://localhost:8080" posted [] store).0
    ≡ err uri_missing
unfolding token_handler get code_grant
uri_is_missing = refl

token_handler_refuses_example :
    IsOauthError uri_missing
    × Spent
        (unredirected [])
        store
        (token_handler lib unredirected app env "http://localhost:8080" posted [] store).1
token_handler_refuses_example =
    token_handler_refuses store lib unredirected app env "http://localhost:8080" posted []
      uri_missing uri_is_missing
