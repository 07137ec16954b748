-- ===== src/Tests/Requests.antt =====
-- Applications of the theorems on clients and authorization requests (src/routes/authorize.rs and
-- src/routes/token.rs), for the registered client `web`.
use nano_mockidp.Base.{true, none, some, [], ◌∷◌, ◌≡◌, ◌↔◌, is_some, refl}
use nano_mockidp.Base.Map.{get}
use nano_mockidp.Base.Result.{ok}
use nano_mockidp.Http.{Headers}
use nano_mockidp.Routes.Admin.{require_admin, end_login, not_admin}
use nano_mockidp.Routes.AdminGuard.{IsAdmin, require_admin_exact}
use nano_mockidp.Routes.Authentication.{IsClient, authenticate_client_iff}
use nano_mockidp.Routes.Authorization.{IsValidRequest, validate_sound}
use nano_mockidp.Routes.Client.{client_credentials, authenticate_client}
use nano_mockidp.Routes.Answered.{authorize_post_answers}
use nano_mockidp.Routes.Authorize.{authorize_post}
use nano_mockidp.Routes.Validate.{AuthorizeQuery, LoginForm, validate}
use nano_mockidp.State.{AppState}
use nano_mockidp.Tests.Fixture.{lib, app, config, env}
use nano_mockidp.Tests.Stores.{store, request}

abbrev pub nobody : Headers
nobody name = none

authenticate_client_iff_example :
    ((authenticate_client lib app nobody (some "web") none store).0 ≡ ok "web")
    ↔ IsClient store (client_credentials lib nobody (some "web") none) "web"
authenticate_client_iff_example =
    authenticate_client_iff lib app nobody (some "web") none store "web" refl

abbrev pub query : AuthorizeQuery
query = record {
  response_type = some "code";
  client_id = some "web";
  redirect_uri = some "http://app/cb";
  state = none;
  scope = some "openid";
  nonce = none;
  code_challenge = some "challenge";
  code_challenge_method = some "S256";
}

validate_passes :
    validate lib app query [] store ≡ ok (record request { code_challenge = some "challenge" })
unfolding validate get
validate_passes = refl

validate_sound_example :
    IsValidRequest lib app query [] store (record request { code_challenge = some "challenge" })
validate_sound_example =
    validate_sound lib app query [] store (record request { code_challenge = some "challenge" })
      validate_passes

-- The gate is on, and `svc` is a client of the configuration.
abbrev gated : AppState
gated = record app {
  config = record config {
    clients = record { client_id = "svc"; client_secret = some "pw"; redirect_uris = none } ∷ [];
    upstream = some (record {
      issuer = "https://login.example";
      client_id = "idp";
      client_secret = none;
      scope = "openid";
      require_claim = none;
      session_ttl = 3600;
      sub_token_claim = none;
      forward_claims = [];
      ca_path = none;
    });
  };
}

abbrev pub form : LoginForm
form = record { username = some "alice"; claims = none; expires_in = some "60"; as_upstream = none }

authorize_post-answers_example :
    is_some (authorize_post lib app env query none [] form store).0 ≡ true
authorize_post-answers_example = authorize_post_answers lib app env query form store none []

require_admin_exact_example :
    (IsAdmin app nobody → require_admin app nobody (end_login "s1") store ≡ end_login "s1" store)
    × (¬ IsAdmin app nobody → require_admin app nobody (end_login "s1") store ≡ (not_admin, store))
require_admin_exact_example = require_admin_exact app nobody (end_login "s1") store
