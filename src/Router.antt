-- ===== src/Router.antt =====
-- src/routes/mod.rs: which endpoint stands at which path, and src/routes/jwks.rs and health.rs.
pub mod Mounted
use nano_mockidp.Base.{
  String, Bool, true, false, Option, List, [], ◌∷◌, ◌++◌, ◌==◌, if◌then◌else◌, any, is_some,
}
use nano_mockidp.Base.Text.{◌⊕◌}
use nano_mockidp.Crates.{SigningKey}
use nano_mockidp.Http.{Response, json, json_object}
use nano_mockidp.Json.{string}
use nano_mockidp.Keys.{jwks}
use nano_mockidp.State.{AppState}

pub data Method : Type 0 where
  get post put delete : Method

-- The handlers, by their modules and names.
pub data Endpoint : Type 0 where
  discovery jwks_document authorize_get authorize_post token userinfo introspect revoke
        end_session :
      Endpoint
  register health subjects subject_get subject_put subject_delete sessions session_delete callback :
      Endpoint

-- A route: `guarded` is the layer of `require_admin`.
pub record Mount : Type 0 where
  pub method : Method
  pub path : String
  pub endpoint : Endpoint
  pub guarded : Bool

abbrev unguarded : Method → String → Endpoint → Mount
unguarded method path endpoint = record {
  method = method;
  path = path;
  endpoint = endpoint;
  guarded = false;
}

abbrev guarded : Method → String → Endpoint → Mount
guarded method path endpoint = record {
  method = method;
  path = path;
  endpoint = endpoint;
  guarded = true;
}

abbrev pub health_route : Mount
health_route = unguarded get "/health" health

abbrev pub oidc_routes : List Mount
oidc_routes =
    unguarded get "/.well-known/openid-configuration" discovery
    ∷ unguarded get "/jwks" jwks_document
    ∷ unguarded get "/authorize" authorize_get
    ∷ unguarded post "/authorize" authorize_post
    ∷ unguarded post "/token" token
    ∷ unguarded get "/userinfo" userinfo
    ∷ unguarded post "/userinfo" userinfo
    ∷ unguarded post "/introspect" introspect
    ∷ unguarded post "/revoke" revoke
    ∷ unguarded get "/end_session" end_session
    ∷ unguarded post "/register" register
    ∷ health_route
    ∷ []

-- `admin_routes`
abbrev pub admin_routes : List Mount
admin_routes =
    guarded get "/admin/subjects" subjects
    ∷ guarded get "/admin/subjects/{sub}" subject_get
    ∷ guarded put "/admin/subjects/{sub}" subject_put
    ∷ guarded delete "/admin/subjects/{sub}" subject_delete
    ∷ guarded get "/admin/sessions" sessions
    ∷ guarded delete "/admin/sessions/{sid}" session_delete
    ∷ []

-- `nest`: every route moves below the path.
abbrev nest : String → List Mount → List Mount
nest path [] = []
nest path (m ∷ ms) = record m { path = path ⊕ m.path } ∷ nest path ms

-- `router`, without the layers
unfoldable pub router : AppState → List Mount
router app =
    let admin = if is_some app.config.admin_token then admin_routes else [] in
    let gate = if is_some app.gate then unguarded get "/upstream/callback" callback ∷ [] else [] in
    let oidc = oidc_routes ++ (admin ++ gate) in
    if app.config.issuer_path == ""
    then oidc
    else nest app.config.issuer_path oidc ++ (health_route ∷ [])

-- The origins of `cors`: any, or those that are header values.
pub data AllowOrigin : Type 0 where
  any_origin : AllowOrigin
  origins : List String → AllowOrigin

abbrev header_values : (String → Bool) → List String → List String
header_values is_header_value [] = []
header_values is_header_value (o ∷ os) =
    if is_header_value o
    then o ∷ header_values is_header_value os
    else header_values is_header_value os

unfoldable pub cors : (String → Bool) → List String → AllowOrigin
cors is_header_value os =
    if any (λ o. o == "*") os then any_origin else origins (header_values is_header_value os)

-- `jwks::handler` and `health::handler`
unfoldable pub jwks_handler : AppState → Response
unfolding jwks
jwks_handler app = record { status = 200; headers = []; body = json (jwks app.key) }

unfoldable pub health_handler : Response
health_handler = record {
  status = 200;
  headers = [];
  body = json_object (("status", string "ok") ∷ []);
}
