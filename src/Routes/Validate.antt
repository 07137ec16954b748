-- ===== src/Routes/Validate.antt =====
-- Checking an authorization request, and its errors (src/routes/authorize.rs).
use nano_mockidp.Base.{
  ℕ, String, Bool, true, false, ◌&&◌, not, Option, none, some, List, [], ◌∷◌, ◌==◌, if◌then◌else◌,
  unwrap_or, non_empty, is_some, is_none, same_text, contains,
}
use nano_mockidp.Base.Text.{◌⊕◌, replace_char}
use nano_mockidp.Base.Bytes.{as_bytes}
use nano_mockidp.Base.Result.{Result, ok, err, ok_or, ◌>>=◌}
use nano_mockidp.Base.Map.{get}
use nano_mockidp.Crates.{Crates, Url}
use nano_mockidp.Http.{Response, html, found}
use nano_mockidp.Routes.Token.{resource_values}
use nano_mockidp.State.{AppState}
use nano_mockidp.Store.Data.{AuthRequest, Store}

abbrev pub pending_ttl : ℕ
pending_ttl = 600

abbrev pub code_ttl : ℕ
code_ttl = 300

pub record AuthorizeQuery : Type 0 where
  pub response_type : Option String
  pub client_id : Option String
  pub redirect_uri : Option String
  pub state : Option String
  pub scope : Option String
  pub nonce : Option String
  pub code_challenge : Option String
  pub code_challenge_method : Option String

pub record LoginForm : Type 0 where
  pub username : Option String
  pub claims : Option String
  pub expires_in : Option String
  pub as_upstream : Option String

pub data AuthzError : Type 0 where
  page : ℕ → String → AuthzError
  redirect : (redirect_uri error description : String) → Option String → AuthzError

-- `error_page`
unfoldable pub error_page : String → String
error_page msg =
    "<!doctype html><html><head><meta charset=\"utf-8\"><title>nano-mockidp error</title><style>body{font-family:system-ui,sans-serif;max-width:640px;margin:60px auto;padding:0 16px;color:#222}h1{color:#ba2415;font-size:20px}pre{background:#ececec;padding:12px;white-space:pre-wrap}</style></head><body><h1>Authorization request error</h1><pre>"
    ⊕ replace_char b'>' "&gt;" (replace_char b'<' "&lt;" (replace_char b'&' "&amp;" msg))
    ⊕ "</pre></body></html>"

abbrev pub pair : String → Option String → List (String × String)
pair k none = []
pair k (some v) = (k, v) ∷ []

-- A redirect target that was parsed before: `Url::parse(…).expect("validated")`. `none` is the
-- panic.
abbrev pub redirect_to : Crates → Result String Url → List (String × String) → Option Response
redirect_to lib (err e) pairs = none
redirect_to lib (ok url) pairs = some (found (lib.append_pairs url pairs).text)

-- `AuthzError::into_response`; `none` is the panic of `expect`.
unfoldable pub authz_response : Crates → AuthzError → Option Response
unfolding error_page
authz_response lib (page status msg) =
    some (record { status = status; headers = []; body = html (error_page msg) })
authz_response lib (redirect uri error description state) =
    redirect_to lib (lib.parse_url uri)
      (("error", error) ∷ ("error_description", description) ∷ pair "state" state)

-- `resources_from_query`
unfoldable pub resources_from_query : Crates → Option String → List String
unfolding resource_values
resources_from_query lib none = []
resources_from_query lib (some raw) = resource_values (lib.form_pairs (as_bytes raw))

abbrev pub check : Bool → AuthzError → Result AuthzError (Unit {0})
check true e = ok tt
check false e = err e

abbrev pub is_ok {ℓ} : {A : Type ℓ} → Result String A → Bool
is_ok (ok a) = true
is_ok (err e) = false

-- The client of a strict request: whether it is public, that is without a secret.
unfoldable pub strict_client : Store → String → String → Result AuthzError Bool
strict_client s client_id redirect_uri = do
  client ← ok_or (get client_id s.clients) (page 400 ("unknown client_id: " ⊕ client_id))
  listed ←
      check (contains (unwrap_or client.redirect_uris []) redirect_uri)
        (page 400 ("redirect_uri not registered for client " ⊕ client_id ⊕ ": " ⊕ redirect_uri))
  ok (is_none client.client_secret)

abbrev pub method_known : String → Option String → Option String → Result AuthzError (Unit {0})
method_known redirect_uri state none = ok tt
method_known redirect_uri state (some m) = check (m == "S256") (
    redirect redirect_uri "invalid_request"
      ("only code_challenge_method=S256 is supported, got " ⊕ m) state)

-- The checks whose failure goes back to the client by a redirect.
unfoldable pub check_request : Bool → Bool → String → AuthorizeQuery → Result AuthzError (Unit {0})
check_request strict public_client redirect_uri q = do
  is_code ← check (same_text q.response_type (some "code")) (
      redirect redirect_uri "unsupported_response_type" "only response_type=code is supported"
        q.state)
  known ← method_known redirect_uri q.state q.code_challenge_method
  given ← check (not (is_some q.code_challenge && is_none q.code_challenge_method)) (
      redirect redirect_uri "invalid_request"
        "code_challenge_method=S256 is required when code_challenge is given" q.state)
  check (not (strict && public_client && is_none q.code_challenge)) (
      redirect redirect_uri "invalid_request"
        "PKCE (code_challenge) is required for public clients in strict mode" q.state)

-- `validate`
unfoldable pub validate :
    Crates → AppState → AuthorizeQuery → List String → Store → Result AuthzError AuthRequest
unfolding strict_client check_request
validate lib app q resources s = do
  client_id ← ok_or (non_empty q.client_id) (page 400 "missing client_id")
  redirect_uri ← ok_or (non_empty q.redirect_uri) (page 400 "missing redirect_uri")
  parsed ←
      check (is_ok (lib.parse_url redirect_uri))
        (page 400 ("redirect_uri is not a valid absolute URL: " ⊕ redirect_uri))
  public_client ← (if app.config.strict then strict_client s client_id redirect_uri else ok false)
  checked ← check_request app.config.strict public_client redirect_uri q
  ok (record {
    client_id = client_id;
    redirect_uri = redirect_uri;
    state = q.state;
    scope = q.scope;
    nonce = q.nonce;
    code_challenge = q.code_challenge;
    resources = resources;
  })
