-- ===== src/State.antt =====
-- src/state.rs: the state that all handlers share. `AppState` never changes; the store behind its
-- lock is the state of a handler. `Env` has what a request reads from outside.
use nano_mockidp.Base.{ℕ, String, Bool, Option, some, List, [], ◌∷◌, if◌then◌else◌}
use nano_mockidp.Base.Bytes.{Bytes}
use nano_mockidp.Base.Map.{insert}
use nano_mockidp.Base.Handler.{Handler}
use nano_mockidp.Config.{Config, ClientConfig, UpstreamConfig}
use nano_mockidp.Crates.{SigningKey}
use nano_mockidp.Http.{OAuthError}
use nano_mockidp.Store.Data.{Instant, Store, Client}
use nano_mockidp.Store.Data
use nano_mockidp.Token.Issue.{Issuer}
use nano_mockidp.Token.Verify.{IssuerCheck, exact, path_only}
use nano_mockidp.Urls.{issuer_for}

-- `upstream::Gate`, without the caches of its HTTP client
pub record Gate : Type 0 where
  pub cfg : UpstreamConfig
  pub key : Bytes
  pub redirect_uri : String
  pub cookie_path : String
  pub secure : Bool

pub record AppState : Type 0 where
  pub config : Config
  pub key : SigningKey
  pub gate : Option Gate
  pub issuer_str : String

-- The readings of the clock and the random tokens of one request, numbered by their call sites in
-- the handler.
pub record Env : Type 0 where
  pub now : ℕ → Instant
  pub random : ℕ → String

abbrev pub client_of : ClientConfig → Client
client_of c = record {
  client_id = c.client_id;
  client_secret = c.client_secret;
  redirect_uris = c.redirect_uris;
}

-- The store of `AppState::new`: the clients of the configuration.
unfoldable pub add_clients : List ClientConfig → Store → Store
add_clients [] s = s
add_clients (c ∷ cs) s =
    add_clients cs (record s { clients = insert c.client_id (client_of c) s.clients })

unfoldable pub initial_store : Config → Store
unfolding add_clients
initial_store config = add_clients config.clients Data.empty

-- `AppState::issuer_for`, `issuer_check` and `token_issuer`
unfoldable pub app_issuer_for : AppState → String → String
unfolding issuer_for
app_issuer_for app base = issuer_for app.config (some base)

unfoldable pub issuer_check : AppState → IssuerCheck
issuer_check app =
    if app.config.issuer_from_request_host
    then path_only app.config.issuer_path
    else exact app.issuer_str

unfoldable pub token_issuer : AppState → String → Issuer
token_issuer app issuer = record {
  key = app.key;
  issuer = issuer;
  access_ttl = app.config.access_token_ttl;
  id_ttl = app.config.id_token_ttl;
  default_claims = app.config.default_claims;
}

-- A route that fails with an `OAuthError`.
abbrev pub Route : Type 0 → Type 0
Route A = Handler Store OAuthError A
