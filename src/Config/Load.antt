-- ===== src/Config/Load.antt =====
-- `Config::from_map` of src/config.rs.
use nano_mockidp.Base.{ℕ, String, true, false, Option, none, some, List, [], ◌∷◌, unwrap_or}
use nano_mockidp.Base.Text.{trim, trim_end_slashes}
use nano_mockidp.Base.Bytes.{as_bytes}
use nano_mockidp.Base.Result.{Result, ok, err, ◌>>=◌}
use nano_mockidp.Config.{Config, ClientConfig}
use nano_mockidp.Config.Parse.{
  Readers, Settings, setting, or_default, parse_bool, flag, parse_url, parse_seconds, parse_port,
  comma_list,
}
use nano_mockidp.Config.UpstreamSettings.{parse_upstream, trimmed}
use nano_mockidp.Crates.{Crates, Url}
use nano_mockidp.Json.{Value, object, entries, Claims}
use nano_mockidp.Token.Jws.{map_err}

abbrev object_claims : Value → Result String Claims
object_claims (object fs) = ok (entries fs)
object_claims _ = err "DEFAULT_CLAIMS: must be a JSON object"

module _ (lib : Crates) (readers : Readers) where
  unfoldable pub parse_default_claims : String → Result String Claims
  parse_default_claims v =
      map_err "DEFAULT_CLAIMS: invalid JSON: " (lib.from_slice (as_bytes v)) >>= object_claims

  unfoldable pub parse_clients : String → Result String (List ClientConfig)
  parse_clients v = map_err "CLIENTS: invalid JSON: " (readers.clients v)

  abbrev pub parse_internal : Option String → Result String (Option Url)
  parse_internal none = ok none
  parse_internal (some v) = do url ← parse_url lib "INTERNAL_URL" v; ok (some url)

  abbrev pub seconds : Settings → String → ℕ → Result String ℕ
  seconds m name default = or_default (parse_seconds lib readers name) default (setting m name)

  -- `from_map`
  unfoldable pub from_map : Settings → Result String Config
  unfolding setting trim trim_end_slashes parse_port parse_url parse_bool parse_clients
      parse_default_claims parse_seconds comma_list parse_upstream
  from_map m = do
    port ← or_default (parse_port lib readers) 8080 (setting m "PORT")
    issuer_url ←
        parse_url lib "ISSUER_URL" (unwrap_or (setting m "ISSUER_URL") "http://localhost:8080")
    endpoints_from_request_host ←
        or_default (flag "ENDPOINTS_FROM_REQUEST_HOST") true
          (setting m "ENDPOINTS_FROM_REQUEST_HOST")
    issuer_from_request_host ←
        or_default (flag "ISSUER_FROM_REQUEST_HOST") false (setting m "ISSUER_FROM_REQUEST_HOST")
    internal_url ← parse_internal (setting m "INTERNAL_URL")
    strict ← or_default (flag "STRICT") false (setting m "STRICT")
    clients ← or_default parse_clients [] (setting m "CLIENTS")
    default_claims ← or_default parse_default_claims [] (setting m "DEFAULT_CLAIMS")
    access_token_ttl ← seconds m "ACCESS_TOKEN_TTL" 3600
    id_token_ttl ← seconds m "ID_TOKEN_TTL" 3600
    refresh_token_ttl ← seconds m "REFRESH_TOKEN_TTL" 2592000
    upstream ← parse_upstream lib readers m
    ok (record {
      port = port;
      issuer_url = issuer_url;
      issuer_path = trim_end_slashes issuer_url.path;
      endpoints_from_request_host = endpoints_from_request_host;
      issuer_from_request_host = issuer_from_request_host;
      internal_url = internal_url;
      strict = strict;
      admin_token = trimmed (setting m "ADMIN_TOKEN");
      clients = clients;
      login_page_path = setting m "LOGIN_PAGE_PATH";
      default_claims = default_claims;
      upstream = upstream;
      access_token_ttl = access_token_ttl;
      id_token_ttl = id_token_ttl;
      refresh_token_ttl = refresh_token_ttl;
      signing_key_seed = setting m "SIGNING_KEY_SEED";
      signing_key_pem = setting m "SIGNING_KEY_PEM";
      signing_key_path = setting m "SIGNING_KEY_PATH";
      cors_allowed_origins = elim (setting m "CORS_ALLOWED_ORIGINS") [
        | some v ↦ comma_list v
        | none ↦ "*" ∷ []
      ];
      log_level = unwrap_or (setting m "LOG_LEVEL") "info";
    })
