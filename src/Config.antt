-- ===== src/Config.antt =====
-- src/config.rs: the settings; the children read them from the environment.
pub mod Parse
pub mod UpstreamSettings
pub mod Load
pub mod GateSound
pub mod Sound
pub mod Numbers
use nano_mockidp.Base.{ℕ, String, Bool, Option, List}
use nano_mockidp.Base.Text.{trim_end_slashes}
use nano_mockidp.Crates.{Url}
use nano_mockidp.Json.{Claims}

pub record ClientConfig : Type 0 where
  pub client_id : String
  pub client_secret : Option String
  pub redirect_uris : Option (List String)

pub record UpstreamConfig : Type 0 where
  pub issuer : String
  pub client_id : String
  pub client_secret : Option String
  pub scope : String
  pub require_claim : Option (String × String)
  pub session_ttl : ℕ
  pub sub_token_claim : Option String
  pub forward_claims : List String
  pub ca_path : Option String

pub record Config : Type 0 where
  pub port : ℕ
  pub issuer_url : Url
  pub issuer_path : String
  pub endpoints_from_request_host : Bool
  pub issuer_from_request_host : Bool
  pub internal_url : Option Url
  pub strict : Bool
  pub admin_token : Option String
  pub clients : List ClientConfig
  pub login_page_path : Option String
  pub default_claims : Claims
  pub upstream : Option UpstreamConfig
  pub access_token_ttl : ℕ
  pub id_token_ttl : ℕ
  pub refresh_token_ttl : ℕ
  pub signing_key_seed : Option String
  pub signing_key_pem : Option String
  pub signing_key_path : Option String
  pub cors_allowed_origins : List String
  pub log_level : String

-- `Config::issuer`
unfoldable pub issuer : Config → String
issuer cfg = trim_end_slashes cfg.issuer_url.text
