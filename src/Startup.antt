-- ===== src/Startup.antt =====
-- What is built at start-up: `AppState::new` of src/state.rs, `Gate::new` of src/upstream/mod.rs,
-- `Upstream::new` of src/upstream/client.rs, and the chain of src/main.rs and src/lib.rs.
pub mod Built
pub mod Defaults
pub mod Program
pub mod Run
use nano_mockidp.Base.{
  String, Bool, true, false, Option, none, some, List, [], ◌∷◌, ◌==◌, if◌then◌else◌,
}
use nano_mockidp.Base.Bytes.{Bytes}
use nano_mockidp.Base.Text.{◌⊕◌}
use nano_mockidp.Base.Result.{Result, ok, err, ◌>>=◌}
use nano_mockidp.Config.{Config, UpstreamConfig, issuer}
use nano_mockidp.Config.Load.{from_map}
use nano_mockidp.Config.Parse.{Readers, Settings}
use nano_mockidp.Crates.{Crates}
use nano_mockidp.Keys.{KeyStore, load}
use nano_mockidp.State.{AppState, Gate, initial_store}
use nano_mockidp.Store.Data.{Store}
use nano_mockidp.Token.Jws.{map_err, check}
use nano_mockidp.Upstream.Wire.{Caches, no_caches}

-- What the HTTP client of the gate is built with: the file system, the certificates of a PEM bundle,
-- the errors of the client's builder given the extra certificates, and the gate's random key.
pub record Machine : Type 0 where
  pub keys : KeyStore
  pub read : String → Result String Bytes
  pub from_pem_bundle : Bytes → Result String (List Bytes)
  pub build_client : List Bytes → Option String
  pub gate_key : Bytes
  -- `Targets::from_str` of tracing-subscriber: the error, if a filter is invalid
  pub filter_error : String → Option String

abbrev is_empty : List Bytes → Bool
is_empty [] = true
is_empty (c ∷ cs) = false

-- `if let Some(path) = &cfg.ca_path`
unfoldable pub extra_certificates : Machine → Option String → Result String (List Bytes)
extra_certificates machine none = ok []
extra_certificates machine (some path) = do
  bundle ← map_err ("UPSTREAM_CA_PATH: cannot read " ⊕ path ⊕ ": ") (machine.read path)
  certs ← map_err "UPSTREAM_CA_PATH: " (machine.from_pem_bundle bundle)
  if is_empty certs then err ("UPSTREAM_CA_PATH: no certificates in " ⊕ path) else ok certs

abbrev client_built : Option String → Result String Caches
client_built none = ok no_caches
client_built (some e) = err ("upstream HTTP client: " ⊕ e)

-- `Upstream::new`
unfoldable pub upstream_new : Machine → UpstreamConfig → Result String Caches
unfolding extra_certificates
upstream_new machine cfg = do
  certs ← extra_certificates machine cfg.ca_path
  client_built (machine.build_client certs)

-- The gate, whose caches are a part of the state.
abbrev pub new_gate : Machine → Config → UpstreamConfig → Gate
unfolding issuer
new_gate machine config up = record {
  cfg = up;
  key = machine.gate_key;
  redirect_uri = issuer config ⊕ "/upstream/callback";
  cookie_path = if config.issuer_path == "" then "/" else config.issuer_path;
  secure = config.issuer_url.scheme == "https";
}

-- `Gate::new`
unfoldable pub gate_new : Machine → Config → Result String (Option (Gate × Caches))
unfolding upstream_new
gate_new machine config = elim config.upstream [
  | none ↦ ok none
  | some up ↦ do caches ← upstream_new machine up; ok (some (new_gate machine config up, caches))
]

-- The application: the fixed part, the store behind its lock, and the caches of the gate.
pub record App : Type 0 where
  pub state : AppState
  pub store : Store
  pub caches : Caches

abbrev pub gate_caches : Option (Gate × Caches) → Caches
gate_caches none = no_caches
gate_caches (some (gate, caches)) = caches

abbrev pub only_gate : Option (Gate × Caches) → Option Gate
only_gate none = none
only_gate (some (gate, caches)) = some gate

module _ (lib : Crates) where
  -- `AppState::new`, with the feature `upstream`
  unfoldable pub app_new : Machine → Config → Result String App
  unfolding load initial_store gate_new issuer
  app_new machine config = do
    key ← load lib machine.keys config
    gate ← gate_new machine config
    ok (record {
      state = record {
        config = config;
        key = key;
        gate = only_gate gate;
        issuer_str = issuer config;
      };
      store = initial_store config;
      caches = gate_caches gate;
    })

  abbrev pub filter_read : String → Option String → Result String (Unit {0})
  filter_read level none = ok tt
  filter_read level (some e) = err ("LOG_LEVEL: invalid filter " ⊕ lib.debug level ⊕ ": " ⊕ e)

  -- `main` until the server listens: an error is what it prints before it exits with status 2.
  unfoldable pub start : Readers → Machine → Settings → Result String App
  unfolding from_map app_new
  start readers machine env = do
    config ← map_err "configuration error: " (from_map lib readers env)
    filter ← filter_read config.log_level (machine.filter_error config.log_level)
    map_err "startup error: " (app_new machine config)
