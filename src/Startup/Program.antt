-- ===== src/Startup/Program.antt =====
-- The process: `main` of src/main.rs, `build` of src/lib.rs, and what they log.
use nano_mockidp.Base.{
  ℕ, String, Bool, true, false, Option, none, some, List, [], ◌∷◌, ◌++◌, if◌then◌else◌, is_some,
}
use nano_mockidp.Base.Map.{get}
use nano_mockidp.Base.Text.{◌⊕◌, decimal}
use nano_mockidp.Base.Result.{Result, ok, err, ◌>>=◌}
use nano_mockidp.Config.{Config, UpstreamConfig}
use nano_mockidp.Config.Load.{from_map}
use nano_mockidp.Config.Parse.{Readers, Settings}
use nano_mockidp.Crates.{Crates, KeySource, random, seed, pem}
use nano_mockidp.Router.{Mount, router}
use nano_mockidp.Startup.{App, Machine, app_new}
use nano_mockidp.State.{AppState}

pub data Level : Type 0 where
  info warn error : Level

-- What the process writes: a line on its standard error, or a log event with its fields.
pub data Output : Type 0 where
  printed : String → Output
  logged : Level → List (String × String) → String → Output

-- The network: the error of binding a port, and that of serving, if there is one.
pub record Host : Type 0 where
  pub bind : ℕ → Option String
  pub serve : Option String

-- What is served, and where.
pub record Running : Type 0 where
  pub app : App
  pub mounts : List Mount
  pub port : ℕ

-- A run of the process: what it wrote, its exit status, and what it served.
pub record Outcome : Type 0 where
  pub outputs : List Output
  pub status : ℕ
  pub serving : Option Running

-- `KeySource::fmt`
unfoldable pub source_text : KeySource → String
source_text random = "random"
source_text seed = "seed"
source_text pem = "pem"

abbrev bool_text : Bool → String
bool_text true = "true"
bool_text false = "false"

abbrev pub seed_warning : Output
seed_warning = logged warn [] (
    "upstream gate is on but the signing key comes from SIGNING_KEY_SEED: anyone "
    ⊕ "who guesses the seed can mint tokens without passing the gate; use "
    ⊕ "SIGNING_KEY_PEM or SIGNING_KEY_PATH on public instances")

abbrev pub warn_of_seed : KeySource → List Output
warn_of_seed random = []
warn_of_seed seed = seed_warning ∷ []
warn_of_seed pem = []

abbrev pub offline_lines : Settings → List Output
offline_lines env =
    if is_some (get "REQUIRE_OFFLINE_ACCESS" env)
    then logged warn [] (
        "REQUIRE_OFFLINE_ACCESS is ignored since 0.6.1: refresh tokens are online, "
        ⊕ "or offline when scope has offline_access")
      ∷ []
    else []

abbrev pub serve_lines : Option String → List Output
serve_lines none = []
serve_lines (some e) = logged error [] ("server error: " ⊕ e) ∷ []

module _ (lib : Crates) where
  -- The `Debug` text of `require_claim`
  abbrev debug_claim : Option (String × String) → String
  debug_claim none = "None"
  debug_claim (some (path, value)) = "Some((" ⊕ lib.debug path ⊕ ", " ⊕ lib.debug value ⊕ "))"

  unfoldable pub starting : AppState → Output
  unfolding source_text
  starting app =
      logged info
        (("kid", app.key.kid)
          ∷ ("key_source", source_text app.key.source)
          ∷ ("issuer", app.issuer_str)
          ∷ ("strict", bool_text app.config.strict)
          ∷ [])
        "nano-mockidp starting"

  abbrev pub gate_lines : Option UpstreamConfig → KeySource → List Output
  gate_lines none source = []
  gate_lines (some up) source =
      logged info
        (("upstream", up.issuer)
          ∷ ("client_id", up.client_id)
          ∷ ("require_claim", debug_claim up.require_claim)
          ∷ [])
        "upstream gate on"
      ∷ warn_of_seed source

  -- What is logged before the port is bound.
  abbrev pub opening_lines : Settings → AppState → List Output
  unfolding starting
  opening_lines env app =
      starting app ∷ (gate_lines app.config.upstream app.key.source ++ offline_lines env)

  -- `build`
  unfoldable pub build : Machine → Config → Result String (App × List Mount)
  unfolding app_new router
  build machine config = do app ← app_new lib machine config; ok (app, router app.state)

  module _ (readers : Readers) (machine : Machine) (host : Host) where
    -- The `match` on the bound listener, and the serving; `exit(1)` if the port cannot be bound.
    abbrev pub listen : List Output → App → List Mount → Option String → Outcome
    listen before app mounts (some e) = record {
      outputs =
          before
          ++ (logged error [] ("cannot bind port " ⊕ decimal app.state.config.port ⊕ ": " ⊕ e)
              ∷ []);
      status = 1;
      serving = none;
    }
    listen before app mounts none = record {
      outputs =
          before
          ++ (logged info (("port", decimal app.state.config.port) ∷ []) "listening"
              ∷ serve_lines host.serve);
      status = 0;
      serving = some (record { app = app; mounts = mounts; port = app.state.config.port });
    }

    -- `main` once the state is built
    unfoldable pub launched : Settings → App → List Mount → Outcome
    launched env app mounts =
        listen (opening_lines env app.state) app mounts (host.bind app.state.config.port)

    -- `std::process::exit(2)`
    abbrev pub failed : Output → Outcome
    failed output = record { outputs = output ∷ []; status = 2; serving = none }

    unfoldable pub main : Settings → Outcome
    unfolding from_map build launched
    main env = elim (from_map lib readers env) [
      | err e ↦ failed (printed ("configuration error: " ⊕ e))
      | ok config ↦ elim (machine.filter_error config.log_level) [
        | some e ↦
            failed (printed ("LOG_LEVEL: invalid filter " ⊕ lib.debug config.log_level ⊕ ": " ⊕ e))
        | none ↦ elim (build machine config) [
          | err e ↦ failed (logged error [] ("startup error: " ⊕ e))
          | ok (app, mounts) ↦ launched env app mounts
        ]
      ]
    ]
