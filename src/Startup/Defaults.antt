-- ===== src/Startup/Defaults.antt =====
-- The server starts without any setting (`main` of src/main.rs).
use nano_mockidp.Base.{none, [], ◌≡◌, refl}
use nano_mockidp.Base.Text.{trim, trim_end_slashes}
use nano_mockidp.Base.Map.{get}
use nano_mockidp.Base.Result.{ok}
use nano_mockidp.Config.GateSound.{IsAbsolute}
use nano_mockidp.Config.Parse.{Readers, parse_url}
use nano_mockidp.Crates.{Crates, Url, random}
use nano_mockidp.Startup.{App, Machine, start}
use nano_mockidp.Store.Data.{empty}

module _ (lib : Crates) (readers : Readers) (machine : Machine) (url : Url)
    (parses : lib.parse_url "http://localhost:8080" ≡ ok url) (absolute : IsAbsolute url) where
  default_url : parse_url lib "ISSUER_URL" "http://localhost:8080" ≡ ok url
  unfolding parse_url trim trim_end_slashes
  default_url =
      rw (parses, absolute.has_host, absolute.is_base, absolute.no_query, absolute.no_fragment) refl

  -- Without any setting the server starts: at port 8080, with a random key, without a gate and with
  -- an empty store, if the default URL is one and the default log filter is valid.
  pub start_defaults :
      machine.filter_error "info" ≡ none
      → (app : App) × (start lib readers machine [] ≡ ok app)
        × (app.state.config.port ≡ 8080)
        × (app.state.key.source ≡ random)
        × (app.state.gate ≡ none)
        × (app.store ≡ empty)
  unfolding start get
  start_defaults valid = rw parses (
      rw (absolute.is_base, absolute.has_host)
        (rw (absolute.no_query, absolute.no_fragment) (rw valid (_, refl, refl, refl, refl, refl))))
