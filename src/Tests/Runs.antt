-- ===== src/Tests/Runs.antt =====
-- Applications of the theorems on a run of the process (src/main.rs), for settings with the gate and a seed.
use nano_mockidp.Base.{refl, true, none, some, ◌≡◌, ◌↔◌, any, is_some}
use nano_mockidp.Base.Map.{get}
use nano_mockidp.Crates.{seed}
use nano_mockidp.Keys.Published.{source_of}
use nano_mockidp.Base.Result.{ok}
use nano_mockidp.Router.{router}
use nano_mockidp.Startup.{App, start}
use nano_mockidp.Startup.Program.{Host, Running, main}
use nano_mockidp.Startup.Run.{warns_of_seed, main_serves_iff, main_warns_iff}
use nano_mockidp.Tests.Fixture.{lib}
use nano_mockidp.Tests.Servers.{readers, machine, settings, server, starts}

abbrev host : Host
host = record { bind = λ port. none; serve = none }

abbrev run : Running
run = record { app = server; mounts = router server.state; port = 8081 }

main_serves_iff_example : ((main lib readers machine host settings).serving ≡ some run) ↔ (
    (app : App) × (start lib readers machine settings ≡ ok app)
    × (host.bind app.state.config.port ≡ none)
    × (run ≡ record { app = app; mounts = router app.state; port = app.state.config.port }))
main_serves_iff_example = main_serves_iff lib readers machine host settings run

main_warns_iff_example :
    (any warns_of_seed (main lib readers machine host settings).outputs ≡ true) ↔ (
      (app : App) × (start lib readers machine settings ≡ ok app)
      × (is_some app.state.config.upstream ≡ true)
      × (source_of app.state.config ≡ seed))
main_warns_iff_example = main_warns_iff lib readers machine host settings

serves_settings : (main lib readers machine host settings).serving ≡ some run
unfolding get start
serves_settings = main_serves_iff_example.1 (server, starts, refl, refl)

warns_settings : any warns_of_seed (main lib readers machine host settings).outputs ≡ true
unfolding get start
warns_settings = main_warns_iff_example.1 (server, starts, refl, refl)
