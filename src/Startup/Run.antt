-- ===== src/Startup/Run.antt =====
-- What a run of the process does: when it serves, and when it warns of a guessable signing key
-- (src/main.rs).
use mathlib.Core.Path.{subst}
use text.Mathlib.Text.{starts_with}
use nano_mockidp.Base.{
  String, Bool, true, false, ◌||◌, ◌&&◌, Option, none, some, List, [], ◌∷◌, ◌++◌, ◌≡◌, ◌↔◌, ◌⊎◌,
  refl, any, is_some, Option-cases, inl, inr, arith, ap, sym, ◌∙◌,
}
use nano_mockidp.Base.Text.{◌⊕◌, decimal}
use nano_mockidp.Base.Holds.{some-injective}
use nano_mockidp.Base.Map.{get}
use nano_mockidp.Base.Result.{ok, err, ok-injective, Result-cases}
use nano_mockidp.Config.{Config, UpstreamConfig}
use nano_mockidp.Config.Load.{from_map}
use nano_mockidp.Config.Parse.{Readers, Settings}
use nano_mockidp.Crates.{Crates, SigningKey, KeySource, random, seed, pem}
use nano_mockidp.Keys.{from_private}
use nano_mockidp.Keys.Published.{source_of}
use nano_mockidp.Router.{Mount, router}
use nano_mockidp.Startup.{App, Machine, start, app_new}
use nano_mockidp.Startup.Built.{start-IsUp}
use nano_mockidp.Startup.Program.{
  Output, printed, logged, info, warn, error, Host, Running, Outcome, main, starting, opening_lines,
  gate_lines, offline_lines, serve_lines, listen, launched, failed, build,
}

abbrev pub warns_of_seed : Output → Bool
warns_of_seed (printed line) = false
warns_of_seed (logged info fields msg) = false
warns_of_seed (logged warn fields msg) = starts_with msg "upstream gate is on"
warns_of_seed (logged error fields msg) = false

any-append : (p : Output → Bool) (xs ys : List Output) → any p (xs ++ ys) ≡ (any p xs || any p ys)
any-append p [] ys = refl
any-append p (x ∷ xs) ys = ground (arith, any-append p xs ys)

append_silent :
    (p : Output → Bool) (xs ys : List Output) → any p ys ≡ false → any p (xs ++ ys) ≡ any p xs
append_silent p xs ys h = ground (arith, any-append p xs ys, h)

offline_silent : (env : Settings) → any warns_of_seed (offline_lines env) ≡ false
offline_silent env = elim (Option-cases (get "REQUIRE_OFFLINE_ACCESS" env)) [
  | inl unset ↦ rw unset refl
  | inr (v, set) ↦ rw set refl
]

serve_silent : (served : Option String) → any warns_of_seed (serve_lines served) ≡ false
serve_silent none = refl
serve_silent (some e) = refl

abbrev is_seed : KeySource → Bool
is_seed seed = true
is_seed random = false
is_seed pem = false

module _ (lib : Crates) (readers : Readers) (machine : Machine) (host : Host) (env : Settings) where
  start_built :
      (config : Config) (built : App)
      → from_map lib readers env ≡ ok config
      → machine.filter_error config.log_level ≡ none
      → app_new lib machine config ≡ ok built
      → start lib readers machine env ≡ ok built
  unfolding start
  start_built config built read valid made = rw read (rw valid (rw made refl))

  main_built :
      (config : Config) (built : App)
      → from_map lib readers env ≡ ok config
      → machine.filter_error config.log_level ≡ none
      → app_new lib machine config ≡ ok built
      → main lib readers machine host env
        ≡ launched lib readers machine host env built (router built.state)
  unfolding main build
  main_built config built read valid made = rw (main, read) (rw valid (rw (build, made) refl))

  -- The process does what `start` says: it launches what has been built, or exits with status 2.
  main_starts :
      ((app : App) × (start lib readers machine env ≡ ok app)
        × (main lib readers machine host env
            ≡ launched lib readers machine host env app (router app.state)))
      ⊎ ((e : String) × (o : Output) × (start lib readers machine env ≡ err e)
          × (main lib readers machine host env ≡ failed lib readers machine host o)
          × (warns_of_seed o ≡ false))
  unfolding main start build
  main_starts = elim (Result-cases (from_map lib readers env)) [
    | inr (e, unread) ↦ inr (
      "configuration error: " ⊕ e,
      printed ("configuration error: " ⊕ e),
      rw unread refl,
      rw (main, unread) refl,
      refl,
    )
    | inl (config, read) ↦ elim (Option-cases (machine.filter_error config.log_level)) [
      | inr (e, invalid) ↦
          let line = "LOG_LEVEL: invalid filter " ⊕ lib.debug config.log_level ⊕ ": " ⊕ e in
          inr
            (line, printed line, rw read (rw invalid refl), rw (main, read) (rw invalid refl), refl)
      | inl valid ↦ elim (Result-cases (app_new lib machine config)) [
        | inr (e, unbuilt) ↦ inr (
          "startup error: " ⊕ e,
          logged error [] ("startup error: " ⊕ e),
          rw read (rw valid (rw unbuilt refl)),
          rw (main, read) (rw valid (rw (build, unbuilt) refl)),
          refl,
        )
        | inl (built, made) ↦ inl (
          built,
          start_built config built read valid made,
          main_built config built read valid made,
        )
      ]
    ]
  ]

  listen_silent :
      (before : List Output) (app : App) (mounts : List Mount) (taken : Option String)
      → any warns_of_seed (listen lib readers machine host before app mounts taken).outputs
        ≡ any warns_of_seed before
  listen_silent before app mounts (some e) = append_silent warns_of_seed before _ refl
  listen_silent before app mounts none =
      append_silent warns_of_seed before
        (logged info (("port", decimal app.state.config.port) ∷ []) "listening"
          ∷ serve_lines host.serve)
        (serve_silent host.serve)

  launched_warns :
      (app : App) (mounts : List Mount)
      → any warns_of_seed (launched lib readers machine host env app mounts).outputs
        ≡ any warns_of_seed (gate_lines lib app.state.config.upstream app.state.key.source)
  unfolding launched starting
  launched_warns app mounts =
      listen_silent (opening_lines lib env app.state) app mounts (host.bind app.state.config.port)
      ∙ append_silent warns_of_seed (gate_lines lib app.state.config.upstream app.state.key.source)
          (offline_lines env) (offline_silent env)

  gate_warns :
      (up : Option UpstreamConfig) (source : KeySource)
      → any warns_of_seed (gate_lines lib up source) ≡ (is_some up && is_seed source)
  gate_warns none source = refl
  gate_warns (some up) random = refl
  gate_warns (some up) seed = refl
  gate_warns (some up) pem = refl

  listen_serves :
      (before : List Output) (app : App) (mounts : List Mount) (taken : Option String) (r : Running)
      → ((listen lib readers machine host before app mounts taken).serving ≡ some r) ↔ (
          (taken ≡ none)
          × (r ≡ record { app = app; mounts = mounts; port = app.state.config.port }))
  listen_serves before app mounts (some e) r = (λ h. absurd cc, λ (free, same). absurd cc)
  listen_serves before app mounts none r =
      (λ h. (refl, sym (some-injective h)), λ (free, same). ap some (sym same))

  main_launches :
      (app : App)
      → start lib readers machine env ≡ ok app
      → main lib readers machine host env
        ≡ launched lib readers machine host env app (router app.state)
  main_launches app h = elim main_starts [
    | inl (built, made, runs) ↦
        subst
          (λ (a : App).
            main lib readers machine host env
            ≡ launched lib readers machine host env a (router a.state))
          (ok-injective (sym made ∙ h)) runs
    | inr (e, o, unbuilt, stops, silent) ↦ absurd cc
  ]

  source_made :
      (app : App)
      → start lib readers machine env ≡ ok app
      → app.state.key.source ≡ source_of app.state.config
  unfolding from_private
  source_made app h =
      let (private, made) = (start-IsUp lib readers machine env app h).key in
      ap (λ (k : SigningKey). k.source) (sym made)

  main_warns :
      (app : App)
      → start lib readers machine env ≡ ok app
      → any warns_of_seed (main lib readers machine host env).outputs
        ≡ (is_some app.state.config.upstream && is_seed (source_of app.state.config))
  main_warns app h =
      ap (λ (o : Outcome). any warns_of_seed o.outputs) (main_launches app h)
      ∙ launched_warns app (router app.state)
      ∙ gate_warns app.state.config.upstream app.state.key.source
      ∙ ap (λ k. is_some app.state.config.upstream && is_seed k) (source_made app h)

  -- A run of the program serves exactly if its start succeeds and the port of the settings can be bound,
  -- and then it serves what the start has built, with the routes of its settings, at that port.
  pub main_serves_iff :
      (r : Running)
      → ((main lib readers machine host env).serving ≡ some r) ↔ (
          (app : App) × (start lib readers machine env ≡ ok app)
          × (host.bind app.state.config.port ≡ none)
          × (r ≡ record { app = app; mounts = router app.state; port = app.state.config.port }))
  unfolding launched
  main_serves_iff r = (
    λ h. elim main_starts [
      | inl (app, built, runs) ↦
          let (free, same) = (listens app).0 (ap (λ (o : Outcome). o.serving) (sym runs) ∙ h) in
          (app, built, free, same)
      | inr (e, o, unbuilt, stops, silent) ↦
          absurd (none_serving (ap (λ (o : Outcome). o.serving) (sym stops) ∙ h))
    ],
    λ (app, built, free, same).
        ap (λ (o : Outcome). o.serving) (main_launches app built) ∙ (listens app).1 (free, same),
  )
    where
      listens :
          (app : App)
          → ((launched lib readers machine host env app (router app.state)).serving ≡ some r) ↔ (
              (host.bind app.state.config.port ≡ none)
              × (r ≡ record { app = app; mounts = router app.state; port = app.state.config.port }))
      listens app =
          listen_serves (opening_lines lib env app.state) app (router app.state)
            (host.bind app.state.config.port) r

      none_serving : ◌≡◌ {A = Option Running} none (some r) → ⊥
      none_serving h = cc

  pub main_warns_iff : (any warns_of_seed (main lib readers machine host env).outputs ≡ true) ↔ (
      (app : App) × (start lib readers machine env ≡ ok app)
      × (is_some app.state.config.upstream ≡ true)
      × (source_of app.state.config ≡ seed))
  main_warns_iff = (
    λ h. elim main_starts [
      | inl (app, built, runs) ↦
          let (on, seeded) =
            both (is_some app.state.config.upstream) (source_of app.state.config)
              (sym (main_warns app built) ∙ h) in
          (app, built, on, seeded)
      | inr (e, o, unbuilt, stops, silent) ↦
          absurd
            (stopped o silent (ap (λ (t : Outcome). any warns_of_seed t.outputs) (sym stops) ∙ h))
    ],
    λ (app, built, on, seeded). main_warns app built ∙ rw on (rw seeded refl),
  )
    where
      both : (b : Bool) (k : KeySource) → (b && is_seed k) ≡ true → (b ≡ true) × (k ≡ seed)
      both false k h = absurd cc
      both true random h = absurd cc
      both true seed h = (refl, refl)
      both true pem h = absurd cc

      stopped : (o : Output) → warns_of_seed o ≡ false → any warns_of_seed (o ∷ []) ≡ true → ⊥
      stopped o silent h = ground (arith, silent)
