-- ===== src/Startup/Built.antt =====
-- What a server that has started is, and stays.
use mathlib.Core.Path.{subst}
use nano_mockidp.Base.{
  String, true, false, Option, List, ◌≡◌, refl, is_none, Option-cases, inl, inr,
}
use nano_mockidp.Base.Bytes.{Bytes}
use nano_mockidp.Base.Result.{Result, ok, err, bind-eq-ok, ok-injective}
use nano_mockidp.Config.{Config}
use nano_mockidp.Config.Load.{from_map}
use nano_mockidp.Config.Parse.{Readers, Settings}
use nano_mockidp.Config.Sound.{IsSound, from_map_sound}
use nano_mockidp.Crates.{Crates}
use nano_mockidp.Keys.{load}
use nano_mockidp.Keys.Published.{IsMade, source_of, load_source}
use nano_mockidp.Routes.TokenForm.{TokenForm}
use nano_mockidp.Server.{Event, serve_all}
use nano_mockidp.Server.Kept.{IsKept}
use nano_mockidp.Server.Tables.{initial_store-IsKept}
use nano_mockidp.Server.Vouched.{OneSignsIn, serve_all-IsKept}
use nano_mockidp.Startup.{
  App, Machine, gate_new, only_gate, upstream_new, filter_read, app_new, start,
}
use nano_mockidp.State.{Gate, initial_store}
use nano_mockidp.Token.Jws.{map_err}
use nano_mockidp.Upstream.Wire.{Caches}

-- A server that is up: its settings are sound, its key is what they ask for, it has a gate exactly
-- if they have one, and its store is that of the settings.
pub record IsUp (lib : Crates) (machine : Machine) (app : App) : Type 0 where
  pub config : IsSound app.state.config
  pub key : IsMade lib machine.keys (source_of app.state.config) app.state.key
  pub gate : is_none app.state.gate ≡ is_none app.state.config.upstream
  pub store : app.store ≡ initial_store app.state.config

map_err-eq-ok :
    {A : Type 0} (prefix : String) (r : Result String A) {a : A}
    → map_err prefix r ≡ ok a
    → r ≡ ok a
map_err-eq-ok prefix (ok a) h = h
map_err-eq-ok prefix (err e) h = cc

gate_new_gate :
    (machine : Machine) (config : Config) (built : Option (Gate × Caches))
    → gate_new machine config ≡ ok built
    → is_none (only_gate built) ≡ is_none config.upstream
unfolding gate_new
gate_new_gate machine config built h = elim (Option-cases config.upstream) [
  | inl off ↦
      rw off
        (subst (λ b. is_none (only_gate b) ≡ true) (ok-injective (rw (gate_new, off) at h)) refl)
  | inr (up, on) ↦
      let (caches, made, same) = bind-eq-ok (upstream_new machine up) _ (rw (gate_new, on) at h) in
      rw on (subst (λ b. is_none (only_gate b) ≡ false) (ok-injective same) refl)
]

module _ (lib : Crates) (readers : Readers) (machine : Machine) (env : Settings) (app : App) where
  pub start-IsUp : start lib readers machine env ≡ ok app → IsUp lib machine app
  unfolding start app_new
  start-IsUp h =
      let (config, read, h₁) =
        bind-eq-ok (map_err "configuration error: " (from_map lib readers env)) _ h in
      let (_, _, h₀) =
        bind-eq-ok (filter_read lib config.log_level (machine.filter_error config.log_level)) _
          h₁ in
      let built = map_err-eq-ok "startup error: " (app_new lib machine config) h₀ in
      let (key, loaded, h₂) = bind-eq-ok (load lib machine.keys config) _ built in
      let (gate, gated, same) = bind-eq-ok (gate_new machine config) _ h₂ in
      subst (IsUp lib machine) (ok-injective same) (record {
        config =
            from_map_sound lib readers env config
              (map_err-eq-ok "configuration error: " (from_map lib readers env) read);
        key = load_source lib machine.keys config key loaded;
        gate = gate_new_gate machine config gate gated;
        store = refl;
      })

  -- Nothing gets past the gate of a server that starts: if its settings have the gate, then after any
  -- sequence of requests and sweeps, every stored code names a subject of the upstream with whose
  -- gate cookie, valid at that time, one of these requests was a login; and every refresh token
  -- names such a subject too, unless it is one of a client of the settings that has a secret. With
  -- or without the gate, no table has two entries for a key.
  pub serve_all-start :
      (form_of : Bytes → Result String TokenForm) (es : List Event)
      → start lib readers machine env ≡ ok app
      → IsKept
          (OneSignsIn lib app.state es)
          app.state.config
          (serve_all lib form_of app.state es app.store)
  serve_all-start form_of es h =
      let up = start-IsUp h in
      serve_all-IsKept (OneSignsIn lib app.state es) lib form_of app.state up.gate es app.store
        (λ sub signs. signs)
        (rw up.store (initial_store-IsKept (OneSignsIn lib app.state es) app.state.config))
