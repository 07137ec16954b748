-- ===== src/Config/Sound.antt =====
-- What every configuration that is read guarantees (`Config::from_map` of src/config.rs).
use mathlib.Core.Path.{subst}
use nano_mockidp.Base.{
  ℕ, ◌<◌, ◌^◌, String, true, false, Option, none, some, [], ◌≡◌, arith, ◌==◌, Option-cases, inl,
  inr, unwrap_or,
}
use nano_mockidp.Base.Holds.{OnSome}
use nano_mockidp.Base.Text.{trim, trim_end_slashes}
use nano_mockidp.Base.Result.{ok, bind-eq-ok, ok_or-eq-ok, ok-injective}
use nano_mockidp.Config.{Config}
use nano_mockidp.Config.GateSound.{
  IsAbsolute, IsSoundGate, parse_url-IsAbsolute, seconds_below, parse_gate_sound, trimmed-setting,
  trim_end_slashes_idempotent, parse_below-lt,
}
use nano_mockidp.Config.Load.{
  parse_internal, seconds, parse_clients, parse_default_claims, from_map,
}
use nano_mockidp.Config.Parse.{Readers, Settings, setting, or_default, parse_url, parse_port, flag}
use nano_mockidp.Config.UpstreamSettings.{parse_gate, parse_upstream}
use nano_mockidp.Crates.{Crates}

pub record IsSound (cfg : Config) : Type 0 where
  pub port : cfg.port < 2 ^ 16
  pub issuer_url : IsAbsolute cfg.issuer_url
  pub issuer_path : trim_end_slashes cfg.issuer_path ≡ cfg.issuer_path
  pub internal_url : OnSome IsAbsolute cfg.internal_url
  pub admin_token : OnSome (λ t. t == "" ≡ false) cfg.admin_token
  pub access_token_ttl : cfg.access_token_ttl < 2 ^ 64
  pub id_token_ttl : cfg.id_token_ttl < 2 ^ 64
  pub refresh_token_ttl : cfg.refresh_token_ttl < 2 ^ 64
  pub upstream : OnSome IsSoundGate cfg.upstream

module _ (lib : Crates) (readers : Readers) where
  port_below :
      (m : Settings) {n : ℕ}
      → or_default (parse_port lib readers) 8080 (setting m "PORT") ≡ ok n
      → n < 2 ^ 16
  unfolding parse_port
  port_below m {n} h = elim (Option-cases (setting m "PORT")) [
    | inl unset ↦ subst (λ k. k < 2 ^ 16) (ok-injective (rw unset at h)) (omega arith)
    | inr (v, set) ↦ parse_below-lt (2 ^ 16) n (trim v) (ok_or-eq-ok _ _ (rw set at h))
  ]

  parse_internal-IsAbsolute :
      (o : Option String) {u : _} → parse_internal lib readers o ≡ ok u → OnSome IsAbsolute u
  parse_internal-IsAbsolute none h = subst (OnSome IsAbsolute) (ok-injective h) OnSome.absent
  parse_internal-IsAbsolute (some v) h =
      let (url, read, same) = bind-eq-ok (parse_url lib "INTERNAL_URL" v) _ h in
      subst (OnSome IsAbsolute) (ok-injective same)
        (OnSome.present (parse_url-IsAbsolute lib "INTERNAL_URL" v read))

  parse_upstream_sound :
      (m : Settings) {u : _} → parse_upstream lib readers m ≡ ok u → OnSome IsSoundGate u
  unfolding parse_upstream
  parse_upstream_sound m h = elim (Option-cases (setting m "UPSTREAM_ISSUER")) [
    | inl unset ↦
        subst (OnSome IsSoundGate) (ok-injective (rw (parse_upstream, unset) at h)) OnSome.absent
    | inr (given, set) ↦
        let (u, read, same) =
          bind-eq-ok (parse_gate lib readers m given) _ (rw (parse_upstream, set) at h) in
        subst (OnSome IsSoundGate) (ok-injective same)
          (OnSome.present (parse_gate_sound lib readers m given read))
  ]

  -- A configuration that is read from the settings is sound: the port is a 16-bit and the lifetimes are
  -- 64-bit integers, the issuer and the internal URL are absolute URLs with a host and without
  -- query or fragment, the issuer's path has no trailing slash, an admin token is not empty, and a
  -- gate has an issuer without trailing slash, a client id, the scope `openid`, and no reserved
  -- claim among those that it adds or forwards.
  pub from_map_sound : (m : Settings) (cfg : Config) → from_map lib readers m ≡ ok cfg → IsSound cfg
  unfolding from_map
  from_map_sound m cfg h =
      let (port, port_read, h₁) =
        bind-eq-ok (or_default (parse_port lib readers) 8080 (setting m "PORT")) _ h in
      let (issuer_url, issuer_read, h₂) =
        bind-eq-ok
          (parse_url lib "ISSUER_URL" (unwrap_or (setting m "ISSUER_URL") "http://localhost:8080"))
          _ h₁ in
      let (_, _, h₃) =
        bind-eq-ok
          (or_default (flag "ENDPOINTS_FROM_REQUEST_HOST") true
            (setting m "ENDPOINTS_FROM_REQUEST_HOST"))
          _ h₂ in
      let (_, _, h₄) =
        bind-eq-ok
          (or_default (flag "ISSUER_FROM_REQUEST_HOST") false
            (setting m "ISSUER_FROM_REQUEST_HOST"))
          _ h₃ in
      let (_, internal_read, h₅) =
        bind-eq-ok (parse_internal lib readers (setting m "INTERNAL_URL")) _ h₄ in
      let (_, _, h₆) = bind-eq-ok (or_default (flag "STRICT") false (setting m "STRICT")) _ h₅ in
      let (_, _, h₇) =
        bind-eq-ok (or_default (parse_clients lib readers) [] (setting m "CLIENTS")) _ h₆ in
      let (_, _, h₈) =
        bind-eq-ok (or_default (parse_default_claims lib readers) [] (setting m "DEFAULT_CLAIMS")) _
          h₇ in
      let (_, access_read, h₉) = bind-eq-ok (seconds lib readers m "ACCESS_TOKEN_TTL" 3600) _ h₈ in
      let (_, id_read, h₁₀) = bind-eq-ok (seconds lib readers m "ID_TOKEN_TTL" 3600) _ h₉ in
      let (_, refresh_read, h₁₁) =
        bind-eq-ok (seconds lib readers m "REFRESH_TOKEN_TTL" 2592000) _ h₁₀ in
      let (_, gate_read, same) = bind-eq-ok (parse_upstream lib readers m) _ h₁₁ in
      subst IsSound (ok-injective same) (record {
        port = port_below m port_read;
        issuer_url =
            parse_url-IsAbsolute lib "ISSUER_URL"
              (unwrap_or (setting m "ISSUER_URL") "http://localhost:8080") issuer_read;
        issuer_path = trim_end_slashes_idempotent issuer_url.path;
        internal_url = parse_internal-IsAbsolute _ internal_read;
        admin_token = trimmed-setting m "ADMIN_TOKEN";
        access_token_ttl =
            seconds_below lib readers "ACCESS_TOKEN_TTL" m 3600 (omega arith) access_read;
        id_token_ttl = seconds_below lib readers "ID_TOKEN_TTL" m 3600 (omega arith) id_read;
        refresh_token_ttl =
            seconds_below lib readers "REFRESH_TOKEN_TTL" m 2592000 (omega arith) refresh_read;
        upstream = parse_upstream_sound m gate_read;
      })
