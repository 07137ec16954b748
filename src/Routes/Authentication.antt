-- ===== src/Routes/Authentication.antt =====
-- Which clients pass `authenticate_client` and `ensure_trusted_client`.
use nano_mockidp.Base.{
  String, Bool, true, false, Option, none, some, ◌≡◌, ◌↔◌, inl, inr, refl, arith, eq_iff,
  Option-cases, if◌then◌else◌, any, is_some,
}
use nano_mockidp.Base.Map.{get}
use nano_mockidp.Base.Handler.{guard, pure, require, ◌>>=◌}
use nano_mockidp.Base.Result.{Result, ok, err}
use nano_mockidp.Crates.{Crates}
use nano_mockidp.Http.{Headers, OAuthError, invalid_client}
use nano_mockidp.Routes.Client.{
  Credentials, client_credentials, check_client, authenticate_client, ensure_trusted_client,
  is_trusted, secret_fits,
}
use nano_mockidp.State.{AppState}
use nano_mockidp.Store.Data.{Client, Store}

-- The credentials fit a registered client: the id is known, and a client with a secret gave it.
pub record IsClient (s : Store) (given : Credentials) (id : String) : Type 0 where
  pub named : given.id ≡ some id
  pub client : Client
  pub known : get id s.clients ≡ some client
  pub secret :
      (expected : String) → client.client_secret ≡ some expected → given.secret ≡ some expected

secret_fits_iff :
    (expected given : Option String)
    → (secret_fits expected given ≡ true) ↔ ((e : String) → expected ≡ some e → given ≡ some e)
secret_fits_iff none given = (λ h e p. cc, λ h. refl)
secret_fits_iff (some t) none = (λ h e p. cc, λ h. absurd (let p = h t refl in cc))
secret_fits_iff (some t) (some g) =
    (λ h e p. ground (arith, eq_iff g t, p), λ h. ground (arith, eq_iff g t, h t refl))

module _ (s : Store) (given : Credentials) (id : String) where
  check_client_sound :
      (c : String)
      → given.id ≡ some c
      → (check_client c given.secret s).0 ≡ ok id
      → IsClient s given id
  unfolding check_client
  check_client_sound c named h = elim (Option-cases (get c s.clients)) [
    | inl unknown ↦ absurd (ground (arith, unknown))
    | inr (client, known) ↦
        let same : c ≡ id = ground arith in
        let fits : secret_fits client.client_secret given.secret ≡ true = ground arith in
        record {
          named = rw (← same) named;
          client = client;
          known = rw (← same) known;
          secret = (secret_fits_iff client.client_secret given.secret).0 fits;
        }
  ]

  check_client_complete : IsClient s given id → check_client id given.secret s ≡ (ok id, s)
  unfolding check_client
  check_client_complete c =
      rw c.known (rw ((secret_fits_iff c.client.client_secret given.secret).1 c.secret))

  named_sound :
      ((require given.id (invalid_client "client_id is required") >>= λ c.
      if true then check_client c given.secret else pure c)
          s).0
        ≡ ok id
      → IsClient s given id
  named_sound h = elim (Option-cases given.id) [
    | inl anonymous ↦ absurd (missing (rw anonymous at h))
    | inr (c, named) ↦ check_client_sound c named (rw named at h)
  ]
    where
      missing :
          ◌≡◌ {A = Result OAuthError String} (err (invalid_client "client_id is required")) (ok id)
          → ⊥
      missing p = cc

guard_iff : (b : Bool) (e : OAuthError) (s : Store) → ((guard b e s).0 ≡ ok tt) ↔ (b ≡ true)
guard_iff true e s = (λ h. refl, λ h. refl)
guard_iff false e s = (λ h. cc, λ h. cc)

module _ (lib : Crates) (app : AppState) (headers : Headers) (form_id form_secret : Option String)
    (s : Store) where
  -- In strict mode exactly the registered clients with their secret pass.
  pub authenticate_client_iff :
      (id : String)
      → app.config.strict ≡ true
      → ((authenticate_client lib app headers form_id form_secret s).0 ≡ ok id)
        ↔ IsClient s (client_credentials lib headers form_id form_secret) id
  unfolding authenticate_client
  authenticate_client_iff id strict = (
    λ h.
        named_sound s (client_credentials lib headers form_id form_secret) id
          (rw (strict, authenticate_client) at h),
    λ c. rw strict (rw c.named (rw (check_client_complete s _ id c))),
  )

  -- Behind the gate only a client of the configuration with its secret is trusted.
  pub ensure_trusted_client_iff :
      is_some app.config.upstream ≡ true
      → ((ensure_trusted_client lib app headers form_id form_secret s).0 ≡ ok tt) ↔ (
          any (is_trusted (client_credentials lib headers form_id form_secret)) app.config.clients
          ≡ true)
  unfolding ensure_trusted_client
  ensure_trusted_client_iff gated = elim (Option-cases app.config.upstream) [
    | inl off ↦ absurd (ground arith)
    | inr (u, on) ↦ rw on (guard_iff _ _ s)
  ]
