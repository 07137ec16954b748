-- ===== src/Server/Registered.antt =====
-- A client that `/register` has registered stays registered, whatever the server does.
use nano_mockidp.Base.{
  String, true, Option, some, List, ◌≡◌, ◌≢◌, ◌↔◌, refl, ap, ◌∙◌, arith, eq_iff,
}
use nano_mockidp.Base.Bytes.{Bytes}
use nano_mockidp.Base.Map.{get, get-insert}
use nano_mockidp.Base.Result.{Result, ok}
use nano_mockidp.Crates.{Crates}
use nano_mockidp.Http.{Headers}
use nano_mockidp.Json.{object, entries, Fields}
use nano_mockidp.Routes.Authentication.{IsClient, authenticate_client_iff}
use nano_mockidp.Routes.Client.{Credentials, authenticate_client, client_credentials}
use nano_mockidp.Routes.Register.{register_handler, new_client}
use nano_mockidp.Routes.TokenForm.{TokenForm}
use nano_mockidp.Server.{Event, serve_all}
use nano_mockidp.Server.Frame.Events.{AllAdmitted, serve_all-keeps}
use nano_mockidp.Server.Frame.Rule.{Rule, anything}
use nano_mockidp.State.{AppState, Env}
use nano_mockidp.Store.Data.{Client, Store}
use nano_mockidp.Store.Ops.{sweep}

registered_rule :
    (id : String) (c : Client)
    → Rule (λ s. get id s.clients ≡ some c) (record anything { client = λ k. k ≢ id })
unfolding sweep
registered_rule id c = record {
  swept = λ now s any known. known;
  code_removed = λ k s known. known;
  token_removed = λ k s known. known;
  tokens_dropped = λ p s known. known;
  pending_set = λ m s known. known;
  subjects_set = λ m s known. known;
  revoked_inserted = λ jti exp s any known. known;
  code_inserted = λ k e s any known. known;
  token_inserted = λ k e s any known. known;
  client_inserted = λ k d s other known. rw get-insert (ground (arith, known, other, eq_iff k id));
}

-- The credentials are those of a client.
pub record Shows (given : Credentials) (c : Client) : Type 0 where
  pub id : given.id ≡ some c.client_id
  pub secret : (expected : String) → c.client_secret ≡ some expected → given.secret ≡ some expected

IsClient-iff :
    (s : Store) (given : Credentials) (c : Client)
    → get c.client_id s.clients ≡ some c
    → IsClient s given c.client_id ↔ Shows given c
IsClient-iff s given c known = (
  λ m.
      let same : m.client ≡ c = cc (m.known, known) in
      record {
        id = m.named;
        secret =
            λ expected asked. m.secret expected (ap (λ (d : Client). d.client_secret) same ∙ asked);
      },
  λ m. record { named = m.id; client = c; known = known; secret = m.secret },
)

-- The client of a registration with these metadata.
abbrev pub registered : Env → Fields → Client
registered env fs = new_client (entries fs) (env.random 0) (env.random 1)

module _ (lib : Crates) (form_of : Bytes → Result String TokenForm) (app : AppState) (env : Env)
    (fs : Fields) (s : Store) (events : List Event) where
  -- The store after a registration with these metadata, and the events.
  abbrev pub registered_then : Store
  registered_then = serve_all lib form_of app events (register_handler env (some (object fs)) s).1

  abbrev pub IsFresh : Type 0
  IsFresh = AllAdmitted (record anything { client = λ k. k ≢ env.random 0 }) lib app events

  still_registered : IsFresh → get (env.random 0) registered_then.clients ≡ some (registered env fs)
  unfolding register_handler new_client
  still_registered fresh =
      serve_all-keeps (registered_rule (env.random 0) (registered env fs)) app lib form_of events _
        fresh (rw get-insert (rw ((eq_iff (env.random 0) (env.random 0)).1 refl)))

  -- In strict mode, after a client has been registered and whatever requests and sweeps follow,
  -- exactly who shows its id, and its secret if it was given one, passes as this client, as long as
  -- no other registration draws the same id.
  pub registered_client_passes :
      (headers : Headers) (form_id form_secret : Option String)
      → IsFresh
      → app.config.strict ≡ true
      → ((authenticate_client lib app headers form_id form_secret registered_then).0
          ≡ ok (env.random 0))
        ↔ Shows (client_credentials lib headers form_id form_secret) (registered env fs)
  unfolding new_client
  registered_client_passes headers form_id form_secret fresh strict =
      let (sound, complete) =
        authenticate_client_iff lib app headers form_id form_secret registered_then (env.random 0)
          strict in
      let (shown, known) =
        IsClient-iff registered_then _ (registered env fs) (still_registered fresh) in
      (λ h. shown (sound h), λ m. complete (known m))
