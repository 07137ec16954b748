-- ===== src/Upstream/Client.antt =====
-- src/upstream/client.rs: discovery, the key set, the exchange of a code, and the address of the
-- upstream login.
use nano_mockidp.Base.{
  ℕ, ◌-◌, ◌*◌, String, Bool, ◌&&◌, Option, none, some, List, [], ◌∷◌, ltb, leb, if◌then◌else◌,
  and_then,
}
use nano_mockidp.Base.Text.{◌⊕◌}
use nano_mockidp.Base.Bytes.{Bytes}
use nano_mockidp.Base.Handler.{Handler, pure, lift, gets, require, modify, ◌>>=◌, ◌>>◌}
use nano_mockidp.Base.Result.{Result, ok, err, ok_or, to_option}
use nano_mockidp.Base.Result
use nano_mockidp.Config.{UpstreamConfig}
use nano_mockidp.Crates.{Crates}
use nano_mockidp.Json.{Value, as_str}
use nano_mockidp.Store.Data.{Instant, nanos_per_sec}
use nano_mockidp.Token.Jws.{value_get, map_err}
use nano_mockidp.Upstream.Jwks.{parse_jwks, cached_key}
use nano_mockidp.Upstream.Wire.{
  Metadata, Verifier, Fetched, unreachable, broken, answered, Wire, Caches, Moment,
}

-- `DISCOVERY_RETRY`, in nanoseconds
abbrev pub discovery_retry : ℕ
discovery_retry = 10 * nanos_per_sec

-- A computation over the caches that may fail with a message.
abbrev pub Task : Type 0 → Type 0
Task A = Handler Caches String A

-- `StatusCode::is_success`
abbrev pub is_success : ℕ → Bool
is_success status = leb 200 status && ltb status 300

-- What follows the await of `get_json`, for the type that `read` reads.
unfoldable pub got_json {ℓ} :
    {A : Type ℓ} → Wire → (Bytes → Result String A) → String → Fetched → Result String A
got_json wire read url (unreachable e) = err ("GET " ⊕ url ⊕ ": " ⊕ e)
got_json wire read url (broken status e) =
    if is_success status
    then err ("GET " ⊕ url ⊕ ": " ⊕ e)
    else err ("GET " ⊕ url ⊕ ": HTTP " ⊕ wire.status_text status)
got_json wire read url (answered status body) =
    if is_success status
    then map_err ("GET " ⊕ url ⊕ ": ") (read body)
    else err ("GET " ⊕ url ⊕ ": HTTP " ⊕ wire.status_text status)

-- An await: the other tasks run.
abbrev pub await : Moment → Task (Unit {0})
await at = modify at.meanwhile

abbrev pub discovery_url : UpstreamConfig → String
discovery_url cfg = cfg.issuer ⊕ "/.well-known/openid-configuration"

-- A failure of the last ten seconds, with `at.elapsed()` as `Instant` computes it: 0 at least.
abbrev pub recent_failure : Instant → Option (Instant × String) → Option String
recent_failure now none = none
recent_failure now (some (at, e)) = if ltb (now - at) discovery_retry then some e else none

-- What `metadata` does with the answer.
abbrev pub remember : Instant → Result String Metadata → Task Metadata
remember now (ok m) c = (ok m, record c { meta = some m })
remember now (err e) c = (err e, record c { meta_err = some (now, e) })

module _ (wire : Wire) (cfg : UpstreamConfig) where
  abbrev pub discover : Moment → Task Metadata
  discover at = do
    await at
    remember at.later
        (got_json wire wire.read_metadata (discovery_url cfg) (at.get (discovery_url cfg)))

  -- `metadata`
  unfoldable pub metadata : Moment → Task Metadata
  unfolding got_json
  metadata at c = elim c.meta [
    | some m ↦ (ok m, c)
    | none ↦ elim (recent_failure at.now c.meta_err) [ some e ↦ (err e, c) | none ↦ discover at c ]
  ]

abbrev pub login_params :
    UpstreamConfig → String → String → String → String → List (String × String)
login_params cfg redirect_uri state nonce code_challenge =
    ("response_type", "code")
    ∷ ("client_id", cfg.client_id)
    ∷ ("redirect_uri", redirect_uri)
    ∷ ("scope", cfg.scope)
    ∷ ("state", state)
    ∷ ("nonce", nonce)
    ∷ ("code_challenge", code_challenge)
    ∷ ("code_challenge_method", "S256")
    ∷ []

abbrev exchange_form : UpstreamConfig → String → String → String → List (String × String)
exchange_form cfg code redirect_uri code_verifier =
    ("grant_type", "authorization_code")
    ∷ ("code", code)
    ∷ ("redirect_uri", redirect_uri)
    ∷ ("code_verifier", code_verifier)
    ∷ elim cfg.client_secret [ some secret ↦ [] | none ↦ ("client_id", cfg.client_id) ∷ [] ]

-- The `{:?}` of an optional text
abbrev pub debug_option : Crates → Option String → String
debug_option lib none = "None"
debug_option lib (some s) = "Some(" ⊕ lib.debug s ⊕ ")"

module _ (lib : Crates) (wire : Wire) (cfg : UpstreamConfig) where
  -- `authorize_url`
  unfoldable pub authorize_url : Moment → String → String → String → String → Task String
  unfolding metadata
  authorize_url at redirect_uri state nonce code_challenge = do
    m ← metadata wire cfg at
    url ←
        lift (map_err "upstream authorization_endpoint: " (lib.parse_url m.authorization_endpoint))
    pure (lib.append_pairs url (login_params cfg redirect_uri state nonce code_challenge)).text

  abbrev basic_auth : Option (String × String)
  basic_auth = elim cfg.client_secret [ some secret ↦ some (cfg.client_id, secret) | none ↦ none ]

  -- The answer of the token endpoint: its JSON is read before its status is looked at.
  abbrev pub token_answer : ℕ → Value → Result String String
  token_answer status body =
      if is_success status
      then ok_or (and_then (value_get "id_token" body) as_str)
          "upstream token response has no id_token"
      else err
          ("upstream token endpoint HTTP " ⊕ wire.status_text status ⊕ ": " ⊕ lib.json_text body)

  unfoldable pub exchanged_answer : String → Fetched → Result String String
  exchanged_answer endpoint (unreachable e) = err ("POST " ⊕ endpoint ⊕ ": " ⊕ e)
  exchanged_answer endpoint (broken status e) = err ("upstream token response: " ⊕ e)
  exchanged_answer endpoint (answered status body) =
      Result.◌>>=◌ (map_err "upstream token response: " (wire.read_json body)) (token_answer status)

  -- `exchange`: the first await is for the metadata, the second for the token endpoint
  unfoldable pub exchange : Moment → Moment → String → String → String → Task String
  unfolding metadata exchanged_answer
  exchange at post_at code redirect_uri code_verifier = do
    m ← metadata wire cfg at
    await post_at
    lift (
        exchanged_answer m.token_endpoint (
          post_at.post m.token_endpoint basic_auth
            (exchange_form cfg code redirect_uri code_verifier)))

  unfoldable pub fetch_key : Moment → Moment → Option String → Task Verifier
  unfolding metadata got_json parse_jwks cached_key
  fetch_key at jwks_at kid = do
    m ← metadata wire cfg at
    await jwks_at
    jwks ← lift (got_json wire wire.read_json m.jwks_uri (jwks_at.get m.jwks_uri))
    modify (λ c. record c { keys = parse_jwks lib wire jwks })
    cached ← gets (cached_key kid)
    require cached ("no RS256 key " ⊕ debug_option lib kid ⊕ " in the upstream JWKS")

  -- `key`: the first await is for the metadata, the second for the key set
  unfoldable pub key : Moment → Moment → Option String → Task Verifier
  unfolding fetch_key cached_key
  key at jwks_at kid c = elim (cached_key kid c) [
    | some verifier ↦ (ok verifier, c)
    | none ↦ fetch_key at jwks_at kid c
  ]
