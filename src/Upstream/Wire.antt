-- ===== src/Upstream/Wire.antt =====
-- What src/upstream/client.rs gets from the network and from its crates (`reqwest`, `rsa`, serde's
-- derive), as parameters, and the state of an `Upstream`: its three caches.
use nano_mockidp.Base.{ℕ, String, Bool, Option, none, List, []}
use nano_mockidp.Base.Bytes.{Bytes}
use nano_mockidp.Base.Map.{Map}
use nano_mockidp.Base.Result.{Result}
use nano_mockidp.Json.{Value}
use nano_mockidp.Store.Data.{Instant}

-- `Metadata`: the discovery document
pub record Metadata : Type 0 where
  pub authorization_endpoint : String
  pub token_endpoint : String
  pub jwks_uri : String

-- `VerifyingKey<Sha256>`: does the key vouch for these bytes with this signature
abbrev pub Verifier : Type 0
Verifier = Bytes → Bytes → Bool

-- The outcome of an HTTP request: no answer, an answer whose body could not be read, or an answer.
pub data Fetched : Type 0 where
  unreachable : String → Fetched
  broken : ℕ → String → Fetched
  answered : ℕ → Bytes → Fetched

pub record Wire : Type 0 where
  -- the text of a `StatusCode`
  pub status_text : ℕ → String
  -- `Response::json` at the two types that the program asks for
  pub read_json : Bytes → Result String Value
  pub read_metadata : Bytes → Result String Metadata
  -- `RsaPublicKey::new(n, e)` and `VerifyingKey::new`
  pub public_key : Bytes → Bytes → Option Verifier
  -- whether `HeaderValue::from_str` takes a text
  pub is_header_value : String → Bool

-- The fields `meta`, `meta_err` and `keys` of an `Upstream`
pub record Caches : Type 0 where
  pub meta : Option Metadata
  pub meta_err : Option (Instant × String)
  pub keys : Map Verifier

-- `Upstream::new`
abbrev pub no_caches : Caches
no_caches = record { meta = none; meta_err = none; keys = [] }

-- One await of a request: what the server at a URL answers to a GET or a POST, what the other tasks
-- do to the caches until then, and the readings of the clock before it and after it.
pub record Moment : Type 0 where
  pub get : String → Fetched
  pub post : String → Option (String × String) → List (String × String) → Fetched
  pub meanwhile : Caches → Caches
  pub now : Instant
  pub later : Instant

-- The awaits of a handler, numbered by their call sites.
abbrev pub Network : Type 0
Network = ℕ → Moment
