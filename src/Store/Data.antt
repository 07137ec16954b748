-- ===== src/Store/Data.antt =====
-- The types of src/store.rs. An instant (`SystemTime`) is a number of nanoseconds since the Unix
-- epoch; the clock is never before the epoch.
use nano_mockidp.Base.{ℕ, ◌+◌, ◌*◌, ◌/◌, String, Bool, Option, List, [], leb, if◌then◌else◌}
use nano_mockidp.Base.Map.{Map, Distinct}
use nano_mockidp.Json.{Value, Claims}

abbrev pub Instant : Type 0
Instant = ℕ

abbrev pub nanos_per_sec : ℕ
nanos_per_sec = 1_000_000_000

-- `unix_secs`: whole seconds since the epoch
unfoldable pub unix_secs : Instant → ℕ
unix_secs t = t / nanos_per_sec

pub record Expiring {ℓ} (T : Type ℓ) : Type ℓ where
  pub value : T
  pub expires_at : Instant

module _ {ℓ} {T : Type ℓ} where
  -- `Expiring::new`, with the reading of the clock that it makes
  abbrev pub expiring : T → ℕ → Instant → Expiring T
  expiring value ttl_secs now = record {
    value = value;
    expires_at = now + ttl_secs * nanos_per_sec;
  }

  abbrev pub is_expired : Instant → Expiring T → Bool
  is_expired now e = leb e.expires_at now

pub record AuthRequest : Type 0 where
  pub client_id : String
  pub redirect_uri : String
  pub state : Option String
  pub scope : Option String
  pub nonce : Option String
  pub code_challenge : Option String
  pub resources : List String

pub record CodeEntry : Type 0 where
  pub req : AuthRequest
  pub claims : Claims
  pub auth_time : ℕ
  pub sid : String
  pub expires_in : Option ℕ
  pub upstream_sub : Option String
  pub upstream_email : Option String

pub record RefreshEntry : Type 0 where
  pub client_id : String
  pub scope : Option String
  pub audience : Option Value
  pub claims : Claims
  pub auth_time : ℕ
  pub sid : String
  pub expires_in : Option ℕ
  pub offline : Bool
  pub upstream_sub : Option String
  pub upstream_email : Option String
  pub issued_at : ℕ

-- `RefreshEntry::kind`
abbrev pub kind : RefreshEntry → String
kind e = if e.offline then "offline" else "online"

pub record Subject : Type 0 where
  pub claims : Option Claims
  pub disabled : Bool

pub record Client : Type 0 where
  pub client_id : String
  pub client_secret : Option String
  pub redirect_uris : Option (List String)

-- One row of `/admin/sessions`.
pub record Session : Type 0 where
  pub sid : String
  pub sub : Option String
  pub client_id : String
  pub upstream_sub : Option String
  pub upstream_email : Option String
  pub auth_time : ℕ
  pub last_issued_at : ℕ
  pub expires_at : ℕ
  pub offline : Bool
  pub refresh_tokens : ℕ

pub record Store : Type 0 where
  pub pending : Map (Expiring AuthRequest)
  pub codes : Map (Expiring CodeEntry)
  pub refresh : Map (Expiring RefreshEntry)
  pub clients : Map Client
  pub subjects : Map Subject
  pub revoked_jti : Map ℕ

-- `Store::default`
abbrev pub empty : Store
empty = record {
  pending = [];
  codes = [];
  refresh = [];
  clients = [];
  subjects = [];
  revoked_jti = [];
}

-- The representation invariant: each table has one entry for a key.
pub record IsWellFormed (s : Store) : Type 0 where
  pub pending : Distinct s.pending
  pub codes : Distinct s.codes
  pub refresh : Distinct s.refresh
  pub clients : Distinct s.clients
  pub subjects : Distinct s.subjects
  pub revoked_jti : Distinct s.revoked_jti
