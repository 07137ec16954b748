-- ===== src/Server/Frame/Rule.antt =====
-- The elementary updates of the store (src/store.rs) that the handlers make, and predicates that these keep.
use nano_mockidp.Base.{ℕ, String, Bool}
use nano_mockidp.Base.Map.{Map, insert, remove, retain}
use nano_mockidp.Store.Data.{
  Instant, Expiring, AuthRequest, CodeEntry, RefreshEntry, Client, Subject, Store,
}
use nano_mockidp.Store.Ops.{sweep}

-- What the handlers may put into the tables, as far as a predicate depends on it: the keys of new
-- codes, refresh tokens and clients, the instants of sweeps, and the `jti`s of revoked tokens with their expiry.
pub record Admitted : Type 1 where
  pub code : String → Type 0
  pub token : String → Type 0
  pub client : String → Type 0
  pub tick : Instant → Type 0
  pub revoked : String → ℕ → Type 0

abbrev pub anything : Admitted
anything = record {
  code = λ k. Unit;
  token = λ k. Unit;
  client = λ k. Unit;
  tick = λ now. Unit;
  revoked = λ jti exp. Unit;
}

-- `P` is kept by each update that is admitted.
pub record Rule (P : Store → Type 0) (admitted : Admitted) : Type 0 where
  pub swept : (now : Instant) (s : Store) → admitted.tick now → P s → P (sweep now s)
  pub code_removed : (k : String) (s : Store) → P s → P (record s { codes = remove k s.codes })
  pub token_removed : (k : String) (s : Store) → P s → P (record s { refresh = remove k s.refresh })
  pub tokens_dropped :
      (p : Expiring RefreshEntry → Bool) (s : Store)
      → P s
      → P (record s { refresh = retain p s.refresh })
  pub pending_set :
      (m : Map (Expiring AuthRequest)) (s : Store) → P s → P (record s { pending = m })
  pub subjects_set : (m : Map Subject) (s : Store) → P s → P (record s { subjects = m })
  pub revoked_inserted :
      (jti : String) (exp : ℕ) (s : Store)
      → admitted.revoked jti exp
      → P s
      → P (record s { revoked_jti = insert jti exp s.revoked_jti })
  pub code_inserted :
      (k : String) (e : Expiring CodeEntry) (s : Store)
      → admitted.code k
      → P s
      → P (record s { codes = insert k e s.codes })
  pub token_inserted :
      (k : String) (e : Expiring RefreshEntry) (s : Store)
      → admitted.token k
      → P s
      → P (record s { refresh = insert k e s.refresh })
  pub client_inserted :
      (k : String) (c : Client) (s : Store)
      → admitted.client k
      → P s
      → P (record s { clients = insert k c s.clients })
