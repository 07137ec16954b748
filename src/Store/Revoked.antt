-- ===== src/Store/Revoked.antt =====
-- The store remembers a revoked token until it expires, however often it is swept.
use nano_mockidp.Base.{ℕ, ◌≤◌, ◌<◌, String, true, none, some, List, [], ◌∷◌, ◌≡◌, arith, and_then}
use nano_mockidp.Base.Map.{get, get-retain, get-retain_none}
use nano_mockidp.Json.{Claims, as_str}
use nano_mockidp.Store.Data.{Instant, unix_secs, Store, IsWellFormed}
use nano_mockidp.Store.Invariant.{sweep-IsWellFormed}
use nano_mockidp.Store.Ops.{sweep, is_blocked, is_live}

-- The sweeper's rounds.
unfoldable pub sweeps : List Instant → Store → Store
unfolding sweep
sweeps [] s = s
sweeps (now ∷ rest) s = sweeps rest (sweep now s)

-- Every instant of a list is at most `later`.
abbrev pub AllBefore : Instant → List Instant → Type 0
AllBefore later [] = Unit
AllBefore later (now ∷ rest) = (now ≤ later) × AllBefore later rest

-- The store remembers that the token with this `jti` and expiry is revoked.
pub record Remembers (token jti : String) (exp : ℕ) (s : Store) : Type 0 where
  pub well_formed : IsWellFormed s
  pub revoked : get jti s.revoked_jti ≡ some exp
  pub no_refresh : get token s.refresh ≡ none

pub sweep-Remembers :
    (now later : Instant) (token jti : String) (exp : ℕ) (s : Store)
    → now ≤ later
    → unix_secs later < exp
    → Remembers token jti exp s
    → Remembers token jti exp (sweep now s)
unfolding sweep unix_secs
sweep-Remembers now later token jti exp s h live r = record {
  well_formed = sweep-IsWellFormed now s r.well_formed;
  revoked =
      rw (get-retain _ jti s.revoked_jti r.well_formed.revoked_jti) (rw r.revoked (ground arith));
  no_refresh = get-retain_none _ token s.refresh r.no_refresh;
}

pub sweeps-Remembers :
    (times : List Instant) (later : Instant) (token jti : String) (exp : ℕ) (s : Store)
    → AllBefore later times
    → unix_secs later < exp
    → Remembers token jti exp s
    → Remembers token jti exp (sweeps times s)
unfolding sweeps
sweeps-Remembers [] later token jti exp s h live r = r
sweeps-Remembers (now ∷ times) later token jti exp s (h, hs) live r =
    sweeps-Remembers times later token jti exp (sweep now s) hs live
      (sweep-Remembers now later token jti exp s h live r)

pub sweeps-absent :
    (times : List Instant) (token : String) (s : Store)
    → get token s.refresh ≡ none
    → get token (sweeps times s).refresh ≡ none
unfolding sweeps
sweeps-absent [] token s h = h
sweeps-absent (now ∷ times) token s h =
    sweeps-absent times token (sweep now s) (get-retain_none (is_live now) token s.refresh h)

pub is_blocked-Remembers :
    (token jti : String) (exp : ℕ) (claims : Claims) (s : Store)
    → and_then (get "jti" claims) as_str ≡ some jti
    → get jti s.revoked_jti ≡ some exp
    → is_blocked claims s ≡ true
unfolding is_blocked
is_blocked-Remembers token jti exp claims s named revoked = ground arith
