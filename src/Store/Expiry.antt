-- ===== src/Store/Expiry.antt =====
-- Expiry: taking, peeking and sweeping of the entries of the store (src/store.rs).
use nano_mockidp.Base.{
  ◌≤◌, String, Option, none, some, ◌≡◌, ◌==◌, refl, arith, if◌then◌else◌, keep_if,
}
use nano_mockidp.Base.Map.{get, get-remove, get-retain}
use nano_mockidp.Store.Data.{Instant, Expiring, Store, IsWellFormed}
use nano_mockidp.Store.Ops.{is_live, live_value, sweep, take_code, take_refresh, peek_refresh}

-- A code is handed out once: whatever the first attempt answered, a second one finds nothing, and
-- every other code is answered as before.
take_code_once :
    (now later : Instant) (code other : String) (s : Store)
    → (take_code later other (take_code now code s).1).0
      ≡ (if code == other then none else (take_code later other s).0)
unfolding take_code
take_code_once now later code other s = rw get-remove (ground arith)

-- A refresh token is handed out once too, and every other token is answered as before.
take_refresh_once :
    (now later : Instant) (token other : String) (s : Store)
    → (take_refresh later other (take_refresh now token s).1).0
      ≡ (if token == other then none else (take_refresh later other s).0)
unfolding take_refresh
take_refresh_once now later token other s = rw get-remove (ground arith)

-- What a sweep drops had expired, so it would not be handed out.
pub live_value-keep_if {ℓ} :
    {T : Type ℓ} (now later : Instant) (o : Option (Expiring T))
    → now ≤ later
    → live_value later (keep_if (is_live now) o) ≡ live_value later o
live_value-keep_if now later none h = refl
live_value-keep_if now later (some e) h = ground arith

keep_if_twice {ℓ} :
    {T : Type ℓ} (now later : Instant) (o : Option (Expiring T))
    → now ≤ later
    → keep_if (is_live later) (keep_if (is_live now) o) ≡ keep_if (is_live later) o
keep_if_twice now later none h = refl
keep_if_twice now later (some e) h = ground arith

-- A sweep is not observed by any later exchange of a code or a refresh token.
pub take-sweep :
    (now later : Instant) (key : String) (s : Store)
    → IsWellFormed s
    → now ≤ later
    → ((take_code later key (sweep now s)).0 ≡ (take_code later key s).0)
      × ((take_refresh later key (sweep now s)).0 ≡ (take_refresh later key s).0)
      × (peek_refresh later key (sweep now s) ≡ peek_refresh later key s)
unfolding take_code take_refresh peek_refresh sweep
take-sweep now later key s w h =
    let codes = live_value-keep_if now later (get key s.codes) h in
    let tokens = live_value-keep_if now later (get key s.refresh) h in
    (
      rw (get-retain (is_live now) key s.codes w.codes) codes,
      rw (get-retain (is_live now) key s.refresh w.refresh) tokens,
      rw (get-retain (is_live now) key s.refresh w.refresh)
          (keep_if_twice now later (get key s.refresh) h),
    )
