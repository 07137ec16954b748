-- ===== src/Store/Invariant.antt =====
-- Every method of the store keeps one entry for a key in each table.
use nano_mockidp.Base.{String, Bool, not}
use nano_mockidp.Base.Map.{insert, Distinct-insert, Distinct-remove, Distinct-retain}
use nano_mockidp.Store.Data.{
  Instant, Expiring, AuthRequest, CodeEntry, RefreshEntry, Store, IsWellFormed, empty,
}
use nano_mockidp.Store.Ops.{sweep, take_code, take_refresh, drop_refresh}

pub IsWellFormed-empty : IsWellFormed empty
IsWellFormed-empty = record {
  pending = tt;
  codes = tt;
  refresh = tt;
  clients = tt;
  subjects = tt;
  revoked_jti = tt;
}

pub sweep-IsWellFormed : (now : Instant) (s : Store) → IsWellFormed s → IsWellFormed (sweep now s)
unfolding sweep
sweep-IsWellFormed now s w = record {
  pending = Distinct-retain _ s.pending w.pending;
  codes = Distinct-retain _ s.codes w.codes;
  refresh = Distinct-retain _ s.refresh w.refresh;
  clients = w.clients;
  subjects = w.subjects;
  revoked_jti = Distinct-retain _ s.revoked_jti w.revoked_jti;
}

pub take_code-IsWellFormed :
    (now : Instant) (code : String) (s : Store)
    → IsWellFormed s
    → IsWellFormed (take_code now code s).1
unfolding take_code
take_code-IsWellFormed now code s w = record {
  pending = w.pending;
  codes = Distinct-remove code s.codes w.codes;
  refresh = w.refresh;
  clients = w.clients;
  subjects = w.subjects;
  revoked_jti = w.revoked_jti;
}

pub take_refresh-IsWellFormed :
    (now : Instant) (token : String) (s : Store)
    → IsWellFormed s
    → IsWellFormed (take_refresh now token s).1
unfolding take_refresh
take_refresh-IsWellFormed now token s w = record {
  pending = w.pending;
  codes = w.codes;
  refresh = Distinct-remove token s.refresh w.refresh;
  clients = w.clients;
  subjects = w.subjects;
  revoked_jti = w.revoked_jti;
}

pub drop_refresh-IsWellFormed :
    (doomed : Expiring RefreshEntry → Bool) (s : Store)
    → IsWellFormed s
    → IsWellFormed (drop_refresh doomed s).1
unfolding drop_refresh
drop_refresh-IsWellFormed doomed s w = record {
  pending = w.pending;
  codes = w.codes;
  refresh = Distinct-retain (λ e. not (doomed e)) s.refresh w.refresh;
  clients = w.clients;
  subjects = w.subjects;
  revoked_jti = w.revoked_jti;
}

-- So does an entry that is put in.
pub code_insert-IsWellFormed :
    (code : String) (e : Expiring CodeEntry) (s : Store)
    → IsWellFormed s
    → IsWellFormed (record s { codes = insert code e s.codes })
code_insert-IsWellFormed code e s w = record {
  pending = w.pending;
  codes = Distinct-insert code e s.codes w.codes;
  refresh = w.refresh;
  clients = w.clients;
  subjects = w.subjects;
  revoked_jti = w.revoked_jti;
}

pub refresh_insert-IsWellFormed :
    (token : String) (e : Expiring RefreshEntry) (s : Store)
    → IsWellFormed s
    → IsWellFormed (record s { refresh = insert token e s.refresh })
refresh_insert-IsWellFormed token e s w = record {
  pending = w.pending;
  codes = w.codes;
  refresh = Distinct-insert token e s.refresh w.refresh;
  clients = w.clients;
  subjects = w.subjects;
  revoked_jti = w.revoked_jti;
}

pub pending_insert-IsWellFormed :
    (id : String) (e : Expiring AuthRequest) (s : Store)
    → IsWellFormed s
    → IsWellFormed (record s { pending = insert id e s.pending })
pending_insert-IsWellFormed id e s w = record {
  pending = Distinct-insert id e s.pending w.pending;
  codes = w.codes;
  refresh = w.refresh;
  clients = w.clients;
  subjects = w.subjects;
  revoked_jti = w.revoked_jti;
}
