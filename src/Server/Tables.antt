-- ===== src/Server/Tables.antt =====
-- What the handlers keep that change the other tables of the store.
use nano_mockidp.Base.{ℕ, String, Option, none, some, List, [], ◌∷◌, arith, and_then}
use nano_mockidp.Base.Holds.{Each-remove}
use nano_mockidp.Base.Map.{get, insert, remove, Distinct-insert, Distinct-remove}
use nano_mockidp.Config.{Config, ClientConfig}
use nano_mockidp.Json.{Value, object, Claims, as_str, as_u64}
use nano_mockidp.Routes.EndSession.{end_hinted}
use nano_mockidp.Routes.Register.{register_handler}
use nano_mockidp.Routes.Revoke.{revoke_either, remember_jti}
use nano_mockidp.Server.Kept.{IsKept, drop_refresh-IsKept}
use nano_mockidp.State.{Env, add_clients, initial_store, client_of}
use nano_mockidp.Store.Data.{Client, Subject, Store, empty}
use nano_mockidp.Store.Invariant.{IsWellFormed-empty}
use nano_mockidp.Store.Ops.{of_session}

module _ (Named : String → Type 0) (config : Config) where
  abbrev Kept : Store → Type 0
  Kept = IsKept Named config

  client_insert-IsKept :
      (id : String) (c : Client) (s : Store)
      → Kept s
      → Kept (record s { clients = insert id c s.clients })
  client_insert-IsKept id c s k = record {
    well_formed = record {
      pending = k.well_formed.pending;
      codes = k.well_formed.codes;
      refresh = k.well_formed.refresh;
      clients = Distinct-insert id c s.clients k.well_formed.clients;
      subjects = k.well_formed.subjects;
      revoked_jti = k.well_formed.revoked_jti;
    };
    codes = k.codes;
    refresh = k.refresh;
  }

  add_clients-IsKept : (cs : List ClientConfig) (s : Store) → Kept s → Kept (add_clients cs s)
  unfolding add_clients
  add_clients-IsKept [] s k = k
  add_clients-IsKept (c ∷ cs) s k =
      add_clients-IsKept cs _ (client_insert-IsKept c.client_id (client_of c) s k)

  pub initial_store-IsKept : Kept (initial_store config)
  unfolding initial_store
  initial_store-IsKept =
      add_clients-IsKept config.clients empty
        (record { well_formed = IsWellFormed-empty; codes = tt; refresh = tt })

  remember_jti-IsKept :
      (jti : Option String) (exp : Option ℕ) (s : Store) → Kept s → Kept (remember_jti jti exp s)
  unfolding remember_jti
  remember_jti-IsKept (some jti) (some exp) s k = record {
    well_formed = record {
      pending = k.well_formed.pending;
      codes = k.well_formed.codes;
      refresh = k.well_formed.refresh;
      clients = k.well_formed.clients;
      subjects = k.well_formed.subjects;
      revoked_jti = Distinct-insert jti exp s.revoked_jti k.well_formed.revoked_jti;
    };
    codes = k.codes;
    refresh = k.refresh;
  }
  remember_jti-IsKept none exp s k = k
  remember_jti-IsKept (some jti) none s k = k

  refresh_remove-IsKept :
      (token : String) (s : Store) → Kept s → Kept (record s { refresh = remove token s.refresh })
  refresh_remove-IsKept token s k = record {
    well_formed = record {
      pending = k.well_formed.pending;
      codes = k.well_formed.codes;
      refresh = Distinct-remove token s.refresh k.well_formed.refresh;
      clients = k.well_formed.clients;
      subjects = k.well_formed.subjects;
      revoked_jti = k.well_formed.revoked_jti;
    };
    codes = k.codes;
    refresh = Each-remove _ token s.refresh k.refresh;
  }

  pub subject_insert-IsKept :
      (sub : String) (t : Subject) (s : Store)
      → Kept s
      → Kept (record s { subjects = insert sub t s.subjects })
  subject_insert-IsKept sub t s k = record {
    well_formed = record {
      pending = k.well_formed.pending;
      codes = k.well_formed.codes;
      refresh = k.well_formed.refresh;
      clients = k.well_formed.clients;
      subjects = Distinct-insert sub t s.subjects k.well_formed.subjects;
      revoked_jti = k.well_formed.revoked_jti;
    };
    codes = k.codes;
    refresh = k.refresh;
  }

  pub subject_remove-IsKept :
      (sub : String) (s : Store) → Kept s → Kept (record s { subjects = remove sub s.subjects })
  subject_remove-IsKept sub s k = record {
    well_formed = record {
      pending = k.well_formed.pending;
      codes = k.well_formed.codes;
      refresh = k.well_formed.refresh;
      clients = k.well_formed.clients;
      subjects = Distinct-remove sub s.subjects k.well_formed.subjects;
      revoked_jti = k.well_formed.revoked_jti;
    };
    codes = k.codes;
    refresh = k.refresh;
  }

  pub revoke_either-IsKept :
      (client_id token : String) (found : _) (claims : Option Claims) (s : Store)
      → Kept s
      → Kept (revoke_either client_id token found claims s).1
  unfolding revoke_either
  revoke_either-IsKept client_id token (some e) claims s k =
      ground (arith, k, refresh_remove-IsKept token s k)
  revoke_either-IsKept client_id token none (some claims) s k = ground (
    arith,
    k,
    remember_jti-IsKept (and_then (get "jti" claims) as_str) (and_then (get "exp" claims) as_u64) s
        k,
  )
  revoke_either-IsKept client_id token none none s k = k

  pub register_handler-IsKept :
      (env : Env) (body : Option Value) (s : Store) → Kept s → Kept (register_handler env body s).1
  unfolding register_handler
  register_handler-IsKept env none s k = client_insert-IsKept (env.random 0) _ s k
  register_handler-IsKept env (some (object fs)) s k = client_insert-IsKept (env.random 0) _ s k
  register_handler-IsKept env (some v) s k = k

  pub end_hinted-IsKept :
      (sid client : Option String) (s : Store) → Kept s → Kept (end_hinted sid client s)
  unfolding end_hinted
  end_hinted-IsKept (some sid) (some client) s k =
      drop_refresh-IsKept Named config (of_session sid client) s k
  end_hinted-IsKept none client s k = k
  end_hinted-IsKept (some sid) none s k = k
