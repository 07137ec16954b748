-- ===== src/Tests/Stores.antt =====
-- Applications of the theorems on the store (src/store.rs), at a store with one live code and two
-- refresh tokens.
use nano_mockidp.Base.{String, Bool, true, false, none, some, [], ◌∷◌, ◌≡◌, refl}
use nano_mockidp.Base.Map.{get, values}
use nano_mockidp.Json.{Claims, string}
use nano_mockidp.Store.Data.{
  Expiring, AuthRequest, CodeEntry, RefreshEntry, Client, Store, empty, IsWellFormed,
}
use nano_mockidp.Store.Grouping.{tokens_of, summary}
use nano_mockidp.Store.Listing.{sessions}
use nano_mockidp.Store.Sessions.{IsSorted, rows_of, to_list, sessions_exact}

abbrev pub request : AuthRequest
request = record {
  client_id = "web";
  redirect_uri = "http://app/cb";
  state = none;
  scope = some "openid";
  nonce = none;
  code_challenge = none;
  resources = [];
}

abbrev pub alice : Claims
alice = ("sub", string "alice") ∷ []

abbrev pub code_entry : Expiring CodeEntry
code_entry = record {
  value = record {
    req = request;
    claims = alice;
    auth_time = 990;
    sid = "s1";
    expires_in = none;
    upstream_sub = none;
    upstream_email = none;
  };
  expires_at = 1300000000000;
}

abbrev pub refresh_entry : Bool → Expiring RefreshEntry
refresh_entry offline = record {
  value = record {
    client_id = "web";
    scope = some "openid";
    audience = none;
    claims = alice;
    auth_time = 990;
    sid = "s1";
    expires_in = none;
    offline = offline;
    upstream_sub = none;
    upstream_email = none;
    issued_at = 990;
  };
  expires_at = 2000000000000;
}

abbrev pub web : Client
web = record {
  client_id = "web";
  client_secret = none;
  redirect_uris = some ("http://app/cb" ∷ []);
}

abbrev pub store : Store
store = record empty {
  codes = ("c1", code_entry) ∷ [];
  refresh = ("t1", refresh_entry false) ∷ ("t2", refresh_entry true) ∷ [];
  clients = ("web", web) ∷ [];
}

pub store-IsWellFormed : IsWellFormed store
unfolding get
store-IsWellFormed = record {
  pending = tt;
  codes = (refl, tt);
  refresh = (refl, (refl, tt));
  clients = (refl, tt);
  subjects = tt;
  revoked_jti = tt;
}

sessions_exact_example :
    IsSorted (sessions 1000000000000 store)
    × ((sid : String)
        → rows_of sid (sessions 1000000000000 store)
          ≡ to_list (summary (tokens_of 1000000000000 sid (values store.refresh))))
sessions_exact_example = sessions_exact 1000000000000 store
