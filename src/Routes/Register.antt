-- ===== src/Routes/Register.antt =====
-- src/routes/register.rs: dynamic client registration, and src/routes/discovery.rs.
use nano_mockidp.Base.{
  ℕ, String, Option, none, some, List, [], ◌∷◌, ◌==◌, if◌then◌else◌, and_then, unwrap_or,
}
use nano_mockidp.Base.Map.{get, insert}
use nano_mockidp.Base.Handler.{pure, fail, modify, ◌>>◌}
use nano_mockidp.Http.{Response, json_object, invalid_request}
use nano_mockidp.Json.{
  Value, object, string, array, nil, cons, strings, entries, Claims, as_str, as_array, json_u64,
}
use nano_mockidp.State.{Env, Route, AppState}
use nano_mockidp.Store.Data.{unix_secs, Client}
use nano_mockidp.Urls.{Endpoints, resolve}

-- The texts of a JSON array; other elements are left out.
unfoldable pub texts : List Value → List String
texts [] = []
texts (string s ∷ vs) = s ∷ texts vs
texts (v ∷ vs) = texts vs

unfoldable pub redirect_uris_of : Claims → Option (List String)
unfolding texts
redirect_uris_of meta =
    and_then (and_then (get "redirect_uris" meta) as_array) (λ vs. some (texts vs))

unfoldable pub auth_method : Claims → String
auth_method meta =
    unwrap_or (and_then (get "token_endpoint_auth_method" meta) as_str) "client_secret_basic"

-- `entry(k).or_insert(v)`
abbrev or_insert : String → Value → Claims → Claims
or_insert k v m = elim (get k m) [ none ↦ insert k v m | some w ↦ m ]

abbrev secret_fields : Option String → Claims → Claims
secret_fields none meta = meta
secret_fields (some s) meta =
    insert "client_secret_expires_at" (json_u64 0) (insert "client_secret" (string s) meta)

-- The metadata that is sent back.
unfoldable pub registered_meta : Claims → Client → String → ℕ → Claims
registered_meta meta client method now =
    insert "response_types" (array (cons (string "code") nil)) (
      or_insert "grant_types"
        (array (cons (string "authorization_code") (cons (string "refresh_token") nil)))
        (or_insert "redirect_uris" (array (strings (unwrap_or client.redirect_uris []))) (
          insert "token_endpoint_auth_method" (string method) (
            secret_fields client.client_secret (
              insert "client_id_issued_at" (json_u64 now)
                (insert "client_id" (string client.client_id) meta))))))

-- The client that is registered, with the two random tokens that it may take.
unfoldable pub new_client : Claims → String → String → Client
unfolding redirect_uris_of auth_method
new_client meta client_id secret = record {
  client_id = client_id;
  client_secret = if auth_method meta == "none" then none else some secret;
  redirect_uris = redirect_uris_of meta;
}

unfoldable pub register : Env → Claims → Route Response
unfolding new_client registered_meta auth_method unix_secs
register env meta = do
  let client = new_client meta (env.random 0) (env.random 1)
  modify (λ s. record s { clients = insert client.client_id client s.clients })
  pure (record {
    status = 201;
    headers = [];
    body = json_object (registered_meta meta client (auth_method meta) (unix_secs (env.now 0)));
  })

-- `register::handler`
unfoldable pub register_handler : Env → Option Value → Route Response
unfolding register
register_handler env none = register env []
register_handler env (some (object fs)) = register env (entries fs)
register_handler env (some v) = fail (invalid_request "body must be a JSON object")

abbrev texts_value : List String → Value
texts_value ss = array (strings ss)

abbrev auth_methods : Value
auth_methods = texts_value ("client_secret_basic" ∷ "client_secret_post" ∷ "none" ∷ [])

abbrev discovery_document : Endpoints → Claims
discovery_document e =
    ("issuer", string e.issuer)
    ∷ ("authorization_endpoint", string e.authorization)
    ∷ ("token_endpoint", string e.token)
    ∷ ("jwks_uri", string e.jwks)
    ∷ ("userinfo_endpoint", string e.userinfo)
    ∷ ("introspection_endpoint", string e.introspection)
    ∷ ("revocation_endpoint", string e.revocation)
    ∷ ("revocation_endpoint_auth_methods_supported", auth_methods)
    ∷ ("end_session_endpoint", string e.end_session)
    ∷ ("registration_endpoint", string e.registration)
    ∷ ("response_types_supported", texts_value ("code" ∷ []))
    ∷ ("response_modes_supported", texts_value ("query" ∷ []))
    ∷ (
      "grant_types_supported",
      texts_value ("authorization_code" ∷ "refresh_token" ∷ "client_credentials" ∷ "password" ∷ []),
    )
    ∷ ("subject_types_supported", texts_value ("public" ∷ []))
    ∷ ("id_token_signing_alg_values_supported", texts_value ("RS256" ∷ []))
    ∷ ("code_challenge_methods_supported", texts_value ("S256" ∷ []))
    ∷ ("token_endpoint_auth_methods_supported", auth_methods)
    ∷ ("scopes_supported", texts_value ("openid" ∷ "profile" ∷ "email" ∷ "offline_access" ∷ []))
    ∷ (
      "claims_supported",
      texts_value (
          "sub" ∷ "iss" ∷ "aud" ∷ "exp" ∷ "iat" ∷ "auth_time" ∷ "sid" ∷ "nonce" ∷ "email" ∷ "name"
          ∷ []),
    )
    ∷ []

-- `discovery::handler`
unfoldable pub discovery_handler : AppState → String → Response
unfolding resolve
discovery_handler app base = record {
  status = 200;
  headers = [];
  body = json_object (discovery_document (resolve app.config (some base)));
}
