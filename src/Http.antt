-- ===== src/Http.antt =====
-- Requests and responses, and src/error.rs.
use nano_mockidp.Base.{ℕ, String, Option, List, [], ◌∷◌, ◌++◌}
use nano_mockidp.Json.{Value, string, object, fields, Claims}
use Prim.Native.Nat.{compare, Ordering}

-- The first value of a request header, if it is visible ASCII (`get(name)` and `to_str`).
abbrev pub Headers : Type 0
Headers = String → Option String

pub data Body : Type 0 where
  json : Value → Body
  html : String → Body
  text : String → Body
  none : Body

pub record Response : Type 0 where
  pub status : ℕ
  pub headers : List (String × String)
  pub body : Body

abbrev pub json_object : Claims → Body
json_object m = json (object (fields m))

abbrev pub no_store : List (String × String)
no_store = ("cache-control", "no-store") ∷ ("pragma", "no-cache") ∷ []

pub record OAuthError : Type 0 where
  pub status : ℕ
  pub error : String
  pub description : String

abbrev pub oauth_error : ℕ → String → String → OAuthError
oauth_error status error msg = record { status = status; error = error; description = msg }

abbrev pub invalid_request : String → OAuthError
invalid_request msg = oauth_error 400 "invalid_request" msg

abbrev pub invalid_client : String → OAuthError
invalid_client msg = oauth_error 401 "invalid_client" msg

abbrev pub invalid_grant : String → OAuthError
invalid_grant msg = oauth_error 400 "invalid_grant" msg

abbrev pub unauthorized_client : String → OAuthError
unauthorized_client msg = oauth_error 400 "unauthorized_client" msg

abbrev pub unsupported_grant_type : OAuthError
unsupported_grant_type =
    oauth_error 400 "unsupported_grant_type"
      "supported: authorization_code, refresh_token, client_credentials, password"

abbrev pub server_error : String → OAuthError
server_error msg = oauth_error 500 "server_error" msg

-- `OAuthError::into_response`
unfoldable pub error_response : OAuthError → Response
error_response e = record {
  status = e.status;
  headers = no_store ++ elim (compare e.status 401) [
    | Ordering.eq ↦ ("www-authenticate", "Basic realm=\"nano-mockidp\"") ∷ []
    | _ ↦ []
  ];
  body = json_object (("error", string e.error) ∷ ("error_description", string e.description) ∷ []);
}

-- `authorize::found`: 302 to `location`
abbrev pub found : String → Response
found location = record { status = 302; headers = ("location", location) ∷ []; body = none }

-- A JSON answer with status 200.
abbrev pub json_response : Claims → Response
json_response m = record { status = 200; headers = []; body = json_object m }
