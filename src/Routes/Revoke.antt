-- ===== src/Routes/Revoke.antt =====
-- src/routes/revoke.rs: token revocation.
use nano_mockidp.Base.{ℕ, String, Option, none, some, ◌==◌, and_then, non_empty, same_text}
use nano_mockidp.Base.Map.{get, insert, remove}
use nano_mockidp.Base.Handler.{pure, guard, gets, modify, require, ◌>>=◌, ◌>>◌}
use nano_mockidp.Base.Result.{to_option}
use nano_mockidp.Crates.{Crates}
use nano_mockidp.Http.{Headers, Response, OAuthError, text, none, invalid_request, no_store, found}
use nano_mockidp.Json.{Claims, as_str, as_u64}
use nano_mockidp.Routes.Client.{authenticate_client}
use nano_mockidp.State.{AppState, Route, issuer_check}
use nano_mockidp.Store.Data.{Expiring, RefreshEntry, Store}
use nano_mockidp.Token.Verify.{verify_allow_expired}

pub record RevokeForm : Type 0 where
  pub token : Option String
  pub token_type_hint : Option String
  pub client_id : Option String
  pub client_secret : Option String

abbrev pub other_client : OAuthError
other_client = invalid_request "token was issued to a different client"

-- `if let (Some(jti), Some(exp)) = … { revoked_jti.insert(jti, exp) }`
unfoldable pub remember_jti : Option String → Option ℕ → Store → Store
remember_jti (some jti) (some exp) s = record s { revoked_jti = insert jti exp s.revoked_jti }
remember_jti _ _ s = s

unfoldable pub revoke_jwt : String → Claims → Route (Unit {0})
unfolding remember_jti
revoke_jwt client_id claims = do
  guard (same_text (and_then (get "azp" claims) as_str) (some client_id)) other_client
  modify (remember_jti (and_then (get "jti" claims) as_str) (and_then (get "exp" claims) as_u64))

unfoldable pub revoke_refresh_token : String → String → Expiring RefreshEntry → Route (Unit {0})
revoke_refresh_token client_id token e = do
  guard (e.value.client_id == client_id) other_client
  modify (λ s. record s { refresh = remove token s.refresh })

unfoldable pub revoke_either :
    String → String → Option (Expiring RefreshEntry) → Option Claims → Route (Unit {0})
unfolding revoke_jwt revoke_refresh_token
revoke_either client_id token (some e) claims = revoke_refresh_token client_id token e
revoke_either client_id token none (some claims) = revoke_jwt client_id claims
revoke_either client_id token none none = pure tt

module _ (lib : Crates) (app : AppState) where
  -- `revoke::handler`
  unfoldable pub revoke_handler : Headers → RevokeForm → Route Response
  unfolding revoke_either
  revoke_handler headers form = do
    client_id ← authenticate_client lib app headers form.client_id form.client_secret
    token ← require (non_empty form.token) (invalid_request "token is required")
    found ← gets (λ s. get token s.refresh)
    revoke_either client_id token found
        (to_option (verify_allow_expired lib app.key (issuer_check app) token))
    pure (record { status = 200; headers = no_store; body = text "" })
