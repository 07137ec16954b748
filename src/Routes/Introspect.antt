-- ===== src/Routes/Introspect.antt =====
-- src/routes/introspect.rs: token introspection.
use nano_mockidp.Base.{
  String, true, false, Option, none, some, [], ◌∷◌, if◌then◌else◌, and_then, non_empty,
}
use nano_mockidp.Base.Map.{get, insert}
use nano_mockidp.Base.Handler.{pure, gets, require, ◌>>=◌}
use nano_mockidp.Base.Result.{to_option}
use nano_mockidp.Crates.{Crates}
use nano_mockidp.Http.{Headers, Response, none, invalid_request, json_response}
use nano_mockidp.Json.{bool, string, Claims, json_u64, json_option}
use nano_mockidp.Routes.Client.{authenticate_client}
use nano_mockidp.State.{AppState, Env, Route, issuer_check}
use nano_mockidp.Store.Data.{unix_secs, Expiring, RefreshEntry, Store, kind}
use nano_mockidp.Store.Ops.{is_blocked, peek_refresh}
use nano_mockidp.Token.Verify.{verify}

pub record IntrospectForm : Type 0 where
  pub token : Option String
  pub client_id : Option String
  pub client_secret : Option String

abbrev pub inactive : Response
inactive = json_response (("active", bool false) ∷ [])

-- The answer of `/introspect` for a token of this server.
unfoldable pub describe_claims : Claims → Response
describe_claims claims =
    let marked = insert "token_type" (string "Bearer") (insert "active" (bool true) claims) in
    elim (get "aud" marked) [
      | none ↦ json_response marked
      | some aud ↦ json_response (insert "client_id" aud marked)
    ]

unfoldable pub describe_refresh : Expiring RefreshEntry → Response
unfolding unix_secs
describe_refresh e = json_response (
    ("active", bool true)
    ∷ ("token_type", string "refresh_token")
    ∷ ("refresh_token_type", string (kind e.value))
    ∷ ("client_id", string e.value.client_id)
    ∷ ("sub", json_option (get "sub" e.value.claims))
    ∷ ("scope", json_option (and_then e.value.scope (λ s. some (string s))))
    ∷ ("exp", json_u64 (unix_secs e.expires_at))
    ∷ [])

abbrev pub introspect_refresh : Option (Expiring RefreshEntry) → Store → Response
introspect_refresh none s = inactive
introspect_refresh (some e) s = if is_blocked e.value.claims s then inactive else describe_refresh e

abbrev pub introspect_token : Env → String → Option Claims → Store → Response
introspect_token env token (some claims) s =
    if is_blocked claims s then inactive else describe_claims claims
introspect_token env token none s = introspect_refresh (peek_refresh (env.now 1) token s) s

module _ (lib : Crates) (app : AppState) where
  -- `introspect::handler`
  unfoldable pub introspect_handler : Env → Headers → IntrospectForm → Route Response
  unfolding describe_claims describe_refresh unix_secs
  introspect_handler env headers form = do
    caller ←
        (if app.config.strict
          then authenticate_client lib app headers form.client_id form.client_secret
          else pure "")
    token ← require (non_empty form.token) (invalid_request "token is required")
    gets (
        introspect_token env token
          (to_option (verify lib app.key (issuer_check app) token (unix_secs (env.now 0)))))
