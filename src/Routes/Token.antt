-- ===== src/Routes/Token.antt =====
-- The token endpoint (src/routes/token.rs): the body, the client and the dispatch on the grant.
use text.Mathlib.Text.{starts_with}
use nano_mockidp.Base.{
  String, ◌&&◌, not, Option, none, some, List, [], ◌∷◌, ◌==◌, if◌then◌else◌, unwrap_or,
}
use nano_mockidp.Base.Text.{◌⊕◌}
use nano_mockidp.Base.Bytes.{Bytes}
use nano_mockidp.Base.Handler.{pure, fail, guard, lift, ◌>>=◌, ◌>>◌}
use nano_mockidp.Base.Result.{Result, ok, err}
use nano_mockidp.Crates.{Crates}
use nano_mockidp.Http.{Headers, Response, OAuthError, invalid_request, unsupported_grant_type}
use nano_mockidp.Routes.Client.{authenticate_client}
use nano_mockidp.Routes.Grants.{code_grant, refresh_grant, password_grant, client_grant}
use nano_mockidp.Routes.TokenForm.{TokenForm}
use nano_mockidp.State.{AppState, Env, Route, app_issuer_for}

-- The values of `resource` in a form body (RFC 8707).
unfoldable pub resource_values : List (String × String) → List String
resource_values [] = []
resource_values ((k, v) ∷ pairs) =
    let rest = resource_values pairs in if k == "resource" && not (v == "") then v ∷ rest else rest

-- `form_of` is serde's reading of the body into `TokenForm`.
module _ (lib : Crates) (form_of : Bytes → Result String TokenForm) where
  abbrev pub malformed : Result String TokenForm → Result OAuthError TokenForm
  malformed (ok form) = ok form
  malformed (err e) = err (invalid_request ("malformed form body: " ⊕ e))

  -- `parse_body`
  unfoldable pub parse_body : Headers → Bytes → Route (TokenForm × List String)
  unfolding resource_values
  parse_body headers body = do
    guard (starts_with (unwrap_or (headers "content-type") "") "application/x-www-form-urlencoded")
        (invalid_request "content-type must be application/x-www-form-urlencoded")
    form ← lift (malformed (form_of body))
    pure (form, resource_values (lib.form_pairs body))

  -- The `match` on the grant type.
  unfoldable pub dispatch :
      AppState
      → Env
      → String
      → String
      → Headers
      → TokenForm
      → List String
      → Option String
      → Route Response
  dispatch app env issuer client_id headers form resources none =
      fail (invalid_request "grant_type is required")
  dispatch app env issuer client_id headers form resources (some grant) =
      if grant == "authorization_code"
      then code_grant lib app env issuer client_id form resources
      else if grant == "refresh_token"
      then refresh_grant lib app env issuer client_id form resources
      else if grant == "password"
      then password_grant lib app env issuer client_id headers form resources
      else if grant == "client_credentials"
      then client_grant lib app env issuer client_id headers form resources
      else fail unsupported_grant_type

  -- `handler`
  unfoldable pub token_handler : AppState → Env → String → Headers → Bytes → Route Response
  unfolding parse_body authenticate_client dispatch app_issuer_for
  token_handler app env base headers body = do
    parsed ← parse_body headers body
    let form = parsed.0
    client_id ← authenticate_client lib app headers form.client_id form.client_secret
    dispatch app env (app_issuer_for app base) client_id headers form parsed.1 form.grant_type
