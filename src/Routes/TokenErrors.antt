-- ===== src/Routes/TokenErrors.antt =====
-- What a refusal by the token endpoint says and leaves behind (src/routes/token.rs).
use text.Mathlib.Text.{starts_with}
use nano_mockidp.Base.{
  String, unwrap_or, Bool, true, false, Option, none, some, List, ◌==◌, ◌≡◌, refl, if◌then◌else◌,
}
use nano_mockidp.Base.Bytes.{Bytes}
use nano_mockidp.Base.Handler.{pure, fail, guard, lift, ◌>>=◌, ◌>>◌}
use nano_mockidp.Base.Result.{Result, ok, err}
use nano_mockidp.Crates.{Crates}
use nano_mockidp.Http.{Headers, Response, OAuthError, invalid_request}
use nano_mockidp.Routes.Steps.{
  IsOauthError, request_refused, grant_unsupported, Ends, Step, then_Step, refused_as,
  authenticate-Step,
}
use nano_mockidp.Routes.Token.{token_handler, malformed, resource_values, parse_body, dispatch}
use nano_mockidp.Routes.TokenForm.{TokenForm}
use nano_mockidp.State.{AppState, Env, Route, app_issuer_for}
use nano_mockidp.Store.Data.{Store}
use nano_mockidp.Routes.GrantSteps.{
  Spent, unspent, Any, Same, code_grant-Step, refresh_grant-Step, password_grant-Step,
  client_grant-Step,
}

module _ (given : Result String TokenForm) (s : Store) where
  fail-Any :
      (e : OAuthError)
      → IsOauthError e
      → Step (Spent given s) (Same given s) Any (fail {A = Response} e)
  fail-Any e known t same = Ends.refused known (unspent t same)

  if-Any :
      (b : Bool) {m n : Route Response}
      → Step (Spent given s) (Same given s) Any m
      → Step (Spent given s) (Same given s) Any n
      → Step (Spent given s) (Same given s) Any (if b then m else n)
  if-Any true h k = h
  if-Any false h k = k

  module _ (lib : Crates) (form_of : Bytes → Result String TokenForm) (app : AppState)
      (env : Env) where
    dispatch-Step :
        (issuer client_id : String) (headers : Headers) (form : TokenForm) (resources : List String)
        (read : given ≡ ok form) (grant : Option String)
        → Step
            (Spent given s)
            (Same given s)
            Any
            (dispatch lib form_of app env issuer client_id headers form resources grant)
    unfolding dispatch
    dispatch-Step issuer client_id headers form resources read none = fail-Any _ (request_refused _)
    dispatch-Step issuer client_id headers form resources read (some grant) =
        if-Any (grant == "authorization_code")
          (code_grant-Step given s lib app env issuer client_id form resources read)
          (if-Any (grant == "refresh_token")
            (refresh_grant-Step given s lib app env issuer client_id form resources read)
            (if-Any (grant == "password")
              (password_grant-Step given s lib app env issuer client_id form resources read headers)
              (if-Any (grant == "client_credentials")
                (client_grant-Step given s lib app env issuer client_id form resources read headers)
                (fail-Any _ grant_unsupported))))

parsed-Step :
    (lib : Crates) (form_of : Bytes → Result String TokenForm) (s : Store) (is_form : Bool)
    (given : Result String TokenForm) (pairs : List String)
    (f : TokenForm × List String → Route Response)
    → ((form : TokenForm)
        → given ≡ ok form
        → Step (Spent given s) (Same given s) Any (f (form, pairs)))
    → Step (Spent given s) (Same given s) Any (
        (guard is_form (invalid_request "content-type must be application/x-www-form-urlencoded")
          >> (lift (malformed lib form_of given) >>= λ form. pure (form, pairs)))
        >>= f)
parsed-Step lib form_of s false given pairs f k t same =
    Ends.refused (request_refused _) (unspent t same)
parsed-Step lib form_of s true (ok form) pairs f k t same = k form refl t same
parsed-Step lib form_of s true (err e) pairs f k t same =
    Ends.refused (request_refused _) (unspent t same)

module _ (s : Store) (lib : Crates) (form_of : Bytes → Result String TokenForm) (app : AppState)
    (env : Env) where
  token_handler-Step :
      (base : String) (headers : Headers) (body : Bytes)
      → Step
          (Spent (form_of body) s)
          (Same (form_of body) s)
          Any
          (token_handler lib form_of app env base headers body)
  unfolding token_handler parse_body
  token_handler-Step base headers body =
      parsed-Step lib form_of s
        (starts_with (unwrap_or (headers "content-type") "") "application/x-www-form-urlencoded")
        (form_of body) (resource_values (lib.form_pairs body)) _
        (λ form read.
          then_Step (Spent (form_of body) s) {A = String} _ _
            (authenticate-Step (Spent (form_of body) s) unspent lib app headers form.client_id
              form.client_secret)
            (λ client_id.
              dispatch-Step (form_of body) s lib form_of app env (app_issuer_for app base) client_id
                headers form (resource_values (lib.form_pairs body)) read form.grant_type))

  -- Whatever a client sends to the token endpoint, in whatever state: a request that is not answered
  -- with tokens is answered with an error of RFC 6749, with the status of that error, and the store
  -- is as before but for the code or the refresh token that the request presented, which is gone
  -- if the grant had already taken it.
  pub token_handler_refuses :
      (base : String) (headers : Headers) (body : Bytes) (e : OAuthError)
      → (token_handler lib form_of app env base headers body s).0 ≡ err e
      → IsOauthError e
        × Spent (form_of body) s (token_handler lib form_of app env base headers body s).1
  token_handler_refuses base headers body e h =
      refused_as _ e (token_handler-Step base headers body s refl) h
