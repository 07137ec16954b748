-- ===== src/Routes/GrantSteps.antt =====
-- How the grants of the token endpoint end, and what a refusal leaves of the code or the refresh token
-- (src/routes/token.rs).
use nano_mockidp.Base.{String, [], Option, some, List, ◌==◌, ◌≡◌, non_empty, ap}
use nano_mockidp.Base.Handler.{pure, ◌>>=◌}
use nano_mockidp.Base.Map.{insert, remove}
use nano_mockidp.Base.Result.{Result, ok}
use nano_mockidp.Crates.{Crates}
use nano_mockidp.Http.{Headers, Response, invalid_request, invalid_grant}
use nano_mockidp.Json.{string, Claims}
use nano_mockidp.Routes.Grants.{
  code_grant, code_refresh, rotated, password_refresh, refresh_grant, password_grant, client_grant,
  token_subject, current_claims, code_params, refresh_params, password_params,
}
use nano_mockidp.Routes.Steps.{
  request_refused, grant_refused, Ends, Step, then_Step, required_Step, gets-Step, require-Step,
  guard-Step, redirect-Step, enabled-Step, ensure_enabled-Step, pkce-Step, trusted-Step,
}
use nano_mockidp.Routes.TokenForm.{TokenForm, token_response, new_refresh}
use nano_mockidp.State.{AppState, Env, token_issuer}
use nano_mockidp.Store.Data.{CodeEntry, RefreshEntry, Instant, Store, unix_secs}
use nano_mockidp.Store.Ops.{take_code, take_refresh, peek_refresh}
use nano_mockidp.Token.Issue.{issue}

-- What a refused request may have changed: nothing, or it spent the code or the refresh token that
-- the form in its body presents.
pub data Spent (given : Result String TokenForm) (s : Store) : Store → Type 0 where
  unspent : (t : Store) → t ≡ s → Spent given s t
  code_spent :
      (form : TokenForm)
      → given ≡ ok form
      → (code : String) → non_empty form.code ≡ some code
      → (t : Store) → t ≡ record s { codes = remove code s.codes }
      → Spent given s t
  refresh_spent :
      (form : TokenForm)
      → given ≡ ok form
      → (token : String) → non_empty form.refresh_token ≡ some token
      → (t : Store) → t ≡ record s { refresh = remove token s.refresh }
      → Spent given s t

abbrev pub Any : Store → Type 0
Any t = Unit {0}

issued-Step :
    (Left P : Store → Type 0) (app : AppState) (entry : RefreshEntry) (token : String)
    (now : Instant) (answer : String → Response)
    → Step Left P Any (new_refresh app entry token now >>= λ refresh. pure (answer refresh))
unfolding new_refresh
issued-Step Left P app entry token now answer t p = Ends.done tt

module _ (given : Result String TokenForm) (s : Store) where
  abbrev pub Same : Store → Type 0
  Same t = t ≡ s

  abbrev NoCode : String → Store → Type 0
  NoCode code t = t ≡ record s { codes = remove code s.codes }

  abbrev NoRefresh : String → Store → Type 0
  NoRefresh token t = t ≡ record s { refresh = remove token s.refresh }

  take_code-Step :
      (now : Instant) (code : String)
      → Step
          (Spent given s)
          Same
          (NoCode code)
          (λ t. (ok (take_code now code t).0, (take_code now code t).1))
  unfolding take_code
  take_code-Step now code t same =
      Ends.done (ap (λ (u : Store). record u { codes = remove code u.codes }) same)

  take_refresh-Step :
      (now : Instant) (token : String)
      → Step
          (Spent given s)
          Same
          (NoRefresh token)
          (λ t. (ok (take_refresh now token t).0, (take_refresh now token t).1))
  unfolding take_refresh
  take_refresh-Step now token t same =
      Ends.done (ap (λ (u : Store). record u { refresh = remove token u.refresh }) same)

  module _ (lib : Crates) (app : AppState) (env : Env) (issuer client_id : String)
      (form : TokenForm) (resources : List String) (read : given ≡ ok form) where
    pub code_grant-Step :
        Step (Spent given s) Same Any (code_grant lib app env issuer client_id form resources)
    unfolding code_grant
    code_grant-Step =
        required_Step (Spent given s) unspent (non_empty form.code)
          (invalid_request "code is required") _ (request_refused _)
          (λ code shown.
            then_Step (Spent given s) {A = Option CodeEntry} _ _ (take_code-Step (env.now 0) code)
              (λ taken.
                then_Step (Spent given s) {A = CodeEntry} _ _
                  (require-Step (Spent given s) (code_spent form read code shown) taken
                    (invalid_grant "unknown, expired or already used code") (grant_refused _))
                  (λ entry.
                    then_Step (Spent given s) _ _
                      (guard-Step (Spent given s) (code_spent form read code shown)
                        (entry.req.client_id == client_id)
                        (invalid_grant "code was issued to a different client") (grant_refused _))
                      (λ _.
                        then_Step (Spent given s) _ _
                          (redirect-Step (Spent given s) (code_spent form read code shown)
                            form.redirect_uri entry.req.redirect_uri)
                          (λ _.
                            then_Step (Spent given s) _ _
                              (pkce-Step (Spent given s) (code_spent form read code shown) lib
                                entry.req.code_challenge form.code_verifier)
                              (λ _.
                                then_Step (Spent given s) _ _
                                  (ensure_enabled-Step (Spent given s)
                                    (code_spent form read code shown) entry.claims)
                                  (λ _.
                                    issued-Step (Spent given s) (NoCode code) app
                                      (code_refresh lib app env issuer client_id form resources
                                        entry)
                                      (env.random 2) (env.now 3)
                                      (λ refresh.
                                        token_response
                                          (issue lib (token_issuer app issuer)
                                            (code_params lib app env issuer client_id form resources
                                              entry)
                                            (unix_secs (env.now 1)) (env.random 0) (env.random 1))
                                          (some refresh) entry.req.scope))))))))

    pub refresh_grant-Step :
        Step (Spent given s) Same Any (refresh_grant lib app env issuer client_id form resources)
    unfolding refresh_grant
    refresh_grant-Step =
        required_Step (Spent given s) unspent (non_empty form.refresh_token)
          (invalid_request "refresh_token is required") _ (request_refused _)
          (λ token shown.
            then_Step (Spent given s) {A = Option String} _ _
              (gets-Step (Spent given s) unspent
                (λ t. token_subject (peek_refresh (env.now 0) token t)))
              (λ sub. then_Step (Spent given s) _ _ (enabled-Step (Spent given s) unspent sub) (λ _.
                then_Step (Spent given s) {A = Option RefreshEntry} _ _
                  (take_refresh-Step (env.now 1) token)
                  (λ taken.
                    then_Step (Spent given s) {A = RefreshEntry} _ _
                      (require-Step (Spent given s) (refresh_spent form read token shown) taken
                        (invalid_grant "unknown, expired, revoked or rotated refresh token")
                        (grant_refused _))
                      (λ entry.
                        then_Step (Spent given s) {A = Claims} _ _
                          (gets-Step (Spent given s) (refresh_spent form read token shown)
                            (λ t. current_claims sub t entry.claims))
                          (λ claims.
                            then_Step (Spent given s) _ _
                              (guard-Step (Spent given s) (refresh_spent form read token shown)
                                (entry.client_id == client_id)
                                (invalid_grant "refresh token was issued to a different client")
                                (grant_refused _))
                              (λ _.
                                issued-Step (Spent given s) (NoRefresh token) app
                                  (rotated lib app env issuer client_id form resources entry)
                                  (env.random 2) (env.now 4)
                                  (λ refresh.
                                    token_response
                                      (issue lib (token_issuer app issuer)
                                        (refresh_params lib app env issuer client_id form resources
                                          entry claims)
                                        (unix_secs (env.now 2)) (env.random 0) (env.random 1))
                                      (some refresh) entry.scope))))))))

    pub password_grant-Step :
        (headers : Headers)
        → Step
            (Spent given s)
            Same
            Any
            (password_grant lib app env issuer client_id headers form resources)
    unfolding password_grant
    password_grant-Step headers =
        then_Step (Spent given s) _ _
          (trusted-Step (Spent given s) unspent lib app headers form.client_id form.client_secret)
          (λ _.
            then_Step (Spent given s) {A = String} _ _
              (require-Step (Spent given s) unspent (non_empty form.username)
                (invalid_request "username is required") (request_refused _))
              (λ username.
                then_Step (Spent given s) _ _
                  (ensure_enabled-Step (Spent given s) unspent (insert "sub" (string username) []))
                  (λ _.
                    issued-Step (Spent given s) Same app
                      (password_refresh lib app env issuer client_id form resources
                        (insert "sub" (string username) []))
                      (env.random 3) (env.now 2)
                      (λ refresh.
                        token_response
                          (issue lib (token_issuer app issuer)
                            (password_params lib app env issuer client_id form resources
                              (insert "sub" (string username) []))
                            (unix_secs (env.now 1)) (env.random 1) (env.random 2))
                          (some refresh) form.scope))))

    pub client_grant-Step :
        (headers : Headers)
        → Step
            (Spent given s)
            Same
            Any
            (client_grant lib app env issuer client_id headers form resources)
    unfolding client_grant
    client_grant-Step headers =
        then_Step (Spent given s) _ _
          (trusted-Step (Spent given s) unspent lib app headers form.client_id form.client_secret)
          (λ _ t p. Ends.done tt)
