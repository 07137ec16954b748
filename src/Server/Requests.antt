-- ===== src/Server/Requests.antt =====
-- What a request to `/token` that is answered with success has run (src/routes/token.rs).
use nano_mockidp.Base.{
  String, none, some, List, ◌≡◌, ◌≢◌, arith, eq_iff, ◌∙◌, Option-cases, inl, inr, non_empty,
}
use nano_mockidp.Base.Bytes.{Bytes}
use nano_mockidp.Base.Map.{get, remove, get-insert, get-remove}
use nano_mockidp.Base.Result.{Result, ok, Result-cases}
use nano_mockidp.Crates.{Crates}
use nano_mockidp.Http.{Headers, Response}
use nano_mockidp.Routes.Client.{authenticate_client}
use nano_mockidp.Routes.Grants.{code_grant, refresh_grant, rotated}
use nano_mockidp.Routes.Token.{parse_body, dispatch, token_handler}
use nano_mockidp.Routes.TokenForm.{TokenForm}
use nano_mockidp.Server.Tokens.{parse_body_same, authenticate_same}
use nano_mockidp.State.{AppState, Env, app_issuer_for}
use nano_mockidp.Store.Data.{Store, expiring}
use nano_mockidp.Store.Ops.{take_refresh}

module _ (form_of : Bytes → Result String TokenForm) where
  -- What a request is read as, and what it presents.
  pub record PresentsCode (body : Bytes) (code : String) : Type 0 where
    pub form : TokenForm
    pub read : form_of body ≡ ok form
    pub grant : form.grant_type ≡ some "authorization_code"
    pub given : non_empty form.code ≡ some code

  pub record PresentsToken (body : Bytes) (token : String) : Type 0 where
    pub form : TokenForm
    pub read : form_of body ≡ ok form
    pub grant : form.grant_type ≡ some "refresh_token"
    pub given : non_empty form.refresh_token ≡ some token

module _ (lib : Crates) (form_of : Bytes → Result String TokenForm) (app : AppState) where
  module _ (env : Env) (base : String) (headers : Headers) (body : Bytes) (s : Store)
      (form : TokenForm) (read : form_of body ≡ ok form) where
    parsed_form :
        (f : TokenForm) (resources : List String)
        → (parse_body lib form_of headers body s).0 ≡ ok (f, resources)
        → f ≡ form
    unfolding parse_body
    parsed_form f resources h = ground (arith, h, read)

    -- A request that is answered with success was dispatched for a client.
    answered-dispatch :
        (r : Response)
        → (token_handler lib form_of app env base headers body s).0 ≡ ok r
        → (client_id : String) × (resources : List String) × (token_handler lib form_of app env base
              headers body s
            ≡ dispatch lib form_of app env
                (app_issuer_for app base)
                client_id
                headers
                form
                resources
                form.grant_type
                s)
    unfolding token_handler
    answered-dispatch r h = elim (Result-cases (parse_body lib form_of headers body s).0) [
      | inr (e, bad) ↦ absurd (ground (arith, h, bad))
      | inl ((f, resources), parsed) ↦
          elim (Result-cases
            (authenticate_client lib app headers f.client_id f.client_secret s).0) [
              | inr (e, bad) ↦
                  absurd
                    (ground (arith, h, parsed, bad, parse_body_same lib form_of headers body s))
              | inl (client_id, known) ↦ (
                client_id,
                resources,
                rw (← parsed_form f resources parsed) (
                    rw (
                      parsed,
                      parse_body_same lib form_of headers body s,
                      known,
                      authenticate_same lib app headers f.client_id f.client_secret s,
                    )),
              )
            ]
    ]

  module _ (env : Env) (base : String) (headers : Headers) (body : Bytes) (s : Store) (r : Response)
      (answered : (token_handler lib form_of app env base headers body s).0 ≡ ok r) where
    -- An answered code request ran the code grant, and an answered refresh request the refresh grant.
    pub code_request :
        (code : String) (p : PresentsCode form_of body code)
        → (client_id : String) × (resources : List String) × (token_handler lib form_of app env base
              headers body s
            ≡ code_grant lib app env (app_issuer_for app base) client_id p.form resources s)
    unfolding dispatch
    code_request code p =
        let (client_id, resources, same) =
          answered-dispatch env base headers body s p.form p.read r answered in
        (client_id, resources, same ∙ rw p.grant)

    pub token_request :
        (token : String) (p : PresentsToken form_of body token)
        → (client_id : String) × (resources : List String) × (token_handler lib form_of app env base
              headers body s
            ≡ refresh_grant lib app env (app_issuer_for app base) client_id p.form resources s)
    unfolding dispatch
    token_request token p =
        let (client_id, resources, same) =
          answered-dispatch env base headers body s p.form p.read r answered in
        (client_id, resources, same ∙ rw p.grant)

module _ (lib : Crates) (app : AppState) where
  module _ (env : Env) (issuer client_id : String) (form : TokenForm) (resources : List String)
      (s : Store) where
    pub code_grant-unknown :
        (code : String) (r : Response)
        → non_empty form.code ≡ some code
        → get code s.codes ≡ none
        → (code_grant lib app env issuer client_id form resources s).0 ≢ ok r
    unfolding code_grant
    code_grant-unknown code r given gone h = ground (arith, h, given, gone)

    pub refresh_grant-unknown :
        (token : String) (r : Response)
        → non_empty form.refresh_token ≡ some token
        → get token s.refresh ≡ none
        → (refresh_grant lib app env issuer client_id form resources s).0 ≢ ok r
    unfolding refresh_grant
    refresh_grant-unknown token r given gone h = ground (arith, h, given, gone)

    -- An answered refresh removes the token that it was asked with.
    pub refresh_grant-removes :
        (token : String) (r : Response)
        → non_empty form.refresh_token ≡ some token
        → env.random 2 ≢ token
        → (refresh_grant lib app env issuer client_id form resources s).0 ≡ ok r
        → get token (refresh_grant lib app env issuer client_id form resources s).1.refresh ≡ none
    unfolding refresh_grant
    refresh_grant-removes token r given fresh h =
        elim (Option-cases (take_refresh (env.now 1) token s).0) [
          | inl unknown ↦ absurd (ground (arith, h, given, unknown))
          | inr (entry, found) ↦ ground (
            arith,
            h,
            given,
            found,
            fresh,
            eq_iff (env.random 2) token,
            eq_iff token token,
            get-remove token token s.refresh,
            get-insert (env.random 2) token
                (expiring (rotated lib app env issuer client_id form resources entry)
                  app.config.refresh_token_ttl (env.now 4))
                (remove token s.refresh),
          )
        ]
