-- ===== src/Server/Frame/Grants.antt =====
-- The token endpoint (src/routes/token.rs) keeps what the elementary updates keep.
use nano_mockidp.Base.{
  String, Option, none, some, List, [], arith, Option-cases, inl, inr, non_empty,
}
use nano_mockidp.Base.Bytes.{Bytes}
use nano_mockidp.Base.Map.{insert}
use nano_mockidp.Base.Result.{Result, Result-cases}
use nano_mockidp.Crates.{Crates}
use nano_mockidp.Http.{Headers}
use nano_mockidp.Json.{string}
use nano_mockidp.Routes.Client.{authenticate_client}
use nano_mockidp.Routes.Grants.{
  code_grant, refresh_grant, password_grant, client_grant, code_refresh, rotated, password_refresh,
}
use nano_mockidp.Routes.Token.{parse_body, dispatch, token_handler}
use nano_mockidp.Routes.TokenForm.{TokenForm, new_refresh}
use nano_mockidp.Server.Frame.Rule.{Admitted, Rule}
use nano_mockidp.Server.Tokens.{parse_body_same, authenticate_same}
use nano_mockidp.State.{AppState, Env, app_issuer_for}
use nano_mockidp.Store.Data.{Instant, RefreshEntry, Store}
use nano_mockidp.Store.Ops.{take_code, take_refresh}

module _ {P : Store → Type 0} {allowed : Admitted} (rule : Rule P allowed) (app : AppState) where
  new_refresh-keeps :
      (entry : RefreshEntry) (token : String) (now : Instant) (s : Store)
      → allowed.token token
      → P s
      → P (new_refresh app entry token now s).1
  unfolding new_refresh
  new_refresh-keeps entry token now s admitted p = rule.token_inserted token _ s admitted p

  module _ (lib : Crates) (env : Env) (issuer client_id : String) (form : TokenForm)
      (resources : List String) (s : Store) (p : P s) where
    code_grant-keeps :
        allowed.token (env.random 2)
        → P (code_grant lib app env issuer client_id form resources s).1
    unfolding code_grant
    code_grant-keeps admitted = elim (Option-cases (non_empty form.code)) [
      | inl missing ↦ rw missing p
      | inr (code, given) ↦
          let taken = rule.code_removed code s p in
          elim (Option-cases (take_code (env.now 0) code s).0) [
            | inl unknown ↦ rw (given, unknown) taken
            | inr (entry, found) ↦
                let renewed =
                  new_refresh-keeps (code_refresh lib app env issuer client_id form resources entry)
                    (env.random 2) (env.now 3) (take_code (env.now 0) code s).1 admitted taken in
                rw (given, found) (ground (arith, taken, renewed))
          ]
    ]

    refresh_grant-keeps :
        allowed.token (env.random 2)
        → P (refresh_grant lib app env issuer client_id form resources s).1
    unfolding refresh_grant
    refresh_grant-keeps admitted = elim (Option-cases (non_empty form.refresh_token)) [
      | inl missing ↦ rw missing p
      | inr (token, given) ↦
          let taken = rule.token_removed token s p in
          elim (Option-cases (take_refresh (env.now 1) token s).0) [
            | inl unknown ↦ rw given (ground (arith, p, taken, unknown))
            | inr (entry, found) ↦
                let renewed =
                  new_refresh-keeps (rotated lib app env issuer client_id form resources entry)
                    (env.random 2) (env.now 4) (take_refresh (env.now 1) token s).1 admitted
                    taken in
                rw given (ground (arith, found, p, taken, renewed))
          ]
    ]

    password_grant-keeps :
        (headers : Headers)
        → allowed.token (env.random 3)
        → P (password_grant lib app env issuer client_id headers form resources s).1
    unfolding password_grant
    password_grant-keeps headers admitted = elim (Option-cases (non_empty form.username)) [
      | inl missing ↦ ground (arith, p, missing)
      | inr (username, named) ↦
          let renewed =
            new_refresh-keeps
              (password_refresh lib app env issuer client_id form resources
                (insert "sub" (string username) []))
              (env.random 3) (env.now 2) s admitted p in
          ground (arith, p, named, renewed)
    ]

    client_grant-keeps :
        (headers : Headers)
        → P (client_grant lib app env issuer client_id headers form resources s).1
    unfolding client_grant
    client_grant-keeps headers = ground (arith, p)

  module _ (lib : Crates) (form_of : Bytes → Result String TokenForm) (env : Env)
      (second : allowed.token (env.random 2)) (third : allowed.token (env.random 3)) where
    dispatch-keeps :
        (issuer client_id : String) (headers : Headers) (form : TokenForm) (resources : List String)
        (grant : Option String) (s : Store)
        → P s
        → P (dispatch lib form_of app env issuer client_id headers form resources grant s).1
    unfolding dispatch
    dispatch-keeps issuer client_id headers form resources none s p = p
    dispatch-keeps issuer client_id headers form resources (some grant) s p = ground (
      arith,
      p,
      code_grant-keeps lib env issuer client_id form resources s p second,
      refresh_grant-keeps lib env issuer client_id form resources s p second,
      password_grant-keeps lib env issuer client_id form resources s p headers third,
      client_grant-keeps lib env issuer client_id form resources s p headers,
    )

    pub token_handler-keeps :
        (base : String) (headers : Headers) (body : Bytes) (s : Store)
        → P s
        → P (token_handler lib form_of app env base headers body s).1
    unfolding token_handler
    token_handler-keeps base headers body s p =
        elim (Result-cases (parse_body lib form_of headers body s).0) [
          | inr (e, bad) ↦ rw (bad, parse_body_same lib form_of headers body s) p
          | inl ((form, resources), read) ↦
              elim (Result-cases
                (authenticate_client lib app headers form.client_id form.client_secret s).0) [
                  | inr (e, bad) ↦
                      rw
                        (
                          read,
                          parse_body_same lib form_of headers body s,
                          bad,
                          authenticate_same lib app headers form.client_id form.client_secret s,
                        )
                        p
                  | inl (client_id, known) ↦
                      rw
                        (
                          read,
                          parse_body_same lib form_of headers body s,
                          known,
                          authenticate_same lib app headers form.client_id form.client_secret s,
                        )
                        (dispatch-keeps (app_issuer_for app base) client_id headers form resources
                          form.grant_type s p)
                ]
        ]
