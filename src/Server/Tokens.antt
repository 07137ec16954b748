-- ===== src/Server/Tokens.antt =====
-- What the token endpoint keeps: the codes that it takes and the refresh tokens that it makes
-- (src/routes/token.rs).
use nano_mockidp.Base.{
  String, true, ◌&&◌, ◌||◌, Option, none, some, List, [], ◌∷◌, ◌≡◌, ◌==◌, any, is_some, is_none,
  arith, eq_iff, Bool-cases, Option-cases, inl, inr, non_empty,
}
use nano_mockidp.Base.Bytes.{Bytes}
use nano_mockidp.Base.Holds.{Each-insert, OnSome_at}
use nano_mockidp.Base.Map.{insert}
use nano_mockidp.Base.Result.{Result, ok, Result-cases}
use nano_mockidp.Config.{ClientConfig}
use nano_mockidp.Crates.{Crates}
use nano_mockidp.Http.{Headers}
use nano_mockidp.Json.{string}
use nano_mockidp.Routes.Client.{Credentials, is_trusted, client_credentials, authenticate_client}
use nano_mockidp.Routes.Grants.{
  code_grant, refresh_grant, password_grant, client_grant, code_refresh, rotated, password_refresh,
}
use nano_mockidp.Routes.Token.{parse_body, dispatch, token_handler}
use nano_mockidp.Routes.TokenForm.{TokenForm, new_refresh}
use nano_mockidp.Server.Kept.{IsVouched, IsKept, take_code-IsKept, take_refresh-IsKept}
use nano_mockidp.State.{AppState, Env, app_issuer_for}
use nano_mockidp.Store.Data.{Instant, Store, RefreshEntry}
use nano_mockidp.Store.Invariant.{refresh_insert-IsWellFormed}
use nano_mockidp.Store.Ops.{take_code, take_refresh}

trusted_confidential :
    (given : Credentials) (id : String) (cs : List ClientConfig)
    → given.id ≡ some id
    → any (is_trusted given) cs ≡ true
    → any (λ (c : ClientConfig). c.client_id == id && is_some c.client_secret) cs ≡ true
trusted_confidential given id [] h t = t
trusted_confidential given id (c ∷ cs) h t =
    ground (arith, h, eq_iff c.client_id id, trusted_confidential given id cs h)

module _ (lib : Crates) (app : AppState) (headers : Headers) (id secret : Option String)
    (s : Store) where
  -- The authentication of a client only reads.
  pub authenticate_same : (authenticate_client lib app headers id secret s).1 ≡ s
  unfolding authenticate_client
  authenticate_same = ground arith

  authenticate_given :
      (client_id : String)
      → (authenticate_client lib app headers id secret s).0 ≡ ok client_id
      → (client_credentials lib headers id secret).id ≡ some client_id
  unfolding authenticate_client
  authenticate_given client_id h = ground arith

pub parse_body_same :
    (lib : Crates) (form_of : Bytes → Result String TokenForm) (headers : Headers) (body : Bytes)
    (s : Store)
    → (parse_body lib form_of headers body s).1 ≡ s
unfolding parse_body
parse_body_same lib form_of headers body s = ground arith

module _ (Named : String → Type 0) (app : AppState) where
  abbrev Kept : Store → Type 0
  Kept = IsKept Named app.config

  -- A refresh token that is vouched for may be put in.
  new_refresh-IsKept :
      (entry : RefreshEntry) (token : String) (now : Instant) (s : Store)
      → IsVouched Named app.config entry
      → Kept s
      → Kept (new_refresh app entry token now s).1
  unfolding new_refresh
  new_refresh-IsKept entry token now s vouched k = record {
    well_formed = refresh_insert-IsWellFormed token _ s k.well_formed;
    codes = k.codes;
    refresh = Each-insert _ token _ s.refresh vouched k.refresh;
  }

  module _ (lib : Crates) (env : Env) (issuer client_id : String) (form : TokenForm)
      (resources : List String) where
    code_grant-IsKept :
        (s : Store) → Kept s → Kept (code_grant lib app env issuer client_id form resources s).1
    unfolding code_grant
    code_grant-IsKept s k = elim (Option-cases (non_empty form.code)) [
      | inl missing ↦ rw missing k
      | inr (code, given) ↦
          let (kept, gated) = take_code-IsKept Named app.config (env.now 0) code s k in
          elim (Option-cases (take_code (env.now 0) code s).0) [
            | inl unknown ↦ rw (given, unknown) kept
            | inr (entry, found) ↦
                let vouched = OnSome_at gated found in
                let renewed =
                  new_refresh-IsKept
                    (code_refresh lib app env issuer client_id form resources entry) (env.random 2)
                    (env.now 3) (take_code (env.now 0) code s).1 (inl vouched) kept in
                rw (given, found) (ground (arith, kept, renewed))
          ]
    ]

    refresh_grant-IsKept :
        (s : Store) → Kept s → Kept (refresh_grant lib app env issuer client_id form resources s).1
    unfolding refresh_grant
    refresh_grant-IsKept s k = elim (Option-cases (non_empty form.refresh_token)) [
      | inl missing ↦ rw missing k
      | inr (token, given) ↦
          let (kept, gated) = take_refresh-IsKept Named app.config (env.now 1) token s k in
          elim (Option-cases (take_refresh (env.now 1) token s).0) [
            | inl unknown ↦ rw given (ground (arith, k, kept, unknown))
            | inr (entry, found) ↦
                let vouched = OnSome_at gated found in
                let renewed =
                  new_refresh-IsKept (rotated lib app env issuer client_id form resources entry)
                    (env.random 2) (env.now 4) (take_refresh (env.now 1) token s).1 vouched kept in
                rw given (ground (arith, found, k, kept, renewed))
          ]
    ]

    module _ (headers : Headers)
        (given : (client_credentials lib headers form.client_id form.client_secret).id
          ≡ some client_id) where
      password_grant-IsKept :
          (s : Store)
          → Kept s
          → Kept (password_grant lib app env issuer client_id headers form resources s).1
      unfolding password_grant
      password_grant-IsKept s k =
          elim (Bool-cases (
            is_none app.config.upstream
            || any (is_trusted (client_credentials lib headers form.client_id form.client_secret))
                app.config.clients)) [
                  | inr refused ↦ ground (arith, k, refused)
                  | inl trusted ↦
                      let confidential =
                        trusted_confidential
                          (client_credentials lib headers form.client_id form.client_secret)
                          client_id app.config.clients given in
                      elim (Option-cases (non_empty form.username)) [
                        | inl missing ↦ ground (arith, k, missing)
                        | inr (username, named) ↦
                            let renewed =
                              new_refresh-IsKept
                                (password_refresh lib app env issuer client_id form resources
                                  (insert "sub" (string username) []))
                                (env.random 3) (env.now 2) s (ground (arith, trusted, confidential))
                                k in
                            ground (arith, k, trusted, named, renewed)
                      ]
                ]

      client_grant-IsKept :
          (s : Store)
          → Kept s
          → Kept (client_grant lib app env issuer client_id headers form resources s).1
      unfolding client_grant
      client_grant-IsKept s k = ground (arith, k)

  module _ (lib : Crates) (form_of : Bytes → Result String TokenForm) (env : Env) where
    dispatch-IsKept :
        (issuer client_id : String) (headers : Headers) (form : TokenForm) (resources : List String)
        (grant : Option String)
        → (client_credentials lib headers form.client_id form.client_secret).id ≡ some client_id
        → (s : Store) → Kept s
        → Kept (dispatch lib form_of app env issuer client_id headers form resources grant s).1
    unfolding dispatch
    dispatch-IsKept issuer client_id headers form resources none given s k = k
    dispatch-IsKept issuer client_id headers form resources (some grant) given s k = ground (
      arith,
      k,
      code_grant-IsKept lib env issuer client_id form resources s k,
      refresh_grant-IsKept lib env issuer client_id form resources s k,
      password_grant-IsKept lib env issuer client_id form resources headers given s k,
      client_grant-IsKept lib env issuer client_id form resources headers given s k,
    )

    pub token_handler-IsKept :
        (base : String) (headers : Headers) (body : Bytes) (s : Store)
        → Kept s
        → Kept (token_handler lib form_of app env base headers body s).1
    unfolding token_handler
    token_handler-IsKept base headers body s k =
        elim (Result-cases (parse_body lib form_of headers body s).0) [
          | inr (e, bad) ↦ ground (arith, k, bad, parse_body_same lib form_of headers body s)
          | inl ((form, resources), read) ↦
              elim (Result-cases
                (authenticate_client lib app headers form.client_id form.client_secret s).0) [
                  | inr (e, bad) ↦
                      rw
                        (
                          read,
                          parse_body_same lib form_of headers body s,
                          bad,
                          authenticate_same lib app headers form.client_id form.client_secret s,
                        )
                        k
                  | inl (client_id, known) ↦
                      rw
                        (
                          read,
                          parse_body_same lib form_of headers body s,
                          known,
                          authenticate_same lib app headers form.client_id form.client_secret s,
                        )
                        (dispatch-IsKept (app_issuer_for app base) client_id headers form resources
                          form.grant_type
                          (authenticate_given lib app headers form.client_id form.client_secret s
                            client_id known)
                          s k)
                ]
        ]
