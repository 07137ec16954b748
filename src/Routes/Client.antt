-- ===== src/Routes/Client.antt =====
-- Client credentials and their check (src/routes/token.rs).
use nano_mockidp.Base.{
  String, Bool, true, ◌&&◌, Option, none, some, List, [], ◌∷◌, any, if◌then◌else◌, and_then,
  is_some, is_none, same_text, non_empty, unwrap_or,
}
use nano_mockidp.Base.Text.{◌⊕◌, trim, strip_prefix, split_once}
use nano_mockidp.Base.Bytes.{as_bytes}
use nano_mockidp.Base.Map.{get}
use nano_mockidp.Base.Handler.{pure, guard, gets, require, ◌>>=◌, ◌>>◌}
use nano_mockidp.Config.{ClientConfig}
use nano_mockidp.Crates.{Crates}
use nano_mockidp.Http.{Headers, invalid_client, unauthorized_client}
use nano_mockidp.State.{AppState, Route}

pub record Credentials : Type 0 where
  pub id : Option String
  pub secret : Option String

abbrev first_key : List (String × String) → String
first_key [] = ""
first_key ((k, v) ∷ rest) = k

-- `secret.as_deref() != Some(expected)`, where the client has a secret
abbrev pub secret_fits : Option String → Option String → Bool
secret_fits none secret = true
secret_fits (some expected) secret = same_text secret (some expected)

unfoldable pub check_client : String → Option String → Route String
check_client client_id secret = do
  registered ← gets (λ s. get client_id s.clients)
  client ← require registered (invalid_client ("unknown client: " ⊕ client_id))
  guard (secret_fits client.client_secret secret) (invalid_client "invalid client_secret")
  pure client_id

abbrev pub is_trusted : Credentials → ClientConfig → Bool
is_trusted given c =
    same_text (some c.client_id) given.id
    && is_some c.client_secret
    && same_text c.client_secret given.secret

module _ (lib : Crates) where
  -- The closure `dec`
  abbrev decoded : String → String
  decoded x = first_key (lib.form_pairs (as_bytes x))

  abbrev basic : String → Credentials
  basic s =
      let (id, secret) = unwrap_or (split_once b':' s) (s, "") in
      record { id = some (decoded id); secret = non_empty (some (decoded secret)) }

  abbrev basic_text : Headers → Option String
  basic_text headers =
      and_then (headers "authorization")
        (λ v. and_then (strip_prefix "Basic " v) (λ b64. lib.decode_standard (trim b64)))

  -- `client_credentials`: HTTP Basic, or else the form
  unfoldable pub client_credentials : Headers → Option String → Option String → Credentials
  client_credentials headers form_id form_secret = elim (basic_text headers) [
    | some s ↦ basic s
    | none ↦ record { id = non_empty form_id; secret = non_empty form_secret }
  ]

  -- `authenticate_client`
  unfoldable pub authenticate_client :
      AppState → Headers → Option String → Option String → Route String
  unfolding client_credentials check_client
  authenticate_client app headers form_id form_secret = do
    let given = client_credentials headers form_id form_secret
    client_id ← require given.id (invalid_client "client_id is required")
    if app.config.strict then check_client client_id given.secret else pure client_id

  -- `ensure_trusted_client`
  unfoldable pub ensure_trusted_client :
      AppState → Headers → Option String → Option String → Route (Unit {0})
  unfolding client_credentials
  ensure_trusted_client app headers form_id form_secret =
      if is_none app.config.upstream
      then pure tt
      else guard
          (any (is_trusted (client_credentials headers form_id form_secret)) app.config.clients)
          (unauthorized_client
            "behind the upstream gate this grant needs a client from CLIENTS with its client_secret")
