-- ===== src/Upstream/Jwks.antt =====
-- The key set of src/upstream/client.rs: `parse_jwks` and `cached_key`.
use nano_mockidp.Base.{
  String, Bool, ◌&&◌, Option, none, some, List, [], ◌∷◌, ◌==◌, if◌then◌else◌, and_then, is_none_or,
  same_text, unwrap_or,
}
use nano_mockidp.Base.Bytes.{Bytes}
use nano_mockidp.Base.Map.{Map, get, insert}
use nano_mockidp.Base.Result.{to_option}
use nano_mockidp.Crates.{Crates}
use nano_mockidp.Json.{Value, as_str, as_array}
use nano_mockidp.Token.Jws.{value_get}
use nano_mockidp.Upstream.Wire.{Verifier, Wire, Caches}

-- The two filters of `parse_jwks`: an RSA key, for signatures if it says for what.
abbrev pub is_signing_key : Value → Bool
is_signing_key k =
    same_text (and_then (value_get "kty" k) as_str) (some "RSA")
    && is_none_or (and_then (value_get "use" k) as_str) (λ u. u == "sig")

abbrev pub jwk_id : Value → String
jwk_id k = unwrap_or (and_then (value_get "kid" k) as_str) ""

abbrev pub listed : Value → List Value
listed jwks = unwrap_or (and_then (value_get "keys" jwks) as_array) []

module _ (lib : Crates) (wire : Wire) where
  -- The closure `b64`
  abbrev decoded_text : Option Value → Option Bytes
  decoded_text v = and_then (and_then v as_str) (λ s. to_option (lib.decode s))

  unfoldable pub jwk_key : Value → Option Verifier
  jwk_key k =
      and_then (decoded_text (value_get "n" k))
        (λ n. and_then (decoded_text (value_get "e" k)) (λ e. wire.public_key n e))

  unfoldable pub add_jwk : Value → Map Verifier → Map Verifier
  unfolding jwk_key
  add_jwk k keys =
      if is_signing_key k
      then elim (jwk_key k) [ some verifier ↦ insert (jwk_id k) verifier keys | none ↦ keys ]
      else keys

  -- `collect` into a map: a later key of the same `kid` replaces an earlier one.
  unfoldable pub add_jwks : List Value → Map Verifier → Map Verifier
  unfolding add_jwk
  add_jwks [] keys = keys
  add_jwks (k ∷ ks) keys = add_jwks ks (add_jwk k keys)

  -- `parse_jwks`
  unfoldable pub parse_jwks : Value → Map Verifier
  unfolding add_jwks
  parse_jwks jwks = add_jwks (listed jwks) []

abbrev pub only_key : Map Verifier → Option Verifier
only_key ((k, verifier) ∷ []) = some verifier
only_key _ = none

-- `cached_key`
unfoldable pub cached_key : Option String → Caches → Option Verifier
cached_key (some kid) c = get kid c.keys
cached_key none c = only_key c.keys
