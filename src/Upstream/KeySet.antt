-- ===== src/Upstream/KeySet.antt =====
-- Which key of a key set is used for a `kid`, and how the cache of keys is refilled.
use nano_mockidp.Base.{
  String, ◌&&◌, Option, none, some, List, [], ◌∷◌, ◌≡◌, inl, inr, refl, arith, if◌then◌else◌,
  Option-cases, Bool-cases, or_else, ◌==◌,
}
use nano_mockidp.Base.Text.{◌⊕◌}
use nano_mockidp.Base.Map.{Map, get, get-insert, get-nil}
use nano_mockidp.Base.Result.{ok, ok_or}
use nano_mockidp.Config.{UpstreamConfig}
use nano_mockidp.Crates.{Crates}
use nano_mockidp.Json.{Value}
use nano_mockidp.Upstream.Client.{key, fetch_key, metadata, got_json, debug_option}
use nano_mockidp.Upstream.Jwks.{
  parse_jwks, add_jwks, add_jwk, is_signing_key, jwk_key, jwk_id, listed, cached_key,
}
use nano_mockidp.Upstream.Wire.{Metadata, Verifier, Wire, Caches, Moment}

module _ (lib : Crates) (wire : Wire) where
  -- The key that one JWK offers for a `kid`.
  abbrev pub offer : String → Value → Option Verifier
  offer kid k = if is_signing_key k && jwk_id k == kid then jwk_key lib wire k else none

  -- The last key of a list that is offered for a `kid`.
  abbrev pub last_offer : String → List Value → Option Verifier
  last_offer kid [] = none
  last_offer kid (k ∷ ks) = or_else (last_offer kid ks) (offer kid k)

  get-add_jwk :
      (kid : String) (k : Value) (keys : Map Verifier)
      → get kid (add_jwk lib wire k keys) ≡ or_else (offer kid k) (get kid keys)
  unfolding add_jwk
  get-add_jwk kid k keys = elim (Bool-cases (is_signing_key k)) [
    | inl signs ↦
        rw (signs, add_jwk)
          (elim (Option-cases (jwk_key lib wire k)) [
            | inl bad ↦ rw bad (ground arith)
            | inr (v, good) ↦ rw good (rw get-insert (ground arith))
          ])
    | inr other ↦ rw (other, add_jwk) refl
  ]

  get-add_jwks :
      (kid : String) (ks : List Value) (keys : Map Verifier)
      → get kid (add_jwks lib wire ks keys) ≡ or_else (last_offer kid ks) (get kid keys)
  unfolding add_jwks
  get-add_jwks kid [] keys = refl
  get-add_jwks kid (k ∷ ks) keys =
      rw (get-add_jwks kid ks (add_jwk lib wire k keys))
        (rw (get-add_jwk kid k keys) (ground arith))

  -- The key of a `kid` in a parsed key set is that of the last signing RSA key of the set with this
  -- `kid`, where a key that names none has the empty one, and keys that cannot be read are skipped.
  pub get-parse_jwks :
      (kid : String) (jwks : Value)
      → get kid (parse_jwks lib wire jwks) ≡ last_offer kid (listed jwks)
  unfolding parse_jwks
  get-parse_jwks kid jwks =
      rw (get-add_jwks kid (listed jwks) []) (rw (get-nil {V = Verifier}) (ground arith))

module _ (lib : Crates) (wire : Wire) (cfg : UpstreamConfig) (at jwks_at : Moment)
    (c : Caches) where
  -- A key that is returned is the key of the cache for the `kid`, as the cache is then.
  pub key_sound :
      (kid : Option String) (v : Verifier)
      → (key lib wire cfg at jwks_at kid c).0 ≡ ok v
      → cached_key kid (key lib wire cfg at jwks_at kid c).1 ≡ some v
  unfolding key fetch_key
  key_sound kid v h = ground arith

  -- A `kid` that is not in the cache makes the key set be fetched: the fetched set replaces the
  -- cached one whole, and the key is then looked up in it, or refused.
  key_refetches :
      (kid : Option String) (m : Metadata) (jwks : Value)
      → cached_key kid c ≡ none
      → c.meta ≡ some m
      → got_json wire wire.read_json m.jwks_uri (jwks_at.get m.jwks_uri) ≡ ok jwks
      → let fresh = record (jwks_at.meanwhile c) { keys = parse_jwks lib wire jwks } in
        key lib wire cfg at jwks_at kid c ≡ (
          ok_or
              (cached_key kid fresh)
              ("no RS256 key " ⊕ debug_option lib kid ⊕ " in the upstream JWKS"),
          fresh,
        )
  unfolding key fetch_key metadata
  key_refetches kid m jwks unknown known fetched = ground arith
