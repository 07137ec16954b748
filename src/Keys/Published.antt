-- ===== src/Keys/Published.antt =====
-- The published key set, as a client reads it (`jwks` of src/keys.rs, `parse_jwks` of
-- src/upstream/client.rs).
use nano_mockidp.Base.{
  String, some, ◌≡◌, Option-cases, inl, inr, eq_refl, is_some, ◌||◌, if◌then◌else◌,
}
use nano_mockidp.Base.Text.{◌⊕◌}
use nano_mockidp.Base.Map.{get}
use nano_mockidp.Base.Result.{ok, bind-eq-ok, ok-injective}
use nano_mockidp.Config.{Config}
use nano_mockidp.Crates.{Crates, SigningKey, KeySource, pem, seed, random}
use nano_mockidp.Keys.{
  PrivateKey, KeyStore, kid_of, jwk_of, from_private, from_pem, read_pem, load, jwks,
}
use nano_mockidp.Token.Jws.{map_err}
use nano_mockidp.Upstream.Jwks.{parse_jwks, jwk_key}
use nano_mockidp.Upstream.KeySet.{get-parse_jwks}
use nano_mockidp.Upstream.Wire.{Wire}

-- Where the key comes from that the settings ask for.
abbrev pub source_of : Config → KeySource
source_of cfg =
    if is_some cfg.signing_key_path || is_some cfg.signing_key_pem
    then pem
    else if is_some cfg.signing_key_seed
    then seed
    else random

module _ (lib : Crates) (keys : KeyStore) where
  abbrev pub IsMade : KeySource → SigningKey → Type 0
  IsMade source key = (private : PrivateKey) × (from_private lib private source ≡ key)

  from_pem_made :
      (text : String) (key : SigningKey) → from_pem lib keys text ≡ ok key → IsMade pem key
  unfolding from_pem
  from_pem_made text key h =
      let (private, _, same) =
        bind-eq-ok
          (map_err "invalid RSA private key PEM: "
            (read_pem lib keys text (keys.from_pkcs1_pem text)))
          (λ k. ok (from_private lib k pem)) h in
      (private, ok-injective same)

  -- A signing key that is loaded is made of a private key, and its source is what the settings ask
  -- for: a file or a PEM text come first, then a seed, and a random key is the last resort.
  pub load_source :
      (cfg : Config) (key : SigningKey) → load lib keys cfg ≡ ok key → IsMade (source_of cfg) key
  unfolding load
  load_source cfg key h = elim (Option-cases cfg.signing_key_path) [
    | inr (path, given) ↦
        let (text, _, made) =
          bind-eq-ok
            (map_err ("SIGNING_KEY_PATH: cannot read " ⊕ path ⊕ ": ") (keys.read_to_string path)) _
            (rw (load, given) at h) in
        rw given (from_pem_made text key made)
    | inl no_path ↦ elim (Option-cases cfg.signing_key_pem) [
      | inr (text, given) ↦
          rw (no_path, given) (from_pem_made text key (rw (load, no_path, given) at h))
      | inl no_pem ↦ elim (Option-cases cfg.signing_key_seed) [
        | inr (text, given) ↦
            rw (no_path, no_pem, given) (_, ok-injective (rw (load, no_path, no_pem, given) at h))
        | inl no_seed ↦
            rw (no_path, no_pem, no_seed)
              (_, ok-injective (rw (load, no_path, no_pem, no_seed) at h))
      ]
    ]
  ]

module _ (lib : Crates) (wire : Wire) (private : PrivateKey) (source : KeySource) where
  -- The key of a published key set that has the `kid` of the signing key verifies with it, given that
  -- base64url decodes what it encodes of the public key, and that the public key is made again of
  -- its two numbers.
  pub from_private_published :
      lib.decode (lib.encode private.modulus) ≡ ok private.modulus
      → lib.decode (lib.encode private.exponent) ≡ ok private.exponent
      → wire.public_key private.modulus private.exponent ≡ some private.verifier
      → let key = from_private lib private source in
        get key.kid (parse_jwks lib wire (jwks key)) ≡ some key.verifier
  unfolding jwks from_private jwk_of jwk_key get
  from_private_published n e pk =
      rw (get-parse_jwks lib wire) (rw (eq_refl (kid_of lib private)) (rw (n, e) pk))
