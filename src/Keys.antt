-- ===== src/Keys.antt =====
-- src/keys.rs: where the signing key comes from, and the key set that is published.
pub mod Published
use Prim.Native.String
use nano_mockidp.Base.{
  ℕ, zero, suc, ◌/◌, ◌%◌, Bool, leb, if◌then◌else◌, String, Option, none, some, [], ◌∷◌,
}
use nano_mockidp.Base.Bytes.{Bytes, as_bytes}
use nano_mockidp.Base.Text.{◌⊕◌, digit}
use nano_mockidp.Base.Result.{Result, ok, err, ◌>>=◌}
use nano_mockidp.Config.{Config}
use nano_mockidp.Crates.{Crates, SigningKey, KeySource, random, seed, pem}
use nano_mockidp.Json.{Value, string, array, object, nil, cons, fields}
use nano_mockidp.Token.Jws.{map_err}

-- A `RsaPrivateKey` of the `rsa` crate: what the functions that the program calls return on it.
pub record PrivateKey : Type 0 where
  pub modulus : Bytes
  pub exponent : Bytes
  pub public_der : Bytes
  pub pkcs1_pem : String
  pub signer : Bytes → Bytes
  pub verifier : Bytes → Bytes → Bool

-- What a key is loaded with: a key of the thread's generator, the key of a seeded generator, the two
-- PEM readers, and the file system with its error text.
pub record KeyStore : Type 0 where
  pub generated : PrivateKey
  pub from_rng_seed : Bytes → PrivateKey
  pub from_pkcs1_pem : String → Result String PrivateKey
  pub from_pkcs8_pem : String → Result String PrivateKey
  pub read_to_string : String → Result String String

abbrev pub hex_digit : ℕ → String
hex_digit n =
    if leb n 9
    then digit n
    else if leb n 10
    then "a"
    else if leb n 11
    then "b"
    else if leb n 12
    then "c"
    else if leb n 13
    then "d"
    else if leb n 14
    then "e"
    else "f"

-- `format!("{b:02x}")` of each byte
unfoldable pub hex : Bytes → String
hex [] = ""
hex (b ∷ bs) = hex_digit (b / 16) ⊕ hex_digit (b % 16) ⊕ hex bs

-- `[..n]` of a text that has that many characters
unfoldable pub first_chars : ℕ → String → String
first_chars zero s = ""
first_chars (suc n) String.[] = ""
first_chars (suc n) (String.◌∷◌ c s) = String.◌∷◌ c (first_chars n s)

module _ (lib : Crates) where
  unfoldable pub kid_of : PrivateKey → String
  unfolding hex first_chars
  kid_of key = first_chars 16 (hex (lib.sha256 key.public_der))

  unfoldable pub jwk_of : PrivateKey → Value
  jwk_of key = object (
      fields (
        ("kty", string "RSA")
        ∷ ("use", string "sig")
        ∷ ("alg", string "RS256")
        ∷ ("kid", string (kid_of key))
        ∷ ("n", string (lib.encode key.modulus))
        ∷ ("e", string (lib.encode key.exponent))
        ∷ []))

  -- `SigningKey::from_private`
  unfoldable pub from_private : PrivateKey → KeySource → SigningKey
  unfolding kid_of jwk_of
  from_private key source = record {
    kid = kid_of key;
    signer = key.signer;
    verifier = key.verifier;
    jwk = jwk_of key;
    source = source;
    private_pem = key.pkcs1_pem;
  }

  module _ (keys : KeyStore) where
    abbrev pub random_key : SigningKey
    random_key = from_private keys.generated random

    abbrev pub from_seed : String → SigningKey
    from_seed text = from_private (keys.from_rng_seed (lib.sha256 (as_bytes text))) seed

    -- `or_else`
    abbrev pub read_pem : String → Result String PrivateKey → Result String PrivateKey
    read_pem text (ok key) = ok key
    read_pem text (err e) = keys.from_pkcs8_pem text

    unfoldable pub from_pem : String → Result String SigningKey
    unfolding from_private
    from_pem text = do
      key ← map_err "invalid RSA private key PEM: " (read_pem text (keys.from_pkcs1_pem text))
      ok (from_private key pem)

    -- `SigningKey::load`
    unfoldable pub load : Config → Result String SigningKey
    unfolding from_pem from_private
    load cfg = elim cfg.signing_key_path [
      | some path ↦
          map_err ("SIGNING_KEY_PATH: cannot read " ⊕ path ⊕ ": ") (keys.read_to_string path)
          >>= from_pem
      | none ↦ elim cfg.signing_key_pem [
        | some text ↦ from_pem text
        | none ↦ elim cfg.signing_key_seed [
          | some text ↦ ok (from_seed text)
          | none ↦ ok random_key
        ]
      ]
    ]

-- `SigningKey::jwks`
unfoldable pub jwks : SigningKey → Value
jwks key = object (fields (("keys", array (cons key.jwk nil)) ∷ []))
