-- ===== src/Crates.antt =====
-- The third-party crates that the program calls (`url`, `base64`, `sha2`, `serde_json`, `rsa`,
-- `hmac`), as parameters of the model: the functions, and the documented behaviour that some
-- theorems rely on.
use nano_mockidp.Base.{String, Bool, true, false, Option, List, ◌≡◌}
use nano_mockidp.Base.Bytes.{Bytes}
use nano_mockidp.Base.Text.{has_char}
use nano_mockidp.Base.Result.{Result, ok}
use nano_mockidp.Base.Map.{get}
use nano_mockidp.Json.{Value, object, fields, Claims}

-- A parsed `url::Url`: what the accessors that the program calls return.
pub record Url : Type 0 where
  pub text : String
  pub scheme : String
  pub path : String
  pub has_host : Bool
  pub cannot_be_a_base : Bool
  pub has_query : Bool
  pub has_fragment : Bool

pub record Crates : Type 0 where
  -- `url::Url::parse`, `query_pairs_mut().append_pair(…)` for each pair, `form_urlencoded::parse`
  pub parse_url : String → Result String Url
  pub append_pairs : Url → List (String × String) → Url
  pub form_pairs : Bytes → List (String × String)
  -- `URL_SAFE_NO_PAD`, and `STANDARD.decode` with the check that the bytes are UTF-8
  pub encode : Bytes → String
  pub decode : String → Result String Bytes
  pub decode_standard : String → Option String
  -- `Sha256::digest`, and HMAC-SHA256 under a key
  pub sha256 : Bytes → Bytes
  pub hmac : Bytes → Bytes → Bytes
  -- `serde_json::to_vec`, `from_slice` and `Value::to_string`
  pub to_vec : Value → Bytes
  pub from_slice : Bytes → Result String Value
  pub json_text : Value → String
  -- `rsa::pkcs1v15::Signature::try_from`
  pub signature_from : Bytes → Result String Bytes
  -- the `{:?}` of a text, which stands in messages only
  pub debug : String → String

-- `keys::SigningKey` (src/keys.rs): the RSA signer and verifier are functions on bytes.
pub data KeySource : Type 0 where
  random seed pem : KeySource

pub record SigningKey : Type 0 where
  pub kid : String
  pub signer : Bytes → Bytes
  pub verifier : Bytes → Bytes → Bool
  pub jwk : Value
  pub source : KeySource
  pub private_pem : String

-- The documented behaviour of base64url and of RSA signatures: what is encoded decodes to itself,
-- an encoded text has no dot, and a key verifies what it signs.
pub record IsFaithful (lib : Crates) (key : SigningKey) : Type 0 where
  pub decode-encode : (bs : Bytes) → lib.decode (lib.encode bs) ≡ ok bs
  pub encode_no_dot : (bs : Bytes) → has_char b'.' (lib.encode bs) ≡ false
  pub signature_from-sign : (bs : Bytes) → lib.signature_from (key.signer bs) ≡ ok (key.signer bs)
  pub verify-sign : (bs : Bytes) → key.verifier bs (key.signer bs) ≡ true

-- The documented behaviour of JSON at one object: it is written, and read back with the same
-- entries, in an order of the reader's.
pub record ReadsBack (lib : Crates) (m : Claims) : Type 0 where
  pub copy : Claims
  pub read : lib.from_slice (lib.to_vec (object (fields m))) ≡ ok (object (fields copy))
  pub same : (k : String) → get k copy ≡ get k m
