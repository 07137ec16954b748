-- ===== src/Upstream/Seal.antt =====
-- Sealed cookies (src/upstream/gate.rs): the payloads, `GateKey::seal` and `GateKey::open`.
use nano_mockidp.Base.{
  ℕ, String, Bool, true, false, ◌&&◌, Option, none, some, [], ◌∷◌, ◌++◌, ltb, leb, if◌then◌else◌,
  and_then,
}
use nano_mockidp.Base.Text.{◌⊕◌, split_once}
use nano_mockidp.Base.Bytes.{Bytes, as_bytes}
use nano_mockidp.Base.Result.{to_option}
use nano_mockidp.Crates.{Crates}
use nano_mockidp.Json.{
  Value, null, string, object, Claims, entries, fields, as_str, as_u64, json_u64,
}
use nano_mockidp.Token.Jws.{value_get}

-- The trait `Sealed`: a kind, an expiry, and serde's way to and from JSON.
pub record Sealed (T : Type 0) : Type 0 where
  pub kind : String
  pub exp : T → ℕ
  pub write : T → Value
  pub read : Value → Option T

pub record GateSession : Type 0 where
  pub sub : String
  pub email : Option String
  pub claims : Claims
  pub exp : ℕ

pub record PendingLogin : Type 0 where
  pub state : String
  pub nonce : String
  pub verifier : String
  pub return_to : String
  pub exp : ℕ

-- `skip_serializing_if`
abbrev email_field : Option String → Claims
email_field none = []
email_field (some e) = ("email", string e) ∷ []

abbrev claims_field : Claims → Claims
claims_field [] = []
claims_field (c ∷ cs) = ("claims", object (fields (c ∷ cs))) ∷ []

abbrev pub session_entries : GateSession → Claims
session_entries s =
    ("sub", string s.sub)
    ∷ (email_field s.email ++ (claims_field s.claims ++ ("exp", json_u64 s.exp) ∷ []))

abbrev write_session : GateSession → Value
write_session s = object (fields (session_entries s))

-- `#[serde(default)]` on an `Option<String>` and on a map
abbrev read_email : Option Value → Option (Option String)
read_email none = some none
read_email (some null) = some none
read_email (some (string e)) = some (some e)
read_email (some _) = none

abbrev read_claims : Option Value → Option Claims
read_claims none = some []
read_claims (some (object fs)) = some (entries fs)
read_claims (some _) = none

infixl 5 ◌>>=◌
abbrev ◌>>=◌ : {A B : Type 0} → Option A → (A → Option B) → Option B
m >>= f = and_then m f

abbrev read_session : Value → Option GateSession
read_session v = do
  sub ← and_then (value_get "sub" v) as_str
  email ← read_email (value_get "email" v)
  claims ← read_claims (value_get "claims" v)
  exp ← and_then (value_get "exp" v) as_u64
  some (record { sub = sub; email = email; claims = claims; exp = exp })

abbrev pub login_entries : PendingLogin → Claims
login_entries l =
    ("state", string l.state)
    ∷ ("nonce", string l.nonce)
    ∷ ("verifier", string l.verifier)
    ∷ ("return_to", string l.return_to)
    ∷ ("exp", json_u64 l.exp)
    ∷ []

abbrev write_login : PendingLogin → Value
write_login l = object (fields (login_entries l))

abbrev read_login : Value → Option PendingLogin
read_login v = do
  state ← and_then (value_get "state" v) as_str
  nonce ← and_then (value_get "nonce" v) as_str
  verifier ← and_then (value_get "verifier" v) as_str
  return_to ← and_then (value_get "return_to" v) as_str
  exp ← and_then (value_get "exp" v) as_u64
  some (record {
    state = state;
    nonce = nonce;
    verifier = verifier;
    return_to = return_to;
    exp = exp;
  })

abbrev pub sealed_session : Sealed GateSession
sealed_session = record {
  kind = "gate";
  exp = λ s. s.exp;
  write = write_session;
  read = read_session;
}

abbrev pub sealed_login : Sealed PendingLogin
sealed_login = record { kind = "login"; exp = λ l. l.exp; write = write_login; read = read_login }

-- `verify_slice`: the tags are equal, byte by byte.
unfoldable pub same_bytes : Bytes → Bytes → Bool
same_bytes [] [] = true
same_bytes (a ∷ as') (b ∷ bs) = leb a b && leb b a && same_bytes as' bs
same_bytes _ _ = false

module _ (lib : Crates) where
  -- HMAC over `kind "\0" payload`
  unfoldable pub mac : Bytes → String → String → Bytes
  mac key kind payload = lib.hmac key (as_bytes kind ++ 0 ∷ as_bytes payload)

  -- `base64url(json) "." base64url(hmac)`
  unfoldable pub seal : {T : Type 0} → Sealed T → Bytes → T → String
  unfolding mac
  seal S key v =
      let payload = lib.encode (lib.to_vec (S.write v)) in
      payload ⊕ "." ⊕ lib.encode (mac key S.kind payload)

  abbrev when : {T : Type 0} → Bool → T → Option T
  when b v = if b then some v else none

  unfoldable pub opened : {T : Type 0} → Sealed T → Bytes → String → ℕ → Option T
  unfolding mac same_bytes
  opened S key value now = do
    parts ← split_once b'.' value
    tag ← to_option (lib.decode parts.1)
    genuine ← when (same_bytes (mac key S.kind parts.0) tag) (tt {0})
    json ← to_option (lib.decode parts.0)
    v ← to_option (lib.from_slice json)
    sealed ← S.read v
    when (ltb now (S.exp sealed)) sealed
