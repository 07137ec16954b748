-- ===== src/Tests/Fixture.antt =====
-- Concrete libraries, keys and settings for the tests: a base64url that writes a byte in unary, a
-- signature that is the message, and a JSON that knows one header and one set of claims.
use nano_mockidp.Base.{
  ℕ, zero, suc, ◌+◌, String, true, false, none, some, List, [], ◌∷◌, ◌++◌, ◌==◌, ◌≡◌, refl, arith,
  if◌then◌else◌, is_some, leb,
}
use nano_mockidp.Base.Bytes.{Bytes}
use nano_mockidp.Base.Text.{◌⊕◌, ◌=ᶜ◌, has_char}
use nano_mockidp.Base.Result.{Result, ok, err}
use nano_mockidp.Config.{Config}
use nano_mockidp.Crates.{Crates, Url, SigningKey, random, IsFaithful}
use nano_mockidp.Json.{null, object, fields, Claims}
use nano_mockidp.State.{AppState, Env}
use nano_mockidp.Token.Jws.{value_get}
use nano_mockidp.Upstream.Seal.{same_bytes}

abbrev pub unary : ℕ → String → String
unary zero s = String.◌∷◌ "b" s
unary (suc n) s = String.◌∷◌ "a" (unary n s)

abbrev pub encode_unary : Bytes → String
encode_unary [] = ""
encode_unary (n ∷ ns) = unary n (encode_unary ns)

abbrev pub cons_byte : ℕ → Result String Bytes → Result String Bytes
cons_byte n (ok ns) = ok (n ∷ ns)
cons_byte n (err e) = err e

abbrev pub decode_unary : ℕ → String → Result String Bytes
decode_unary n String.[] = ok []
decode_unary n (String.◌∷◌ c s) =
    let next = cons_byte n (decode_unary 0 s) in
    let longer = decode_unary (suc n) s in if c =ᶜ b'b' then next else longer

decode_unary-unary :
    (k n : ℕ) (s : String) → decode_unary k (unary n s) ≡ cons_byte (k + n) (decode_unary 0 s)
decode_unary-unary k zero s = ground arith
decode_unary-unary k (suc n) s = ground (arith, decode_unary-unary (suc k) n s)

pub decode-encode_unary : (bs : Bytes) → decode_unary 0 (encode_unary bs) ≡ ok bs
decode-encode_unary [] = refl
decode-encode_unary (n ∷ ns) =
    ground (arith, decode_unary-unary 0 n (encode_unary ns), decode-encode_unary ns)

unary_no_dot : (n : ℕ) (s : String) → has_char b'.' s ≡ false → has_char b'.' (unary n s) ≡ false
unfolding has_char
unary_no_dot zero s h = h
unary_no_dot (suc n) s h = unary_no_dot n s h

encode_no_dot : (bs : Bytes) → has_char b'.' (encode_unary bs) ≡ false
unfolding has_char
encode_no_dot [] = refl
encode_no_dot (n ∷ ns) = unary_no_dot n (encode_unary ns) (encode_no_dot ns)

same_bytes_refl : (bs : Bytes) → same_bytes bs bs ≡ true
unfolding same_bytes
same_bytes_refl [] = refl
same_bytes_refl (b ∷ bs) = ground (arith, same_bytes_refl bs)

abbrev pub some_url : String → Url
some_url s = record {
  text = s;
  scheme = "https";
  path = "/";
  has_host = true;
  cannot_be_a_base = false;
  has_query = false;
  has_fragment = false;
}

abbrev join_pairs : List (String × String) → String
join_pairs [] = ""
join_pairs ((k, v) ∷ rest) = "&" ⊕ k ⊕ "=" ⊕ v ⊕ join_pairs rest

-- The libraries, where JSON reads one header and one set of claims.
abbrev pub libraries : Claims → Claims → Crates
libraries header claims = record {
  parse_url = λ s. if s == "" then err "empty" else ok (some_url s);
  append_pairs = λ url pairs. record url { text = url.text ⊕ "?" ⊕ join_pairs pairs };
  form_pairs = λ bs. [];
  encode = encode_unary;
  decode = decode_unary 0;
  decode_standard = λ s. none;
  sha256 = λ bs. bs;
  hmac = λ key bs. key ++ bs;
  to_vec = λ v. if is_some (value_get "alg" v) then 1 ∷ [] else 2 ∷ [];
  from_slice = λ bs.
      if same_bytes bs (1 ∷ []) then ok (object (fields header)) else ok (object (fields claims));
  json_text = λ v. "";
  signature_from = λ bs. ok bs;
  debug = λ s. s;
}

abbrev pub key : SigningKey
key = record {
  kid = "k";
  signer = λ bs. bs;
  verifier = same_bytes;
  jwk = null;
  source = random;
  private_pem = "";
}

pub libraries-IsFaithful : (header claims : Claims) → IsFaithful (libraries header claims) key
libraries-IsFaithful header claims = record {
  decode-encode = decode-encode_unary;
  encode_no_dot = encode_no_dot;
  signature_from-sign = λ bs. refl;
  verify-sign = same_bytes_refl;
}

abbrev pub lib : Crates
lib = libraries [] []

abbrev pub config : Config
config = record {
  port = 8080;
  issuer_url = some_url "http://localhost:8080";
  issuer_path = "";
  endpoints_from_request_host = true;
  issuer_from_request_host = false;
  internal_url = none;
  strict = true;
  admin_token = some "secret";
  clients = [];
  login_page_path = none;
  default_claims = [];
  upstream = none;
  access_token_ttl = 3600;
  id_token_ttl = 3600;
  refresh_token_ttl = 2592000;
  signing_key_seed = none;
  signing_key_pem = none;
  signing_key_path = none;
  cors_allowed_origins = "*" ∷ [];
  log_level = "info";
}

abbrev pub app : AppState
app = record { config = config; key = key; gate = none; issuer_str = "http://localhost:8080" }

-- A clock that stands still at 1000 seconds.
abbrev pub env : Env
env = record {
  now = λ n. 1000000000000;
  random = λ n. if leb n 0 then "r0" else if leb n 1 then "r1" else "r2";
}
