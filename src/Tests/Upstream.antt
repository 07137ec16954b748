-- ===== src/Tests/Upstream.antt =====
-- Applications of the theorems on the upstream login (src/upstream): the login of `u`, whose cookie,
-- header and ID token are read from one set of claims.
use nano_mockidp.Base.{
  ℕ, zero, suc, ◌<◌, String, true, none, some, List, [], ◌∷◌, ◌≡◌, ◌↔◌, refl, leb, arith, is_some,
  unwrap_or, if◌then◌else◌, and_then,
}
use nano_mockidp.Base.Bytes.{Bytes, as_bytes, take}
use nano_mockidp.Base.Map.{get}
use nano_mockidp.Base.Result.{ok, err}
use nano_mockidp.Base.Text.{◌⊕◌, split_once, trim}
use nano_mockidp.Config.{UpstreamConfig}
use nano_mockidp.Crates.{Crates, ReadsBack}
use nano_mockidp.Http.{Response}
use nano_mockidp.Json.{Value, Claims, object, array, nil, cons, fields, string, json_u64, as_str}
use nano_mockidp.State.{Env, Gate}
use nano_mockidp.Store.Data.{unix_secs}
use nano_mockidp.Tests.Fixture.{unary, encode_unary, libraries, libraries-IsFaithful, key}
use nano_mockidp.Token.Jws.{sign, value_get, jws_header}
use nano_mockidp.Upstream.Entry.{IsEntry, callback_at_sound}
use nano_mockidp.Upstream.Client.{metadata}
use nano_mockidp.Upstream.Discovery.{metadata_backs_off}
use nano_mockidp.Upstream.Gate.{login_cookie_name}
use nano_mockidp.Upstream.IdToken.{check_id_token, verify_id_token}
use nano_mockidp.Upstream.IdTokenChecks.{IsForUs, check_id_token_iff, verify_id_token_sound}
use nano_mockidp.Upstream.Jwks.{parse_jwks, jwk_key, cached_key}
use nano_mockidp.Upstream.KeySet.{get-parse_jwks}
use nano_mockidp.Upstream.Login.{CallbackQuery, unknown_state, login_of, pending_login, callback_at}
use nano_mockidp.Upstream.Headers.{all_visible}
use nano_mockidp.Upstream.Replies.{callback_at_answers}
use nano_mockidp.Upstream.Return.{login_of-pending_login}
use nano_mockidp.Upstream.Seal.{sealed_login, login_entries, seal, same_bytes}
use nano_mockidp.Upstream.Wire.{Verifier, unreachable, answered, Wire, Caches, no_caches, Moment}

abbrev cfg : UpstreamConfig
cfg = record {
  issuer = "https://idp";
  client_id = "gate";
  client_secret = none;
  scope = "openid";
  require_claim = none;
  session_ttl = 100;
  sub_token_claim = none;
  forward_claims = [];
  ca_path = none;
}

abbrev pub gate : Gate
gate = record {
  cfg = cfg;
  key = 7 ∷ [];
  redirect_uri = "https://here/upstream/callback";
  cookie_path = "/";
  secure = true;
}

abbrev pub env : Env
env = record {
  now = λ n. 1000000000000;
  random = λ n. if leb n 0 then "v" else if leb n 1 then "s" else "n";
}

abbrev pub header : Claims
header = ("alg", string "RS256") ∷ ("kid", string "k") ∷ []

-- What the pre-login cookie and the ID token say.
abbrev claims : Claims
claims =
    ("state", string "s")
    ∷ ("nonce", string "n")
    ∷ ("verifier", string "v")
    ∷ ("return_to", string "/authorize")
    ∷ ("exp", json_u64 1600)
    ∷ ("iss", string "https://idp/")
    ∷ ("aud", array (cons (string "gate") nil))
    ∷ ("sub", string "u")
    ∷ []

abbrev lib : Crates
lib = libraries header claims

abbrev id_token : String
id_token = sign lib key claims "JWT"

abbrev pub wire : Wire
wire = record {
  status_text = λ n. "";
  read_json = λ bs. ok (object (fields (("id_token", string id_token) ∷ [])));
  read_metadata = λ bs. err "no document";
  public_key = λ n e. some same_bytes;
  is_header_value = λ s. true;
}

abbrev moment : Moment
moment = record {
  get = λ url. unreachable "down";
  post = λ url auth form. answered 200 [];
  meanwhile = λ c. c;
  now = 5;
  later = 6;
}

abbrev caches : Caches
caches = record {
  meta = some (record {
    authorization_endpoint = "https://idp/auth";
    token_endpoint = "https://idp/token";
    jwks_uri = "https://idp/jwks";
  });
  meta_err = none;
  keys = ("k", same_bytes) ∷ [];
}

get-parse_jwks_example :
    get "k" (
      parse_jwks lib wire (
        object (
          fields (
            (
              "keys",
              array (
                  cons
                    (object (
                      fields (
                        ("kty", string "RSA")
                        ∷ ("kid", string "k")
                        ∷ ("n", string "b")
                        ∷ ("e", string "b")
                        ∷ [])))
                    nil),
            )
            ∷ []))))
    ≡ some same_bytes
unfolding jwk_key get
get-parse_jwks_example = get-parse_jwks lib wire "k" (
    object (
      fields (
        (
          "keys",
          array (
              cons
                (object (
                  fields (
                    ("kty", string "RSA")
                    ∷ ("kid", string "k")
                    ∷ ("n", string "b")
                    ∷ ("e", string "b")
                    ∷ [])))
                nil),
        )
        ∷ [])))

failed :
    (metadata wire cfg moment no_caches).0
    ≡ err "GET https://idp/.well-known/openid-configuration: down"
unfolding metadata
failed = refl

metadata_backs_off_example : metadata wire cfg moment (metadata wire cfg moment no_caches).1 ≡ (
  err "GET https://idp/.well-known/openid-configuration: down",
  (metadata wire cfg moment no_caches).1,
)
metadata_backs_off_example =
    metadata_backs_off wire cfg moment moment no_caches
      "GET https://idp/.well-known/openid-configuration: down" refl refl refl failed (omega arith)

accepted : (verify_id_token lib cfg wire moment moment id_token "n" 1000 caches).0 ≡ ok claims
unfolding verify_id_token sign get same_bytes as_bytes take
accepted = refl

check_id_token_iff_example :
    (check_id_token lib cfg same_bytes id_token "n" 1000 ≡ ok claims)
    ↔ IsForUs lib cfg same_bytes id_token "n" 1000 claims
check_id_token_iff_example = check_id_token_iff lib cfg same_bytes id_token "n" 1000 claims

verify_id_token_sound_example :
    (h : Value) × (verifier : Verifier) × (jws_header lib id_token ≡ ok h)
    × (cached_key
          (and_then (value_get "kid" h) as_str)
          (verify_id_token lib cfg wire moment moment id_token "n" 1000 caches).1
        ≡ some verifier)
    × IsForUs lib cfg verifier id_token "n" 1000 claims
verify_id_token_sound_example =
    verify_id_token_sound lib cfg wire moment moment id_token "n" 1000 caches claims accepted

-- The value of the pre-login cookie.
abbrev sealed_value : String
sealed_value = seal lib sealed_login gate.key (pending_login lib wire gate env "/authorize")

abbrev query : CallbackQuery
query = record { code = some "c"; state = some "s"; error = none; error_description = none }

abbrev cookies : List String
cookies = ("theme=dark; " ⊕ unwrap_or (login_cookie_name "s") "" ⊕ "=" ⊕ sealed_value) ∷ []

-- The answer to the callback.
abbrev entrance : Response
entrance =
    unwrap_or (callback_at lib wire gate env (λ n. moment) query cookies caches).0 unknown_state

enters : (callback_at lib wire gate env (λ n. moment) query cookies caches).0 ≡ some entrance
unfolding callback_at sign seal get same_bytes as_bytes take split_once trim
enters = refl

redirects : entrance.status ≡ 302
unfolding callback_at sign seal get same_bytes as_bytes take split_once trim
redirects = refl

callback_at_sound_example : IsEntry lib wire gate env (λ n. moment) query caches cookies entrance
callback_at_sound_example =
    callback_at_sound lib wire gate env (λ n. moment) query caches cookies entrance enters redirects

-- The libraries that read the cookie alone.
abbrev cookie_claims : Claims
cookie_claims =
    ("state", string "s")
    ∷ ("nonce", string "n")
    ∷ ("verifier", string "v")
    ∷ ("return_to", string "/authorize")
    ∷ ("exp", json_u64 1600)
    ∷ []

abbrev cookie_lib : Crates
cookie_lib = libraries header cookie_claims

abbrev cookie_reads :
    ReadsBack cookie_lib (login_entries (pending_login cookie_lib wire gate env "/authorize"))
unfolding get same_bytes unix_secs
cookie_reads = record { copy = cookie_claims; read = refl; same = λ k. refl }

in_time : 1000 < 1600
in_time = omega arith

login_of-pending_login_example :
    login_of cookie_lib wire gate env "s"
      (seal cookie_lib sealed_login gate.key (pending_login cookie_lib wire gate env "/authorize"))
    ≡ some (pending_login cookie_lib wire gate env "/authorize")
unfolding unix_secs
login_of-pending_login_example =
    login_of-pending_login cookie_lib key wire gate env env
      (libraries-IsFaithful header cookie_claims) "/authorize" cookie_reads in_time

visible_unary : (n : ℕ) (s : String) → all_visible s ≡ true → all_visible (unary n s) ≡ true
unfolding all_visible
visible_unary zero s h = ground (arith, h)
visible_unary (suc n) s h = ground (arith, visible_unary n s h)

visible_encoded : (bs : Bytes) → all_visible (encode_unary bs) ≡ true
unfolding all_visible
visible_encoded [] = refl
visible_encoded (b ∷ bs) = visible_unary b (encode_unary bs) (visible_encoded bs)

visible_path : all_visible "/" ≡ true
unfolding all_visible
visible_path = refl

callback_at_answers_example :
    is_some (callback_at lib wire gate env (λ n. moment) query cookies caches).0 ≡ true
callback_at_answers_example =
    callback_at_answers lib wire gate env visible_encoded (λ s h. refl) visible_path (λ n. moment)
      query cookies caches
