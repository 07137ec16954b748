-- ===== src/Token/Jws.antt =====
-- Compact JWS (src/token.rs): `sign`, `jws_header` and `verify_signature`.
use nano_mockidp.Base.{
  ◌≡◌, refl, ◌+◌, String, Bool, true, false, Option, none, some, List, [], ◌∷◌, same_text, and_then,
  length,
}
use nano_mockidp.Base.Text.{◌⊕◌, split_by, ◌=ᶜ◌}
use nano_mockidp.Base.Bytes.{Bytes, as_bytes, take}
use nano_mockidp.Base.Result.{Result, ok, err, ◌>>=◌}
use nano_mockidp.Base.Map.{get}
use nano_mockidp.Crates.{Crates, SigningKey}
use nano_mockidp.Json.{Value, string, object, fields, entries, Claims, as_str}

-- `Value::get(name)`
abbrev pub value_get : String → Value → Option Value
value_get k (object fs) = get k (entries fs)
value_get k _ = none

unfoldable pub split_dots : String → List String
unfolding split_by
split_dots = split_by (λ c. c =ᶜ b'.')

-- `map_err(|e| format!("{prefix}{e}"))`
abbrev pub map_err {ℓ} : {A : Type ℓ} → String → Result String A → Result String A
map_err prefix (ok a) = ok a
map_err prefix (err e) = err (prefix ⊕ e)

abbrev pub head_or_empty : List String → String
head_or_empty [] = ""
head_or_empty (s ∷ ss) = s

abbrev claims_of : Value → Result String Claims
claims_of (object fs) = ok (entries fs)
claims_of _ = err "claims are not an object"

-- `if !test { return Err(message) }`
abbrev pub check : Bool → String → Result String (Unit {0})
check true message = ok tt
check false message = err message

-- A check that passes.
pub check-eq-ok : (b : Bool) (message : String) → check b message ≡ ok tt → b ≡ true
check-eq-ok true message h = refl
check-eq-ok false message h = cc

module _ (lib : Crates) where
  abbrev pub jose_header : SigningKey → String → Claims
  jose_header key typ = ("typ", string typ) ∷ ("alg", string "RS256") ∷ ("kid", string key.kid) ∷ []

  -- `encode(header) "." encode(claims)`
  unfoldable pub signing_input : SigningKey → Claims → String → String
  signing_input key claims typ =
      lib.encode (lib.to_vec (object (fields (jose_header key typ))))
      ⊕ "."
      ⊕ lib.encode (lib.to_vec (object (fields claims)))

  unfoldable pub sign : SigningKey → Claims → String → String
  unfolding signing_input
  sign key claims typ =
      let token = signing_input key claims typ in
      token ⊕ "." ⊕ lib.encode (key.signer (as_bytes token))

  unfoldable pub jws_header : String → Result String Value
  unfolding split_dots
  jws_header token = do
    bytes ← map_err "bad header encoding: " (lib.decode (head_or_empty (split_dots token)))
    map_err "bad header json: " (lib.from_slice bytes)

  -- What follows the split into the parts `h`, `p` and `sig`.
  unfoldable pub verify_parts :
      (Bytes → Bytes → Bool) → String → String → String → String → Result String Claims
  unfolding jws_header
  verify_parts verifier token h p sig = do
    header ← jws_header token
    check_ok ←
        check (same_text (and_then (value_get "alg" header) as_str) (some "RS256"))
          "unsupported alg (expected RS256)"
    sig_bytes ← map_err "bad signature encoding: " (lib.decode sig)
    signature ← map_err "bad signature: " (lib.signature_from sig_bytes)
    checked ←
        check
          (verifier (take (length (as_bytes h) + 1 + length (as_bytes p)) (as_bytes token))
            signature)
          "invalid signature"
    payload ← map_err "bad payload encoding: " (lib.decode p)
    value ← map_err "bad payload json: " (lib.from_slice payload)
    claims_of value

  abbrev three_parts : (Bytes → Bytes → Bool) → String → List String → Result String Claims
  three_parts verifier token (h ∷ p ∷ sig ∷ []) = verify_parts verifier token h p sig
  three_parts verifier token _ = err "token is not a compact JWS (expected 3 segments)"

  unfoldable pub verify_signature : (Bytes → Bytes → Bool) → String → Result String Claims
  unfolding verify_parts split_dots
  verify_signature verifier token = three_parts verifier token (split_dots token)
