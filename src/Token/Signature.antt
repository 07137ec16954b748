-- ===== src/Token/Signature.antt =====
-- What this server signs, it accepts: the round trip of `sign` and `verify_signature`.
use text.Mathlib.TextLemmas.{nil-append, cons-append, append_assoc}
use nano_mockidp.Base.{◌+◌, String, false, some, [], ◌∷◌, ◌≡◌, refl, ap, ◌∙◌, arith, length}
use nano_mockidp.Base.Text.{◌⊕◌, has_char}
use nano_mockidp.Base.Text.Splitting.{
  split_by_none, split_by-append, as_bytes-append, take-append, length-append,
}
use nano_mockidp.Base.Bytes.{utf8, as_bytes, take}
use nano_mockidp.Base.Result.{ok}
use nano_mockidp.Base.Map.{get}
use nano_mockidp.Crates.{Crates, SigningKey, IsFaithful, ReadsBack}
use nano_mockidp.Json.{string, fields, entries, Claims}
use nano_mockidp.Token.Jws.{split_dots, jose_header, sign, verify_signature}

dot_text : (t : String) → "." ⊕ t ≡ String.◌∷◌ "." t
dot_text t = cons-append "." "" t ∙ ap (String.◌∷◌ ".") (nil-append t)

-- Three parts that have no dot of their own, joined by dots, are split into themselves.
split_dots-join :
    (h p s : String)
    → has_char b'.' h ≡ false
    → has_char b'.' p ≡ false
    → has_char b'.' s ≡ false
    → split_dots ((h ⊕ "." ⊕ p) ⊕ "." ⊕ s) ≡ h ∷ p ∷ s ∷ []
unfolding split_dots
split_dots-join h p s no_h no_p no_s =
    simp (append_assoc, dot_text, cons-append)
      (split_by-append b'.' h _ "." no_h refl
        ∙ ap (◌∷◌ h)
            (split_by-append b'.' p _ "." no_p refl ∙ ap (◌∷◌ p) (split_by_none b'.' s no_s)))

length-dot :
    (h p : String) → length (as_bytes (h ⊕ "." ⊕ p)) ≡ length (as_bytes h) + 1 + length (as_bytes p)
unfolding as_bytes utf8
length-dot h p =
    rw (as_bytes-append h ("." ⊕ p), dot_text)
      (omega (arith, length-append (as_bytes h) (46 ∷ as_bytes p)))

-- The bytes that the signature covers are those before the last dot.
signed_prefix :
    (h p s : String)
    → take (length (as_bytes h) + 1 + length (as_bytes p)) (as_bytes ((h ⊕ "." ⊕ p) ⊕ "." ⊕ s))
      ≡ as_bytes (h ⊕ "." ⊕ p)
signed_prefix h p s =
    rw (as_bytes-append (h ⊕ "." ⊕ p) ("." ⊕ s), ← length-dot h p) (take-append _ _)

pub entries-fields : (m : Claims) → entries (fields m) ≡ m
entries-fields [] = refl
entries-fields ((k, v) ∷ m) = ap (◌∷◌ (k, v)) (entries-fields m)

get_alg-jose_header :
    (lib : Crates) (key : SigningKey) (typ : String)
    → get "alg" (jose_header lib key typ) ≡ some (string "RS256")
unfolding get
get_alg-jose_header lib key typ = refl

-- A token that this server signs is verified under its key, and the claims read back are the
-- claims signed, if the libraries read back what they write.
pub verify_signature-sign :
    (lib : Crates) (key : SigningKey) (claims : Claims) (typ : String)
    → IsFaithful lib key
    → ReadsBack lib (jose_header lib key typ)
    → (r : ReadsBack lib claims)
    → verify_signature lib key.verifier (sign lib key claims typ) ≡ ok r.copy
unfolding verify_signature sign
verify_signature-sign lib key claims typ faithful header r =
    let no_dot = faithful.encode_no_dot in
    simp
      (
        split_dots-join _ _ _ (no_dot _) (no_dot _) (no_dot _),
        signed_prefix,
        faithful.decode-encode,
        header.read,
        entries-fields,
        header.same,
      )
      (simp (get_alg-jose_header, faithful.signature_from-sign, faithful.verify-sign, r.read)
        (rw (entries-fields r.copy)))
