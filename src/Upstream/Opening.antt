-- ===== src/Upstream/Opening.antt =====
-- Which cookies of the gate open (src/upstream/gate.rs): those that the server sealed as that kind,
-- until they expire.
use text.Mathlib.TextLemmas.{nil-append, cons-append}
use nano_mockidp.Base.{
  ℕ, ◌<◌, String, Bool, true, false, Option, none, some, [], ◌∷◌, ◌≡◌, refl, ap, ◌∙◌, sym, and_then,
  arith, if◌then◌else◌, ltb,
}
use nano_mockidp.Base.Bytes.{Bytes}
use nano_mockidp.Base.Text.{◌⊕◌, split_once}
use nano_mockidp.Base.Text.Splitting.{split_once-append}
use nano_mockidp.Base.Result.{Result, ok, err, to_option}
use nano_mockidp.Crates.{Crates, SigningKey, IsFaithful}
use nano_mockidp.Json.{Value}
use nano_mockidp.Upstream.Seal.{Sealed, same_bytes, mac, seal, opened}

same_bytes_self : (bs : Bytes) → same_bytes bs bs ≡ true
unfolding same_bytes
same_bytes_self [] = refl
same_bytes_self (b ∷ bs) = ground (arith, same_bytes_self bs)

dot_text : (t : String) → "." ⊕ t ≡ String.◌∷◌ "." t
dot_text t = cons-append "." "" t ∙ ap (String.◌∷◌ ".") (nil-append t)

-- A cookie that the server seals opens as what was sealed until it expires, and not from then on, if
-- the libraries read back what they write.
pub opened-seal :
    {T : Type 0} (lib : Crates) (signing : SigningKey) (S : Sealed T) (key : Bytes) (v : T)
    (w : Value) (now : ℕ)
    → IsFaithful lib signing
    → lib.from_slice (lib.to_vec (S.write v)) ≡ ok w
    → S.read w ≡ some v
    → opened lib S key (seal lib S key v) now ≡ (if ltb now (S.exp v) then some v else none)
unfolding opened seal
opened-seal lib signing S key v w now faithful json read =
    rw
      (
        dot_text,
        split_once-append b'.' (lib.encode (lib.to_vec (S.write v)))
            (lib.encode (mac lib key S.kind (lib.encode (lib.to_vec (S.write v))))) "."
            (faithful.encode_no_dot _) refl,
      )
      (rw (faithful.decode-encode (mac lib key S.kind (lib.encode (lib.to_vec (S.write v))))) (
        rw (same_bytes_self (mac lib key S.kind (lib.encode (lib.to_vec (S.write v)))))
          (rw (faithful.decode-encode (lib.to_vec (S.write v))) (rw json (rw read)))))

same_bytes-eq : (a b : Bytes) → same_bytes a b ≡ true → a ≡ b
unfolding same_bytes
same_bytes-eq [] [] h = refl
same_bytes-eq [] (b ∷ bs) h = absurd (ground arith)
same_bytes-eq (a ∷ as') [] h = absurd (ground arith)
same_bytes-eq (a ∷ as') (b ∷ bs) h = ground (arith, same_bytes-eq as' bs)

-- What an opened cookie is: a payload and its MAC under the server's key for this kind.
pub record IsSealed {T : Type 0} (lib : Crates) (S : Sealed T) (key : Bytes) (cookie : String)
    (v : T) : Type 0 where
  pub payload : String
  pub tag : String
  pub parts : split_once b'.' cookie ≡ some (payload, tag)
  pub genuine : lib.decode tag ≡ ok (mac lib key S.kind payload)
  pub json : Bytes
  pub decoded : lib.decode payload ≡ ok json
  pub value : Value
  pub parsed : lib.from_slice json ≡ ok value
  pub read : S.read value ≡ some v

to_option-eq-some : {A : Type 0} (r : Result String A) {a : A} → to_option r ≡ some a → r ≡ ok a
to_option-eq-some (ok b) h = cc
to_option-eq-some (err e) h = cc

and_then-eq-some :
    {A B : Type 0} (o : Option A) (f : A → Option B) {b : B}
    → and_then o f ≡ some b
    → (a : A) × (o ≡ some a) × (f a ≡ some b)
and_then-eq-some none f h = cc
and_then-eq-some (some a) f h = (a, refl, h)

if-eq-some :
    {A : Type 0} (b : Bool) (v : A) {u : A}
    → (if b then some v else none) ≡ some u
    → (b ≡ true) × (v ≡ u)
if-eq-some true v h = (refl, cc)
if-eq-some false v h = cc

-- A cookie opens only as a value that the server's key vouches for as this kind, and that has not
-- expired.
pub opened_sound :
    {T : Type 0} (lib : Crates) (S : Sealed T) (key : Bytes) (cookie : String) (now : ℕ) (v : T)
    → opened lib S key cookie now ≡ some v
    → IsSealed lib S key cookie v × (now < S.exp v)
unfolding opened
opened_sound lib S key cookie now v h =
    let (cut, parts, h₁) = and_then-eq-some (split_once b'.' cookie) _ h in
    let (mark, marked, h₂) = and_then-eq-some (to_option (lib.decode cut.1)) _ h₁ in
    let (_, same, h₃) =
      and_then-eq-some (if same_bytes (mac lib key S.kind cut.0) mark then some (tt {0}) else none)
        _ h₂ in
    let (json, decoded, h₄) = and_then-eq-some (to_option (lib.decode cut.0)) _ h₃ in
    let (value, parsed, h₅) = and_then-eq-some (to_option (lib.from_slice json)) _ h₄ in
    let (u, read, h₆) = and_then-eq-some (S.read value) _ h₅ in
    let (live, here) = if-eq-some (ltb now (S.exp u)) u h₆ in
    let vouched : mac lib key S.kind cut.0 ≡ mark =
      same_bytes-eq _ _ (if-eq-some _ (tt {0}) same).0 in
    rw (← here) (
      record {
        payload = cut.0;
        tag = cut.1;
        parts = parts;
        genuine = to_option-eq-some (lib.decode cut.1) marked ∙ ap ok (sym vouched);
        json = json;
        decoded = to_option-eq-some _ decoded;
        value = value;
        parsed = to_option-eq-some _ parsed;
        read = read;
      },
      ground (arith, live),
    )
