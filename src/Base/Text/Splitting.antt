-- ===== src/Base/Text/Splitting.antt =====
-- Laws of splitting a text at a character, and of the bytes of a text.
use Prim.Native.Char.{Char, code}
use text.Mathlib.TextLemmas.{nil-append, cons-append}
use mathlib.Core.List.{append_assoc}
use nano_mockidp.Base.{
  ℕ, ◌+◌, String, true, false, some, [], ◌∷◌, ◌++◌, ◌≡◌, refl, sym, ap, arith, length,
}
use nano_mockidp.Base.Text.{◌⊕◌, ◌=ᶜ◌, has_char, split_by, split_once}
use nano_mockidp.Base.Bytes.{Bytes, utf8, as_bytes, take}

module _ (n : ℕ) where
  -- A text without the character is one part.
  pub split_by_none : (s : String) → has_char n s ≡ false → split_by (λ c. c =ᶜ n) s ≡ s ∷ []
  unfolding has_char split_by
  split_by_none String.[] h = refl
  split_by_none (String.◌∷◌ c s) h = ground (arith, split_by_none s)

  -- The first part ends at the first separator.
  pub split_by-append :
      (s t : String) (c : Char)
      → has_char n s ≡ false
      → c =ᶜ n ≡ true
      → split_by (λ c. c =ᶜ n) (s ⊕ String.◌∷◌ c t) ≡ s ∷ split_by (λ c. c =ᶜ n) t
  unfolding has_char split_by
  split_by-append String.[] t c h e = rw nil-append (ground arith)
  split_by-append (String.◌∷◌ d s) t c h e = rw cons-append (ground (arith, split_by-append s t c))

  -- The first part of `split_once` ends at the first separator too.
  pub split_once-append :
      (s t : String) (c : Char)
      → has_char n s ≡ false
      → c =ᶜ n ≡ true
      → split_once n (s ⊕ String.◌∷◌ c t) ≡ some (s, t)
  unfolding has_char split_once
  split_once-append String.[] t c h e = rw nil-append (ground arith)
  split_once-append (String.◌∷◌ d s) t c h e =
      rw cons-append (ground (arith, split_once-append s t c))

pub as_bytes-append : (s t : String) → as_bytes (s ⊕ t) ≡ as_bytes s ++ as_bytes t
unfolding as_bytes
as_bytes-append String.[] t = rw nil-append
as_bytes-append (String.◌∷◌ c s) t =
    rw cons-append
      (rw (as_bytes-append s t) (sym (append_assoc (utf8 (code c)) (as_bytes s) (as_bytes t))))

pub take-append : (xs ys : Bytes) → take (length xs) (xs ++ ys) ≡ xs
unfolding take
take-append [] ys = refl
take-append (x ∷ xs) ys = ap (◌∷◌ x) (take-append xs ys)

pub length-append : (xs ys : Bytes) → length (xs ++ ys) ≡ length xs + length ys
length-append [] ys = omega arith
length-append (x ∷ xs) ys = omega (arith, length-append xs ys)
