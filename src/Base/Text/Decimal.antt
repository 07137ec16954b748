-- ===== src/Base/Text/Decimal.antt =====
-- A number is read back from its decimal text: twenty digits are enough for a `u64`.
use Prim.Native.Char.{Char, code}
use mathlib.Core.Path.{subst}
use text.Mathlib.TextLemmas.{nil-append, cons-append}
use nano_mockidp.Base.{
  ℕ, zero, suc, ◌+◌, ◌-◌, ◌*◌, ◌/◌, ◌%◌, ◌^◌, ◌<◌, String, true, false, ◌&&◌, none, some, ◌≡◌, refl,
  ◌∙◌, ap, arith, leb, Bool-cases, inl, inr,
}
use nano_mockidp.Base.Text.{
  ◌⊕◌, digit, decimal_from, decimal, digits_from, some_digits, parse_below, parse_u64, strip_prefix,
  is_whitespace, trim, trim_start_by, trim_end_by,
}

one_char : (c : Char) (s : String) → String.◌∷◌ c "" ⊕ s ≡ String.◌∷◌ c s
one_char c s = cons-append c "" s ∙ ap (String.◌∷◌ c) (nil-append s)

-- The digit of a number up to nine is one character.
digit_cons :
    (n : ℕ) (s : String) → n < 10 → (c : Char) × (code c ≡ 48 + n) × (digit n ⊕ s ≡ String.◌∷◌ c s)
digit_cons zero s h = ("0", refl, one_char "0" s)
digit_cons (suc zero) s h = ("1", refl, one_char "1" s)
digit_cons (suc (suc zero)) s h = ("2", refl, one_char "2" s)
digit_cons (suc (suc (suc zero))) s h = ("3", refl, one_char "3" s)
digit_cons (suc (suc (suc (suc zero)))) s h = ("4", refl, one_char "4" s)
digit_cons (suc (suc (suc (suc (suc zero))))) s h = ("5", refl, one_char "5" s)
digit_cons (suc (suc (suc (suc (suc (suc zero)))))) s h = ("6", refl, one_char "6" s)
digit_cons (suc (suc (suc (suc (suc (suc (suc zero))))))) s h = ("7", refl, one_char "7" s)
digit_cons (suc (suc (suc (suc (suc (suc (suc (suc zero)))))))) s h = ("8", refl, one_char "8" s)
digit_cons (suc (suc (suc (suc (suc (suc (suc (suc (suc zero))))))))) s h =
    ("9", refl, one_char "9" s)
digit_cons (suc (suc (suc (suc (suc (suc (suc (suc (suc (suc n)))))))))) s h =
    absurd (omega (arith, h))

plus_digit : (n : ℕ) → 48 + n - 48 ≡ n
plus_digit n = omega arith

within : (n : ℕ) → n < 10 → leb 48 (48 + n) && leb (48 + n) 57 ≡ true
within n h = ground (arith, h)

-- It is read as the number.
digits_from-digit :
    (k n : ℕ) (s : String) → n < 10 → digits_from k (digit n ⊕ s) ≡ digits_from (k * 10 + n) s
unfolding digits_from
digits_from-digit k n s h =
    let (c, is_digit, cons) = digit_cons n s h in
    rw cons (rw is_digit (rw (within n h, plus_digit n) refl))

none_below_one : (n : ℕ) → n < 1 → n ≡ 0
none_below_one n h = omega (arith, h)

tenth : (n fuel : ℕ) → n < 10 ^ suc fuel → n / 10 < 10 ^ fuel
tenth n fuel h = omega (arith, h)

decimal_from_read :
    (fuel n : ℕ) (acc : String)
    → n < 10 ^ fuel
    → digits_from 0 (decimal_from fuel n acc) ≡ digits_from n acc
unfolding decimal_from
decimal_from_read zero n acc h = rw (none_below_one n h) refl
decimal_from_read (suc fuel) n acc h = elim (Bool-cases (leb n 9)) [
  | inl small ↦ rw small (
      subst (λ m. digits_from 0 (digit n ⊕ acc) ≡ digits_from m acc) (omega arith)
        (digits_from-digit 0 n acc (ground arith)))
  | inr large ↦ rw large (
      decimal_from_read fuel (n / 10) (digit (n % 10) ⊕ acc) (tenth n fuel h)
      ∙ digits_from-digit (n / 10) (n % 10) acc (omega arith)
      ∙ ap (λ m. digits_from m acc) (omega arith))
]

-- What is read as digits has no space to trim and no sign.
digit_no_space : (c : Char) → leb 48 (code c) && leb (code c) 57 ≡ true → is_whitespace c ≡ false
unfolding is_whitespace
digit_no_space c h = ground arith

module _ (m : ℕ) where
  digits_trim_start :
      (k : ℕ) (s : String) → digits_from k s ≡ some m → trim_start_by is_whitespace s ≡ s
  unfolding digits_from trim_start_by
  digits_trim_start k String.[] h = refl
  digits_trim_start k (String.◌∷◌ c s) h = elim (Bool-cases (leb 48 (code c) && leb (code c) 57)) [
    | inl digit_here ↦ rw (digit_no_space c digit_here) refl
    | inr other ↦ absurd (ground (arith, other))
  ]

  digits_trim_end :
      (k : ℕ) (s : String) → digits_from k s ≡ some m → trim_end_by is_whitespace s ≡ s
  unfolding digits_from trim_end_by
  digits_trim_end k String.[] h = refl
  digits_trim_end k (String.◌∷◌ c s) h = elim (Bool-cases (leb 48 (code c) && leb (code c) 57)) [
    | inl digit_here ↦
        rw (digit_no_space c digit_here)
          (rw (digits_trim_end (k * 10 + (code c - 48)) s (rw (digits_from, digit_here) at h)) refl)
    | inr other ↦ absurd (ground (arith, other))
  ]

  digits_no_sign : (k : ℕ) (s : String) → digits_from k s ≡ some m → strip_prefix "+" s ≡ none
  unfolding digits_from strip_prefix
  digits_no_sign k String.[] h = refl
  digits_no_sign k (String.◌∷◌ c s) h = ground arith

-- A text with a first character.
abbrev IsFilled : String → Type 0
IsFilled s = (c : Char) × (t : String) × (s ≡ String.◌∷◌ c t)

digit-IsFilled : (n : ℕ) (s : String) → n < 10 → IsFilled (digit n ⊕ s)
digit-IsFilled n s h = let (c, is_digit, cons) = digit_cons n s h in (c, s, cons)

decimal_from-IsFilled :
    (fuel n : ℕ) (acc : String) → IsFilled acc → IsFilled (decimal_from fuel n acc)
unfolding decimal_from
decimal_from-IsFilled zero n acc filled = filled
decimal_from-IsFilled (suc fuel) n acc filled = elim (Bool-cases (leb n 9)) [
  | inl small ↦ rw small (digit-IsFilled n acc (ground arith))
  | inr large ↦
      rw large (decimal_from-IsFilled fuel (n / 10) _ (digit-IsFilled (n % 10) acc (omega arith)))
]

decimal-IsFilled : (n : ℕ) → IsFilled (decimal n)
unfolding decimal decimal_from
decimal-IsFilled n = elim (Bool-cases (leb n 9)) [
  | inl small ↦ rw small (digit-IsFilled n "" (ground arith))
  | inr large ↦
      rw large (decimal_from-IsFilled 19 (n / 10) _ (digit-IsFilled (n % 10) "" (omega arith)))
]

some_digits_filled : (s : String) → IsFilled s → some_digits s ≡ digits_from 0 s
some_digits_filled s (c, t, cons) = rw cons refl

digits_from-decimal : (n : ℕ) → n < 2 ^ 64 → digits_from 0 (decimal n) ≡ some n
unfolding decimal digits_from
digits_from-decimal n h = decimal_from_read 20 n "" (omega (arith, h))

pub trim-decimal : (n : ℕ) → n < 2 ^ 64 → trim (decimal n) ≡ decimal n
unfolding trim
trim-decimal n h =
    rw (digits_trim_start n 0 (decimal n) (digits_from-decimal n h))
      (digits_trim_end n 0 (decimal n) (digits_from-decimal n h))

unsigned :
    (s : String) (n : ℕ)
    → strip_prefix "+" s ≡ none
    → some_digits s ≡ some n
    → n < 2 ^ 64
    → parse_below (2 ^ 64) s ≡ some n
unfolding parse_below
unsigned s n plain digits h = rw (parse_below, plain) (rw digits (ground (arith, h)))

-- The decimal text of a 64-bit number is read as the number.
pub parse_u64-decimal : (n : ℕ) → n < 2 ^ 64 → parse_u64 (decimal n) ≡ some n
unfolding parse_u64 parse_below
parse_u64-decimal n h =
    unsigned (decimal n) n (digits_no_sign n 0 (decimal n) (digits_from-decimal n h))
      (some_digits_filled (decimal n) (decimal-IsFilled n) ∙ digits_from-decimal n h) h
