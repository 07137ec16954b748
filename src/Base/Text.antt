-- ===== src/Base/Text.antt =====
-- The string functions of the standard library that the program uses, over Unicode characters.
pub mod Splitting
pub mod Decimal
use Prim.Native.Nat.{ℕ, zero, suc, ◌+◌, ◌-◌, ◌*◌, ◌^◌, ◌/◌, ◌%◌, compare, Ordering}
use Prim.Native.Char.{Char, code}
use Prim.Native.String.{String}
use Prim.Native.String
use mathlib.Core.Bool.{Bool, true, false, ◌&&◌, ◌||◌}
use mathlib.Core.Option.{Option, none, some}
use mathlib.Core.List.{List, [], ◌∷◌}
use text.Mathlib.Text.{◌==◌}
use nano_mockidp.Base.Tests.{if◌then◌else◌, leb}

infix 50 ◌=ᶜ◌
abbrev pub ◌=ᶜ◌ : Char → ℕ → Bool
c =ᶜ n = elim (compare (code c) n) [ Ordering.eq ↦ true | _ ↦ false ]

-- `a.b` of the `format!` calls.
infixr 66 ◌⊕◌
abbrev pub ◌⊕◌ : String → String → String
s ⊕ t = String.◌++◌ s t

-- `char::is_whitespace`
unfoldable pub is_whitespace : Char → Bool
is_whitespace c =
    let n = code c in
    leb 9 n && leb n 13
    || leb 0x2000 n && leb n 0x200a
    || c =ᶜ 32
    || c =ᶜ 0x85
    || c =ᶜ 0xa0
    || c =ᶜ 0x1680
    || c =ᶜ 0x2028
    || c =ᶜ 0x2029
    || c =ᶜ 0x202f
    || c =ᶜ 0x205f
    || c =ᶜ 0x3000

unfoldable pub trim_start_by : (Char → Bool) → String → String
trim_start_by p String.[] = ""
trim_start_by p (String.◌∷◌ c s) =
    let rest = trim_start_by p s in if p c then rest else String.◌∷◌ c s

unfoldable pub trim_end_by : (Char → Bool) → String → String
trim_end_by p String.[] = ""
trim_end_by p (String.◌∷◌ c s) =
    let rest = trim_end_by p s in if p c && rest == "" then "" else String.◌∷◌ c rest

-- `str::trim`
unfoldable pub trim : String → String
unfolding trim_start_by trim_end_by is_whitespace
trim s = trim_end_by is_whitespace (trim_start_by is_whitespace s)

-- `trim_end_matches('/')`
unfoldable pub trim_end_slashes : String → String
unfolding trim_end_by
trim_end_slashes = trim_end_by (λ c. c =ᶜ b'/')

abbrev cons_head : Char → List String → List String
cons_head c [] = String.◌∷◌ c "" ∷ []
cons_head c (s ∷ ss) = String.◌∷◌ c s ∷ ss

-- The parts between the characters that pass a test: never an empty list.
unfoldable pub split_by : (Char → Bool) → String → List String
split_by p String.[] = "" ∷ []
split_by p (String.◌∷◌ c s) = let rest = split_by p s in if p c then "" ∷ rest else cons_head c rest

abbrev drop_empty : List String → List String
drop_empty [] = []
drop_empty (s ∷ ss) = if s == "" then drop_empty ss else s ∷ drop_empty ss

-- `split_whitespace`
unfoldable pub split_whitespace : String → List String
unfolding split_by is_whitespace
split_whitespace s = drop_empty (split_by is_whitespace s)

-- `split_once(c)`
unfoldable pub split_once : ℕ → String → Option (String × String)
split_once n String.[] = none
split_once n (String.◌∷◌ c s) =
    let rest = split_once n s in
    if c =ᶜ n
    then some ("", s)
    else elim rest [ none ↦ none | some (a, b) ↦ some (String.◌∷◌ c a, b) ]

-- `strip_prefix`
unfoldable pub strip_prefix : String → String → Option String
strip_prefix String.[] s = some s
strip_prefix (String.◌∷◌ c p) String.[] = none
strip_prefix (String.◌∷◌ c p) (String.◌∷◌ d s) =
    let rest = strip_prefix p s in if c =ᶜ (code d) then rest else none

-- `str::contains(c)`
unfoldable pub has_char : ℕ → String → Bool
has_char n String.[] = false
has_char n (String.◌∷◌ c s) = c =ᶜ n || has_char n s

-- `str::replace(c, t)` for one character
unfoldable pub replace_char : ℕ → String → String → String
replace_char n t String.[] = ""
replace_char n t (String.◌∷◌ c s) =
    let rest = replace_char n t s in if c =ᶜ n then t ⊕ rest else String.◌∷◌ c rest

abbrev pub digit : ℕ → String
digit n =
    if leb n 0
    then "0"
    else if leb n 1
    then "1"
    else if leb n 2
    then "2"
    else if leb n 3
    then "3"
    else if leb n 4
    then "4"
    else if leb n 5
    then "5"
    else if leb n 6
    then "6"
    else if leb n 7
    then "7"
    else if leb n 8
    then "8"
    else "9"

unfoldable pub decimal_from : ℕ → ℕ → String → String
decimal_from zero n acc = acc
decimal_from (suc fuel) n acc =
    let longer = decimal_from fuel (n / 10) (digit (n % 10) ⊕ acc) in
    if leb n 9 then digit n ⊕ acc else longer

-- The decimal digits of a `u64`: twenty are enough.
unfoldable pub decimal : ℕ → String
unfolding decimal_from
decimal n = decimal_from 20 n ""

unfoldable pub digits_from : ℕ → String → Option ℕ
digits_from n String.[] = some n
digits_from n (String.◌∷◌ c s) =
    let d = code c in
    let rest = digits_from (n * 10 + (d - 48)) s in if leb 48 d && leb d 57 then rest else none

-- Digits, at least one.
abbrev pub some_digits : String → Option ℕ
some_digits String.[] = none
some_digits (String.◌∷◌ c s) = digits_from 0 (String.◌∷◌ c s)

abbrev pub below : ℕ → Option ℕ → Option ℕ
below bound none = none
below bound (some n) = if leb bound n then none else some n

-- `parse` of an unsigned integer below a bound: digits after an optional plus, and no overflow
unfoldable pub parse_below : ℕ → String → Option ℕ
unfolding digits_from strip_prefix
parse_below bound s = elim (strip_prefix "+" s) [
  | some rest ↦ below bound (some_digits rest)
  | none ↦ below bound (some_digits s)
]

-- `parse::<u64>()`
unfoldable pub parse_u64 : String → Option ℕ
unfolding parse_below
parse_u64 = parse_below (2 ^ 64)

abbrev lower_in : String → String → Char → Char
lower_in String.[] lower c = c
lower_in (String.◌∷◌ u us) String.[] c = c
lower_in (String.◌∷◌ u us) (String.◌∷◌ l ls) c =
    let rest = lower_in us ls c in if c =ᶜ (code u) then l else rest

-- `to_ascii_lowercase`
unfoldable pub to_ascii_lowercase : String → String
to_ascii_lowercase String.[] = ""
to_ascii_lowercase (String.◌∷◌ c s) =
    String.◌∷◌ (lower_in "ABCDEFGHIJKLMNOPQRSTUVWXYZ" "abcdefghijklmnopqrstuvwxyz" c)
      (to_ascii_lowercase s)
