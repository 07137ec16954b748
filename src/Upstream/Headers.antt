-- ===== src/Upstream/Headers.antt =====
-- Every cookie that the upstream login sets is visible ASCII (src/upstream/mod.rs).
use Prim.Native.Char.{code}
use text.Mathlib.TextLemmas.{nil-append, cons-append}
use nano_mockidp.Base.{
  ℕ, zero, suc, ◌/◌, ◌%◌, String, Bool, true, false, not, ◌&&◌, Option, some, ◌≡◌, refl, arith, leb,
  is_some, if◌then◌else◌, Bool-cases, inl, inr, ◌==◌,
}
use nano_mockidp.Base.Bytes.{Bytes}
use nano_mockidp.Base.Text.{◌⊕◌, decimal, decimal_from, digit}
use nano_mockidp.Crates.{Crates}
use nano_mockidp.Http.{Response}
use nano_mockidp.State.{Env, Gate}
use nano_mockidp.Upstream.Gate.{
  cookie_name, login_cookie_name, login_cookie_prefix, all_base64url, prefix_of,
}
use nano_mockidp.Upstream.Gate
use nano_mockidp.Upstream.Login.{add_set_cookie, set_cookie}
use nano_mockidp.Upstream.Seal.{Sealed, seal}
use nano_mockidp.Upstream.Wire.{Wire}

pub some-injective : {A : Type 0} {a b : A} → ◌≡◌ {A = Option A} (some a) (some b) → a ≡ b
some-injective h = cc

-- Every character of a text is visible ASCII or a space.
unfoldable pub all_visible : String → Bool
all_visible String.[] = true
all_visible (String.◌∷◌ c s) = leb 32 (code c) && leb (code c) 126 && all_visible s

all_visible-append :
    (s t : String) → all_visible s ≡ true → all_visible t ≡ true → all_visible (s ⊕ t) ≡ true
unfolding all_visible
all_visible-append String.[] t hs ht = rw nil-append ht
all_visible-append (String.◌∷◌ c s) t hs ht =
    rw cons-append (ground (arith, all_visible-append s t))

all_base64url-all_visible : (s : String) → all_base64url s ≡ true → all_visible s ≡ true
unfolding all_visible all_base64url
all_base64url-all_visible String.[] h = refl
all_base64url-all_visible (String.◌∷◌ c s) h = ground (arith, all_base64url-all_visible s)

all_base64url-prefix_of :
    (n : ℕ) (s : String) → all_base64url s ≡ true → all_base64url (prefix_of n s) ≡ true
unfolding all_base64url prefix_of
all_base64url-prefix_of zero s h = refl
all_base64url-prefix_of (suc n) String.[] h = refl
all_base64url-prefix_of (suc n) (String.◌∷◌ c s) h = ground (arith, all_base64url-prefix_of n s)

all_visible-if :
    (b : Bool) (s t : String)
    → all_visible s ≡ true
    → all_visible t ≡ true
    → all_visible (if b then s else t) ≡ true
all_visible-if true s t hs ht = hs
all_visible-if false s t hs ht = ht

pub visible_gate_cookie : all_visible cookie_name ≡ true
unfolding all_visible
visible_gate_cookie = refl

visible_digit_0 : all_visible "0" ≡ true
unfolding all_visible
visible_digit_0 = refl

visible_digit_1 : all_visible "1" ≡ true
unfolding all_visible
visible_digit_1 = refl

visible_digit_2 : all_visible "2" ≡ true
unfolding all_visible
visible_digit_2 = refl

visible_digit_3 : all_visible "3" ≡ true
unfolding all_visible
visible_digit_3 = refl

visible_digit_4 : all_visible "4" ≡ true
unfolding all_visible
visible_digit_4 = refl

visible_digit_5 : all_visible "5" ≡ true
unfolding all_visible
visible_digit_5 = refl

visible_digit_6 : all_visible "6" ≡ true
unfolding all_visible
visible_digit_6 = refl

visible_digit_7 : all_visible "7" ≡ true
unfolding all_visible
visible_digit_7 = refl

visible_digit_8 : all_visible "8" ≡ true
unfolding all_visible
visible_digit_8 = refl

visible_digit_9 : all_visible "9" ≡ true
unfolding all_visible
visible_digit_9 = refl

visible_equals : all_visible "=" ≡ true
unfolding all_visible
visible_equals = refl

visible_path_attribute : all_visible "; Path=" ≡ true
unfolding all_visible
visible_path_attribute = refl

visible_max_age_attribute : all_visible "; Max-Age=" ≡ true
unfolding all_visible
visible_max_age_attribute = refl

visible_other_attributes : all_visible "; HttpOnly; SameSite=Lax" ≡ true
unfolding all_visible
visible_other_attributes = refl

visible_secure_attribute : all_visible "; Secure" ≡ true
unfolding all_visible
visible_secure_attribute = refl

visible_dot : all_visible "." ≡ true
unfolding all_visible
visible_dot = refl

pub visible_nothing : all_visible "" ≡ true
unfolding all_visible
visible_nothing = refl

ruleset visible_parts = (
  all_visible-append, all_visible-if, visible_digit_0, visible_digit_1, visible_digit_2,
  visible_digit_3, visible_digit_4, visible_digit_5, visible_digit_6, visible_digit_7,
  visible_digit_8, visible_digit_9, visible_equals, visible_path_attribute,
  visible_max_age_attribute, visible_other_attributes, visible_secure_attribute, visible_dot,
  visible_nothing,
)

all_visible-digit : (d : ℕ) → all_visible (digit d) ≡ true
all_visible-digit d = search visible_parts depth 12

all_visible-decimal_from :
    (fuel n : ℕ) (acc : String)
    → all_visible acc ≡ true
    → all_visible (decimal_from fuel n acc) ≡ true
unfolding decimal_from
all_visible-decimal_from zero n acc h = h
all_visible-decimal_from (suc fuel) n acc h = elim (Bool-cases (leb n 9)) [
  | inl small ↦ rw small (all_visible-append (digit n) acc (all_visible-digit n) h)
  | inr large ↦ rw large (
      all_visible-decimal_from fuel (n / 10) (digit (n % 10) ⊕ acc)
        (all_visible-append (digit (n % 10)) acc (all_visible-digit (n % 10)) h))
]

all_visible-decimal : (n : ℕ) → all_visible (decimal n) ≡ true
unfolding decimal all_visible
all_visible-decimal n = all_visible-decimal_from 20 n "" refl

pub all_visible-login_cookie_name :
    (state name : String) → login_cookie_name state ≡ some name → all_visible name ≡ true
unfolding login_cookie_name
all_visible-login_cookie_name state name h =
    elim (Bool-cases (not (state == "") && all_base64url state)) [
      | inr odd ↦ absurd (ground (arith, odd))
      | inl fine ↦
          let plain : all_base64url state ≡ true = ground arith in
          rw (← some-injective (rw (fine, login_cookie_name) at h)) (
            all_visible-append login_cookie_prefix (prefix_of 12 state) (unfold all_visible in refl)
              (all_base64url-all_visible (prefix_of 12 state)
                (all_base64url-prefix_of 12 state plain)))
    ]

module _ (lib : Crates) (wire : Wire) (gate : Gate) (env : Env)
    (encodes : (bs : Bytes) → all_visible (lib.encode bs) ≡ true)
    (takes : (s : String) → all_visible s ≡ true → wire.is_header_value s ≡ true)
    (path : all_visible gate.cookie_path ≡ true) where
  pub all_visible-seal :
      {T : Type 0} (S : Sealed T) (v : T) → all_visible (seal lib S gate.key v) ≡ true
  unfolding seal
  all_visible-seal S v = search (visible_parts, encodes) depth 8

  all_visible-set_cookie :
      (name value : String) (max_age : ℕ)
      → all_visible name ≡ true
      → all_visible value ≡ true
      → all_visible (set_cookie wire gate name value max_age) ≡ true
  unfolding Gate.set_cookie
  all_visible-set_cookie name value max_age hn hv =
      search (visible_parts, all_visible-decimal) depth 20

  pub set_cookie_answers :
      (name value : String) (max_age : ℕ) (r : Response)
      → all_visible name ≡ true
      → all_visible value ≡ true
      → is_some (add_set_cookie wire (set_cookie wire gate name value max_age) r) ≡ true
  unfolding add_set_cookie
  set_cookie_answers name value max_age r hn hv = rw (
      takes (set_cookie wire gate name value max_age)
        (all_visible-set_cookie name value max_age hn hv))
