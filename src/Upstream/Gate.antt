-- ===== src/Upstream/Gate.antt =====
-- Cookies and the access check (src/upstream/gate.rs).
use Prim.Native.Char.{code}
use nano_mockidp.Base.{
  ℕ, zero, suc, String, Bool, true, false, not, ◌&&◌, ◌||◌, Option, none, some, List, [], ◌∷◌, ◌==◌,
  leb, if◌then◌else◌, and_then, any,
}
use nano_mockidp.Base.Text.{◌⊕◌, ◌=ᶜ◌, trim, split_by, split_once, decimal}
use nano_mockidp.Base.Map.{get}
use nano_mockidp.Crates.{Crates}
use nano_mockidp.Json.{Value, bool, number, string, array, Claims, items}
use nano_mockidp.Token.Jws.{value_get}

abbrev pub cookie_name : String
cookie_name = "nano_mockidp_gate"

abbrev pub login_cookie_prefix : String
login_cookie_prefix = "nano_mockidp_login_"

abbrev is_base64url : ℕ → Bool
is_base64url c =
    leb b'a' c && leb c b'z'
    || leb b'A' c && leb c b'Z'
    || leb b'0' c && leb c b'9'
    || leb b'-' c && leb c b'-'
    || leb b'_' c && leb c b'_'

unfoldable pub all_base64url : String → Bool
all_base64url String.[] = true
all_base64url (String.◌∷◌ c s) = is_base64url (code c) && all_base64url s

unfoldable pub prefix_of : ℕ → String → String
prefix_of zero s = ""
prefix_of (suc n) String.[] = ""
prefix_of (suc n) (String.◌∷◌ c s) = String.◌∷◌ c (prefix_of n s)

-- None unless `state` is base64url, whose characters are one byte each.
unfoldable pub login_cookie_name : String → Option String
unfolding all_base64url prefix_of
login_cookie_name state =
    if not (state == "") && all_base64url state
    then some (login_cookie_prefix ⊕ prefix_of 12 state)
    else none

-- The first cookie of that name, in one `Cookie` header and then in all of them.
unfoldable pub find_cookie : String → List String → Option String
find_cookie name [] = none
find_cookie name (kv ∷ rest) =
    let later = find_cookie name rest in
    elim (split_once b'=' (trim kv)) [
      | none ↦ later
      | some (k, v) ↦ if k == name then some v else later
    ]

abbrev first_of_two : Option String → Option String → Option String
first_of_two none later = later
first_of_two (some v) later = some v

-- `cookie_value`: over the `Cookie` headers that are text
unfoldable pub cookie_value : List String → String → Option String
unfolding find_cookie
cookie_value [] name = none
cookie_value (header ∷ rest) name =
    first_of_two (find_cookie name (split_by (λ c. c =ᶜ b';') header)) (cookie_value rest name)

unfoldable pub set_cookie : String → String → String → ℕ → Bool → String
unfolding decimal
set_cookie name value path max_age secure =
    name
    ⊕ "="
    ⊕ value
    ⊕ "; Path="
    ⊕ path
    ⊕ "; Max-Age="
    ⊕ decimal max_age
    ⊕ "; HttpOnly; SameSite=Lax"
    ⊕ (if secure then "; Secure" else "")

-- `parts.try_fold(first, |v, p| v.get(p))`
unfoldable pub descend : Value → List String → Option Value
descend v [] = some v
descend v (p ∷ ps) = elim (value_get p v) [ none ↦ none | some w ↦ descend w ps ]

unfoldable pub claim_at : Claims → String → Option Value
unfolding descend
claim_at claims path = elim (split_by (λ c. c =ᶜ b'.') path) [
  | [] ↦ none
  | first ∷ rest ↦ and_then (get first claims) (λ v. descend v rest)
]

-- The closure `matches`
unfoldable pub value_matches : Crates → String → Value → Bool
value_matches lib value (string s) = s == value
value_matches lib value (number n) = lib.json_text (number n) == value
value_matches lib value (bool b) = lib.json_text (bool b) == value
value_matches lib value _ = false

abbrev allows : Crates → String → Option Value → Bool
allows lib value none = false
allows lib value (some (array vs)) = any (value_matches lib value) (items vs)
allows lib value (some v) = value_matches lib value v

unfoldable pub claim_allows : Crates → Claims → String → String → Bool
unfolding claim_at value_matches
claim_allows lib claims path value = allows lib value (claim_at claims path)
