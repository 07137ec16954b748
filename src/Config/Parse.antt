-- ===== src/Config/Parse.antt =====
-- The parsers of single settings (src/config.rs).
use nano_mockidp.Base.{
  ℕ, ◌^◌, String, Bool, true, false, not, ◌||◌, Option, none, some, List, [], ◌∷◌, ◌==◌,
  if◌then◌else◌, contains, keep_if,
}
use nano_mockidp.Base.Text.{
  ◌⊕◌, ◌=ᶜ◌, trim, trim_end_slashes, split_by, parse_below, parse_u64, to_ascii_lowercase,
}
use nano_mockidp.Base.Map.{Map, get}
use nano_mockidp.Base.Result.{Result, ok, err, ok_or, ◌>>=◌}
use nano_mockidp.Config.{ClientConfig}
use nano_mockidp.Crates.{Crates, Url}
use nano_mockidp.Token.Jws.{map_err, check}

-- What the settings are read with: serde's derived reader of `CLIENTS`, and the text of the error
-- of an integer of that many bits.
pub record Readers : Type 0 where
  pub clients : String → Result String (List ClientConfig)
  pub int_error : ℕ → String → String

-- The environment of the process.
abbrev pub Settings : Type 0
Settings = Map String

-- The closure `get` of `from_map`: a blank setting is not set.
unfoldable pub setting : Settings → String → Option String
unfolding trim
setting m k = keep_if (λ s. not (trim s == "")) (get k m)

-- A setting that is parsed, or a default.
abbrev pub or_default {ℓ} :
    {A : Type ℓ} → (String → Result String A) → A → Option String → Result String A
or_default parse d none = ok d
or_default parse d (some v) = parse v

unfoldable pub parse_bool : String → Result String Bool
unfolding trim to_ascii_lowercase
parse_bool v =
    let word = to_ascii_lowercase (trim v) in
    if contains ("1" ∷ "true" ∷ "yes" ∷ "on" ∷ []) word
    then ok true
    else if contains ("0" ∷ "false" ∷ "no" ∷ "off" ∷ "" ∷ []) word
    then ok false
    else err ("invalid boolean: " ⊕ word)

-- `parse_bool(v).map_err(|e| format!("{name}: {e}"))`
abbrev pub flag : String → String → Result String Bool
flag name v = map_err (name ⊕ ": ") (parse_bool v)

module _ (lib : Crates) where
  unfoldable pub parse_url : String → String → Result String Url
  unfolding trim trim_end_slashes
  parse_url name v = do
    url ←
        map_err (name ⊕ ": invalid URL " ⊕ lib.debug v ⊕ ": ")
          (lib.parse_url (trim_end_slashes (trim v)))
    absolute ←
        check (not (url.cannot_be_a_base || not url.has_host))
          (name ⊕ ": URL must be absolute with a host: " ⊕ lib.debug v)
    bare ←
        check (not (url.has_query || url.has_fragment))
          (name ⊕ ": URL must not contain query or fragment: " ⊕ lib.debug v)
    ok url

  module _ (readers : Readers) where
    -- `config::parse_u64`
    unfoldable pub parse_seconds : String → String → Result String ℕ
    unfolding trim parse_u64
    parse_seconds name v =
        ok_or (parse_u64 (trim v))
          (name ⊕ ": invalid integer " ⊕ lib.debug v ⊕ ": " ⊕ readers.int_error 64 (trim v))

    unfoldable pub parse_port : String → Result String ℕ
    unfolding trim parse_below
    parse_port v =
        ok_or (parse_below (2 ^ 16) (trim v))
          ("PORT: invalid port " ⊕ lib.debug v ⊕ ": " ⊕ readers.int_error 16 (trim v))

-- `split(',')`, trimmed, without the empty parts
abbrev pub trimmed_parts : List String → List String
trimmed_parts [] = []
trimmed_parts (s ∷ ss) = if trim s == "" then trimmed_parts ss else trim s ∷ trimmed_parts ss

unfoldable pub comma_list : String → List String
unfolding trim split_by
comma_list v = trimmed_parts (split_by (λ c. c =ᶜ b',') v)
