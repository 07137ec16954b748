-- ===== src/Json.antt =====
-- `serde_json::Value` and `store::Claims` (src/store.rs): the JSON values that the program reads
-- and writes. A number is a `u64` or is kept as its JSON text.
use nano_mockidp.Base.{ℕ, String, Bool, Option, none, some, List, [], ◌∷◌}
use nano_mockidp.Base.Map.{Map}

pub data Number : Type 0 where
  u64 : ℕ → Number
  other : String → Number

mutual
  pub data Value : Type 0 where
    null : Value
    bool : Bool → Value
    number : Number → Value
    string : String → Value
    array : Items → Value
    object : Fields → Value

  pub data Items : Type 0 where
    nil : Items
    cons : Value → Items → Items

  pub data Fields : Type 0 where
    end : Fields
    field : String → Value → Fields → Fields

-- `pub type Claims = Map<String, Value>`
abbrev pub Claims : Type 0
Claims = Map Value

-- The entries of an object, and the object of a map.
abbrev pub entries : Fields → Claims
entries end = []
entries (field k v fs) = (k, v) ∷ entries fs

abbrev pub fields : Claims → Fields
fields [] = end
fields ((k, v) ∷ m) = field k v (fields m)

abbrev pub items : Items → List Value
items nil = []
items (cons v vs) = v ∷ items vs

-- `json!(strings)` for a list of texts
abbrev pub strings : List String → Items
strings [] = nil
strings (s ∷ ss) = cons (string s) (strings ss)

-- `Value::as_str`, `Value::as_u64`, `Value::as_array`
abbrev pub as_str : Value → Option String
as_str (string s) = some s
as_str _ = none

abbrev pub number_u64 : Number → Option ℕ
number_u64 (u64 n) = some n
number_u64 (other t) = none

abbrev pub as_u64 : Value → Option ℕ
as_u64 (number n) = number_u64 n
as_u64 _ = none

abbrev pub as_array : Value → Option (List Value)
as_array (array vs) = some (items vs)
as_array _ = none

-- `json!(text)`, `json!(n)`, and `json!(option)`
abbrev pub json_u64 : ℕ → Value
json_u64 n = number (u64 n)

abbrev pub json_option : Option Value → Value
json_option none = null
json_option (some v) = v
