-- ===== src/Base/Map.antt =====
-- `HashMap<String, _>` and `serde_json::Map`, as lists of entries with distinct keys. The program
-- does not depend on the order of the entries but where a module says so.
mod Laws
pub use Laws.*
mod Defs
unfoldable pub use Defs.{get, remove, insert, retain, contains_key, values}
pub use Defs.{Map, Distinct}
