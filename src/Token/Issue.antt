-- ===== src/Token/Issue.antt =====
-- The claims of an issued token (src/token.rs): `merge_claims`, `audience_from_resources`,
-- `pkce_verify` and `Issuer::issue`. A `u64` sum wraps, as in the release build.
use nano_mockidp.Base.{
  ℕ, ◌+◌, ◌%◌, ◌^◌, String, Bool, Option, none, some, List, [], ◌∷◌, ◌==◌, if◌then◌else◌, unwrap_or,
  contains,
}
use nano_mockidp.Base.Bytes.{as_bytes, take}
use nano_mockidp.Base.Map.{insert}
use nano_mockidp.Crates.{Crates, SigningKey}
use nano_mockidp.Json.{Value, string, array, strings, json_u64, Claims}
use nano_mockidp.Token.Jws.{sign}

abbrev pub u64_mod : ℕ
u64_mod = 2 ^ 64

-- `a + b` on `u64`
abbrev pub add_u64 : ℕ → ℕ → ℕ
add_u64 a b = (a + b) % u64_mod

pub record Issuer : Type 0 where
  pub key : SigningKey
  pub issuer : String
  pub access_ttl : ℕ
  pub id_ttl : ℕ
  pub default_claims : Claims

pub record IssueParams : Type 0 where
  pub client_id : String
  pub audience : Option Value
  pub scope : Option String
  pub nonce : Option String
  pub claims : Claims
  pub auth_time : ℕ
  pub sid : Option String
  pub expires_in : Option ℕ
  pub with_id_token : Bool

pub record TokenSet : Type 0 where
  pub access_token : String
  pub id_token : Option String
  pub expires_in : ℕ

abbrev pub protected : List String
protected = "iss" ∷ "exp" ∷ "iat" ∷ "jti" ∷ []

-- `PROTECTED.contains(&k)`
unfoldable pub is_protected : String → Bool
is_protected k = contains protected k

-- The entries of `user` have distinct keys, so the order in which they are inserted is of no
-- importance: here the last comes first.
unfoldable pub merge_claims : Claims → Claims → Claims
merge_claims base [] = base
merge_claims base ((k, v) ∷ user) =
    let rest = merge_claims base user in if is_protected k then rest else insert k v rest

unfoldable pub audience_from_resources : List String → Option Value
audience_from_resources [] = none
audience_from_resources (one ∷ []) = some (string one)
audience_from_resources many = some (array (strings many))

-- `if let Some(s) = … { map.insert(key, json!(s)); }`
abbrev pub insert_some : String → Option String → Claims → Claims
insert_some k none m = m
insert_some k (some s) m = insert k (string s) m

-- The claims that a grant starts from, before any other is merged.
unfoldable pub base_claims : IssueParams → Claims
base_claims p = insert_some "scope" p.scope (
    insert "auth_time" (json_u64 p.auth_time) (
      insert "azp" (string p.client_id) (
        insert "aud" (unwrap_or p.audience (string p.client_id))
          (insert "sub" (string p.client_id) []))))

-- What the access token and the ID token have in common.
unfoldable pub common_claims : Issuer → IssueParams → ℕ → Claims
unfolding base_claims merge_claims is_protected
common_claims i p now = insert_some "sid" p.sid (
    insert "iat" (json_u64 now) (
      insert "iss" (string i.issuer)
        (merge_claims (merge_claims (base_claims p) i.default_claims) p.claims)))

unfoldable pub access_claims : Issuer → IssueParams → ℕ → String → Claims
unfolding common_claims
access_claims i p now jti = insert "jti" (string jti) (
    insert "exp" (json_u64 (add_u64 now (unwrap_or p.expires_in i.access_ttl)))
      (common_claims i p now))

module _ (lib : Crates) where
  unfoldable pub pkce_verify : String → String → Bool
  pkce_verify verifier challenge = lib.encode (lib.sha256 (as_bytes verifier)) == challenge

  unfoldable pub at_hash : String → String
  at_hash access_token = lib.encode (take 16 (lib.sha256 (as_bytes access_token)))

  unfoldable pub id_claims : Issuer → IssueParams → ℕ → String → String → Claims
  unfolding common_claims at_hash
  id_claims i p now jti access_token = insert_some "nonce" p.nonce (
      insert "at_hash" (string (at_hash access_token)) (
        insert "jti" (string jti) (
          insert "exp" (json_u64 (add_u64 now (unwrap_or p.expires_in i.id_ttl)))
            (common_claims i p now))))

  -- `now` is the reading of the clock in seconds, and the `jti`s are the random tokens drawn.
  unfoldable pub issue : Issuer → IssueParams → ℕ → String → String → TokenSet
  unfolding access_claims id_claims
  issue i p now access_jti id_jti =
      let access_token = sign lib i.key (access_claims i p now access_jti) "at+jwt" in
      record {
        access_token = access_token;
        id_token =
            if p.with_id_token
            then some (sign lib i.key (id_claims i p now id_jti access_token) "JWT")
            else none;
        expires_in = unwrap_or p.expires_in i.access_ttl;
      }
