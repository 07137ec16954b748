-- ===== src/Token/Claims.antt =====
-- What stands in the claims of an issued token: who wins where a claim is supplied twice.
use mathlib.Core.Option
use nano_mockidp.Base.{
  ℕ, String, false, Option, none, some, [], ◌∷◌, ◌==◌, eq_iff, ◌≡◌, arith, if◌then◌else◌, or_else,
  unwrap_or,
}
use nano_mockidp.Base.Map.{get, get-insert}
use nano_mockidp.Json.{string, json_u64, Claims}
use nano_mockidp.Crates.{Crates}
use nano_mockidp.Token.Issue.{
  Issuer, IssueParams, is_protected, merge_claims, base_claims, common_claims, access_claims,
  id_claims, at_hash, add_u64, insert_some,
}

-- A merge lets the user's claims win, but never for a protected key.
pub get-merge_claims :
    (k : String) (base user : Claims)
    → get k (merge_claims base user)
      ≡ (if is_protected k then get k base else or_else (get k user) (get k base))
unfolding merge_claims get
get-merge_claims k base [] = ground arith
get-merge_claims k base ((j, v) ∷ user) =
    ground
      (arith, get-merge_claims k base user, get-insert j k v (merge_claims base user), eq_iff j k)

-- A claim that is set only if its value is given.
pub get-insert_some :
    (k j : String) (o : Option String) (m : Claims)
    → get j (insert_some k o m)
      ≡ (if k == j then or_else (Option.map string o) (get j m) else get j m)
get-insert_some k j none m = ground arith
get-insert_some k j (some s) m = get-insert k j (string s) m

ruleset lookups = (get-insert, get-insert_some, get-merge_claims)

free_names :
    (k : String)
    → is_protected k ≡ false
    → (("iss" == k) ≡ false)
      × (("exp" == k) ≡ false)
      × (("iat" == k) ≡ false)
      × (("jti" == k) ≡ false)
unfolding is_protected
free_names k h = ground arith

module _ (i : Issuer) (p : IssueParams) (now : ℕ) (jti : String) where
  -- Whatever claims the user and the configuration supply, the issuer, the times and the id of an
  -- access token are the server's.
  pub access_claims-reserved :
      (get "iss" (access_claims i p now jti) ≡ some (string i.issuer))
      × (get "iat" (access_claims i p now jti) ≡ some (json_u64 now))
      × (get "exp" (access_claims i p now jti)
          ≡ some (json_u64 (add_u64 now (unwrap_or p.expires_in i.access_ttl))))
      × (get "jti" (access_claims i p now jti) ≡ some (string jti))
  unfolding access_claims common_claims
  access_claims-reserved = (simp lookups, simp lookups, simp lookups, simp lookups)

  -- A claim that is not protected is the user's, or else the configuration's, or else the grant's,
  -- but for the `sid` of a login, which goes before these.
  pub access_claims-layers :
      (k : String)
      → is_protected k ≡ false
      → get k (access_claims i p now jti) ≡ (
          let layers =
            or_else (get k p.claims) (or_else (get k i.default_claims) (get k (base_claims p))) in
          if "sid" == k then or_else (Option.map string p.sid) layers else layers)
  unfolding access_claims common_claims
  access_claims-layers k free = let f = free_names k free in simp (lookups, f.0, f.1, f.2, f.3)

module _ (lib : Crates) (i : Issuer) (p : IssueParams) (now : ℕ) (jti access_token : String) where
  -- The ID token has the same claims but for its own times and id, the hash of the access token
  -- and the nonce of the login.
  pub id_claims-access_claims :
      (access_jti k : String)
      → ("exp" == k) ≡ false
      → ("jti" == k) ≡ false
      → ("at_hash" == k) ≡ false
      → ("nonce" == k) ≡ false
      → get k (id_claims lib i p now jti access_token) ≡ get k (access_claims i p now access_jti)
  unfolding id_claims access_claims
  id_claims-access_claims access_jti k a b c d = simp (lookups, a, b, c, d)

  -- The issuer, the expiry, the id and the hash of the access token in an ID token are the server's,
  -- and a nonce of the login goes before one that another layer supplies.
  pub id_claims-reserved :
      (get "iss" (id_claims lib i p now jti access_token) ≡ some (string i.issuer))
      × (get "exp" (id_claims lib i p now jti access_token)
          ≡ some (json_u64 (add_u64 now (unwrap_or p.expires_in i.id_ttl))))
      × (get "jti" (id_claims lib i p now jti access_token) ≡ some (string jti))
      × (get "at_hash" (id_claims lib i p now jti access_token)
          ≡ some (string (at_hash lib access_token)))
      × (get "nonce" (id_claims lib i p now jti access_token)
          ≡ or_else (Option.map string p.nonce) (get "nonce" (access_claims i p now jti)))
  unfolding id_claims access_claims common_claims
  id_claims-reserved = (simp lookups, simp lookups, simp lookups, simp lookups, simp lookups)
