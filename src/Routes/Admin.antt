-- ===== src/Routes/Admin.antt =====
-- src/routes/admin.rs: the subjects and the sessions of `/admin`.
use nano_mockidp.Base.{
  ℕ, zero, suc, String, Bool, false, ◌&&◌, not, Option, none, some, List, [], ◌∷◌, ◌==◌,
  if◌then◌else◌, unwrap_or, length, leb,
}
use Prim.Native.Nat.{bit_or, bit_xor}
use nano_mockidp.Base.Bytes.{Bytes, as_bytes}
use nano_mockidp.Base.Map.{Map, get, insert, remove}
use nano_mockidp.Http.{Headers, Response, json, json_object}
use nano_mockidp.Json.{
  Value, Items, null, bool, string, array, object, nil, cons, fields, Claims, json_u64,
}
use nano_mockidp.Routes.Userinfo.{bearer}
use nano_mockidp.State.{AppState}
use nano_mockidp.Store.Data.{Instant, Store, Subject, Session}
use nano_mockidp.Store.Ops.{count_refresh_for, revoke_refresh_for, revoke_sid}
use nano_mockidp.Store.Listing.{sessions, text_leb}

pub record SubjectBody : Type 0 where
  pub claims : Option Claims
  pub disabled : Bool

-- `fold(0u8, |acc, (x, y)| acc | (x ^ y))` over the zipped bytes
unfoldable pub fold_diff : ℕ → Bytes → Bytes → ℕ
fold_diff acc [] bs = acc
fold_diff acc (a ∷ as') [] = acc
fold_diff acc (a ∷ as') (b ∷ bs) = fold_diff (bit_or acc (bit_xor a b)) as' bs

-- `same`: every byte is read, whatever the first difference.
unfoldable pub same : Bytes → Bytes → Bool
unfolding fold_diff
same a b = leb (length a) (length b) && leb (length b) (length a) && leb (fold_diff 0 a b) 0

abbrev pub not_admin : Response
not_admin = record {
  status = 401;
  headers = ("www-authenticate", "Bearer realm=\"nano-mockidp-admin\"") ∷ [];
  body = json_object (("error", string "unauthorized") ∷ []);
}

-- The test of `require_admin`
unfoldable pub is_admin : AppState → Headers → Bool
unfolding bearer same
is_admin app headers =
    let expected = unwrap_or app.config.admin_token "" in
    elim (bearer headers) [
      | none ↦ false
      | some t ↦ not (expected == "") && same (as_bytes t) (as_bytes expected)
    ]

-- `require_admin`: the route runs only with the admin token.
unfoldable pub require_admin :
    AppState → Headers → (Store → Response × Store) → Store → Response × Store
unfolding is_admin
require_admin app headers next s = if is_admin app headers then next s else (not_admin, s)

abbrev json_claims : Option Claims → Value
json_claims none = null
json_claims (some m) = object (fields m)

abbrev default_subject : Subject
default_subject = record { claims = none; disabled = false }

unfoldable pub view : Instant → Store → String → Value
unfolding count_refresh_for
view now s sub =
    let t = unwrap_or (get sub s.subjects) default_subject in
    let counts = count_refresh_for now sub s in
    object (
      fields (
        ("sub", string sub)
        ∷ ("claims", json_claims t.claims)
        ∷ ("disabled", bool t.disabled)
        ∷ (
          "refresh_tokens",
          object (fields (("online", json_u64 counts.0) ∷ ("offline", json_u64 counts.1) ∷ [])),
        )
        ∷ []))

abbrev json_ok : Value → Response
json_ok v = record { status = 200; headers = []; body = json v }

unfoldable pub insert_text : String → List String → List String
insert_text a [] = a ∷ []
insert_text a (b ∷ ts) =
    let later = insert_text a ts in if text_leb a b then a ∷ b ∷ ts else b ∷ later

-- `subs.sort()`
unfoldable pub sort_texts : List String → List String
unfolding insert_text text_leb
sort_texts [] = []
sort_texts (a ∷ ts) = insert_text a (sort_texts ts)

unfoldable pub keys : Map Subject → List String
keys [] = []
keys ((k, t) ∷ m) = k ∷ keys m

unfoldable pub views : Instant → Store → List String → Items
unfolding view
views now s [] = nil
views now s (k ∷ ks) = cons (view now s k) (views now s ks)

-- `list`
unfoldable pub list : Instant → Store → Response
unfolding views sort_texts keys
list now s = json_ok (array (views now s (sort_texts (keys s.subjects))))

-- `get`
unfoldable pub get_subject : Instant → String → Store → Response
unfolding view
get_subject now sub s = json_ok (view now s sub)

abbrev pub with_sub : String → Option Claims → Option Claims
with_sub sub none = none
with_sub sub (some c) = some (insert "sub" (string sub) c)

-- The store after `put`
unfoldable pub set_subject : String → SubjectBody → Store → Store
set_subject sub body s = record s {
  subjects =
      insert sub (record { claims = with_sub sub body.claims; disabled = body.disabled })
        s.subjects;
}

-- `put`
unfoldable pub put_subject : Instant → String → SubjectBody → Store → Response × Store
unfolding set_subject view
put_subject now sub body s = let s' = set_subject sub body s in (json_ok (view now s' sub), s')

-- `delete`
unfoldable pub delete_subject : String → Store → Response × Store
unfolding revoke_refresh_for
delete_subject sub s =
    let (revoked, s') =
      revoke_refresh_for sub none false (record s { subjects = remove sub s.subjects }) in
    (
      json_ok (
          object
            (fields (("sub", string sub) ∷ ("revoked_refresh_tokens", json_u64 revoked) ∷ []))),
      s',
    )

abbrev json_text_option : Option String → Value
json_text_option none = null
json_text_option (some s) = string s

unfoldable pub session_value : Session → Value
session_value r = object (
    fields (
      ("sid", string r.sid)
      ∷ ("sub", json_text_option r.sub)
      ∷ ("client_id", string r.client_id)
      ∷ ("upstream_sub", json_text_option r.upstream_sub)
      ∷ ("upstream_email", json_text_option r.upstream_email)
      ∷ ("auth_time", json_u64 r.auth_time)
      ∷ ("last_issued_at", json_u64 r.last_issued_at)
      ∷ ("expires_at", json_u64 r.expires_at)
      ∷ ("offline", bool r.offline)
      ∷ ("refresh_tokens", json_u64 r.refresh_tokens)
      ∷ []))

unfoldable pub session_values : List Session → Items
unfolding session_value
session_values [] = nil
session_values (r ∷ rs) = cons (session_value r) (session_values rs)

-- `sessions`
unfoldable pub list_sessions : Instant → Store → Response
unfolding session_values sessions
list_sessions now s = json_ok (array (session_values (sessions now s)))

abbrev ended_status : ℕ → ℕ
ended_status zero = 404
ended_status (suc n) = 200

-- `end_session`
unfoldable pub end_login : String → Store → Response × Store
unfolding revoke_sid
end_login sid s =
    let (revoked, s') = revoke_sid sid s in
    (
      record {
        status = ended_status revoked;
        headers = [];
        body =
            json_object (("sid", string sid) ∷ ("revoked_refresh_tokens", json_u64 revoked) ∷ []);
      },
      s',
    )
