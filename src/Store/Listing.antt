-- ===== src/Store/Listing.antt =====
-- `Store::sessions` (src/store.rs): the live logins, one row for each `sid`.
use Prim.Native.Nat.{max, compare, Ordering}
use Prim.Native.Char.{code}
use nano_mockidp.Base.{
  ◌+◌, String, Bool, true, false, ◌||◌, Option, none, some, List, [], ◌∷◌, if◌then◌else◌,
}
use nano_mockidp.Base.Map.{Map, get, insert, values}
use nano_mockidp.Store.Data.{Instant, unix_secs, Expiring, RefreshEntry, Session, Store}
use nano_mockidp.Store.Ops.{is_live, sub_of}

-- The row that `or_insert_with` makes for the first token of a login.
unfoldable pub new_session : Expiring RefreshEntry → Session
unfolding unix_secs sub_of
new_session e = record {
  sid = e.value.sid;
  sub = sub_of e.value.claims;
  client_id = e.value.client_id;
  upstream_sub = e.value.upstream_sub;
  upstream_email = e.value.upstream_email;
  auth_time = e.value.auth_time;
  last_issued_at = e.value.issued_at;
  expires_at = unix_secs e.expires_at;
  offline = e.value.offline;
  refresh_tokens = 0;
}

-- What each token adds to its row.
unfoldable pub add_token : Expiring RefreshEntry → Session → Session
unfolding unix_secs
add_token e s = record s {
  last_issued_at = max s.last_issued_at e.value.issued_at;
  expires_at = max s.expires_at (unix_secs e.expires_at);
  offline = s.offline || e.value.offline;
  refresh_tokens = s.refresh_tokens + 1;
}

abbrev pub row_for : Expiring RefreshEntry → Option Session → Session
row_for e none = new_session e
row_for e (some s) = s

-- One round of the loop over the live tokens.
unfoldable pub group_one : Instant → Expiring RefreshEntry → Map Session → Map Session
unfolding new_session add_token
group_one now e rows =
    if is_live now e
    then insert e.value.sid (add_token e (row_for e (get e.value.sid rows))) rows
    else rows

unfoldable pub group : Instant → List (Expiring RefreshEntry) → Map Session → Map Session
unfolding group_one
group now [] rows = rows
group now (e ∷ es) rows = group now es (group_one now e rows)

-- `str` is ordered by its code points.
unfoldable pub text_leb : String → String → Bool
text_leb String.[] t = true
text_leb (String.◌∷◌ c s) String.[] = false
text_leb (String.◌∷◌ c s) (String.◌∷◌ d t) =
    let rest = text_leb s t in
    elim (compare (code c) (code d)) [
      | Ordering.lt ↦ true
      | Ordering.eq ↦ rest
      | Ordering.gt ↦ false
    ]

-- The comparison of `sort_by`: the most recently active first, then by `sid`.
unfoldable pub sorts_before : Session → Session → Bool
unfolding text_leb
sorts_before a b = elim (compare b.last_issued_at a.last_issued_at) [
  | Ordering.lt ↦ true
  | Ordering.eq ↦ text_leb a.sid b.sid
  | Ordering.gt ↦ false
]

unfoldable pub insert_sorted : Session → List Session → List Session
unfolding sorts_before
insert_sorted a [] = a ∷ []
insert_sorted a (b ∷ rows) =
    let later = insert_sorted a rows in if sorts_before a b then a ∷ b ∷ rows else b ∷ later

-- `sort_by`: the rows have distinct `sid`s, so their order is determined.
unfoldable pub sort_sessions : List Session → List Session
unfolding insert_sorted
sort_sessions [] = []
sort_sessions (a ∷ rows) = insert_sorted a (sort_sessions rows)

unfoldable pub sessions : Instant → Store → List Session
unfolding group sort_sessions
sessions now s = sort_sessions (values (group now (values s.refresh) []))
