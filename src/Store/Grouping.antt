-- ===== src/Store/Grouping.antt =====
-- The rows of `Store::sessions` (src/store.rs): one for each login, which summarises its live tokens.
use Prim.Native.Nat.{max}
use nano_mockidp.Base.{
  ℕ, ◌+◌, String, ◌&&◌, ◌||◌, Option, none, some, List, [], ◌∷◌, ◌≡◌, refl, sym, ◌∙◌, arith, ◌==◌,
  eq_iff, any, length, if◌then◌else◌, Bool-cases, Option-cases, inl, inr,
}
use nano_mockidp.Base.Map.{Map, Distinct, get, insert, remove, get-nil, get-insert, Distinct-insert}
use nano_mockidp.Store.Data.{Instant, unix_secs, Expiring, RefreshEntry, Session}
use nano_mockidp.Store.Listing.{new_session, add_token, row_for, group_one, group}
use nano_mockidp.Store.Ops.{is_live, sub_of}

abbrev pub Token : Type 0
Token = Expiring RefreshEntry

-- The live tokens of a login.
pub tokens_of : Instant → String → List Token → List Token
tokens_of now sid [] = []
tokens_of now sid (e ∷ es) =
    let rest = tokens_of now sid es in
    if is_live now e && e.value.sid == sid then e ∷ rest else rest

-- The highest value of a field.
pub highest : (Token → ℕ) → List Token → ℕ
highest f [] = 0
highest f (e ∷ es) = max (f e) (highest f es)

-- What a row says of the live tokens of a login: the login of the first, and the latest issue, the
-- latest expiry, whether any is offline, and the number of all.
pub summary : List Token → Option Session
summary [] = none
summary (e ∷ es) = some (record {
  sid = e.value.sid;
  sub = sub_of e.value.claims;
  client_id = e.value.client_id;
  upstream_sub = e.value.upstream_sub;
  upstream_email = e.value.upstream_email;
  auth_time = e.value.auth_time;
  last_issued_at = highest (λ (t : Token). t.value.issued_at) (e ∷ es);
  expires_at = highest (λ (t : Token). unix_secs t.expires_at) (e ∷ es);
  offline = any (λ (t : Token). t.value.offline) (e ∷ es);
  refresh_tokens = length (e ∷ es);
})

-- A row after more tokens.
add_all : List Token → Session → Session
add_all [] r = r
add_all (e ∷ es) r = add_all es (add_token e r)

grow : Option Session → List Token → Option Session
grow none [] = none
grow none (e ∷ es) = some (add_all es (add_token e (new_session e)))
grow (some r) es = some (add_all es r)

add_all_lem :
    (es : List Token) (r : Session)
    → add_all es r ≡ record r {
      last_issued_at = max r.last_issued_at (highest (λ (t : Token). t.value.issued_at) es);
      expires_at = max r.expires_at (highest (λ (t : Token). unix_secs t.expires_at) es);
      offline = r.offline || any (λ (t : Token). t.value.offline) es;
      refresh_tokens = r.refresh_tokens + length es;
    }
unfolding add_all highest add_token
add_all_lem [] r = ground arith
add_all_lem (e ∷ es) r = ground (arith, add_all_lem es (add_token e r))

grow_lem : (es : List Token) → grow none es ≡ summary es
unfolding grow summary highest new_session add_token
grow_lem [] = refl
grow_lem (e ∷ es) = ground (arith, add_all_lem es (add_token e (new_session e)))

grow-nil : (o : Option Session) → grow o [] ≡ o
unfolding grow add_all
grow-nil none = refl
grow-nil (some r) = refl

-- A live token of the login adds to its row, and any other leaves it.
get-group_one :
    (now : Instant) (e : Token) (sid : String) (rows : Map Session)
    → get sid (group_one now e rows)
      ≡ (if is_live now e && e.value.sid == sid then grow (get sid rows) (e ∷ []) else get sid rows)
unfolding group_one grow add_all
get-group_one now e sid rows = elim (Bool-cases (is_live now e)) [
  | inr late ↦ rw (late, group_one) refl
  | inl live ↦
      rw (live, group_one)
        (rw get-insert (elim (Bool-cases (e.value.sid == sid)) [
          | inr other ↦ rw other refl
          | inl same ↦
              let eq : e.value.sid ≡ sid = ground (arith, same, eq_iff e.value.sid sid) in
              rw (same, eq)
                (elim (Option-cases (get sid rows)) [
                  | inl first ↦ rw first refl
                  | inr (r, more) ↦ rw more refl
                ])
        ]))
]

grow-grow :
    (o : Option Session) (e : Token) (es : List Token) → grow (grow o (e ∷ [])) es ≡ grow o (e ∷ es)
unfolding grow add_all
grow-grow none e es = refl
grow-grow (some r) e es = refl

-- After the loop, the row of a login has grown by its live tokens.
get-group :
    (now : Instant) (sid : String) (es : List Token) (rows : Map Session)
    → get sid (group now es rows) ≡ grow (get sid rows) (tokens_of now sid es)
unfolding group tokens_of
get-group now sid [] rows = sym (grow-nil (get sid rows))
get-group now sid (e ∷ es) rows =
    get-group now sid es (group_one now e rows)
    ∙ rw (get-group_one now e sid rows) (elim (Bool-cases (is_live now e && e.value.sid == sid)) [
      | inl own ↦ rw own (grow-grow (get sid rows) e (tokens_of now sid es))
      | inr other ↦ rw other refl
    ])

pub get-group-summary :
    (now : Instant) (sid : String) (es : List Token)
    → get sid (group now es []) ≡ summary (tokens_of now sid es)
get-group-summary now sid es =
    get-group now sid es [] ∙ rw get-nil (grow_lem (tokens_of now sid es))

-- Every row stands at its own `sid`.
abbrev pub IsKeyed : Map Session → Type 0
IsKeyed [] = Unit
IsKeyed ((k, r) ∷ rows) = (r.sid ≡ k) × IsKeyed rows

IsKeyed-remove : (k : String) (rows : Map Session) → IsKeyed rows → IsKeyed (remove k rows)
unfolding remove
IsKeyed-remove k [] h = tt
IsKeyed-remove k ((j, r) ∷ rows) (h, hs) = ground (arith, h, IsKeyed-remove k rows hs)

IsKeyed-get :
    (k : String) (rows : Map Session) (r : Session) → IsKeyed rows → get k rows ≡ some r → r.sid ≡ k
unfolding get
IsKeyed-get k [] r h found = cc
IsKeyed-get k ((j, q) ∷ rows) r (h, hs) found =
    ground (arith, eq_iff j k, found, h, IsKeyed-get k rows r hs)

row_for-sid :
    (e : Token) (o : Option Session)
    → ((r : Session) → o ≡ some r → r.sid ≡ e.value.sid)
    → (add_token e (row_for e o)).sid ≡ e.value.sid
unfolding add_token new_session
row_for-sid e none h = refl
row_for-sid e (some r) h = h r refl

pub group-IsKeyed :
    (now : Instant) (es : List Token) (rows : Map Session)
    → IsKeyed rows
    → Distinct rows
    → IsKeyed (group now es rows) × Distinct (group now es rows)
unfolding group
group-IsKeyed now [] rows h d = (h, d)
group-IsKeyed now (e ∷ es) rows h d = elim (Bool-cases (is_live now e)) [
  | inr late ↦ rw (late, group_one) (group-IsKeyed now es rows h d)
  | inl live ↦
      let named =
        row_for-sid e (get e.value.sid rows) (λ r found. IsKeyed-get e.value.sid rows r h found) in
      rw (live, group_one)
        (group-IsKeyed now es _ (unfold insert in (named, IsKeyed-remove e.value.sid rows h))
          (Distinct-insert e.value.sid _ rows d))
]
