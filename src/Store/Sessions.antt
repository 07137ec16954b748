-- ===== src/Store/Sessions.antt =====
-- The listing of `Store::sessions` (src/store.rs): its order, and its rows.
use nano_mockidp.Base.{
  String, true, false, Option, none, some, List, [], ◌∷◌, ◌≡◌, refl, ap, ◌∙◌, arith, ◌==◌, eq_iff,
  if◌then◌else◌, Bool-cases, inl, inr,
}
use nano_mockidp.Base.Map.{Map, Distinct, get, values}
use nano_mockidp.Store.Data.{Instant, Session, Store}
use nano_mockidp.Store.Grouping.{tokens_of, summary, get-group-summary, IsKeyed, group-IsKeyed}
use nano_mockidp.Store.Listing.{
  group, text_leb, sorts_before, insert_sorted, sort_sessions, sessions,
}

text_leb_total : (s t : String) → text_leb s t ≡ false → text_leb t s ≡ true
unfolding text_leb
text_leb_total String.[] t h = cc
text_leb_total (String.◌∷◌ c s) String.[] h = refl
text_leb_total (String.◌∷◌ c s) (String.◌∷◌ d t) h = ground (arith, h, text_leb_total s t)

text_leb_trans : (s t u : String) → text_leb s t ≡ true → text_leb t u ≡ true → text_leb s u ≡ true
unfolding text_leb
text_leb_trans String.[] t u h k = refl
text_leb_trans (String.◌∷◌ c s) String.[] u h k = cc
text_leb_trans (String.◌∷◌ c s) (String.◌∷◌ d t) String.[] h k = cc
text_leb_trans (String.◌∷◌ c s) (String.◌∷◌ d t) (String.◌∷◌ e u) h k =
    ground (arith, h, k, text_leb_trans s t u)

sorts_before_total : (a b : Session) → sorts_before a b ≡ false → sorts_before b a ≡ true
unfolding sorts_before
sorts_before_total a b h = ground (arith, h, text_leb_total a.sid b.sid)

sorts_before_trans :
    (a b c : Session) → sorts_before a b ≡ true → sorts_before b c ≡ true → sorts_before a c ≡ true
unfolding sorts_before
sorts_before_trans a b c h k = ground (arith, h, k, text_leb_trans a.sid b.sid c.sid)

-- Each row sorts before all that follow it.
abbrev AllAfter : Session → List Session → Type 0
AllAfter a [] = Unit
AllAfter a (b ∷ rows) = (sorts_before a b ≡ true) × AllAfter a rows

abbrev pub IsSorted : List Session → Type 0
IsSorted [] = Unit
IsSorted (a ∷ rows) = AllAfter a rows × IsSorted rows

AllAfter-trans :
    (a b : Session) (rows : List Session)
    → sorts_before a b ≡ true
    → AllAfter b rows
    → AllAfter a rows
AllAfter-trans a b [] h all = tt
AllAfter-trans a b (c ∷ rows) h (k, all) =
    (sorts_before_trans a b c h k, AllAfter-trans a b rows h all)

AllAfter-insert :
    (a b : Session) (rows : List Session)
    → sorts_before b a ≡ true
    → AllAfter b rows
    → AllAfter b (insert_sorted a rows)
unfolding insert_sorted
AllAfter-insert a b [] h all = (h, tt)
AllAfter-insert a b (c ∷ rows) h (k, all) = elim (Bool-cases (sorts_before a c)) [
  | inl first ↦ rw (first, insert_sorted) (h, (k, all))
  | inr later ↦ rw (later, insert_sorted) (k, AllAfter-insert a b rows h all)
]

insert_sorted-IsSorted :
    (a : Session) (rows : List Session) → IsSorted rows → IsSorted (insert_sorted a rows)
unfolding insert_sorted
insert_sorted-IsSorted a [] h = (tt, tt)
insert_sorted-IsSorted a (b ∷ rows) (all, h) = elim (Bool-cases (sorts_before a b)) [
  | inl first ↦ rw (first, insert_sorted) ((first, AllAfter-trans a b rows first all), (all, h))
  | inr later ↦
      rw (later, insert_sorted)
        (
          AllAfter-insert a b rows (sorts_before_total a b later) all,
          insert_sorted-IsSorted a rows h,
        )
]

sort_sessions-IsSorted : (rows : List Session) → IsSorted (sort_sessions rows)
unfolding sort_sessions
sort_sessions-IsSorted [] = tt
sort_sessions-IsSorted (a ∷ rows) =
    insert_sorted-IsSorted a (sort_sessions rows) (sort_sessions-IsSorted rows)

-- The rows of a login.
pub rows_of : String → List Session → List Session
rows_of sid [] = []
rows_of sid (r ∷ rows) = let rest = rows_of sid rows in if r.sid == sid then r ∷ rest else rest

abbrev pub to_list : Option Session → List Session
to_list none = []
to_list (some r) = r ∷ []

rows_of-values_none :
    (sid : String) (rows : Map Session)
    → IsKeyed rows
    → get sid rows ≡ none
    → rows_of sid (values rows) ≡ []
unfolding rows_of values get
rows_of-values_none sid [] h absent = refl
rows_of-values_none sid ((k, r) ∷ rows) (h, hs) absent =
    ground (arith, h, absent, eq_iff k sid, eq_iff r.sid sid, rows_of-values_none sid rows hs)

rows_of-values :
    (sid : String) (rows : Map Session)
    → IsKeyed rows
    → Distinct rows
    → rows_of sid (values rows) ≡ to_list (get sid rows)
unfolding rows_of values get
rows_of-values sid [] h d = refl
rows_of-values sid ((k, r) ∷ rows) (h, hs) (d, ds) = elim (Bool-cases (k == sid)) [
  | inl own ↦
      let same : k ≡ sid = ground (arith, own, eq_iff k sid) in
      rw own
        (ground (arith, h, same, eq_iff r.sid sid, rows_of-values_none sid rows hs (rw same at d)))
  | inr other ↦
      rw other
        (ground (arith, other, h, eq_iff k sid, eq_iff r.sid sid, rows_of-values sid rows hs ds))
]

-- Where an insertion puts a row does not show among the rows of another login, nor in a login that has none.
rows_of-insert_other :
    (sid : String) (a : Session) (rows : List Session)
    → a.sid == sid ≡ false
    → rows_of sid (insert_sorted a rows) ≡ rows_of sid rows
unfolding rows_of insert_sorted
rows_of-insert_other sid a [] h = rw h refl
rows_of-insert_other sid a (b ∷ rows) h = ground (arith, h, rows_of-insert_other sid a rows)

rows_of-insert_first :
    (sid : String) (a : Session) (rows : List Session)
    → a.sid == sid ≡ true
    → rows_of sid rows ≡ []
    → rows_of sid (insert_sorted a rows) ≡ a ∷ []
unfolding rows_of insert_sorted
rows_of-insert_first sid a [] h none_yet = rw h refl
rows_of-insert_first sid a (b ∷ rows) h none_yet =
    ground (arith, h, none_yet, rows_of-insert_first sid a rows)

only_row :
    (sid : String) (a : Session) (rows sorted : List Session) (o : Option Session)
    → a.sid == sid ≡ true
    → (rows_of sid rows ≡ [] → rows_of sid sorted ≡ [])
    → a ∷ rows_of sid rows ≡ to_list o
    → rows_of sid (insert_sorted a sorted) ≡ to_list o
only_row sid a rows sorted none own ih k = cc
only_row sid a rows sorted (some r) own ih k =
    rows_of-insert_first sid a sorted own (ih (ground (arith, k)))
    ∙ ap (λ x. x ∷ []) (ground (arith, k))

-- Sorting keeps the row of a login that has at most one.
rows_of-sort :
    (sid : String) (rows : List Session) (o : Option Session)
    → rows_of sid rows ≡ to_list o
    → rows_of sid (sort_sessions rows) ≡ to_list o
unfolding rows_of sort_sessions
rows_of-sort sid [] o h = h
rows_of-sort sid (a ∷ rows) o h = elim (Bool-cases (a.sid == sid)) [
  | inr other ↦
      rows_of-insert_other sid a (sort_sessions rows) other
      ∙ rows_of-sort sid rows o (rw (other, rows_of) at h)
  | inl own ↦
      only_row sid a rows (sort_sessions rows) o own (rows_of-sort sid rows none)
        (rw (own, rows_of) at h)
]

-- The listing of the sessions is sorted, the most recently active first and then by `sid`, and it has
-- one row for each login with a live refresh token and none for any other. The row
-- summarises the live tokens of the login: their number, the latest issue, the latest expiry, and
-- whether any is offline.
pub sessions_exact :
    (now : Instant) (s : Store)
    → IsSorted (sessions now s)
      × ((sid : String)
          → rows_of sid (sessions now s) ≡ to_list (summary (tokens_of now sid (values s.refresh))))
unfolding sessions
sessions_exact now s =
    let (keyed, distinct) = group-IsKeyed now (values s.refresh) [] tt tt in
    (
      sort_sessions-IsSorted (values (group now (values s.refresh) [])),
      λ sid. rows_of-sort sid (values (group now (values s.refresh) [])) _ (
          rows_of-values sid _ keyed distinct
          ∙ ap to_list (get-group-summary now sid (values s.refresh))),
    )
