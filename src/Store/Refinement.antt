-- ===== src/Store/Refinement.antt =====
-- The store against its contract: two books of one-time keys, without expired entries to clean up.
use nano_mockidp.Base.{
  ◌≤◌, String, Bool, true, ◌&&◌, Option, none, some, List, [], ◌∷◌, ◌≡◌, ◌==◌, refl, ap, arith,
  if◌then◌else◌, leb,
}
use nano_mockidp.Base.Map.{
  Map, Distinct, get, insert, remove, retain, get-insert, get-remove, get-retain,
}
use nano_mockidp.Store.Data.{Instant, Expiring, CodeEntry, RefreshEntry, Store, IsWellFormed}
use nano_mockidp.Store.Expiry.{live_value-keep_if}
use nano_mockidp.Store.Invariant.{
  code_insert-IsWellFormed, refresh_insert-IsWellFormed, sweep-IsWellFormed, take_code-IsWellFormed,
  take_refresh-IsWellFormed,
}
use nano_mockidp.Store.Ops.{is_live, live_value, sweep, take_code, take_refresh}

-- The calls on the codes and the refresh tokens, and what they answer.
pub data Call : Type 0 where
  put_code : String → Expiring CodeEntry → Call
  get_code : Instant → String → Call
  put_refresh : String → Expiring RefreshEntry → Call
  get_refresh : Instant → String → Call
  clean : Instant → Call

pub data Answer : Type 0 where
  code : Option CodeEntry → Answer
  refresh : Option RefreshEntry → Answer
  done : Answer

-- The calls as the handlers and the sweeper make them.
unfoldable pub run : List Call → Store → List Answer
unfolding take_code take_refresh sweep
run [] s = []
run (put_code k e ∷ calls) s = done ∷ run calls (record s { codes = insert k e s.codes })
run (get_code now k ∷ calls) s = code (take_code now k s).0 ∷ run calls (take_code now k s).1
run (put_refresh k e ∷ calls) s = done ∷ run calls (record s { refresh = insert k e s.refresh })
run (get_refresh now k ∷ calls) s =
    refresh (take_refresh now k s).0 ∷ run calls (take_refresh now k s).1
run (clean now ∷ calls) s = done ∷ run calls (sweep now s)

-- The contract: a book says what was put in under a key and not yet taken.
abbrev pub Book : Type 0 → Type 0
Book T = String → Option (Expiring T)

module _ {T : Type 0} where
  abbrev pub write : String → Expiring T → Book T → Book T
  write k e book j = if k == j then some e else book j

  abbrev pub erase : String → Book T → Book T
  erase k book j = if k == j then none else book j

unfoldable pub promised : List Call → Book CodeEntry → Book RefreshEntry → List Answer
promised [] codes tokens = []
promised (put_code k e ∷ calls) codes tokens = done ∷ promised calls (write k e codes) tokens
promised (get_code now k ∷ calls) codes tokens =
    code (live_value now (codes k)) ∷ promised calls (erase k codes) tokens
promised (put_refresh k e ∷ calls) codes tokens = done ∷ promised calls codes (write k e tokens)
promised (get_refresh now k ∷ calls) codes tokens =
    refresh (live_value now (tokens k)) ∷ promised calls codes (erase k tokens)
promised (clean now ∷ calls) codes tokens = done ∷ promised calls codes tokens

-- The clock does not go back.
unfoldable pub in_order : Instant → List Call → Bool
in_order t [] = true
in_order t (get_code now k ∷ calls) = leb t now && in_order now calls
in_order t (get_refresh now k ∷ calls) = leb t now && in_order now calls
in_order t (clean now ∷ calls) = leb t now && in_order now calls
in_order t (put_code k e ∷ calls) = in_order t calls
in_order t (put_refresh k e ∷ calls) = in_order t calls

module _ {T : Type 0} where
  -- From an instant on, the table and the book tell the same live entries.
  abbrev Agree : Instant → Map (Expiring T) → Book T → Type 0
  Agree t m book =
      (j : String) (u : Instant) → t ≤ u → live_value u (get j m) ≡ live_value u (book j)

  Agree-later :
      (t now : Instant) (m : Map (Expiring T)) (book : Book T)
      → t ≤ now
      → Agree t m book
      → Agree now m book
  Agree-later t now m book h a j u later = a j u (ground (arith, later, h))

  Agree-insert :
      (t : Instant) (k : String) (e : Expiring T) (m : Map (Expiring T)) (book : Book T)
      → Agree t m book
      → Agree t (insert k e m) (write k e book)
  Agree-insert t k e m book a j u later = rw get-insert (ground (arith, a j u later))

  Agree-remove :
      (t : Instant) (k : String) (m : Map (Expiring T)) (book : Book T)
      → Agree t m book
      → Agree t (remove k m) (erase k book)
  Agree-remove t k m book a j u later = rw get-remove (ground (arith, a j u later))

  Agree-retain :
      (t now : Instant) (m : Map (Expiring T)) (book : Book T)
      → t ≤ now
      → Distinct m
      → Agree t m book
      → Agree now (retain (is_live now) m) book
  Agree-retain t now m book h d a j u later =
      rw (get-retain (is_live now) j m d)
        (rw (live_value-keep_if now u (get j m) later) (a j u (ground (arith, later, h))))

simulates :
    (t : Instant) (calls : List Call) (s : Store) (codes : Book CodeEntry)
    (tokens : Book RefreshEntry)
    → IsWellFormed s
    → in_order t calls ≡ true
    → Agree t s.codes codes
    → Agree t s.refresh tokens
    → run calls s ≡ promised calls codes tokens
unfolding run promised in_order
simulates t [] s codes tokens w h a b = refl
simulates t (put_code k e ∷ calls) s codes tokens w h a b = ap (◌∷◌ done) (
    simulates t calls _ _ _ (code_insert-IsWellFormed k e s w) h
      (Agree-insert t k e s.codes codes a) b)
simulates t (get_code now k ∷ calls) s codes tokens w h a b =
    let on_time : t ≤ now = ground (arith, h) in
    rw (a k now on_time) (
      ap (◌∷◌ (code (live_value now (codes k)))) (
        simulates now calls _ _ _ (take_code-IsWellFormed now k s w) (ground (arith, h))
          (Agree-remove now k s.codes codes (Agree-later t now s.codes codes on_time a))
          (Agree-later t now s.refresh tokens on_time b)))
simulates t (put_refresh k e ∷ calls) s codes tokens w h a b = ap (◌∷◌ done) (
    simulates t calls _ _ _ (refresh_insert-IsWellFormed k e s w) h a
      (Agree-insert t k e s.refresh tokens b))
simulates t (get_refresh now k ∷ calls) s codes tokens w h a b =
    let on_time : t ≤ now = ground (arith, h) in
    rw (b k now on_time) (
      ap (◌∷◌ (refresh (live_value now (tokens k)))) (
        simulates now calls _ _ _ (take_refresh-IsWellFormed now k s w) (ground (arith, h))
          (Agree-later t now s.codes codes on_time a)
          (Agree-remove now k s.refresh tokens (Agree-later t now s.refresh tokens on_time b))))
simulates t (clean now ∷ calls) s codes tokens w h a b =
    let on_time : t ≤ now = ground (arith, h) in
    ap (◌∷◌ done) (
      simulates now calls _ _ _ (sweep-IsWellFormed now s w) (ground (arith, h))
        (Agree-retain t now s.codes codes on_time w.codes a)
        (Agree-retain t now s.refresh tokens on_time w.refresh b))

-- The store keeps its contract: as long as the clock does not go back, every sequence of calls is
-- answered as by two books of one-time keys in which nothing is ever swept.
pub run-promised :
    (t : Instant) (calls : List Call) (s : Store)
    → IsWellFormed s
    → in_order t calls ≡ true
    → run calls s ≡ promised calls (λ k. get k s.codes) (λ k. get k s.refresh)
run-promised t calls s w h = simulates t calls s _ _ w h (λ j u later. refl) (λ j u later. refl)
