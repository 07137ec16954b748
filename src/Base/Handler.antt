-- ===== src/Base/Handler.antt =====
-- A handler: it reads and changes the state `S`, and answers or fails. What it wrote before it
-- failed stays written.
use mathlib.Core.Bool.{Bool, true, false}
use mathlib.Core.Option.{Option, none, some}
use nano_mockidp.Base.Result.{Result, ok, err}

abbrev pub Handler : Type 0 → Type 0 → Type 0 → Type 0
Handler S E A = S → Result E A × S

module _ {S E A : Type 0} where
  abbrev pub pure : A → Handler S E A
  pure a s = (ok a, s)

  abbrev pub fail : E → Handler S E A
  fail e s = (err e, s)

  -- a computation that does not touch the state
  abbrev pub lift : Result E A → Handler S E A
  lift r s = (r, s)

  abbrev pub gets : (S → A) → Handler S E A
  gets f s = (ok (f s), s)

  -- an operation of the state that also returns a value
  abbrev pub act : (S → A × S) → Handler S E A
  act f s = (ok (f s).0, (f s).1)

  -- `ok_or_else(…)?`
  abbrev pub require : Option A → E → Handler S E A
  require none e s = (err e, s)
  require (some a) e s = (ok a, s)

module _ {S E : Type 0} where
  -- `if !test { return Err(e); }`
  abbrev pub guard : Bool → E → Handler S E (Unit {0})
  guard true e s = (ok tt, s)
  guard false e s = (err e, s)

  abbrev pub modify : (S → S) → Handler S E (Unit {0})
  modify f s = (ok tt, f s)

module _ {S E A B : Type 0} where
  abbrev pub continue : Result E A → (A → Handler S E B) → Handler S E B
  continue (ok a) f s = f a s
  continue (err e) f s = (err e, s)

  infixl 10 ◌>>=◌
  abbrev pub ◌>>=◌ : Handler S E A → (A → Handler S E B) → Handler S E B
  ◌>>=◌ m f s = continue (m s).0 f (m s).1

module _ {S E B : Type 0} where
  infixl 10 ◌>>◌
  abbrev pub ◌>>◌ : Handler S E (Unit {0}) → Handler S E B → Handler S E B
  m >> k = m >>= λ _. k
