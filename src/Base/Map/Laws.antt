-- ===== src/Base/Map/Laws.antt =====
-- What a lookup finds after each operation, and that the operations keep the keys distinct.
use Prim.Native.String.{String}
use mathlib.Core.Path.{◌≡◌, refl}
use mathlib.Core.Bool.{Bool}
use mathlib.Core.Option.{none, some}
use mathlib.Core.List.{[], ◌∷◌}
use native.Mathlib.Omega.{arith}
use text.Mathlib.Text.{◌==◌}
use text.Mathlib.TextEquality.{eq_iff}
use nano_mockidp.Base.Tests.{if◌then◌else◌, keep_if}
use nano_mockidp.Base.Map.Defs.{Map, get, remove, insert, retain, Distinct}

module _ {ℓ} {V : Type ℓ} where
  pub get-nil : (j : String) → get {V = V} j [] ≡ none
  unfolding get
  get-nil j = refl

  pub get-remove :
      (k j : String) (m : Map V) → get j (remove k m) ≡ (if k == j then none else get j m)
  unfolding get remove
  get-remove k j [] = ground arith
  get-remove k j ((i, v) ∷ m) = ground (arith, get-remove k j m, eq_iff i k, eq_iff i j, eq_iff k j)

  pub get-insert :
      (k j : String) (v : V) (m : Map V)
      → get j (insert k v m) ≡ (if k == j then some v else get j m)
  unfolding get insert
  get-insert k j v m = ground (arith, get-remove k j m)

  pub get-retain_none :
      (p : V → Bool) (j : String) (m : Map V) → get j m ≡ none → get j (retain p m) ≡ none
  unfolding get retain
  get-retain_none p j [] h = refl
  get-retain_none p j ((i, v) ∷ m) h = ground (arith, get-retain_none p j m)

  pub get-retain :
      (p : V → Bool) (j : String) (m : Map V)
      → Distinct m
      → get j (retain p m) ≡ keep_if p (get j m)
  unfolding get retain
  get-retain p j [] d = refl
  get-retain p j ((i, v) ∷ m) d =
      ground
        (arith, eq_iff i j, get-retain p j m d.1, get-retain_none p j m, get-retain_none p i m d.0)

  pub Distinct-remove : (k : String) (m : Map V) → Distinct m → Distinct (remove k m)
  unfolding remove
  Distinct-remove k [] d = tt
  Distinct-remove k ((i, v) ∷ m) d = ground (arith, get-remove k i m, Distinct-remove k m d.1)

  pub Distinct-insert : (k : String) (v : V) (m : Map V) → Distinct m → Distinct (insert k v m)
  unfolding insert
  Distinct-insert k v m d = ground (arith, get-remove k k m, eq_iff k k, Distinct-remove k m d)

  pub Distinct-retain : (p : V → Bool) (m : Map V) → Distinct m → Distinct (retain p m)
  unfolding retain
  Distinct-retain p [] d = tt
  Distinct-retain p ((i, v) ∷ m) d =
      ground (arith, get-retain_none p i m d.0, Distinct-retain p m d.1)
