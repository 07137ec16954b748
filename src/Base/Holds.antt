-- ===== src/Base/Holds.antt =====
-- Predicates on what options and maps hold.
use Prim.Native.String.{String}
use mathlib.Core.Path.{◌≡◌, subst}
use mathlib.Core.Bool.{Bool}
use mathlib.Core.Logic.{inl, inr}
use mathlib.Core.Option.{Option, none, some}
use mathlib.Core.List.{[], ◌∷◌}
use text.Mathlib.Text.{◌==◌}
use nano_mockidp.Base.Map.{Map, get, remove, insert, retain}
use nano_mockidp.Base.Tests.{Bool-cases}

pub data OnSome {ℓ} {A : Type ℓ} (P : A → Type 0) : Option A → Type ℓ where
  absent : OnSome P none
  present : {a : A} → P a → OnSome P (some a)

pub some-injective : {A : Type 0} {a b : A} → ◌≡◌ {A = Option A} (some a) (some b) → a ≡ b
some-injective h = cc

pub OnSome_at : {A : Type 0} {P : A → Type 0} {o : Option A} {a : A} → OnSome P o → o ≡ some a → P a
OnSome_at OnSome.absent h = absurd cc
OnSome_at {P} (OnSome.present p) h = subst P (some-injective h) p

-- Every entry of a map.
module _ {V : Type 0} (P : V → Type 0) where
  abbrev pub Each : Map V → Type 0
  Each [] = Unit
  Each ((k, v) ∷ m) = P v × Each m

module _ {V : Type 0} (P : V → Type 0) where
  pub Each-get : (k : String) (m : Map V) → Each P m → OnSome P (get k m)
  unfolding get
  Each-get k [] all = OnSome.absent
  Each-get k ((j, v) ∷ m) (p, all) = elim (Bool-cases (j == k)) [
    | inl same ↦ rw same (OnSome.present p)
    | inr other ↦ rw other (Each-get k m all)
  ]

  pub Each-remove : (k : String) (m : Map V) → Each P m → Each P (remove k m)
  unfolding remove
  Each-remove k [] all = tt
  Each-remove k ((j, v) ∷ m) (p, all) = elim (Bool-cases (j == k)) [
    | inl same ↦ rw same (Each-remove k m all)
    | inr other ↦ rw other (p, Each-remove k m all)
  ]

  pub Each-insert : (k : String) (v : V) (m : Map V) → P v → Each P m → Each P (insert k v m)
  unfolding insert
  Each-insert k v m p all = (p, Each-remove k m all)

  pub Each-retain : (q : V → Bool) (m : Map V) → Each P m → Each P (retain q m)
  unfolding retain
  Each-retain q [] all = tt
  Each-retain q ((j, v) ∷ m) (p, all) = elim (Bool-cases (q v)) [
    | inl kept ↦ rw kept (p, Each-retain q m all)
    | inr gone ↦ rw gone (Each-retain q m all)
  ]
