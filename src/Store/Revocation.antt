-- ===== src/Store/Revocation.antt =====
-- What a revocation drops, what it leaves, and what it counts.
use nano_mockidp.Base.{
  ℕ, ◌+◌, String, Bool, not, List, [], ◌∷◌, ◌≡◌, refl, arith, if◌then◌else◌, keep_if, length,
}
use nano_mockidp.Base.Map.{Map, get, retain, values, get-retain}
use nano_mockidp.Store.Data.{Expiring, RefreshEntry, Store, IsWellFormed}
use nano_mockidp.Store.Ops.{drop_refresh}

-- How many entries of a list pass a test.
abbrev pub count {ℓ} : {A : Type ℓ} → (A → Bool) → List A → ℕ
count p [] = 0
count p (a ∷ xs) = (if p a then 1 else 0) + count p xs

length-retain {ℓ} :
    {V : Type ℓ} (p : V → Bool) (m : Map V)
    → length (retain (λ v. not (p v)) m) + count p (values m) ≡ length m
unfolding retain values
length-retain p [] = refl
length-retain p ((k, v) ∷ m) = ground (arith, length-retain p m)

-- A revocation drops exactly the tokens that it is about, and returns their number.
pub drop_refresh-exact :
    (doomed : Expiring RefreshEntry → Bool) (s : Store)
    → IsWellFormed s
    → ((drop_refresh doomed s).0 ≡ count doomed (values s.refresh))
      × ((token : String)
          → get token (drop_refresh doomed s).1.refresh
            ≡ keep_if (λ e. not (doomed e)) (get token s.refresh))
unfolding drop_refresh
drop_refresh-exact doomed s w = (
  omega (arith, length-retain doomed s.refresh),
  λ token. get-retain (λ e. not (doomed e)) token s.refresh w.refresh,
)
