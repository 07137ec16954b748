-- ===== src/Routes/AdminGuard.antt =====
-- The guard of the admin endpoints lets exactly the admin token in (src/routes/admin.rs).
use mathlib.Core.Bool.{false≢true}
use nano_mockidp.Base.{
  ℕ, String, Bool, true, false, not, ◌&&◌, some, [], ◌∷◌, ◌≡◌, ◌↔◌, refl, arith, ◌==◌, length,
  Option-cases, Bool-cases, inl, inr,
}
use nano_mockidp.Base.Bits.{bit_or-zero_iff, bit_xor-zero_iff}
use nano_mockidp.Base.Bytes.{Bytes, as_bytes}
use Prim.Native.Nat.{bit_or, bit_xor}
use nano_mockidp.Http.{Headers, Response}
use nano_mockidp.Routes.Admin.{fold_diff, same, is_admin, require_admin, not_admin}
use nano_mockidp.Routes.Userinfo.{bearer}
use nano_mockidp.State.{AppState}
use nano_mockidp.Store.Data.{Store}

-- The fold over two texts of the same length is 0 exactly if they are equal.
fold_diff_sound :
    (acc : ℕ) (xs ys : Bytes)
    → length xs ≡ length ys
    → fold_diff acc xs ys ≡ 0
    → (acc ≡ 0) × (xs ≡ ys)
unfolding fold_diff
fold_diff_sound acc [] [] l h = (h, refl)
fold_diff_sound acc [] (y ∷ ys) l h = absurd (omega arith)
fold_diff_sound acc (x ∷ xs) [] l h = absurd (omega arith)
fold_diff_sound acc (x ∷ xs) (y ∷ ys) l h =
    let (step, rest) = fold_diff_sound (bit_or acc (bit_xor x y)) xs ys (omega arith) h in
    let (clean, equal) = (bit_or-zero_iff acc (bit_xor x y)).0 step in
    (clean, cc ((bit_xor-zero_iff x y).0 equal, rest))

fold_diff_refl : (xs : Bytes) → fold_diff 0 xs xs ≡ 0
unfolding fold_diff
fold_diff_refl [] = refl
fold_diff_refl (x ∷ xs) =
    rw ((bit_xor-zero_iff x x).1 refl)
      (rw ((bit_or-zero_iff 0 0).1 (refl, refl)) (fold_diff_refl xs))

pub same_iff : (xs ys : Bytes) → (same xs ys ≡ true) ↔ (xs ≡ ys)
unfolding same
same_iff xs ys = (
  λ h. (fold_diff_sound 0 xs ys (ground arith) (ground arith)).1,
  λ e. rw (← e) (ground (arith, fold_diff_refl xs)),
)

-- The request bears the admin token, and it is not empty.
pub record IsAdmin (app : AppState) (headers : Headers) : Type 0 where
  pub token : String
  pub expected : String
  pub configured : app.config.admin_token ≡ some expected
  pub not_empty : expected == "" ≡ false
  pub borne : bearer headers ≡ some token
  pub equal : as_bytes token ≡ as_bytes expected

and_parts : (a b : Bool) → (not a && b) ≡ true → (a ≡ false) × (b ≡ true)
and_parts a b h = ground arith

is_admin_iff :
    (app : AppState) (headers : Headers) → (is_admin app headers ≡ true) ↔ IsAdmin app headers
unfolding is_admin
is_admin_iff app headers = (
  λ h. elim (Option-cases (bearer headers)) [
    | inl anonymous ↦ absurd (false≢true (rw (anonymous, is_admin) at h))
    | inr (token, borne) ↦ elim (Option-cases app.config.admin_token) [
      | inl unset ↦ absurd (false≢true (rw unset at (rw (borne, is_admin) at h)))
      | inr (expected, configured) ↦
          let (given, equal) =
            and_parts (expected == "") (same (as_bytes token) (as_bytes expected))
              (rw configured at (rw (borne, is_admin) at h)) in
          record {
            token = token;
            expected = expected;
            configured = configured;
            not_empty = given;
            borne = borne;
            equal = (same_iff (as_bytes token) (as_bytes expected)).0 equal;
          }
    ]
  ],
  λ m.
      rw (m.borne, is_admin)
        (rw m.configured
          (rw m.not_empty ((same_iff (as_bytes m.token) (as_bytes m.expected)).1 m.equal))),
)

-- The admin endpoints run for exactly those requests that bear the admin token, where one that is not empty
-- is configured. Any other request is answered with status 401 and changes nothing.
pub require_admin_exact :
    (app : AppState) (headers : Headers) (next : Store → Response × Store) (s : Store)
    → (IsAdmin app headers → require_admin app headers next s ≡ next s)
      × (¬ IsAdmin app headers → require_admin app headers next s ≡ (not_admin, s))
unfolding require_admin
require_admin_exact app headers next s = (
  λ m. rw ((is_admin_iff app headers).1 m),
  λ stranger. elim (Bool-cases (is_admin app headers)) [
    | inl good ↦ absurd (stranger ((is_admin_iff app headers).0 good))
    | inr bad ↦ rw bad
  ],
)
