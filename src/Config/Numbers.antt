-- ===== src/Config/Numbers.antt =====
-- The lifetimes among the settings (`parse_u64` of src/config.rs).
use nano_mockidp.Base.{ℕ, ◌<◌, ◌^◌, String, ◌≡◌, refl}
use nano_mockidp.Base.Text.{decimal}
use nano_mockidp.Base.Text.Decimal.{trim-decimal, parse_u64-decimal}
use nano_mockidp.Base.Result.{ok}
use nano_mockidp.Config.Parse.{Readers, parse_seconds}
use nano_mockidp.Crates.{Crates}

-- Every 64-bit number of seconds is read back from its decimal text.
pub parse_seconds-decimal :
    (lib : Crates) (readers : Readers) (name : String) (n : ℕ)
    → n < 2 ^ 64
    → parse_seconds lib readers name (decimal n) ≡ ok n
unfolding parse_seconds
parse_seconds-decimal lib readers name n h =
    rw (parse_seconds, trim-decimal n h) (rw (parse_u64-decimal n h) refl)
