-- ===== src/Server/Kept.antt =====
-- What the tables of the store always hold, and that the methods of the store keep it.
use nano_mockidp.Base.{
  String, Bool, true, ◌&&◌, Option, none, some, ◌≡◌, ◌⊎◌, refl, ◌==◌, any, is_some, is_none,
  Bool-cases, inl, inr,
}
use nano_mockidp.Base.Holds.{
  Each, Each-get, Each-remove, Each-retain, OnSome, absent, present, OnSome_at,
}
use nano_mockidp.Base.Map.{get}
use nano_mockidp.Config.{ClientConfig, Config}
use nano_mockidp.Store.Data.{
  Instant, Expiring, CodeEntry, RefreshEntry, Store, IsWellFormed, is_expired,
}
use nano_mockidp.Store.Invariant.{
  sweep-IsWellFormed, take_code-IsWellFormed, take_refresh-IsWellFormed, drop_refresh-IsWellFormed,
}
use nano_mockidp.Store.Ops.{sweep, take_code, take_refresh, drop_refresh, live_value}

live_OnSome :
    {T : Type 0} {P : T → Type 0} (now : Instant) (o : Option (Expiring T))
    → OnSome (λ e. P e.value) o
    → OnSome P (live_value now o)
live_OnSome now none h = absent
live_OnSome now (some e) h = elim (Bool-cases (is_expired now e)) [
  | inl late ↦ rw late absent
  | inr live ↦ rw live (present (OnSome_at h refl))
]

-- `Named` are the subjects of the upstream that may be named.
module _ (Named : String → Type 0) (config : Config) where
  -- What is stored names such a subject, if the settings have the gate.
  abbrev pub IsGated : Option String → Type 0
  IsGated upstream_sub =
      (is_none config.upstream ≡ true) ⊎ ((sub : String) × (upstream_sub ≡ some sub) × Named sub)

  -- The client is one of the configuration, with a secret.
  abbrev pub is_confidential : String → Bool
  is_confidential client_id =
      any (λ (c : ClientConfig). c.client_id == client_id && is_some c.client_secret) config.clients

  -- A refresh token names such a subject too, or is one of a configured client with a secret.
  abbrev pub IsVouched : RefreshEntry → Type 0
  IsVouched e = IsGated e.upstream_sub ⊎ (is_confidential e.client_id ≡ true)

  pub record IsKept (s : Store) : Type 0 where
    pub well_formed : IsWellFormed s
    pub codes : Each (λ (e : Expiring CodeEntry). IsGated e.value.upstream_sub) s.codes
    pub refresh : Each (λ (e : Expiring RefreshEntry). IsVouched e.value) s.refresh

  pub sweep-IsKept : (now : Instant) (s : Store) → IsKept s → IsKept (sweep now s)
  unfolding sweep
  sweep-IsKept now s k = record {
    well_formed = sweep-IsWellFormed now s k.well_formed;
    codes = Each-retain _ _ s.codes k.codes;
    refresh = Each-retain _ _ s.refresh k.refresh;
  }

  pub take_code-IsKept :
      (now : Instant) (code : String) (s : Store)
      → IsKept s
      → IsKept (take_code now code s).1
        × OnSome (λ e. IsGated e.upstream_sub) (take_code now code s).0
  unfolding take_code
  take_code-IsKept now code s k = (
    record {
      well_formed = take_code-IsWellFormed now code s k.well_formed;
      codes = Each-remove _ code s.codes k.codes;
      refresh = k.refresh;
    },
    live_OnSome now (get code s.codes) (Each-get _ code s.codes k.codes),
  )

  pub take_refresh-IsKept :
      (now : Instant) (token : String) (s : Store)
      → IsKept s
      → IsKept (take_refresh now token s).1 × OnSome IsVouched (take_refresh now token s).0
  unfolding take_refresh
  take_refresh-IsKept now token s k = (
    record {
      well_formed = take_refresh-IsWellFormed now token s k.well_formed;
      codes = k.codes;
      refresh = Each-remove _ token s.refresh k.refresh;
    },
    live_OnSome now (get token s.refresh) (Each-get _ token s.refresh k.refresh),
  )

  pub drop_refresh-IsKept :
      (doomed : Expiring RefreshEntry → Bool) (s : Store)
      → IsKept s
      → IsKept (drop_refresh doomed s).1
  unfolding drop_refresh
  drop_refresh-IsKept doomed s k = record {
    well_formed = drop_refresh-IsWellFormed doomed s k.well_formed;
    codes = k.codes;
    refresh = Each-retain _ _ s.refresh k.refresh;
  }
