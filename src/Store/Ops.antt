-- ===== src/Store/Ops.antt =====
-- The methods of `Store` (src/store.rs). A method that reads the clock takes the reading as an
-- argument, and one that changes the store returns the new store beside its result.
use nano_mockidp.Base.{
  ℕ, ◌+◌, ◌-◌, String, Bool, not, ◌&&◌, ◌||◌, Option, none, some, List, [], ◌∷◌, ◌==◌, ltb,
  if◌then◌else◌, is_some_and, is_none_or, and_then, keep_if, same_text, length,
}
use nano_mockidp.Base.Map.{get, remove, retain, values, contains_key}
use nano_mockidp.Json.{Claims, as_str}
use nano_mockidp.Store.Data.{
  Instant, unix_secs, Expiring, is_expired, CodeEntry, RefreshEntry, Store, Subject,
}

abbrev pub is_live {ℓ} : {T : Type ℓ} → Instant → Expiring T → Bool
is_live now e = not (is_expired now e)

unfoldable pub sub_of : Claims → Option String
sub_of claims = and_then (get "sub" claims) as_str

unfoldable pub sweep : Instant → Store → Store
unfolding unix_secs
sweep now s = record s {
  pending = retain (is_live now) s.pending;
  codes = retain (is_live now) s.codes;
  refresh = retain (is_live now) s.refresh;
  revoked_jti = retain (λ exp. ltb (unix_secs now) exp) s.revoked_jti;
}

-- `(!e.is_expired(now)).then_some(e.value)`
abbrev pub live_value {ℓ} : {T : Type ℓ} → Instant → Option (Expiring T) → Option T
live_value now none = none
live_value now (some e) = if is_expired now e then none else some e.value

unfoldable pub take_code : Instant → String → Store → Option CodeEntry × Store
take_code now code s = (live_value now (get code s.codes), record s { codes = remove code s.codes })

unfoldable pub take_refresh : Instant → String → Store → Option RefreshEntry × Store
take_refresh now token s =
    (live_value now (get token s.refresh), record s { refresh = remove token s.refresh })

unfoldable pub peek_refresh : Instant → String → Store → Option (Expiring RefreshEntry)
peek_refresh now token s = keep_if (is_live now) (get token s.refresh)

unfoldable pub is_disabled : String → Store → Bool
is_disabled sub s = is_some_and (get sub s.subjects) (λ (t : Subject). t.disabled)

unfoldable pub is_blocked : Claims → Store → Bool
unfolding sub_of is_disabled contains_key
is_blocked claims s =
    is_some_and (sub_of claims) (λ sub. is_disabled sub s)
    || is_some_and (and_then (get "jti" claims) as_str) (λ j. contains_key j s.revoked_jti)

-- The refresh tokens that a revocation of `sub` drops.
unfoldable pub of_subject : String → Option String → Bool → Expiring RefreshEntry → Bool
unfolding sub_of
of_subject sub client_id online_only e =
    same_text (sub_of e.value.claims) (some sub)
    && is_none_or client_id (λ c. c == e.value.client_id)
    && not (online_only && e.value.offline)

unfoldable pub of_session : String → String → Expiring RefreshEntry → Bool
of_session sid client_id e =
    e.value.sid == sid && e.value.client_id == client_id && not e.value.offline

unfoldable pub of_sid : String → Expiring RefreshEntry → Bool
of_sid sid e = e.value.sid == sid

-- `self.refresh.retain(|_, e| !doomed(e))`, with the number of tokens that it dropped
unfoldable pub drop_refresh : (Expiring RefreshEntry → Bool) → Store → ℕ × Store
drop_refresh doomed s =
    let kept = retain (λ e. not (doomed e)) s.refresh in
    (length s.refresh - length kept, record s { refresh = kept })

unfoldable pub revoke_refresh_for : String → Option String → Bool → Store → ℕ × Store
unfolding drop_refresh of_subject
revoke_refresh_for sub client_id online_only = drop_refresh (of_subject sub client_id online_only)

unfoldable pub revoke_session : String → String → Store → ℕ × Store
unfolding drop_refresh of_session
revoke_session sid client_id = drop_refresh (of_session sid client_id)

unfoldable pub revoke_sid : String → Store → ℕ × Store
unfolding drop_refresh of_sid
revoke_sid sid = drop_refresh (of_sid sid)

-- One round of the fold of `count_refresh_for`.
unfoldable pub count_one : Instant → String → ℕ × ℕ → Expiring RefreshEntry → ℕ × ℕ
unfolding sub_of
count_one now sub acc e =
    if is_live now e && same_text (sub_of e.value.claims) (some sub)
    then (if e.value.offline then (acc.0, acc.1 + 1) else (acc.0 + 1, acc.1))
    else acc

unfoldable pub count_from : Instant → String → ℕ × ℕ → List (Expiring RefreshEntry) → ℕ × ℕ
unfolding count_one
count_from now sub acc [] = acc
count_from now sub acc (e ∷ es) = count_from now sub (count_one now sub acc e) es

-- Live refresh tokens of `sub` as (online, offline).
unfoldable pub count_refresh_for : Instant → String → Store → ℕ × ℕ
unfolding count_from
count_refresh_for now sub s = count_from now sub (0, 0) (values s.refresh)
