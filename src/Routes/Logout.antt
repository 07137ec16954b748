-- ===== src/Routes/Logout.antt =====
-- What `/end_session` ends.
use nano_mockidp.Base.{
  String, true, not, Option, none, some, ◌≡◌, ◌↔◌, refl, arith, eq_iff, keep_if, and_then,
  non_empty,
}
use nano_mockidp.Base.Map.{get}
use nano_mockidp.Base.Result.{ok}
use nano_mockidp.Crates.{Crates}
use nano_mockidp.Json.{Claims, as_str}
use nano_mockidp.Routes.EndSession.{EndSessionQuery, end_session_handler, hint_client}
use nano_mockidp.State.{AppState, issuer_check}
use nano_mockidp.Store.Data.{Expiring, RefreshEntry, Store, IsWellFormed}
use nano_mockidp.Store.Ops.{of_session, revoke_session, drop_refresh}
use nano_mockidp.Store.Revocation.{drop_refresh-exact}
use nano_mockidp.Token.Verify.{verify_allow_expired}

-- A token is kept unless it is an online one of that login and that client.
kept_iff :
    (sid client : String) (found : Option (Expiring RefreshEntry)) (e : Expiring RefreshEntry)
    → (keep_if (λ x. not (of_session sid client x)) found ≡ some e) ↔ (
        (found ≡ some e)
        × (e.value.sid ≡ sid → e.value.client_id ≡ client → e.value.offline ≡ true))
unfolding of_session
kept_iff sid client none e = (λ h. absurd cc, λ (h, _). absurd cc)
kept_iff sid client (some x) e = (
  λ h. (
    ground (arith, h),
    λ a b. ground (arith, h, a, b, eq_iff x.value.sid sid, eq_iff x.value.client_id client),
  ),
  λ (h, k). ground (arith, h, k, eq_iff x.value.sid sid, eq_iff x.value.client_id client),
)

-- A logout with a token of this server as its hint ends the refresh tokens of the login that the
-- token names: a refresh token is there after it exactly if it was there before and is an offline
-- one, or one of another `sid`, or of another client. The other tables stay as they were.
pub end_session_handler-exact :
    (lib : Crates) (app : AppState) (q : EndSessionQuery) (s : Store) (hint sid client : String)
    (claims : Claims)
    → IsWellFormed s
    → non_empty q.id_token_hint ≡ some hint
    → verify_allow_expired lib app.key (issuer_check app) hint ≡ ok claims
    → and_then (get "sid" claims) as_str ≡ some sid
    → hint_client claims ≡ some client
    → ((token : String) (e : Expiring RefreshEntry)
        → (get token (end_session_handler lib app q s).1.refresh ≡ some e) ↔ (
            (get token s.refresh ≡ some e)
            × (e.value.sid ≡ sid → e.value.client_id ≡ client → e.value.offline ≡ true)))
      × ((end_session_handler lib app q s).1
          ≡ record s { refresh = (end_session_handler lib app q s).1.refresh })
unfolding end_session_handler revoke_session drop_refresh
end_session_handler-exact lib app q s hint sid client claims w given verified has_sid has_client = (
  λ token e.
      rw (given, end_session_handler)
        (rw verified (
          rw (has_sid, has_client)
            (rw ((drop_refresh-exact (of_session sid client) s w).1 token)
              (kept_iff sid client (get token s.refresh) e)))),
  rw (given, end_session_handler) (rw verified (rw (has_sid, has_client) refl)),
)
