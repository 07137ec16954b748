-- ===== src/Server/Revoked.antt =====
-- What a client revokes stays revoked, whatever requests and sweeps follow.
use nano_mockidp.Base.{
  ℕ, ◌≤◌, ◌<◌, String, none, some, List, ◌≡◌, ◌≢◌, arith, eq_iff, and_then, non_empty,
  if◌then◌else◌,
}
use nano_mockidp.Base.Bytes.{Bytes}
use nano_mockidp.Base.Handler.{pure}
use nano_mockidp.Base.Map.{
  Distinct, get, Distinct-insert, Distinct-retain, get-insert, get-remove, get-retain,
  get-retain_none,
}
use nano_mockidp.Base.Result.{Result, ok}
use nano_mockidp.Crates.{Crates}
use nano_mockidp.Http.{Headers}
use nano_mockidp.Json.{Claims, as_str, as_u64}
use nano_mockidp.Routes.Client.{authenticate_client}
use nano_mockidp.Routes.Inactive.{
  revoke_handler-Remembers, introspect_token-Remembers, userinfo_answer-Remembers,
}
use nano_mockidp.Routes.Introspect.{IntrospectForm, introspect_handler, inactive}
use nano_mockidp.Routes.Revoke.{RevokeForm, revoke_handler}
use nano_mockidp.Routes.TokenForm.{TokenForm}
use nano_mockidp.Routes.Userinfo.{bearer, userinfo_handler}
use nano_mockidp.Server.{Event, serve_all}
use nano_mockidp.Server.Frame.Events.{AllAdmitted, serve_all-keeps}
use nano_mockidp.Server.Frame.Rule.{Admitted, Rule, anything}
use nano_mockidp.State.{AppState, Env, issuer_check}
use nano_mockidp.Store.Data.{Instant, unix_secs, Store, IsWellFormed}
use nano_mockidp.Store.Ops.{sweep, is_live}
use nano_mockidp.Token.Verify.{verify_allow_expired}

module _ (token jti : String) (exp : ℕ) (later : Instant) where
  -- No refresh token is drawn that is this token, no sweep is later than `later`, and no other token
  -- with this `jti` and another expiry is revoked.
  abbrev pub meanwhile : Admitted
  meanwhile = record anything {
    token = λ k. k ≢ token;
    tick = λ now. now ≤ later;
    revoked = λ j e. j ≡ jti → e ≡ exp;
  }

  pub record StaysRevoked (s : Store) : Type 0 where
    pub no_refresh : get token s.refresh ≡ none
    pub distinct : Distinct s.revoked_jti
    pub remembered : unix_secs later < exp → get jti s.revoked_jti ≡ some exp

  swept-StaysRevoked :
      (now : Instant) (s : Store) → now ≤ later → StaysRevoked s → StaysRevoked (sweep now s)
  unfolding sweep unix_secs
  swept-StaysRevoked now s before r = record {
    no_refresh = get-retain_none (is_live now) token s.refresh r.no_refresh;
    distinct = Distinct-retain _ s.revoked_jti r.distinct;
    remembered = λ live.
        rw (get-retain _ jti s.revoked_jti r.distinct) (rw (r.remembered live) (ground arith));
  }

  stays_revoked : Rule StaysRevoked meanwhile
  stays_revoked = record {
    swept = swept-StaysRevoked;
    code_removed = λ k s r. record {
      no_refresh = r.no_refresh;
      distinct = r.distinct;
      remembered = r.remembered;
    };
    token_removed = λ k s r. record {
      no_refresh = rw get-remove (ground (arith, r.no_refresh));
      distinct = r.distinct;
      remembered = r.remembered;
    };
    tokens_dropped = λ p s r. record {
      no_refresh = get-retain_none p token s.refresh r.no_refresh;
      distinct = r.distinct;
      remembered = r.remembered;
    };
    pending_set = λ m s r. record {
      no_refresh = r.no_refresh;
      distinct = r.distinct;
      remembered = r.remembered;
    };
    subjects_set = λ m s r. record {
      no_refresh = r.no_refresh;
      distinct = r.distinct;
      remembered = r.remembered;
    };
    revoked_inserted = λ j e s same r. record {
      no_refresh = r.no_refresh;
      distinct = Distinct-insert j e s.revoked_jti r.distinct;
      remembered = λ live. rw get-insert (ground (arith, eq_iff j jti, same, r.remembered live));
    };
    code_inserted = λ k e s any r. record {
      no_refresh = r.no_refresh;
      distinct = r.distinct;
      remembered = r.remembered;
    };
    token_inserted = λ k e s other r. record {
      no_refresh = rw get-insert (ground (arith, r.no_refresh, other, eq_iff k token));
      distinct = r.distinct;
      remembered = r.remembered;
    };
    client_inserted = λ k c s any r. record {
      no_refresh = r.no_refresh;
      distinct = r.distinct;
      remembered = r.remembered;
    };
  }

-- The store after a client has revoked a token and the events have come.
abbrev pub revoked_then :
    Crates
    → (Bytes → Result String TokenForm)
    → AppState
    → Headers
    → RevokeForm
    → Store
    → List Event
    → Store
revoked_then lib form_of app headers form s events =
    serve_all lib form_of app events (revoke_handler lib app headers form s).1

module _ (lib : Crates) (form_of : Bytes → Result String TokenForm) (app : AppState)
    (token jti : String) (exp : ℕ) (claims : Claims)
    (accepted : verify_allow_expired lib app.key (issuer_check app) token ≡ ok claims)
    (has_jti : and_then (get "jti" claims) as_str ≡ some jti)
    (has_exp : and_then (get "exp" claims) as_u64 ≡ some exp) (headers : Headers)
    (form : RevokeForm) (client_id : String) (s : Store) (well_formed : IsWellFormed s)
    (caller : authenticate_client lib app headers form.client_id form.client_secret s
      ≡ (ok client_id, s))
    (given : non_empty form.token ≡ some token) (absent : get token s.refresh ≡ none)
    (azp : and_then (get "azp" claims) as_str ≡ some client_id) (events : List Event) (env : Env)
    (fair : AllAdmitted (meanwhile token jti exp (env.now 0)) lib app events) where
  abbrev later : Store
  later = revoked_then lib form_of app headers form s events

  still_revoked : StaysRevoked token jti exp (env.now 0) later
  still_revoked =
      let r =
        revoke_handler-Remembers lib app token jti exp claims accepted has_jti has_exp headers form
          client_id s well_formed caller given absent azp in
      serve_all-keeps (stays_revoked token jti exp (env.now 0)) app lib form_of events _ fair
        (record {
          no_refresh = r.no_refresh;
          distinct = r.well_formed.revoked_jti;
          remembered = λ live. r.revoked;
        })

  -- After a client has revoked its access or ID token, and whatever requests and sweeps follow,
  -- `/introspect` answers every caller that it lets in that the token is inactive, and it changes
  -- nothing, as long as no sweep is dated later than the answer, no other token with the same `jti`
  -- and another expiry is revoked, and no refresh token drawn is the same text.
  pub introspect_handler-stays_revoked :
      (asker : Headers) (asked : IntrospectForm) (name : String)
      → non_empty asked.token ≡ some token
      → (if app.config.strict
            then authenticate_client lib app asker asked.client_id asked.client_secret
            else pure "")
          later
        ≡ (ok name, later)
      → introspect_handler lib app env asker asked later ≡ (ok inactive, later)
  unfolding introspect_handler
  introspect_handler-stays_revoked asker asked name asks passes = rw passes (
      rw asks (
        rw (
          introspect_token-Remembers lib app token jti exp claims accepted has_jti has_exp env later
            still_revoked.remembered still_revoked.no_refresh)))

  -- After a client has revoked its access or ID token, and whatever requests and sweeps follow,
  -- `/userinfo` refuses the token with status 401, as long as no sweep is dated later than the
  -- answer, no other token with the same `jti` and another expiry is revoked, and no refresh token
  -- drawn is the same text.
  pub userinfo_handler-stays_revoked :
      (asker : Headers)
      → bearer asker ≡ some token
      → (userinfo_handler lib app env asker later).status ≡ 401
  unfolding userinfo_handler
  userinfo_handler-stays_revoked asker held =
      rw (held, userinfo_handler)
        (userinfo_answer-Remembers lib app token jti exp claims accepted has_jti has_exp
          (unix_secs (env.now 0)) later still_revoked.remembered)
