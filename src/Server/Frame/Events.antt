-- ===== src/Server/Frame/Events.antt =====
-- Every event keeps what the elementary updates keep.
use nano_mockidp.Base.{
  ℕ, String, not, Option, none, some, List, [], ◌∷◌, ◌≡◌, refl, arith, Option-cases, inl, inr,
  non_empty, and_then, false,
}
use nano_mockidp.Base.Bytes.{Bytes}
use nano_mockidp.Base.Map.{get, remove}
use nano_mockidp.Base.Result.{Result, Result-cases, to_option}
use nano_mockidp.Crates.{Crates}
use nano_mockidp.Http.{Headers, Response}
use nano_mockidp.Json.{Value, object, Claims, as_str, as_u64}
use nano_mockidp.Routes.Admin.{require_admin, put_subject, delete_subject, end_login}
use nano_mockidp.Routes.Client.{authenticate_client}
use nano_mockidp.Routes.EndSession.{EndSessionQuery, end_session_handler, end_hinted, hint_client}
use nano_mockidp.Routes.Register.{register_handler}
use nano_mockidp.Routes.Revoke.{RevokeForm, revoke_handler, revoke_either, remember_jti}
use nano_mockidp.Routes.TokenForm.{TokenForm}
use nano_mockidp.Server
use nano_mockidp.Server.{Event, serve, serve_all}
use nano_mockidp.Server.Frame.Grants.{token_handler-keeps}
use nano_mockidp.Server.Frame.Logins.{authorize_get-keeps, authorize_post-keeps}
use nano_mockidp.Server.Frame.Rule.{Admitted, Rule}
use nano_mockidp.Server.Tokens.{authenticate_same}
use nano_mockidp.State.{AppState, Env, issuer_check}
use nano_mockidp.Store.Data.{Expiring, RefreshEntry, Store}
use nano_mockidp.Store.Ops.{of_session, of_subject, of_sid}
use nano_mockidp.Token.Verify.{verify_allow_expired}

-- What an event may put into the tables is admitted there.
module _ (allowed : Admitted) (lib : Crates) (app : AppState) where
  -- A token that `/revoke` is asked about has a `jti` and an expiry that are admitted.
  abbrev MayRevoke : Option Claims → Type 0
  MayRevoke none = Unit
  MayRevoke (some claims) =
      (jti : String) (exp : ℕ)
      → and_then (get "jti" claims) as_str ≡ some jti
      → and_then (get "exp" claims) as_u64 ≡ some exp
      → allowed.revoked jti exp

  abbrev pub IsAdmitted : Event → Type 0
  IsAdmitted (Server.logged_in env q raw cookies form) = allowed.code (env.random 0)
  IsAdmitted (Server.token_asked env base headers body) =
      allowed.token (env.random 2) × allowed.token (env.random 3)
  IsAdmitted (Server.registered env body) = allowed.client (env.random 0)
  IsAdmitted (Server.swept now) = allowed.tick now
  IsAdmitted (Server.revoked headers form) =
      (token : String)
      → non_empty form.token ≡ some token
      → MayRevoke (to_option (verify_allow_expired lib app.key (issuer_check app) token))
  IsAdmitted e = Unit

  abbrev pub AllAdmitted : List Event → Type 0
  AllAdmitted [] = Unit
  AllAdmitted (e ∷ es) = IsAdmitted e × AllAdmitted es

module _ {P : Store → Type 0} {allowed : Admitted} (rule : Rule P allowed) where
  remember_jti-keeps :
      (jti : Option String) (exp : Option ℕ) (s : Store)
      → ((j : String) (e : ℕ) → jti ≡ some j → exp ≡ some e → allowed.revoked j e)
      → P s
      → P (remember_jti jti exp s)
  unfolding remember_jti
  remember_jti-keeps (some jti) (some exp) s a p =
      rule.revoked_inserted jti exp s (a jti exp refl refl) p
  remember_jti-keeps none exp s a p = p
  remember_jti-keeps (some jti) none s a p = p

  module _ (lib : Crates) (app : AppState) where
    revoke_either-keeps :
        (client_id token : String) (found : Option (Expiring RefreshEntry)) (claims : Option Claims)
        (s : Store)
        → MayRevoke allowed lib app claims
        → P s
        → P (revoke_either client_id token found claims s).1
    unfolding revoke_either
    revoke_either-keeps client_id token (some e) claims s a p =
        ground (arith, p, rule.token_removed token s p)
    revoke_either-keeps client_id token none (some claims) s a p = ground (
      arith,
      p,
      remember_jti-keeps (and_then (get "jti" claims) as_str) (and_then (get "exp" claims) as_u64) s
          a p,
    )
    revoke_either-keeps client_id token none none s a p = p

  register_handler-keeps :
      (env : Env) (body : Option Value) (s : Store)
      → allowed.client (env.random 0)
      → P s
      → P (register_handler env body s).1
  unfolding register_handler
  register_handler-keeps env none s c p = rule.client_inserted (env.random 0) _ s c p
  register_handler-keeps env (some (object fs)) s c p = rule.client_inserted (env.random 0) _ s c p
  register_handler-keeps env (some v) s c p = p

  end_hinted-keeps : (sid client : Option String) (s : Store) → P s → P (end_hinted sid client s)
  unfolding end_hinted
  end_hinted-keeps (some sid) (some client) s p =
      rule.tokens_dropped (λ e. not (of_session sid client e)) s p
  end_hinted-keeps none client s p = p
  end_hinted-keeps (some sid) none s p = p

  module _ (app : AppState) where
    require_admin-keeps :
        (headers : Headers) (next : Store → Response × Store) (s : Store)
        → P s
        → P (next s).1
        → P (require_admin app headers next s).1
    unfolding require_admin
    require_admin-keeps headers next s p n = ground (arith, p, n)

    delete_subject-keeps : (sub : String) (s : Store) → P s → P (delete_subject sub s).1
    unfolding delete_subject
    delete_subject-keeps sub s p =
        rule.tokens_dropped (λ e. not (of_subject sub none false e)) _
          (rule.subjects_set (remove sub s.subjects) s p)

    module _ (lib : Crates) where
      revoke_handler-keeps :
          (headers : Headers) (form : RevokeForm) (s : Store)
          → IsAdmitted allowed lib app (Server.revoked headers form)
          → P s
          → P (revoke_handler lib app headers form s).1
      unfolding revoke_handler
      revoke_handler-keeps headers form s a p =
          let same = authenticate_same lib app headers form.client_id form.client_secret s in
          elim (Result-cases
            (authenticate_client lib app headers form.client_id form.client_secret s).0) [
              | inr (e, bad) ↦ rw (bad, same) p
              | inl (client_id, known) ↦ elim (Option-cases (non_empty form.token)) [
                | inl missing ↦ rw (known, missing, same) p
                | inr (token, given) ↦
                    let here =
                      revoke_either-keeps lib app client_id token (get token s.refresh)
                        (to_option (verify_allow_expired lib app.key (issuer_check app) token)) s
                        (a token given) p in
                    rw (known, given, same) (ground (arith, here))
              ]
            ]

      end_session_handler-keeps :
          (q : EndSessionQuery) (s : Store) → P s → P (end_session_handler lib app q s).1
      unfolding end_session_handler
      end_session_handler-keeps q s p = elim (Option-cases (non_empty q.id_token_hint)) [
        | inl none_given ↦ ground (arith, p, none_given)
        | inr (hint, given) ↦
            elim (Result-cases (verify_allow_expired lib app.key (issuer_check app) hint)) [
              | inr (e, bad) ↦ ground (arith, p, given, bad)
              | inl (claims, good) ↦ ground (
                arith,
                given,
                good,
                end_hinted-keeps (and_then (get "sid" claims) as_str) (hint_client claims) s p,
              )
            ]
      ]

      module _ (form_of : Bytes → Result String TokenForm) where
        serve-keeps :
            (e : Event) (s : Store)
            → IsAdmitted allowed lib app e
            → P s
            → P (serve lib form_of app e s)
        unfolding serve
        serve-keeps (Server.swept now) s a p = rule.swept now s a p
        serve-keeps (Server.token_asked env base headers body) s (second, third) p =
            token_handler-keeps rule app lib form_of env second third base headers body s p
        serve-keeps (Server.page_asked env q raw cookies login_html) s a p =
            authorize_get-keeps rule lib app env q raw cookies login_html s p
        serve-keeps (Server.logged_in env q raw cookies form) s a p =
            authorize_post-keeps rule lib app env a q raw cookies form s p
        serve-keeps (Server.revoked headers form) s a p = revoke_handler-keeps headers form s a p
        serve-keeps (Server.registered env body) s a p = register_handler-keeps env body s a p
        serve-keeps (Server.logged_out q) s a p = end_session_handler-keeps q s p
        serve-keeps (Server.subject_put now headers sub body) s a p =
            require_admin-keeps headers (put_subject now sub body) s p (rule.subjects_set _ s p)
        serve-keeps (Server.subject_deleted headers sub) s a p =
            require_admin-keeps headers (delete_subject sub) s p (delete_subject-keeps sub s p)
        serve-keeps (Server.session_ended headers sid) s a p =
            require_admin-keeps headers (end_login sid) s p
              (rule.tokens_dropped (λ e. not (of_sid sid e)) s p)

        -- Any sequence of events keeps the predicate.
        pub serve_all-keeps :
            (es : List Event) (s : Store)
            → AllAdmitted allowed lib app es
            → P s
            → P (serve_all lib form_of app es s)
        unfolding serve_all
        serve_all-keeps [] s a p = p
        serve_all-keeps (e ∷ es) s (a, as') p =
            serve_all-keeps es (serve lib form_of app e s) as' (serve-keeps e s a p)
