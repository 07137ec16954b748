-- ===== src/Server/Vouched.antt =====
-- The invariant of the running server, whatever the order of the requests and the sweeps.
use nano_mockidp.Base.{
  String, false, none, List, [], ◌∷◌, ◌≡◌, ◌⊎◌, refl, some, arith, is_none, Option-cases, inl, inr,
  non_empty, and_then,
}
use nano_mockidp.Base.Bytes.{Bytes}
use nano_mockidp.Base.Result.{Result, Result-cases, to_option}
use nano_mockidp.Crates.{Crates}
use nano_mockidp.Base.Map.{get}
use nano_mockidp.Http.{Headers, Response}
use nano_mockidp.Json.{as_str}
use nano_mockidp.Routes.Admin.{require_admin, put_subject, delete_subject, end_login}
use nano_mockidp.Routes.Client.{authenticate_client}
use nano_mockidp.Routes.EndSession.{EndSessionQuery, end_session_handler, hint_client}
use nano_mockidp.Routes.Revoke.{RevokeForm, revoke_handler}
use nano_mockidp.Routes.TokenForm.{TokenForm}
use nano_mockidp.Server.{Event, serve, serve_all}
use nano_mockidp.Server
use nano_mockidp.Server.Kept.{IsKept, sweep-IsKept, drop_refresh-IsKept}
use nano_mockidp.Server.Logins.{authorize_get-IsKept, authorize_post-IsKept}
use nano_mockidp.Server.Tables.{
  revoke_either-IsKept, register_handler-IsKept, end_hinted-IsKept, subject_insert-IsKept,
  subject_remove-IsKept,
}
use nano_mockidp.Server.Tokens.{token_handler-IsKept, authenticate_same}
use nano_mockidp.State.{AppState, Gate, issuer_check}
use nano_mockidp.Store.Data.{Store, unix_secs}
use nano_mockidp.Store.Ops.{of_subject, of_sid}
use nano_mockidp.Routes.Authorize.{gate_session}
use nano_mockidp.Upstream.Seal.{GateSession}
use nano_mockidp.Token.Verify.{verify_allow_expired}

module _ (lib : Crates) (app : AppState) where
  -- The event is a login with an unexpired gate cookie that the key of the gate vouches for, and that
  -- names this subject of the upstream.
  abbrev pub SignsIn : Event → String → Type 0
  SignsIn (Server.logged_in env q raw cookies form) sub =
      (gate : Gate) × (t : GateSession) × (app.gate ≡ some gate)
      × (gate_session lib gate cookies (unix_secs (env.now 2)) ≡ some t)
      × (t.sub ≡ sub)
  SignsIn e sub = ⊥

  -- One of the events is such a login.
  abbrev pub OneSignsIn : List Event → String → Type 0
  OneSignsIn [] sub = ⊥
  OneSignsIn (e ∷ es) sub = SignsIn e sub ⊎ OneSignsIn es sub

module _ (Named : String → Type 0) (lib : Crates) (form_of : Bytes → Result String TokenForm)
    (app : AppState) where
  abbrev Kept : Store → Type 0
  Kept = IsKept Named app.config

  revoke_handler-IsKept :
      (headers : Headers) (form : RevokeForm) (s : Store)
      → Kept s
      → Kept (revoke_handler lib app headers form s).1
  unfolding revoke_handler
  revoke_handler-IsKept headers form s k =
      elim (Result-cases
        (authenticate_client lib app headers form.client_id form.client_secret s).0) [
          | inr (e, bad) ↦
              ground (
                arith,
                k,
                bad,
                authenticate_same lib app headers form.client_id form.client_secret s,
              )
          | inl (client_id, known) ↦ elim (Option-cases (non_empty form.token)) [
            | inl missing ↦
                rw
                  (
                    known,
                    missing,
                    authenticate_same lib app headers form.client_id form.client_secret s,
                  )
                  k
            | inr (token, given) ↦
                let here =
                  revoke_either-IsKept Named app.config client_id token (get token s.refresh)
                    (to_option (verify_allow_expired lib app.key (issuer_check app) token)) s k in
                rw
                  (
                    known,
                    given,
                    authenticate_same lib app headers form.client_id form.client_secret s,
                  )
                  (ground (arith, here))
          ]
        ]

  end_session_handler-IsKept :
      (q : EndSessionQuery) (s : Store) → Kept s → Kept (end_session_handler lib app q s).1
  unfolding end_session_handler
  end_session_handler-IsKept q s k = elim (Option-cases (non_empty q.id_token_hint)) [
    | inl none_given ↦ ground (arith, k, none_given)
    | inr (hint, given) ↦
        elim (Result-cases (verify_allow_expired lib app.key (issuer_check app) hint)) [
          | inr (e, bad) ↦ ground (arith, k, given, bad)
          | inl (claims, good) ↦ ground (
            arith,
            given,
            good,
            end_hinted-IsKept Named app.config (and_then (get "sid" claims) as_str)
                (hint_client claims) s k,
          )
        ]
  ]

  require_admin-IsKept :
      (headers : Headers) (next : Store → Response × Store) (s : Store)
      → Kept s
      → Kept (next s).1
      → Kept (require_admin app headers next s).1
  unfolding require_admin
  require_admin-IsKept headers next s k n = ground (arith, k, n)

  delete_subject-IsKept : (sub : String) (s : Store) → Kept s → Kept (delete_subject sub s).1
  unfolding delete_subject
  delete_subject-IsKept sub s k =
      drop_refresh-IsKept Named app.config (of_subject sub none false) _
        (subject_remove-IsKept Named app.config sub s k)

  module _ (matches : is_none app.gate ≡ is_none app.config.upstream) where
    serve-IsKept :
        (e : Event) (s : Store)
        → ((sub : String) → SignsIn lib app e sub → Named sub)
        → Kept s
        → Kept (serve lib form_of app e s)
    unfolding serve
    serve-IsKept (Server.swept now) s named k = sweep-IsKept Named app.config now s k
    serve-IsKept (Server.token_asked env base headers body) s named k =
        token_handler-IsKept Named app lib form_of env base headers body s k
    serve-IsKept (Server.page_asked env q raw cookies login_html) s named k =
        authorize_get-IsKept Named lib app env q raw cookies login_html s k
    serve-IsKept (Server.logged_in env q raw cookies form) s named k =
        authorize_post-IsKept Named lib app env matches q raw cookies form s
          (λ gate t gated present. named t.sub (gate, t, gated, present, refl)) k
    serve-IsKept (Server.revoked headers form) s named k = revoke_handler-IsKept headers form s k
    serve-IsKept (Server.registered env body) s named k =
        register_handler-IsKept Named app.config env body s k
    serve-IsKept (Server.logged_out q) s named k = end_session_handler-IsKept q s k
    serve-IsKept (Server.subject_put now headers sub body) s named k =
        require_admin-IsKept headers (put_subject now sub body) s k
          (subject_insert-IsKept Named app.config sub _ s k)
    serve-IsKept (Server.subject_deleted headers sub) s named k =
        require_admin-IsKept headers (delete_subject sub) s k (delete_subject-IsKept sub s k)
    serve-IsKept (Server.session_ended headers sid) s named k =
        require_admin-IsKept headers (end_login sid) s k
          (drop_refresh-IsKept Named app.config (of_sid sid) s k)

    -- Any sequence of events keeps the invariant.
    pub serve_all-IsKept :
        (es : List Event) (s : Store)
        → ((sub : String) → OneSignsIn lib app es sub → Named sub)
        → Kept s
        → Kept (serve_all lib form_of app es s)
    unfolding serve_all
    serve_all-IsKept [] s named k = k
    serve_all-IsKept (e ∷ es) s named k =
        serve_all-IsKept es (serve lib form_of app e s) (λ sub later. named sub (inr later))
          (serve-IsKept e s (λ sub now. named sub (inl now)) k)
