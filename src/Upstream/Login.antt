-- ===== src/Upstream/Login.antt =====
-- src/upstream/mod.rs: the way of a browser through the upstream login.
use nano_mockidp.Base.{
  ℕ, String, Bool, true, Option, none, some, List, [], ◌∷◌, ◌++◌, ◌==◌, ltb, if◌then◌else◌,
  and_then, keep_if, non_empty, unwrap_or, length,
}
use nano_mockidp.Base.Text.{◌⊕◌}
use nano_mockidp.Base.Bytes.{as_bytes}
use nano_mockidp.Base.Handler.{◌>>=◌}
use nano_mockidp.Base.Map.{get, insert}
use nano_mockidp.Base.Result.{Result, ok, err}
use nano_mockidp.Crates.{Crates}
use nano_mockidp.Http.{Response, html, found}
use nano_mockidp.Http
use nano_mockidp.Json.{Claims, as_str}
use nano_mockidp.Routes.Validate.{error_page}
use nano_mockidp.State.{AppState, Env, Gate}
use nano_mockidp.Store.Data.{unix_secs}
use nano_mockidp.Token.Issue.{add_u64}
use nano_mockidp.Upstream.Client.{Task, authorize_url, exchange}
use nano_mockidp.Upstream.Gate.{cookie_name, login_cookie_name, cookie_value, claim_allows}
use nano_mockidp.Upstream.Gate
use nano_mockidp.Upstream.IdToken.{verify_id_token}
use nano_mockidp.Upstream.Seal.{
  GateSession, PendingLogin, sealed_session, sealed_login, seal, opened,
}
use nano_mockidp.Upstream.Wire.{Wire, Caches, Network}

abbrev pub login_ttl : ℕ
login_ttl = 600

abbrev pub max_return_to : ℕ
max_return_to = 2048

abbrev pub max_gate_cookie : ℕ
max_gate_cookie = 3800

-- `page`
unfoldable pub page : ℕ → String → Response
unfolding error_page
page status msg = record { status = status; headers = []; body = html (error_page msg) }

module _ (wire : Wire) where
  -- `add_set_cookie`; `none` is the panic of `expect`.
  unfoldable pub add_set_cookie : String → Response → Option Response
  add_set_cookie cookie r =
      if wire.is_header_value cookie
      then some (record r { headers = r.headers ++ ("set-cookie", cookie) ∷ [] })
      else none

  -- `Gate::set_cookie`
  abbrev pub set_cookie : Gate → String → String → ℕ → String
  set_cookie gate name value max_age =
      Gate.set_cookie name value gate.cookie_path max_age gate.secure

module _ (lib : Crates) (wire : Wire) (gate : Gate) (env : Env) where
  abbrev pub pending_login : String → PendingLogin
  pending_login return_to = record {
    state = env.random 1;
    nonce = env.random 2;
    verifier = env.random 0;
    return_to = return_to;
    exp = add_u64 (unix_secs (env.now 0)) login_ttl;
  }

  -- The redirect to the upstream, with the pre-login cookie. `none` is a panic.
  unfoldable pub sent : String → Result String String → Option Response
  unfolding page add_set_cookie login_cookie_name Gate.set_cookie seal unix_secs
  sent return_to (err e) = some (page 502 ("cannot reach the upstream identity provider: " ⊕ e))
  sent return_to (ok url) = and_then (login_cookie_name (env.random 1)) (λ name.
      add_set_cookie wire
        (set_cookie wire gate name (seal lib sealed_login gate.key (pending_login return_to))
          login_ttl)
        (found url))

  -- `start_login`
  unfoldable pub start_login : Network → String → Caches → Option Response × Caches
  unfolding sent authorize_url page
  start_login net return_to c =
      if ltb max_return_to (length (as_bytes return_to))
      then (some (page 414 "authorization request too long"), c)
      else (let (url, c') =
            authorize_url lib wire gate.cfg (net 0) gate.redirect_uri (env.random 1) (env.random 2)
              (lib.encode (lib.sha256 (as_bytes (env.random 0)))) c in
          (sent return_to url, c'))

pub record CallbackQuery : Type 0 where
  pub code : Option String
  pub state : Option String
  pub error : Option String
  pub error_description : Option String

abbrev pub unknown_state : Response
unfolding page
unknown_state =
    page 400
      "unknown or expired login state: start again from the application (the login must finish in the same browser, on the ISSUER_URL host)"

-- The claims of the upstream that a login as the tester's own identity gets.
unfoldable pub forwarded : List String → Claims → Claims
forwarded [] claims = []
forwarded (name ∷ names) claims =
    let rest = forwarded names claims in
    elim (get name claims) [ some v ↦ insert name v rest | none ↦ rest ]

-- `UPSTREAM_REQUIRE_CLAIM`
abbrev pub is_allowed : Crates → Option (String × String) → Claims → Bool
is_allowed lib none claims = true
is_allowed lib (some (path, value)) claims = claim_allows lib claims path value

abbrev requirement : Option (String × String) → String
requirement none = ""
requirement (some (path, value)) = path ⊕ "=" ⊕ value

module _ (lib : Crates) (wire : Wire) (gate : Gate) (env : Env) where
  -- `redeem`
  unfoldable pub redeem : Network → String → PendingLogin → Task Claims
  unfolding exchange verify_id_token
  redeem net code login = do
    id_token ← exchange lib wire gate.cfg (net 0) (net 1) code gate.redirect_uri login.verifier
    verify_id_token lib gate.cfg wire (net 2) (net 3) id_token login.nonce (unix_secs (env.now 1))

  abbrev pub email_of : Claims → Option String
  email_of claims = and_then (get "email" claims) as_str

  abbrev pub new_session : String → Claims → GateSession
  new_session sub claims = record {
    sub = sub;
    email = email_of claims;
    claims = forwarded gate.cfg.forward_claims claims;
    exp = add_u64 (unix_secs (env.now 2)) gate.cfg.session_ttl;
  }

  -- The end of `finish`: the session goes into a cookie, unless it is too large for one.
  unfoldable pub enter : PendingLogin → String → Option Response
  unfolding page add_set_cookie Gate.set_cookie
  enter login cookie =
      if ltb max_gate_cookie (length (as_bytes cookie))
      then some (
          page 502
            "the claims in UPSTREAM_FORWARD_CLAIMS are too large for the gate cookie: forward fewer claims")
      else add_set_cookie wire (set_cookie wire gate cookie_name cookie gate.cfg.session_ttl)
          (found login.return_to)

  unfoldable pub admit : PendingLogin → Claims → String → Option Response
  unfolding enter claim_allows seal unix_secs forwarded page
  admit login claims sub =
      if is_allowed lib gate.cfg.require_claim claims
      then enter login (seal lib sealed_session gate.key (new_session sub claims))
      else some (
          page 403 (
            "upstream user "
            ⊕ unwrap_or (email_of claims) sub
            ⊕ " is not allowed here (needs "
            ⊕ requirement gate.cfg.require_claim
            ⊕ ")"))

  -- What `finish` answers to the claims of the ID token.
  unfoldable pub welcome : PendingLogin → Result String Claims → Option Response
  unfolding admit page
  welcome login (err e) = some (page 502 ("upstream login failed: " ⊕ e))
  welcome login (ok claims) = elim (and_then (get "sub" claims) as_str) [
    | none ↦ some (page 502 "upstream id_token has no sub")
    | some sub ↦ admit login claims sub
  ]

  abbrev finish_code : Network → PendingLogin → Option String → Caches → Option Response × Caches
  finish_code net login none c = (some (page 400 "missing code from the upstream"), c)
  finish_code net login (some code) c =
      let (claims, c') = redeem net code login c in (welcome login claims, c')

  -- `finish`
  unfoldable pub finish : Network → CallbackQuery → PendingLogin → Caches → Option Response × Caches
  unfolding redeem welcome page
  finish net q login c = elim q.error [
    | some e ↦ (
      some (page 403 ("upstream login failed: " ⊕ e ⊕ " " ⊕ unwrap_or q.error_description "")),
      c,
    )
    | none ↦ finish_code net login (non_empty q.code) c
  ]

  -- The pre-login cookie that a callback presents: its name and its value.
  unfoldable pub presented : CallbackQuery → List String → Option (String × String × String)
  unfolding login_cookie_name cookie_value
  presented q cookies = and_then q.state (λ state.
      and_then (login_cookie_name state)
        (λ name. and_then (cookie_value cookies name) (λ value. some (state, name, value))))

  -- The login that a pre-login cookie seals, if it is that of the state.
  unfoldable pub login_of : String → String → Option PendingLogin
  unfolding opened unix_secs
  login_of state value =
      keep_if (λ (l : PendingLogin). l.state == state)
        (opened lib sealed_login gate.key value (unix_secs (env.now 0)))

  abbrev finish_login :
      Network → CallbackQuery → Option PendingLogin → Caches → Option Response × Caches
  finish_login net q none c = (some unknown_state, c)
  finish_login net q (some login) c = finish net q login c

  -- `callback` behind the gate
  unfoldable pub callback_at :
      Network → CallbackQuery → List String → Caches → Option Response × Caches
  unfolding finish presented login_of add_set_cookie Gate.set_cookie
  callback_at net q cookies c = elim (presented q cookies) [
    | none ↦ (some unknown_state, c)
    | some (state, name, value) ↦
        let (r, c') = finish_login net q (login_of state value) c in
        (and_then r (add_set_cookie wire (set_cookie wire gate name "" 0)), c')
  ]

-- `callback`
unfoldable pub callback :
    Crates
    → Wire
    → AppState
    → Env
    → Network
    → CallbackQuery
    → List String
    → Caches
    → Option Response × Caches
unfolding callback_at
callback lib wire app env net q cookies c = elim app.gate [
  | none ↦ (some (record { status = 404; headers = []; body = Http.none }), c)
  | some gate ↦ callback_at lib wire gate env net q cookies c
]
