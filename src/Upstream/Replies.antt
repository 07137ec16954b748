-- ===== src/Upstream/Replies.antt =====
-- The upstream login never panics (src/upstream/mod.rs).
use Prim.Native.Char.{code}
use nano_mockidp.Base.{
  String, true, Option, none, some, List, ◌≡◌, refl, arith, ltb, is_some, Option-cases, Bool-cases,
  inl, inr, and_then, length, non_empty,
}
use nano_mockidp.Base.Bytes.{Bytes, as_bytes}
use nano_mockidp.Base.Result.{Result, ok, err}
use nano_mockidp.Crates.{Crates}
use nano_mockidp.Http.{Response, found}
use nano_mockidp.Json.{Claims, as_str}
use nano_mockidp.Base.Map.{get}
use nano_mockidp.State.{Env, Gate}
use nano_mockidp.Upstream.Gate.{cookie_name, login_cookie_name, cookie_value}
use nano_mockidp.Upstream.Login.{
  CallbackQuery, unknown_state, add_set_cookie, set_cookie, sent, start_login, enter, admit,
  welcome, finish, callback_at, presented, login_of, is_allowed, max_gate_cookie, max_return_to,
  login_ttl, new_session,
}
use nano_mockidp.Upstream.Seal.{PendingLogin, sealed_session, sealed_login, seal}
use nano_mockidp.Upstream.Wire.{Wire, Caches, Network}
use nano_mockidp.Upstream.Headers.{
  all_visible, all_visible-login_cookie_name, all_visible-seal, set_cookie_answers,
  visible_gate_cookie, visible_nothing,
}

module _ (lib : Crates) (wire : Wire) (gate : Gate) (env : Env)
    (encodes : (bs : Bytes) → all_visible (lib.encode bs) ≡ true)
    (takes : (s : String) → all_visible s ≡ true → wire.is_header_value s ≡ true)
    (path : all_visible gate.cookie_path ≡ true) where
  sent_answers :
      (return_to name : String) (url : Result String String)
      → login_cookie_name (env.random 1) ≡ some name
      → is_some (sent lib wire gate env return_to url) ≡ true
  unfolding sent
  sent_answers return_to name (err e) h = refl
  sent_answers return_to name (ok url) h =
      rw (h, sent)
        (set_cookie_answers lib wire gate env encodes takes path name _ login_ttl (found url)
          (all_visible-login_cookie_name (env.random 1) name h)
          (all_visible-seal lib wire gate env encodes takes path sealed_login _))

  -- A request for the upstream login is always answered, if the random state is a text that
  -- `login_cookie_name` accepts, as a base64url text is.
  start_login_answers :
      (net : Network) (return_to name : String) (c : Caches)
      → login_cookie_name (env.random 1) ≡ some name
      → is_some (start_login lib wire gate env net return_to c).0 ≡ true
  unfolding start_login
  start_login_answers net return_to name c h =
      elim (Bool-cases (ltb max_return_to (length (as_bytes return_to)))) [
        | inl long ↦ rw (long, start_login) refl
        | inr short ↦ rw (short, start_login) (sent_answers return_to name _ h)
      ]

  admit_answers :
      (login : PendingLogin) (claims : Claims) (sub : String)
      → is_some (admit lib wire gate env login claims sub) ≡ true
  unfolding admit enter
  admit_answers login claims sub =
      elim (Bool-cases (is_allowed lib gate.cfg.require_claim claims)) [
        | inr denied ↦ rw (denied, admit) refl
        | inl allowed ↦
            rw (allowed, admit)
              (elim (Bool-cases (
                ltb max_gate_cookie (
                  length (
                    as_bytes (
                      seal lib sealed_session gate.key
                        (new_session lib wire gate env sub claims)))))) [
                          | inl large ↦ rw (large, enter) refl
                          | inr fits ↦
                              rw (fits, enter)
                                (set_cookie_answers lib wire gate env encodes takes path cookie_name
                                  _ gate.cfg.session_ttl (found login.return_to) visible_gate_cookie
                                  (all_visible-seal lib wire gate env encodes takes path
                                    sealed_session _))
                        ])
      ]

  welcome_answers :
      (login : PendingLogin) (redeemed : Result String Claims)
      → is_some (welcome lib wire gate env login redeemed) ≡ true
  unfolding welcome
  welcome_answers login (err e) = refl
  welcome_answers login (ok claims) = elim (Option-cases (and_then (get "sub" claims) as_str)) [
    | inl nobody ↦ rw (nobody, welcome) refl
    | inr (sub, named) ↦ rw (named, welcome) (admit_answers login claims sub)
  ]

  finish_answers :
      (net : Network) (q : CallbackQuery) (login : PendingLogin) (c : Caches)
      → is_some (finish lib wire gate env net q login c).0 ≡ true
  unfolding finish
  finish_answers net q login c = elim (Option-cases q.error) [
    | inr (e, failed) ↦ rw (failed, finish) refl
    | inl fine ↦
        rw (fine, finish)
          (elim (Option-cases (non_empty q.code)) [
            | inl missing ↦ rw missing refl
            | inr (code, given) ↦ rw given (welcome_answers login _)
          ])
  ]

  cleared_answers :
      (name : String) (r : Option Response)
      → all_visible name ≡ true
      → is_some r ≡ true
      → is_some (and_then r (add_set_cookie wire (set_cookie wire gate name "" 0))) ≡ true
  cleared_answers name none visible h = cc
  cleared_answers name (some r) visible h =
      set_cookie_answers lib wire gate env encodes takes path name "" 0 r visible visible_nothing

  presented_name :
      (q : CallbackQuery) (cookies : List String) (state name value : String)
      → presented lib wire gate env q cookies ≡ some (state, name, value)
      → login_cookie_name state ≡ some name
  unfolding presented
  presented_name q cookies state name value h = elim (Option-cases q.state) [
    | inl absent ↦ absurd (ground (arith, absent))
    | inr (s, given) ↦ elim (Option-cases (login_cookie_name s)) [
      | inl odd ↦ absurd (ground (arith, given, odd))
      | inr (n, named) ↦ elim (Option-cases (cookie_value cookies n)) [
        | inl missing ↦ absurd (ground (arith, given, named, missing))
        | inr (v, found_it) ↦ ground (arith, given, named, found_it)
      ]
    ]
  ]

  -- A callback is always answered, whatever the browser and the upstream send, if base64url and the
  -- cookies' path are visible ASCII and any visible ASCII is a header value.
  pub callback_at_answers :
      (net : Network) (q : CallbackQuery) (cookies : List String) (c : Caches)
      → is_some (callback_at lib wire gate env net q cookies c).0 ≡ true
  unfolding callback_at
  callback_at_answers net q cookies c =
      elim (Option-cases (presented lib wire gate env q cookies)) [
        | inl nothing ↦ rw (nothing, callback_at) refl
        | inr ((state, name, value), presents) ↦
            let visible =
              all_visible-login_cookie_name state name
                (presented_name q cookies state name value presents) in
            rw (presents, callback_at)
              (elim (Option-cases (login_of lib wire gate env state value)) [
                | inl forged ↦ rw forged (cleared_answers name (some unknown_state) visible refl)
                | inr (login, sealed) ↦
                    rw sealed (cleared_answers name _ visible (finish_answers net q login c))
              ])
      ]
