-- ===== src/Upstream/Entry.antt =====
-- Who gets a gate cookie (`callback` of src/upstream/mod.rs).
use nano_mockidp.Base.{
  ◌<◌, String, Option, none, some, List, [], ◌∷◌, ◌++◌, ◌≡◌, refl, sym, ap, ◌∙◌, arith, eq_iff,
  non_empty, and_then, Option-cases, inl, inr,
}
use nano_mockidp.Crates.{Crates}
use nano_mockidp.Http.{Response}
use nano_mockidp.State.{Env, Gate}
use nano_mockidp.Store.Data.{unix_secs}
use nano_mockidp.Upstream.Login.{
  CallbackQuery, add_set_cookie, set_cookie, finish, callback_at, presented, login_of, redeem,
}
use nano_mockidp.Upstream.Opening.{IsSealed, opened_sound}
use nano_mockidp.Upstream.Seal.{PendingLogin, sealed_login, opened}
use nano_mockidp.Upstream.Wire.{Wire, Caches, Network}
use nano_mockidp.Upstream.Admission.{not_entered, added, IsWelcome, welcome_sound}

module _ (lib : Crates) (wire : Wire) (gate : Gate) (env : Env) (net : Network) (q : CallbackQuery)
    (c : Caches) where
  -- The browser finished the login that its own pre-login cookie seals, the upstream vouched for
  -- it, and the answer sets the gate cookie and clears the other one.
  pub record IsEntry (cookies : List String) (r : Response) : Type 0 where
    pub state : String
    pub name : String
    pub value : String
    pub presents : presented lib wire gate env q cookies ≡ some (state, name, value)
    pub login : PendingLogin
    pub sealed : IsSealed lib sealed_login gate.key value login
    pub in_time : unix_secs (env.now 0) < login.exp
    pub same_state : login.state ≡ state
    pub no_error : q.error ≡ none
    pub code : String
    pub has_code : non_empty q.code ≡ some code
    pub entered : Response
    pub welcome_in :
        IsWelcome lib wire gate env login (redeem lib wire gate env net code login c).0 entered
    pub answer : r ≡ record entered {
      headers = entered.headers ++ ("set-cookie", set_cookie wire gate name "" 0) ∷ [];
    }

  finish_sound :
      (login : PendingLogin) (r : Response)
      → (finish lib wire gate env net q login c).0 ≡ some r
      → r.status ≡ 302
      → (q.error ≡ none)
        × (code : String) × (non_empty q.code ≡ some code)
        × IsWelcome lib wire gate env login (redeem lib wire gate env net code login c).0 r
  unfolding finish
  finish_sound login r h is_302 = elim (Option-cases q.error) [
    | inr (e, failed) ↦ absurd (not_entered _ _ r (omega arith) (rw (failed, finish) at h) is_302)
    | inl fine ↦ elim (Option-cases (non_empty q.code)) [
      | inl missing ↦
          absurd (not_entered _ _ r (omega arith) (rw missing at (rw (fine, finish) at h)) is_302)
      | inr (code, has_code) ↦ (
        fine,
        code,
        has_code,
        welcome_sound lib wire gate env login _ r (rw has_code at (rw (fine, finish) at h)) is_302,
      )
    ]
  ]

  login_of_sound :
      (state value : String) (login : PendingLogin)
      → login_of lib wire gate env state value ≡ some login
      → IsSealed lib sealed_login gate.key value login
        × (unix_secs (env.now 0) < login.exp)
        × (login.state ≡ state)
  unfolding login_of
  login_of_sound state value login h =
      elim (Option-cases (opened lib sealed_login gate.key value (unix_secs (env.now 0)))) [
        | inl refused ↦ absurd (ground (arith, refused))
        | inr (l, is_open) ↦
            let same : l ≡ login = ground (arith, is_open) in
            let (sealed, live) =
              opened_sound lib sealed_login gate.key value _ login (rw (same) at is_open) in
            (sealed, live, ground (arith, is_open, eq_iff l.state state))
      ]

  cleared_sound :
      (name : String) (before : Option Response) (r : Response)
      → and_then before (add_set_cookie wire (set_cookie wire gate name "" 0)) ≡ some r
      → (b : Response) × (before ≡ some b)
        × (record b { headers = b.headers ++ ("set-cookie", set_cookie wire gate name "" 0) ∷ [] }
            ≡ r)
  cleared_sound name none r h = cc
  cleared_sound name (some b) r h = (b, refl, added wire _ b r h)

  -- A callback that redirects the browser has let it in: the browser presented the unexpired
  -- pre-login cookie of the returned state, the upstream reported no error and vouched for a subject that
  -- fulfils the required claim, and the answer sets the gate cookie, no larger than the limit, and
  -- clears the pre-login cookie.
  pub callback_at_sound :
      (cookies : List String) (r : Response)
      → (callback_at lib wire gate env net q cookies c).0 ≡ some r
      → r.status ≡ 302
      → IsEntry cookies r
  unfolding callback_at
  callback_at_sound cookies r h is_302 =
      elim (Option-cases (presented lib wire gate env q cookies)) [
        | inl nothing ↦
            absurd (not_entered _ _ r (omega arith) (rw (nothing, callback_at) at h) is_302)
        | inr ((state, name, value), presents) ↦
            elim (Option-cases (login_of lib wire gate env state value)) [
              | inl forged ↦
                  let (b, before, answer) =
                    cleared_sound name _ r (rw forged at (rw (presents, callback_at) at h)) in
                  absurd (
                    not_entered _ _ b (omega arith) before
                      (ap (λ (x : Response). x.status) answer ∙ is_302))
              | inr (login, sealed_here) ↦
                  let (b, before, answer) =
                    cleared_sound name _ r (rw sealed_here at (rw (presents, callback_at) at h)) in
                  let (sealed, in_time, same_state) =
                    login_of_sound state value login sealed_here in
                  let (no_error, code, has_code, welcome_in) =
                    finish_sound login b before (ap (λ (x : Response). x.status) answer ∙ is_302) in
                  record {
                    state = state;
                    name = name;
                    value = value;
                    presents = presents;
                    login = login;
                    sealed = sealed;
                    in_time = in_time;
                    same_state = same_state;
                    no_error = no_error;
                    code = code;
                    has_code = has_code;
                    entered = b;
                    welcome_in = welcome_in;
                    answer = sym answer;
                  }
            ]
      ]

  -- Whatever comes of a callback that presents a pre-login cookie, that cookie is cleared by the
  -- last header of the answer.
  callback_at_clears :
      (cookies : List String) (state name value : String) (r : Response)
      → presented lib wire gate env q cookies ≡ some (state, name, value)
      → (callback_at lib wire gate env net q cookies c).0 ≡ some r
      → (before : List (String × String)) × (r.headers
          ≡ before ++ ("set-cookie", set_cookie wire gate name "" 0) ∷ [])
  unfolding callback_at
  callback_at_clears cookies state name value r presents h =
      let (b, before, answer) = cleared_sound name _ r (rw (presents, callback_at) at h) in
      (b.headers, sym (ap (λ (x : Response). x.headers) answer))
