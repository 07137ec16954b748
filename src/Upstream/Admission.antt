-- ===== src/Upstream/Admission.antt =====
-- Who is let in: the end of `finish` (src/upstream/mod.rs).
use nano_mockidp.Base.{
  ℕ, ◌≤◌, String, true, Option, some, [], ◌∷◌, ◌++◌, ◌≡◌, ◌≢◌, refl, sym, ap, arith, ltb, length,
  and_then, Option-cases, Bool-cases, inl, inr,
}
use nano_mockidp.Base.Bytes.{as_bytes}
use nano_mockidp.Base.Map.{get}
use nano_mockidp.Base.Result.{Result, ok, err}
use nano_mockidp.Crates.{Crates}
use nano_mockidp.Http.{Response, found}
use nano_mockidp.Json.{Claims, as_str}
use nano_mockidp.State.{Env, Gate}
use nano_mockidp.Upstream.Gate.{cookie_name}
use nano_mockidp.Upstream.Login.{
  page, add_set_cookie, set_cookie, enter, admit, welcome, new_session, is_allowed, max_gate_cookie,
}
use nano_mockidp.Upstream.Seal.{PendingLogin, sealed_session, seal}
use nano_mockidp.Upstream.Wire.{Wire}

status-page : (n : ℕ) (m : String) → (page n m).status ≡ n
unfolding page
status-page n m = refl

some-injective : {A : Type 0} {a b : A} → ◌≡◌ {A = Option A} (some a) (some b) → a ≡ b
some-injective h = cc

-- A page is no redirect.
pub not_entered :
    (n : ℕ) (m : String) (r : Response)
    → n ≢ 302
    → ◌≡◌ {A = Option Response} (some (page n m)) (some r)
    → r.status ≢ 302
not_entered n m r other h is_302 =
    other (cc (status-page n m, ap (λ (x : Response). x.status) (some-injective h), is_302))

pub added :
    (wire : Wire) (cookie : String) (before r : Response)
    → add_set_cookie wire cookie before ≡ some r
    → record before { headers = before.headers ++ ("set-cookie", cookie) ∷ [] } ≡ r
unfolding add_set_cookie
added wire cookie before r h = elim (Bool-cases (wire.is_header_value cookie)) [
  | inl fine ↦ some-injective (rw (fine, add_set_cookie) at h)
  | inr bad ↦ absurd (ground (arith, bad))
]

module _ (lib : Crates) (wire : Wire) (gate : Gate) (env : Env) where
  abbrev pub session_cookie : String → Claims → String
  session_cookie sub claims =
      seal lib sealed_session gate.key (new_session lib wire gate env sub claims)

  -- The answer that lets a browser in: back to the request, with the gate cookie.
  abbrev pub entrance : PendingLogin → String → Response
  entrance login cookie = record (found login.return_to) {
    headers =
        ("location", login.return_to)
        ∷ ("set-cookie", set_cookie wire gate cookie_name cookie gate.cfg.session_ttl)
        ∷ [];
  }

  enter_sound :
      (login : PendingLogin) (cookie : String) (r : Response)
      → enter lib wire gate env login cookie ≡ some r
      → r.status ≡ 302
      → (length (as_bytes cookie) ≤ max_gate_cookie) × (r ≡ entrance login cookie)
  unfolding enter
  enter_sound login cookie r h is_302 =
      elim (Bool-cases (ltb max_gate_cookie (length (as_bytes cookie)))) [
        | inl large ↦ absurd (not_entered _ _ r (omega arith) (rw (large, enter) at h) is_302)
        | inr fits ↦
            (ground arith, sym (added wire _ (found login.return_to) r (rw (fits, enter) at h)))
      ]

  -- The upstream vouched for a subject that may come in, and the answer lets it in.
  pub record IsWelcome (login : PendingLogin) (redeemed : Result String Claims) (r : Response)
      : Type 0 where
    pub claims : Claims
    pub vouched : redeemed ≡ ok claims
    pub sub : String
    pub has_sub : and_then (get "sub" claims) as_str ≡ some sub
    pub allowed : is_allowed lib gate.cfg.require_claim claims ≡ true
    pub fits : length (as_bytes (session_cookie sub claims)) ≤ max_gate_cookie
    pub answer : r ≡ entrance login (session_cookie sub claims)

  admit_sound :
      (login : PendingLogin) (claims : Claims) (sub : String) (r : Response)
      → admit lib wire gate env login claims sub ≡ some r
      → r.status ≡ 302
      → (is_allowed lib gate.cfg.require_claim claims ≡ true)
        × (enter lib wire gate env login (session_cookie sub claims) ≡ some r)
  unfolding admit
  admit_sound login claims sub r h is_302 =
      elim (Bool-cases (is_allowed lib gate.cfg.require_claim claims)) [
        | inl allowed ↦ (allowed, rw (allowed, admit) at h)
        | inr denied ↦ absurd (not_entered _ _ r (omega arith) (rw (denied, admit) at h) is_302)
      ]

  pub welcome_sound :
      (login : PendingLogin) (redeemed : Result String Claims) (r : Response)
      → welcome lib wire gate env login redeemed ≡ some r
      → r.status ≡ 302
      → IsWelcome login redeemed r
  unfolding welcome
  welcome_sound login (err e) r h is_302 = absurd (not_entered _ _ r (omega arith) h is_302)
  welcome_sound login (ok claims) r h is_302 =
      elim (Option-cases (and_then (get "sub" claims) as_str)) [
        | inl nobody ↦ absurd (not_entered _ _ r (omega arith) (rw (nobody, welcome) at h) is_302)
        | inr (sub, has_sub) ↦
            let (allowed, entered) =
              admit_sound login claims sub r (rw (has_sub, welcome) at h) is_302 in
            let (fits, answer) = enter_sound login (session_cookie sub claims) r entered is_302 in
            record {
              claims = claims;
              vouched = refl;
              sub = sub;
              has_sub = has_sub;
              allowed = allowed;
              fits = fits;
              answer = answer;
            }
      ]
