-- ===== src/Token/Acceptance.antt =====
-- Which tokens `verify` accepts, and that it accepts the tokens that `issue` makes until they
-- expire.
use nano_mockidp.Base.{
  ℕ, ◌<◌, String, Bool, true, false, some, ◌≡◌, not, ◌&&◌, eq_iff, refl, arith, leb, if◌then◌else◌,
  unwrap_or, and_then, inl, inr, ◌↔◌, Bool-cases,
}
use nano_mockidp.Base.Text.{trim_end_slashes}
use nano_mockidp.Base.Result.{Result, ok, err, ok_or, bind-eq-ok, ok-injective, ok_or-eq-ok}
use nano_mockidp.Base.Map.{get}
use nano_mockidp.Crates.{Crates, Url, SigningKey, IsFaithful, ReadsBack}
use nano_mockidp.Json.{Claims, as_str, as_u64}
use nano_mockidp.Token.Jws.{verify_signature, jose_header, check, map_err, check-eq-ok}
use nano_mockidp.Token.Issue.{Issuer, IssueParams, issue, access_claims, add_u64}
use nano_mockidp.Token.Verify.{
  IssuerCheck, exact, path_only, check_issuer, verify_inner, verify, verify_allow_expired,
}
use nano_mockidp.Token.Signature.{verify_signature-sign}
use nano_mockidp.Token.Claims.{access_claims-reserved}

-- The issuer that a check admits.
abbrev pub Admits : Crates → IssuerCheck → String → Type 0
Admits lib (exact expected) iss = iss ≡ expected
Admits lib (path_only path) iss =
    (url : Url) × (lib.parse_url iss ≡ ok url) × (trim_end_slashes url.path ≡ path)

-- What an accepted token carries.
pub record IsAccepted (lib : Crates) (key : SigningKey) (issuer : IssuerCheck) (token : String)
    (claims : Claims) : Type 0 where
  pub signed : verify_signature lib key.verifier token ≡ ok claims
  pub exp : ℕ
  pub has_exp : and_then (get "exp" claims) as_u64 ≡ some exp
  pub iss : String
  pub has_iss : and_then (get "iss" claims) as_str ≡ some iss
  pub admitted : Admits lib issuer iss

map_err-eq-ok {ℓ} :
    {A : Type ℓ} (prefix : String) (r : Result String A) {a : A}
    → map_err prefix r ≡ ok a
    → r ≡ ok a
map_err-eq-ok prefix (ok b) h = h
map_err-eq-ok prefix (err e) h = cc

check_issuer-Admits :
    (lib : Crates) (issuer : IssuerCheck) (iss : String)
    → check_issuer lib issuer iss ≡ ok tt
    → Admits lib issuer iss
unfolding check_issuer
check_issuer-Admits lib (exact expected) iss h = (eq_iff _ _).0 (check-eq-ok _ _ h)
check_issuer-Admits lib (path_only path) iss h =
    let (url, parsed, same) = bind-eq-ok (map_err "iss is not a URL: " (lib.parse_url iss)) _ h in
    (url, map_err-eq-ok _ _ parsed, (eq_iff _ _).0 (check-eq-ok _ _ same))

Admits-check_issuer :
    (lib : Crates) (issuer : IssuerCheck) (iss : String)
    → Admits lib issuer iss
    → check_issuer lib issuer iss ≡ ok tt
unfolding check_issuer
Admits-check_issuer lib (exact expected) iss h = rw ((eq_iff iss expected).1 h)
Admits-check_issuer lib (path_only path) iss (url, parsed, same) =
    rw parsed (rw ((eq_iff _ path).1 same))

not_expired :
    (check_exp : Bool) (exp now : ℕ)
    → not (check_exp && leb exp now) ≡ true
    → check_exp ≡ true
    → now < exp
not_expired check_exp exp now h e = ground arith

module _ (lib : Crates) (key : SigningKey) (issuer : IssuerCheck) (token : String) where
  gather :
      {check_exp : Bool} {now exp : ℕ} {iss : String} {c claims : Claims}
      → verify_signature lib key.verifier token ≡ ok c
      → and_then (get "exp" c) as_u64 ≡ some exp
      → not (check_exp && leb exp now) ≡ true
      → and_then (get "iss" c) as_str ≡ some iss
      → Admits lib issuer iss
      → c ≡ claims
      → (a : IsAccepted lib key issuer token claims) × (check_exp ≡ true → now < a.exp)
  gather {check_exp} {now} {exp} {iss} {c} signed has_exp live has_iss admitted same = rw (← same) (
    record {
      signed = signed;
      exp = exp;
      has_exp = has_exp;
      iss = iss;
      has_iss = has_iss;
      admitted = admitted;
    },
    not_expired check_exp exp now live,
  )

  verify_inner_sound :
      (check_exp : Bool) (now : ℕ) (claims : Claims)
      → verify_inner lib key issuer token check_exp now ≡ ok claims
      → (a : IsAccepted lib key issuer token claims) × (check_exp ≡ true → now < a.exp)
  unfolding verify_inner
  verify_inner_sound check_exp now claims h =
      let (c, signed, h₁) = bind-eq-ok (verify_signature lib key.verifier token) _ h in
      let (exp, has_exp, h₂) =
        bind-eq-ok (ok_or (and_then (get "exp" c) as_u64) "missing exp claim") _ h₁ in
      let (_, live, h₃) =
        bind-eq-ok (check (not (check_exp && leb exp now)) "token expired") _ h₂ in
      let (iss, has_iss, h₄) =
        bind-eq-ok (ok_or (and_then (get "iss" c) as_str) "missing iss claim") _ h₃ in
      let (_, here, same) = bind-eq-ok (check_issuer lib issuer iss) _ h₄ in
      gather signed (ok_or-eq-ok _ _ has_exp) (check-eq-ok _ _ live) (ok_or-eq-ok _ _ has_iss)
        (check_issuer-Admits lib issuer iss here) (ok-injective same)

  verify_inner_complete :
      (check_exp : Bool) (now : ℕ) (claims : Claims) (a : IsAccepted lib key issuer token claims)
      → (check_exp && leb a.exp now) ≡ false
      → verify_inner lib key issuer token check_exp now ≡ ok claims
  unfolding verify_inner
  verify_inner_complete check_exp now claims a live =
      rw a.signed (
        rw a.has_exp
          (rw live (rw a.has_iss (rw (Admits-check_issuer lib issuer a.iss a.admitted)))))

  -- `verify` accepts a token exactly if this server signed it, its `iss` is admitted and its `exp`
  -- lies ahead.
  pub verify_iff :
      (now : ℕ) (claims : Claims)
      → (verify lib key issuer token now ≡ ok claims)
        ↔ ((a : IsAccepted lib key issuer token claims) × (now < a.exp))
  unfolding verify
  verify_iff now claims = (
    λ h. let (a, live) = verify_inner_sound true now claims h in (a, live refl),
    λ a. verify_inner_complete true now claims a.0 (ground arith),
  )

  -- A token that is accepted is accepted as an expired one too, with the same claims.
  pub verify_allow_expired_iff :
      (claims : Claims)
      → (verify_allow_expired lib key issuer token ≡ ok claims)
        ↔ IsAccepted lib key issuer token claims
  unfolding verify_allow_expired
  verify_allow_expired_iff claims = (
    λ h. (verify_inner_sound false 0 claims h).0,
    λ a. verify_inner_complete false 0 claims a refl,
  )

-- An access token that this server issues is accepted by its own issuer check until the second in
-- which it expires, and then refused as expired.
pub verify-issue :
    (lib : Crates) (i : Issuer) (p : IssueParams) (now later : ℕ) (jti id_jti : String)
    → IsFaithful lib i.key
    → ReadsBack lib (jose_header lib i.key "at+jwt")
    → (r : ReadsBack lib (access_claims i p now jti))
    → verify lib i.key (exact i.issuer) (issue lib i p now jti id_jti).access_token later ≡ (
        if leb (add_u64 now (unwrap_or p.expires_in i.access_ttl)) later
        then err "token expired"
        else ok r.copy)
unfolding issue verify verify_inner check_issuer
verify-issue lib i p now later jti id_jti faithful header r =
    let (iss, _, exp, _) = access_claims-reserved i p now jti in
    rw (verify_signature-sign lib i.key (access_claims i p now jti) "at+jwt" faithful header r) (
      simp (r.same, iss, exp)
        (elim (Bool-cases (leb (add_u64 now (unwrap_or p.expires_in i.access_ttl)) later)) [
          | inl expired ↦ rw expired
          | inr live ↦ rw live (rw ((eq_iff i.issuer i.issuer).1 refl))
        ]))
