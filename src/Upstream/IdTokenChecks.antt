-- ===== src/Upstream/IdTokenChecks.antt =====
-- Which upstream ID tokens are accepted (`verify_id_token` of src/upstream/client.rs).
use nano_mockidp.Base.{
  ℕ, ◌<◌, String, true, false, not, Option, some, ◌≡◌, ◌↔◌, refl, arith, eq_iff, ◌==◌, leb,
  and_then, same_text, unwrap_or, Option-cases, inl, inr,
}
use nano_mockidp.Base.Text.{trim_end_slashes}
use nano_mockidp.Base.Map.{get}
use nano_mockidp.Base.Result.{ok, ok_or, bind-eq-ok, ok_or-eq-ok, Result-cases, ok-injective}
use nano_mockidp.Config.{UpstreamConfig}
use nano_mockidp.Crates.{Crates}
use nano_mockidp.Json.{Value, Claims, as_str, as_u64}
use nano_mockidp.Token.Jws.{value_get, check, check-eq-ok, jws_header, verify_signature}
use nano_mockidp.Upstream.Client.{key}
use nano_mockidp.Upstream.IdToken.{
  leeway, saturating_add, names_client, check_id_token, verify_id_token,
}
use nano_mockidp.Upstream.Jwks.{cached_key}
use nano_mockidp.Upstream.KeySet.{key_sound}
use nano_mockidp.Upstream.Wire.{Verifier, Wire, Caches, Moment}

-- The claims of an ID token that the upstream made for this client and this login.
pub record IsForUs (lib : Crates) (cfg : UpstreamConfig) (verifier : Verifier)
    (token nonce : String) (now : ℕ) (claims : Claims) : Type 0 where
  pub signed : verify_signature lib verifier token ≡ ok claims
  pub issuer : trim_end_slashes (unwrap_or (and_then (get "iss" claims) as_str) "") ≡ cfg.issuer
  pub audience : names_client cfg.client_id (get "aud" claims) ≡ true
  pub exp : ℕ
  pub has_exp : and_then (get "exp" claims) as_u64 ≡ some exp
  pub live : now < saturating_add exp leeway
  pub asked : and_then (get "nonce" claims) as_str ≡ some nonce

same_text-eq : (o : Option String) (t : String) → same_text o (some t) ≡ true → o ≡ some t
same_text-eq o t h = elim (Option-cases o) [
  | inl absent ↦ absurd (ground arith)
  | inr (s, present) ↦ ground (arith, eq_iff s t)
]

module _ (lib : Crates) (cfg : UpstreamConfig) (verifier : Verifier) (token nonce : String)
    (now : ℕ) (claims : Claims) where
  gathered :
      {c : Claims} {exp : ℕ}
      → verify_signature lib verifier token ≡ ok c
      → trim_end_slashes (unwrap_or (and_then (get "iss" c) as_str) "") ≡ cfg.issuer
      → names_client cfg.client_id (get "aud" c) ≡ true
      → and_then (get "exp" c) as_u64 ≡ some exp
      → not (leb (saturating_add exp leeway) now) ≡ true
      → and_then (get "nonce" c) as_str ≡ some nonce
      → c ≡ claims
      → IsForUs lib cfg verifier token nonce now claims
  gathered {c} {exp} signed issuer audience has_exp live asked same = rw (← same) (record {
    signed = signed;
    issuer = issuer;
    audience = audience;
    exp = exp;
    has_exp = has_exp;
    live = ground arith;
    asked = asked;
  })

  check_id_token_sound :
      check_id_token lib cfg verifier token nonce now ≡ ok claims
      → IsForUs lib cfg verifier token nonce now claims
  unfolding check_id_token
  check_id_token_sound h =
      let (c, signed, h₁) = bind-eq-ok (verify_signature lib verifier token) _ h in
      let (_, issuer, h₂) =
        bind-eq-ok
          (check (trim_end_slashes (unwrap_or (and_then (get "iss" c) as_str) "") == cfg.issuer) _)
          _ h₁ in
      let (_, audience, h₃) =
        bind-eq-ok (check (names_client cfg.client_id (get "aud" c)) _) _ h₂ in
      let (exp, has_exp, h₄) =
        bind-eq-ok (ok_or (and_then (get "exp" c) as_u64) "id_token has no exp") _ h₃ in
      let (_, live, h₅) =
        bind-eq-ok (check (not (leb (saturating_add exp leeway) now)) "id_token expired") _ h₄ in
      let (_, asked, same) =
        bind-eq-ok
          (check (same_text (and_then (get "nonce" c) as_str) (some nonce))
            "id_token nonce mismatch")
          _ h₅ in
      gathered signed ((eq_iff _ cfg.issuer).0 (check-eq-ok _ _ issuer)) (check-eq-ok _ _ audience)
        (ok_or-eq-ok _ _ has_exp) (check-eq-ok _ _ live)
        (same_text-eq _ nonce (check-eq-ok _ _ asked)) (ok-injective same)

  check_id_token_complete :
      IsForUs lib cfg verifier token nonce now claims
      → check_id_token lib cfg verifier token nonce now ≡ ok claims
  unfolding check_id_token
  check_id_token_complete u =
      let live = u.live in
      let fresh : leb (saturating_add u.exp leeway) now ≡ false = ground arith in
      rw u.signed (
        rw u.issuer (
          rw ((eq_iff cfg.issuer cfg.issuer).1 refl) (
            rw u.audience
              (rw u.has_exp (rw fresh (rw u.asked (rw ((eq_iff nonce nonce).1 refl))))))))

  -- The checks of an ID token pass exactly if the key vouches for it, its issuer is the configured
  -- one up to a trailing slash, its audience has the client, it has not expired for more than a
  -- minute, and its nonce is that of the login.
  pub check_id_token_iff :
      (check_id_token lib cfg verifier token nonce now ≡ ok claims)
      ↔ IsForUs lib cfg verifier token nonce now claims
  check_id_token_iff = (check_id_token_sound, check_id_token_complete)

module _ (lib : Crates) (cfg : UpstreamConfig) (wire : Wire) (at jwks_at : Moment)
    (token nonce : String) (now : ℕ) (c : Caches) where
  -- An ID token is accepted only under the key that the cache then has for the `kid` of its header,
  -- and only if it passes the checks.
  pub verify_id_token_sound :
      (claims : Claims)
      → (verify_id_token lib cfg wire at jwks_at token nonce now c).0 ≡ ok claims
      → (header : Value) × (verifier : Verifier) × (jws_header lib token ≡ ok header)
        × (cached_key
              (and_then (value_get "kid" header) as_str)
              (verify_id_token lib cfg wire at jwks_at token nonce now c).1
            ≡ some verifier)
        × IsForUs lib cfg verifier token nonce now claims
  unfolding verify_id_token
  verify_id_token_sound claims h = elim (Result-cases (jws_header lib token)) [
    | inr (e, bad) ↦ absurd (ground (arith, bad))
    | inl (header, read) ↦
        elim (Result-cases
          (key lib wire cfg at jwks_at (and_then (value_get "kid" header) as_str) c).0) [
            | inr (e, refused) ↦ absurd (ground (arith, read, refused))
            | inl (verifier, found) ↦ (
              header,
              verifier,
              read,
              ground (
                arith,
                read,
                found,
                key_sound lib wire cfg at jwks_at c (and_then (value_get "kid" header) as_str)
                    verifier found,
              ),
              check_id_token_sound lib cfg verifier token nonce now claims
                  (ground (arith, read, found)),
            )
          ]
  ]
