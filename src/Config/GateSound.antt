-- ===== src/Config/GateSound.antt =====
-- What the settings of the upstream gate guarantee once they are read.
use Prim.Native.Char.{Char}
use text.Mathlib.TextLemmas.{cons-append}
use mathlib.Core.Path.{subst}
use nano_mockidp.Base.{
  ℕ, ◌<◌, ◌^◌, String, Bool, true, false, not, ◌&&◌, ◌||◌, Option, none, some, List, [], ◌∷◌, ◌≡◌,
  refl, arith, ◌==◌, Option-cases, Bool-cases, inl, inr, keep_if, any, contains, unwrap_or,
}
use nano_mockidp.Base.Text.{
  ◌⊕◌, ◌=ᶜ◌, trim, trim_end_by, trim_end_slashes, split_by, split_whitespace, is_whitespace,
  parse_below, parse_u64, below, some_digits, strip_prefix,
}
use nano_mockidp.Base.Result.{ok, ok_or, bind-eq-ok, ok_or-eq-ok, ok-injective}
use nano_mockidp.Base.Holds.{OnSome, absent, present, OnSome_at}
use nano_mockidp.Base.Map.{get}
use nano_mockidp.Config.{UpstreamConfig}
use nano_mockidp.Config.Parse.{
  Readers, Settings, setting, or_default, parse_url, parse_seconds, comma_list,
}
use nano_mockidp.Config.UpstreamSettings.{
  reserved_claims, has_openid, with_openid, first_reserved, trimmed, parse_requirement,
  parse_sub_claim, parse_forwarded, parse_gate,
}
use nano_mockidp.Crates.{Crates, Url}
use nano_mockidp.Token.Jws.{map_err, check, check-eq-ok}

trim_end_by_idempotent :
    (p : Char → Bool) (s : String) → trim_end_by p (trim_end_by p s) ≡ trim_end_by p s
unfolding trim_end_by
trim_end_by_idempotent p String.[] = refl
trim_end_by_idempotent p (String.◌∷◌ c s) =
    let ih = trim_end_by_idempotent p s in
    elim (Bool-cases (p c && trim_end_by p s == "")) [
      | inl gone ↦ rw gone refl
      | inr kept ↦ rw kept (rw ih (rw kept refl))
    ]

-- Trailing slashes are removed at once.
pub trim_end_slashes_idempotent :
    (s : String) → trim_end_slashes (trim_end_slashes s) ≡ trim_end_slashes s
unfolding trim_end_slashes
trim_end_slashes_idempotent s = trim_end_by_idempotent (λ c. c =ᶜ b'/') s

below_lt : (bound n : ℕ) (o : Option ℕ) → below bound o ≡ some n → n < bound
below_lt bound n none h = cc
below_lt bound n (some k) h = ground arith

-- A parsed integer is below the bound.
pub parse_below-lt : (bound n : ℕ) (s : String) → parse_below bound s ≡ some n → n < bound
unfolding parse_below
parse_below-lt bound n s h = elim (Option-cases (strip_prefix "+" s)) [
  | inl plain ↦ below_lt bound n (some_digits s) (rw (parse_below, plain) at h)
  | inr (rest, plus) ↦ below_lt bound n (some_digits rest) (rw (parse_below, plus) at h)
]

reserved_free :
    (cs : List String) → first_reserved cs ≡ none → any (contains reserved_claims) cs ≡ false
reserved_free [] h = refl
reserved_free (c ∷ cs) h = elim (Bool-cases (contains reserved_claims c)) [
  | inl bad ↦ absurd (ground (arith, bad))
  | inr good ↦ rw good (reserved_free cs (rw good at h))
]

openid_first : (scope : String) → has_openid ("openid " ⊕ scope) ≡ true
unfolding split_whitespace split_by is_whitespace
openid_first scope = rw (cons-append "o" "penid " scope) (
    rw (cons-append "p" "enid " scope) (
      rw (cons-append "e" "nid " scope) (
        rw (cons-append "n" "id " scope) (
          rw (cons-append "i" "d " scope)
            (rw (cons-append "d" " " scope) (rw (cons-append " " "" scope) refl))))))

with_openid_has : (scope : String) → has_openid (with_openid scope) ≡ true
unfolding with_openid
with_openid_has scope = elim (Bool-cases (has_openid scope)) [
  | inl there ↦ rw (there, there)
  | inr missing ↦ rw missing (openid_first scope)
]

-- An absolute URL with a host, and nothing behind its path.
pub record IsAbsolute (url : Url) : Type 0 where
  pub has_host : url.has_host ≡ true
  pub is_base : url.cannot_be_a_base ≡ false
  pub no_query : url.has_query ≡ false
  pub no_fragment : url.has_fragment ≡ false

abbrev pub IsReserved : String → Type 0
IsReserved c = contains reserved_claims c ≡ true

pub record IsSoundGate (u : UpstreamConfig) : Type 0 where
  pub issuer : trim_end_slashes u.issuer ≡ u.issuer
  pub client_id : u.client_id == "" ≡ false
  pub scope : has_openid u.scope ≡ true
  pub session_ttl : u.session_ttl < 2 ^ 64
  pub sub_token_claim : OnSome (λ c. ¬ IsReserved c) u.sub_token_claim
  pub forward_claims : any (contains reserved_claims) u.forward_claims ≡ false

trimmed_filled :
    (o : Option String)
    → OnSome (λ s. s == "" ≡ false) (trimmed (keep_if (λ s. not (trim s == "")) o))
trimmed_filled none = absent
trimmed_filled (some s) = elim (Bool-cases (trim s == "")) [
  | inl blank ↦ rw blank absent
  | inr filled ↦ rw filled (present filled)
]

-- A trimmed setting is not empty.
pub trimmed-setting :
    (m : Settings) (k : String) → OnSome (λ s. s == "" ≡ false) (trimmed (setting m k))
unfolding setting
trimmed-setting m k = trimmed_filled (get k m)

module _ (lib : Crates) where
  pub parse_url-IsAbsolute :
      (name v : String) {url : Url} → parse_url lib name v ≡ ok url → IsAbsolute url
  unfolding parse_url
  parse_url-IsAbsolute name v {url} h =
      let (u, read, h₁) = bind-eq-ok (map_err _ (lib.parse_url (trim_end_slashes (trim v)))) _ h in
      let (_, absolute, h₂) =
        bind-eq-ok (check (not (u.cannot_be_a_base || not u.has_host)) _) _ h₁ in
      let (_, bare, same) = bind-eq-ok (check (not (u.has_query || u.has_fragment)) _) _ h₂ in
      let a = check-eq-ok _ _ absolute in
      let b = check-eq-ok _ _ bare in
      subst IsAbsolute (ok-injective same) (record {
        has_host = ground arith;
        is_base = ground arith;
        no_query = ground arith;
        no_fragment = ground arith;
      })

  parse_sub_claim_free :
      (o : Option String) {c : Option String}
      → parse_sub_claim lib o ≡ ok c
      → OnSome (λ c. ¬ IsReserved c) c
  unfolding parse_sub_claim
  parse_sub_claim_free none h = subst (OnSome (λ c. ¬ IsReserved c)) (ok-injective h) absent
  parse_sub_claim_free (some c) h = elim (Bool-cases (contains reserved_claims c)) [
    | inl bad ↦ absurd (ground (arith, bad))
    | inr good ↦
        subst (OnSome (λ c. ¬ IsReserved c)) (ok-injective (rw good at h))
          (present (λ bad. ground arith))
  ]

  parse_forwarded_free :
      (v : String) {cs : List String}
      → parse_forwarded lib v ≡ ok cs
      → any (contains reserved_claims) cs ≡ false
  unfolding parse_forwarded
  parse_forwarded_free v h = elim (Option-cases (first_reserved (comma_list v))) [
    | inl free ↦
        rw (← ok-injective (rw (parse_forwarded, free) at h)) (reserved_free (comma_list v) free)
    | inr (c, bad) ↦ absurd (ground (arith, bad))
  ]

  module _ (readers : Readers) where
    pub seconds_below :
        (name : String) (m : Settings) (d : ℕ)
        → d < 2 ^ 64
        → {n : ℕ} → or_default (parse_seconds lib readers name) d (setting m name) ≡ ok n
        → n < 2 ^ 64
    unfolding parse_seconds parse_u64
    seconds_below name m d small {n} h = elim (Option-cases (setting m name)) [
      | inl unset ↦ subst (λ k. k < 2 ^ 64) (ok-injective (rw unset at h)) small
      | inr (v, set) ↦ parse_below-lt (2 ^ 64) n (trim v) (ok_or-eq-ok _ _ (rw set at h))
    ]

    pub parse_gate_sound :
        (m : Settings) (given : String) {u : UpstreamConfig}
        → parse_gate lib readers m given ≡ ok u
        → IsSoundGate u
    unfolding parse_gate
    parse_gate_sound m given {u} h =
        let (url, read, h₁) =
          bind-eq-ok (parse_url lib "UPSTREAM_ISSUER" (trim_end_slashes (trim given))) _ h in
        let (client_id, has_client, h₂) =
          bind-eq-ok (ok_or (trimmed (setting m "UPSTREAM_CLIENT_ID")) _) _ h₁ in
        let (required, claim, h₃) =
          bind-eq-ok (parse_requirement lib (setting m "UPSTREAM_REQUIRE_CLAIM")) _ h₂ in
        let (session_ttl, ttl, h₄) =
          bind-eq-ok
            (or_default (parse_seconds lib readers "UPSTREAM_SESSION_TTL") 28800
              (setting m "UPSTREAM_SESSION_TTL"))
            _ h₃ in
        let (sub, sub_read, h₅) =
          bind-eq-ok (parse_sub_claim lib (trimmed (setting m "UPSTREAM_SUB_TOKEN_CLAIM"))) _ h₄ in
        let (forward, forwarded, same) =
          bind-eq-ok (parse_forwarded lib (unwrap_or (setting m "UPSTREAM_FORWARD_CLAIMS") "")) _
            h₅ in
        subst IsSoundGate (ok-injective same) (record {
          issuer = trim_end_slashes_idempotent (trim given);
          client_id =
              OnSome_at (trimmed-setting m "UPSTREAM_CLIENT_ID") (ok_or-eq-ok _ _ has_client);
          scope =
              with_openid_has
                (trim (unwrap_or (setting m "UPSTREAM_SCOPE") "openid email profile"));
          session_ttl = seconds_below "UPSTREAM_SESSION_TTL" m 28800 (omega arith) ttl;
          sub_token_claim =
              parse_sub_claim_free (trimmed (setting m "UPSTREAM_SUB_TOKEN_CLAIM")) sub_read;
          forward_claims =
              parse_forwarded_free (unwrap_or (setting m "UPSTREAM_FORWARD_CLAIMS") "") forwarded;
        })
