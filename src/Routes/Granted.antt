-- ===== src/Routes/Granted.antt =====
-- What a grant hands out (src/routes/token.rs), described without the grants: the audience, the claim of
-- the upstream subject, and the answer.
use nano_mockidp.Base.{
  String, Bool, false, Option, none, some, List, [], ◌∷◌, ◌++◌, ◌==◌, ◌≡◌, refl, any, and_then,
  non_empty, Option-cases, inl, inr,
}
use nano_mockidp.Base.Map.{get, insert}
use nano_mockidp.Base.Text.{split_whitespace}
use nano_mockidp.Http.{Response, json_object}
use nano_mockidp.Json.{Value, string, array, strings, Claims, json_u64}
use nano_mockidp.Routes.Grants.{current_claims}
use nano_mockidp.Routes.TokenForm.{
  TokenForm, optional, token_response, upstream_claim, with_upstream_claim, resolve_audience,
  has_offline_access,
}
use nano_mockidp.State.{AppState}
use nano_mockidp.Store.Data.{Store, Subject}
use nano_mockidp.Token.Issue.{TokenSet, audience_from_resources}

-- The audience, given the resources and the audience of the token request and what was granted
-- before: one resource is a string and several are an array, and they go before an audience, which
-- goes before the grant.
pub data IsAudience (granted : Option Value)
    : List String → Option String → Option Value → Type 0 where
  as_granted : IsAudience granted [] none granted
  as_asked : (x : String) → IsAudience granted [] (some x) (some (string x))
  for_one :
      (x : String) (asked : Option String) → IsAudience granted (x ∷ []) asked (some (string x))
  for_many :
      (x y : String) (rest : List String) (asked : Option String)
      → IsAudience granted (x ∷ y ∷ rest) asked (some (array (strings (x ∷ y ∷ rest))))

pub resolved :
    (form : TokenForm) (resources : List String) (granted : Option Value)
    → IsAudience granted resources
        (non_empty form.audience)
        (resolve_audience form resources granted)
unfolding resolve_audience audience_from_resources
resolved form [] granted = elim (Option-cases (non_empty form.audience)) [
  | inl unasked ↦ rw unasked as_granted
  | inr (x, asked) ↦ rw asked (as_asked x)
]
resolved form (x ∷ []) granted = for_one x _
resolved form (x ∷ y ∷ rest) granted = for_many x y rest _

pub audience_of :
    (resources : List String) → IsAudience none resources none (audience_from_resources resources)
unfolding audience_from_resources
audience_of [] = as_granted
audience_of (x ∷ []) = for_one x none
audience_of (x ∷ y ∷ rest) = for_many x y rest none

-- Claims to which the upstream subject is added under the configured name, if there are both.
pub data IsMarked (claims : Claims) : Option String → Option String → Claims → Type 0 where
  marked :
      (name sub : String) → IsMarked claims (some name) (some sub) (insert name (string sub) claims)
  unnamed : (sub : Option String) → IsMarked claims none sub claims
  unmarked : (name : String) → IsMarked claims (some name) none claims

abbrev pub sub_claim : AppState → Option String
sub_claim app = and_then app.config.upstream (λ u. u.sub_token_claim)

marked_by :
    (claims : Claims) (name sub : Option String)
    → IsMarked claims name sub (upstream_claim name sub claims)
marked_by claims none sub = unnamed sub
marked_by claims (some name) none = unmarked name
marked_by claims (some name) (some sub) = marked name sub

pub marked_claims :
    (app : AppState) (claims : Claims) (upstream_sub : Option String)
    → IsMarked claims (sub_claim app) upstream_sub (with_upstream_claim app claims upstream_sub)
unfolding with_upstream_claim
marked_claims app claims upstream_sub = marked_by claims (sub_claim app) upstream_sub

-- Whether a scope asks for offline access: one of its words does.
abbrev pub is_offline : Option String → Bool
is_offline none = false
is_offline (some scope) = any (λ word. word == "offline_access") (split_whitespace scope)

pub offline_of : (scope : Option String) → has_offline_access scope ≡ is_offline scope
unfolding has_offline_access
offline_of none = refl
offline_of (some scope) = refl

-- The claims that an administrator has set for the subject of a login, or else those of the login.
pub record IsCurrent (sub : Option String) (s : Store) (claims current : Claims) : Type 0 where
  pub overridden :
      (k : String) (t : Subject) (set : Claims)
      → sub ≡ some k
      → get k s.subjects ≡ some t
      → t.claims ≡ some set
      → current ≡ set
  pub own :
      ((k : String) (t : Subject) (set : Claims)
        → sub ≡ some k
        → get k s.subjects ≡ some t
        → t.claims ≡ some set
        → ⊥)
      → current ≡ claims

pub set_claims_of :
    (sub : Option String) (s : Store) (claims : Claims)
    → IsCurrent sub s claims (current_claims sub s claims)
set_claims_of sub s claims = record {
  overridden = λ k t set named stored has. rw named (rw stored (rw has refl));
  own = λ nothing. elim (Option-cases sub) [
    | inl anonymous ↦ rw anonymous refl
    | inr (k, named) ↦ elim (Option-cases (get k s.subjects)) [
      | inl unknown ↦ rw named (rw unknown refl)
      | inr (t, stored) ↦ elim (Option-cases t.claims) [
        | inl unset ↦ rw named (rw stored (rw unset refl))
        | inr (set, has) ↦ absurd (nothing k t set named stored has)
      ]
    ]
  ];
}

-- The answer with tokens and a refresh token (RFC 6749, section 5.1).
abbrev pub tokens_answer : TokenSet → Option String → String → Response
tokens_answer set scope refresh = record {
  status = 200;
  headers = ("cache-control", "no-store") ∷ ("pragma", "no-cache") ∷ [];
  body = json_object (
      ("access_token", string set.access_token)
      ∷ ("token_type", string "Bearer")
      ∷ ("expires_in", json_u64 set.expires_in)
      ∷ (optional "scope" scope
          ++ (optional "id_token" set.id_token ++ ("refresh_token", string refresh) ∷ [])));
}

pub answers_tokens :
    (set : TokenSet) (scope : Option String) (refresh : String)
    → token_response set (some refresh) scope ≡ tokens_answer set scope refresh
unfolding token_response
answers_tokens set scope refresh = refl
