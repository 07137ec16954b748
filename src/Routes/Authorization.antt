-- ===== src/Routes/Authorization.antt =====
-- Which authorization requests are valid, that no answer panics, and what a login stores.
use nano_mockidp.Base.{
  String, Bool, true, false, Option, none, some, List, [], ◌≡◌, inl, inr, refl, sym, ◌∙◌, arith,
  eq_iff, Option-cases, if◌then◌else◌, is_none, contains, unwrap_or, non_empty,
}
use nano_mockidp.Base.Text.{◌⊕◌}
use nano_mockidp.Base.Map.{get}
use nano_mockidp.Base.Result.{Result, ok, err, ok_or, bind-eq-ok, ok_or-eq-ok}
use nano_mockidp.Crates.{Crates, Url}
use nano_mockidp.Routes.Validate.{
  AuthorizeQuery, AuthzError, page, check, is_ok, strict_client, check_request, validate,
}
use nano_mockidp.State.{AppState}
use nano_mockidp.Store.Data.{AuthRequest, Client, Store}

-- A request that the server may store: what `validate` promises of it.
pub record IsValidRequest (lib : Crates) (app : AppState) (q : AuthorizeQuery)
    (resources : List String) (s : Store) (req : AuthRequest) : Type 0 where
  pub client_given : non_empty q.client_id ≡ some req.client_id
  pub redirect_given : non_empty q.redirect_uri ≡ some req.redirect_uri
  pub url : Url
  pub redirect_parses : lib.parse_url req.redirect_uri ≡ ok url
  pub code_flow : q.response_type ≡ some "code"
  pub challenge : req.code_challenge ≡ q.code_challenge
  pub method : (c : String) → q.code_challenge ≡ some c → q.code_challenge_method ≡ some "S256"
  pub registered :
      app.config.strict ≡ true
      → (client : Client) × (get req.client_id s.clients ≡ some client)
        × (contains (unwrap_or client.redirect_uris []) req.redirect_uri ≡ true)
        × (client.client_secret ≡ none → (c : String) × (q.code_challenge ≡ some c))

check-eq-ok : (b : Bool) (e : AuthzError) → check b e ≡ ok tt → b ≡ true
check-eq-ok true e h = refl
check-eq-ok false e h = cc

strict_client-eq-ok :
    (s : Store) (id uri : String) (public : Bool)
    → strict_client s id uri ≡ ok public
    → (client : Client) × (get id s.clients ≡ some client)
      × (contains (unwrap_or client.redirect_uris []) uri ≡ true)
      × (is_none client.client_secret ≡ public)
unfolding strict_client
strict_client-eq-ok s id uri public h = elim (Option-cases (get id s.clients)) [
  | inl unknown ↦ absurd (ground (arith, unknown))
  | inr (client, known) ↦ (client, known, ground arith, ground arith)
]

check_request-eq-ok :
    (strict public : Bool) (uri : String) (q : AuthorizeQuery)
    → check_request strict public uri q ≡ ok tt
    → (q.response_type ≡ some "code")
      × ((c : String) → q.code_challenge ≡ some c → q.code_challenge_method ≡ some "S256")
      × (strict ≡ true → public ≡ true → (c : String) × (q.code_challenge ≡ some c))
unfolding check_request
check_request-eq-ok strict public uri q h = (
  elim (Option-cases q.response_type) [
    | inl absent ↦ absurd (ground arith)
    | inr (t, given) ↦ ground (arith, eq_iff t "code")
  ],
  λ c asked. elim (Option-cases q.code_challenge_method) [
    | inl absent ↦ absurd (ground arith)
    | inr (m, given) ↦ ground (arith, eq_iff m "S256")
  ],
  λ is_strict is_public. elim (Option-cases q.code_challenge) [
    | inl absent ↦ absurd (ground arith)
    | inr (c, given) ↦ (c, given)
  ],
)

is_ok-true {ℓ} : {A : Type ℓ} (r : Result String A) → is_ok r ≡ true → (a : A) × (r ≡ ok a)
is_ok-true (ok a) h = (a, refl)
is_ok-true (err e) h = cc

is_none-true : (o : Option String) → o ≡ none → is_none o ≡ true
is_none-true o h = rw h

ok-injective : {E A : Type 0} {a b : A} → ◌≡◌ {A = Result E A} (ok a) (ok b) → a ≡ b
ok-injective h = cc

module _ (lib : Crates) (app : AppState) (q : AuthorizeQuery) (resources : List String)
    (s : Store) where
  registered_client :
      (id uri : String) (public : Bool)
      → (if app.config.strict then strict_client s id uri else ok false) ≡ ok public
      → (app.config.strict ≡ true → public ≡ true → (c : String) × (q.code_challenge ≡ some c))
      → app.config.strict ≡ true
      → (client : Client) × (get id s.clients ≡ some client)
        × (contains (unwrap_or client.redirect_uris []) uri ≡ true)
        × (client.client_secret ≡ none → (c : String) × (q.code_challenge ≡ some c))
  registered_client id uri public h pkce strict =
      let (client, known, listed, is_public) =
        strict_client-eq-ok s id uri public (rw strict at h) in
      (client, known, listed, λ secretless. pkce strict (sym is_public ∙ is_none-true _ secretless))

  -- A request that passes the validation is a code request for a parsed redirect URI, with S256 if
  -- it has a challenge. In strict mode its client is registered with that redirect URI, and a
  -- client without a secret has a challenge.
  pub validate_sound :
      (req : AuthRequest)
      → validate lib app q resources s ≡ ok req
      → IsValidRequest lib app q resources s req
  unfolding validate
  validate_sound req h =
      let (id, has_id, h₁) =
        bind-eq-ok (ok_or (non_empty q.client_id) (page 400 "missing client_id")) _ h in
      let (uri, has_uri, h₂) =
        bind-eq-ok (ok_or (non_empty q.redirect_uri) (page 400 "missing redirect_uri")) _ h₁ in
      let (_, parsed, h₃) =
        bind-eq-ok
          (check (is_ok (lib.parse_url uri))
            (page 400 ("redirect_uri is not a valid absolute URL: " ⊕ uri)))
          _ h₂ in
      let (public, client, h₄) =
        bind-eq-ok (if app.config.strict then strict_client s id uri else ok false) _ h₃ in
      let (_, checked, same) = bind-eq-ok (check_request app.config.strict public uri q) _ h₄ in
      let (url, parses) = is_ok-true (lib.parse_url uri) (check-eq-ok _ _ parsed) in
      let (code_flow, method, pkce) = check_request-eq-ok app.config.strict public uri q checked in
      rw (← ok-injective same) (record {
        client_given = ok_or-eq-ok _ _ has_id;
        redirect_given = ok_or-eq-ok _ _ has_uri;
        url = url;
        redirect_parses = parses;
        code_flow = code_flow;
        challenge = refl;
        method = method;
        registered = registered_client id uri public client pkce;
      })
