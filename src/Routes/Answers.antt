-- ===== src/Routes/Answers.antt =====
-- The errors of src/routes/authorize.rs have an answer: no `expect("validated")` panics.
use nano_mockidp.Base.{
  ℕ, String, Bool, true, false, Option, none, some, List, ◌≡◌, refl, Option-cases, Bool-cases, inl,
  inr, if◌then◌else◌, contains, unwrap_or, [], and_then, is_some, non_empty,
}
use nano_mockidp.Base.Text.{◌⊕◌, trim, parse_u64}
use nano_mockidp.Base.Map.{get}
use nano_mockidp.Base.Result.{Result, ok, err, ok_or, ◌>>=◌, Result-cases}
use nano_mockidp.Crates.{Crates, Url}
use nano_mockidp.Json.{Claims}
use nano_mockidp.Routes.Authorize.{issue_code, store_code, lifetime, disabled_sub}
use nano_mockidp.Routes.Validate.{
  AuthzError, page, redirect, authz_response, check, is_ok, strict_client, check_request,
  method_known, validate, AuthorizeQuery,
}
use nano_mockidp.State.{AppState, Env}
use nano_mockidp.Store.Data.{AuthRequest, Client, Store}

module _ (lib : Crates) where
  -- An error of the endpoint that has an answer.
  unfoldable pub Answers : {A : Type 0} → Result AuthzError A → Type 0
  Answers (ok a) = Unit
  Answers (err e) = is_some (authz_response lib e) ≡ true

  pub bind-Answers :
      {A B : Type 0} (r : Result AuthzError A) (f : A → Result AuthzError B)
      → Answers r
      → ((a : A) → r ≡ ok a → Answers (f a))
      → Answers (r >>= f)
  unfolding Answers
  bind-Answers (ok a) f h k = k a refl
  bind-Answers (err e) f h k = h

  pub page-Answers : (b : Bool) (n : ℕ) (m : String) → Answers (check b (page n m))
  unfolding authz_response Answers
  page-Answers true n m = tt
  page-Answers false n m = refl

  pub ok_or-Answers :
      {A : Type 0} (o : Option A) (n : ℕ) (m : String) → Answers (ok_or o (page n m))
  unfolding authz_response Answers
  ok_or-Answers none n m = refl
  ok_or-Answers (some a) n m = tt

  module _ (uri : String) (url : Url) (parses : lib.parse_url uri ≡ ok url) where
    redirect_answers :
        (error description : String) (state : Option String)
        → is_some (authz_response lib (redirect uri error description state)) ≡ true
    unfolding authz_response
    redirect_answers error description state = rw parses

    check-Answers :
        (b : Bool) (error description : String) (state : Option String)
        → Answers (check b (redirect uri error description state))
    unfolding Answers
    check-Answers true error description state = tt
    check-Answers false error description state = redirect_answers error description state

    method_known-Answers : (state m : Option String) → Answers (method_known uri state m)
    unfolding Answers
    method_known-Answers state none = tt
    method_known-Answers state (some m) = check-Answers _ _ _ _

    check_request-Answers :
        (strict public : Bool) (q : AuthorizeQuery) → Answers (check_request strict public uri q)
    unfolding check_request
    check_request-Answers strict public q =
        search (bind-Answers, check-Answers, method_known-Answers)

  strict_client-Answers : (s : Store) (id uri : String) → Answers (strict_client s id uri)
  unfolding strict_client Answers
  strict_client-Answers s id uri = elim (Option-cases (get id s.clients)) [
    | inl unknown ↦ rw unknown (ok_or-Answers {A = Client} none 400 ("unknown client_id: " ⊕ id))
    | inr (client, known) ↦
        rw known (elim (Bool-cases (contains (unwrap_or client.redirect_uris []) uri)) [
          | inl listed ↦ rw listed tt
          | inr other ↦ rw other (page-Answers false 400 _)
        ])
  ]

  strict_step-Answers :
      (strict : Bool) (s : Store) (id uri : String)
      → Answers (if strict then strict_client s id uri else ok false)
  unfolding Answers
  strict_step-Answers true s id uri = strict_client-Answers s id uri
  strict_step-Answers false s id uri = tt

  parsed-Answers :
      (uri : String) (e : AuthzError) (a : Unit {0})
      → check (is_ok (lib.parse_url uri)) e ≡ ok a
      → (strict public : Bool) (q : AuthorizeQuery) → Answers (check_request strict public uri q)
  parsed-Answers uri e a h strict public q = elim (Result-cases (lib.parse_url uri)) [
    | inl (url, parses) ↦ check_request-Answers uri url parses strict public q
    | inr (m, fails) ↦ absurd (never (rw fails at h))
  ]
    where
      never : ◌≡◌ {A = Result AuthzError (Unit {0})} (err e) (ok a) → ⊥
      never p = cc

  pub ok-Answers : {A : Type 0} (a : A) → Answers (ok a)
  unfolding Answers
  ok-Answers a = tt

  pub validate-Answers :
      (app : AppState) (q : AuthorizeQuery) (resources : List String) (s : Store)
      → Answers (validate lib app q resources s)
  unfolding validate
  validate-Answers app q resources s =
      bind-Answers _ _ (ok_or-Answers (non_empty q.client_id) 400 "missing client_id") (λ id _.
        bind-Answers _ _ (ok_or-Answers (non_empty q.redirect_uri) 400 "missing redirect_uri")
          (λ uri _. bind-Answers _ _ (page-Answers (is_ok (lib.parse_url uri)) 400 _) (λ a parsed.
            bind-Answers _ _ (strict_step-Answers app.config.strict s id uri) (λ public _.
              bind-Answers _ _ (parsed-Answers uri _ a parsed app.config.strict public q)
                (λ _ _. ok-Answers _)))))

  pub err-Answers :
      {A : Type 0} {r : Result AuthzError A} (e : AuthzError)
      → r ≡ err e
      → Answers r
      → is_some (authz_response lib e) ≡ true
  unfolding Answers
  err-Answers e h a = rw h at a

  parsed_lifetime-Answers :
      (v : String)
      → Answers (elim (parse_u64 v) [
        | some n ↦ ok (some n)
        | none ↦ err (page 400 ("expires_in must be an integer, got " ⊕ v))
      ])
  unfolding Answers authz_response
  parsed_lifetime-Answers v = elim (Option-cases (parse_u64 v)) [
    | inl malformed ↦ rw malformed refl
    | inr (n, read) ↦ rw read tt
  ]

  lifetime-Answers : (given : Option String) → Answers (lifetime given)
  unfolding Answers lifetime authz_response
  lifetime-Answers given = elim (Option-cases (and_then given (λ v. non_empty (some (trim v))))) [
    | inl default ↦ rw (default, lifetime) tt
    | inr (v, own) ↦ rw (own, lifetime) (parsed_lifetime-Answers v)
  ]

  module _ (env : Env) (req : AuthRequest) (url : Url)
      (parses : lib.parse_url req.redirect_uri ≡ ok url) (claims : Claims)
      (given upstream_sub upstream_email : Option String) (s : Store) where
    store_code_answers :
        (expires_in : Option ℕ)
        → is_some (store_code lib env req claims expires_in upstream_sub upstream_email s).0 ≡ true
    unfolding store_code
    store_code_answers expires_in = rw (parses, store_code) refl

    pub issue_code_answers :
        is_some (issue_code lib env req claims given upstream_sub upstream_email s).0 ≡ true
    unfolding issue_code
    issue_code_answers = elim (Option-cases (disabled_sub claims s)) [
      | inl free ↦
          rw (free, issue_code)
            (elim (Result-cases (lifetime given)) [
              | inl (n, read) ↦ rw read (store_code_answers n)
              | inr (e, malformed) ↦ rw malformed (err-Answers e malformed (lifetime-Answers given))
            ])
      | inr (sub, off) ↦ rw (off, issue_code) (redirect_answers req.redirect_uri url parses _ _ _)
    ]
