-- ===== src/Routes/Steps.antt =====
-- How the steps of a handler end: the error of a refusal, and the store that it leaves
-- (src/error.rs, src/routes/token.rs).
use mathlib.Core.Path.{subst}
use nano_mockidp.Base.{
  ◌≡◌, refl, String, Bool, true, false, Option, none, some, ◌==◌, if◌then◌else◌, non_empty, is_none,
}
use nano_mockidp.Base.Handler.{pure, fail, guard, gets, continue, lift, require, ◌>>=◌}
use nano_mockidp.Base.Map.{get}
use nano_mockidp.Base.Text.{◌⊕◌}
use nano_mockidp.Base.Result.{Result, ok, err}
use nano_mockidp.Crates.{Crates}
use nano_mockidp.Http.{
  Headers, OAuthError, invalid_request, invalid_client, invalid_grant, unauthorized_client,
  unsupported_grant_type,
}
use nano_mockidp.Json.{Claims}
use nano_mockidp.Routes.Client.{
  secret_fits, client_credentials, check_client, authenticate_client, ensure_trusted_client,
}
use nano_mockidp.Routes.TokenForm.{
  redirect_matches, pkce_check, pkce_answer, enabled, ensure_enabled,
}
use nano_mockidp.State.{AppState, Route}
use nano_mockidp.Store.Data.{Client, Store}
use nano_mockidp.Store.Ops.{sub_of, is_disabled}
use nano_mockidp.Token.Issue.{pkce_verify}

-- The errors of RFC 6749, section 5.2, each with its status: only an unknown client is answered with 401.
pub data IsOauthError : OAuthError → Type 0 where
  request_refused : (msg : String) → IsOauthError (invalid_request msg)
  client_refused : (msg : String) → IsOauthError (invalid_client msg)
  grant_refused : (msg : String) → IsOauthError (invalid_grant msg)
  client_unauthorized : (msg : String) → IsOauthError (unauthorized_client msg)
  grant_unsupported : IsOauthError unsupported_grant_type

-- A step of a handler: if it refuses, then by such an error and in a store of `Left`, and else
-- its store is one of `Q`.
pub data Ends {A : Type 0} (Left Q : Store → Type 0) : Result OAuthError A × Store → Type 0 where
  done : {a : A} {t : Store} → Q t → Ends Left Q (ok a, t)
  refused : {e : OAuthError} {t : Store} → IsOauthError e → Left t → Ends Left Q (err e, t)

module _ (Left : Store → Type 0) where
  abbrev pub Step : {A : Type 0} → (P Q : Store → Type 0) → Route A → Type 0
  Step P Q m = (t : Store) → P t → Ends Left Q (m t)

  continue-Ends :
      {A B : Type 0} {Q R : Store → Type 0} {x : Result OAuthError A × Store} (f : A → Route B)
      → Ends Left Q x
      → ((a : A) → Step Q R (f a))
      → Ends Left R (continue x.0 f x.1)
  continue-Ends f (Ends.done {a = a} {t = t} q) k = k a t q
  continue-Ends f (Ends.refused known left) k = Ends.refused known left

  -- The steps of a `do` block.
  pub then_Step :
      {A B : Type 0} {P Q R : Store → Type 0} (m : Route A) (f : A → Route B)
      → Step P Q m
      → ((a : A) → Step Q R (f a))
      → Step P R (m >>= f)
  then_Step m f h k t p = continue-Ends f (h t p) k

  if-Ends :
      {A : Type 0} {Q : Store → Type 0} {t : Store} (b : Bool) (r r' : Result OAuthError A)
      → Ends Left Q (r, t)
      → Ends Left Q (r', t)
      → Ends Left Q (if b then r else r', t)
  if-Ends true r r' h k = h
  if-Ends false r r' h k = k

  module _ {P : Store → Type 0} (left : (t : Store) → P t → Left t) where
    pub pure-Step : {A : Type 0} (a : A) → Step P P (pure a)
    pure-Step a t p = Ends.done p

    fail-Step : {A : Type 0} (e : OAuthError) → IsOauthError e → Step {A = A} P P (fail e)
    fail-Step e known t p = Ends.refused known (left t p)

    pub gets-Step : {A : Type 0} (f : Store → A) → Step P P (gets f)
    gets-Step f t p = Ends.done p

    pub require-Step :
        {A : Type 0} (o : Option A) (e : OAuthError) → IsOauthError e → Step P P (require o e)
    require-Step none e known t p = Ends.refused known (left t p)
    require-Step (some a) e known t p = Ends.done p

    -- A value that is required is known to have been given in what follows.
    pub required_Step :
        {A B : Type 0} {R : Store → Type 0} (o : Option A) (e : OAuthError) (f : A → Route B)
        → IsOauthError e
        → ((a : A) → o ≡ some a → Step P R (f a))
        → Step P R (require o e >>= f)
    required_Step none e f known k t p = Ends.refused known (left t p)
    required_Step (some a) e f known k t p = k a refl t p

    pub guard-Step : (b : Bool) (e : OAuthError) → IsOauthError e → Step P P (guard b e)
    guard-Step true e known t p = Ends.done p
    guard-Step false e known t p = Ends.refused known (left t p)

    pub redirect-Step :
        (given : Option String) (uri : String) → Step P P (lift (redirect_matches given uri))
    redirect-Step none uri t p = Ends.refused (request_refused _) (left t p)
    redirect-Step (some u) uri t p =
        if-Ends (u == uri) _ _ (Ends.done p) (Ends.refused (grant_refused _) (left t p))

    pub enabled-Step : (sub : Option String) → Step P P (λ s. (enabled sub s, s))
    enabled-Step none t p = Ends.done p
    enabled-Step (some sub) t p =
        if-Ends (is_disabled sub t) _ _ (Ends.refused (grant_refused _) (left t p)) (Ends.done p)

    pub ensure_enabled-Step : (claims : Claims) → Step P P (ensure_enabled claims)
    unfolding ensure_enabled
    ensure_enabled-Step claims = enabled-Step (sub_of claims)

    pub pkce-Step :
        (lib : Crates) (challenge verifier : Option String)
        → Step P P (lift (pkce_check lib challenge verifier))
    pkce-Step lib none verifier t p = Ends.done p
    pkce-Step lib (some c) verifier t p = pkce_answer-Ends (non_empty verifier)
      where
        pkce_answer-Ends : (v : Option String) → Ends Left P (pkce_answer lib v c, t)
        pkce_answer-Ends none = Ends.refused (request_refused _) (left t p)
        pkce_answer-Ends (some v) =
            if-Ends (pkce_verify lib v c) _ _ (Ends.done p)
              (Ends.refused (grant_refused _) (left t p))

    if-Step :
        {A : Type 0} (b : Bool) (m n : Route A)
        → Step P P m
        → Step P P n
        → Step P P (if b then m else n)
    if-Step true m n h k = h
    if-Step false m n h k = k

    check-Step :
        (client_id : String) (secret : Option String) → Step P P (check_client client_id secret)
    unfolding check_client
    check-Step client_id secret =
        then_Step {A = Option Client} _ _ (gets-Step (λ t. get client_id t.clients)) (λ registered.
          then_Step {A = Client} _ _
            (require-Step registered (invalid_client ("unknown client: " ⊕ client_id))
              (client_refused _))
            (λ client.
              then_Step _ _
                (guard-Step (secret_fits client.client_secret secret)
                  (invalid_client "invalid client_secret") (client_refused _))
                (λ _. pure-Step client_id)))

    pub authenticate-Step :
        (lib : Crates) (app : AppState) (headers : Headers) (id secret : Option String)
        → Step P P (authenticate_client lib app headers id secret)
    unfolding authenticate_client
    authenticate-Step lib app headers id secret =
        then_Step _ _
          (require-Step (client_credentials lib headers id secret).id _ (client_refused _))
          (λ client_id.
            if-Step app.config.strict _ _ (check-Step client_id _) (pure-Step client_id))

    pub trusted-Step :
        (lib : Crates) (app : AppState) (headers : Headers) (id secret : Option String)
        → Step P P (ensure_trusted_client lib app headers id secret)
    unfolding ensure_trusted_client
    trusted-Step lib app headers id secret =
        if-Step (is_none app.config.upstream) _ _ (pure-Step tt)
          (guard-Step _ _ (client_unauthorized _))

err-injective :
    {A : Type 0} {e e' : OAuthError} → ◌≡◌ {A = Result OAuthError A} (err e) (err e') → e ≡ e'
err-injective h = cc

module _ {A : Type 0} {Left Q : Store → Type 0} where
  pub refused_as :
      (x : Result OAuthError A × Store) (e : OAuthError)
      → Ends Left Q x
      → x.0 ≡ err e
      → IsOauthError e × Left x.1
  refused_as x e (Ends.done q) h = absurd cc
  refused_as x e (Ends.refused known left) h = (subst IsOauthError (err-injective h) known, left)
