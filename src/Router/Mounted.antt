-- ===== src/Router/Mounted.antt =====
-- Which routes are mounted, and which of them ask for the admin token.
use nano_mockidp.Base.{
  ℕ, String, Bool, true, false, not, ◌&&◌, leb, List, [], ◌∷◌, ◌++◌, ◌==◌, ◌≡◌, arith, any, is_some,
  if◌then◌else◌,
}
use nano_mockidp.Base.Text.{◌⊕◌}
use nano_mockidp.Router
use nano_mockidp.Router.{Endpoint, Method, Mount, router}
use nano_mockidp.State.{AppState}

-- The endpoints below `/admin`.
abbrev pub is_admin_endpoint : Endpoint → Bool
is_admin_endpoint Router.subjects = true
is_admin_endpoint Router.subject_get = true
is_admin_endpoint Router.subject_put = true
is_admin_endpoint Router.subject_delete = true
is_admin_endpoint Router.sessions = true
is_admin_endpoint Router.session_delete = true
is_admin_endpoint e = false

abbrev pub is_callback : Endpoint → Bool
is_callback Router.callback = true
is_callback e = false

-- An admin endpoint that anyone may call, or another endpoint that asks for the admin token.
abbrev pub is_exposed : Mount → Bool
is_exposed m = if is_admin_endpoint m.endpoint then not m.guarded else m.guarded

-- The endpoints by number.
abbrev number : Endpoint → ℕ
number Router.discovery = 0
number Router.jwks_document = 1
number Router.authorize_get = 2
number Router.authorize_post = 3
number Router.token = 4
number Router.userinfo = 5
number Router.introspect = 6
number Router.revoke = 7
number Router.end_session = 8
number Router.register = 9
number Router.health = 10
number Router.subjects = 11
number Router.subject_get = 12
number Router.subject_put = 13
number Router.subject_delete = 14
number Router.sessions = 15
number Router.session_delete = 16
number Router.callback = 17

-- The methods and paths at which an endpoint stands, in their order.
abbrev pub places : Endpoint → List Mount → List (Method × String)
places e [] = []
places e (m ∷ ms) =
    let rest = places e ms in
    if leb (number m.endpoint) (number e) && leb (number e) (number m.endpoint)
    then (m.method, m.path) ∷ rest
    else rest

-- The methods and paths that the documentation of an endpoint names, below the issuer's path.
abbrev pub documented : Endpoint → List (Method × String)
documented Router.discovery = (Router.get, "/.well-known/openid-configuration") ∷ []
documented Router.jwks_document = (Router.get, "/jwks") ∷ []
documented Router.authorize_get = (Router.get, "/authorize") ∷ []
documented Router.authorize_post = (Router.post, "/authorize") ∷ []
documented Router.token = (Router.post, "/token") ∷ []
documented Router.userinfo = (Router.get, "/userinfo") ∷ (Router.post, "/userinfo") ∷ []
documented Router.introspect = (Router.post, "/introspect") ∷ []
documented Router.revoke = (Router.post, "/revoke") ∷ []
documented Router.end_session = (Router.get, "/end_session") ∷ []
documented Router.register = (Router.post, "/register") ∷ []
documented Router.health = (Router.get, "/health") ∷ []
documented Router.subjects = (Router.get, "/admin/subjects") ∷ []
documented Router.subject_get = (Router.get, "/admin/subjects/{sub}") ∷ []
documented Router.subject_put = (Router.put, "/admin/subjects/{sub}") ∷ []
documented Router.subject_delete = (Router.delete, "/admin/subjects/{sub}") ∷ []
documented Router.sessions = (Router.get, "/admin/sessions") ∷ []
documented Router.session_delete = (Router.delete, "/admin/sessions/{sid}") ∷ []
documented Router.callback = (Router.get, "/upstream/callback") ∷ []

-- The admin endpoints need an admin token, and the callback a gate.
abbrev pub is_served : AppState → Endpoint → Bool
is_served app e =
    if is_admin_endpoint e
    then is_some app.config.admin_token
    else if is_callback e
    then is_some app.gate
    else true

-- The health check stands at the root, too.
abbrev pub at_root : Endpoint → List (Method × String)
at_root Router.health = (Router.get, "/health") ∷ []
at_root e = []

abbrev below : String → List (Method × String) → List (Method × String)
below path [] = []
below path ((method, place) ∷ places) = (method, path ⊕ place) ∷ below path places

abbrev pub expected : AppState → Endpoint → List (Method × String)
expected app e =
    if is_served app e
    then (if app.config.issuer_path == ""
        then documented e
        else below app.config.issuer_path (documented e) ++ at_root e)
    else []

-- Every endpoint stands at exactly its methods and paths, below the issuer's path, and the health check
-- also at the root; but an admin endpoint stands nowhere without an admin token, and the callback
-- nowhere without a gate. Exactly the admin endpoints stand behind the test of the admin token.
pub router_mounts :
    (app : AppState)
    → ((e : Endpoint) → places e (router app) ≡ expected app e)
      × (any is_exposed (router app) ≡ false)
unfolding router
router_mounts app = (λ e. places_expected e, ground arith)
  where
    places_expected : (e : Endpoint) → places e (router app) ≡ expected app e
    places_expected e = ground arith
