-- ===== src/Routes/LoginPage.antt =====
-- `get` of src/routes/authorize.rs: the login page.
use nano_mockidp.Base.{
  ℕ, String, Bool, false, Option, none, some, List, [], ◌∷◌, if◌then◌else◌, unwrap_or, is_none,
}
use nano_mockidp.Base.Text.{◌⊕◌}
use nano_mockidp.Base.Result.{Result, ok, err}
use nano_mockidp.Base.Map.{insert}
use nano_mockidp.Config.{Config}
use nano_mockidp.Crates.{Crates}
use nano_mockidp.Http.{Response, html}
use nano_mockidp.State.{AppState, Env, Gate}
use nano_mockidp.Store.Data.{unix_secs, expiring, AuthRequest, Store}
use nano_mockidp.Routes.Validate.{
  pending_ttl, AuthorizeQuery, AuthzError, error_page, authz_response, resources_from_query,
  validate,
}
use nano_mockidp.Routes.Authorize.{gate_session}

-- What `get` does: it answers, or hands over to `Gate::start_login` with the URL to return to.
pub data GetOutcome : Type 0 where
  respond : Option Response → GetOutcome
  start_login : String → GetOutcome

abbrev query_text : Option String → String
query_text none = ""
query_text (some q) = "?" ⊕ q

abbrev login_page : Result String String → Option String → Response
login_page (ok text) path = record {
  status = 200;
  headers = ("cache-control", "no-store") ∷ [];
  body = html text;
}
login_page (err e) path = record {
  status = 500;
  headers = [];
  body = html (error_page ("cannot read login page " ⊕ unwrap_or path "" ⊕ ": " ⊕ e));
}

-- The gate lets a request through if there is none, or if it has a session.
abbrev needs_login : Crates → Option Gate → List String → ℕ → Bool
needs_login lib none cookies now = false
needs_login lib (some gate) cookies now = is_none (gate_session lib gate cookies now)

abbrev get_validated :
    Crates
    → AppState
    → Env
    → Option String
    → List String
    → Result String String
    → Result AuthzError AuthRequest
    → Store
    → GetOutcome × Store
get_validated lib app env raw cookies login_html (err e) s = (respond (authz_response lib e), s)
get_validated lib app env raw cookies login_html (ok req) s =
    if needs_login lib app.gate cookies (unix_secs (env.now 0))
    then (start_login (app.config.issuer_path ⊕ "/authorize" ⊕ query_text raw), s)
    else (
      respond (some (login_page login_html app.config.login_page_path)),
      record s { pending = insert (env.random 0) (expiring req pending_ttl (env.now 1)) s.pending },
    )

-- `authorize::get`; `login_html` is what `load_login_page` reads
unfoldable pub authorize_get :
    Crates
    → AppState
    → Env
    → AuthorizeQuery
    → Option String
    → List String
    → Result String String
    → Store
    → GetOutcome × Store
unfolding validate resources_from_query authz_response gate_session error_page
authorize_get lib app env q raw cookies login_html s =
    get_validated lib app env raw cookies login_html
      (validate lib app q (resources_from_query lib raw) s) s

-- `load_login_page` of src/login.rs: the file, read anew on every call, or the page that is built in
unfoldable pub load_login_page :
    (String → Result String String) → String → Config → Result String String
load_login_page read_to_string default_login_page cfg = elim cfg.login_page_path [
  | some path ↦ read_to_string path
  | none ↦ ok default_login_page
]
