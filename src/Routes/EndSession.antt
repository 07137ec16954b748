-- ===== src/Routes/EndSession.antt =====
-- src/routes/session.rs: logout.
use nano_mockidp.Base.{String, Option, none, some, [], ◌∷◌, and_then, or_else, non_empty}
use nano_mockidp.Base.Text.{◌⊕◌, replace_char}
use nano_mockidp.Base.Map.{get}
use nano_mockidp.Base.Result.{Result, ok, err}
use nano_mockidp.Crates.{Crates, Url}
use nano_mockidp.Http.{Response, html, none, found}
use nano_mockidp.Json.{Claims, as_str}
use nano_mockidp.State.{AppState, issuer_check}
use nano_mockidp.Store.Data.{Store}
use nano_mockidp.Store.Ops.{revoke_session}
use nano_mockidp.Token.Verify.{verify_allow_expired}

pub record EndSessionQuery : Type 0 where
  pub post_logout_redirect_uri : Option String
  pub state : Option String
  pub id_token_hint : Option String

unfoldable pub bad_request : String → Response
bad_request msg = record {
  status = 400;
  headers = [];
  body = html (
      "<!doctype html><title>nano-mockidp</title><p>"
      ⊕ replace_char b'<' "&lt;" (replace_char b'&' "&amp;" msg)
      ⊕ "</p>");
}

abbrev pub logged_out : Response
logged_out = record {
  status = 200;
  headers = [];
  body =
      html
        "<!doctype html><html><head><meta charset=\"utf-8\"><title>nano-mockidp</title><style>body{font-family:system-ui,sans-serif;max-width:640px;margin:60px auto;color:#222}h1{color:#ba2415;font-size:20px}</style></head><body><h1>Logged out</h1><p>You can close this page.</p></body></html>";
}

-- The client that a hint names: `azp`, or else `aud`.
abbrev pub hint_client : Claims → Option String
hint_client claims = and_then (or_else (get "azp" claims) (get "aud" claims)) as_str

unfoldable pub end_hinted : Option String → Option String → Store → Store
unfolding revoke_session
end_hinted (some sid) (some client) s = (revoke_session sid client s).1
end_hinted _ _ s = s

abbrev pub with_state : Crates → Option String → Url → Url
with_state lib none url = url
with_state lib (some s) url = lib.append_pairs url (("state", s) ∷ [])

abbrev pub to_page : Crates → Option String → Result String Url → Response
to_page lib state (ok url) = found (with_state lib state url).text
to_page lib state (err e) = bad_request "invalid post_logout_redirect_uri"

-- What follows the hint: the redirect, or the page.
unfoldable pub after_logout : Crates → EndSessionQuery → Response
unfolding bad_request
after_logout lib q = elim (non_empty q.post_logout_redirect_uri) [
  | none ↦ logged_out
  | some uri ↦ to_page lib q.state (lib.parse_url uri)
]

abbrev pub hinted : Crates → EndSessionQuery → Result String Claims → Store → Response × Store
hinted lib q (err e) s = (bad_request ("invalid id_token_hint: " ⊕ e), s)
hinted lib q (ok claims) s =
    (after_logout lib q, end_hinted (and_then (get "sid" claims) as_str) (hint_client claims) s)

-- `session::handler`
unfoldable pub end_session_handler : Crates → AppState → EndSessionQuery → Store → Response × Store
unfolding end_hinted after_logout
end_session_handler lib app q s = elim (non_empty q.id_token_hint) [
  | none ↦ (after_logout lib q, s)
  | some hint ↦ hinted lib q (verify_allow_expired lib app.key (issuer_check app) hint) s
]
