-- ===== src/Server.antt =====
-- The server as a whole: which requests and tasks change the store, one after the other. The
-- runtime has one thread and a handler holds the lock of the store, so that they do not overlap.
pub mod Kept
pub mod Tokens
pub mod Logins
pub mod Tables
pub mod Vouched
pub mod Frame
pub mod Requests
pub mod Once
pub mod LoginFlow
pub mod Revoked
pub mod Registered
use nano_mockidp.Base.{ℕ, String, Option, List, [], ◌∷◌}
use nano_mockidp.Base.Bytes.{Bytes}
use nano_mockidp.Base.Result.{Result}
use nano_mockidp.Crates.{Crates}
use nano_mockidp.Http.{Headers}
use nano_mockidp.Json.{Value}
use nano_mockidp.Routes.Admin.{SubjectBody, require_admin, put_subject, delete_subject, end_login}
use nano_mockidp.Routes.Authorize.{authorize_post}
use nano_mockidp.Routes.EndSession.{EndSessionQuery, end_session_handler}
use nano_mockidp.Routes.LoginPage.{authorize_get}
use nano_mockidp.Routes.Register.{register_handler}
use nano_mockidp.Routes.Revoke.{RevokeForm, revoke_handler}
use nano_mockidp.Routes.Token.{token_handler}
use nano_mockidp.Routes.TokenForm.{TokenForm}
use nano_mockidp.Routes.Validate.{AuthorizeQuery, LoginForm}
use nano_mockidp.State.{AppState, Env}
use nano_mockidp.Store.Data.{Instant, Store}
use nano_mockidp.Store.Ops.{sweep}

-- The requests that can change the store, with what their handlers read, and the sweeper's tick.
-- The other routes only read.
pub data Event : Type 0 where
  swept : Instant → Event
  token_asked : Env → String → Headers → Bytes → Event
  page_asked : Env → AuthorizeQuery → Option String → List String → Result String String → Event
  logged_in : Env → AuthorizeQuery → Option String → List String → LoginForm → Event
  revoked : Headers → RevokeForm → Event
  registered : Env → Option Value → Event
  logged_out : EndSessionQuery → Event
  subject_put : Instant → Headers → String → SubjectBody → Event
  subject_deleted : Headers → String → Event
  session_ended : Headers → String → Event

module _ (lib : Crates) (form_of : Bytes → Result String TokenForm) (app : AppState) where
  -- The store after an event.
  unfoldable pub serve : Event → Store → Store
  unfolding sweep token_handler authorize_get authorize_post revoke_handler register_handler
      end_session_handler require_admin put_subject delete_subject end_login
  serve (swept now) s = sweep now s
  serve (token_asked env base headers body) s =
      (token_handler lib form_of app env base headers body s).1
  serve (page_asked env q raw cookies login_html) s =
      (authorize_get lib app env q raw cookies login_html s).1
  serve (logged_in env q raw cookies form) s = (authorize_post lib app env q raw cookies form s).1
  serve (revoked headers form) s = (revoke_handler lib app headers form s).1
  serve (registered env body) s = (register_handler env body s).1
  serve (logged_out q) s = (end_session_handler lib app q s).1
  serve (subject_put now headers sub body) s =
      (require_admin app headers (put_subject now sub body) s).1
  serve (subject_deleted headers sub) s = (require_admin app headers (delete_subject sub) s).1
  serve (session_ended headers sid) s = (require_admin app headers (end_login sid) s).1

  -- The store after a sequence of events.
  unfoldable pub serve_all : List Event → Store → Store
  unfolding serve
  serve_all [] s = s
  serve_all (e ∷ es) s = serve_all es (serve e s)
