-- ===== src/Server/Once.antt =====
-- Codes and refresh tokens are used once, whatever the server does between two requests.
use nano_mockidp.Base.{String, none, some, List, ◌≡◌, ◌≢◌, refl, arith, eq_iff, non_empty}
use nano_mockidp.Base.Bytes.{Bytes}
use nano_mockidp.Base.Map.{get, get-insert, get-remove, get-retain_none}
use nano_mockidp.Base.Result.{Result, ok}
use nano_mockidp.Crates.{Crates}
use nano_mockidp.Http.{Headers, Response}
use nano_mockidp.Routes.Client.{authenticate_client}
use nano_mockidp.Routes.Exchange.{codes-code_grant}
use nano_mockidp.Routes.Token.{token_handler}
use nano_mockidp.Routes.TokenForm.{TokenForm}
use nano_mockidp.Server.{Event, serve_all}
use nano_mockidp.Server.Frame.Events.{AllAdmitted, serve_all-keeps}
use nano_mockidp.Server.Frame.Rule.{Rule, anything}
use nano_mockidp.State.{AppState, Env, app_issuer_for}
use nano_mockidp.Store.Data.{Expiring, RefreshEntry, Store}
use nano_mockidp.Store.Ops.{sweep, is_live}
use nano_mockidp.Server.Requests.{
  PresentsCode, PresentsToken, code_request, token_request, code_grant-unknown,
  refresh_grant-unknown, refresh_grant-removes,
}
use nano_mockidp.Routes.Revoke.{RevokeForm, revoke_handler}

code_gone_rule :
    (code : String) → Rule (λ s. get code s.codes ≡ none) (record anything { code = λ k. k ≢ code })
unfolding sweep
code_gone_rule code = record {
  swept = λ now s any gone. get-retain_none (is_live now) code s.codes gone;
  code_removed = λ k s gone. rw get-remove (ground (arith, gone));
  token_removed = λ k s gone. gone;
  tokens_dropped = λ p s gone. gone;
  pending_set = λ m s gone. gone;
  subjects_set = λ m s gone. gone;
  revoked_inserted = λ jti exp s any gone. gone;
  code_inserted = λ k e s other gone. rw get-insert (ground (arith, gone, other, eq_iff k code));
  token_inserted = λ k e s any gone. gone;
  client_inserted = λ k c s any gone. gone;
}

token_gone_rule :
    (token : String)
    → Rule (λ s. get token s.refresh ≡ none) (record anything { token = λ k. k ≢ token })
unfolding sweep
token_gone_rule token = record {
  swept = λ now s any gone. get-retain_none (is_live now) token s.refresh gone;
  code_removed = λ k s gone. gone;
  token_removed = λ k s gone. rw get-remove (ground (arith, gone));
  tokens_dropped = λ p s gone. get-retain_none p token s.refresh gone;
  pending_set = λ m s gone. gone;
  subjects_set = λ m s gone. gone;
  revoked_inserted = λ jti exp s any gone. gone;
  code_inserted = λ k e s any gone. gone;
  token_inserted = λ k e s other gone. rw get-insert (ground (arith, gone, other, eq_iff k token));
  client_inserted = λ k c s any gone. gone;
}

module _ (lib : Crates) (form_of : Bytes → Result String TokenForm) (app : AppState) where
  module _ (env later : Env) (base base' : String) (headers headers' : Headers) (body body' : Bytes)
      (s : Store) (r r' : Response) (events : List Event) where
    -- The store after the first request and the events.
    abbrev pub after : Store
    after =
        serve_all lib form_of app events (token_handler lib form_of app env base headers body s).1

    -- A code is exchanged at most once: after a request to `/token` that was answered with tokens
    -- for a code, and whatever requests and sweeps follow, no request with the same code is answered
    -- with tokens, as long as no login in between draws the same code.
    pub code_used_once :
        (code : String)
        → PresentsCode form_of body code
        → PresentsCode form_of body' code
        → AllAdmitted (record anything { code = λ k. k ≢ code }) lib app events
        → (token_handler lib form_of app env base headers body s).0 ≡ ok r
        → (token_handler lib form_of app later base' headers' body' after).0 ≢ ok r'
    code_used_once code p p' fresh answered again =
        let (client_id, resources, first) =
          code_request lib form_of app env base headers body s r answered code p in
        let (client_id', resources', second) =
          code_request lib form_of app later base' headers' body' after r' again code p' in
        let gone : get code (token_handler lib form_of app env base headers body s).1.codes ≡ none =
          rw first (
            rw
              (codes-code_grant lib app env (app_issuer_for app base) client_id p.form resources s
                code p.given)
              (rw get-remove (rw ((eq_iff code code).1 refl)))) in
        code_grant-unknown lib app later (app_issuer_for app base') client_id' p'.form resources'
          after code r' p'.given
          (serve_all-keeps (code_gone_rule code) app lib form_of events _ fresh gone)
          (rw second at again)

    -- A refresh token is used at most once: after a request to `/token` that was answered with tokens
    -- for a refresh token, and whatever requests and sweeps follow, no request with the same refresh
    -- token is answered with tokens, as long as neither the request nor the requests in between draw the same token.
    pub refresh_used_once :
        (token : String)
        → PresentsToken form_of body token
        → PresentsToken form_of body' token
        → env.random 2 ≢ token
        → AllAdmitted (record anything { token = λ k. k ≢ token }) lib app events
        → (token_handler lib form_of app env base headers body s).0 ≡ ok r
        → (token_handler lib form_of app later base' headers' body' after).0 ≢ ok r'
    refresh_used_once token p p' new fresh answered again =
        let (client_id, resources, first) =
          token_request lib form_of app env base headers body s r answered token p in
        let (client_id', resources', second) =
          token_request lib form_of app later base' headers' body' after r' again token p' in
        let gone : get token (token_handler lib form_of app env base headers body s).1.refresh
            ≡ none =
          rw first (
            refresh_grant-removes lib app env (app_issuer_for app base) client_id p.form resources s
              token r p.given new (rw first at answered)) in
        refresh_grant-unknown lib app later (app_issuer_for app base') client_id' p'.form resources'
          after token r' p'.given
          (serve_all-keeps (token_gone_rule token) app lib form_of events _ fresh gone)
          (rw second at again)

  module _ (headers headers' : Headers) (form : RevokeForm) (client_id : String) (s : Store)
      (caller : authenticate_client lib app headers form.client_id form.client_secret s
        ≡ (ok client_id, s)) where
    revoke_handler-removes :
        (token : String) (e : Expiring RefreshEntry)
        → non_empty form.token ≡ some token
        → get token s.refresh ≡ some e
        → e.value.client_id ≡ client_id
        → get token (revoke_handler lib app headers form s).1.refresh ≡ none
    unfolding revoke_handler
    revoke_handler-removes token e given stored own = rw caller (
        rw given (
          rw stored (
            rw ((eq_iff e.value.client_id client_id).1 own)
              (rw get-remove (rw ((eq_iff token token).1 refl))))))

    -- A refresh token that its client has revoked is never used again, whatever requests and sweeps
    -- follow, as long as no request draws the same token.
    pub revoked_refresh_refused :
        (token : String) (e : Expiring RefreshEntry) (events : List Event) (later : Env)
        (base : String) (body : Bytes) (r : Response)
        → non_empty form.token ≡ some token
        → get token s.refresh ≡ some e
        → e.value.client_id ≡ client_id
        → AllAdmitted (record anything { token = λ k. k ≢ token }) lib app events
        → PresentsToken form_of body token
        → (token_handler lib form_of app later base headers' body
            (serve_all lib form_of app events (revoke_handler lib app headers form s).1)).0
          ≢ ok r
    revoked_refresh_refused token e events later base body r given stored own fresh p again =
        let after = serve_all lib form_of app events (revoke_handler lib app headers form s).1 in
        let (client_id', resources, second) =
          token_request lib form_of app later base headers' body after r again token p in
        refresh_grant-unknown lib app later (app_issuer_for app base) client_id' p.form resources
          after token r p.given
          (serve_all-keeps (token_gone_rule token) app lib form_of events _ fresh
            (revoke_handler-removes token e given stored own))
          (rw second at again)
