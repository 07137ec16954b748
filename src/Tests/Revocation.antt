-- ===== src/Tests/Revocation.antt =====
-- Applications of the theorems on revocation (src/routes/revoke.rs): the client `web` revokes the
-- access token `token`.
use nano_mockidp.Base.Text.{◌⊕◌, strip_prefix, trim}
use nano_mockidp.Base.{
  true, ◌↔◌, List, String, none, some, [], ◌∷◌, ◌≡◌, refl, arith, and_then, non_empty,
}
use nano_mockidp.Base.Bytes.{Bytes, as_bytes, take}
use nano_mockidp.Base.Map.{get, insert, remove}
use nano_mockidp.Base.Result.{Result, ok, err}
use nano_mockidp.Crates.{Crates}
use nano_mockidp.Http.{Headers}
use nano_mockidp.Json.{Claims, string, json_u64, as_str, as_u64}
use nano_mockidp.Routes.Client.{authenticate_client, client_credentials, check_client}
use nano_mockidp.Server
use nano_mockidp.Server.{Event, serve_all}
use nano_mockidp.Server.Frame.Events.{AllAdmitted}
use nano_mockidp.Server.Revoked.{
  meanwhile, revoked_then, introspect_handler-stays_revoked, userinfo_handler-stays_revoked,
}
use nano_mockidp.Routes.EndSession.{EndSessionQuery, end_session_handler, hint_client}
use nano_mockidp.Routes.Logout.{end_session_handler-exact}
use nano_mockidp.Routes.Introspect.{IntrospectForm, introspect_handler, inactive}
use nano_mockidp.Routes.Revoke.{RevokeForm, revoke_handler}
use nano_mockidp.Routes.Userinfo.{bearer, userinfo_handler}
use nano_mockidp.Routes.TokenForm.{TokenForm}
use nano_mockidp.State.{issuer_check}
use nano_mockidp.Store.Data.{Expiring, RefreshEntry, Store}
use nano_mockidp.Tests.Fixture.{libraries, key, app, env}
use nano_mockidp.Tests.Stores.{store, store-IsWellFormed}
use nano_mockidp.Token.Jws.{sign, signing_input, verify_signature}
use nano_mockidp.Upstream.Seal.{same_bytes}
use nano_mockidp.Token.Verify.{verify_allow_expired}

abbrev claims : Claims
claims =
    ("iss", string "http://localhost:8080")
    ∷ ("azp", string "web")
    ∷ ("sid", string "s1")
    ∷ ("jti", string "j1")
    ∷ ("exp", json_u64 4600)
    ∷ []

abbrev header : Claims
header = ("alg", string "RS256") ∷ []

abbrev lib : Crates
lib = libraries header claims

-- The parts `encode [1]`, `encode [2]` and the signature, the bytes of the text before it.
abbrev token : String
unfolding sign signing_input
token = sign lib key claims "at+jwt"

accepted : verify_allow_expired lib app.key (issuer_check app) token ≡ ok claims
unfolding verify_allow_expired issuer_check verify_signature token get as_bytes same_bytes take
accepted = refl

abbrev form : RevokeForm
form = record {
  token = some token;
  token_type_hint = none;
  client_id = some "web";
  client_secret = none;
}

abbrev asked : IntrospectForm
asked = record { token = some token; client_id = some "web"; client_secret = none }

abbrev nobody : Headers
nobody name = none

abbrev holder : Headers
holder name = some ("Bearer " ⊕ token)

-- A client registers, and the sweeper runs.
abbrev events : List Event
events = Server.swept 999000000000 ∷ Server.registered env none ∷ Server.swept 1000000000000 ∷ []

abbrev no_form : Bytes → Result String TokenForm
no_form bs = err "no form"

-- `web` has no secret, and is let in.
lets_in :
    (s : Store)
    → get "web" s.clients ≡ get "web" store.clients
    → authenticate_client lib app nobody (some "web") none s ≡ (ok "web", s)
unfolding authenticate_client client_credentials check_client get
lets_in s same = rw same

has_jti : and_then (get "jti" claims) as_str ≡ some "j1"
unfolding get
has_jti = refl

has_exp : and_then (get "exp" claims) as_u64 ≡ some 4600
unfolding get
has_exp = refl

given : non_empty (some token) ≡ some token
unfolding token get as_bytes
given = refl

has_azp : and_then (get "azp" claims) as_str ≡ some "web"
unfolding get
has_azp = refl

not_refresh : get token store.refresh ≡ none
unfolding get token as_bytes
not_refresh = refl

held : bearer holder ≡ some token
unfolding bearer token strip_prefix get as_bytes trim
held = refl

fair : AllAdmitted (meanwhile token "j1" 4600 (env.now 0)) lib app events
fair = (ground arith, (tt, (ground arith, tt)))

abbrev later : Store
later = revoked_then lib no_form app nobody form store events

clients-later : get "web" later.clients ≡ get "web" store.clients
unfolding serve_all revoke_handler authenticate_client client_credentials check_client get
    verify_allow_expired issuer_check verify_signature token as_bytes same_bytes take insert remove
clients-later = refl

introspect_handler-stays_revoked_example :
    introspect_handler lib app env nobody asked later ≡ (ok inactive, later)
introspect_handler-stays_revoked_example =
    introspect_handler-stays_revoked lib no_form app token "j1" 4600 claims accepted has_jti has_exp
      nobody form "web" store store-IsWellFormed (lets_in store refl) given not_refresh has_azp
      events env fair nobody asked "web" given (lets_in later clients-later)

userinfo_handler-stays_revoked_example : (userinfo_handler lib app env holder later).status ≡ 401
userinfo_handler-stays_revoked_example =
    userinfo_handler-stays_revoked lib no_form app token "j1" 4600 claims accepted has_jti has_exp
      nobody form "web" store store-IsWellFormed (lets_in store refl) given not_refresh has_azp
      events env fair holder held

abbrev logout : EndSessionQuery
logout = record { post_logout_redirect_uri = none; state = none; id_token_hint = some token }

has_sid : and_then (get "sid" claims) as_str ≡ some "s1"
unfolding get
has_sid = refl

has_client : hint_client claims ≡ some "web"
unfolding get
has_client = refl

end_session_handler-exact_example :
    ((t : String) (e : Expiring RefreshEntry)
      → (get t (end_session_handler lib app logout store).1.refresh ≡ some e) ↔ (
          (get t store.refresh ≡ some e)
          × (e.value.sid ≡ "s1" → e.value.client_id ≡ "web" → e.value.offline ≡ true)))
    × ((end_session_handler lib app logout store).1
        ≡ record store { refresh = (end_session_handler lib app logout store).1.refresh })
end_session_handler-exact_example =
    end_session_handler-exact lib app logout store token "s1" "web" claims store-IsWellFormed given
      accepted has_sid has_client
