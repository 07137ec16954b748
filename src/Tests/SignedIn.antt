-- ===== src/Tests/SignedIn.antt =====
-- Application of the theorem on a login behind the gate (src/upstream/mod.rs and
-- src/routes/authorize.rs): `u` is signed in upstream, and logs in as `alice`.
use nano_mockidp.Base.{◌<◌, String, none, some, List, [], ◌∷◌, ◌≡◌, refl}
use nano_mockidp.Base.Map.{get, insert, remove}
use nano_mockidp.Base.Bytes.{as_bytes}
use nano_mockidp.Base.Text.{◌⊕◌, split_by, split_once, trim}
use nano_mockidp.Crates.{Crates, ReadsBack}
use nano_mockidp.Json.{Claims, string, json_u64}
use nano_mockidp.Routes.Authorize.{authorize_post}
use nano_mockidp.State.{AppState}
use nano_mockidp.Store.Data.{Expiring, CodeEntry, expiring, unix_secs}
use nano_mockidp.Store.Ops.{is_disabled, sub_of}
use nano_mockidp.Tests.Fixture
use nano_mockidp.Tests.Fixture.{libraries, libraries-IsFaithful, key}
use nano_mockidp.Tests.Logins.{challenging, asked, login_form}
use nano_mockidp.Tests.Stores.{store}
use nano_mockidp.Tests.Upstream
use nano_mockidp.Tests.Upstream.{gate, wire, header}
use nano_mockidp.Token.Issue.{add_u64}
use nano_mockidp.Upstream.Gate.{cookie_name, cookie_value}
use nano_mockidp.Upstream.Login.{new_session, email_of, forwarded}
use nano_mockidp.Upstream.Seal.{sealed_session, session_entries, seal, same_bytes}
use nano_mockidp.Upstream.SignedIn.{signed_in_login}

abbrev session_claims : Claims
session_claims = ("sub", string "u") ∷ ("exp", json_u64 1100) ∷ []

abbrev lib : Crates
lib = libraries header session_claims

abbrev gated_app : AppState
gated_app = record Fixture.app { gate = some gate }

abbrev cookies : List String
cookies =
    (cookie_name
      ⊕ "="
      ⊕ seal lib sealed_session gate.key (new_session lib wire gate Upstream.env "u" []))
    ∷ []

presented :
    cookie_value cookies cookie_name
    ≡ some (seal lib sealed_session gate.key (new_session lib wire gate Upstream.env "u" []))
unfolding cookie_value seal as_bytes trim split_by split_once get unix_secs forwarded
presented = refl

readable : ReadsBack lib (session_entries (new_session lib wire gate Upstream.env "u" []))
unfolding get unix_secs same_bytes forwarded
readable = record { copy = session_claims; read = refl; same = λ k. refl }

abbrev entry : Expiring CodeEntry
entry =
    expiring
      (record {
        req = asked;
        claims = ("sub", string "alice") ∷ [];
        auth_time = 1000;
        sid = "r1";
        expires_in = none;
        upstream_sub = some "u";
        upstream_email = none;
      })
      300 1000000000000

absent : get "r0" store.codes ≡ none
unfolding get
absent = refl

stored :
    get "r0"
      (authorize_post lib gated_app Fixture.env challenging none cookies login_form store).1.codes
    ≡ some entry
unfolding authorize_post get insert remove trim is_disabled sub_of cookie_value seal as_bytes
    split_by split_once unix_secs forwarded
stored = refl

signed_in_login_example :
    (unix_secs (Fixture.env.now 2) < add_u64 (unix_secs (Upstream.env.now 2)) gate.cfg.session_ttl)
    × (entry.value.upstream_sub ≡ some "u")
    × (entry.value.upstream_email ≡ email_of lib wire gate Upstream.env [])
signed_in_login_example =
    signed_in_login lib key wire gate Upstream.env Fixture.env
      (libraries-IsFaithful header session_claims) gated_app refl "u" [] cookies presented readable
      challenging none login_form store entry absent stored
