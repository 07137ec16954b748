-- ===== src/Tests/Grants.antt =====
-- Applications of the theorems on the code grant and the refresh grant (src/routes/token.rs): the
-- client `web` exchanges the code `c1`, and refreshes with the token `t1`.
use nano_mockidp.Base.{String, true, false, none, some, [], ◌∷◌, ◌≡◌, ◌≢◌, refl, arith}
use nano_mockidp.Base.Map.{get, remove}
use nano_mockidp.Base.Result.{ok, err}
use nano_mockidp.Http.{Response, invalid_grant}
use nano_mockidp.Routes.Exchange.{MayExchange, HandsOut, code_grant-exchanged, code_grant_sound}
use nano_mockidp.Routes.Grants.{code_grant, refresh_grant}
use nano_mockidp.Routes.Rotation.{
  IsUsable, Renewal, refresh_grant-rotates, refresh_grant_disabled, refresh_grant_sound,
}
use nano_mockidp.Routes.TokenForm.{TokenForm, disabled_error}
use nano_mockidp.Store.Data.{Expiring, CodeEntry, RefreshEntry, Store}
use nano_mockidp.Store.Ops.{sub_of, is_disabled}
use nano_mockidp.Tests.Fixture.{lib, app, env}
use nano_mockidp.Tests.Stores.{store, code_entry, refresh_entry}

abbrev pub form : TokenForm
form = record {
  grant_type = none;
  code = some "c1";
  redirect_uri = some "http://app/cb";
  code_verifier = none;
  refresh_token = some "t1";
  client_id = some "web";
  client_secret = none;
  scope = none;
  audience = none;
  username = none;
}

may_exchange : MayExchange lib app env "iss" "web" form [] store "c1" code_entry
unfolding get is_disabled sub_of
may_exchange = record {
  presented = refl;
  stored = refl;
  live = ground arith;
  same_client = refl;
  same_redirect = refl;
  pkce = λ challenge asked. cc;
  enabled = λ sub named. refl;
}

code_grant-exchanged_example :
    HandsOut lib app env "iss" "web" form [] store "c1" code_entry.value
      (code_grant lib app env "iss" "web" form [] store)
code_grant-exchanged_example =
    code_grant-exchanged lib app env "iss" "web" form [] store "c1" code_entry may_exchange

is_usable : IsUsable lib app env "iss" "web" form [] store "t1" (refresh_entry false)
unfolding get is_disabled sub_of
is_usable = record {
  presented = refl;
  stored = refl;
  live = ground arith;
  enabled = λ sub named. refl;
}

refresh_grant-rotates_example :
    (◌≡◌ {A = String} "web" "web"
      → Renewal lib app env "iss" "web" form [] store "t1"
          (refresh_entry false).value
          (refresh_grant lib app env "iss" "web" form [] store))
    × (◌≢◌ {A = String} "web" "web"
        → refresh_grant lib app env "iss" "web" form [] store ≡ (
          err (invalid_grant "refresh token was issued to a different client"),
          record store { refresh = remove "t1" store.refresh },
        ))
refresh_grant-rotates_example =
    refresh_grant-rotates lib app env "iss" "web" form [] store (ground arith) "t1"
      (refresh_entry false) is_usable

abbrev without_alice : Store
without_alice = record store {
  subjects = ("alice", record { claims = none; disabled = true }) ∷ [];
}

refresh_grant_disabled_example :
    refresh_grant lib app env "iss" "web" form [] without_alice
    ≡ (err (disabled_error "alice"), without_alice)
unfolding get is_disabled sub_of
refresh_grant_disabled_example =
    refresh_grant_disabled lib app env "iss" "web" form [] without_alice "t1" (refresh_entry false)
      "alice" refl refl (ground arith) refl refl

exchange_answers : (r : Response) × ((code_grant lib app env "iss" "web" form [] store).0 ≡ ok r)
exchange_answers = (_, code_grant-exchanged_example.answer)

code_grant_sound_example :
    (code : String) × (e : Expiring CodeEntry) × MayExchange lib app env "iss" "web" form [] store
      code e
code_grant_sound_example =
    code_grant_sound lib app env "iss" "web" form [] store exchange_answers.0 exchange_answers.1

refresh_answers : (r : Response) × ((refresh_grant lib app env "iss" "web" form [] store).0 ≡ ok r)
refresh_answers = (_, (refresh_grant-rotates_example.0 refl).answer)

refresh_grant_sound_example :
    (token : String) × (e : Expiring RefreshEntry) × IsUsable lib app env "iss" "web" form [] store
      token e
    × (e.value.client_id ≡ "web")
refresh_grant_sound_example =
    refresh_grant_sound lib app env "iss" "web" form [] store (ground arith) refresh_answers.0
      refresh_answers.1
