-- ===== src/Tests/Servers.antt =====
-- Applications of the theorems on the settings, the start and the whole server: a gate in front of one
-- client, a published key, and a code that is used twice.
use nano_mockidp.Base.{String, true, false, none, some, List, [], ◌∷◌, ◌≡◌, refl, any}
use nano_mockidp.Base.Map.{get}
use nano_mockidp.Base.Result.{Result, ok, err}
use nano_mockidp.Config.{Config}
use nano_mockidp.Config.GateSound.{IsAbsolute}
use nano_mockidp.Startup.Defaults.{start_defaults}
use nano_mockidp.Config.Load.{from_map}
use nano_mockidp.Config.Parse.{Readers, Settings}
use nano_mockidp.Config.Sound.{IsSound, from_map_sound}
use nano_mockidp.Crates.{seed, random}
use nano_mockidp.Json.{null}
use nano_mockidp.Keys.{PrivateKey, from_private, jwks}
use nano_mockidp.Keys.Published.{from_private_published}
use nano_mockidp.Router.{Endpoint, router}
use nano_mockidp.Router.Mounted.{places, expected, is_exposed, router_mounts}
use nano_mockidp.Server
use nano_mockidp.Server.{Event, serve_all}
use nano_mockidp.Server.Kept.{IsKept}
use nano_mockidp.Server.Vouched.{OneSignsIn}
use nano_mockidp.Startup.{App, Machine, start}
use nano_mockidp.Startup.Built.{serve_all-start}
use nano_mockidp.Store.Data.{Expiring, CodeEntry, empty}
use nano_mockidp.Store.Invariant.{IsWellFormed-empty}
use nano_mockidp.Store.Refinement.{
  Call, put_code, get_code, clean, Answer, run, promised, in_order, run-promised,
}
use nano_mockidp.Store.Refinement
use nano_mockidp.Tests.Fixture.{some_url, lib, env, app, decode-encode_unary}
use nano_mockidp.Upstream.Jwks.{parse_jwks}
use nano_mockidp.Upstream.Seal.{same_bytes}
use nano_mockidp.Upstream.Wire.{Wire}

abbrev pub readers : Readers
readers = record {
  clients = λ text.
      ok (record { client_id = "web"; client_secret = some "s"; redirect_uris = none } ∷ []);
  int_error = λ bits text. "invalid digit";
}

abbrev pub settings : Settings
settings =
    ("PORT", " 8081 ")
    ∷ ("ISSUER_URL", "http://localhost:8081/")
    ∷ ("CLIENTS", "[…]")
    ∷ ("UPSTREAM_ISSUER", "https://idp/")
    ∷ ("UPSTREAM_CLIENT_ID", "gate")
    ∷ ("UPSTREAM_SCOPE", "email")
    ∷ ("SIGNING_KEY_SEED", "x")
    ∷ []

abbrev private : PrivateKey
private = record {
  modulus = 2 ∷ [];
  exponent = 1 ∷ [];
  public_der = 3 ∷ 255 ∷ [];
  pkcs1_pem = "";
  signer = λ bs. bs;
  verifier = same_bytes;
}

abbrev pub machine : Machine
machine = record {
  keys = record {
    generated = private;
    from_rng_seed = λ bs. private;
    from_pkcs1_pem = λ text. err "no PEM";
    from_pkcs8_pem = λ text. err "no PEM";
    read_to_string = λ path. err "no file";
  };
  read = λ path. err "no file";
  from_pem_bundle = λ bs. ok [];
  build_client = λ certs. none;
  gate_key = 7 ∷ [];
  filter_error = λ level. none;
}

abbrev config_of : Result String Config → Config
config_of (ok config) = config
config_of (err e) = app.config

abbrev config : Config
config = config_of (from_map lib readers settings)

abbrev app_of : Result String App → App
app_of (ok a) = a
app_of (err e) = record {
  state = app;
  store = empty;
  caches = record { meta = none; meta_err = none; keys = [] };
}

abbrev pub server : App
server = app_of (start lib readers machine settings)

reads : from_map lib readers settings ≡ ok config
unfolding from_map get
reads = refl

pub starts : start lib readers machine settings ≡ ok server
unfolding start get
starts = refl

from_map_sound_example : IsSound config
from_map_sound_example = from_map_sound lib readers settings config reads

abbrev events : List Event
events =
    Server.registered env none
    ∷ Server.token_asked env "http://localhost:8081" (λ h. none) []
    ∷ Server.swept 5
    ∷ []

serve_all-start_example :
    IsKept
      (OneSignsIn lib server.state events)
      server.state.config
      (serve_all lib (λ bs. err "no form") server.state events server.store)
serve_all-start_example =
    serve_all-start lib readers machine settings server (λ bs. err "no form") events starts

abbrev wire : Wire
wire = record {
  status_text = λ n. "";
  read_json = λ bs. ok null;
  read_metadata = λ bs. err "no document";
  public_key = λ n e. some same_bytes;
  is_header_value = λ s. true;
}

from_private_published_example :
    get
      (from_private lib private seed).kid
      (parse_jwks lib wire (jwks (from_private lib private seed)))
    ≡ some same_bytes
unfolding from_private
from_private_published_example =
    from_private_published lib wire private seed (decode-encode_unary (2 ∷ []))
      (decode-encode_unary (1 ∷ [])) refl

router_mounts_example :
    ((e : Endpoint) → places e (router app) ≡ expected app e)
    × (any is_exposed (router app) ≡ false)
router_mounts_example = router_mounts app

abbrev entry : Expiring CodeEntry
entry = record {
  value = record {
    req = record {
      client_id = "web";
      redirect_uri = "https://app/cb";
      state = none;
      scope = none;
      nonce = none;
      code_challenge = none;
      resources = [];
    };
    claims = [];
    auth_time = 1;
    sid = "sid";
    expires_in = none;
    upstream_sub = none;
    upstream_email = none;
  };
  expires_at = 60;
}

abbrev calls : List Call
calls = put_code "c" entry ∷ clean 5 ∷ get_code 6 "c" ∷ get_code 7 "c" ∷ []

calls-in_order : in_order 0 calls ≡ true
unfolding in_order
calls-in_order = refl

run-promised_example :
    run calls empty
    ≡ Refinement.done
      ∷ Refinement.done
      ∷ Refinement.code (some entry.value)
      ∷ Refinement.code none
      ∷ []
unfolding promised get
run-promised_example = run-promised 0 calls empty IsWellFormed-empty calls-in_order

absolute : IsAbsolute (some_url "http://localhost:8080")
absolute = record { has_host = refl; is_base = refl; no_query = refl; no_fragment = refl }

start_defaults_example :
    (a : App) × (start lib readers machine [] ≡ ok a)
    × (a.state.config.port ≡ 8080)
    × (a.state.key.source ≡ random)
    × (a.state.gate ≡ none)
    × (a.store ≡ empty)
start_defaults_example =
    start_defaults lib readers machine (some_url "http://localhost:8080") refl absolute refl
