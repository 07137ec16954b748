-- ===== src/Tests/Cookies.antt =====
-- Applications of the theorems on sealed cookies (src/upstream/gate.rs): the gate's session of `u`.
use nano_mockidp.Base.{some, none, [], ◌∷◌, ◌≡◌, refl, ◌<◌}
use nano_mockidp.Base.Map.{get}
use nano_mockidp.Base.Bytes.{Bytes}
use nano_mockidp.Base.Result.{ok}
use nano_mockidp.Crates.{Crates}
use nano_mockidp.Json.{Claims, object, fields, string, json_u64}
use nano_mockidp.Tests.Fixture.{libraries, libraries-IsFaithful, key}
use nano_mockidp.Upstream.Opening.{IsSealed, opened-seal, opened_sound}
use nano_mockidp.Upstream.Seal.{GateSession, sealed_session, seal, opened, same_bytes}

abbrev session : GateSession
session = record { sub = "u"; email = none; claims = []; exp = 2000 }

abbrev written : Claims
written = ("sub", string "u") ∷ ("exp", json_u64 2000) ∷ []

abbrev lib : Crates
lib = libraries [] written

abbrev secret : Bytes
secret = 7 ∷ []

reads : lib.from_slice (lib.to_vec (sealed_session.write session)) ≡ ok (object (fields written))
unfolding same_bytes get
reads = refl

is_session : sealed_session.read (object (fields written)) ≡ some session
unfolding get
is_session = refl

opens :
    opened lib sealed_session secret (seal lib sealed_session secret session) 1999 ≡ some session
opens =
    opened-seal lib key sealed_session secret session (object (fields written)) 1999
      (libraries-IsFaithful [] written) reads is_session

opened_sound_example :
    IsSealed lib sealed_session secret (seal lib sealed_session secret session) session
    × (1999 < 2000)
opened_sound_example =
    opened_sound lib sealed_session secret (seal lib sealed_session secret session) 1999 session
      opens
