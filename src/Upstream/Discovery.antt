-- ===== src/Upstream/Discovery.antt =====
-- The caches of src/upstream/client.rs: what is fetched once, and which key an answer yields.
use nano_mockidp.Base.{◌+◌, ◌<◌, String, none, ◌≡◌, arith}
use nano_mockidp.Base.Result.{ok, err}
use nano_mockidp.Config.{UpstreamConfig}
use nano_mockidp.Upstream.Client.{metadata, recent_failure, discovery_retry}
use nano_mockidp.Upstream.Wire.{Metadata, Wire, Caches, Moment}

module _ (wire : Wire) (cfg : UpstreamConfig) where
  -- Once a discovery document has been read, it is not fetched again: every later call returns it and
  -- leaves the caches as they are, whatever the upstream answers then.
  metadata_once :
      (at at' : Moment) (c : Caches) (m : Metadata)
      → (metadata wire cfg at c).0 ≡ ok m
      → metadata wire cfg at' (metadata wire cfg at c).1 ≡ (ok m, (metadata wire cfg at c).1)
  unfolding metadata
  metadata_once at at' c m h = ground arith

  -- A discovery that has just failed, at a time `t`, is answered from the cache until ten seconds
  -- later, if no other task has read the document in the meantime.
  pub metadata_backs_off :
      (at at' : Moment) (c : Caches) (e : String)
      → c.meta ≡ none
      → recent_failure at.now c.meta_err ≡ none
      → (at.meanwhile c).meta ≡ none
      → (metadata wire cfg at c).0 ≡ err e
      → at'.now < at.later + discovery_retry
      → metadata wire cfg at' (metadata wire cfg at c).1 ≡ (err e, (metadata wire cfg at c).1)
  unfolding metadata
  metadata_backs_off at at' c e miss due quiet failed soon = ground arith
