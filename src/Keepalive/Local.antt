-- ===== src/Keepalive/Local.antt =====
-- The client of a catalog in the same program:
-- src/linksmart.eu/lc/core/catalog/resource/localclient.go. Its methods call the controller.
use lslc_core.Common.{ℕ, result_map}
use lslc_core.Resource.{Device}
use lslc_core.Resource.State.{Env, Controller}
use lslc_core.Resource.Controller.{add, update}
use lslc_core.Keepalive.{Client}

-- LocalCatalogClient, for the registration of one device: the update is made at the first time, the
-- addition at the second.
unfoldable pub local_client : Env → ℕ → ℕ → Device → Client
local_client e t u d = record {
  State = Controller e;
  update = λ c. update e c t d.id d;
  add = λ c. let (c', r) = add e c u d in (c', result_map (λ id. tt) r);
}
