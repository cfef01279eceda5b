-- ===== src/Service/Tests.antt =====
-- A controller of services over trees that are lists, and the theorems at runs of it.
use lslc_core.Common.{
  String, List, [], ◌∷◌, ◌++◌, ◌≡◌, refl, none, some, ◌⊎◌, ◌==◌, if◌then◌else◌, sym, ◌∙◌, eq_iff,
}
use lslc_core.Common.Int.{pos}
use lslc_core.Json.{end, field, text}
use lslc_core.Tree.{UniqueTree}
use lslc_core.Tree.Model.{keyed_list, timed_list}
use lslc_core.Resource.{Protocol}
use lslc_core.Service.{Service}
use lslc_core.Service.Memory.{operator, probe, get as get_stored, delete as delete_stored}
use lslc_core.Service.Memory.Laws.{memory_storage, is_zero-operator}
use lslc_core.Service.Controller.{Env, Controller, Notice, deleted, repeat, clean_expired}
use lslc_core.Service.Registry.{Call, create, replace, tick, run, answers, History}
use lslc_core.Service.Registry.Refines.{service_run_refines}
use lslc_core.Service.Api.{post, put, delete_service, parsed, done}
use lslc_core.Service.Api.Outcomes.{
  Creates, Refuses, Replaces, service_post_outcome, service_put_outcome, delete_service_outcome,
}
use lslc_core.Service.Controller.Outcomes.{view, IsKeyed}

abbrev services_tree : UniqueTree Service operator
services_tree = keyed_list (λ s. s.id) operator is_zero-operator

abbrev world : Env
world = record { storage = memory_storage services_tree; exp_tree = timed_list }

abbrev start : Controller world
start = record {
  storage = [];
  api_location = "/sc";
  listeners = 2;
  start_time = 1000;
  counter = 0;
  exp_sid = [];
  notices = [];
}

abbrev http : Protocol
http = record {
  type = "REST";
  endpoint = field "url" (text "http://localhost") end;
  methods = [];
  content_types = [];
}

abbrev broker : String → Service
broker id = record {
  id = id;
  url = "";
  type = "";
  name = "broker";
  description = "";
  meta = end;
  protocols = http ∷ [];
  representation = end;
  ttl = pos 60;
  created = 0;
  updated = 0;
  expires = none;
}

-- The service is stored and has a node in the expiry index.
abbrev one : Controller world
one = record start {
  storage = record (broker "a") { expires = some 60000005000 } ∷ [];
  exp_sid = (record { key = 60000005000; value = "a" }) ∷ [];
}

keyed : (c : Controller world) → IsKeyed world c
keyed c id s h =
    let zero_ = services_tree.find_matches (probe id) s c.storage h in
    sym ((eq_iff id s.id).0 (sym (is_zero-operator (probe id) s) ∙ zero_))

service_post_outcome_example :
    Creates world start 5000 (broker "") (post world start 5000 (parsed (broker "")))
    ⊎ Refuses world start (post world start 5000 (parsed (broker "")))
service_post_outcome_example = service_post_outcome world start 5000 (broker "")

service_put_outcome_example :
    Replaces world one 6000 "a" (broker "") (put world one 6000 "a" (parsed (broker "")))
    ⊎ (Creates world one 6000 (broker "a") (put world one 6000 "a" (parsed (broker "")))
        ⊎ Refuses world one (put world one 6000 "a" (parsed (broker ""))))
service_put_outcome_example = service_put_outcome world one 6000 "a" (broker "") (keyed one)

delete_service_outcome_example :
    (((delete_service world one "a").1 ≡ done)
      × ((old : Service) × (view world one "a" ≡ some old)
          × ((delete_service world one "a").0.notices ≡ [] ++ repeat 2 (deleted old.id)))
      × ((j : String)
          → view world (delete_service world one "a").0 j
            ≡ (if "a" == j then none else view world one j)))
    ⊎ Refuses world one (delete_service world one "a")
delete_service_outcome_example = delete_service_outcome world one "a"

-- A registration, its renewal, and a tick after its end.
abbrev calls : List Call
calls = create 5000 (broker "a") ∷ replace 6000 "a" (broker "a") ∷ tick 99000000000000 ∷ []

service_run_refines_example :
    (ns : List Notice) × History 2
      (view world start)
      calls
      (answers world start calls)
      (view world (run world start calls))
      ns
    × ((run world start calls).notices ≡ [] ++ ns)
service_run_refines_example =
    service_run_refines world start calls (keyed start) (λ m i. elim i [ ])

-- The tick removes the service, and tells nobody.
expired :
    ((clean_expired world one 99000000000000).storage ≡ [])
    × ((clean_expired world one 99000000000000).notices ≡ [])
unfolding clean_expired get_stored operator delete_stored
expired = (refl, refl)
