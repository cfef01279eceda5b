-- ===== src/Resource/Tests.antt =====
-- A controller over trees that are lists, runs of it, and the theorems about it at these runs.
use lslc_core.Common.{
  ℕ, String, true, ◌≡◌, refl, List, [], ◌∷◌, none, some, ok, err, ◌>>=◌, length, arith, inr, ◌⊎◌,
}
use lslc_core.Common.Int.{pos}
use lslc_core.Common.Words.{add_seconds}
use lslc_core.Json.{end, field, text}
use lslc_core.Tree.{UniqueTree}
use lslc_core.Tree.Nodes.{string_keys}
use lslc_core.Tree.Model.{keyed_list, timed_list}
use lslc_core.Resource.{Device, Resource, Protocol, CatalogError, simplify, simplify_all}
use lslc_core.Resource.State.{Env, Controller}
use lslc_core.Resource.Memory.{operator}
use lslc_core.Resource.Memory.Laws.{memory_storage, memory-IsReliable, is_zero-operator}
use lslc_core.Resource.Indices.Rids.{is_zero-string_keys}
use lslc_core.Common.{inl, sym, ◌∙◌, ap, subst, eq_iff, In, find_first_passes}
use lslc_core.Tree.{is_zero}
use lslc_core.Resource.Memory.{probe}
use lslc_core.Resource.Indices.Sound.{IsDated}
use lslc_core.Resource.Indices.Filled.{IsCovered}
use lslc_core.Resource.Controller.Placement.{Holds, resource_url}
use lslc_core.Resource.Indices.Start.{
  fresh, fresh-IsIndexed, new_controller, new_controller-IsIndexed,
}
use lslc_core.Resource.Indices.Sound.{IsIndexed, view}
use lslc_core.Common.Words.{concat}
use lslc_core.Common.Texts.{contains, has_prefix, count_of, has_suffix}
use lslc_core.Json.{size}
use lslc_core.Tree.Model.{insert_time}
use lslc_core.Resource.{validate, validate_resource}
use lslc_core.Resource.State.{add_indices}
use lslc_core.Resource.Sorting.{sort}
use lslc_core.Resource.Memory.{add as store, get as get_stored_device, delete as delete_stored}
use lslc_core.Resource.Controller.Effects.{Unchanged, AddOutcome, add_outcome}
use lslc_core.Resource.Controller.Changes.{UpdateOutcome, update_outcome, delete_outcome}
use lslc_core.Resource.Controller.Expired.{ticks, clean_expired_keeps}
use lslc_core.Resource.Controller.Ties.{tie_never_expires}
use lslc_core.Resource.Indices.Sound.{without}
use lslc_core.Resource.Reads.{get_resource, filter, matching, matches_device, paginate}
use lslc_core.Resource.Reads.Panics.{resources_path_panics}
use lslc_core.Resource.Encode.{simple_device_json}
use lslc_core.PathFilter.{match_object, panicked}
use lslc_core.Resource.Reads.Lookup.{Answer, get_resource-Answer}
use lslc_core.Resource.Reads.Scan.{filter-eq-matching}
use lslc_core.Resource.Api.{post, put, delete_device, get_device, parsed, one_device, done}
use lslc_core.Resource.Api.Outcomes.{
  Creates, Refuses, Replaces, is_success, post_outcome, put_outcome, put_then_get,
  delete_device_outcome,
}
use lslc_core.Resource.Controller.{add, update, delete, clean_expired}
use lslc_core.Resource.Controller.Run.{Call, create, step, run, answers, run-IsIndexed}
use lslc_core.Resource.Registry.{History}
use lslc_core.Resource.Registry.Refines.{run_refines}

abbrev devices_tree : UniqueTree Device operator
devices_tree = keyed_list (λ d. d.id) operator is_zero-operator

abbrev world : Env
world = record {
  storage = memory_storage devices_tree;
  rid_tree = keyed_list (λ m. m.key) string_keys is_zero-string_keys;
  exp_tree = timed_list;
  url_error = λ s. none;
  format = record {
    time_text = λ t. "time";
    number_text = λ n. "number";
    print_composite = λ j. "[]";
  };
}

abbrev start : Controller world
start = fresh world [] "/rc" 1000

abbrev http : Protocol
http = record {
  type = "REST";
  endpoint = field "url" (text "http://localhost") end;
  methods = [];
  content_types = [];
}

abbrev sensor : String → Resource
sensor id = record {
  id = id;
  url = "";
  type = "";
  name = "";
  meta = end;
  protocols = http ∷ [];
  representation = end;
  device = "";
}

abbrev lamp : String → ℕ → List Resource → Device
lamp id ttl l = record {
  id = id;
  url = "";
  type = "";
  name = "lamp";
  meta = end;
  description = "";
  ttl = ttl;
  created = 0;
  updated = 0;
  expires = none;
  resources = l;
}

start-IsIndexed : IsIndexed world start
start-IsIndexed = fresh-IsIndexed world [] "/rc" 1000 (λ id. refl)

-- Two devices that are registered at the same time with the same TTL.
abbrev two_calls : List Call
two_calls =
    create 5000 (lamp "a" 60 (sensor "a/x" ∷ []))
    ∷ create 5000 (lamp "b" 60 (sensor "b/x" ∷ []))
    ∷ []

abbrev two : Controller world
two = run world start two_calls

run-IsIndexed_example : IsIndexed world (run world start two_calls)
run-IsIndexed_example = run-IsIndexed world start two_calls start-IsIndexed

run_refines_example :
    History (view world start) two_calls (answers world start two_calls) (view world two)
run_refines_example = run_refines world start two_calls start-IsIndexed

-- What the catalog makes of the two registrations.
abbrev placed : String → String → Resource
placed id device = record {
  id = id;
  url = concat ("/rc/resources/" ∷ id ∷ []);
  type = "Resource";
  name = "";
  meta = end;
  protocols = http ∷ [];
  representation = end;
  device = concat ("/rc/devices/" ∷ device ∷ []);
}

abbrev stored : String → Device
stored id = record {
  id = id;
  url = concat ("/rc/devices/" ∷ id ∷ []);
  type = "Device";
  name = "lamp";
  meta = end;
  description = "";
  ttl = 60;
  created = 5000;
  updated = 5000;
  expires = some 60000005000;
  resources = placed (concat (id ∷ "/x" ∷ [])) id ∷ [];
}

two-stored :
    (view world two "a" ≡ some (stored "a"))
    × (view world two "b" ≡ some (stored "b"))
    × (two.exp_did
        ≡ (record { key = 60000005000; value = "b" })
          ∷ (record { key = 60000005000; value = "a" })
          ∷ [])
unfolding run step add validate contains has_prefix validate_resource count_of has_suffix size store
    add_indices sort string_keys operator insert_time add_seconds
two-stored = (refl, refl, refl)

two-IsIndexed : IsIndexed world two
two-IsIndexed = run-IsIndexed world start two_calls start-IsIndexed

add_outcome_example :
    AddOutcome world start 5000
      (lamp "a" 60 (sensor "a/x" ∷ []))
      (add world start 5000 (lamp "a" 60 (sensor "a/x" ∷ [])))
add_outcome_example = add_outcome world start 5000 (lamp "a" 60 (sensor "a/x" ∷ []))

update_outcome_example :
    UpdateOutcome world two 9000 "a"
      (lamp "" 0 (sensor "a/y" ∷ []))
      (update world two 9000 "a" (lamp "" 0 (sensor "a/y" ∷ [])))
update_outcome_example =
    update_outcome world two 9000 "a" (lamp "" 0 (sensor "a/y" ∷ [])) two-IsIndexed

delete_outcome_example :
    (((delete world two "a").1 ≡ ok tt)
      × ((old : Device) × (view world two "a" ≡ some old))
      × ((j : String) → view world (delete world two "a").0 j ≡ without "a" (view world two) j))
    ⊎ ((x : CatalogError) × ((delete world two "a").1 ≡ err x)
        × Unchanged world two (delete world two "a").0)
delete_outcome_example = delete_outcome world two "a"

clean_expired_keeps_example :
    view world (clean_expired world two 60000004999) "a" ≡ some (stored "a")
clean_expired_keeps_example =
    clean_expired_keeps world two 60000004999 "a" (stored "a") two-IsIndexed (two-stored.0)
      (inr (60000005000, refl, omega arith))

deleted : (delete world two "a").1 ≡ ok tt
unfolding run step add validate contains has_prefix validate_resource count_of has_suffix size store
    add_indices sort string_keys operator insert_time add_seconds delete get_stored_device
    delete_stored
deleted = refl

tie_never_expires_example :
    view world (ticks world (delete world two "a").0 (99000000000000 ∷ [])) "b" ≡ some (stored "b")
tie_never_expires_example =
    tie_never_expires world two two-IsIndexed "a" "b" (stored "a") (stored "b") 60000005000
      (record { key = 60000005000; value = "a" }) (99000000000000 ∷ []) two-stored.0 two-stored.1
      refl refl refl refl (rw two-stored.2 refl) deleted

get_resource-Answer_example : Answer world two two-IsIndexed "a/x" (get_resource world two "a/x")
get_resource-Answer_example = get_resource-Answer world two two-IsIndexed "a/x"

two_devices : (length two.storage ≡ 2)
unfolding run step add validate contains has_prefix validate_resource count_of has_suffix size store
    add_indices sort string_keys operator insert_time add_seconds
two_devices = refl

filter-eq-matching_example : filter world 1 two "name" "equals" "lamp" (pos 1) (pos 10) ≡ (
    matching (matches_device world "name" "equals" "lamp") (simplify_all two.storage) >>= λ found.
    paginate found (pos 1) (pos 10))
filter-eq-matching_example =
    filter-eq-matching world two (memory-IsReliable devices_tree two.storage) 1 "name" "equals"
      "lamp" (pos 1) (pos 10) (omega (arith, two_devices))

post_outcome_example :
    Creates world "/rc" two 9000
      (lamp "" 0 (sensor "c/x" ∷ []))
      (post world "/rc" two 9000 (parsed (lamp "" 0 (sensor "c/x" ∷ []))))
    ⊎ Refuses world "/rc" two (post world "/rc" two 9000 (parsed (lamp "" 0 (sensor "c/x" ∷ []))))
post_outcome_example = post_outcome world "/rc" two 9000 (lamp "" 0 (sensor "c/x" ∷ []))

put_outcome_example :
    Replaces world "/rc" two 9000 "c"
      (lamp "" 0 (sensor "c/x" ∷ []))
      (put world "/rc" two 9000 "c" (parsed (lamp "" 0 (sensor "c/x" ∷ []))))
    ⊎ (Creates world "/rc" two 9000
          (lamp "c" 0 (sensor "c/x" ∷ []))
          (put world "/rc" two 9000 "c" (parsed (lamp "" 0 (sensor "c/x" ∷ []))))
        ⊎ Refuses world "/rc" two
            (put world "/rc" two 9000 "c" (parsed (lamp "" 0 (sensor "c/x" ∷ [])))))
put_outcome_example =
    put_outcome world "/rc" two 9000 "c" (lamp "" 0 (sensor "c/x" ∷ [])) two-IsIndexed

put_succeeds :
    is_success (put world "/rc" two 9000 "c" (parsed (lamp "" 0 (sensor "c/x" ∷ [])))).1 ≡ true
unfolding run step add validate contains has_prefix validate_resource count_of has_suffix size store
    add_indices sort string_keys operator insert_time add_seconds put update get_stored_device
put_succeeds = refl

put_then_get_example :
    (d' : Device) × (get_device world
        (put world "/rc" two 9000 "c" (parsed (lamp "" 0 (sensor "c/x" ∷ [])))).0
        "c"
      ≡ one_device (simplify d'))
    × (view world (put world "/rc" two 9000 "c" (parsed (lamp "" 0 (sensor "c/x" ∷ [])))).0 "c"
        ≡ some d')
    × (d'.id ≡ "c")
    × (d'.name ≡ "lamp")
    × (d'.description ≡ "")
    × (d'.meta ≡ end)
    × (d'.ttl ≡ 0)
    × (d'.updated ≡ 9000)
    × Holds (resource_url world two) d'.url (sensor "c/x" ∷ []) d'.resources
put_then_get_example =
    put_then_get world "/rc" two 9000 "c" (lamp "" 0 (sensor "c/x" ∷ [])) two-IsIndexed refl
      put_succeeds
      (memory-IsReliable devices_tree
        (put world "/rc" two 9000 "c" (parsed (lamp "" 0 (sensor "c/x" ∷ [])))).0.storage)

delete_device_outcome_example :
    (((delete_device world two "a").1 ≡ done)
      × ((old : Device) × (view world two "a" ≡ some old))
      × ((j : String)
          → view world (delete_device world two "a").0 j ≡ without "a" (view world two) j))
    ⊎ Refuses world "/rc" two (delete_device world two "a")
delete_device_outcome_example = delete_device_outcome world "/rc" two "a"

resources_path_panics_example :
    match_object world.format.print_composite
      (some (simple_device_json world.format (simplify (stored "a"))))
      ("resources" ∷ "x" ∷ [])
      "equals"
      "1"
    ≡ err panicked
resources_path_panics_example =
    resources_path_panics world.format "equals" "1" (stored "a") (placed "a/x" "a") [] "x" [] refl

-- A storage that held a device before the start.
abbrev seed : List Device
seed = stored "a" ∷ []

seed_keyed : (id : String) (d : Device) → world.storage.view seed id ≡ some d → d.id ≡ id
seed_keyed id d h =
    let zero_ = devices_tree.find_matches (probe id) d seed h in
    sym ((eq_iff id d.id).0 (sym (is_zero-operator (probe id) d) ∙ zero_))

seed-IsDated : (id : String) (d : Device) → world.storage.view seed id ≡ some d → IsDated d
seed-IsDated id d h timed =
    elim (find_first_passes (λ (y : Device). is_zero (operator (probe id) y)) seed d h).1 [
      | inl same ↦ (60000005000, ap (λ (y : Device). y.expires) same)
      | inr i ↦ elim i [ ]
    ]

seed_listed : (d : Device) → In d seed → world.storage.view seed d.id ≡ some d
unfolding operator
seed_listed d (inl same) =
    subst (λ (y : Device). world.storage.view seed y.id ≡ some y) (sym same) refl
seed_listed d (inr i) = elim i [ ]

new_controller-IsIndexed_example :
    ((new_controller world 1 seed "/rc" 7000).1 ≡ ok tt)
    × IsIndexed world (new_controller world 1 seed "/rc" 7000).0
    × ((new_controller world 1 seed "/rc" 7000).0.storage ≡ seed)
    × ((d : Device)
        → In d seed
        → IsCovered world
            (new_controller world 1 seed "/rc" 7000).0.rid_did
            (new_controller world 1 seed "/rc" 7000).0.exp_did
            d)
new_controller-IsIndexed_example =
    new_controller-IsIndexed world seed (memory-IsReliable devices_tree seed) 1 "/rc" 7000
      seed_keyed seed-IsDated seed_listed (omega arith)
