-- ===== src/Resource/Controller.antt =====
-- The methods of the controller of the resource catalog that change its state:
-- src/linksmart.eu/lc/core/catalog/resource/controller.go.
-- Each method is a function from the state to the new state and its result. The mutex makes these
-- methods run one at a time; the time of a call is an argument.
pub mod Frame
pub mod Placement
pub mod Invariant
pub mod Effects
pub mod Changes
pub mod Expired
pub mod Ties
pub mod Run
use lslc_core.Common.{
  ℕ, zero, suc, ◌+◌, ◌*◌, String, Bool, true, false, List, [], ◌∷◌, Option, none, some, Result, ok,
  err, result_map, eqb, if◌then◌else◌, ◌==◌, not, leb,
}
use lslc_core.Common.Words.{concat, add_seconds}
use lslc_core.Tree.Nodes.{Map}
use lslc_core.Resource.{Device, Resource, CatalogError, conflict, bad_request, validate}
use lslc_core.Resource.State.{
  Env, Controller, new_device_urn, new_resource_urn, rid_key, add_indices, remove_indices,
}
use lslc_core.Resource.Sorting.{sort}

-- The expiry time of a registration that is made at `now`: none for a TTL of 0.
unfoldable pub expiry : ℕ → ℕ → Option ℕ
expiry now ttl = if eqb ttl 0 then none else some (add_seconds now ttl)

-- The first loop of cleanExpired: the nodes up to the first that expires after `now`.
unfoldable pub expired_list : ℕ → List (Map ℕ) → List (Map ℕ)
expired_list now [] = []
expired_list now (m ∷ ms) = let rest = m ∷ expired_list now ms in if leb m.key now then rest else []

module _ (e : Env) where
  -- The URL of a device or of a resource.
  abbrev pub url_of : Controller e → String → String → String
  url_of c kind id = concat (c.api_location ∷ "/" ∷ kind ∷ "/" ∷ id ∷ [])

  -- What add and update write into a resource.
  unfoldable pub place : Controller e → String → String → Resource → Resource
  place c device_url id r = record r {
    id = id;
    url = url_of c "resources" id;
    type = "Resource";
    device = device_url;
  }

  not_unique : String → CatalogError
  not_unique id = conflict (concat ("Resource id " ∷ id ∷ " is not unique" ∷ []))

  -- A resource's id in add: generated if it is empty, and else required to be unused.
  unfoldable pub resource_id : Controller e → String → Controller e × Result CatalogError String
  unfolding not_unique
  resource_id c id =
      if id == ""
      then (let (c', urn) = new_resource_urn e c in (c', ok urn))
      else elim (e.rid_tree.find (rid_key e id) c.rid_did) [
        | some m ↦ (c, err (not_unique id))
        | none ↦ (c, ok id)
      ]

  -- The loop of add over the resources.
  unfoldable pub add_resources :
      Controller e → String → List Resource → Controller e × Result CatalogError (List Resource)
  unfolding resource_id place
  add_resources c device_url [] = (c, ok [])
  add_resources c device_url (r ∷ rs) =
      let (c', given) = resource_id c r.id in
      elim given [
        | err x ↦ (c', err x)
        | ok id ↦
            let (c'', rest) = add_resources c' device_url rs in
            (c'', result_map (λ l. place c device_url id r ∷ l) rest)
      ]

  -- The id of a new device.
  unfoldable pub device_id : Controller e → String → Controller e × String
  device_id c id = if id == "" then new_device_urn e c else (c, id)

  -- The fields that add sets.
  unfoldable pub stamp : Controller e → ℕ → String → Device → Device
  unfolding expiry
  stamp c now id d = record d {
    id = id;
    url = url_of c "devices" id;
    type = "Device";
    created = now;
    updated = now;
    expires = expiry now d.ttl;
  }

  -- The end of add: the storage, then the indices.
  unfoldable pub store_new : Controller e → Device → Controller e × Result CatalogError String
  store_new c d =
      let (s, r) = e.storage.add d c.storage in
      let c' = record c { storage = s } in
      elim r [
        | err x ↦ (c', err x)
        | ok _ ↦ let (c'', indexed) = add_indices e c' d in (c'', result_map (λ _. d.id) indexed)
      ]

  -- add, once the registration is valid
  unfoldable pub add_valid : Controller e → ℕ → Device → Controller e × Result CatalogError String
  unfolding device_id add_resources stamp store_new
  add_valid c now d =
      let (c', id) = device_id c d.id in
      let d' = stamp c' now id d in
      let (c'', placed) = add_resources c' d'.url d.resources in
      elim placed [
        | err x ↦ (c'', err x)
        | ok resources ↦ store_new c'' (record d' { resources = sort resources })
      ]

  -- add
  unfoldable pub add : Controller e → ℕ → Device → Controller e × Result CatalogError String
  unfolding add_valid
  add c now d = elim (validate e.url_error d) [
    | err m ↦ (c, err (bad_request m))
    | ok _ ↦ add_valid c now d
  ]

  -- The uniqueness test of update: a resource id of the user may be in use by this device alone.
  unfoldable pub check_unique :
      Controller e → String → List Resource → Result CatalogError (Unit {0})
  unfolding not_unique
  check_unique c id [] = ok tt
  check_unique c id (r ∷ rs) =
      let rest = check_unique c id rs in
      if r.id == "" then rest else elim (e.rid_tree.find (rid_key e r.id) c.rid_did) [
        | none ↦ rest
        | some m ↦ if m.value == id then rest else err (not_unique r.id)
      ]

  -- The loop of update over the resources.
  unfoldable pub update_resources :
      Controller e → String → List Resource → Controller e × List Resource
  unfolding place
  update_resources c device_url [] = (c, [])
  update_resources c device_url (r ∷ rs) =
      let (c', id) = (if r.id == "" then new_resource_urn e c else (c, r.id)) in
      let (c'', rest) = update_resources c' device_url rs in (c'', place c device_url id r ∷ rest)

  -- The fields that update takes over from the new registration, and the times.
  unfoldable pub refresh : ℕ → Device → Device → Device
  unfolding expiry
  refresh now stored d = record stored {
    type = "Device";
    name = d.name;
    description = d.description;
    meta = d.meta;
    ttl = d.ttl;
    updated = now;
    expires = expiry now d.ttl;
  }

  -- The end of update: the storage, then the old entries of the indices out and the new ones in.
  unfoldable pub store_update :
      Controller e → String → Device → Device → Controller e × Result CatalogError (Unit {0})
  store_update c id old d =
      let (s, r) = e.storage.update id d c.storage in
      let c' = record c { storage = s } in
      elim r [ err x ↦ (c', err x) | ok _ ↦ add_indices e (remove_indices e c' old) d ]

  -- update, from the stored device on
  unfoldable pub update_stored :
      Controller e → ℕ → String → Device → Device → Controller e × Result CatalogError (Unit {0})
  unfolding update_resources refresh store_update
  update_stored c now id stored d =
      let (c', resources) = update_resources c stored.url d.resources in
      store_update c' id stored (record (refresh now stored d) { resources = sort resources })

  -- update
  unfoldable pub update :
      Controller e → ℕ → String → Device → Controller e × Result CatalogError (Unit {0})
  unfolding check_unique update_stored
  update c now id d = elim (validate e.url_error d) [
    | err m ↦ (c, err (bad_request m))
    | ok _ ↦ elim (check_unique c id d.resources) [
      | err x ↦ (c, err x)
      | ok _ ↦ elim (e.storage.get id c.storage) [
        | err x ↦ (c, err x)
        | ok stored ↦ update_stored c now id stored d
      ]
    ]
  ]

  -- delete
  unfoldable pub delete : Controller e → String → Controller e × Result CatalogError (Unit {0})
  delete c id = elim (e.storage.get id c.storage) [
    | err x ↦ (c, err x)
    | ok old ↦
        let (s, r) = e.storage.delete id c.storage in
        let c' = record c { storage = s } in
        elim r [ err x ↦ (c', err x) | ok _ ↦ (remove_indices e c' old, ok tt) ]
  ]

  -- The second loop of cleanExpired: it stops at the first error, which it logs.
  unfoldable pub expire_all : Controller e → List (Map ℕ) → Controller e
  unfolding delete
  expire_all c [] = c
  expire_all c (m ∷ ms) =
      let (c', r) = delete c m.value in elim r [ err x ↦ c' | ok _ ↦ expire_all c' ms ]

  -- One tick of cleanExpired, at the time `now`.
  unfoldable pub clean_expired : Controller e → ℕ → Controller e
  unfolding expired_list expire_all
  clean_expired c now = expire_all c (expired_list now (e.exp_tree.items c.exp_did))
