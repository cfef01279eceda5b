-- ===== src/Resource/State.antt =====
-- The state of the controller and what it is built over: `Controller` in
-- src/linksmart.eu/lc/core/catalog/resource/controller.go, with its two secondary indices.
use lslc_core.Common.{Option}
use lslc_core.Common.{
  ℕ, zero, suc, ◌+◌, ◌%◌, ◌^◌, String, List, [], ◌∷◌, ◌++◌, none, some, Result, ok, err,
  if◌then◌else◌, ◌==◌, length, find_first, eqb,
}
use lslc_core.Common.Words.{concat, format_hex}
use lslc_core.Tree.{UniqueTree, DuplicateTree}
use lslc_core.Tree.Nodes.{Map, string_keys, time_keys}
use lslc_core.Resource.{Device, Resource, CatalogError, panicked}
use lslc_core.Resource.Encode.{Format}
use lslc_core.Resource.Store.{CatalogStorage}

-- What the controller uses and does not implement.
pub record Env : Type 1 where
  pub storage : CatalogStorage
  pub rid_tree : UniqueTree (Map String) string_keys
  pub exp_tree : DuplicateTree (Map ℕ) time_keys
  pub url_error : String → Option String
  pub format : Format

-- `rid_did` maps resource ids to device ids, and `exp_did` expiry times to device ids.
-- `start_time` and `counter` are 64-bit words.
pub record Controller (e : Env) : Type 0 where
  pub storage : e.storage.State
  pub api_location : String
  pub start_time : ℕ
  pub counter : ℕ
  pub rid_did : e.rid_tree.Tree
  pub exp_did : e.exp_tree.Tree

module _ (e : Env) where
  -- newDeviceURN and newResourceURN: the counter goes up, and the id is made of the new value.
  unfoldable pub new_urn : String → Controller e → Controller e × String
  new_urn kind c =
      let counter = (c.counter + 1) % 2 ^ 64 in
      (
        record c { counter = counter },
        concat ("urn:" ∷ kind ∷ ":" ∷ format_hex ((c.start_time + counter) % 2 ^ 64) ∷ []),
      )

  unfoldable pub new_device_urn : Controller e → Controller e × String
  unfolding new_urn
  new_device_urn = new_urn "ls_device"

  unfoldable pub new_resource_urn : Controller e → Controller e × String
  unfolding new_urn
  new_resource_urn = new_urn "ls_resource"

  -- The loop of addIndices over the resources: a resource id that is there already is kept.
  unfoldable pub add_rids : String → List Resource → e.rid_tree.Tree → e.rid_tree.Tree
  add_rids did [] t = t
  add_rids did (r ∷ rs) t =
      add_rids did rs (e.rid_tree.add (record { key = r.id; value = did }) t).0

  -- `Map{key: id}`, whose value is nil: only the key is compared.
  abbrev pub rid_key : String → Map String
  rid_key id = record { key = id; value = "" }

  -- The loop of removeIndices over the resources.
  unfoldable pub remove_rids : List Resource → e.rid_tree.Tree → e.rid_tree.Tree
  remove_rids [] t = t
  remove_rids (r ∷ rs) t = remove_rids rs (e.rid_tree.remove (rid_key r.id) t).0

  -- addIndices: `*d.Expires` panics where it is nil.
  unfoldable pub add_indices : Controller e → Device → Controller e × Result CatalogError (Unit {0})
  unfolding add_rids
  add_indices c d =
      let c' = record c { rid_did = add_rids d.id d.resources c.rid_did } in
      if eqb d.ttl 0 then (c', ok tt) else elim d.expires [
        | none ↦ (c', err (panicked "nil pointer dereference"))
        | some at ↦ (
          record c' { exp_did = e.exp_tree.add (record { key = at; value = d.id }) c'.exp_did },
          ok tt,
        )
      ]

  -- The inner loop of removeIndices: nodes are removed until none matches, and those that are not
  -- of the device are put aside; `id`, which is tested, is the id of the node `m` that was found.
  unfoldable pub drain :
      ℕ → Map ℕ → String → e.exp_tree.Tree → List (Map ℕ) → e.exp_tree.Tree × List (Map ℕ)
  drain zero m did t temp = (t, temp)
  drain (suc fuel) m did t temp =
      let (t', r) = e.exp_tree.remove m t in
      elim r [
        | none ↦ (t', temp)
        | some x ↦ drain fuel m did t' (if m.value == did then temp else temp ++ (x ∷ []))
      ]

  unfoldable pub add_all : List (Map ℕ) → e.exp_tree.Tree → e.exp_tree.Tree
  add_all [] t = t
  add_all (m ∷ ms) t = add_all ms (e.exp_tree.add m t)

  -- The rest of removeIndices: the expiry time. Each round of the loop removes a node, so one more
  -- round than there are nodes is enough.
  unfoldable pub remove_expiry : String → e.exp_tree.Tree → e.exp_tree.Tree
  unfolding drain add_all
  remove_expiry did t = elim (find_first (λ (m : Map ℕ). m.value == did) (e.exp_tree.items t)) [
    | none ↦ t
    | some m ↦
        let (t', temp) = drain (suc (length (e.exp_tree.items t))) m did t [] in add_all temp t'
  ]

  -- removeIndices
  unfoldable pub remove_indices : Controller e → Device → Controller e
  unfolding remove_rids remove_expiry
  remove_indices c d = record c {
    rid_did = remove_rids d.resources c.rid_did;
    exp_did = if eqb d.ttl 0 then c.exp_did else remove_expiry d.id c.exp_did;
  }
