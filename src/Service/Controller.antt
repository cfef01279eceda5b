-- ===== src/Service/Controller.antt =====
-- The controller of the service catalog: src/linksmart.eu/lc/core/catalog/service/controller.go.
-- Each method is a function from the state to the new state and its result, as in the resource
-- catalog. `notices` holds the calls of the listeners that were started, each in its own goroutine,
-- in the order in which they were started; the order in which they run is open.
pub mod Outcomes
pub mod Listeners
use lslc_core.Common.{
  ℕ, zero, suc, ◌+◌, ◌-◌, ◌*◌, ◌%◌, ◌^◌, String, Bool, true, false, List, [], ◌∷◌, ◌++◌, Option,
  none, some, Result, ok, err, ◌>>=◌, result_map, if◌then◌else◌, ◌==◌, leb, length, find_first,
}
use lslc_core.Common.Int.{ℤ, pos, negsuc}
use lslc_core.Common.Words.{concat, add_seconds, format_hex}
use lslc_core.Tree.{DuplicateTree}
use lslc_core.Tree.Nodes.{Map, time_keys}
use lslc_core.Resource.{CatalogError, bad_request, panicked}
use lslc_core.Service.{Service, validate, is_zero_ttl}
use lslc_core.Service.Store.{CatalogStorage}

-- What the controller uses and does not implement.
pub record Env : Type 1 where
  pub storage : CatalogStorage
  pub exp_tree : DuplicateTree (Map ℕ) time_keys

-- A call of a method of the Listener interface.
pub data Notice : Type 0 where
  added updated : Service → Notice
  deleted : String → Notice

pub record Controller (e : Env) : Type 0 where
  pub storage : e.storage.State
  pub api_location : String
  pub listeners : ℕ
  pub start_time : ℕ
  pub counter : ℕ
  pub exp_sid : e.exp_tree.Tree
  pub notices : List Notice

-- A signed number of seconds as a 64-bit word.
abbrev pub seconds_word : ℤ → ℕ
seconds_word (pos n) = n
seconds_word (negsuc n) = 2 ^ 64 - (n + 1)

-- The expiry time of a registration that is made at `now`: none for a TTL of 0.
unfoldable pub expiry : ℕ → ℤ → Option ℕ
expiry now ttl = if is_zero_ttl ttl then none else some (add_seconds now (seconds_word ttl))

abbrev pub repeat : ℕ → Notice → List Notice
repeat zero n = []
repeat (suc k) n = n ∷ repeat k n

-- The first loop of cleanExpired.
unfoldable pub expired_list : ℕ → List (Map ℕ) → List (Map ℕ)
expired_list now [] = []
expired_list now (m ∷ ms) = let rest = m ∷ expired_list now ms in if leb m.key now then rest else []

module _ (e : Env) where
  -- newURN
  unfoldable pub new_urn : Controller e → Controller e × String
  new_urn c =
      let counter = (c.counter + 1) % 2 ^ 64 in
      (
        record c { counter = counter },
        concat ("urn:ls_service:" ∷ format_hex ((c.start_time + counter) % 2 ^ 64) ∷ []),
      )

  -- The loop that starts a goroutine for each listener, to call it. The list tells which calls are
  -- started, not in which order they run.
  unfoldable pub notify : Notice → Controller e → Controller e
  notify n c = record c { notices = c.notices ++ repeat c.listeners n }

  -- addIndices: `*s.Expires` panics where it is nil.
  unfoldable pub add_indices :
      Controller e → Service → Controller e × Result CatalogError (Unit {0})
  add_indices c s = if is_zero_ttl s.ttl then (c, ok tt) else elim s.expires [
    | none ↦ (c, err (panicked "nil pointer dereference"))
    | some at ↦
        (record c { exp_sid = e.exp_tree.add (record { key = at; value = s.id }) c.exp_sid }, ok tt)
  ]

  -- The inner loop of removeIndices; `id`, which is tested, is the id of the node `m` that was found.
  unfoldable pub drain :
      ℕ → Map ℕ → String → e.exp_tree.Tree → List (Map ℕ) → e.exp_tree.Tree × List (Map ℕ)
  drain zero m sid t temp = (t, temp)
  drain (suc fuel) m sid t temp =
      let (t', r) = e.exp_tree.remove m t in
      elim r [
        | none ↦ (t', temp)
        | some x ↦ drain fuel m sid t' (if m.value == sid then temp else temp ++ (x ∷ []))
      ]

  unfoldable pub add_all : List (Map ℕ) → e.exp_tree.Tree → e.exp_tree.Tree
  add_all [] t = t
  add_all (m ∷ ms) t = add_all ms (e.exp_tree.add m t)

  unfoldable pub remove_expiry : String → e.exp_tree.Tree → e.exp_tree.Tree
  unfolding drain add_all
  remove_expiry sid t = elim (find_first (λ (m : Map ℕ). m.value == sid) (e.exp_tree.items t)) [
    | none ↦ t
    | some m ↦
        let (t', temp) = drain (suc (length (e.exp_tree.items t))) m sid t [] in add_all temp t'
  ]

  -- removeIndices
  unfoldable pub remove_indices : Controller e → Service → Controller e
  unfolding remove_expiry
  remove_indices c s = record c {
    exp_sid = if is_zero_ttl s.ttl then c.exp_sid else remove_expiry s.id c.exp_sid;
  }

  -- The id of a new service.
  unfoldable pub service_id : Controller e → String → Controller e × String
  unfolding new_urn
  service_id c id = if id == "" then new_urn c else (c, id)

  -- The fields that add sets.
  unfoldable pub stamp : Controller e → ℕ → String → Service → Service
  unfolding expiry
  stamp c now id s = record s {
    id = id;
    url = concat (c.api_location ∷ "/" ∷ id ∷ []);
    type = "Service";
    created = now;
    updated = now;
    expires = expiry now s.ttl;
  }

  -- The end of add and update: the indices, then the listeners unless the indices panicked.
  unfoldable pub announce :
      Notice
      → Controller e × Result CatalogError (Unit {0})
      → Controller e × Result CatalogError (Unit {0})
  unfolding notify
  announce n (c, err x) = (c, err x)
  announce n (c, ok _) = (notify n c, ok tt)

  -- The end of add: the storage, the index, the listeners.
  unfoldable pub store_new : Controller e → Service → Controller e × Result CatalogError String
  unfolding add_indices announce
  store_new c s =
      let (st, r) = e.storage.add s c.storage in
      let c' = record c { storage = st } in
      elim r [
        | err x ↦ (c', err x)
        | ok _ ↦
            let (c'', indexed) = announce (added s) (add_indices c' s) in
            (c'', result_map (λ _. s.id) indexed)
      ]

  -- add
  unfoldable pub add : Controller e → ℕ → Service → Controller e × Result CatalogError String
  unfolding service_id stamp store_new
  add c now s = elim (validate s) [
    | err m ↦ (c, err (bad_request m))
    | ok _ ↦ let (c', id) = service_id c s.id in store_new c' (stamp c' now id s)
  ]

  -- The fields that update takes over from the new registration, and the times.
  unfoldable pub refresh : ℕ → Service → Service → Service
  unfolding expiry
  refresh now stored s = record stored {
    name = s.name;
    description = s.description;
    meta = s.meta;
    ttl = s.ttl;
    updated = now;
    expires = expiry now s.ttl;
  }

  -- The end of update. The listeners get the registration of the request.
  unfoldable pub store_update :
      Controller e
      → String
      → Service
      → Service
      → Service
      → Controller e × Result CatalogError (Unit {0})
  unfolding add_indices remove_indices announce
  store_update c id old new s =
      let (st, r) = e.storage.update id new c.storage in
      let c' = record c { storage = st } in
      elim r [
        | err x ↦ (c', err x)
        | ok _ ↦ announce (updated s) (add_indices (remove_indices c' old) new)
      ]

  -- update
  unfoldable pub update :
      Controller e → ℕ → String → Service → Controller e × Result CatalogError (Unit {0})
  unfolding refresh store_update
  update c now id s = elim (validate s) [
    | err m ↦ (c, err (bad_request m))
    | ok _ ↦ elim (e.storage.get id c.storage) [
      | err x ↦ (c, err x)
      | ok stored ↦ store_update c id stored (refresh now stored s) s
    ]
  ]

  -- What delete and the second loop of cleanExpired have in common: all but the listeners.
  unfoldable pub remove : Controller e → String → Controller e × Result CatalogError Service
  unfolding remove_indices
  remove c id = elim (e.storage.get id c.storage) [
    | err x ↦ (c, err x)
    | ok old ↦
        let (st, r) = e.storage.delete id c.storage in
        let c' = record c { storage = st } in
        elim r [ err x ↦ (c', err x) | ok _ ↦ (remove_indices c' old, ok old) ]
  ]

  -- The end of delete: the listeners.
  unfoldable pub tell :
      Controller e × Result CatalogError Service → Controller e × Result CatalogError (Unit {0})
  unfolding notify
  tell (c, err x) = (c, err x)
  tell (c, ok old) = (notify (deleted old.id) c, ok tt)

  -- delete
  unfoldable pub delete : Controller e → String → Controller e × Result CatalogError (Unit {0})
  unfolding remove tell
  delete c id = tell (remove c id)

  -- The second loop of cleanExpired: it stops at the first error, which it logs.
  unfoldable pub expire_all : Controller e → List (Map ℕ) → Controller e
  unfolding remove
  expire_all c [] = c
  expire_all c (m ∷ ms) =
      let (c', r) = remove c m.value in elim r [ err x ↦ c' | ok _ ↦ expire_all c' ms ]

  -- One tick of cleanExpired, at the time `now`.
  unfoldable pub clean_expired : Controller e → ℕ → Controller e
  unfolding expired_list expire_all
  clean_expired c now = expire_all c (expired_list now (e.exp_tree.items c.exp_sid))
