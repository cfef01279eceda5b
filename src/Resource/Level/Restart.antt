-- ===== src/Resource/Level/Restart.antt =====
-- A restart of the resource catalog over its LevelDB storage.
use lslc_core.Common.{
  ℕ, ◌*◌, ◌<◌, String, ◌≡◌, refl, ap, sym, ◌∙◌, subst, List, [], ◌∷◌, Option, some, ok, In, map,
  length, inl, inr,
}
use lslc_core.Tree.{UniqueTree, DuplicateTree}
use lslc_core.Tree.Nodes.{Map, string_keys, time_keys}
use lslc_core.Resource.{Device}
use lslc_core.Resource.Encode.{Format}
use lslc_core.Resource.State.{Env, Controller}
use lslc_core.Resource.Controller.Run.{Call, run, run-IsIndexed}
use lslc_core.Resource.Indices.Sound.{IsIndexed}
use lslc_core.Resource.Indices.Filled.{IsCovered}
use lslc_core.Resource.Indices.Start.{new_controller, new_controller-IsIndexed}
use lslc_core.Resource.Level.{Codec, Database}
use lslc_core.Resource.Level.View.{view, entry, devices, decoded, decoded_stored}
use lslc_core.Resource.Level.Laws.{level_storage, IsHealthy, level-IsReliable}

module _ {Bytes : Type 0} (db : Database Bytes) (codec : Codec Bytes) where
  In-map :
      (es : List (String × Bytes)) (d : Device)
      → In d (map (entry db codec) es)
      → (k : String) × (b : Bytes) × In (k, b) es × (d ≡ entry db codec (k, b))
  In-map [] d i = elim i [ ]
  In-map ((k, b) ∷ es) d (inl e) = (k, b, inl refl, e)
  In-map ((k, b) ∷ es) d (inr i) = let (k', b', j, e) = In-map es d i in (k', b', inr j, e)

  -- In a healthy database whose devices are stored under their ids, list shows what get finds.
  listed :
      (s : db.State)
      → IsHealthy db codec s
      → ((id : String) (d : Device) → view db codec s id ≡ some d → d.id ≡ id)
      → (d : Device) → In d (devices db codec s)
      → view db codec s d.id ≡ some d
  listed s h keyed d i =
      let (k, b, j, e) = In-map (db.scan s).0 d i in
      let present = db.scanned s k b j in
      let (d', read) = h.readable k b present in
      let one : d ≡ d' = e ∙ (rw (read, entry) refl) in
      let there : view db codec s k ≡ some d =
        ap (decoded db codec) present ∙ (decoded_stored db codec b d' read ∙ ap some (sym one)) in
      subst (λ id. view db codec s id ≡ some d) (sym (keyed k d there)) there

  -- The catalog over LevelDB.
  abbrev pub over_level :
      UniqueTree (Map String) string_keys
      → DuplicateTree (Map ℕ) time_keys
      → (String → Option String)
      → Format
      → Env
  over_level rids exps url_error format = record {
    storage = level_storage db codec;
    rid_tree = rids;
    exp_tree = exps;
    url_error = url_error;
    format = format;
  }

  module _ (rids : UniqueTree (Map String) string_keys) (exps : DuplicateTree (Map ℕ) time_keys)
      (url_error : String → Option String) (format : Format) where
    abbrev e : Env
    e = over_level rids exps url_error format

    -- The catalog over LevelDB, from a state with sound indices, makes any calls, and is then
    -- started again on the database that they left: if the database is healthy by then, the start
    -- succeeds with one round for each hundred entries and one more, and the database, with all
    -- devices in it, is as it was. The indices of the new start are sound, and complete: every
    -- resource id of a device of the database leads to a device, and every device with a TTL has a
    -- node with its expiry time.
    pub restart_sound :
        (c : Controller e) (xs : List Call) (fuel : ℕ) (api_location : String) (now : ℕ)
        → IsIndexed e c
        → IsHealthy db codec (run e c xs).storage
        → length (devices db codec (run e c xs).storage) < fuel * 100
        → let s = (run e c xs).storage in
          let (c', r) = new_controller e fuel s api_location now in
          (r ≡ ok tt)
          × IsIndexed e c'
          × (c'.storage ≡ s)
          × ((d : Device) → In d (devices db codec s) → IsCovered e c'.rid_did c'.exp_did d)
    restart_sound c xs fuel api_location now x healthy enough =
        let s = (run e c xs).storage in
        let y = run-IsIndexed e c xs x in
        new_controller-IsIndexed e s (level-IsReliable db codec s healthy) fuel api_location now
          y.keyed y.dated (listed s healthy y.keyed) enough
