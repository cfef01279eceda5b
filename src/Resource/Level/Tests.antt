-- ===== src/Resource/Level/Tests.antt =====
-- A database with room for one entry, and the theorems about the catalog over it.
use lslc_core.Common.{
  String, ◌≡◌, refl, ap, sym, List, [], ◌∷◌, Option, none, some, Result, ok, err, if◌then◌else◌,
  ◌==◌, eq_iff, arith, In, inl, inr, length, ok_injective, ◌<◌,
}
use lslc_core.Tree.Model.{keyed_list, timed_list}
use lslc_core.Tree.Nodes.{string_keys}
use lslc_core.Resource.{Device}
use lslc_core.Resource.Encode.{Format}
use lslc_core.Resource.State.{Env, Controller}
use lslc_core.Resource.Controller.Run.{Call, create, run}
use lslc_core.Resource.Indices.Rids.{is_zero-string_keys}
use lslc_core.Resource.Indices.Sound.{IsIndexed}
use lslc_core.Resource.Indices.Filled.{IsCovered}
use lslc_core.Resource.Indices.Start.{fresh, fresh-IsIndexed, new_controller}
use lslc_core.Resource.Memory.{probe}
use lslc_core.Resource.Store.{IsReliable}
use lslc_core.Resource.Level.{Codec, Database}
use lslc_core.Resource.Level.View.{devices}
use lslc_core.Resource.Level.Laws.{level_storage, IsHealthy, level-IsReliable}
use lslc_core.Resource.Level.Restart.{over_level, restart_sound}

abbrev plain : Codec Device
plain = record { encode = ok; decode = ok; decode-encode = λ d b h. sym h }

abbrev Cell : Type 0
Cell = Option (String × Device)

abbrev content : Cell → String → Option Device
content none k = none
content (some (j, d)) k = if j == k then some d else none

abbrev put : String → Device → Cell → Cell × Result String (Unit {0})
put k d none = (some (k, d), ok tt)
put k d (some (j, c)) = if j == k then (some (k, d), ok tt) else (some (j, c), err "full")

abbrev delete : String → Cell → Cell × Result String (Unit {0})
delete k none = (none, ok tt)
delete k (some (j, c)) = if k == j then (none, ok tt) else (some (j, c), ok tt)

abbrev entries : Cell → List (String × Device)
entries none = []
entries (some e) = e ∷ []

put_ok :
    (k : String) (d : Device) (s : Cell)
    → (put k d s).1 ≡ ok tt
    → (j : String) → content (put k d s).0 j ≡ (if k == j then some d else content s j)
put_ok k d none h j = refl
put_ok k d (some (i, c)) h j = ground (arith, eq_iff i k)

put_err :
    (k : String) (d : Device) (s : Cell) (m : String)
    → (put k d s).1 ≡ err m
    → (j : String) → content (put k d s).0 j ≡ content s j
put_err k d none m h j = cc
put_err k d (some (i, c)) m h j = ground arith

delete_ok :
    (k : String) (s : Cell)
    → (delete k s).1 ≡ ok tt
    → (j : String) → content (delete k s).0 j ≡ (if k == j then none else content s j)
delete_ok k none h j = ground arith
delete_ok k (some (i, c)) h j = ground (arith, eq_iff k i, eq_iff i j, eq_iff k j)

delete_err :
    (k : String) (s : Cell) (m : String)
    → (delete k s).1 ≡ err m
    → (j : String) → content (delete k s).0 j ≡ content s j
delete_err k none m h j = refl
delete_err k (some (i, c)) m h j = ground arith

scanned : (s : Cell) (k : String) (d : Device) → In (k, d) (entries s) → content s k ≡ some d
scanned none k d i = elim i [ ]
scanned (some (j, c)) k d (inl e) =
    let key : k ≡ j = ap (λ (p : String × Device). p.0) e in
    let value : d ≡ c = ap (λ (p : String × Device). p.1) e in
    rw ((eq_iff j k).1 (sym key)) (ap some (sym value))
scanned (some (j, c)) k d (inr i) = elim i [ ]

abbrev cell : Database Device
cell = record {
  State = Cell;
  get = λ k s. ok (content s k);
  put = put;
  delete = delete;
  scan = λ s. (entries s, none);
  content = content;
  get_content = λ k s o h. ok_injective h;
  put_ok = put_ok;
  put_err = put_err;
  delete_ok = delete_ok;
  delete_err = delete_err;
  scanned = scanned;
}

cell-IsHealthy : (s : Cell) → IsHealthy cell plain s
cell-IsHealthy s = record { answers = λ k. refl; whole = refl; readable = λ k b h. (b, refl) }

abbrev format : Format
format = record {
  time_text = λ t. "time";
  number_text = λ n. "number";
  print_composite = λ j. "[]";
}

abbrev world : Env
world =
    over_level cell plain (keyed_list (λ m. m.key) string_keys is_zero-string_keys) timed_list
      (λ s. none) format

abbrev calls : List Call
calls = create 5000 (record (probe "a") { ttl = 60 }) ∷ create 6000 (probe "b") ∷ []

abbrev start : Controller world
start = fresh world none "/rc" 1000

start-IsIndexed : IsIndexed world start
start-IsIndexed = fresh-IsIndexed world none "/rc" 1000 (λ id. refl)

at_most_one : (s : Cell) → length (devices cell plain s) < 100
at_most_one none = omega arith
at_most_one (some e) = omega arith

level-IsReliable_example : IsReliable (level_storage cell plain) (run world start calls).storage
level-IsReliable_example =
    level-IsReliable cell plain (run world start calls).storage
      (cell-IsHealthy (run world start calls).storage)

restart_sound_example :
    ((new_controller world 1 (run world start calls).storage "/rc" 9000).1 ≡ ok tt)
    × IsIndexed world (new_controller world 1 (run world start calls).storage "/rc" 9000).0
    × ((new_controller world 1 (run world start calls).storage "/rc" 9000).0.storage
        ≡ (run world start calls).storage)
    × ((d : Device)
        → In d (devices cell plain (run world start calls).storage)
        → IsCovered world
            (new_controller world 1 (run world start calls).storage "/rc" 9000).0.rid_did
            (new_controller world 1 (run world start calls).storage "/rc" 9000).0.exp_did
            d)
restart_sound_example =
    restart_sound cell plain (keyed_list (λ m. m.key) string_keys is_zero-string_keys) timed_list
      (λ s. none) format start calls 1 "/rc" 9000 start-IsIndexed
      (cell-IsHealthy (run world start calls).storage) (at_most_one (run world start calls).storage)
