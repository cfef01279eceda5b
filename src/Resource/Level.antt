-- ===== src/Resource/Level.antt =====
-- The LevelDB storage of devices: src/linksmart.eu/lc/core/catalog/resource/ldbstorage.go. The
-- database of goleveldb and the JSON codec are parameters: records of what they do, with the
-- documented behaviour as laws.
pub mod View
pub mod Pages
pub mod Laws
pub mod Restart
mod Tests
use lslc_core.Common.{
  ℕ, zero, suc, ◌+◌, String, Bool, true, false, ◌≡◌, ◌↔◌, List, [], ◌∷◌, Option, none, some, Result,
  ok, err, ◌>>=◌, result_map, if◌then◌else◌, ◌==◌, leb, ltb, In, length,
}
use lslc_core.Common.Int.{ℤ}
use lslc_core.Common.Words.{concat}
use lslc_core.Paging.{get_paging_attr}
use lslc_core.Resource.{Device, CatalogError, not_found, conflict, other}
use lslc_core.Resource.Store.{max_per_page, unable_to_paginate}

-- json.Marshal and json.Unmarshal of a Device: what is written is read back.
pub record Codec (Bytes : Type 0) : Type 0 where
  pub encode : Device → Result String Bytes
  pub decode : Bytes → Result String Device
  pub decode-encode : (d : Device) (b : Bytes) → encode d ≡ ok b → decode b ≡ ok d

-- A database. `content` is the value under a key; a failed write changes nothing. `scan` is the
-- iterator over all entries in the order of the keys, with its error at the end.
pub record Database (Bytes : Type 0) : Type 1 where
  pub State : Type 0
  pub get : String → State → Result String (Option Bytes)
  pub put : String → Bytes → State → State × Result String (Unit {0})
  pub delete : String → State → State × Result String (Unit {0})
  pub scan : State → List (String × Bytes) × Option String
  pub content : State → String → Option Bytes
  pub get_content : (k : String) (s : State) (o : Option Bytes) → get k s ≡ ok o → content s k ≡ o
  pub put_ok :
      (k : String) (b : Bytes) (s : State)
      → (put k b s).1 ≡ ok tt
      → (j : String) → content (put k b s).0 j ≡ (if k == j then some b else content s j)
  pub put_err :
      (k : String) (b : Bytes) (s : State) (m : String)
      → (put k b s).1 ≡ err m
      → (j : String) → content (put k b s).0 j ≡ content s j
  pub delete_ok :
      (k : String) (s : State)
      → (delete k s).1 ≡ ok tt
      → (j : String) → content (delete k s).0 j ≡ (if k == j then none else content s j)
  pub delete_err :
      (k : String) (s : State) (m : String)
      → (delete k s).1 ≡ err m
      → (j : String) → content (delete k s).0 j ≡ content s j
  pub scanned : (s : State) (k : String) (b : Bytes) → In (k, b) (scan s).0 → content s k ≡ some b

-- An error of the database or of the codec, as it is.
abbrev pub passed_on {ℓ} : {A : Type ℓ} → Result String A → Result CatalogError A
passed_on (ok a) = ok a
passed_on (err m) = err (other m)

-- `fmt.Sprintf("Device with id %s is not found", id)`
missing : String → CatalogError
missing id = not_found (concat ("Device with id " ∷ id ∷ " is not found" ∷ []))

module _ {Bytes : Type 0} (db : Database Bytes) (codec : Codec Bytes) where
  unfoldable pub add : Device → db.State → db.State × Result CatalogError (Unit {0})
  add d s = elim (codec.encode d) [
    | err m ↦ (s, err (other m))
    | ok bytes ↦ elim (db.get d.id s) [
      | err m ↦ (s, err (other m))
      | ok (some old) ↦ (s, err (conflict "Device id is not unique."))
      | ok none ↦ let (s', r) = db.put d.id bytes s in (s', passed_on r)
    ]
  ]

  unfoldable pub get : String → db.State → Result CatalogError Device
  unfolding missing
  get id s = elim (db.get id s) [
    | err m ↦ err (other m)
    | ok none ↦ err (missing id)
    | ok (some bytes) ↦ passed_on (codec.decode bytes)
  ]

  -- Put never answers ErrNotFound: a value is written under a new key as well.
  unfoldable pub update : String → Device → db.State → db.State × Result CatalogError (Unit {0})
  update id d s = elim (codec.encode d) [
    | err m ↦ (s, err (other m))
    | ok bytes ↦ let (s', r) = db.put id bytes s in (s', passed_on r)
  ]

  -- Nor does Delete.
  unfoldable pub delete : String → db.State → db.State × Result CatalogError (Unit {0})
  delete id s = let (s', r) = db.delete id s in (s', passed_on r)

  unfoldable pub total : db.State → Result CatalogError ℕ
  total s = elim (db.scan s).1 [ some m ↦ err (other m) | none ↦ ok (length (db.scan s).0) ]

  -- The loop of list, from the entry with the number `i` on, for the entries from the offset up to
  -- `stop`. The entry after the last is decoded before the loop is left.
  unfoldable pub read_page : ℕ → ℕ → ℕ → List (String × Bytes) → Result CatalogError (List Device)
  read_page offset stop i [] = ok []
  read_page offset stop i ((k, b) ∷ entries) =
      let rest = read_page offset stop (suc i) entries in
      passed_on (codec.decode b) >>= λ d.
      if leb stop i then ok [] else if leb offset i then result_map (λ ds. d ∷ ds) rest else rest

  -- list: nothing is written between its two passes over the entries.
  unfoldable pub list : ℤ → ℤ → db.State → Result CatalogError (List Device × ℕ)
  unfolding total read_page
  list page per_page s = total s >>= λ n. elim (get_paging_attr n page per_page max_per_page) [
    | err x ↦ err (unable_to_paginate x)
    | ok (offset, limit) ↦ read_page offset (offset + limit) 0 (db.scan s).0 >>= λ devices.
        elim (db.scan s).1 [ some m ↦ err (other m) | none ↦ ok (devices, n) ]
  ]
