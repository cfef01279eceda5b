-- ===== src/Resource/Level/View.antt =====
-- What the LevelDB storage holds, and what its operations do to it.
use lslc_core.Common.{
  String, Bool, true, false, ◌≡◌, refl, ap, ◌∙◌, List, Option, none, some, Result, ok, err,
  if◌then◌else◌, ◌==◌, map, Result-cases, Bool-cases, inl, inr, ok_injective,
}
use lslc_core.Resource.{Device, CatalogError, not_found}
use lslc_core.Resource.Memory.{probe}
use lslc_core.Resource.Level.{Codec, Database, passed_on, add, get, update, delete}

pub passed_on_ok {ℓ} : {A : Type ℓ} (r : Result String A) (a : A) → passed_on r ≡ ok a → r ≡ ok a
passed_on_ok (ok b) a h = cc
passed_on_ok (err m) a h = cc

passed_on_err {ℓ} :
    {A : Type ℓ} (r : Result String A) (x : CatalogError)
    → passed_on r ≡ err x
    → (m : String) × (r ≡ err m)
passed_on_err (ok b) x h = cc
passed_on_err (err m) x h = (m, refl)

module _ {Bytes : Type 0} (db : Database Bytes) (codec : Codec Bytes) where
  abbrev pub decoded : Option Bytes → Option Device
  decoded none = none
  decoded (some b) = elim (codec.decode b) [ err m ↦ none | ok d ↦ some d ]

  -- The device that can be read under an id.
  abbrev pub view : db.State → String → Option Device
  view s id = decoded (db.content s id)

  -- The device of an entry; a blank one where it cannot be read.
  abbrev pub entry : String × Bytes → Device
  entry e = elim (codec.decode e.1) [ err m ↦ probe "" | ok d ↦ d ]

  abbrev pub devices : db.State → List Device
  devices s = map entry (db.scan s).0

  pub decoded_stored : (b : Bytes) (d : Device) → codec.decode b ≡ ok d → decoded (some b) ≡ some d
  decoded_stored b d h = rw (h, decoded) refl

  pub get_ok :
      (id : String) (s : db.State) (d : Device) → get db codec id s ≡ ok d → view s id ≡ some d
  unfolding get
  get_ok id s d h = elim (Result-cases (db.get id s)) [
    | inr (m, failed) ↦ let bad : ⊥ = cc (rw (failed, get) at h) in absurd bad
    | inl (none, found) ↦ let bad : ⊥ = cc (rw (found, get) at h) in absurd bad
    | inl (some b, found) ↦ elim (Result-cases (codec.decode b)) [
      | inr (m, failed) ↦ let bad : ⊥ = cc (rw (found, failed, get, passed_on) at h) in absurd bad
      | inl (d', read) ↦
          let same : ◌≡◌ {A = Result CatalogError Device} (ok d') (ok d) =
            rw (found, read, get, passed_on) at h in
          ap decoded (db.get_content id s (some b) found)
          ∙ (decoded_stored b d' read ∙ ap some (ok_injective same))
    ]
  ]

  pub get_missing :
      (id : String) (s : db.State) (m : String)
      → get db codec id s ≡ err (not_found m)
      → view s id ≡ none
  unfolding get
  get_missing id s m h = elim (Result-cases (db.get id s)) [
    | inr (m', failed) ↦ let bad : ⊥ = cc (rw (failed, get) at h) in absurd bad
    | inl (none, found) ↦ ap decoded (db.get_content id s none found)
    | inl (some b, found) ↦ elim (Result-cases (codec.decode b)) [
      | inr (m', failed) ↦ let bad : ⊥ = cc (rw (found, failed, get, passed_on) at h) in absurd bad
      | inl (d', read) ↦ let bad : ⊥ = cc (rw (found, read, get, passed_on) at h) in absurd bad
    ]
  ]

  -- A value that was written is read back.
  view-put :
      (id : String) (d : Device) (b : Bytes) (s : db.State)
      → codec.encode d ≡ ok b
      → (db.put id b s).1 ≡ ok tt
      → (j : String) → view (db.put id b s).0 j ≡ (if id == j then some d else view s j)
  view-put id d b s written done j =
      ap decoded (db.put_ok id b s done j) ∙ (elim (Bool-cases (id == j)) [
        | inl hit ↦ rw hit (decoded_stored b d (codec.decode-encode d b written))
        | inr miss ↦ rw miss refl
      ])

  pub add_ok :
      (d : Device) (s : db.State)
      → (add db codec d s).1 ≡ ok tt
      → (view s d.id ≡ none)
        × ((j : String) → view (add db codec d s).0 j ≡ (if d.id == j then some d else view s j))
  unfolding add
  add_ok d s h = elim (Result-cases (codec.encode d)) [
    | inr (m, failed) ↦ let bad : ⊥ = cc (rw (failed, add) at h) in absurd bad
    | inl (b, written) ↦ elim (Result-cases (db.get d.id s)) [
      | inr (m, failed) ↦ let bad : ⊥ = cc (rw (written, failed, add) at h) in absurd bad
      | inl (some old, found) ↦ let bad : ⊥ = cc (rw (written, found, add) at h) in absurd bad
      | inl (none, found) ↦
          let done : (db.put d.id b s).1 ≡ ok tt =
            passed_on_ok (db.put d.id b s).1 tt (rw (written, found, add) at h) in
          (
            ap decoded (db.get_content d.id s none found),
            rw (written, found, add) (view-put d.id d b s written done),
          )
    ]
  ]

  pub add_err :
      (d : Device) (s : db.State) (x : CatalogError)
      → (add db codec d s).1 ≡ err x
      → (j : String) → view (add db codec d s).0 j ≡ view s j
  unfolding add
  add_err d s x h j = elim (Result-cases (codec.encode d)) [
    | inr (m, failed) ↦ rw (failed, add) refl
    | inl (b, written) ↦ elim (Result-cases (db.get d.id s)) [
      | inr (m, failed) ↦ rw (written, failed, add) refl
      | inl (some old, found) ↦ rw (written, found, add) refl
      | inl (none, found) ↦
          let (m, failed) = passed_on_err (db.put d.id b s).1 x (rw (written, found, add) at h) in
          rw (written, found, add) (ap decoded (db.put_err d.id b s m failed j))
    ]
  ]

  pub update_ok :
      (id : String) (d d' : Device) (s : db.State)
      → view s id ≡ some d'
      → d.id ≡ id
      → (update db codec id d s).1 ≡ ok tt
      → (j : String) → view (update db codec id d s).0 j ≡ (if id == j then some d else view s j)
  unfolding update
  update_ok id d d' s was same h = elim (Result-cases (codec.encode d)) [
    | inr (m, failed) ↦ let bad : ⊥ = cc (rw (failed, update) at h) in absurd bad
    | inl (b, written) ↦
        rw (written, update)
          (view-put id d b s written
            (passed_on_ok (db.put id b s).1 tt (rw (written, update) at h)))
  ]

  pub update_err :
      (id : String) (d : Device) (s : db.State) (x : CatalogError)
      → (update db codec id d s).1 ≡ err x
      → (j : String) → view (update db codec id d s).0 j ≡ view s j
  unfolding update
  update_err id d s x h j = elim (Result-cases (codec.encode d)) [
    | inr (m, failed) ↦ rw (failed, update) refl
    | inl (b, written) ↦
        let (m, failed) = passed_on_err (db.put id b s).1 x (rw (written, update) at h) in
        rw (written, update) (ap decoded (db.put_err id b s m failed j))
  ]

  decoded_if :
      (t : Bool) (o : Option Bytes)
      → decoded (if t then none else o) ≡ (if t then none else decoded o)
  decoded_if true o = refl
  decoded_if false o = refl

  pub delete_ok :
      (id : String) (s : db.State)
      → (delete db codec id s).1 ≡ ok tt
      → (j : String) → view (delete db codec id s).0 j ≡ (if id == j then none else view s j)
  unfolding delete
  delete_ok id s h j =
      ap decoded (db.delete_ok id s (passed_on_ok (db.delete id s).1 tt h) j)
      ∙ decoded_if (id == j) (db.content s j)

  pub delete_err :
      (id : String) (s : db.State) (x : CatalogError)
      → (delete db codec id s).1 ≡ err x
      → (j : String) → view (delete db codec id s).0 j ≡ view s j
  unfolding delete
  delete_err id s x h j =
      let (m, failed) = passed_on_err (db.delete id s).1 x h in
      ap decoded (db.delete_err id s m failed j)
