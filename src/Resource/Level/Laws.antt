-- ===== src/Resource/Level/Laws.antt =====
-- The LevelDB storage as the storage of the controller.
use lslc_core.Common.{
  ℕ, suc, ◌+◌, String, ◌≡◌, refl, ap, sym, ◌∙◌, List, [], ◌∷◌, Option, none, some, ok, ◌>>=◌, leb,
  length, In, All, Bool-cases, Option-cases, inl, inr,
}
use lslc_core.Common.Int.{ℤ}
use lslc_core.Paging.{get_paging_attr}
use lslc_core.Resource.{Device}
use lslc_core.Resource.Store.{CatalogStorage, IsReliable, max_per_page}
use lslc_core.Resource.Level.{
  Codec, Database, passed_on, add, get, update, delete, total, read_page, list,
}
use lslc_core.Resource.Level.View.{
  decoded, view, entry, devices, decoded_stored, get_ok, get_missing, add_ok, add_err, update_ok,
  update_err, delete_ok, delete_err,
}
use lslc_core.Resource.Level.Pages.{list_ok, length-map}

module _ {Bytes : Type 0} (db : Database Bytes) (codec : Codec Bytes) where
  abbrev pub level_storage : CatalogStorage
  level_storage = record {
    State = db.State;
    add = add db codec;
    get = get db codec;
    update = update db codec;
    delete = delete db codec;
    list = list db codec;
    total = total db codec;
    view = view db codec;
    devices = devices db codec;
    get_ok = get_ok db codec;
    get_missing = get_missing db codec;
    add_ok = add_ok db codec;
    add_err = add_err db codec;
    update_ok = update_ok db codec;
    update_err = update_err db codec;
    delete_ok = delete_ok db codec;
    delete_err = delete_err db codec;
    list_ok = list_ok db codec;
  }

  -- The database answers every read, and every value in it can be decoded.
  pub record IsHealthy (s : db.State) : Type 0 where
    pub answers : (k : String) → db.get k s ≡ ok (db.content s k)
    pub whole : (db.scan s).1 ≡ none
    pub readable :
        (k : String) (b : Bytes) → db.content s k ≡ some b → (d : Device) × (codec.decode b ≡ ok d)

  got :
      (s : db.State)
      → IsHealthy s
      → (id : String) (d : Device) → view db codec s id ≡ some d
      → get db codec id s ≡ ok d
  unfolding get
  got s h id d there = elim (Option-cases (db.content s id)) [
    | inl absent ↦ let bad : ⊥ = cc (sym there ∙ ap (decoded db codec) absent) in absurd bad
    | inr (b, present) ↦
        let (d', read) = h.readable id b present in
        let same : ◌≡◌ {A = Option Device} (some d') (some d) =
          sym (decoded_stored db codec b d' read) ∙ (ap (decoded db codec) (sym present) ∙ there) in
        let one : d' ≡ d = cc in rw (h.answers id ∙ ap ok present, read, get, passed_on) (ap ok one)
  ]

  page_read :
      (o stop i : ℕ) (es : List (String × Bytes))
      → All (λ e. (d : Device) × (codec.decode e.1 ≡ ok d)) es
      → (ds : List Device) × (read_page db codec o stop i es ≡ ok ds)
  unfolding read_page
  page_read o stop i [] h = ([], refl)
  page_read o stop i ((k, b) ∷ es) ((d, read), h) =
      let (ds, rest) = page_read o stop (suc i) es h in
      elim (Bool-cases (leb stop i)) [
        | inl past ↦ ([], rw (read, past, read_page, passed_on, ◌>>=◌) refl)
        | inr more ↦ elim (Bool-cases (leb o i)) [
          | inl late ↦ (d ∷ ds, rw (read, more, late, rest, read_page, passed_on, ◌>>=◌) refl)
          | inr early ↦ (ds, rw (read, more, early, rest, read_page, passed_on, ◌>>=◌) refl)
        ]
      ]

  All-scan :
      (s : db.State) (es : List (String × Bytes))
      → IsHealthy s
      → ((k : String) (b : Bytes) → In (k, b) es → In (k, b) (db.scan s).0)
      → All (λ e. (d : Device) × (codec.decode e.1 ≡ ok d)) es
  All-scan s [] h inside = tt
  All-scan s ((k, b) ∷ es) h inside = (
    h.readable k b (db.scanned s k b (inside k b (inl refl))),
    All-scan s es h (λ k' b' i. inside k' b' (inr i)),
  )

  paged :
      (s : db.State)
      → IsHealthy s
      → (page per_page : ℤ) (w : ℕ × ℕ)
      → get_paging_attr (length (devices db codec s)) page per_page max_per_page ≡ ok w
      → (r : List Device × ℕ) × (list db codec page per_page s ≡ ok r)
  unfolding list total
  paged s h page per_page w attr =
      let n = length (db.scan s).0 in
      let attr' : get_paging_attr n page per_page max_per_page ≡ ok w =
        rw (length-map (entry db codec) (db.scan s).0) at attr in
      let (ds, read) =
        page_read w.0 (w.0 + w.1) 0 (db.scan s).0 (All-scan s (db.scan s).0 h (λ k b i. i)) in
      let step = h.whole in ((ds, n), rw (h.whole, attr', read, list, total, ◌>>=◌) (rw step refl))

  -- A healthy LevelDB storage returns every stored device by its id, and a page for all parameters
  -- that GetPagingAttr accepts.
  pub level-IsReliable : (s : db.State) → IsHealthy s → IsReliable level_storage s
  level-IsReliable s h = record { got = got s h; paged = paged s h }
