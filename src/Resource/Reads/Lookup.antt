-- ===== src/Resource/Reads/Lookup.antt =====
-- getResource over sound indices.
use lslc_core.Common.{
  String, true, ◌≡◌, refl, ap, ◌∙◌, List, [], ◌∷◌, none, some, Result, ok, err, ◌>>=◌, ◌==◌, eq_iff,
  Option-cases, Result-cases, Bool-cases, inl, inr, ◌⊎◌,
}
use lslc_core.Tree.Nodes.{Map}
use lslc_core.Resource.{Device, Resource, CatalogError, not_found}
use lslc_core.Resource.State.{Env, Controller, rid_key}
use lslc_core.Resource.Sorting.{has_id}
use lslc_core.Resource.Indices.Rids.{owner, value_of}
use lslc_core.Resource.Indices.Sound.{IsIndexed, view}
use lslc_core.Resource.Reads.{find_resource, get_resource}

find_resource-has_id :
    (id : String) (l : List Resource)
    → has_id id l ≡ true
    → (r : Resource) × (find_resource id l ≡ some r) × (r.id ≡ id)
unfolding find_resource
find_resource-has_id id [] h = cc
find_resource-has_id id (x ∷ xs) h = elim (Bool-cases (x.id == id)) [
  | inl hit ↦ rw hit (x, refl, (eq_iff x.id id).0 hit)
  | inr miss ↦ rw miss (find_resource-has_id id xs (rw miss at h))
]

get_resource_found :
    (e : Env) (c : Controller e) (id : String) (m : Map String) (d : Device) (r : Resource)
    → e.rid_tree.find (rid_key e id) c.rid_did ≡ some m
    → e.storage.get m.value c.storage ≡ ok d
    → find_resource id d.resources ≡ some r
    → get_resource e c id ≡ ok r
unfolding get_resource
get_resource_found e c id m d r found got first = rw (found, got, first, get_resource, ◌>>=◌) refl

module _ (e : Env) (c : Controller e) (indexed : IsIndexed e c) where
  -- What getResource answers for a resource id.
  abbrev pub Answer : String → Result CatalogError Resource → Type 0
  Answer id result =
      ((owner e c.rid_did id ≡ none) × (result ≡ err (not_found "Resource not found")))
      ⊎ ((did : String) × (d : Device) × (owner e c.rid_did id ≡ some did)
          × (view e c did ≡ some d)
          × (((r : Resource) × (result ≡ ok r)
                × (find_resource id d.resources ≡ some r)
                × (r.id ≡ id))
              ⊎ ((x : CatalogError) × (e.storage.get did c.storage ≡ err x) × (result ≡ err x))))

  -- Over sound indices getResource has three outcomes: an id that the index does not have is
  -- reported as not found; else the index leads to a stored device, and the result is the resource
  -- of that device with this id, or the error that the storage gives when it reads that device. In
  -- particular the branch "Parent device not found" of a device without the resource is never taken.
  pub get_resource-Answer : (id : String) → Answer id (get_resource e c id)
  unfolding get_resource
  get_resource-Answer id = elim (Option-cases (e.rid_tree.find (rid_key e id) c.rid_did)) [
    | inl missing ↦ inl (ap value_of missing, rw (missing, get_resource) refl)
    | inr (m, found) ↦
        let owns : owner e c.rid_did id ≡ some m.value = ap value_of found in
        let (d, there, has) = indexed.owned id m.value owns in
        let (r, first, same) = find_resource-has_id id d.resources has in
        elim (Result-cases (e.storage.get m.value c.storage)) [
          | inr (x, failed) ↦
              inr (m.value, d, owns, there, inr (x, failed, rw (found, failed, get_resource) refl))
          | inl (d', got) ↦
              let one : d' ≡ d = cc (e.storage.get_ok m.value c.storage d' got) in
              inr (
                m.value,
                d,
                owns,
                there,
                inl (
                  r,
                  get_resource_found e c id m d' r found got
                      (ap (λ (y : Device). find_resource id y.resources) one ∙ first),
                  first,
                  same,
                ),
              )
        ]
  ]
