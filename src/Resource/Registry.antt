-- ===== src/Resource/Registry.antt =====
-- What the resource catalog promises, with no storage, index or counter: a registry maps ids to
-- devices, and each call either is refused and changes nothing, or makes one change.
pub mod Refines
pub mod Permanent
use lslc_core.Common.{
  ℕ, ◌≤◌, String, Bool, true, false, ◌≡◌, ◌⊎◌, List, [], ◌∷◌, none, some, ◌==◌, eqb,
}
use lslc_core.Resource.{Device}
use lslc_core.Resource.Controller.{expiry}
use lslc_core.Resource.Controller.Placement.{Holds}
use lslc_core.Resource.Controller.Run.{Call, create, replace, erase, tick}
use lslc_core.Resource.Indices.Sound.{View, without, with_device}

-- A device with a TTL that expires at the time or before.
pub record IsDue (now : ℕ) (d : Device) : Type 0 where
  pub timed : eqb d.ttl 0 ≡ false
  pub at : ℕ
  pub expires : d.expires ≡ some at
  pub past : at ≤ now

-- A device has the fields that a registration gives, the times of the call and the resources of the
-- registration, each with the URL of the device; the form of the URLs of the resources is left to
-- the catalog.
pub record Describes (now : ℕ) (d d' : Device) : Type 0 where
  pub name : d'.name ≡ d.name
  pub meta : d'.meta ≡ d.meta
  pub description : d'.description ≡ d.description
  pub ttl : d'.ttl ≡ d.ttl
  pub updated : d'.updated ≡ now
  pub expires : d'.expires ≡ expiry now d.ttl
  pub location : String → String
  pub resources : Holds location d'.url d.resources d'.resources

-- A call, whether it succeeds, and the registry before and after it.
pub data Allowed : View → Call → Bool → View → Type 0 where
  refused : {v w : View} {x : Call} → ((j : String) → w j ≡ v j) → Allowed v x false w
  created :
      {v w : View} {now : ℕ} {d : Device} (id : String) (d' : Device)
      → v id ≡ none
      → ((d.id == "") ≡ false → id ≡ d.id)
      → d'.id ≡ id
      → d'.created ≡ now
      → Describes now d d'
      → ((j : String) → w j ≡ with_device id d' v j)
      → Allowed v (create now d) true w
  replaced :
      {v w : View} {now : ℕ} {id : String} {d : Device} (old d' : Device)
      → v id ≡ some old
      → d'.id ≡ old.id
      → d'.url ≡ old.url
      → d'.created ≡ old.created
      → Describes now d d'
      → ((j : String) → w j ≡ with_device id d' v j)
      → Allowed v (replace now id d) true w
  erased :
      {v w : View} {id : String} (old : Device)
      → v id ≡ some old
      → ((j : String) → w j ≡ without id v j)
      → Allowed v (erase id) true w
  ticked :
      {v w : View} {now : ℕ}
      → ((j : String) → (w j ≡ v j) ⊎ ((d : Device) × (v j ≡ some d) × IsDue now d × (w j ≡ none)))
      → Allowed v (tick now) true w

-- A sequence of calls with their answers.
pub data History : View → List Call → List Bool → View → Type 0 where
  start : {v : View} → History v [] [] v
  next_call :
      {u v w : View} {x : Call} {b : Bool} {xs : List Call} {bs : List Bool}
      → Allowed u x b v
      → History v xs bs w
      → History u (x ∷ xs) (b ∷ bs) w
