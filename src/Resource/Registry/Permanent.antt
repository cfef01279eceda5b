-- ===== src/Resource/Registry/Permanent.antt =====
-- Devices without a TTL in the registry: no call but a deletion takes them out.
use lslc_core.Common.{
  ℕ, String, Bool, true, false, ◌≡◌, refl, ap, ◌∙◌, subst, inl, inr, some, if◌then◌else◌, ◌==◌, eqb,
  eq_iff, Bool-cases,
}
use lslc_core.Resource.{Device}
use lslc_core.Resource.Controller.Run.{Call, create, replace, erase, tick}
use lslc_core.Resource.Indices.Sound.{View, with_device}
use lslc_core.Resource.Registry.{Allowed, Describes, refused, created, replaced, erased, ticked}

-- A device without a TTL is stored under an id.
abbrev pub IsPermanent : View → String → Type 0
IsPermanent v id = (d : Device) × (v id ≡ some d) × (eqb d.ttl 0 ≡ true)

-- A call that deletes nothing and registers no device with a TTL.
abbrev pub IsUntimed : Call → Type 0
IsUntimed (create now d) = eqb d.ttl 0 ≡ true
IsUntimed (replace now id d) = eqb d.ttl 0 ≡ true
IsUntimed (erase id) = ⊥
IsUntimed (tick now) = Unit

put_there :
    (v w : View) (id j : String) (d d' : Device) (now : ℕ)
    → ((i : String) → w i ≡ with_device id d' v i)
    → Describes now d d'
    → eqb d.ttl 0 ≡ true
    → (id == j) ≡ true
    → IsPermanent w j
put_there v w id j d d' now h same untimed hit =
    (d', h j ∙ ap (λ b. if b then some d' else v j) hit, ap (λ n. eqb n 0) same.ttl ∙ untimed)

put_or_kept :
    (v w : View) (id j : String) (d d' : Device) (now : ℕ)
    → ((i : String) → w i ≡ with_device id d' v i)
    → Describes now d d'
    → eqb d.ttl 0 ≡ true
    → IsPermanent v j
    → IsPermanent w j
put_or_kept v w id j d d' now h same untimed (old, there, forever) = elim (Bool-cases (id == j)) [
  | inl hit ↦ put_there v w id j d d' now h same untimed hit
  | inr miss ↦ (old, h j ∙ ap (λ b. if b then some d' else v j) miss ∙ there, forever)
]

-- What the registry allows keeps a device without a TTL.
pub IsPermanent-stays :
    {v w : View} {x : Call} {b : Bool} (j : String)
    → Allowed v x b w
    → IsUntimed x
    → IsPermanent v j
    → IsPermanent w j
IsPermanent-stays j (refused h) u (d, there, forever) = (d, h j ∙ there, forever)
IsPermanent-stays j (created {v} {w} {now} {d} id d' free own keyed at same h) u p =
    put_or_kept v w id j d d' now h same u p
IsPermanent-stays j (replaced {v} {w} {now} {id} {d} old d' was keyed place at same h) u p =
    put_or_kept v w id j d d' now h same u p
IsPermanent-stays j (erased old was h) u p = absurd u
IsPermanent-stays j (ticked h) u (d, there, forever) = elim (h j) [
  | inl kept ↦ (d, kept ∙ there, forever)
  | inr (d', there', due, gone) ↦
      let one : d' ≡ d = cc in
      let timed : eqb d.ttl 0 ≡ false = subst (λ (y : Device). eqb y.ttl 0 ≡ false) one due.timed in
      absurd cc
]

-- A registration that succeeds, of a device without a TTL, stores it under its id.
pub create-IsPermanent :
    {v w : View} (now : ℕ) (d : Device)
    → Allowed v (create now d) true w
    → eqb d.ttl 0 ≡ true
    → (d.id == "") ≡ false
    → IsPermanent w d.id
create-IsPermanent now d (created {v} {w} id d' free own keyed at same h) untimed named =
    put_there v w id d.id d d' now h same untimed ((eq_iff id d.id).1 (own named))

pub replace-IsPermanent :
    {v w : View} (now : ℕ) (id : String) (d : Device)
    → Allowed v (replace now id d) true w
    → eqb d.ttl 0 ≡ true
    → IsPermanent w id
replace-IsPermanent now id d (replaced {v} {w} old d' was keyed place at same h) untimed =
    put_there v w id id d d' now h same untimed ((eq_iff id id).1 refl)
