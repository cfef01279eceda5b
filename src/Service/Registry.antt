-- ===== src/Service/Registry.antt =====
-- What the service catalog promises, with no storage, index or counter: a registry maps ids to
-- services, and each call either is refused, changes nothing and tells nobody, or makes one change
-- and starts one call of each listener; a tick may remove services that are due, and tells nobody.
pub mod Ticks
pub mod Refines
use lslc_core.Common.{
  ℕ, ◌≤◌, String, Bool, true, false, ◌≡◌, ◌⊎◌, List, [], ◌∷◌, ◌++◌, Option, none, some, ◌==◌,
  if◌then◌else◌,
}
use lslc_core.Resource.Controller.Run.{is_ok}
use lslc_core.Service.{Service, is_zero_ttl}
use lslc_core.Service.Controller.{
  Env, Controller, Notice, added, updated, deleted, repeat, expiry, add, update, delete,
  clean_expired,
}

abbrev pub View : Type 0
View = String → Option Service

-- A call that changes the state, with the time at which it is made.
pub data Call : Type 0 where
  create : ℕ → Service → Call
  replace : ℕ → String → Service → Call
  erase : String → Call
  tick : ℕ → Call

module _ (e : Env) where
  -- The state after a call, whatever the call returns.
  unfoldable pub step : Controller e → Call → Controller e
  step c (create now s) = (add e c now s).0
  step c (replace now id s) = (update e c now id s).0
  step c (erase id) = (delete e c id).0
  step c (tick now) = clean_expired e c now

  unfoldable pub run : Controller e → List Call → Controller e
  unfolding step
  run c [] = c
  run c (x ∷ xs) = run (step c x) xs

  -- Whether a call succeeds; a tick returns nothing, and only logs its errors.
  unfoldable pub succeeds : Controller e → Call → Bool
  succeeds c (create now s) = is_ok (add e c now s).1
  succeeds c (replace now id s) = is_ok (update e c now id s).1
  succeeds c (erase id) = is_ok (delete e c id).1
  succeeds c (tick now) = true

  -- The answers of a sequence of calls.
  unfoldable pub answers : Controller e → List Call → List Bool
  unfolding succeeds step
  answers c [] = []
  answers c (x ∷ xs) = succeeds c x ∷ answers (step c x) xs

-- A service with a TTL that expires at the time or before.
pub record IsDue (now : ℕ) (s : Service) : Type 0 where
  pub timed : is_zero_ttl s.ttl ≡ false
  pub at : ℕ
  pub expires : s.expires ≡ some at
  pub past : at ≤ now

-- With `n` listeners: a call, whether it succeeds, the registry before and after it, and the notices.
pub data Allowed (n : ℕ) : View → Call → Bool → View → List Notice → Type 0 where
  refused : {v w : View} {x : Call} → ((j : String) → w j ≡ v j) → Allowed n v x false w []
  created :
      {v w : View} {now : ℕ} {s : Service} (id : String) (s' : Service)
      → v id ≡ none
      → ((s.id == "") ≡ false → id ≡ s.id)
      → s'.id ≡ id
      → (s'.name ≡ s.name)
        × (s'.meta ≡ s.meta)
        × (s'.protocols ≡ s.protocols)
        × (s'.ttl ≡ s.ttl)
        × (s'.expires ≡ expiry now s.ttl)
      → ((j : String) → w j ≡ (if id == j then some s' else v j))
      → Allowed n v (create now s) true w (repeat n (added s'))
  replaced :
      {v w : View} {now : ℕ} {id : String} {s : Service} (old s' : Service)
      → v id ≡ some old
      → (s'.id ≡ old.id)
        × (s'.url ≡ old.url)
        × (s'.created ≡ old.created)
        × (s'.protocols ≡ old.protocols)
      → (s'.name ≡ s.name)
        × (s'.meta ≡ s.meta)
        × (s'.description ≡ s.description)
        × (s'.ttl ≡ s.ttl)
        × (s'.updated ≡ now)
        × (s'.expires ≡ expiry now s.ttl)
      → ((j : String) → w j ≡ (if id == j then some s' else v j))
      → Allowed n v (replace now id s) true w (repeat n (updated s))
  erased :
      {v w : View} {id : String} (old : Service)
      → v id ≡ some old
      → ((j : String) → w j ≡ (if id == j then none else v j))
      → Allowed n v (erase id) true w (repeat n (deleted old.id))
  ticked :
      {v w : View} {now : ℕ}
      → ((j : String) → (w j ≡ v j) ⊎ ((s : Service) × (v j ≡ some s) × IsDue now s × (w j ≡ none)))
      → Allowed n v (tick now) true w []

-- A sequence of calls with their answers, and all notices, in the order in which the goroutines of
-- the listeners are started; the order in which these run is open.
pub data History (n : ℕ) : View → List Call → List Bool → View → List Notice → Type 0 where
  start : {v : View} → History n v [] [] v []
  next_call :
      {u v w : View} {x : Call} {b : Bool} {xs : List Call} {bs : List Bool} {ns ms : List Notice}
      → Allowed n u x b v ns
      → History n v xs bs w ms
      → History n u (x ∷ xs) (b ∷ bs) w (ns ++ ms)
