-- ===== src/Resource/Controller/Run.antt =====
-- Sequences of calls of the controller: the mutex orders all calls and ticks in some sequence.
use lslc_core.Common.{ℕ, String, List, [], ◌∷◌}
use lslc_core.Common.{Bool, true, false, Result, ok, err}
use lslc_core.Resource.{Device, CatalogError}
use lslc_core.Resource.State.{Env, Controller}
use lslc_core.Resource.Indices.Sound.{IsIndexed}
use lslc_core.Resource.Controller.{add, update, delete, clean_expired}
use lslc_core.Resource.Controller.Invariant.{
  add-IsIndexed, update-IsIndexed, delete-IsIndexed, clean_expired-IsIndexed,
}

-- A call that changes the state, with the time at which it is made.
pub data Call : Type 0 where
  create : ℕ → Device → Call
  replace : ℕ → String → Device → Call
  erase : String → Call
  tick : ℕ → Call

abbrev pub is_ok {ℓ} : {A : Type ℓ} → Result CatalogError A → Bool
is_ok (ok a) = true
is_ok (err x) = false

module _ (e : Env) where
  -- The state after a call, whatever the call returns.
  unfoldable pub step : Controller e → Call → Controller e
  step c (create now d) = (add e c now d).0
  step c (replace now id d) = (update e c now id d).0
  step c (erase id) = (delete e c id).0
  step c (tick now) = clean_expired e c now

  unfoldable pub run : Controller e → List Call → Controller e
  run c [] = c
  run c (x ∷ xs) = run (step c x) xs

  pub step-IsIndexed : (c : Controller e) (x : Call) → IsIndexed e c → IsIndexed e (step c x)
  unfolding step
  step-IsIndexed c (create now d) i = add-IsIndexed e c now d i
  step-IsIndexed c (replace now id d) i = update-IsIndexed e c now id d i
  step-IsIndexed c (erase id) i = delete-IsIndexed e c id i
  step-IsIndexed c (tick now) i = clean_expired-IsIndexed e c now i

  -- From a state whose indices are sound, any sequence of add, update, delete and cleanExpired,
  -- in any order, at any times and with any errors, leads to a state whose indices are sound:
  -- every resource id of the first index leads to a stored device that has the resource, and every
  -- node of the expiry index to a stored device with a TTL that expires then.
  pub run-IsIndexed : (c : Controller e) (xs : List Call) → IsIndexed e c → IsIndexed e (run c xs)
  unfolding run
  run-IsIndexed c [] i = i
  run-IsIndexed c (x ∷ xs) i = run-IsIndexed (step c x) xs (step-IsIndexed c x i)

  -- Whether a call succeeds; a tick returns nothing, and only logs its errors.
  unfoldable pub succeeds : Controller e → Call → Bool
  succeeds c (create now d) = is_ok (add e c now d).1
  succeeds c (replace now id d) = is_ok (update e c now id d).1
  succeeds c (erase id) = is_ok (delete e c id).1
  succeeds c (tick now) = true

  -- The answers of a sequence of calls.
  unfoldable pub answers : Controller e → List Call → List Bool
  unfolding succeeds
  answers c [] = []
  answers c (x ∷ xs) = succeeds c x ∷ answers (step c x) xs
