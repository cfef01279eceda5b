-- ===== src/Keepalive/Tests.antt =====
-- A remote catalog that fails for a while, and the theorems at concrete runs.
use lslc_core.Common.{ℕ, zero, suc, true, [], ◌∷◌, ◌++◌, ◌≡◌, refl, ok, err, some, arith, Result}
use lslc_core.Resource.{CatalogError, other}
use lslc_core.Keepalive.{
  Client, running, gave_up, keep_alive, keep_ticking, refresh, register, supervise, loop, shutdown,
  continue, return,
}
use lslc_core.Keepalive.Retries.{
  Lost, no_tick, lost_tick, IsLost, Ended, keep_alive-Ended, keep_alive_gives_up,
}
use lslc_core.Keepalive.Shutdown.{moves, shutdown_at_first}

-- A catalog that answers its first calls with an error.
abbrev answer : ℕ → ℕ × Result CatalogError (Unit {0})
answer zero = (0, ok tt)
answer (suc n) = (n, err (other "unreachable"))

abbrev flaky : Client
flaky = record { State = ℕ; update = answer; add = answer }

three_lost : (keep_alive flaky 3 4).1 ≡ running 3
unfolding keep_alive keep_ticking refresh register
three_lost = refl

keep_alive-Ended_example : Ended flaky (register flaky 6).0 9 (keep_alive flaky 9 6)
keep_alive-Ended_example = keep_alive-Ended flaky 9 6

lost : (n : ℕ) → IsLost flaky (suc n)
unfolding register
lost n = (other "unreachable", refl)

five-Lost : Lost flaky 5 (register flaky 7).0 1
unfolding register
five-Lost =
    lost_tick (lost 5)
      (lost_tick (lost 4) (lost_tick (lost 3) (lost_tick (lost 2) (lost_tick (lost 1) no_tick))))

keep_alive_gives_up_example : keep_alive flaky 8 7 ≡ (1, gave_up)
keep_alive_gives_up_example = keep_alive_gives_up flaky 8 7 1 (omega arith) five-Lost

shutdown_at_first_example :
    (loop (supervise "a") (moves ("b" ∷ "c" ∷ []))
      ≡ continue (record { endpoint = "c"; client = "a"; keeper = "c" }))
    × (loop (supervise "a") (moves ("b" ∷ "c" ∷ []) ++ (shutdown true ∷ [])) ≡ return (some "a"))
shutdown_at_first_example = shutdown_at_first "a" ("b" ∷ "c" ∷ [])
