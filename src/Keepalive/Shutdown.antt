-- ===== src/Keepalive/Shutdown.antt =====
-- Which catalog the registration is removed from at the end.
use lslc_core.Common.{String, true, ◌≡◌, refl, ap, subst, List, [], ◌∷◌, ◌++◌, some, ok}
use lslc_core.Keepalive.{
  Supervisor, Event, failed, shutdown, continue, return, supervise, restart, next, loop,
}

-- The messages of failures after each of which the discovery finds an endpoint.
abbrev pub moves : List String → List Event
moves [] = []
moves (endpoint ∷ l) = failed (some (ok endpoint)) true ∷ moves l

-- The endpoint that was found last.
abbrev pub last_found : String → List String → String
last_found endpoint [] = endpoint
last_found endpoint (e ∷ l) = last_found e l

append_nil {ℓ} : {A : Type ℓ} (l : List A) → l ++ [] ≡ l
append_nil [] = refl
append_nil (x ∷ l) = ap (λ t. x ∷ t) (append_nil l)

-- The loop while only failures arrive: the keeper moves, the client of the shutdown does not.
loop-moves :
    (s : Supervisor) (l : List String) (after : List Event)
    → loop s (moves l ++ after)
      ≡ loop
          (record {
            endpoint = last_found s.endpoint l;
            client = s.client;
            keeper = last_found s.keeper l;
          })
          after
unfolding loop next restart
loop-moves s [] after = refl
loop-moves s (e ∷ l) after = loop-moves (record s { endpoint = e; keeper = e }) l after

-- However often keepAlive fails and a new endpoint is discovered, to which a client can be made,
-- the registration is kept alive at the endpoint that was found last, but the shutdown, if
-- keepAlive takes the signal, deletes it at the first endpoint.
pub shutdown_at_first :
    (endpoint : String) (l : List String)
    → (loop (supervise endpoint) (moves l)
        ≡ continue (record {
          endpoint = last_found endpoint l;
          client = endpoint;
          keeper = last_found endpoint l;
        }))
      × (loop (supervise endpoint) (moves l ++ (shutdown true ∷ [])) ≡ return (some endpoint))
unfolding loop next supervise
shutdown_at_first endpoint l = (
  subst
      (λ events.
        loop (supervise endpoint) events
        ≡ continue (record {
          endpoint = last_found endpoint l;
          client = endpoint;
          keeper = last_found endpoint l;
        }))
      (append_nil (moves l)) (loop-moves (supervise endpoint) l []),
  loop-moves (supervise endpoint) l (shutdown true ∷ []),
)
