-- ===== src/Keepalive.antt =====
-- The routine that keeps the registration of a device alive in a remote catalog:
-- src/linksmart.eu/lc/core/catalog/resource/utils.go. The client of the remote catalog is a
-- parameter, and so are the endpoints that DNS-SD discovers. The messages of the two channels, in
-- the order in which they arrive, are lists of ticks and of events.
pub mod Retries
pub mod Shutdown
pub mod Local
mod Tests
use lslc_core.Common.{
  ℕ, zero, suc, String, Bool, true, false, List, [], ◌∷◌, Option, none, some, Result, ok, err,
  if◌then◌else◌, leb,
}
use lslc_core.Resource.{CatalogError, not_found}

-- What the client calls for one registration do to the remote catalog and return.
pub record Client : Type 1 where
  pub State : Type 0
  pub update : State → State × Result CatalogError (Unit {0})
  pub add : State → State × Result CatalogError (Unit {0})

abbrev pub keepalive_retries : ℕ
keepalive_retries = 5

-- The outcome of keepAlive after some ticks: still running, with errTries, or ended by an error.
pub data Status : Type 0 where
  running : ℕ → Status
  gave_up : Status

module _ (c : Client) where
  -- RegisterDevice: a registration that the catalog does not have is added.
  unfoldable pub register : c.State → c.State × Result CatalogError (Unit {0})
  register s =
      let (s', r) = c.update s in
      elim r [ ok _ ↦ (s', ok tt) | err (not_found m) ↦ c.add s' | err x ↦ (s', err x) ]

  -- The part of a tick of keepAlive that sets errTries.
  unfoldable pub refresh : c.State → ℕ → c.State × ℕ
  refresh s tries =
      let (s', r) = c.update s in
      elim r [
        | ok _ ↦ (s', 0)
        | err (not_found m) ↦
            let (s'', added) = c.add s' in elim added [ ok _ ↦ (s'', 0) | err x ↦ (s'', suc tries) ]
        | err x ↦ (s', suc tries)
      ]

  -- The loop of keepAlive over a number of ticks, from errTries on.
  unfoldable pub keep_ticking : ℕ → c.State → ℕ → c.State × Status
  unfolding refresh
  keep_ticking zero s tries = (s, running tries)
  keep_ticking (suc n) s tries =
      let (s', tries') = refresh s tries in
      let rest = keep_ticking n s' tries' in
      if leb keepalive_retries tries' then (s', gave_up) else rest

  -- keepAlive: the registration is made first, and its error is not counted. The ticker is made with
  -- half of the TTL as its period; for a TTL of 0 `time.NewTicker` panics instead, which is left out.
  unfoldable pub keep_alive : ℕ → c.State → c.State × Status
  unfolding register keep_ticking
  keep_alive n s = keep_ticking n (register s).0 0

-- The state of RegisterDeviceWithKeepalive in its loop: the variable `endpoint`, the endpoint that
-- the outer variable `client` is bound to, and the endpoint of the client of the last keepAlive.
pub record Supervisor : Type 0 where
  pub endpoint : String
  pub client : String
  pub keeper : String

-- A message of kerrCh, with what the discovery answers then if there is one and whether a client
-- can be made, or one of sigCh, with whether keepAlive takes the signal within a second.
pub data Event : Type 0 where
  failed : Option (Result String String) → Bool → Event
  shutdown : Bool → Event

-- The loop goes on, or the routine returns, having deleted the registration at an endpoint or not.
pub data Next : Type 0 where
  continue : Supervisor → Next
  return : Option String → Next

-- The start of the loop.
unfoldable pub supervise : String → Supervisor
supervise endpoint = record { endpoint = endpoint; client = endpoint; keeper = endpoint }

-- The rest of the branch of kerrCh. `client, err :=` declares a new variable, and the outer
-- `client` stays as it is.
unfoldable pub restart : Supervisor → String → Bool → Next
restart s endpoint made =
    if made then continue (record s { endpoint = endpoint; keeper = endpoint }) else return none

-- One round of the loop of RegisterDeviceWithKeepalive.
unfoldable pub next : Supervisor → Event → Next
unfolding restart
next s (failed none made) = restart s s.endpoint made
next s (failed (some (err m)) made) = return none
next s (failed (some (ok endpoint)) made) = restart s endpoint made
next s (shutdown true) = return (some s.client)
next s (shutdown false) = return none

unfoldable pub loop : Supervisor → List Event → Next
unfolding next
loop s [] = continue s
loop s (x ∷ xs) = elim (next s x) [ continue s' ↦ loop s' xs | return r ↦ return r ]
