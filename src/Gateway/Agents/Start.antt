-- ===== src/Gateway/Agents/Start.antt =====
-- The start of the agents: newAgentManager and the methods that start calls before its loop,
-- src/linksmart.eu/lc/core/cmd/device-gateway/agents.go and agents_linux.go. The goroutines that
-- they start send their responses to the inbox, where they are messages of a run.
use lslc_core.Common.{false}
use lslc_core.Common.{
  ℕ, ◌+◌, ◌-◌, ◌*◌, ◌%◌, ◌^◌, String, Bool, List, [], ◌∷◌, ◌++◌, Option, none, some, Result, ok,
  err, result_map, if◌then◌else◌, ◌==◌, not, ◌&&◌, eqb, ltb,
}
use lslc_core.Common.Int.{ℤ, pos, negsuc}
use lslc_core.Common.Dict.{assign}
use lslc_core.Gateway.{
  Config, Device, Resource, Agent, exec_type_task, exec_type_timer, exec_type_service, resource_id,
}
use lslc_core.Gateway.Agents.{Os, AgentManager, Outbox, command_of}

-- A goroutine that executes an agent: at each tick of a timer, or once.
pub data Routine : Type 0 where
  ticking once : String → Agent → Routine

-- The product `interval * time.Second` of an int64, as its 64 bits.
unfoldable pub period : ℤ → ℕ
period (pos n) = n * 1000000000 % 2 ^ 64
period (negsuc n) = (2 ^ 64 - (n + 1) * 1000000000 % 2 ^ 64) % 2 ^ 64

-- Whether time.NewTicker takes a period; it panics for one that is not positive.
unfoldable pub ticks_at : ℕ → Bool
ticks_at p = not (eqb p 0) && ltb p (2 ^ 63)

module _ (o : Os) where
  -- newAgentManager
  unfoldable pub new_agent_manager : Config → o.State → AgentManager o
  new_agent_manager c s = record {
    os = s;
    config = c;
    timers = [];
    services = [];
    service_inpipes = [];
    data_cache = [];
    publish_outbox = none;
    blocked = false;
  }

  -- setPublishingChannel
  unfoldable pub set_publishing_channel : Outbox → AgentManager o → AgentManager o
  set_publishing_channel b m = record m { publish_outbox = some b }

  -- What starting agents makes: the manager and the goroutines, or a panic.
  abbrev pub Started : Type 0
  Started = Result String (AgentManager o × List Routine)

  -- createTimer
  unfoldable pub create_timer : String → Agent → AgentManager o → Started
  unfolding period ticks_at
  create_timer id a m =
      if not (a.type == exec_type_timer)
      then ok (m, [])
      else if ticks_at (period a.interval)
      then ok (record m { timers = id ∷ m.timers }, ticking id a ∷ [])
      else err "non-positive interval for NewTicker"

  -- validateTask
  unfoldable pub validate_task : String → Agent → AgentManager o → AgentManager o × List Routine
  validate_task id a m = if not (a.type == exec_type_task) then (m, []) else (m, once id a ∷ [])

  -- executeService, without its goroutine: the input pipe is kept before the output pipe is opened.
  unfoldable pub execute_service : String → Agent → AgentManager o → AgentManager o × Option String
  execute_service id a m =
      let cmd = command_of o a m.os in
      let (s1, opened) = o.stdin_pipe cmd m.os in
      elim opened [
        | err x ↦ (record m { os = s1 }, some x)
        | ok pipe ↦
            let m1 = record m { os = s1; service_inpipes = assign id pipe m.service_inpipes } in
            let (s2, failed) = o.stdout_pipe cmd s1 in
            elim failed [
              | some x ↦ (record m1 { os = s2 }, some x)
              | none ↦ (record m1 { os = o.start cmd s2 }, none)
            ]
      ]

  -- createService: an error is only logged.
  unfoldable pub create_service : String → Agent → AgentManager o → AgentManager o
  unfolding execute_service
  create_service id a m =
      if not (a.type == exec_type_service)
      then m
      else (let (m', failed) = execute_service id a m in
          elim failed [ some x ↦ m' | none ↦ record m' { services = id ∷ m'.services } ])

  -- The switch of start over the type of an agent.
  unfoldable pub create_agent : String → Agent → AgentManager o → Started
  unfolding create_timer validate_task create_service
  create_agent id a m =
      if a.type == exec_type_timer
      then create_timer id a m
      else if a.type == exec_type_task
      then ok (validate_task id a m)
      else if a.type == exec_type_service
      then ok (create_service id a m, [])
      else ok (m, [])

  -- Agents that are started after others.
  abbrev and_then : Started → (AgentManager o → Started) → Started
  and_then (err x) f = err x
  and_then (ok (m, l)) f = result_map (λ (p : AgentManager o × List Routine). (p.0, l ++ p.1)) (f m)

  -- The loop of start over the resources of a device.
  unfoldable pub create_resources : Device → List Resource → AgentManager o → Started
  unfolding create_agent
  create_resources d [] m = ok (m, [])
  create_resources d (r ∷ rs) m =
      and_then (create_agent (resource_id d r.name) r.agent m) (create_resources d rs)

  -- The loop of start over the devices.
  unfoldable pub create_agents : List Device → AgentManager o → Started
  unfolding create_resources
  create_agents [] m = ok (m, [])
  create_agents (d ∷ ds) m = and_then (create_resources d d.resources m) (create_agents ds)
