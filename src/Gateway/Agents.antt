-- ===== src/Gateway/Agents.antt =====
-- The manager of the agents: src/linksmart.eu/lc/core/cmd/device-gateway/agents.go. A message of an
-- inbox is one round of the loop of start, so a run is a list of messages. What the operating system
-- does is a parameter.
pub mod Task
unfoldable pub use Task.*
pub mod Cache
pub mod Replies
pub mod Start
pub mod Runs
pub mod Reads
use lslc_core.Common.{
  ℕ, ◌+◌, String, Bool, true, false, ◌||◌, not, List, [], ◌∷◌, ◌++◌, Option, none, some, Result, ok,
  err, if◌then◌else◌, ◌==◌, leb, ltb, eqb, length,
}
use lslc_core.Common.Dict.{Dict, lookup, assign}
use lslc_core.Common.Texts
use lslc_core.Common.Words.{concat, trim_newlines}
use lslc_core.Gateway.{
  Config, Agent, Resource, SupportedProtocol, exec_type_task, exec_type_timer, exec_type_service,
  protocol_type_mqtt, find_resource,
}

pub data DataRequestType : Type 0 where
  read write : DataRequestType

-- DataRequest; `reply` is whether the channel Reply is there.
pub record DataRequest : Type 0 where
  pub resource_id : String
  pub type : DataRequestType
  pub arguments : String
  pub reply : Bool

-- The channel to publish to: what it holds, and its capacity.
pub record Outbox : Type 0 where
  pub capacity : ℕ
  pub queue : List AgentResponse

-- AgentManager with the operating system; of the tickers and of the processes only the keys are
-- kept. `blocked` is whether the goroutine of the loop waits for ever in one of its rounds.
pub record AgentManager (o : Os) : Type 0 where
  pub os : o.State
  pub config : Config
  pub timers : List String
  pub services : List String
  pub service_inpipes : Dict o.Pipe
  pub data_cache : Dict AgentResponse
  pub publish_outbox : Option Outbox
  pub blocked : Bool

-- What becomes of a request: a reply, none, or a round that never returns, in a send on the nil
-- channel or a call of the operating system, or is never made.
pub data Outcome : Type 0 where
  replied : AgentResponse → Outcome
  silent : Outcome
  stuck : Outcome

abbrev pub is_stuck : Outcome → Bool
is_stuck (replied resp) = false
is_stuck silent = false
is_stuck stuck = true

-- A message of an inbox.
pub data Message : Type 0 where
  response : AgentResponse → Message
  request : DataRequest → Message

-- AgentResponseCacheTTL, in nanoseconds
abbrev pub agent_response_cache_ttl : ℕ
agent_response_cache_ttl = 3000000000

-- The reply to a write that is done.
abbrev pub done_response : String → AgentResponse
done_response id = record { resource_id = id; payload = ""; is_error = false; cached = 0 }

-- A reply that is sent only if the channel is there.
unfoldable pub reply_to : DataRequest → AgentResponse → Outcome
reply_to req resp = if req.reply then replied resp else silent

-- A reply that is sent without a test.
unfoldable pub send_to : DataRequest → AgentResponse → Outcome
send_to req resp = if req.reply then replied resp else stuck

-- The test of a response in the cache: `time.Now().Sub(cached) <= AgentResponseCacheTTL`.
unfoldable pub is_fresh : ℕ → AgentResponse → Bool
is_fresh now resp = leb now (resp.cached + agent_response_cache_ttl)

-- A send with a default: the value is skipped if the channel is full.
unfoldable pub offer : AgentResponse → Outbox → Outbox
offer resp b =
    if ltb (length b.queue) b.capacity then record b { queue = b.queue ++ (resp ∷ []) } else b

-- The loop over the protocols of a resource that publishes a response.
unfoldable pub publish : Agent → List SupportedProtocol → AgentResponse → Outbox → Outbox
unfolding offer
publish a [] resp b = b
publish a (p ∷ ps) resp b =
    let rest = publish a ps resp (offer resp b) in
    let same = publish a ps resp b in
    if p.type == protocol_type_mqtt
    then if a.type == exec_type_timer || a.type == exec_type_service then rest else same
    else same

module _ (o : Os) where
  -- What a round of the loop of start does for a response of an agent.
  unfoldable pub store_response : AgentManager o → AgentResponse → AgentManager o
  unfolding publish
  store_response m resp =
      let cached = record m { data_cache = assign resp.resource_id resp m.data_cache } in
      elim m.publish_outbox [
        | none ↦ cached
        | some b ↦ elim (find_resource m.config resp.resource_id) [
          | none ↦ cached
          | some r ↦ record cached { publish_outbox = some (publish r.agent r.protocols resp b) }
        ]
      ]

  -- A round of the loop for a response, which is never made once the loop waits for ever.
  unfoldable pub handle_response : AgentManager o → AgentResponse → AgentManager o
  unfolding store_response
  handle_response m resp = if m.blocked then m else store_response m resp

  -- A write to the input pipe of a service: the error of the first Write is ignored.
  unfoldable pub write_service : AgentManager o → DataRequest → AgentManager o × Outcome
  unfolding reply_to
  write_service m req = elim (lookup req.resource_id m.service_inpipes) [
    | none ↦ (m, reply_to req (error_response req.resource_id "Service input pipe not found"))
    | some pipe ↦ elim (o.write pipe req.arguments m.os) [
      | none ↦ (m, stuck)
      | some (s1, ignored) ↦ elim (o.write pipe "\n" s1) [
        | none ↦ (record m { os = s1 }, stuck)
        | some (s2, some e) ↦ (
          record m { os = s2 },
          reply_to req (record (error_response req.resource_id e) { cached = o.now s2 }),
        )
        | some (s2, none) ↦ (record m { os = s2 }, reply_to req (done_response req.resource_id))
      ]
    ]
  ]

  -- A write request for a resource with an agent.
  unfoldable pub handle_write : AgentManager o → Agent → DataRequest → AgentManager o × Outcome
  unfolding execute_task write_service
  handle_write m a req =
      if a.type == exec_type_timer || a.type == exec_type_task
      then elim (execute_task o req.resource_id a req.arguments m.os) [
        | none ↦ (m, stuck)
        | some (s, resp) ↦ (record m { os = s }, reply_to req (done_response req.resource_id))
      ]
      else if a.type == exec_type_service
      then write_service m req
      else (m, reply_to req (error_response req.resource_id "Unsupported execution type"))

  -- The end of a read request that the cache does not serve.
  unfoldable pub read_agent : AgentManager o → Agent → DataRequest → AgentManager o × Outcome
  unfolding execute_task send_to
  read_agent m a req =
      if a.type == exec_type_task
      then elim (execute_task o req.resource_id a "" m.os) [
        | none ↦ (m, stuck)
        | some (s, resp) ↦ (
          record m { os = s; data_cache = assign resp.resource_id resp m.data_cache },
          send_to req resp,
        )
      ]
      else (m, send_to req (error_response req.resource_id "Data not available"))

  -- A read request for a resource with an agent.
  unfoldable pub handle_read : AgentManager o → Agent → DataRequest → AgentManager o × Outcome
  unfolding read_agent is_fresh
  handle_read m a req = elim (lookup req.resource_id m.data_cache) [
    | none ↦ read_agent m a req
    | some resp ↦
        if not (a.type == exec_type_task) || is_fresh (o.now m.os) resp
        then (m, send_to req resp)
        else read_agent m a req
  ]

  -- What a round of the loop of start does for a request.
  unfoldable pub serve_request : AgentManager o → DataRequest → AgentManager o × Outcome
  unfolding handle_write handle_read
  serve_request m req = elim (find_resource m.config req.resource_id) [
    | none ↦ (m, reply_to req (error_response req.resource_id "Resource not found"))
    | some r ↦ elim req.type [
      | write ↦ handle_write m r.agent req
      | read ↦ handle_read m r.agent req
    ]
  ]

  -- A round that never returns is the last one.
  abbrev pub halt : AgentManager o × Outcome → AgentManager o × Outcome
  halt (m, out) = (record m { blocked = is_stuck out }, out)

  -- A round of the loop of start for a request, which is never made once the loop waits for ever.
  unfoldable pub handle_request : AgentManager o → DataRequest → AgentManager o × Outcome
  unfolding serve_request
  handle_request m req = if m.blocked then (m, stuck) else halt (serve_request m req)

  -- A round of the loop, for a message of either inbox.
  unfoldable pub step : AgentManager o → Message → AgentManager o
  unfolding handle_response handle_request
  step m (response resp) = handle_response m resp
  step m (request req) = (handle_request m req).0

  -- The loop over a sequence of messages.
  unfoldable pub run : AgentManager o → List Message → AgentManager o
  unfolding step
  run m [] = m
  run m (x ∷ xs) = run (step m x) xs
