-- ===== src/Gateway/Agents/Cache.antt =====
-- How a request may change the manager of the agents.
use lslc_core.Common.{
  String, true, not, ◌||◌, ◌≡◌, refl, sym, subst, ◌⊎◌, inl, inr, none, some, ◌==◌, Bool-cases,
  Option-cases,
}
use lslc_core.Common.Dict.{lookup, assign}
use lslc_core.Gateway.{
  Resource, Agent, exec_type_task, exec_type_timer, exec_type_service, find_resource,
}
use lslc_core.Gateway.Agents.{
  Os, AgentResponse, AgentManager, DataRequest, read, write, is_fresh, write_service, handle_write,
  read_agent, handle_read, handle_request, serve_request, execute_task, Outcome,
}
use lslc_core.Gateway.Agents.Replies.{execute_task_id, type_cases, request_live, request_over}

-- How a request may change the manager: not the configuration, and the cache only by one response
-- of a task about the resource of the request.
pub record Keeps (o : Os) (m m' : AgentManager o) (id : String) : Type 0 where
  pub config : m'.config ≡ m.config
  pub cache :
      (m'.data_cache ≡ m.data_cache)
      ⊎ ((r : Resource) × (find_resource m.config id ≡ some r)
          × ((r.agent.type == exec_type_task) ≡ true)
          × (resp : AgentResponse) × (resp.resource_id ≡ id)
          × (m'.data_cache ≡ assign resp.resource_id resp m.data_cache))

module _ (o : Os) where
  same : (m : AgentManager o) (id : String) → Keeps o m m id
  same m id = record { config = refl; cache = inl refl }

  write_service-Keeps :
      (m : AgentManager o) (req : DataRequest) → Keeps o m (write_service o m req).0 req.resource_id
  unfolding write_service
  write_service-Keeps m req = elim (Option-cases (lookup req.resource_id m.service_inpipes)) [
    | inl e ↦ rw (e, write_service) (same m _)
    | inr (pipe, e) ↦
        rw (e, write_service)
          (elim (Option-cases (o.write pipe req.arguments m.os)) [
            | inl e1 ↦ rw (e1, write_service) (same m _)
            | inr ((s1, ignored), e1) ↦ elim (Option-cases (o.write pipe "\n" s1)) [
              | inl e2 ↦ rw (e1, e2, write_service) (record { config = refl; cache = inl refl })
              | inr ((s2, some x), e2) ↦
                  rw (e1, e2, write_service) (record { config = refl; cache = inl refl })
              | inr ((s2, none), e2) ↦
                  rw (e1, e2, write_service) (record { config = refl; cache = inl refl })
            ]
          ])
  ]

  write-Keeps :
      (m : AgentManager o) (a : Agent) (req : DataRequest)
      → Keeps o m (handle_write o m a req).0 req.resource_id
  unfolding handle_write
  write-Keeps m a req = elim (Bool-cases (a.type == exec_type_timer || a.type == exec_type_task)) [
    | inl hit ↦
        rw (hit, handle_write)
          (elim (Option-cases (execute_task o req.resource_id a req.arguments m.os)) [
            | inl e ↦ rw (e, handle_write) (same m _)
            | inr ((s, resp), e) ↦ rw (e, handle_write) (record { config = refl; cache = inl refl })
          ])
    | inr miss ↦
        rw (miss, handle_write)
          (elim (Bool-cases (a.type == exec_type_service)) [
            | inl hit ↦ rw (hit, handle_write) (write_service-Keeps m req)
            | inr miss' ↦ rw (miss', handle_write) (same m _)
          ])
  ]

  read_agent-Keeps :
      (m : AgentManager o) (r : Resource) (req : DataRequest)
      → find_resource m.config req.resource_id ≡ some r
      → Keeps o m (read_agent o m r.agent req).0 req.resource_id
  unfolding read_agent
  read_agent-Keeps m r req found = elim (Bool-cases (r.agent.type == exec_type_task)) [
    | inl hit ↦
        rw (hit, read_agent)
          (elim (Option-cases (execute_task o req.resource_id r.agent "" m.os)) [
            | inl e ↦ rw (e, read_agent) (same m _)
            | inr ((s, resp), e) ↦
                rw (e, read_agent)
                  (record {
                    config = refl;
                    cache = inr (
                      r,
                      found,
                      hit,
                      resp,
                      execute_task_id o req.resource_id r.agent "" m.os s resp e,
                      refl,
                    );
                  })
          ])
    | inr miss ↦ rw (miss, read_agent) (same m _)
  ]

  read-Keeps :
      (m : AgentManager o) (r : Resource) (req : DataRequest)
      → find_resource m.config req.resource_id ≡ some r
      → Keeps o m (handle_read o m r.agent req).0 req.resource_id
  unfolding handle_read
  read-Keeps m r req found = elim (Option-cases (lookup req.resource_id m.data_cache)) [
    | inl e ↦ rw (e, handle_read) (read_agent-Keeps m r req found)
    | inr (x, e) ↦
        let test = not (r.agent.type == exec_type_task) || is_fresh (o.now m.os) x in
        rw (e, handle_read)
          (elim (Bool-cases test) [
            | inl hit ↦ rw (hit, handle_read) (same m _)
            | inr miss ↦ rw (miss, handle_read) (read_agent-Keeps m r req found)
          ])
  ]

  serve-Keeps :
      (m : AgentManager o) (req : DataRequest) → Keeps o m (serve_request o m req).0 req.resource_id
  unfolding serve_request
  serve-Keeps m req = elim (Option-cases (find_resource m.config req.resource_id)) [
    | inl e ↦ rw (e, serve_request) (same m _)
    | inr (r, e) ↦
        rw (e, serve_request)
          (elim (type_cases req.type) [
            | inl reads ↦ rw (reads, serve_request) (read-Keeps m r (record req { type = read }) e)
            | inr writes ↦
                rw (writes, serve_request) (write-Keeps m r.agent (record req { type = write }))
          ])
  ]

  pub request-Keeps :
      (m : AgentManager o) (req : DataRequest)
      → Keeps o m (handle_request o m req).0 req.resource_id
  request-Keeps m req = elim (Bool-cases m.blocked) [
    | inl over ↦
        subst (λ (p : AgentManager o × Outcome). Keeps o m p.0 req.resource_id)
          (sym (request_over o m req over)) (same m req.resource_id)
    | inr live ↦
        let k = serve-Keeps m req in
        subst (λ (p : AgentManager o × Outcome). Keeps o m p.0 req.resource_id)
          (sym (request_live o m req live)) (record { config = k.config; cache = k.cache })
  ]
