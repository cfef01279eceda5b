-- ===== src/Gateway/Agents/Reads.antt =====
-- What a read request gives: the last response of an agent, or that of a task.
use lslc_core.Common.{
  String, true, false, not, ◌||◌, ◌≡◌, refl, sym, ◌∙◌, ap, subst, inl, inr, List, none, some, ◌==◌,
  eq_iff, arith, In, leb, ◌+◌, if◌then◌else◌, Bool-cases, Option-cases,
}
use lslc_core.Common.Dict.{lookup, assign, lookup_assigned}
use lslc_core.Gateway.{Resource, Agent, exec_type_task, find_resource}
use lslc_core.Gateway.Agents.{
  Os, AgentResponse, AgentManager, DataRequest, read, Outcome, replied, Message, send_to, is_fresh,
  error_response, execute_task, read_agent, handle_read, handle_request, run, serve_request, halt,
  stuck,
}
use lslc_core.Gateway.Agents.Replies.{execute_task_id, request_live, request_over}
use lslc_core.Gateway.Agents.Runs.{
  last_response, IsEmitted, run_config, run_cache, IsElsewhere, run_elsewhere,
}
use lslc_core.Gateway.Agents.Cache.{request-Keeps}

module _ (o : Os) where
  request_read :
      (m : AgentManager o) (req : DataRequest) (r : Resource)
      → find_resource m.config req.resource_id ≡ some r
      → req.type ≡ read
      → serve_request o m req ≡ handle_read o m r.agent req
  unfolding serve_request
  request_read m req r found reads = rw (found, reads, serve_request) refl

  -- What a loop that makes its rounds answers to a read.
  request_answered :
      (m m' : AgentManager o) (req : DataRequest) (r : Resource) (resp : AgentResponse)
      → m.blocked ≡ false
      → find_resource m.config req.resource_id ≡ some r
      → req.type ≡ read
      → handle_read o m r.agent req ≡ (m', replied resp)
      → handle_request o m req ≡ (record m' { blocked = false }, replied resp)
  request_answered m m' req r resp live found reads answered =
      request_live o m req live ∙ ap (halt o) (request_read m req r found reads ∙ answered)

  still_live : (m : AgentManager o) → m.blocked ≡ false → record m { blocked = false } ≡ m
  still_live m live = ap (λ b. record m { blocked = b }) (sym live)

  -- A cached response that may be served.
  read_hit :
      (m : AgentManager o) (a : Agent) (req : DataRequest) (resp : AgentResponse)
      → lookup req.resource_id m.data_cache ≡ some resp
      → (not (a.type == exec_type_task) || is_fresh (o.now m.os) resp) ≡ true
      → req.reply ≡ true
      → handle_read o m a req ≡ (m, replied resp)
  unfolding handle_read send_to
  read_hit m a req resp e hit there =
      rw (e, handle_read) (rw (hit, handle_read) (rw (there, send_to) refl))

  read_unavailable :
      (m : AgentManager o) (a : Agent) (req : DataRequest)
      → lookup req.resource_id m.data_cache ≡ none
      → (a.type == exec_type_task) ≡ false
      → req.reply ≡ true
      → handle_read o m a req ≡ (m, replied (error_response req.resource_id "Data not available"))
  unfolding handle_read read_agent send_to
  read_unavailable m a req e other there =
      rw (e, handle_read) (rw (other, read_agent) (rw (there, send_to) refl))

  -- The cache of the manager holds the response of an outcome, for a resource.
  abbrev Holds : String → AgentManager o × Outcome → Type 0
  Holds id (m, out) =
      (resp : AgentResponse) → out ≡ replied resp → lookup id m.data_cache ≡ some resp

  -- The program of a task is executed for a read.
  read_executed :
      (m : AgentManager o) (a : Agent) (req : DataRequest) (s : o.State) (out : AgentResponse)
      → (a.type == exec_type_task) ≡ true
      → req.reply ≡ true
      → execute_task o req.resource_id a "" m.os ≡ some (s, out)
      → read_agent o m a req
        ≡ (record m { os = s; data_cache = assign out.resource_id out m.data_cache }, replied out)
  unfolding read_agent send_to
  read_executed m a req s out task there e =
      rw (task, read_agent) (rw (e, read_agent) (rw (there, send_to) refl))

  read_agent-Holds :
      (m : AgentManager o) (a : Agent) (req : DataRequest)
      → (a.type == exec_type_task) ≡ true
      → req.reply ≡ true
      → Holds req.resource_id (read_agent o m a req)
  unfolding read_agent send_to
  read_agent-Holds m a req task there =
      elim (Option-cases (execute_task o req.resource_id a "" m.os)) [
        | inl e ↦
            let never : read_agent o m a req ≡ (m, stuck) = rw (task, read_agent) (rw e refl) in
            subst (Holds req.resource_id) (sym never) (λ resp same. absurd cc)
        | inr ((s, out), e) ↦
            let about =
              (eq_iff out.resource_id req.resource_id).1
                (execute_task_id o req.resource_id a "" m.os s out e) in
            subst (Holds req.resource_id) (sym (read_executed m a req s out task there e))
              (λ resp same.
                lookup_assigned m.data_cache out.resource_id req.resource_id out about ∙ cc)
      ]

  read-Holds :
      (m : AgentManager o) (a : Agent) (req : DataRequest)
      → (a.type == exec_type_task) ≡ true
      → req.reply ≡ true
      → Holds req.resource_id (handle_read o m a req)
  unfolding handle_read
  read-Holds m a req task there = elim (Option-cases (lookup req.resource_id m.data_cache)) [
    | inl e ↦ rw (e, handle_read) (read_agent-Holds m a req task there)
    | inr (x, e) ↦ elim (Bool-cases (not (a.type == exec_type_task) || is_fresh (o.now m.os) x)) [
      | inl hit ↦
          subst (Holds req.resource_id) (sym (read_hit m a req x e hit there)) (λ resp same. e ∙ cc)
      | inr miss ↦
          rw (e, handle_read) (rw (miss, handle_read) (read_agent-Holds m a req task there))
    ]
  ]

  -- After any messages that leave the loop live, a read of a resource whose agent is a timer or a service gives the last
  -- response that the agent sent, however old, or the error that there is none; it changes nothing.
  pub read_latest :
      (m : AgentManager o) (xs : List Message) (req : DataRequest) (r : Resource)
      → IsEmitted o m req.resource_id r
      → req.type ≡ read
      → req.reply ≡ true
      → (run o m xs).blocked ≡ false
      → handle_request o (run o m xs) req ≡ (
        run o m xs,
        replied (elim (last_response req.resource_id (lookup req.resource_id m.data_cache) xs) [
          | some resp ↦ resp
          | none ↦ error_response req.resource_id "Data not available"
        ]),
      )
  read_latest m xs req r (found, other) reads there live =
      let m' = run o m xs in
      let found' = ap (λ c. find_resource c req.resource_id) (run_config o m xs) ∙ found in
      let e = run_cache o m xs req.resource_id r (found, other) live in
      elim (Option-cases (last_response req.resource_id (lookup req.resource_id m.data_cache) xs)) [
        | inl none_yet ↦ rw none_yet (
            request_answered m' m' req r _ live found' reads
              (read_unavailable m' r.agent req (e ∙ none_yet) other there)
            ∙ ap (λ n. (n, replied (error_response req.resource_id "Data not available")))
                (still_live m' live))
        | inr (resp, last) ↦ rw last (
            request_answered m' m' req r resp live found' reads (
              read_hit m' r.agent req resp (e ∙ last)
                (ap (λ b. not b || is_fresh (o.now m'.os) resp) other) there)
            ∙ ap (λ n. (n, replied resp)) (still_live m' live))
      ]

  -- What the execution of the program of a task leaves and answers.
  abbrev pub executed : AgentManager o → Agent → DataRequest → AgentManager o × Outcome
  executed n a req = elim (execute_task o req.resource_id a "" n.os) [
    | none ↦ (record n { blocked = true }, stuck)
    | some (s, out) ↦
        (record n { os = s; data_cache = assign out.resource_id out n.data_cache }, replied out)
  ]

  -- The cache holds the response of a read of a task.
  first_read :
      (m : AgentManager o) (req : DataRequest) (r : Resource) (m' : AgentManager o)
      (resp : AgentResponse)
      → find_resource m.config req.resource_id ≡ some r
      → (r.agent.type == exec_type_task) ≡ true
      → req.type ≡ read
      → req.reply ≡ true
      → handle_request o m req ≡ (m', replied resp)
      → lookup req.resource_id m'.data_cache ≡ some resp
  first_read m req r m' resp found task reads there first = elim (Bool-cases m.blocked) [
    | inl over ↦
        let bad : ⊥ =
          cc (ap (λ (p : AgentManager o × Outcome). p.1) (sym first ∙ request_over o m req over)) in
        absurd bad
    | inr live ↦
        let holds =
          subst (Holds req.resource_id) (sym (request_read m req r found reads))
            (read-Holds m r.agent req task there) in
        let same = sym (request_live o m req live) ∙ first in
        sym (ap (λ (p : AgentManager o × Outcome). lookup req.resource_id p.0.data_cache) same)
        ∙ holds resp (ap (λ (p : AgentManager o × Outcome). p.1) same)
  ]

  -- A read of a task that the cache does not serve, on a loop that makes its rounds.
  second_read :
      (n : AgentManager o) (req : DataRequest) (r : Resource) (resp : AgentResponse)
      → find_resource n.config req.resource_id ≡ some r
      → (r.agent.type == exec_type_task) ≡ true
      → req.type ≡ read
      → req.reply ≡ true
      → n.blocked ≡ false
      → lookup req.resource_id n.data_cache ≡ some resp
      → is_fresh (o.now n.os) resp ≡ false
      → handle_request o n req ≡ executed n r.agent req
  unfolding handle_read read_agent
  second_read n req r resp found task reads there live e stale =
      let miss : (not (r.agent.type == exec_type_task) || is_fresh (o.now n.os) resp) ≡ false =
        rw (task, stale) refl in
      let again : handle_read o n r.agent req ≡ read_agent o n r.agent req =
        rw (e, handle_read) (rw (miss, handle_read) refl) in
      elim (Option-cases (execute_task o req.resource_id r.agent "" n.os)) [
        | inl never ↦
            let stops : read_agent o n r.agent req ≡ (n, stuck) =
              rw (task, read_agent) (rw never refl) in
            rw (never, executed)
              (request_live o n req live
                ∙ ap (halt o) (request_read n req r found reads ∙ again ∙ stops))
        | inr ((s, out), done) ↦
            rw (done, executed)
              (request_answered n
                  (record n { os = s; data_cache = assign out.resource_id out n.data_cache }) req r
                  out live found reads (again ∙ read_executed n r.agent req s out task there done)
                ∙ ap
                    (λ b. (
                      record n {
                        os = s;
                        data_cache = assign out.resource_id out n.data_cache;
                        blocked = b;
                      },
                      replied out,
                    ))
                    (sym live))
      ]

  -- A task is read, and then, after any messages about other resources that leave the loop live and
  -- at any time, read again. Up to three seconds after its response was cached, the second read is
  -- answered by the same response and changes nothing. Later, the program of the task is executed
  -- anew, and the second read is answered by its response, which the cache then holds; if the program
  -- never returns, the loop is blocked.
  pub read_task_again :
      (m : AgentManager o) (req : DataRequest) (r : Resource) (m' : AgentManager o)
      (resp : AgentResponse) (xs : List Message) (os : o.State)
      → find_resource m.config req.resource_id ≡ some r
      → (r.agent.type == exec_type_task) ≡ true
      → req.type ≡ read
      → req.reply ≡ true
      → handle_request o m req ≡ (m', replied resp)
      → ((x : Message) → In x xs → IsElsewhere o req.resource_id x)
      → (run o m' xs).blocked ≡ false
      → let n = record (run o m' xs) { os = os } in
        handle_request o n req ≡ (
          if leb (o.now os) (resp.cached + 3000000000)
          then (n, replied resp)
          else executed n r.agent req)
  unfolding is_fresh
  read_task_again m req r m' resp xs os found task reads there first other live =
      let n = record (run o m' xs) { os = os } in
      let kept =
        sym (ap (λ (p : AgentManager o × Outcome). p.0.config) first)
        ∙ (request-Keeps o m req).config in
      let found' : find_resource n.config req.resource_id ≡ some r =
        ap (λ c. find_resource c req.resource_id) (run_config o m' xs ∙ kept) ∙ found in
      let e : lookup req.resource_id n.data_cache ≡ some resp =
        run_elsewhere o m' xs req.resource_id other
        ∙ first_read m req r m' resp found task reads there first in
      elim (Bool-cases (leb (o.now os) (resp.cached + 3000000000))) [
        | inl fresh ↦ rw fresh (
            request_answered n n req r resp live found' reads (
              read_hit n r.agent req resp e
                (ap (λ b. not (r.agent.type == exec_type_task) || b) fresh ∙ ground arith) there)
            ∙ ap (λ k. (k, replied resp)) (still_live n live))
        | inr stale ↦ rw stale (second_read n req r resp found' task reads there live e stale)
      ]
