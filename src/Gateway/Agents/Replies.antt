-- ===== src/Gateway/Agents/Replies.antt =====
-- Every request is answered, about the resource that it asks for.
use lslc_core.Common.{
  String, true, false, not, ◌||◌, ◌≡◌, refl, ap, sym, if◌then◌else◌, ◌⊎◌, inl, inr, [], ◌∷◌, Option,
  none, some, ok, err, subst, ◌==◌, Bool-cases, Option-cases, Result-cases,
}
use lslc_core.Common.Dict.{Dict, lookup}
use lslc_core.Common.Words.{concat}
use lslc_core.Gateway.{Agent, exec_type_task, exec_type_timer, exec_type_service, find_resource}
use lslc_core.Gateway.Agents.{
  Os, AgentResponse, AgentManager, DataRequest, DataRequestType, read, write, Outcome, replied,
  silent, stuck, reply_to, send_to, is_fresh, command_of, execute_task, write_service, handle_write,
  read_agent, handle_read, handle_request, serve_request, halt, IsReturning,
}

-- Every response in the cache stands under its own resource.
abbrev pub IsOwn : Dict AgentResponse → Type 0
IsOwn cache = (id : String) (r : AgentResponse) → lookup id cache ≡ some r → r.resource_id ≡ id

-- What becomes of a request: a request with a channel gets a reply about its resource; one without
-- a channel gets none, and if it is a read that reaches a reply it blocks the loop.
pub data IsAnswered : DataRequest → Outcome → Type 0 where
  answered :
      {req : DataRequest} {r : AgentResponse}
      → req.reply ≡ true
      → r.resource_id ≡ req.resource_id
      → IsAnswered req (replied r)
  unanswered : {req : DataRequest} → req.reply ≡ false → IsAnswered req silent
  blocked : {req : DataRequest} → req.reply ≡ false → req.type ≡ read → IsAnswered req stuck

replied_to :
    (req : DataRequest) (r : AgentResponse)
    → r.resource_id ≡ req.resource_id
    → IsAnswered req (reply_to req r)
unfolding reply_to
replied_to req r same = elim (Bool-cases req.reply) [
  | inl there ↦ rw (there, reply_to) (answered refl same)
  | inr missing ↦ rw (missing, reply_to) (unanswered refl)
]

sent_to :
    (req : DataRequest) (r : AgentResponse)
    → r.resource_id ≡ req.resource_id
    → req.type ≡ read
    → IsAnswered req (send_to req r)
unfolding send_to
sent_to req r same reads = elim (Bool-cases req.reply) [
  | inl there ↦ rw (there, send_to) (answered refl same)
  | inr missing ↦ rw (missing, send_to) (blocked refl reads)
]

pub type_cases : (t : DataRequestType) → (t ≡ read) ⊎ (t ≡ write)
type_cases read = inl refl
type_cases write = inr refl

module _ (o : Os) where
  abbrev IsAbout : String → Option (o.State × AgentResponse) → Type 0
  IsAbout id none = Unit
  IsAbout id (some (s, r)) = r.resource_id ≡ id

  execute_task-IsAbout :
      (id : String) (a : Agent) (input : String) (s : o.State)
      → IsAbout id (execute_task o id a input s)
  unfolding execute_task
  execute_task-IsAbout id a input s = elim (Result-cases (o.stdin_pipe (command_of o a s) s).1) [
    | inr (m, e) ↦ rw (e, execute_task) refl
    | inl (pipe, e) ↦
        let s1 = (o.stdin_pipe (command_of o a s) s).0 in
        elim (Option-cases (o.write pipe (concat (input ∷ "\n" ∷ [])) s1)) [
          | inl e1 ↦ rw (e, e1, execute_task) tt
          | inr ((s2, some m), e1) ↦ rw (e, e1, execute_task) refl
          | inr ((s2, none), e1) ↦ elim (Option-cases (o.output (command_of o a s) s2)) [
            | inl e2 ↦ rw (e, e1, e2, execute_task) tt
            | inr ((s3, ok text), e2) ↦ rw (e, e1, e2, execute_task) refl
            | inr ((s3, err m), e2) ↦ rw (e, e1, e2, execute_task) refl
          ]
        ]
  ]

  -- The response of a task is about its resource, whether the task fails or not.
  pub execute_task_id :
      (id : String) (a : Agent) (input : String) (s s' : o.State) (resp : AgentResponse)
      → execute_task o id a input s ≡ some (s', resp)
      → resp.resource_id ≡ id
  execute_task_id id a input s s' resp e = subst (IsAbout id) e (execute_task-IsAbout id a input s)

  -- A request to a loop that makes its rounds.
  pub request_live :
      (m : AgentManager o) (req : DataRequest)
      → m.blocked ≡ false
      → handle_request o m req ≡ halt o (serve_request o m req)
  unfolding handle_request
  request_live m req live = ap (λ b. if b then (m, stuck) else halt o (serve_request o m req)) live

  -- A request to a loop that waits for ever waits too.
  pub request_over :
      (m : AgentManager o) (req : DataRequest)
      → m.blocked ≡ true
      → handle_request o m req ≡ (m, stuck)
  unfolding handle_request
  request_over m req over = ap (λ b. if b then (m, stuck) else halt o (serve_request o m req)) over

  abbrev IsThere : Option (o.State × AgentResponse) → Type 0
  IsThere none = ⊥
  IsThere (some r) = Unit

  module _ (returns : IsReturning o) where
    execute_task-IsThere :
        (id : String) (a : Agent) (input : String) (s : o.State)
        → IsThere (execute_task o id a input s)
    unfolding execute_task
    execute_task-IsThere id a input s = elim (Result-cases (o.stdin_pipe (command_of o a s) s).1) [
      | inr (m, e) ↦ rw (e, execute_task) tt
      | inl (pipe, e) ↦
          let s1 = (o.stdin_pipe (command_of o a s) s).0 in
          let ((s2, failed), e1) = returns.written pipe (concat (input ∷ "\n" ∷ [])) s1 in
          elim (Option-cases failed) [
            | inr (m, e2) ↦ rw (e, e1, e2, execute_task) tt
            | inl e2 ↦
                let ((s3, out), e3) = returns.ran (command_of o a s) s2 in
                elim (Result-cases out) [
                  | inl (text, e4) ↦ rw (e, e1, e2, e3, e4, execute_task) tt
                  | inr (m, e4) ↦ rw (e, e1, e2, e3, e4, execute_task) tt
                ]
          ]
    ]

    -- A task returns if the calls of the operating system do.
    execute_task_returns :
        (id : String) (a : Agent) (input : String) (s : o.State)
        → (r : o.State × AgentResponse) × (execute_task o id a input s ≡ some r)
    execute_task_returns id a input s = elim (Option-cases (execute_task o id a input s)) [
      | inl e ↦ absurd (subst IsThere e (execute_task-IsThere id a input s))
      | inr x ↦ x
    ]

    answers_write_service :
        (m : AgentManager o) (req : DataRequest) → IsAnswered req (write_service o m req).1
    unfolding write_service
    answers_write_service m req = elim (Option-cases (lookup req.resource_id m.service_inpipes)) [
      | inl e ↦ rw (e, write_service) (replied_to req _ refl)
      | inr (pipe, e) ↦
          rw (e, write_service)
            (let ((s1, ignored), e1) = returns.written pipe req.arguments m.os in
              let ((s2, failed), e2) = returns.written pipe "\n" s1 in
              elim (Option-cases failed) [
                | inl e3 ↦ rw (e1, e2, e3, write_service) (replied_to req _ refl)
                | inr (x, e3) ↦ rw (e1, e2, e3, write_service) (replied_to req _ refl)
              ])
    ]

    answers_write :
        (m : AgentManager o) (a : Agent) (req : DataRequest)
        → IsAnswered req (handle_write o m a req).1
    unfolding handle_write
    answers_write m a req =
        elim (Bool-cases (a.type == exec_type_timer || a.type == exec_type_task)) [
          | inl hit ↦
              let ((s, resp), e) = execute_task_returns req.resource_id a req.arguments m.os in
              rw (hit, handle_write) (rw (e, handle_write) (replied_to req _ refl))
          | inr miss ↦
              rw (miss, handle_write)
                (elim (Bool-cases (a.type == exec_type_service)) [
                  | inl hit ↦ rw (hit, handle_write) (answers_write_service m req)
                  | inr miss' ↦ rw (miss', handle_write) (replied_to req _ refl)
                ])
        ]

    answers_read_agent :
        (m : AgentManager o) (a : Agent) (req : DataRequest)
        → req.type ≡ read
        → IsAnswered req (read_agent o m a req).1
    unfolding read_agent
    answers_read_agent m a req reads = elim (Bool-cases (a.type == exec_type_task)) [
      | inl hit ↦
          let ((s, resp), e) = execute_task_returns req.resource_id a "" m.os in
          rw (hit, read_agent)
            (rw (e, read_agent)
              (sent_to req resp (execute_task_id req.resource_id a "" m.os s resp e) reads))
      | inr miss ↦ rw (miss, read_agent) (sent_to req _ refl reads)
    ]

    answers_read :
        (m : AgentManager o) (a : Agent) (req : DataRequest)
        → IsOwn m.data_cache
        → req.type ≡ read
        → IsAnswered req (handle_read o m a req).1
    unfolding handle_read
    answers_read m a req own reads = elim (Option-cases (lookup req.resource_id m.data_cache)) [
      | inl e ↦ rw (e, handle_read) (answers_read_agent m a req reads)
      | inr (r, e) ↦
          let test = not (a.type == exec_type_task) || is_fresh (o.now m.os) r in
          rw (e, handle_read)
            (elim (Bool-cases test) [
              | inl hit ↦ rw (hit, handle_read) (sent_to req r (own req.resource_id r e) reads)
              | inr miss ↦ rw (miss, handle_read) (answers_read_agent m a req reads)
            ])
    ]

    pub answers_serve :
        (m : AgentManager o) (req : DataRequest)
        → IsOwn m.data_cache
        → IsAnswered req (serve_request o m req).1
    unfolding serve_request
    answers_serve m req own = elim (Option-cases (find_resource m.config req.resource_id)) [
      | inl e ↦ rw (e, serve_request) (replied_to req _ refl)
      | inr (r, e) ↦
          rw (e, serve_request)
            (elim (type_cases req.type) [
              | inl reads ↦
                  rw (reads, serve_request)
                    (answers_read m r.agent (record req { type = read }) own refl)
              | inr writes ↦
                  rw (writes, serve_request) (answers_write m r.agent (record req { type = write }))
            ])
    ]

    -- Where the loop is not blocked, a request is answered.
    pub answers_request :
        (m : AgentManager o) (req : DataRequest)
        → IsOwn m.data_cache
        → m.blocked ≡ false
        → IsAnswered req (handle_request o m req).1
    answers_request m req own live =
        subst (λ (p : AgentManager o × Outcome). IsAnswered req p.1) (sym (request_live m req live))
          (answers_serve m req own)
