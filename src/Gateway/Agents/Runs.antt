-- ===== src/Gateway/Agents/Runs.antt =====
-- Requests after any messages of the agents and of other requests.
use lslc_core.Common.{
  String, true, false, ◌≡◌, In, refl, sym, ◌∙◌, ap, subst, inl, inr, List, [], ◌∷◌, Option, some,
  ◌==◌, if◌then◌else◌, eq_iff, Bool-cases, Option-cases,
}
use lslc_core.Common.Dict.{Dict, lookup, assign, lookup-assign, lookup_assigned, lookup_other}
use lslc_core.Gateway.{Resource, exec_type_task, find_resource}
use lslc_core.Gateway.Agents.{is_stuck}
use lslc_core.Gateway.Agents.{
  Os, AgentResponse, AgentManager, DataRequest, Message, response, request, handle_response,
  store_response, handle_request, step, run, IsReturning, read, Outcome, replied, silent, stuck,
  serve_request,
}
use lslc_core.Gateway.Agents.Replies.{
  IsOwn, IsAnswered, blocked, answers_request, answers_serve, request_live, request_over,
}
use lslc_core.Gateway.Agents.Cache.{request-Keeps}

-- The last response that an agent sent for a resource, or else the one before the messages.
abbrev pub last_response : String → Option AgentResponse → List Message → Option AgentResponse
last_response id before [] = before
last_response id before (response r ∷ xs) =
    last_response id (if r.resource_id == id then some r else before) xs
last_response id before (request req ∷ xs) = last_response id before xs

after :
    (id : String) (before : Option AgentResponse) (x : Message) (xs : List Message)
    → last_response id (last_response id before (x ∷ [])) xs ≡ last_response id before (x ∷ xs)
after id before (response r) xs = refl
after id before (request req) xs = refl

IsOwn-assign :
    (d : Dict AgentResponse) (r : AgentResponse) → IsOwn d → IsOwn (assign r.resource_id r d)
IsOwn-assign d r own id x h = elim (Bool-cases (r.resource_id == id)) [
  | inl here ↦
      let e : some r ≡ some x = sym (lookup_assigned d r.resource_id id r here) ∙ h in
      let e' : r ≡ x = cc in
      sym (ap (λ (y : AgentResponse). y.resource_id) e') ∙ (eq_iff r.resource_id id).0 here
  | inr elsewhere ↦ own id x (sym (lookup_other d r.resource_id id r elsewhere) ∙ h)
]

-- A read has a reply channel.
abbrev pub IsCalled : Message → Type 0
IsCalled (response r) = Unit
IsCalled (request req) = req.type ≡ read → req.reply ≡ true

module _ (o : Os) where
  -- A loop that is blocked makes no round.
  step_over : (m : AgentManager o) (x : Message) → m.blocked ≡ true → step o m x ≡ m
  unfolding step handle_response
  step_over m (response r) over = ap (λ b. if b then m else store_response o m r) over
  step_over m (request req) over =
      ap (λ (p : AgentManager o × Outcome). p.0) (request_over o m req over)

  run_over : (m : AgentManager o) (xs : List Message) → m.blocked ≡ true → run o m xs ≡ m
  unfolding run
  run_over m [] over = refl
  run_over m (x ∷ xs) over = ap (λ m'. run o m' xs) (step_over m x over) ∙ run_over m xs over

  -- If a run ends with a loop that is not blocked, it was not blocked before.
  pub run_was_live :
      (m : AgentManager o) (xs : List Message) → (run o m xs).blocked ≡ false → m.blocked ≡ false
  run_was_live m xs live = elim (Bool-cases m.blocked) [
    | inr before ↦ before
    | inl over ↦
        let bad : ⊥ = cc (ap (λ (y : AgentManager o). y.blocked) (run_over m xs over)) in absurd bad
  ]

  -- A response goes into the cache under its resource, and changes no configuration.
  stored_response :
      (m : AgentManager o) (r : AgentResponse)
      → ((store_response o m r).config ≡ m.config)
        × ((store_response o m r).data_cache ≡ assign r.resource_id r m.data_cache)
        × ((store_response o m r).blocked ≡ m.blocked)
  unfolding store_response
  stored_response m r = elim (Option-cases m.publish_outbox) [
    | inl e ↦ rw (e, store_response) (refl, refl, refl)
    | inr (b, e) ↦
        rw (e, store_response)
          (elim (Option-cases (find_resource m.config r.resource_id)) [
            | inl e' ↦ rw (e', store_response) (refl, refl, refl)
            | inr (x, e') ↦ rw (e', store_response) (refl, refl, refl)
          ])
  ]

  response_cached :
      (m : AgentManager o) (r : AgentResponse)
      → m.blocked ≡ false
      → ((handle_response o m r).config ≡ m.config)
        × ((handle_response o m r).data_cache ≡ assign r.resource_id r m.data_cache)
        × ((handle_response o m r).blocked ≡ false)
  unfolding handle_response
  response_cached m r live =
      let next = ap (λ b. if b then m else store_response o m r) live in
      let (config, cache, waits) = stored_response m r in
      (
        ap (λ (y : AgentManager o). y.config) next ∙ config,
        ap (λ (y : AgentManager o). y.data_cache) next ∙ cache,
        ap (λ (y : AgentManager o). y.blocked) next ∙ waits ∙ live,
      )

  step_config : (m : AgentManager o) (x : Message) → (step o m x).config ≡ m.config
  unfolding step
  step_config m (response r) = elim (Bool-cases m.blocked) [
    | inl over ↦ ap (λ (y : AgentManager o). y.config) (step_over m (response r) over)
    | inr live ↦ (response_cached m r live).0
  ]
  step_config m (request req) = (request-Keeps o m req).config

  pub run_config : (m : AgentManager o) (xs : List Message) → (run o m xs).config ≡ m.config
  unfolding run
  run_config m [] = refl
  run_config m (x ∷ xs) = run_config (step o m x) xs ∙ step_config m x

  step-IsOwn :
      (m : AgentManager o) (x : Message) → IsOwn m.data_cache → IsOwn (step o m x).data_cache
  unfolding step
  step-IsOwn m (response r) own = elim (Bool-cases m.blocked) [
    | inl over ↦
        subst (λ (y : AgentManager o). IsOwn y.data_cache) (sym (step_over m (response r) over)) own
    | inr live ↦ subst IsOwn (sym (response_cached m r live).1) (IsOwn-assign m.data_cache r own)
  ]
  step-IsOwn m (request req) own = elim (request-Keeps o m req).cache [
    | inl e ↦ subst IsOwn (sym e) own
    | inr (r, found, task, resp, about, e) ↦
        subst IsOwn (sym e) (IsOwn-assign m.data_cache resp own)
  ]

  run-IsOwn :
      (m : AgentManager o) (xs : List Message) → IsOwn m.data_cache → IsOwn (run o m xs).data_cache
  unfolding run
  run-IsOwn m [] own = own
  run-IsOwn m (x ∷ xs) own = run-IsOwn (step o m x) xs (step-IsOwn m x own)

  -- Where every call of the operating system returns, a request blocks the loop only if it is a
  -- read without a reply channel.
  live_after :
      (req : DataRequest) (out : Outcome)
      → IsAnswered req out
      → (req.type ≡ read → req.reply ≡ true)
      → is_stuck out ≡ false
  live_after req (replied r) x called = refl
  live_after req silent x called = refl
  live_after req stuck (blocked missing reads) called = absurd (cc (called reads))

  step_live :
      (m : AgentManager o) (x : Message)
      → IsReturning o
      → IsOwn m.data_cache
      → IsCalled x
      → m.blocked ≡ false
      → (step o m x).blocked ≡ false
  unfolding step
  step_live m (response r) returns own called live = (response_cached m r live).2
  step_live m (request req) returns own called live =
      subst (λ (p : AgentManager o × Outcome). p.0.blocked ≡ false)
        (sym (request_live o m req live))
        (live_after req (serve_request o m req).1 (answers_serve o returns m req own) called)

  -- A loop is not blocked by any messages whose reads have a reply channel, if every call of the
  -- operating system returns.
  pub run_live :
      (m : AgentManager o) (xs : List Message)
      → IsReturning o
      → IsOwn m.data_cache
      → ((x : Message) → In x xs → IsCalled x)
      → m.blocked ≡ false
      → (run o m xs).blocked ≡ false
  unfolding run
  run_live m [] returns own called live = live
  run_live m (x ∷ xs) returns own called live =
      run_live (step o m x) xs returns (step-IsOwn m x own) (λ y i. called y (inr i))
        (step_live m x returns own (called x (inl refl)) live)

  -- After any messages that leave the loop live, a request with a reply channel gets a reply, and
  -- the reply is about the resource of the request. A request without one gets none; the loop blocks
  -- for ever only if such a request is a read.
  pub run_answers :
      (m : AgentManager o) (xs : List Message) (req : DataRequest)
      → IsReturning o
      → IsOwn m.data_cache
      → (run o m xs).blocked ≡ false
      → IsAnswered req (handle_request o (run o m xs) req).1
  run_answers m xs req returns own live =
      answers_request o returns (run o m xs) req (run-IsOwn m xs own) live

  -- A resource whose agent is not a task.
  abbrev pub IsEmitted : AgentManager o → String → Resource → Type 0
  IsEmitted m id r =
      (find_resource m.config id ≡ some r) × ((r.agent.type == exec_type_task) ≡ false)

  step_cache :
      (m : AgentManager o) (x : Message) (id : String) (r : Resource)
      → IsEmitted m id r
      → m.blocked ≡ false
      → lookup id (step o m x).data_cache ≡ last_response id (lookup id m.data_cache) (x ∷ [])
  unfolding step
  step_cache m (response resp) id r h live =
      ap (lookup id) (response_cached m resp live).1
      ∙ lookup-assign m.data_cache resp.resource_id id resp
  step_cache m (request req) id r (found, other) live = elim (request-Keeps o m req).cache [
    | inl e ↦ ap (lookup id) e
    | inr (r', found', task, resp, about, e) ↦ elim (Bool-cases (resp.resource_id == id)) [
      | inr differs ↦ ap (lookup id) e ∙ lookup_other m.data_cache resp.resource_id id resp differs
      | inl tie ↦
          let same_id : req.resource_id ≡ id = sym about ∙ (eq_iff resp.resource_id id).0 tie in
          let both : some r' ≡ some r = sym found' ∙ ap (find_resource m.config) same_id ∙ found in
          let one : r' ≡ r = cc in
          let bad : ⊥ =
            cc (ap (λ (y : Resource). y.agent.type == exec_type_task) one, task, other) in
          absurd bad
    ]
  ]

  pub run_cache :
      (m : AgentManager o) (xs : List Message) (id : String) (r : Resource)
      → IsEmitted m id r
      → (run o m xs).blocked ≡ false
      → lookup id (run o m xs).data_cache ≡ last_response id (lookup id m.data_cache) xs
  unfolding run
  run_cache m [] id r h live = refl
  run_cache m (x ∷ xs) id r (found, other) live =
      run_cache (step o m x) xs id r (ap (λ c. find_resource c id) (step_config m x) ∙ found, other)
        live
      ∙ ap (λ before. last_response id before xs)
          (step_cache m x id r (found, other) (run_was_live m (x ∷ xs) live))
      ∙ after id (lookup id m.data_cache) x xs

  -- A message about another resource.
  abbrev pub IsElsewhere : String → Message → Type 0
  IsElsewhere id (response r) = (r.resource_id == id) ≡ false
  IsElsewhere id (request req) = (req.resource_id == id) ≡ false

  step_elsewhere :
      (m : AgentManager o) (x : Message) (id : String)
      → IsElsewhere id x
      → lookup id (step o m x).data_cache ≡ lookup id m.data_cache
  unfolding step
  step_elsewhere m (response r) id other = elim (Bool-cases m.blocked) [
    | inl over ↦ ap (λ (y : AgentManager o). lookup id y.data_cache) (step_over m (response r) over)
    | inr live ↦
        ap (lookup id) (response_cached m r live).1
        ∙ lookup_other m.data_cache r.resource_id id r other
  ]
  step_elsewhere m (request req) id other = elim (request-Keeps o m req).cache [
    | inl e ↦ ap (lookup id) e
    | inr (r, found, task, resp, about, e) ↦
        ap (lookup id) e
        ∙ lookup_other m.data_cache resp.resource_id id resp (ap (λ k. k == id) about ∙ other)
  ]

  -- Messages about other resources leave the response of a resource in the cache.
  pub run_elsewhere :
      (m : AgentManager o) (xs : List Message) (id : String)
      → ((x : Message) → In x xs → IsElsewhere id x)
      → lookup id (run o m xs).data_cache ≡ lookup id m.data_cache
  unfolding run
  run_elsewhere m [] id other = refl
  run_elsewhere m (x ∷ xs) id other =
      run_elsewhere (step o m x) xs id (λ y i. other y (inr i))
      ∙ step_elsewhere m x id (other x (inl refl))
