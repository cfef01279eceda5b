-- ===== src/Gateway/Mqtt/Offline.antt =====
-- What becomes of responses while there is no connection to the broker.
use lslc_core.Common.{
  suc, ◌-◌, true, false, not, ◌≡◌, refl, sym, ap, ◌∙◌, List, [], ◌∷◌, ◌++◌, if◌then◌else◌, eqb, ltb,
  length, take, take-nil, length-append, append-nil, append_assoc, keep, map, arith, Bool-cases,
  inl, inr,
}
use lslc_core.Gateway.Agents.{AgentResponse}
use lslc_core.Gateway.Mqtt.{
  Publication, MqttConnector, topic_of, publish, keep_offline, publisher, drain, on_connected,
  on_connection_lost, publish_all,
}

-- The publications of the responses that are not errors, on a connected client.
abbrev pub publications : MqttConnector → List AgentResponse → List Publication
publications c rs =
    map
      (λ (r : AgentResponse). record {
        connected = true;
        topic = topic_of c r.resource_id;
        payload = r.payload;
      })
      (keep (λ (r : AgentResponse). not r.is_error) rs)

abbrev with_buffer : MqttConnector → List AgentResponse → MqttConnector
with_buffer c l = record c { offline_buffer = l }

-- A round of publisher with no connection and no waiting call.
publisher_off :
    (c : MqttConnector) (r : AgentResponse)
    → c.connected ≡ false
    → c.waiting ≡ 0
    → publisher r c ≡ (
        if ltb (length c.offline_buffer) c.config.offline_buffer
        then with_buffer c (c.offline_buffer ++ (r ∷ []))
        else c)
unfolding publisher keep_offline
publisher_off c r off nobody = elim (Bool-cases (eqb c.config.offline_buffer 0)) [
  | inl z ↦
      let full : ltb (length c.offline_buffer) c.config.offline_buffer ≡ false = ground arith in
      rw (off, publisher) (rw (z, publisher) (rw full refl))
  | inr nz ↦ rw (off, publisher) (rw (nz, publisher) (rw (nobody, keep_offline) refl))
]

publish_all_off :
    (rs : List AgentResponse) (c : MqttConnector)
    → c.connected ≡ false
    → c.waiting ≡ 0
    → publish_all rs c
      ≡ with_buffer c
          (c.offline_buffer ++ take (c.config.offline_buffer - length c.offline_buffer) rs)
unfolding publish_all
publish_all_off [] c off nobody = ap (with_buffer c) (
    sym (append-nil c.offline_buffer)
    ∙ ap (λ l. c.offline_buffer ++ l)
        (sym (take-nil (c.config.offline_buffer - length c.offline_buffer))))
publish_all_off (r ∷ rs) c off nobody =
    let buffer = c.offline_buffer in
    let room = c.config.offline_buffer - length buffer in
    elim (Bool-cases (ltb (length buffer) c.config.offline_buffer)) [
      | inl free ↦
          let next = with_buffer c (buffer ++ (r ∷ [])) in
          let less : room ≡ suc (c.config.offline_buffer - length (buffer ++ (r ∷ []))) =
            ground (arith, length-append buffer (r ∷ [])) in
          ap (publish_all rs) (publisher_off c r off nobody ∙ ap (λ b. if b then next else c) free)
          ∙ publish_all_off rs next off nobody
          ∙ ap (with_buffer c) (
              append_assoc buffer (r ∷ [])
                (take (c.config.offline_buffer - length (buffer ++ (r ∷ []))) rs)
              ∙ ap (λ n. buffer ++ take n (r ∷ rs)) (sym less))
      | inr full ↦
          let none_left : room ≡ 0 = ground arith in
          ap (publish_all rs) (
            publisher_off c r off nobody
            ∙ ap (λ b. if b then with_buffer c (buffer ++ (r ∷ [])) else c) full)
          ∙ publish_all_off rs c off nobody
          ∙ ap (λ n. with_buffer c (buffer ++ take n rs)) none_left
          ∙ ap (λ n. with_buffer c (buffer ++ take n (r ∷ rs))) (sym none_left)
    ]

-- The loop of onConnected publishes what the buffer holds.
drain_sent :
    (rs : List AgentResponse) (c : MqttConnector)
    → c.connected ≡ true
    → (drain rs c).sent ≡ c.sent ++ publications c rs
unfolding drain publish topic_of
drain_sent [] c on = sym (append-nil c.sent)
drain_sent (r ∷ []) c on = elim (Bool-cases r.is_error) [
  | inl bad ↦ rw (bad, publish) (sym (append-nil c.sent))
  | inr good ↦ rw (good, publish, on) refl
]
drain_sent (r ∷ next ∷ rest) c on = elim (Bool-cases r.is_error) [
  | inl bad ↦ rw (bad, publish) (drain_sent (next ∷ rest) c on)
  | inr good ↦
      let one : Publication = record {
        connected = true;
        topic = topic_of c r.resource_id;
        payload = r.payload;
      } in
      rw (good, publish, on)
        (drain_sent (next ∷ rest) (record c { connected = true; sent = c.sent ++ (one ∷ []) }) refl
          ∙ append_assoc c.sent (one ∷ []) (publications c (next ∷ rest)))
]

-- Responses that arrive while the client is not connected, no call of onConnected waits and the
-- buffer is empty are published once the client is connected, in their order and without the errors:
-- as many of the first ones as the buffer holds.
pub offline_delivery :
    (c : MqttConnector) (rs : List AgentResponse)
    → c.connected ≡ false
    → c.waiting ≡ 0
    → c.offline_buffer ≡ []
    → (on_connected (publish_all rs c)).sent
      ≡ c.sent ++ publications c (take c.config.offline_buffer rs)
unfolding on_connected topic_of
offline_delivery c rs off nobody empty =
    let l = take c.config.offline_buffer rs in
    let whole : c.config.offline_buffer - 0 ≡ c.config.offline_buffer = omega arith in
    let kept : publish_all rs c ≡ with_buffer c l =
      publish_all_off rs c off nobody
      ∙ ap (λ b. with_buffer c (b ++ take (c.config.offline_buffer - length b) rs)) empty
      ∙ ap (λ n. with_buffer c (take n rs)) whole in
    ap (λ (x : MqttConnector). (on_connected x).sent) kept
    ∙ drain_sent l (record (with_buffer c l) { connected = true }) refl

-- After a connection at which the buffer was empty, and its loss, the next response that is not an
-- error is neither kept nor published on a connected client: the waiting call of onConnected takes
-- it from the buffer and publishes it on a client without a connection.
pub quiet_connection_loses :
    (c : MqttConnector) (r : AgentResponse)
    → c.offline_buffer ≡ []
    → eqb c.config.offline_buffer 0 ≡ false
    → r.is_error ≡ false
    → let c' = publisher r (on_connection_lost (on_connected c)) in
      (c'.offline_buffer ≡ [])
      × (c'.sent
          ≡ c.sent
            ++ (record { connected = false; topic = topic_of c r.resource_id; payload = r.payload }
                ∷ []))
unfolding on_connected on_connection_lost drain publisher keep_offline publish topic_of
quiet_connection_loses c r empty holds good =
    let waits : ltb 0 (suc c.waiting) ≡ true = ground arith in
    rw (empty, drain, publisher)
      (rw (holds, keep_offline) (rw (waits, keep_offline) (rw (good, publish) (refl, refl))))
