-- ===== src/Gateway/Registration/Topics.antt =====
-- The topics that a registration names are those that the connector publishes to.
use Prim.Native.String
use lslc_core.Common.{
  String, true, ◌≡◌, refl, sym, ap, ◌∙◌, ◌⊎◌, inl, inr, List, [], ◌∷◌, Option, none, some,
  if◌then◌else◌, ◌==◌, In, Bool-cases, eq_iff,
}
use lslc_core.Common.Dict.{lookup, lookup_assigned, lookup_other}
use lslc_core.Common.Words.{concat, concat_one}
use lslc_core.Gateway.{
  Config, Device, Resource, SupportedProtocol, MqttProtocol, protocol_type_mqtt, resource_id,
}
use lslc_core.Gateway.Registration.{registered_topic}
use lslc_core.Gateway.Mqtt.{
  Topics, publish_topic, add_topic, add_protocols, add_resources, add_devices, no_topics,
  MqttConnector, connector_of, new_mqtt_connector,
}

-- Both sides build the same topic: a prefix, the device and the resource.
topic_agrees :
    (mqtt : MqttProtocol) (d : Device) (r : Resource) (p : SupportedProtocol)
    → publish_topic mqtt (resource_id d r.name) p ≡ registered_topic mqtt d r p
unfolding publish_topic registered_topic resource_id
topic_agrees mqtt d r p =
    ap (λ s. if p.pub_topic == "" then String.◌++◌ mqtt.prefix (String.◌++◌ "/" s) else p.pub_topic)
      (concat_one (concat (d.name ∷ "/" ∷ r.name ∷ [])))

-- An MQTT protocol of a resource of the devices whose id is `id`, and whose registration names the
-- topic.
pub record IsRegistered (mqtt : MqttProtocol) (ds : List Device) (id topic : String) : Type 0 where
  pub d : Device
  pub r : Resource
  pub p : SupportedProtocol
  pub device_in : In d ds
  pub resource_in : In r d.resources
  pub protocol_in : In p r.protocols
  pub is_mqtt : (p.type == protocol_type_mqtt) ≡ true
  pub same_id : resource_id d r.name ≡ id
  pub names : registered_topic mqtt d r p ≡ topic

module _ (mqtt : MqttProtocol) where
  -- What the map of topics holds after a loop: what it held before, or a topic that is registered.
  abbrev Grows : List Device → Topics → Topics → Type 0
  Grows ds t t' =
      (id topic : String)
      → lookup id t'.pub_topics ≡ some topic
      → (lookup id t.pub_topics ≡ some topic) ⊎ IsRegistered mqtt ds id topic

  protocols_grow :
      (ds : List Device) (d : Device) (r : Resource) (ps : List SupportedProtocol) (t : Topics)
      → In d ds
      → In r d.resources
      → ((p : SupportedProtocol) → In p ps → In p r.protocols)
      → Grows ds t (add_protocols mqtt (resource_id d r.name) ps t)
  unfolding add_protocols add_topic
  protocols_grow ds d r [] t i j k id topic h = inl h
  protocols_grow ds d r (p ∷ ps) t i j k id topic h =
      elim (Bool-cases (p.type == protocol_type_mqtt)) [
        | inr other ↦
            protocols_grow ds d r ps t i j (λ q l. k q (inr l)) id topic
              (ap
                  (λ b.
                    lookup id
                      (add_protocols mqtt (resource_id d r.name) ps
                        (if b then add_topic mqtt (resource_id d r.name) p t else t)).pub_topics)
                  (sym other)
                ∙ h)
        | inl mqtt_one ↦
            let rid = resource_id d r.name in
            let t1 = add_topic mqtt rid p t in
            elim (protocols_grow ds d r ps t1 i j (λ q l. k q (inr l)) id topic
              (ap (λ b. lookup id (add_protocols mqtt rid ps (if b then t1 else t)).pub_topics)
                  (sym mqtt_one)
                ∙ h)) [
                  | inr found ↦ inr found
                  | inl there ↦ elim (Bool-cases (rid == id)) [
                    | inr differs ↦ inl (
                        sym (lookup_other t.pub_topics rid id (publish_topic mqtt rid p) differs)
                        ∙ there)
                    | inl same ↦
                        let both =
                          sym (lookup_assigned t.pub_topics rid id (publish_topic mqtt rid p) same)
                          ∙ there in
                        let e : publish_topic mqtt rid p ≡ topic = cc in
                        inr (record {
                          d = d;
                          r = r;
                          p = p;
                          device_in = i;
                          resource_in = j;
                          protocol_in = k p (inl refl);
                          is_mqtt = mqtt_one;
                          same_id = (eq_iff rid id).0 same;
                          names = sym (topic_agrees mqtt d r p) ∙ e;
                        })
                  ]
                ]
      ]

  resources_grow :
      (ds : List Device) (d : Device) (rs : List Resource) (t : Topics)
      → In d ds
      → ((r : Resource) → In r rs → In r d.resources)
      → Grows ds t (add_resources mqtt d rs t)
  unfolding add_resources
  resources_grow ds d [] t i k id topic h = inl h
  resources_grow ds d (r ∷ rs) t i k id topic h =
      let t1 = add_protocols mqtt (resource_id d r.name) r.protocols t in
      elim (resources_grow ds d rs t1 i (λ q l. k q (inr l)) id topic h) [
        | inr found ↦ inr found
        | inl there ↦
            protocols_grow ds d r r.protocols t i (k r (inl refl)) (λ q l. l) id topic there
      ]

  devices_grow :
      (all ds : List Device) (t : Topics)
      → ((d : Device) → In d ds → In d all)
      → Grows all t (add_devices mqtt ds t)
  unfolding add_devices
  devices_grow all [] t k id topic h = inl h
  devices_grow all (d ∷ ds) t k id topic h =
      let t1 = add_resources mqtt d d.resources t in
      elim (devices_grow all ds t1 (λ q l. k q (inr l)) id topic h) [
        | inr found ↦ inr found
        | inl there ↦ resources_grow all d d.resources t (k d (inl refl)) (λ q l. l) id topic there
      ]

-- The connector of a configuration publishes a resource only to a topic that the registration of an
-- MQTT protocol of a resource with its id names.
pub published_topics-IsRegistered :
    (c : Config) (mqtt : MqttProtocol) (connector : MqttConnector) (id topic : String)
    → c.mqtt ≡ some mqtt
    → new_mqtt_connector c ≡ some connector
    → lookup id connector.topics.pub_topics ≡ some topic
    → IsRegistered mqtt c.devices id topic
unfolding new_mqtt_connector lookup
published_topics-IsRegistered c mqtt connector id topic there made h =
    let t = add_devices mqtt c.devices no_topics in
    let made' = rw (there, new_mqtt_connector) at made in
    elim (Bool-cases t.requires_mqtt) [
      | inr idle ↦
          let none_made : ◌≡◌ {A = Option MqttConnector} none (some connector) = rw idle at made' in
          cc
      | inl required ↦
          let one : some (connector_of mqtt t) ≡ some connector = rw required at made' in
          let e : connector_of mqtt t ≡ connector = cc in
          let kept = ap (λ (x : MqttConnector). lookup id x.topics.pub_topics) e ∙ h in
          elim (devices_grow mqtt c.devices c.devices no_topics (λ d l. l) id topic kept) [
            | inr found ↦ found
            | inl before ↦ cc
          ]
    ]
