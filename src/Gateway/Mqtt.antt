-- ===== src/Gateway/Mqtt.antt =====
-- The MQTT connector: src/linksmart.eu/lc/core/cmd/device-gateway/mqtt.go. The client of the broker
-- is seen by whether it is connected and by what is published on it. A round of publisher, a call of
-- onConnected or of onConnectionLost and a message of the broker are steps. onConnected waits on an
-- empty buffer: `waiting` is the number of its calls that do.
pub mod Offline
use lslc_core.Common.{
  ℕ, zero, suc, ◌+◌, ◌-◌, String, Bool, true, false, not, List, [], ◌∷◌, ◌++◌, Option, none, some,
  if◌then◌else◌, ◌==◌, eqb, ltb, length,
}
use lslc_core.Common.Dict.{Dict, lookup, assign}
use lslc_core.Common.Words.{concat}
use lslc_core.Gateway.{
  Config, Device, Resource, SupportedProtocol, MqttProtocol, protocol_type_mqtt, resource_id,
}
use lslc_core.Gateway.Agents.{AgentResponse, DataRequest, write}

-- A call of client.Publish, with whether the client was connected.
pub record Publication : Type 0 where
  pub connected : Bool
  pub topic : String
  pub payload : String

-- The maps of topics that newMQTTConnector builds, and whether MQTT is required.
pub record Topics : Type 0 where
  pub requires_mqtt : Bool
  pub pub_topics : Dict String
  pub sub_topics_rvsd : Dict String

-- MQTTConnector; the buffer for times without a connection holds config.offline_buffer responses.
pub record MqttConnector : Type 0 where
  pub config : MqttProtocol
  pub topics : Topics
  pub connected : Bool
  pub offline_buffer : List AgentResponse
  pub waiting : ℕ
  pub sent : List Publication

-- The topic to publish a resource to.
unfoldable pub publish_topic : MqttProtocol → String → SupportedProtocol → String
publish_topic mqtt id p =
    if p.pub_topic == "" then concat (mqtt.prefix ∷ "/" ∷ id ∷ []) else p.pub_topic

module _ (mqtt : MqttProtocol) where
  -- What the loop does for an MQTT protocol of a resource.
  unfoldable pub add_topic : String → SupportedProtocol → Topics → Topics
  unfolding publish_topic
  add_topic id p t = record {
    requires_mqtt = true;
    pub_topics = assign id (publish_topic mqtt id p) t.pub_topics;
    sub_topics_rvsd =
        if p.sub_topic == "" then t.sub_topics_rvsd else assign p.sub_topic id t.sub_topics_rvsd;
  }

  -- The loop over the protocols of a resource.
  unfoldable pub add_protocols : String → List SupportedProtocol → Topics → Topics
  unfolding add_topic
  add_protocols id [] t = t
  add_protocols id (p ∷ ps) t =
      add_protocols id ps (if p.type == protocol_type_mqtt then add_topic id p t else t)

  -- The loop over the resources of a device.
  unfoldable pub add_resources : Device → List Resource → Topics → Topics
  unfolding add_protocols
  add_resources d [] t = t
  add_resources d (r ∷ rs) t =
      add_resources d rs (add_protocols (resource_id d r.name) r.protocols t)

  -- The loop over the devices.
  unfoldable pub add_devices : List Device → Topics → Topics
  unfolding add_resources
  add_devices [] t = t
  add_devices (d ∷ ds) t = add_devices ds (add_resources d d.resources t)

-- The empty maps.
abbrev pub no_topics : Topics
no_topics = record { requires_mqtt = false; pub_topics = []; sub_topics_rvsd = [] }

-- A connector with its maps, before it is started.
abbrev pub connector_of : MqttProtocol → Topics → MqttConnector
connector_of mqtt t = record {
  config = mqtt;
  topics = t;
  connected = false;
  offline_buffer = [];
  waiting = 0;
  sent = [];
}

-- newMQTTConnector
unfoldable pub new_mqtt_connector : Config → Option MqttConnector
unfolding add_devices
new_mqtt_connector c = elim c.mqtt [
  | none ↦ none
  | some mqtt ↦
      let t = add_devices mqtt c.devices no_topics in
      if not t.requires_mqtt then none else some (connector_of mqtt t)
]

-- c.pubTopics[id]: the empty topic for a resource that has none
unfoldable pub topic_of : MqttConnector → String → String
topic_of c id = elim (lookup id c.topics.pub_topics) [ none ↦ "" | some topic ↦ topic ]

-- A response is published, unless it is an error.
unfoldable pub publish : AgentResponse → MqttConnector → MqttConnector
unfolding topic_of
publish resp c = if resp.is_error then c else record c {
  sent =
      c.sent
      ++ (record {
        connected = c.connected;
        topic = topic_of c resp.resource_id;
        payload = resp.payload;
      }
          ∷ []);
}

-- A send to the buffer with a default. A waiting call of onConnected takes the response at once,
-- and returns after it unless it is an error.
unfoldable pub keep_offline : AgentResponse → MqttConnector → MqttConnector
unfolding publish
keep_offline resp c =
    if ltb 0 c.waiting
    then (if resp.is_error then c else publish resp (record c { waiting = c.waiting - 1 }))
    else if ltb (length c.offline_buffer) c.config.offline_buffer
    then record c { offline_buffer = c.offline_buffer ++ (resp ∷ []) }
    else c

-- A round of publisher.
unfoldable pub publisher : AgentResponse → MqttConnector → MqttConnector
unfolding publish keep_offline
publisher resp c =
    if not c.connected
    then if eqb c.config.offline_buffer 0 then c else keep_offline resp c
    else publish resp c

-- The loop of onConnected over the buffer: it ends after a response that is not an error and is
-- the last, and else waits.
unfoldable pub drain : List AgentResponse → MqttConnector → MqttConnector
unfolding publish
drain [] c = record c { offline_buffer = []; waiting = suc c.waiting }
drain (resp ∷ []) c =
    if resp.is_error
    then record c { offline_buffer = []; waiting = suc c.waiting }
    else publish resp (record c { offline_buffer = [] })
drain (resp ∷ next ∷ rest) c = drain (next ∷ rest) (publish resp c)

-- onConnected, without the subscriptions.
unfoldable pub on_connected : MqttConnector → MqttConnector
unfolding drain
on_connected c = drain c.offline_buffer (record c { connected = true })

-- onConnectionLost, without the new client and the attempts to connect.
unfoldable pub on_connection_lost : MqttConnector → MqttConnector
on_connection_lost c = record c { connected = false }

-- publisher over a sequence of responses.
unfoldable pub publish_all : List AgentResponse → MqttConnector → MqttConnector
unfolding publisher
publish_all [] c = c
publish_all (resp ∷ rs) c = publish_all rs (publisher resp c)

-- messageHandler: the request that it sends to the manager of the agents, if any.
unfoldable pub message_handler : MqttConnector → String → String → Option DataRequest
message_handler c topic payload = elim (lookup topic c.topics.sub_topics_rvsd) [
  | none ↦ none
  | some id ↦ some (record { resource_id = id; type = write; arguments = payload; reply = false })
]

-- The wait before the next attempt in connect, in seconds.
unfoldable pub next_back_off : ℕ → ℕ
next_back_off b = if eqb b 0 then 10 else if ltb b 601 then b + b else b
