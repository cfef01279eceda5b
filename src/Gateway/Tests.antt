-- ===== src/Gateway/Tests.antt =====
-- A gateway with one device, runs of its manager and of its connector, and the theorems about it.
use lslc_core.Common.{
  ℕ, ◌+◌, String, true, false, ◌≡◌, refl, List, [], ◌∷◌, none, some, ok, inl, inr,
}
use lslc_core.Common.Int.{pos}
use lslc_core.Common.Dict.{lookup, assign}
use lslc_core.Common.Words.{trim_newlines}
use lslc_core.Json.{end, size}
use lslc_core.Gateway.{
  Config, Device, Resource, SupportedProtocol, MqttProtocol, exec_type_task, exec_type_timer,
  find_resource, resource_id,
}
use lslc_core.Gateway.Agents.{
  Os, AgentManager, AgentResponse, DataRequest, read, Message, response, request, replied,
  error_response, handle_request, run,
}
use lslc_core.Gateway.Agents.Start.{new_agent_manager, create_agents, create_agent, once, ticking}
use lslc_core.Gateway.Agents.Reads.{read_latest, read_task_again, executed}
use lslc_core.Gateway.Agents.Runs.{IsElsewhere}
use lslc_core.Common.{In, sym, subst, leb, if◌then◌else◌}
use lslc_core.Gateway.Rest.{Route}
use lslc_core.Gateway.Mqtt.{
  MqttConnector, topic_of, connector_of, add_devices, no_topics, new_mqtt_connector, on_connected,
  publish_all,
}
use lslc_core.Gateway.Mqtt.Offline.{offline_delivery}
use lslc_core.Gateway.Registration.Topics.{IsRegistered, published_topics-IsRegistered}
use lslc_core.Resource as Stored
use lslc_core.Tree.{UniqueTree}
use lslc_core.Tree.Nodes.{string_keys}
use lslc_core.Tree.Model.{keyed_list, timed_list}
use lslc_core.Resource.{validate as validate_device, validate_resource}
use lslc_core.Common.Texts.{contains, has_prefix, count_of, has_suffix}
use lslc_core.Resource.Controller.{add, update}
use lslc_core.Resource.Memory.{get as get_stored, add as store}
use lslc_core.Resource.State.{Env, Controller, add_indices}
use lslc_core.Resource.Memory.{operator}
use lslc_core.Resource.Memory.Laws.{memory_storage, is_zero-operator}
use lslc_core.Resource.Indices.Rids.{is_zero-string_keys}
use lslc_core.Resource.Indices.Start.{fresh, fresh-IsIndexed}
use lslc_core.Resource.Indices.Sound.{view}
use lslc_core.Resource.Controller.Run.{run as run_calls}
use lslc_core.Resource.Registry.Permanent.{IsPermanent}
use lslc_core.Gateway.Registration.{configure_devices}
use lslc_core.Gateway.Registration.Local.{register_in_local_catalog, ticks, configured_devices_stay}
use lslc_core.Gateway.Validation.{Checks, validate}
use lslc_core.Gateway.Validation.Accepted.{IsAccepted, validate-IsAccepted}

-- A machine on which a program takes a second and prints 21; the state is the time.
abbrev machine : Os
machine = record {
  State = ℕ;
  Pipe = Unit {0};
  now = λ s. s;
  getwd = λ s. "/opt/dgw";
  stdin_pipe = λ c s. (s, ok tt);
  write = λ p t s. some (s, none);
  output = λ c s. some (s + 1000000000, ok "21\n");
  stdout_pipe = λ c s. (s, none);
  start = λ c s. s;
}

abbrev mqtt : MqttProtocol
mqtt = record {
  discover = false;
  url = "tcp://localhost:1883";
  prefix = "/dgw";
  username = "";
  password = "";
  ca_file = "";
  cert_file = "";
  key_file = "";
  offline_buffer = 2;
}

abbrev protocol : String → SupportedProtocol
protocol type = record {
  type = type;
  methods = "GET" ∷ [];
  content_types = "text/plain" ∷ [];
  pub_topic = "";
  sub_topic = "";
}

abbrev sensor : String → String → Resource
sensor name type = record {
  name = name;
  meta = end;
  representation = end;
  protocols = protocol "REST" ∷ protocol "MQTT" ∷ [];
  agent = record { type = type; interval = pos 5; dir = ""; exec = "./read.sh" };
}

abbrev task : Resource
task = sensor "temperature" exec_type_task

abbrev timer : Resource
timer = sensor "humidity" exec_type_timer

abbrev device : Device
device = record {
  name = "room";
  description = "";
  meta = end;
  ttl = 60;
  resources = task ∷ timer ∷ [];
}

abbrev config : Config
config = record {
  id = "gateway";
  description = "Gateway";
  dnssd_enabled = false;
  public_endpoint = "http://localhost:8080";
  static_dir = "";
  catalog = [];
  http = record { bind_addr = "0.0.0.0"; bind_port = pos 8080 };
  storage = record { type = "" };
  rest = some (record { location = "/rest" });
  mqtt = some mqtt;
  devices = device ∷ [];
  auth = record {
    enabled = false;
    provider = "";
    provider_url = "";
    service_id = "";
    basic_enabled = false;
    authz = none;
  };
}

abbrev devices_tree : UniqueTree Stored.Device operator
devices_tree = keyed_list (λ d. d.id) operator is_zero-operator

-- The catalog of the gateway, over the in-memory storage.
abbrev world : Env
world = record {
  storage = memory_storage devices_tree;
  rid_tree = keyed_list (λ m. m.key) string_keys is_zero-string_keys;
  exp_tree = timed_list;
  url_error = λ s. none;
  format = record {
    time_text = λ t. "time";
    number_text = λ n. "number";
    print_composite = λ j. "[]";
  };
}

abbrev catalog : Controller world
catalog = fresh world [] "/rc" 1000

abbrev clock : ℕ → ℕ
clock i = 63000000000000000000 + i

configured_devices_stay_example :
    IsPermanent
      (view world (
        run_calls world
          (register_in_local_catalog world clock 0 (configure_devices config) catalog).0
          (ticks world (64000000000000000000 ∷ []))))
      "room"
unfolding register_in_local_catalog configure_devices update validate_device contains has_prefix
    validate_resource count_of has_suffix size get_stored add store add_indices
configured_devices_stay_example =
    configured_devices_stay world config clock catalog device (64000000000000000000 ∷ [])
      (fresh-IsIndexed world [] "/rc" 1000 (λ id. refl)) refl (inl refl) refl

abbrev checks : Checks
checks = record { parse_url = λ s. ok "tcp"; is_missing = λ s. false }

validate-IsAccepted_example : IsAccepted checks config
unfolding validate
validate-IsAccepted_example = validate-IsAccepted checks config refl

abbrev manager : AgentManager machine
manager = new_agent_manager machine config 1000

-- The timer ticks, and the task is executed once.
started :
    create_agents machine config.devices manager
    ≡ ok (
      record manager { timers = "room/humidity" ∷ [] },
      once "room/temperature" task.agent ∷ ticking "room/humidity" timer.agent ∷ [],
    )
unfolding create_agents new_agent_manager resource_id create_agent
started = refl

abbrev reading : String → String → AgentResponse
reading id payload = record { resource_id = id; payload = payload; is_error = false; cached = 1000 }

abbrev ask : String → DataRequest
ask id = record { resource_id = id; type = read; arguments = ""; reply = true }

-- Two readings of the timer, and a request for the task between them.
abbrev messages : List Message
messages =
    response (reading "room/humidity" "40")
    ∷ request (ask "room/temperature")
    ∷ response (reading "room/humidity" "41")
    ∷ []

read_latest_example :
    handle_request machine (run machine manager messages) (ask "room/humidity")
    ≡ (run machine manager messages, replied (reading "room/humidity" "41"))
unfolding create_agents new_agent_manager lookup find_resource run assign
read_latest_example =
    read_latest machine manager messages (ask "room/humidity") timer (refl, refl) refl refl refl

abbrev after_read : AgentManager machine
after_read = (handle_request machine manager (ask "room/temperature")).0

abbrev measured : AgentResponse
measured = reading "room/temperature" "21"

-- The timer ticks between two reads of the task, the second within three seconds of the first or not.
abbrev ticked_once : List Message
ticked_once = response (reading "room/humidity" "40") ∷ []

abbrev at : ℕ → AgentManager machine
at time = record (run machine after_read ticked_once) { os = time }

other_resource : (x : Message) → In x ticked_once → IsElsewhere machine "room/temperature" x
other_resource x (inl same) = subst (λ y. IsElsewhere machine "room/temperature" y) (sym same) refl
other_resource x (inr i) = elim i [ ]

read_task_again_example : handle_request machine (at 3000001001) (ask "room/temperature") ≡ (
    if leb 3000001001 (measured.cached + 3000000000)
    then (at 3000001001, replied measured)
    else executed machine (at 3000001001) task.agent (ask "room/temperature"))
unfolding create_agents new_agent_manager handle_request find_resource lookup trim_newlines run
    assign
read_task_again_example =
    read_task_again machine manager (ask "room/temperature") task after_read measured ticked_once
      3000001001 refl refl refl refl refl other_resource refl

abbrev route : Route
route = record { method = "GET"; path = "/rest/room/humidity"; resource_id = "room/humidity" }

abbrev connector : MqttConnector
connector = connector_of mqtt (add_devices mqtt config.devices no_topics)

abbrev readings : List AgentResponse
readings =
    reading "room/humidity" "40"
    ∷ error_response "room/humidity" "no sensor"
    ∷ reading "room/humidity" "42"
    ∷ []

-- The buffer holds two: the reading, and the error, which is not published.
offline_delivery_example :
    (on_connected (publish_all readings connector)).sent
    ≡ record { connected = true; topic = "/dgw/room/humidity"; payload = "40" } ∷ []
unfolding add_devices lookup topic_of assign resource_id
offline_delivery_example = offline_delivery connector readings refl refl refl

published_topics-IsRegistered_example :
    IsRegistered mqtt config.devices "room/humidity" "/dgw/room/humidity"
unfolding new_mqtt_connector add_devices lookup assign resource_id
published_topics-IsRegistered_example =
    published_topics-IsRegistered config mqtt connector "room/humidity" "/dgw/room/humidity" refl
      refl refl
