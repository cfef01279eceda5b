-- ===== src/Gateway.antt =====
-- The configuration of the device gateway, src/linksmart.eu/lc/core/cmd/device-gateway/config.go:
-- the structs, the ids of resources and FindResource. The map of protocols has two keys at most,
-- which loadConfig fills with values of one type each: it is two options.
pub mod Validation
pub mod Agents
pub mod Rest
pub mod Mqtt
pub mod Registration
mod Tests
use lslc_core.Common.{ℕ, String, Bool, List, [], ◌∷◌, Option, none, some, if◌then◌else◌, ◌==◌}
use lslc_core.Common.Words.{concat}
use lslc_core.Common.Int.{ℤ}
use lslc_core.Json.{Fields}
use lslc_core.Authz

pub record Agent : Type 0 where
  pub type : String
  pub interval : ℤ
  pub dir : String
  pub exec : String

-- The values of ExecType
abbrev pub exec_type_task : String
exec_type_task = "task"

abbrev pub exec_type_timer : String
exec_type_timer = "timer"

abbrev pub exec_type_service : String
exec_type_service = "service"

-- The values of ProtocolType
abbrev pub protocol_type_rest : String
protocol_type_rest = "REST"

abbrev pub protocol_type_mqtt : String
protocol_type_mqtt = "MQTT"

pub record SupportedProtocol : Type 0 where
  pub type : String
  pub methods : List String
  pub content_types : List String
  pub pub_topic : String
  pub sub_topic : String

pub record Resource : Type 0 where
  pub name : String
  pub meta : Fields
  pub representation : Fields
  pub protocols : List SupportedProtocol
  pub agent : Agent

pub record Device : Type 0 where
  pub name : String
  pub description : String
  pub meta : Fields
  pub ttl : ℕ
  pub resources : List Resource

pub record RestProtocol : Type 0 where
  pub location : String

pub record MqttProtocol : Type 0 where
  pub discover : Bool
  pub url : String
  pub prefix : String
  pub username : String
  pub password : String
  pub ca_file : String
  pub cert_file : String
  pub key_file : String
  pub offline_buffer : ℕ

pub record ObtainerConf : Type 0 where
  pub provider : String
  pub provider_url : String
  pub service_id : String
  pub username : String
  pub password : String

pub record ValidatorConf : Type 0 where
  pub enabled : Bool
  pub provider : String
  pub provider_url : String
  pub service_id : String
  pub basic_enabled : Bool
  pub authz : Option Authz.Conf

pub record Catalog : Type 0 where
  pub discover : Bool
  pub endpoint : String
  pub auth : Option ObtainerConf

pub record HttpConfig : Type 0 where
  pub bind_addr : String
  pub bind_port : ℤ

pub record StorageConfig : Type 0 where
  pub type : String

pub record Config : Type 0 where
  pub id : String
  pub description : String
  pub dnssd_enabled : Bool
  pub public_endpoint : String
  pub static_dir : String
  pub catalog : List Catalog
  pub http : HttpConfig
  pub storage : StorageConfig
  pub rest : Option RestProtocol
  pub mqtt : Option MqttProtocol
  pub devices : List Device
  pub auth : ValidatorConf

-- Device.ResourceId
unfoldable pub resource_id : Device → String → String
resource_id d name = concat (d.name ∷ "/" ∷ name ∷ [])

-- The inner loop of FindResource.
unfoldable pub find_in : Device → String → List Resource → Option Resource
unfolding resource_id
find_in d id [] = none
find_in d id (r ∷ rs) =
    let rest = find_in d id rs in if id == resource_id d r.name then some r else rest

-- The outer loop of FindResource.
unfoldable pub find_among : String → List Device → Option Resource
unfolding find_in
find_among id [] = none
find_among id (d ∷ ds) = elim (find_in d id d.resources) [
  | some r ↦ some r
  | none ↦ find_among id ds
]

-- FindResource
unfoldable pub find_resource : Config → String → Option Resource
unfolding find_among
find_resource c id = find_among id c.devices
