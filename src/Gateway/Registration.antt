-- ===== src/Gateway/Registration.antt =====
-- How the gateway describes its devices to a catalog: configureDevices of
-- src/linksmart.eu/lc/core/cmd/device-gateway/registration.go.
pub mod Topics
pub mod Local
use lslc_core.Common.{
  String, Bool, true, false, List, [], ◌∷◌, Option, none, some, if◌then◌else◌, ◌==◌, map,
}
use lslc_core.Common.Words.{concat}
use lslc_core.Json.{Fields, end, field, text}
use lslc_core.Resource as Catalog
use lslc_core.Gateway.{
  Config, Device, Resource, SupportedProtocol, MqttProtocol, protocol_type_rest, protocol_type_mqtt,
}

-- The location of the REST protocol, empty if it is not configured.
unfoldable pub rest_location : Config → String
rest_location c = elim c.rest [ none ↦ "" | some p ↦ p.location ]

-- The topic that the registration names for a resource.
unfoldable pub registered_topic : MqttProtocol → Device → Resource → SupportedProtocol → String
registered_topic mqtt d r p =
    if p.pub_topic == ""
    then concat (mqtt.prefix ∷ "/" ∷ d.name ∷ "/" ∷ r.name ∷ [])
    else p.pub_topic

-- The endpoint of an MQTT protocol.
unfoldable pub mqtt_endpoint : MqttProtocol → Device → Resource → SupportedProtocol → Fields
unfolding registered_topic
mqtt_endpoint mqtt d r p =
    let topics = if p.sub_topic == "" then end else field "sub_topic" (text p.sub_topic) end in
    field "url" (text mqtt.url) (field "pub_topic" (text (registered_topic mqtt d r p)) topics)

-- The endpoint of a protocol.
unfoldable pub endpoint_of : Config → Device → Resource → SupportedProtocol → Fields
unfolding mqtt_endpoint rest_location
endpoint_of c d r p =
    if p.type == protocol_type_rest
    then field "url"
        (text (concat (c.public_endpoint ∷ rest_location c ∷ "/" ∷ d.name ∷ "/" ∷ r.name ∷ []))) end
    else if p.type == protocol_type_mqtt
    then elim c.mqtt [ none ↦ end | some mqtt ↦ mqtt_endpoint mqtt d r p ]
    else end

-- The loop over the protocols.
unfoldable pub configure_protocol :
    Config → Device → Resource → SupportedProtocol → Catalog.Protocol
unfolding endpoint_of
configure_protocol c d r p = record {
  type = p.type;
  endpoint = endpoint_of c d r p;
  methods = p.methods;
  content_types = p.content_types;
}

-- The loop over the resources of a device.
unfoldable pub configure_resource : Config → Device → Resource → Catalog.Resource
unfolding configure_protocol
configure_resource c d r = record {
  id = concat (d.name ∷ "/" ∷ r.name ∷ []);
  url = "";
  type = "Resource";
  name = r.name;
  meta = r.meta;
  protocols = map (configure_protocol c d r) r.protocols;
  representation = r.representation;
  device = "";
}

-- The loop over the devices; the times are the zero time.
unfoldable pub configure_device : Config → Device → Catalog.Device
unfolding configure_resource
configure_device c d = record {
  id = d.name;
  url = "";
  type = "Device";
  name = d.name;
  meta = d.meta;
  description = d.description;
  ttl = d.ttl;
  created = 0;
  updated = 0;
  expires = none;
  resources = map (configure_resource c d) d.resources;
}

-- configureDevices
unfoldable pub configure_devices : Config → List Catalog.Device
unfolding configure_device
configure_devices c = map (configure_device c) c.devices
