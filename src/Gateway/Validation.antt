-- ===== src/Gateway/Validation.antt =====
-- The validation of the gateway's configuration: the methods Validate of
-- src/linksmart.eu/lc/core/cmd/device-gateway/config.go. `url.Parse` and `os.Stat` are parameters.
pub mod Accepted
use lslc_core.Common.{
  String, Bool, false, not, ◌&&◌, ◌||◌, List, [], ◌∷◌, Option, none, some, Result, ok, err, ◌>>=◌,
  if◌then◌else◌, ◌==◌, eqb,
}
use lslc_core.Common.Int.{ℤ, pos, negsuc}
use lslc_core.Common.Words.{concat}
use lslc_core.Authz.{validate as validate_authz}
use lslc_core.Gateway.{
  Config, Catalog, HttpConfig, StorageConfig, RestProtocol, MqttProtocol, ObtainerConf,
  ValidatorConf,
}

-- What the validation asks of other packages: the scheme of a URL, or the error of url.Parse; and
-- whether os.Stat says that a file does not exist.
pub record Checks : Type 0 where
  pub parse_url : String → Result String String
  pub is_missing : String → Bool

abbrev pub is_zero : ℤ → Bool
is_zero (pos n) = eqb n 0
is_zero (negsuc n) = false

-- Catalog.Validate
unfoldable pub validate_catalog : Catalog → Result String (Unit {0})
validate_catalog c =
    if c.endpoint == "" && not c.discover
    then err "Catalog must have either endpoint or discovery flag defined"
    else ok tt

-- HttpConfig.Validate
unfoldable pub validate_http : HttpConfig → Result String (Unit {0})
validate_http h =
    if h.bind_addr == "" || is_zero h.bind_port
    then err "HTTP bindAddr and bindPort have to be defined"
    else ok tt

-- supportedBackends
unfoldable pub is_supported : String → Bool
is_supported type = type == "memory" || type == "leveldb"

-- StorageConfig.Validate
unfoldable pub validate_storage : StorageConfig → Result String (Unit {0})
unfolding is_supported
validate_storage c =
    if not (c.type == "") && not (is_supported c.type)
    then err "Unsupported storage backend"
    else ok tt

-- RestProtocol.Validate
unfoldable pub validate_rest : RestProtocol → Result String (Unit {0})
validate_rest p = if p.location == "" then err "REST location has to be defined" else ok tt

module _ (k : Checks) where
  -- The first part of MqttProtocol.Validate.
  unfoldable pub validate_broker : MqttProtocol → Result String (Unit {0})
  validate_broker p =
      if not p.discover
      then elim (k.parse_url p.url) [
        | err m ↦ err "MQTT broker URL must be a valid URI in the format scheme://host:port"
        | ok scheme ↦
            if not (scheme == "tcp") && not (scheme == "ssl")
            then err "MQTT broker URL scheme must be either 'tcp' or 'ssl'"
            else ok tt
      ]
      else ok tt

  -- The part on the CA file.
  unfoldable pub validate_ca : MqttProtocol → Result String (Unit {0})
  validate_ca p =
      if not (p.ca_file == "") && k.is_missing p.ca_file
      then err (concat ("MQTT CA file " ∷ p.ca_file ∷ " does not exist" ∷ []))
      else ok tt

  -- The part on the client certificate and its key.
  unfoldable pub validate_client : MqttProtocol → Result String (Unit {0})
  validate_client p =
      if not (p.cert_file == "") || not (p.key_file == "")
      then if k.is_missing p.cert_file
        then err (concat ("MQTT client certificate file " ∷ p.cert_file ∷ " does not exist" ∷ []))
        else if k.is_missing p.key_file
        then err (concat ("MQTT client key file " ∷ p.key_file ∷ " does not exist" ∷ []))
        else ok tt
      else ok tt

  -- MqttProtocol.Validate
  unfoldable pub validate_mqtt : MqttProtocol → Result String (Unit {0})
  unfolding validate_broker validate_ca validate_client
  validate_mqtt p = validate_broker p >>= λ _. validate_ca p >>= λ _. validate_client p

  -- ValidatorConf.Validate
  unfoldable pub validate_validator : ValidatorConf → Result String (Unit {0})
  validate_validator c =
      if c.provider == ""
      then err "Ticket Validator: Auth provider name (provider) is not specified."
      else if c.provider_url == ""
      then err "Ticket Validator: Auth provider URL (providerURL) is not specified."
      else elim (k.parse_url c.provider_url) [
        | err m ↦
            err (concat ("Ticket Validator: Auth provider URL (providerURL) is invalid: " ∷ m ∷ []))
        | ok scheme ↦
            if c.service_id == ""
            then err "Ticket Validator: Auth Service ID (serviceID) is not specified."
            else elim c.authz [ none ↦ ok tt | some rules ↦ validate_authz rules ]
      ]

  -- ObtainerConf.Validate
  unfoldable pub validate_obtainer : ObtainerConf → Result String (Unit {0})
  validate_obtainer c =
      if c.provider == ""
      then err "Ticket Obtainer: Auth provider name (provider) is not specified."
      else if c.provider_url == ""
      then err "Ticket Obtainer: Auth provider URL (ProviderURL) is not specified."
      else elim (k.parse_url c.provider_url) [
        | err m ↦
            err (concat ("Ticket Obtainer: Auth provider URL (ProviderURL) is invalid: " ∷ m ∷ []))
        | ok scheme ↦
            if c.username == ""
            then err "Ticket Obtainer: Auth Username (username) is not specified."
            else if c.service_id == ""
            then err "Ticket Obtainer: Auth Service ID (serviceID) is not specified."
            else ok tt
      ]

  -- The ticket client of a catalog, if there is one.
  unfoldable pub validate_ticket : Option ObtainerConf → Result String (Unit {0})
  unfolding validate_obtainer
  validate_ticket none = ok tt
  validate_ticket (some a) = validate_obtainer a

  -- The loop over the catalogs in Config.Validate.
  unfoldable pub validate_catalogs : List Catalog → Result String (Unit {0})
  unfolding validate_catalog validate_ticket
  validate_catalogs [] = ok tt
  validate_catalogs (c ∷ cs) =
      validate_catalog c >>= λ _. validate_ticket c.auth >>= λ _. validate_catalogs cs

  -- The part of Config.Validate on the public endpoint.
  unfoldable pub validate_endpoint : Config → Result String (Unit {0})
  validate_endpoint c =
      if c.public_endpoint == ""
      then err "PublicEndpoint has to be defined"
      else elim (k.parse_url c.public_endpoint) [
        | err m ↦ err "PublicEndpoint should be a valid URL"
        | ok scheme ↦ ok tt
      ]

  -- The protocols, if they are configured.
  unfoldable pub validate_rest_config : Option RestProtocol → Result String (Unit {0})
  unfolding validate_rest
  validate_rest_config none = ok tt
  validate_rest_config (some p) = validate_rest p

  unfoldable pub validate_mqtt_config : Option MqttProtocol → Result String (Unit {0})
  unfolding validate_mqtt
  validate_mqtt_config none = ok tt
  validate_mqtt_config (some p) = validate_mqtt p

  -- Config.Validate
  unfoldable pub validate : Config → Result String (Unit {0})
  unfolding validate_endpoint validate_http validate_storage validate_rest_config
      validate_mqtt_config validate_catalogs validate_validator
  validate c = validate_endpoint c >>= λ _. validate_http c.http >>= λ _.
      validate_storage c.storage >>= λ _. validate_rest_config c.rest >>= λ _.
      validate_mqtt_config c.mqtt >>= λ _. validate_catalogs c.catalog >>= λ _.
      if c.auth.enabled then validate_validator c.auth else ok tt
