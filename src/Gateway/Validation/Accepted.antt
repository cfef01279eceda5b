-- ===== src/Gateway/Validation/Accepted.antt =====
-- What the validation of a configuration guarantees.
use lslc_core.Common.{
  String, Bool, true, false, not, ◌&&◌, ◌||◌, ◌≡◌, refl, sym, ap, subst, ◌∙◌, ◌⊎◌, inl, inr, List,
  [], ◌∷◌, Option, none, some, Result, ok, err, ◌>>=◌, if◌then◌else◌, ◌==◌, Bool-cases,
  Result-cases, All, eq_iff, arith,
}
use lslc_core.Gateway.{
  Config, Catalog, HttpConfig, StorageConfig, RestProtocol, MqttProtocol, ValidatorConf,
}
use lslc_core.Gateway.Validation.{
  Checks, is_zero, is_supported, validate_catalog, validate_http, validate_storage, validate_rest,
  validate_broker, validate_ca, validate_client, validate_mqtt, validate_validator, validate_ticket,
  validate_catalogs, validate_endpoint, validate_rest_config, validate_mqtt_config, validate,
}

abbrev Passes : Result String (Unit {0}) → Type 0
Passes r = r ≡ ok tt

-- Two checks, one after the other.
both : (r s : Result String (Unit {0})) → Passes (r >>= λ _. s) → Passes r × Passes s
both (ok _) s h = (refl, h)
both (err x) s h = absurd cc

-- A test that refuses, before another check.
guarded :
    (b : Bool) (x : String) (r : Result String (Unit {0}))
    → Passes (if b then err x else r)
    → (b ≡ false) × Passes r
guarded true x r h = absurd cc
guarded false x r h = (refl, h)

-- A test for another check.
where_true :
    (b : Bool) (r : Result String (Unit {0}))
    → Passes (if b then r else ok tt)
    → (b ≡ false) ⊎ ((b ≡ true) × Passes r)
where_true true r h = inr (refl, h)
where_true false r h = inl refl

-- A URL that url.Parse accepts.
abbrev pub Parses : Checks → String → Type 0
Parses k url = (scheme : String) × (k.parse_url url ≡ ok scheme)

-- The broker is discovered, or its URL has one of the two schemes; the CA file exists, if there is
-- one; the certificate and the key both exist, if there is one of them.
pub record IsUsable (k : Checks) (p : MqttProtocol) : Type 0 where
  pub broker :
      (p.discover ≡ true)
      ⊎ ((scheme : String) × (k.parse_url p.url ≡ ok scheme)
          × ((scheme ≡ "tcp") ⊎ (scheme ≡ "ssl")))
  pub ca : (p.ca_file ≡ "") ⊎ (k.is_missing p.ca_file ≡ false)
  pub client :
      ((p.cert_file ≡ "") × (p.key_file ≡ ""))
      ⊎ ((k.is_missing p.cert_file ≡ false) × (k.is_missing p.key_file ≡ false))

-- A catalog has an endpoint or is discovered.
abbrev pub IsReachable : Catalog → Type 0
IsReachable c = ((c.endpoint == "") ≡ false) ⊎ (c.discover ≡ true)

pub record IsAccepted (k : Checks) (c : Config) : Type 0 where
  pub endpoint : ((c.public_endpoint == "") ≡ false) × Parses k c.public_endpoint
  pub http : ((c.http.bind_addr == "") ≡ false) × (is_zero c.http.bind_port ≡ false)
  pub storage : (c.storage.type ≡ "") ⊎ ((c.storage.type ≡ "memory") ⊎ (c.storage.type ≡ "leveldb"))
  pub rest : (p : RestProtocol) → c.rest ≡ some p → (p.location == "") ≡ false
  pub mqtt : (p : MqttProtocol) → c.mqtt ≡ some p → IsUsable k p
  pub catalogs : All IsReachable c.catalog
  pub auth :
      c.auth.enabled ≡ true
      → ((c.auth.provider == "") ≡ false)
        × ((c.auth.service_id == "") ≡ false)
        × Parses k c.auth.provider_url

module _ (k : Checks) where
  http_lem :
      (h : HttpConfig)
      → Passes (validate_http h)
      → ((h.bind_addr == "") ≡ false) × (is_zero h.bind_port ≡ false)
  unfolding validate_http
  http_lem h p =
      let (e, _) = guarded (h.bind_addr == "" || is_zero h.bind_port) _ (ok tt) p in
      (ground (arith), ground (arith))

  storage_lem :
      (s : StorageConfig)
      → Passes (validate_storage s)
      → (s.type ≡ "") ⊎ ((s.type ≡ "memory") ⊎ (s.type ≡ "leveldb"))
  unfolding validate_storage is_supported
  storage_lem s p =
      let (e, _) =
        guarded (not (s.type == "") && not (s.type == "memory" || s.type == "leveldb")) _ (ok tt)
          p in
      elim (Bool-cases (s.type == "")) [
        | inl a ↦ inl ((eq_iff s.type "").0 a)
        | inr a ↦ elim (Bool-cases (s.type == "memory")) [
          | inl b ↦ inr (inl ((eq_iff s.type "memory").0 b))
          | inr b ↦ inr (inr ((eq_iff s.type "leveldb").0 (ground arith)))
        ]
      ]

  endpoint_lem :
      (c : Config)
      → Passes (validate_endpoint k c)
      → ((c.public_endpoint == "") ≡ false) × Parses k c.public_endpoint
  unfolding validate_endpoint
  endpoint_lem c p =
      let (e, q) = guarded (c.public_endpoint == "") _ _ p in
      elim (Result-cases (k.parse_url c.public_endpoint)) [
        | inl (scheme, parsed) ↦ (e, (scheme, parsed))
        | inr (m, failed) ↦
            let bad : ◌≡◌ {A = Result String (Unit {0})}
                (err "PublicEndpoint should be a valid URL") (ok tt) =
              rw failed at q in
            absurd cc
      ]

  broker_lem :
      (p : MqttProtocol)
      → Passes (validate_broker k p)
      → (p.discover ≡ true)
        ⊎ ((scheme : String) × (k.parse_url p.url ≡ ok scheme)
            × ((scheme ≡ "tcp") ⊎ (scheme ≡ "ssl")))
  unfolding validate_broker
  broker_lem p h = elim (where_true (not p.discover) _ h) [
    | inl found ↦ inl (ground arith)
    | inr (direct, q) ↦ elim (Result-cases (k.parse_url p.url)) [
      | inr (m, failed) ↦
          let bad : ◌≡◌ {A = Result String (Unit {0})}
              (err "MQTT broker URL must be a valid URI in the format scheme://host:port") (ok tt) =
            rw failed at q in
          absurd cc
      | inl (scheme, parsed) ↦
          let q' = rw parsed at q in
          let (e, _) = guarded (not (scheme == "tcp") && not (scheme == "ssl")) _ (ok tt) q' in
          inr (
            scheme,
            parsed,
            elim (Bool-cases (scheme == "tcp")) [
              | inl a ↦ inl ((eq_iff scheme "tcp").0 a)
              | inr a ↦ inr ((eq_iff scheme "ssl").0 (ground arith))
            ],
          )
    ]
  ]

  mqtt-IsUsable : (p : MqttProtocol) → Passes (validate_mqtt k p) → IsUsable k p
  unfolding validate_mqtt validate_ca validate_client
  mqtt-IsUsable p h =
      let (h1, h') = both (validate_broker k p) _ h in
      let (h2, h3) = both (validate_ca k p) (validate_client k p) h' in
      let (e, _) = guarded (not (p.ca_file == "") && k.is_missing p.ca_file) _ (ok tt) h2 in
      record {
        broker = broker_lem p h1;
        ca = elim (Bool-cases (p.ca_file == "")) [
          | inl a ↦ inl ((eq_iff p.ca_file "").0 a)
          | inr a ↦ inr (ground arith)
        ];
        client = elim (where_true (not (p.cert_file == "") || not (p.key_file == "")) _ h3) [
          | inl absent ↦
              inl
                ((eq_iff p.cert_file "").0 (ground arith), (eq_iff p.key_file "").0 (ground arith))
          | inr (some_file, q) ↦
              let (e1, q') = guarded (k.is_missing p.cert_file) _ _ q in
              let (e2, _) = guarded (k.is_missing p.key_file) _ (ok tt) q' in inr (e1, e2)
        ];
      }

  rest_lem :
      (o : Option RestProtocol)
      → Passes (validate_rest_config k o)
      → (p : RestProtocol) → o ≡ some p
      → (p.location == "") ≡ false
  unfolding validate_rest_config validate_rest
  rest_lem none h p e = absurd cc
  rest_lem (some q) h p e =
      let one : q ≡ p = cc in
      ap (λ (x : RestProtocol). x.location == "") (sym one)
      ∙ (guarded (q.location == "") _ (ok tt) h).0

  mqtt_lem :
      (o : Option MqttProtocol)
      → Passes (validate_mqtt_config k o)
      → (p : MqttProtocol) → o ≡ some p
      → IsUsable k p
  unfolding validate_mqtt_config
  mqtt_lem none h p e = absurd cc
  mqtt_lem (some q) h p e = let one : q ≡ p = cc in subst (IsUsable k) one (mqtt-IsUsable q h)

  catalogs_lem : (cs : List Catalog) → Passes (validate_catalogs k cs) → All IsReachable cs
  unfolding validate_catalogs validate_catalog
  catalogs_lem [] h = tt
  catalogs_lem (c ∷ cs) h =
      let (h1, h') = both (validate_catalog c) _ h in
      let (h2, h3) = both (validate_ticket k c.auth) (validate_catalogs k cs) h' in
      let (e, _) = guarded (c.endpoint == "" && not c.discover) _ (ok tt) h1 in
      (
        elim (Bool-cases (c.endpoint == "")) [
          | inr named ↦ inl named
          | inl unnamed ↦ inr (ground arith)
        ],
        catalogs_lem cs h3,
      )

  validator_lem :
      (v : ValidatorConf)
      → Passes (validate_validator k v)
      → ((v.provider == "") ≡ false) × ((v.service_id == "") ≡ false) × Parses k v.provider_url
  unfolding validate_validator
  validator_lem v h =
      let (e1, h1) = guarded (v.provider == "") _ _ h in
      let (e2, h2) = guarded (v.provider_url == "") _ _ h1 in
      elim (Result-cases (k.parse_url v.provider_url)) [
        | inr (m, failed) ↦
            let bad : ◌≡◌ {A = Result String (Unit {0})} (err _) (ok tt) = rw failed at h2 in
            absurd cc
        | inl (scheme, parsed) ↦
            let h3 = rw parsed at h2 in
            let (e3, _) = guarded (v.service_id == "") _ _ h3 in (e1, e3, (scheme, parsed))
      ]

  -- A configuration that the validation accepts has a public endpoint that is a URL, an address and
  -- a port, and a storage that is not named or is one of the two; the REST protocol, if it is
  -- configured, has a location, and the MQTT protocol a broker that is discovered or whose URL has
  -- one of the two schemes, and files that exist; every catalog has an endpoint or is discovered;
  -- and the validator of tickets, if it is enabled, has a provider with a URL and a service id.
  pub validate-IsAccepted : (c : Config) → validate k c ≡ ok tt → IsAccepted k c
  unfolding validate
  validate-IsAccepted c h =
      let (h1, t1) = both (validate_endpoint k c) _ h in
      let (h2, t2) = both (validate_http c.http) _ t1 in
      let (h3, t3) = both (validate_storage c.storage) _ t2 in
      let (h4, t4) = both (validate_rest_config k c.rest) _ t3 in
      let (h5, t5) = both (validate_mqtt_config k c.mqtt) _ t4 in
      let (h6, h7) = both (validate_catalogs k c.catalog) _ t5 in
      record {
        endpoint = endpoint_lem c h1;
        http = http_lem c.http h2;
        storage = storage_lem c.storage h3;
        rest = rest_lem c.rest h4;
        mqtt = mqtt_lem c.mqtt h5;
        catalogs = catalogs_lem c.catalog h6;
        auth = λ enabled. elim (where_true c.auth.enabled _ h7) [
          | inl off ↦ absurd cc
          | inr (on, q) ↦ validator_lem c.auth q
        ];
      }
