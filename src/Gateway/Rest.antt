-- ===== src/Gateway/Rest.antt =====
-- The handlers of the gateway's resources: src/linksmart.eu/lc/core/cmd/device-gateway/http.go. A
-- handler sends one request to the manager of the agents and waits for its reply. What stands under
-- a content type is the media type that `mime.ParseMediaType` gives, or its error.
pub mod Mounted
use lslc_core.Common.{
  ℕ, String, Bool, true, false, not, ◌&&◌, ◌||◌, List, [], ◌∷◌, ◌++◌, Option, none, some, Result,
  ok, err, if◌then◌else◌, ◌==◌,
}
use lslc_core.Common.Words.{concat}
use lslc_core.Gateway.{
  Config, Device, Resource, SupportedProtocol, protocol_type_rest, resource_id, find_resource,
}
use lslc_core.Gateway.Agents.{
  Os, AgentManager, DataRequest, AgentResponse, Outcome, replied, silent, stuck, read, write,
  handle_request,
}

-- A route of the router for a resource: the method, the path, and the resource of the handler.
pub record Route : Type 0 where
  pub method : String
  pub path : String
  pub resource_id : String

-- What a handler writes, or that it waits for a reply that never comes.
pub data Response : Type 0 where
  data_of : String → String → Response
  accepted : Response
  failed : ℕ → String → Response
  hanging : Response

module _ (location : String) (d : Device) where
  -- The loop over the methods of a protocol in mountResources.
  unfoldable pub mount_methods : Resource → List String → List Route
  mount_methods r [] = []
  mount_methods r (m ∷ ms) =
      let rest = mount_methods r ms in
      let path = concat (location ∷ "/" ∷ d.name ∷ "/" ∷ r.name ∷ []) in
      let route : Route = record { method = m; path = path; resource_id = resource_id d r.name } in
      if m == "GET" || m == "PUT" then route ∷ rest else rest

  -- The loop over the protocols of a resource.
  unfoldable pub mount_protocols : Resource → List SupportedProtocol → List Route
  unfolding mount_methods
  mount_protocols r [] = []
  mount_protocols r (p ∷ ps) =
      let rest = mount_protocols r ps in
      if not (p.type == protocol_type_rest) then rest else mount_methods r p.methods ++ rest

  -- The loop over the resources of a device.
  unfoldable pub mount_device : List Resource → List Route
  unfolding mount_protocols
  mount_device [] = []
  mount_device (r ∷ rs) = mount_protocols r r.protocols ++ mount_device rs

-- mountResources
unfoldable pub mount_resources : String → List Device → List Route
unfolding mount_device
mount_resources location [] = []
mount_resources location (d ∷ ds) =
    mount_device location d d.resources ++ mount_resources location ds

-- The content type that the handler of GET sets: the first of the last REST protocol that has one.
unfoldable pub content_type : String → List SupportedProtocol → String
content_type before [] = before
content_type before (p ∷ ps) =
    if p.type == protocol_type_rest
    then elim p.content_types [ [] ↦ content_type before ps | t ∷ ts ↦ content_type t ps ]
    else content_type before ps

-- The loop over the content types of a protocol; `lower` is strings.ToLower.
unfoldable pub has_type : (String → String) → String → List String → Bool
has_type lower media [] = false
has_type lower media (t ∷ ts) = lower t == media || has_type lower media ts

-- The loop over the protocols in the handler of PUT.
unfoldable pub supports : (String → String) → String → List SupportedProtocol → Bool
unfolding has_type
supports lower media [] = false
supports lower media (p ∷ ps) =
    (p.type == protocol_type_rest && has_type lower media p.content_types)
    || supports lower media ps

module _ (o : Os) (lower : String → String) where
  -- The function that createResourceGetHandler returns.
  unfoldable pub get_handler : String → AgentManager o → AgentManager o × Response
  unfolding content_type
  get_handler id m = elim (find_resource m.config id) [
    | none ↦ (m, failed 404 "Resource does not exist")
    | some r ↦
        let req : DataRequest = record {
          resource_id = id;
          type = read;
          arguments = "";
          reply = true;
        } in
        let (m', out) = handle_request o m req in
        elim out [
          | replied resp ↦ (
            m',
            if resp.is_error
                then failed 500 resp.payload
                else data_of (content_type "" r.protocols) resp.payload,
          )
          | silent ↦ (m', hanging)
          | stuck ↦ (m', hanging)
        ]
  ]

  -- The end of the handler of PUT, with the body of the request.
  unfoldable pub submit : String → String → AgentManager o → AgentManager o × Response
  submit id body m =
      let req : DataRequest = record {
        resource_id = id;
        type = write;
        arguments = body;
        reply = true;
      } in
      let (m', out) = handle_request o m req in
      elim out [
        | replied resp ↦ (m', if resp.is_error then failed 500 resp.payload else accepted)
        | silent ↦ (m', hanging)
        | stuck ↦ (m', hanging)
      ]

  -- The function that createResourcePutHandler returns, with the results of ParseMediaType and of
  -- reading the body.
  unfoldable pub put_handler :
      String
      → Result String String
      → Result String String
      → AgentManager o
      → AgentManager o × Response
  unfolding supports submit
  put_handler id media body m = elim media [
    | err x ↦ (m, failed 400 x)
    | ok type ↦ elim (find_resource m.config id) [
      | none ↦ (m, failed 404 "Resource does not exist")
      | some r ↦
          if not (supports lower type r.protocols)
          then (
            m,
            failed 415
                (concat ("`" ∷ type ∷ "` media type is not supported by this resource" ∷ [])),
          )
          else elim body [ err x ↦ (m, failed 400 x) | ok b ↦ submit id b m ]
    ]
  ]
