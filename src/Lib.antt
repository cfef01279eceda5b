-- ===== src/Lib.antt =====
-- LinkSmart Local Connect: the resource catalog, where devices register their resources, the service
-- catalog, what a device runs to stay registered, the device gateway, which runs the agents of its
-- devices and offers their data over HTTP and MQTT, and the authorization rules of their APIs. Paths
-- are from the root of the repository, below src/linksmart.eu/lc/core/catalog if nothing else is
-- said.
--
-- The files and the code:
--   Paging        utils.go: ValidatePagingParams, GetPagingAttr, GetPageOfSlice, ParsePagingParams
--   PathFilter    pathfilter.go: recursiveMatch and MatchObject, over the values of Json
--   Tree          the nodes and the comparison functions of the two indices, resource/controller.go;
--                 the trees of go-avltree are records of operations and laws, which Tree.Model fills
--                 by lists for the tests
--   Resource      resource/catalog.go: the data, validate and simplify; errors.go
--     Store       the CatalogStorage interface as operations and laws, which the controller takes as
--                 a parameter; Memory is resource/memstorage.go and fills it
--     Level       resource/ldbstorage.go, which fills Store as well; the database and the JSON codec
--                 are records of operations and laws
--     Encode      the JSON of a device and a resource, by the tags of the structs
--     State       the Controller struct, the generated ids, addIndices and removeIndices
--     Controller  add, update, delete and cleanExpired of resource/controller.go; Placement tells
--                 which resources they store
--     Reads       get, list, filter, getResource, listResources, filterResources, initIndices
--     Registry    the abstract view: devices under ids, and the calls that change them
--     Indices     what the indices hold, and NewController; Filled tells what its start puts there
--     Api         the handlers of resource/catalogapi.go
--   Service       service/catalog.go; Store and Memory as above for service/memstorage.go;
--                 Controller: add, update, delete and cleanExpired of service/controller.go; Reads:
--                 its other methods; Api: the handlers of service/catalogapi.go; Expiry:
--                 its index; Registry: the abstract view, with the calls of the listeners
--   Keepalive     resource/utils.go: RegisterDevice, keepAlive, RegisterDeviceWithKeepalive
--     Local       resource/localclient.go: the client that calls a controller in the same program
--   Authz         src/linksmart.eu/lc/sec/authz: authz.go and config.go
--   Gateway       src/linksmart.eu/lc/core/cmd/device-gateway/config.go: the structs, FindResource
--     Validation  the methods Validate of config.go
--     Agents      agents.go: the loop of the manager over its two inboxes; Task is executeTask of
--                 agents_linux.go, Start what happens before the loop
--     Rest        http.go: the routes of the resources and their handlers
--     Mqtt        mqtt.go: the topics, the publisher and the buffer without a connection
--     Registration  registration.go: configureDevices; Local is registerInLocalCatalog
--
-- A method of the controller is a function from the state to the new state and its result; the
-- mutex makes each call one step, so a run is a list of calls. The time of a call is an argument, in
-- nanoseconds since the year 1; a duration is a 64-bit word and wraps. An error is a value, and so is
-- a panic: a failed type assertion or a nil pointer.
--
-- Fuel: filter and initIndices loop over pages; for the resource catalog, one round for each hundred
-- stored devices and one more are enough for both, which is proved; the loops of the service catalog
-- take their fuel in the same way. The inner loop of removeIndices takes one round more
-- than there are nodes; each round removes a node, and the lemmas on remove_expiry show the result.
--
-- Parameters: the storage where it is not the in-memory one, the ordered trees, the errors of
-- url.Parse, the database and the JSON codec of the LevelDB storage, the operating system and the
-- clock under the agents, the case of a media type, how Go prints times, numbers and composite
-- values, the remote client and the endpoints that are discovered.
--
-- Gateway: the channels of the agent manager make each message one round of its loop, so a run is a
-- list of messages; what the goroutines of timers, tasks and services send are messages of the run. A
-- write to a pipe and the run of a program may never return, and the loop of the manager is then
-- blocked, as it is by a send on a nil channel: it makes no further round, and no request gets a
-- reply. A call of onConnected that waits on the empty buffer is counted in the state of the connector.
--
-- Not modelled: the LevelDB storage of the service catalog and its keep-alive routine, which are
-- left out; the remote clients, the gateway's registration in remote catalogs, its dashboard and
-- start-up, the commands, DNS-SD and authentication, which are input and output; logging, HTTP
-- headers but the content type, the constant fields of the responses.
pub mod Common
pub mod Paging
pub mod Json
pub mod PathFilter
pub mod Tree
pub mod Resource
pub mod Service
pub mod Keepalive
pub mod Authz
pub mod Gateway
