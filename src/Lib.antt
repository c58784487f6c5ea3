-- ===== src/Lib.antt =====
-- The core of envisilab: clients send their locations, the aggregator finds the S2 cell that each is
-- in, and passes what a client sends to the connections that follow the cell or one of its groups.
--
-- The parts, from the wire up. A message (core/message.go) carries a location (core/location.go)
-- over a net.Conn. An entity (core/entity.go) keeps its cell and the covering of cells around it
-- (core/cell.go), and tells its subscription (`Subscription` of core/subscriber.go) when the cell is
-- new. The subscription asks the context (core/context.go) to subscribe its connection, the context
-- asks the topology (core/topology.go), and that asks one of its two subscribers (`Subscriber` of
-- core/subscriber.go), for cells and for groups. A broadcast goes from the context through the data
-- store (core/datastore.go) and the topology to the publisher (core/publisher.go), which hands it to
-- Redis; `Run` of the subscriber takes it from Redis to the connections (core/http.go). The service of
-- core/http.go is what clients reach; aggregator and simulator start it over a context each.
--
-- The files, where a child module holds the proofs about its parent:
--   Base         the shared types: texts and bytes, native numbers, `int64`, Go's maps, decimals
--   Wire         encoding/binary and bytes.Buffer, as they are used
--   Net          net.Conn, as an interface with its documented behaviour
--   Redis, Uuid  redigo with the Redis server, and google/uuid, as interfaces
--   Location     core/location.go
--   Message      core/message.go: Header, one file for each message, and Receive for the part that
--                the four methods `Read` have in common
--   Publisher    core/publisher.go
--   Subscriber   core/subscriber.go, `Subscriber`; Subscriber/Delivery has `Run`
--   Subscription core/subscriber.go, `Subscription`, with the filter of core/activity.go
--   Topology     core/topology.go and core/group.go; Topology/Fanout has `Run`, with the goroutines of
--                both subscribers
--   DataStore    core/datastore.go
--   Slice        Go's slices, with the arrays that copies of them share
--   Cell         core/cell.go and core/entity.go
--   Context      core/context.go, `DataStoreContext`, with `Activity` of core/activity.go; the interface
--                `Context` is Context/Interface, which Context/Stored and Simulator/Ops fill
--   Simulator    simulator/context.go
--   Heap         the entities that pointers point to
--   Endpoint     core/http.go: the map of entities of an `Endpoint`, `inSync`, and the handlers Sync,
--                Standby, Beacon (with `handleUserData`, in UserData), Data and Download
--   Server       core/http.go, `ServeHTTPS_V1`: the routes, and sequences of requests; Server/Followers
--                and Server/Sockets are about a beacon, down to the connections that hear of it and
--                the frames of their sockets; Server/Overlap has requests that overlap
--   WebSocket    core/http.go, `WebSocketConnection` with its channel and its two pumps
--   Follow       an entity with the goroutine of its subscription: `Update` of core/entity.go and
--                `Start` and `setCellFilter` of core/subscriber.go
--   Sink         sink/sink.go
--   Client       client/client.go
--   UrlClient    urlclient/urlclient.go
--   Programs     aggregator/aggregator.go and simulator/simulator.go: `main`, from the constructors to
--                the service
--   Tests        stand-ins for the interfaces, and runs of the theorems
--
-- A function of the source keeps its name in lower case with underscores, and takes the state of its
-- receiver and of what it calls as an argument; the state after it is part of the result. An `error`
-- is an optional text. A panic is the result `none`. Each method of the subscriber holds its lock
-- from the first line to the last, so that it is one step; an interleaving is a list of calls. The
-- order in which a `range` visits a map is an argument, any rearrangement of the keys.
--
-- Integers: the fields on the wire have the widths of the source, and a length wraps at 2^32. A
-- float is its bit pattern; reading a location makes a signalling NaN of a 32-bit field quiet, as
-- encoding/binary does, and nothing else changes one. `format_uint` (strconv.FormatUint) has
-- fuel for 20 digits, which 2^64 - 1 needs and no `uint64` exceeds. All other loops go down a list,
-- or down the count or the rounds that they are given.
--
-- Server takes requests one after the other. net/http may overlap them: in Server/Overlap a request
-- goes through stages (the token, the entity, its entry in the map; or the entity, the update, the
-- call of the context), and any other request may have its turn between two of them. A stage
-- is what one lock, one call of the context or one update of an entity covers; Data and Download are one
-- stage each. A request has three stages at most.
--
-- Not modelled: JSON, mux and HTTP (arguments); the timers of core/http.go and `Cleaner`, which does
-- nothing; flags, profiles, logging and `Display`; what configures redigo (`MakePool`).
pub mod Base
pub mod Wire
pub mod Location
pub mod Net
pub mod Message
pub mod Redis
pub mod Uuid
pub mod Publisher
pub mod WebSocket
pub mod Subscriber
pub mod Slice
pub mod DataStore
pub mod Topology
pub mod Cell
pub mod Heap
pub mod Context
pub mod Endpoint
pub mod Subscription
pub mod Follow
pub mod Simulator
pub mod Sink
pub mod Client
pub mod Server
pub mod UrlClient
pub mod Programs
pub mod Tests
