-- ===== src/Lib.antt =====
-- event_watch delivers the events of topics such as `pr/owner/repo/1` to their subscribers, keeps the
-- log of every topic, and folds each log into a state of the topic's object type.
--
-- The parts, and how they interact:
--   A publisher hands the broker an event, over HTTP, over a WebSocket session or through a webhook.
--   The broker checks the topic, appends the event to the store, folds it into the topic's state with
--   the reducer of the topic's object type, saves that state, and hands a copy of the event with the
--   state to the hub, which offers it to every subscription of the topic. A subscriber gets a
--   subscription of the hub, a backfill from the store and a fence, the last seq of the backfill. A
--   session sends the backfill and then what its subscription queues past the fence. The archiver
--   deletes idle topics from the store. An authenticator stands before the handlers. The Go client
--   speaks to a session: it keeps the callbacks of each topic, subscribes upstream for the first of
--   them, and after a drop subscribes again from the event after the last that it saw.
--
-- The files, and what they model:
--   Base            shared helpers: native numbers, machine words, lists, Go maps, texts, decimals
--   Core            internal/core: events, topics and their syntax (ValidateTopic, ParseObjectType)
--   Computed        internal/computed/reducer.go: the registry of reducers (Register, For, Apply)
--   Hub             internal/hub/hub.go: subscriptions are objects in a heap, a call is one step;
--                   Hub/Deliver, Hub/Invariant and Hub/Run are about Publish, Subscribe and Close.
--                   Hub/Flight has a step for each part of Publish and Close; Hub/Flight/Closed is
--                   about a closed subscription, Hub/Flight/Whole joins the two models
--   Store           internal/store/memory/store.go: the in-memory store, all operations; Store/Search
--                   is about the binary search of Read, Store/Log about the invariant, Store/Reads
--                   and Store/Expiry about what the operations return
--   StoreApi        internal/store/store.go: the interface as a record of operations, with its
--                   contract; StoreApi/Memory is the in-memory store as an instance
--   Redis           internal/store/redis/store.go: Redis/Server is what the code relies on of a
--                   server, Redis/Store the code, Redis/Numbers its decimals, Redis/Keys its keys,
--                   Redis/Reads, Writes, Deletes, Expired, Logs, Append and Contract are
--                   about the operations
--   Broker          internal/broker/broker.go, over any store of the interface; Broker/Publish,
--                   Accepted, Fold and Typed are about Publish, Stream and Backfill about Subscribe,
--                   Run about a server through its publishes. Broker/Sections has a step for each
--                   store call of Publish, with the archiver's deletes in between; Sections/Folded,
--                   Saved and Run are about the states, Sections/Whole joins the two models
--   Objtypes        internal/objtypes: the reducers, as functions on their state (Pr, Build, Deploy,
--                   Job, Chat, Field), and the frame that decodes and encodes the state (Codec)
--   Transport       internal/transport: Ws is a session of ws.go, Http the handlers of publish.go,
--                   admin.go and poll.go with internal/webhook/plugin.go, Fields those of field.go
--   Webhook         internal/webhook/github: Github is the plugin, Json the values it reads;
--                   Github/Verified, Topics, Checked and Effects are about what it lets through
--   Client          client/client.go: Client/Wire holds the frames, Frames, Dispatch, Requests and
--                   Backoff are about its methods, Mirror about a client and its session, Resume about
--                   a new connection; Client/Fields is client/field.go
--   Archiver        internal/archiver/archiver.go: the sweep
--   Auth            internal/auth: the authenticators and the middleware
--   Samples         data of the tests; a file called Tests holds the tests of its part
--
-- State and operations: a Go struct is a record with the same fields, a method that changes its
-- receiver gives the new record, an error is a value of Error, and a Go map is an association list or
-- a function. The calls of concurrent goroutines are sequences of steps. The
-- finest are those of Hub/Flight (a lock section, an atomic read or write or a channel operation of
-- the hub) and of Broker/Sections (a store call of Publish, or a delete). In the other files a step is
-- larger: the store part of Publish, under the ingest lock, is one step, its part on the hub is one,
-- and Subscribe of the broker is the subscription to the hub and then the read of the backfill; a
-- public call of the client is one. There a publish that is already on its way through the hub when
-- another call starts, and a delete of the archiver between two store calls of a publish, do not
-- occur. The
-- clock, new ids, the marshalling of JSON, the HMAC, the commands of a Redis server and the reading of
-- a request are parameters.
--
-- Numbers: uint64 and int64 are kept as bit patterns below 2 ^ 64 and wrap. A time is a number of
-- nanoseconds. A seq is the length of a log, which never reaches 2 ^ 63. The binary search of `Read`
-- runs on fuel, the length of the log, which is enough since the interval shrinks in every round.
--
-- Not modelled: sockets with their deadlines and pings, the dial of the client and its wait on a full
-- channel, the wait of a long poll, the archiver's timer, the snapshot of the metrics, the desktop app,
-- the assembly of the server from its flags, and the clients in other languages.
pub mod Base
pub mod Core
pub mod Computed
pub mod Hub
pub mod Store
pub mod StoreApi
pub mod Broker
pub mod Objtypes
pub mod Samples
pub mod Transport
pub mod Webhook
pub mod Archiver
pub mod Auth
pub mod Client
pub mod Redis
