-- ===== src/Lib.antt =====
-- Verification library of the Dpush server, a push and chat server in C++ under server/src.
--
-- Clients reach a gateway process (services/Gateway/server) by WebSocket. An io loop of the gateway
-- owns the sessions of its connections; it reads their frames (`WsSession::onRead`), keeps the
-- members of the rooms that its sessions have joined (`WsSession::SubscribeSession` and the close
-- callback of `wsServer::onUpgrade`), and tells `GatewayPubSubManager` when a room gets its first
-- member in the loop or loses its last one. The manager counts the loops of every room under one lock
-- and queues the room's Redis channel; its consumer thread subscribes and unsubscribes the queued
-- channels. A chat message goes from the gateway through Kafka to the Logic service, which numbers it,
-- stores it in Redis and hands it to the gateways of its receivers. The dispatch service takes its
-- requests by HTTP (net/http). The services find each other by etcd and log through one thread.
--
-- The modules, with paths below server/src:
--
--   Base      names of the libraries, lists over native numbers, byte strings, maps as functions.
--   Buffer    the interface of muduo's input buffer. A pointer into it is an offset from peek().
--   Frame     base/utils/types.cc (`build_frame` is buildWebSocketFrame) and websocketSession.cc
--             (`close_frame` is sendCloseFrame, `next_frame` the body of the loop of onRead,
--             `Frame.Read.on_read` the call). Bytes are numbers below 256, a 64-bit sum is modulo
--             2 ^ 64.
--   PubSub    GatewayPubSubManager.cc and base/constants/RedisKey.cc: `subscribe_room_safe`,
--             `unsubscribe_room_safe`, `consume_round`; redis++ is the interface `Subscriber`.
--   Rooms     websocketSession.cc and wsServer.cc: `subscribe_session`, `close_session` on the state
--             of one loop, `Rooms.Gateway` for all loops with the shared manager. A task of a loop
--             runs from end to end and touches nothing shared but the manager, whose calls hold a
--             lock, so an interleaving is a list of whole tasks and consumer rounds.
--   Broadcast iouring.h: `broadcast_in_loop`, `send_chunk`, `handle_cqes`, `flush_backlog` on the ring
--             of one loop, and `on_published` for the callback of GatewayPubSubManager.cc;
--             `Broadcast.Events` has what the kernel does between them.
--   Inbox     wsServer.cc and producer.cc: `dispatch_event` is dispatchEvent, `produce` and `dr_cb` the
--             Kafka producer's; librdkafka takes a message or not, and reports those it took.
--   Delivery  grpcServer.cc and wsServer.cc: `send_single_msg` is DosendSingleMsg, `on_upgrade` and
--             `on_close` what onUpgrade and its close callback do to the map of users to loops.
--   Base64    base/crypto/base64.cc.
--   Handshake wsServer.cc: `analysis_cookie` is AnalysisCookie, `handle_upgrade_response`
--             HandleUpgradeResponse, `process_handshake` processHandshake.
--   WsServer  wsServer.cc: `on_message` is onMessage, with the handshake and onRead.
--   Http      net/http: `Http.Request` for HttpRequest, `Http.Context` for HttpContext,
--             `Http.Response` for HttpResponse, `Http.Server` for the routes and the handler of a read
--             of HttpServer. A failed assertion is an outcome of its own, for a build that has them.
--   Chat      the way of a message: `Chat.Keys` for base/constants/RedisKey.cc and the Kafka key that
--             `dispatchEvent` of wsServer.cc makes (`kafka_key`), `Chat.Consumer` for
--             services/Logic/server/KafkaConsumer.cc (`process_message`, with `lua_script`),
--             `Chat.History` for the pages of LogicGrpcServer.cc (`get_history_message`).
--   Dispatch  services/Dispatch/server: `sync_gateways` is a round of BackendSyncTask, `on_dispatch`
--             onDispatch, `generic_api_handler` GenericApiHandler.
--   Auth      services/Auth/server/AuthServiceImpl.cc: `do_login`, `do_register`, `do_verify`. MySQL is
--             the interface `Database`, which is given the text of a statement and has a table of users.
--   Registry  net/etcdServiceNode/ServiceRegistry.cc (`on_watch_event`, `get_endpoint`) and
--             grpcClientPool.hpp (`get_stub_from_prefix`, `on_stub_event`).
--   Log       base/AeroLog: `Log.Spsc` for SPSC.hpp, whose two threads take one step at a time in any
--             order (`produce`, `consume`), `Log.Worker` for the rounds of AsyncWorker.cc
--             (`backend_round`).
--   Heartbeat services/Gateway/server/heartbeatManager.cc (`on_timer_tick`, `on_message_ping`), on any
--             number of buckets.
--   TaskQueue base/concurrency/OrderedThreadPool.h, with the queue of db/mysql/BlockQueue.h:
--             `pushback`, `popfront`, `try_pop`; `TaskQueue.Ordered` for the pool.
--   Snowflake base/utils/SnowflakeIdWorker.h: `next_id` is nextId, on the readings of the clock.
--   Tests     runs on small inputs, and every theorem at an input that meets its hypotheses.
--
-- Fuel: `on_read` has one unit more than the readable bytes, since each of its rounds takes two
-- bytes or more; `parse_request` has three more than the readable bytes, since each of its rounds
-- takes two bytes or more but the body's and the last. Neither runs out.
--
-- Parameters: the verifier of the messages (generated code), muduo's buffer, redis++ (`Chat.Redis` for
-- commands, `Chat.History` for streams), SHA-1, MD5, libjwt, flatbuffers, MySQL, liburing,
-- librdkafka, std::sort. Bounds: a number of members and a count of loops are below 2 ^ 31, where the
-- code keeps them in an int.
-- Left out: sockets, gRPC, the client of Kafka, configuration, the files and the formatting of the log.
pub mod Delivery
pub mod TaskQueue
pub mod Broadcast
pub mod Base
pub mod Buffer
pub mod Frame
pub mod PubSub
pub mod Rooms
pub mod Http
pub mod Base64
pub mod Handshake
pub mod WsServer
pub mod Snowflake
pub mod Registry
pub mod Inbox
pub mod Log
pub mod Chat
pub mod Dispatch
pub mod Auth
pub mod Heartbeat
mod Tests
