-- ===== src/Lib.antt =====
-- A model of the RPC library: clients send requests over TCP, a server answers them.
-- A message is serialised (protocol), compressed (compress_data), encrypted (encrypt), put behind
-- its size on a socket (connection), cut out and read back on the other side. The server waits with
-- epoll (message_cycle), keeps its connections in a table (connection_manager) and hands requests to
-- a pool of threads, which asks the table of services (service) and writes the answer.
--
-- Base: lists and numbers that the modules share. A std::string or a vector of char is a list of
--   numbers (Bytes), each below 256 where a statement says IsBytes; the host stores words with their
--   lowest byte first.
-- Protocol: rpc_src/protocol. `serialize` and `deserialize` of Request and Response are Serialize
--   and Deserialize; a read out of bounds is `none`.
-- Encrypt: rpc_src/encrypt. Base64 and Shift hold the private methods, `encrypt` and `decrypt` the
--   public ones; random numbers are a function from the number of the draw.
-- Compress: rpc_src/compress_data over libzstd, which is the parameter Zstd with the laws ZstdLaws.
-- Connection: rpc_src/network/connection. `read`, `read_with_timeout`, `write_bytes`,
--   `write_request`, `write_response`, `extract_frame` and `close` are the methods; the kernel's
--   answers are lists, and `none` is a call that still waits when they run out.
-- Service: rpc_src/service and rpc_src/core/error_code.h. The JSON library is the parameter Json.
-- Server: rpc_src/network/connection_manager (Manager) and rpc_src/network/message_cycle (Cycle for
--   the loop, Respond for the task that a thread runs). Connections are objects in a list; the table
--   and the tasks name them by their place, since they share them. What the pool answers to each
--   enqueue, where the thread of the loop may wait, is a field of the server.
-- Client: rpc_src/core/rpc_client. `connect`, `disconnect` and `call` are the methods; what
--   ZooKeeper, the socket calls and the serializer answer are arguments, and std::stoi is written out.
-- Remote: a call from Client over Connection to Server, Service and back.
-- Balancer: rpc_src/conn_balancer/load_balancer with round.h, weight.h and random.h.
-- Pool: rpc_src/thread_pool/thread_pool. Each critical section is a function, and Step lets any
--   thread do any of them next; the server sees the pool as the list of tasks that it was given.
--   Singleton is rpc_src/thread_pool/thread_pool_singleton: the one pool of the process, or none.
-- Zookeeper: the calls of the ZooKeeper client over an unknown state, which is a parameter, with what
--   its answers say (IsLawful), that no client removes a node (IsKept), that others add below a service
--   only nodes of the servers' kind (AddsNamed), and that it is up (IsUp).
-- Registry: rpc_src/registry/service_registry. Memory is a tree that meets them all.
-- Config: rpc_src/load_config but for the server, over the parameter Json; Documents is an instance.
-- Discovery: rpc_src/conn_balancer/zk_conn_handler. It registers services by Registry and chooses
--   servers by Balancer; Addresses takes a registered address to the client that connects to it.
-- Startup: rpc_src/load_config/rpc_server_config, with Listening for
--   rpc_src/network/create_socket and NewClient for the constructor of the client. Main is
--   rpc_src/core/servers_main but for its loop, where epoll_create1 is taken to succeed.
-- Serializer: rpc_src/serializer over nlohmann::json and protobuf, which are the parameter Library.
-- Stress: rpc_src/tools/stress_test_client, where it goes by the number of requests.
--
-- The loop that cuts frames has as fuel one more than the length of the buffer, since each round
-- takes four bytes at least.
--
-- ensurePath calls itself for the parent of a path with the length of the path as fuel, and each
-- parent is shorter. std::to_string has twenty digits as fuel, which a number of 64 bits needs at most.
--
-- Left out: failing allocations, logging, measured times, the closing of a connection's descriptor
-- when its last owner lets go of it, and what several threads do at once to one connection or to the
-- handler of ZooKeeper; and the other programs of rpc_src/core, which make one call or demonstrate
-- a part.
pub mod Base
pub mod Protocol
pub mod Encrypt
pub mod Compress
pub mod Connection
pub mod Service
pub mod Server
pub mod Balancer
pub mod Client
pub mod Pool
pub mod Zookeeper
pub mod Registry
pub mod Remote
pub mod Config
pub mod Discovery
pub mod Startup
pub mod Serializer
pub mod Stress
