-- ===== src/Server/Tests.antt =====
-- A server with one connection, and what its events do.
use my_rpc_project_v.Base.{
  ℕ, ◌≡◌, ◌++◌, List, [], ◌∷◌, refl, arith, Bytes, codes, true, false, some, none, ℤ, pos, int_eq,
  net_bytes, word_bytes, drop, Bool-cases, inl, inr, subst, sym, append_assoc,
}
use my_rpc_project_v.Protocol.{write_field}
use my_rpc_project_v.Protocol.Request
use my_rpc_project_v.Protocol.Request.{RpcRequest}
use my_rpc_project_v.Compress.Stored.{stored, stored-ZstdLaws}
use my_rpc_project_v.Encrypt.{combine, generate_random_bytes}
use my_rpc_project_v.Encrypt.Shift.{shift_encrypt, shift_encrypt_from}
use my_rpc_project_v.Encrypt.Base64.{base64_encode, encode_loop, encode_group, encode_rest}
use my_rpc_project_v.Connection.{ReadResult, got, would_block, read, read_loop}
use my_rpc_project_v.Connection.Samples.{
  socket, draws, ping, ping-IsRequest, on_wire, ping_written, ping-length,
}
use my_rpc_project_v.Service.{Service, ServiceManager}
use my_rpc_project_v.Server.Manager.{get_connection, Distinct}
use my_rpc_project_v.Server.Respond.{respond, Answer, respond-Answer}
use my_rpc_project_v.Server.Cycle.{
  Server, object_at, handle_client_data, handle_epoll_events, loop, Event, accepted, accept_failed,
  contains, stopped, ready_events, wait_interrupted,
}
use my_rpc_project_v.Server.Cycle.Stream.{Sent, after_stream, handle_client_data-stream}
use my_rpc_project_v.Server.Cycle.Invariant.{IsServer}
use my_rpc_project_v.Server.Cycle.Ends.{Ends}
use my_rpc_project_v.Server.Cycle.Events.{handle_epoll_events-Ends, loop_stops}

abbrev table : List (ℤ × ℕ)
table = (pos 5, 0) ∷ (pos 6, 1) ∷ []

table-Distinct : Distinct table
unfolding get_connection int_eq
table-Distinct = (refl, (refl, tt))

abbrev refuser : Service
refuser = record { service_name = codes "S"; handle_request = λ method_name args. none }

abbrev services : ServiceManager
services = (codes "S", refuser) ∷ []

respond-Answer_example : Answer services ping (respond services ping)
respond-Answer_example = respond-Answer services ping

-- A server that listens on descriptor 3 and has one client.
abbrev server : Bytes → Server
server buffer = record {
  listen_fds = pos 3 ∷ [];
  running = false;
  watched = pos 5 ∷ pos 3 ∷ [];
  connections = (pos 5, 0) ∷ [];
  objects = socket buffer ∷ [];
  tasks = [];
  enqueues = λ n. some true;
  closed = [];
}

at_five :
    (fd : ℤ) (conn : ℕ)
    → get_connection fd ((pos 5, 0) ∷ []) ≡ some conn
    → (int_eq (pos 5) fd ≡ true) × (0 ≡ conn)
unfolding get_connection
at_five fd conn h = elim (Bool-cases (int_eq (pos 5) fd)) [
  | inl same ↦ (same, ground (arith, h, same))
  | inr apart ↦ absurd (ground (arith, h, apart))
]

server-IsServer : (buffer : Bytes) → IsServer (server buffer)
unfolding contains
server-IsServer buffer = record {
  distinct = (unfold get_connection in refl, tt);
  known = λ fd conn h. omega (arith, (at_five fd conn h).1);
  watching = λ fd conn h. ground (arith, (at_five fd conn h).0);
  queued = tt;
}

abbrev wire : Bytes
wire = on_wire (Request.serialize ping [])

-- A whole request and the first two bytes of another.
abbrev chunk : Bytes
chunk = wire ++ (0 ∷ 0 ∷ [])

abbrev arrival : List ReadResult
arrival = got chunk ∷ []

wire_front : wire ≡ (0 ∷ 0 ∷ []) ++ (0 ∷ drop 3 wire)
unfolding Request.serialize write_field word_bytes net_bytes base64_encode encode_loop encode_group
    encode_rest combine generate_random_bytes shift_encrypt shift_encrypt_from
wire_front = refl

chunk-read : read arrival (socket []) ≡ some (socket chunk, true, [])
unfolding read read_loop Request.serialize write_field word_bytes net_bytes base64_encode
    encode_loop encode_group encode_rest combine generate_random_bytes shift_encrypt
    shift_encrypt_from
chunk-read = refl

client_found : get_connection (pos 5) (server []).connections ≡ some 0
unfolding get_connection int_eq
client_found = refl

object_found : object_at (server []).objects 0 ≡ some (socket [])
unfolding object_at
object_found = refl

ping-Sent : Sent stored ping wire
ping-Sent = record {
  draw = draws;
  valid = ping-IsRequest;
  written = ping_written;
  within = omega (arith, ping-length);
}

handle_client_data-stream_example :
    handle_client_data stored (server []) (pos 5) arrival
    ≡ some (after_stream (server []) 0 (socket chunk) ((ping, wire) ∷ []) (0 ∷ 0 ∷ []))
handle_client_data-stream_example =
    handle_client_data-stream stored stored-ZstdLaws (server []) (pos 5) 0 (socket [])
      (socket chunk) arrival [] ((ping, wire) ∷ []) ping (0 ∷ 0 ∷ []) (drop 3 wire) 0 client_found
      object_found chunk-read (ping-Sent, tt) ((true, refl), tt)
      (subst (λ w. Sent stored ping w) wire_front ping-Sent)
      (sym (append_assoc wire [] (0 ∷ 0 ∷ [])))

abbrev reading : Event
reading = record {
  fd = pos 5;
  failed = false;
  readable = true;
  accept = accept_failed;
  reads = got (codes "abc") ∷ would_block ∷ [];
}

abbrev accepting : Event
accepting = record {
  fd = pos 3;
  failed = false;
  readable = true;
  accept = accepted (pos 8) true;
  reads = would_block ∷ [];
}

handle_epoll_events-Ends_example :
    Ends (handle_epoll_events stored (server []) (reading ∷ accepting ∷ []))
handle_epoll_events-Ends_example =
    handle_epoll_events-Ends stored (reading ∷ accepting ∷ []) (server [])
      ((got (codes "abc") ∷ [], [], refl), (([], [], refl), tt)) (server-IsServer [])
      (λ n. (true, refl))

loop_stops_example :
    (s' : Server) × (loop stored
        (server [])
        ((wait_interrupted ∷ ready_events (accepting ∷ []) ∷ []) ++ (stopped ∷ []))
      ≡ some (s', true))
    × IsServer s'
loop_stops_example =
    loop_stops stored (wait_interrupted ∷ ready_events (accepting ∷ []) ∷ []) [] (server [])
      ((([], [], refl), tt), tt) (server-IsServer []) (λ n. (true, refl))
