-- ===== src/Remote/Tests.antt =====
-- A call of a service that gives its arguments back.
use my_rpc_project_v.Base.{
  ◌≡◌, refl, arith, [], ◌∷◌, some, true, Bytes, codes, pos, sym, subst, append-nil, net_bytes,
  word_bytes, bytes_eq, int_eq,
}
use my_rpc_project_v.Protocol.{write_field}
use my_rpc_project_v.Protocol.Request
use my_rpc_project_v.Protocol.Response
use my_rpc_project_v.Protocol.Response.{IsResponse}
use my_rpc_project_v.Compress.Stored.{stored, stored-ZstdLaws}
use my_rpc_project_v.Encrypt.{combine, generate_random_bytes}
use my_rpc_project_v.Encrypt.Shift.{shift_encrypt, shift_encrypt_from}
use my_rpc_project_v.Encrypt.Base64.{base64_encode, encode_loop, encode_group, encode_rest}
use my_rpc_project_v.Connection.{read, read_loop, read_with_timeout, ready, got}
use my_rpc_project_v.Connection.Samples.{
  socket, draws, ping, ping-IsRequest, ping-length, pong, pong-IsResponse, on_wire, sent_as,
  one_write, ping_sent, pong_sent, pong-length,
}
use my_rpc_project_v.Service.{
  Service, ServiceManager, find_service, handle_rpc_request, error_number, error_message,
}
use my_rpc_project_v.Server.Manager.{get_connection}
use my_rpc_project_v.Server.Cycle.{Server, object_at, handle_client_data}
use my_rpc_project_v.Server.Cycle.Stream.{after_stream}
use my_rpc_project_v.Server.Respond.{respond, handle_rpc_request_sync}
use my_rpc_project_v.Client.{Client, of_option, Answers, call}
use my_rpc_project_v.Remote.{call_served}

abbrev mirror : Service
mirror = record { service_name = codes "S"; handle_request = λ method_name args. some args }

abbrev services : ServiceManager
services = (codes "S", mirror) ∷ []

abbrev server : Server
server = record {
  listen_fds = pos 3 ∷ [];
  running = true;
  watched = pos 7 ∷ pos 3 ∷ [];
  connections = (pos 7, 0) ∷ [];
  objects = socket [] ∷ [];
  tasks = [];
  enqueues = λ n. some true;
  closed = [];
}

abbrev client : Client
client = record {
  server_ip = codes "h";
  server_port = pos 81;
  retry_times = 2;
  connection = some (socket []);
  sequence_id = 299;
  is_connected = true;
}

abbrev ping_wire : Bytes
ping_wire = on_wire (Request.serialize ping [])

abbrev pong_wire : Bytes
pong_wire = on_wire (Response.serialize pong [])

abbrev answers : Answers
answers = record {
  attempts = [];
  writes = one_write;
  rounds = (ready ∷ [], got pong_wire ∷ []) ∷ [];
}

abbrev handed_over : Server
handed_over = after_stream server 0 (socket ping_wire) ((ping, ping_wire) ∷ []) []

known : get_connection (pos 7) server.connections ≡ some 0
unfolding get_connection int_eq
known = refl

object : object_at server.objects 0 ≡ some (socket [])
unfolding object_at
object = refl

ping_read : read (got ping_wire ∷ []) (socket []) ≡ some (socket ping_wire, true, [])
unfolding read read_loop Request.serialize write_field word_bytes net_bytes base64_encode
    encode_loop encode_group encode_rest combine generate_random_bytes shift_encrypt
    shift_encrypt_from
ping_read = refl

pong_read :
    read_with_timeout (ready ∷ []) (got pong_wire ∷ []) (socket [])
    ≡ some (socket pong_wire, true, [])
unfolding read_with_timeout read read_loop Response.serialize write_field word_bytes net_bytes
    base64_encode encode_loop encode_group encode_rest combine generate_random_bytes shift_encrypt
    shift_encrypt_from
pong_read = refl

mirrored : handle_rpc_request services (codes "S") (codes "Echo") (codes "hi") ≡ some (codes "hi")
unfolding handle_rpc_request find_service bytes_eq
mirrored = refl

responds : respond services ping ≡ pong
unfolding respond handle_rpc_request find_service bytes_eq error_number error_message
responds = refl

task_done :
    handle_rpc_request_sync stored draws services handed_over 0 ping one_write
    ≡ some (handed_over, sent_as pong_wire)
unfolding handle_rpc_request_sync object_at
task_done = rw (responds, handle_rpc_request_sync) (rw (pong_sent, handle_rpc_request_sync) refl)

call_served_example :
    (handle_client_data stored server (pos 7) (got ping_wire ∷ []) ≡ some handed_over)
    × (call stored
          (λ (xs : Bytes). some xs)
          draws
          client
          (codes "S")
          (codes "Echo")
          (codes "hi")
          answers
        ≡ some (
          record client { connection = some (socket []); sequence_id = 300 },
          of_option (some (codes "hi")),
        ))
call_served_example =
    call_served stored stored-ZstdLaws (λ (xs : Bytes). some xs) draws draws client (socket [])
      (socket pong_wire) (codes "S") (codes "Echo") (codes "i") b'h' answers (sent_as ping_wire)
      (sent_as pong_wire) services server handed_over (pos 7) 0 (socket []) (socket ping_wire)
      (got ping_wire ∷ []) [] one_write (codes "hi") [] (ready ∷ []) (got pong_wire ∷ []) [] [] refl
      refl ping-IsRequest ping_sent refl (omega (arith, ping-length)) known object ping_read refl
      refl (λ h. cc) (λ h. cc) mirrored (subst IsResponse (sym responds) pong-IsResponse) task_done
      refl (omega (arith, pong-length)) refl pong_read (sym (append-nil pong_wire))
