-- ===== src/Client/Tests.antt =====
-- A client that connects and calls.
use my_rpc_project_v.Base.{
  ◌≡◌, refl, arith, List, [], ◌∷◌, Option, none, some, true, false, Bytes, codes, pos, negsuc,
  net_bytes, word_bytes, append-nil, sym,
}
use my_rpc_project_v.Protocol.{write_field}
use my_rpc_project_v.Protocol.Request
use my_rpc_project_v.Protocol.Response
use my_rpc_project_v.Compress.Stored.{stored, stored-ZstdLaws}
use my_rpc_project_v.Encrypt.{combine, generate_random_bytes}
use my_rpc_project_v.Encrypt.Shift.{shift_encrypt, shift_encrypt_from}
use my_rpc_project_v.Encrypt.Base64.{base64_encode, encode_loop, encode_group, encode_rest}
use my_rpc_project_v.Connection.{
  open_fd, read, read_loop, read_with_timeout, ready, got, SelectResult, ReadResult,
}
use my_rpc_project_v.Connection.Samples.{
  socket, draws, ping, pong, pong-IsResponse, on_wire, sent_as, one_write, ping_sent, pong_written,
  pong-length,
}
use my_rpc_project_v.Client.{
  Client, Attempt, connect_refused, opened, split_address, stoi, init_socket, connect_loop, connect,
  returned, failed, of_option, Answers, call,
}
use my_rpc_project_v.Client.Connected.{IsClient, call-IsClient}
use my_rpc_project_v.Client.Answer.{Replied, call_answered}

abbrev offline : Client
offline = record {
  server_ip = [];
  server_port = pos 0;
  retry_times = 2;
  connection = none;
  sequence_id = 299;
  is_connected = false;
}

abbrev refused : Attempt
refused = record { server_address = codes "10.0.0.1:8080"; socket = connect_refused (pos 4) }

abbrev found : Attempt
found = record { server_address = codes "10.0.0.2:81"; socket = opened (pos 5) }

abbrev online : Client
online = record {
  server_ip = codes "10.0.0.2";
  server_port = pos 81;
  retry_times = 2;
  connection = some (socket []);
  sequence_id = 299;
  is_connected = true;
}

ports :
    (stoi (codes " 80x") ≡ some (pos 80))
    × (stoi (codes "-3") ≡ some (negsuc 2))
    × (stoi (codes "x") ≡ none)
    × (stoi (codes "2147483648") ≡ none)
unfolding stoi
ports = (refl, refl, refl, refl)

online_after : connect_loop 2 (refused ∷ found ∷ []) offline ≡ some (online, returned true)
unfolding connect_loop split_address stoi init_socket open_fd
online_after = refl

-- The data as they are.
abbrev plain : Bytes → Option Bytes
plain xs = some xs

abbrev nothing_up : Answers
nothing_up = record { attempts = refused ∷ refused ∷ []; writes = []; rounds = [] }

abbrev tried : Client
tried = record offline { server_ip = codes "10.0.0.1"; server_port = pos 8080 }

call_refused :
    call stored plain draws offline (codes "S") (codes "Echo") (codes "hi") nothing_up
    ≡ some (tried, failed)
unfolding call connect connect_loop split_address stoi init_socket
call_refused = refl

call-IsClient_example : IsClient tried
call-IsClient_example =
    call-IsClient stored plain draws offline tried (codes "S") (codes "Echo") (codes "hi")
      nothing_up failed call_refused (λ h. cc)

abbrev pong_wire : Bytes
pong_wire = on_wire (Response.serialize pong [])

abbrev round : List SelectResult × List ReadResult
round = (ready ∷ [], got pong_wire ∷ [])

abbrev answers : Answers
answers = record { attempts = []; writes = one_write; rounds = round ∷ [] }

pong_read :
    read_with_timeout (ready ∷ []) (got pong_wire ∷ []) (socket [])
    ≡ some (socket pong_wire, true, [])
unfolding read_with_timeout read read_loop Response.serialize write_field word_bytes net_bytes
    base64_encode encode_loop encode_group encode_rest combine generate_random_bytes shift_encrypt
    shift_encrypt_from
pong_read = refl

pong-Replied : Replied stored pong pong_wire
pong-Replied = record {
  draw = draws;
  valid = pong-IsResponse;
  written = pong_written;
  within = omega (arith, pong-length);
}

call_answered_example :
    call stored plain draws online (codes "S") (codes "Echo") (codes "hi") answers
    ≡ some (
      record online { connection = some (socket []); sequence_id = 300 },
      of_option (plain (codes "hi")),
    )
call_answered_example =
    call_answered stored stored-ZstdLaws plain draws online (socket []) (socket pong_wire)
      (codes "S") (codes "Echo") (codes "i") b'h' answers
      (sent_as (on_wire (Request.serialize ping []))) (ready ∷ []) (got pong_wire ∷ []) [] [] pong
      pong_wire [] refl refl ping_sent refl refl pong_read pong-Replied (sym (append-nil pong_wire))
      refl
