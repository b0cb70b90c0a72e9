-- ===== src/Connection/Samples.antt =====
-- Messages on the wire, and the connection that takes them, for the examples.
use my_rpc_project_v.Base.{
  ℕ, ◌+◌, ◌*◌, ◌≡◌, ◌++◌, List, [], ◌∷◌, refl, arith, Bytes, codes, length, true, some, pos,
  net_bytes, word_bytes, u32,
}
use my_rpc_project_v.Protocol.{write_field}
use my_rpc_project_v.Protocol.Request
use my_rpc_project_v.Protocol.Request.{RpcRequest, IsRequest}
use my_rpc_project_v.Protocol.Response
use my_rpc_project_v.Protocol.Response.{RpcResponse, IsResponse}
use my_rpc_project_v.Compress.{compress_string}
use my_rpc_project_v.Compress.Stored.{stored}
use my_rpc_project_v.Encrypt.{encrypt, combine, generate_random_bytes}
use my_rpc_project_v.Encrypt.Shift.{shift_encrypt, shift_encrypt_from}
use my_rpc_project_v.Encrypt.Base64.{base64_encode, encode_loop, encode_group, encode_rest}
use my_rpc_project_v.Connection.{
  Connection, connected, WriteResult, wrote, Written, write_bytes, write_loop, write_frame,
  write_request, write_response, wire_bytes,
}

abbrev pub socket : Bytes → Connection
socket buffer = record { fd = pos 5; read_buffer = buffer; state = connected }

abbrev pub draws : ℕ → ℕ
draws i = i * 37 + 11

abbrev pub ping : RpcRequest
ping = record {
  sequence_id = 300;
  service_name = codes "S";
  method_name = codes "Echo";
  payload = codes "hi";
}

abbrev pub blank : RpcRequest
blank = record { sequence_id = 0; service_name = []; method_name = []; payload = [] }

pub ping-IsRequest : IsRequest ping
ping-IsRequest = omega arith

abbrev pub pong : RpcResponse
pong = record {
  sequence_id = 300;
  result_data = codes "hi";
  error_message = codes "Success";
  error_code = 0;
}

abbrev pub no_response : RpcResponse
no_response = record { sequence_id = 0; result_data = []; error_message = []; error_code = 0 }

pub pong-IsResponse : IsResponse pong
pong-IsResponse = omega arith

-- What goes over the wire for a message.
abbrev pub hidden : Bytes → Bytes
hidden message = base64_encode (combine (generate_random_bytes draws 32) (0x28 ∷ message))

abbrev pub on_wire : Bytes → Bytes
on_wire message = net_bytes (u32 (length (hidden message))) ++ hidden message

abbrev pub sent_as : Bytes → Written
sent_as wire = record { conn = socket []; result = true; sent = wire; answers = [] }

abbrev pub one_write : List WriteResult
one_write = wrote 10000 ∷ []

pub ping_written :
    wire_bytes stored draws (Request.serialize ping []) ≡ some (on_wire (Request.serialize ping []))
unfolding wire_bytes compress_string encrypt Request.serialize write_field word_bytes
ping_written = refl

pub pong_written :
    wire_bytes stored draws (Response.serialize pong [])
    ≡ some (on_wire (Response.serialize pong []))
unfolding wire_bytes compress_string encrypt Response.serialize write_field word_bytes
pong_written = refl

pub ping-length : length (on_wire (Request.serialize ping [])) ≡ 92
unfolding Request.serialize write_field word_bytes net_bytes base64_encode encode_loop encode_group
    encode_rest combine generate_random_bytes shift_encrypt shift_encrypt_from
ping-length = refl

pub pong-length : length (on_wire (Response.serialize pong [])) ≡ 100
unfolding Response.serialize write_field word_bytes net_bytes base64_encode encode_loop encode_group
    encode_rest combine generate_random_bytes shift_encrypt shift_encrypt_from
pong-length = refl

pub ping_sent :
    write_request stored draws (socket []) ping one_write
    ≡ some (sent_as (on_wire (Request.serialize ping [])))
unfolding write_request write_frame wire_bytes compress_string encrypt write_bytes write_loop
    Request.serialize write_field word_bytes net_bytes base64_encode encode_loop encode_group
    encode_rest combine generate_random_bytes shift_encrypt shift_encrypt_from
ping_sent = refl

pub pong_sent :
    write_response stored draws (socket []) pong one_write
    ≡ some (sent_as (on_wire (Response.serialize pong [])))
unfolding write_response write_frame wire_bytes compress_string encrypt write_bytes write_loop
    Response.serialize write_field word_bytes net_bytes base64_encode encode_loop encode_group
    encode_rest combine generate_random_bytes shift_encrypt shift_encrypt_from
pong_sent = refl
