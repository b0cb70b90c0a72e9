-- ===== src/Protocol/Tests.antt =====
-- A request and a response, written and read back.
use my_rpc_project_v.Base.{
  ℕ, ◌+◌, ◌≡◌, ◌++◌, [], ◌∷◌, refl, arith, Bytes, codes, length, true, false, some, none, IsU32,
  drop, word, word_bytes,
}
use my_rpc_project_v.Protocol.{magic, header_bytes, field_bytes, write_field}
use my_rpc_project_v.Protocol.Request
use my_rpc_project_v.Protocol.Request.{RpcRequest, IsRequest}
use my_rpc_project_v.Protocol.Response
use my_rpc_project_v.Protocol.Response.{RpcResponse, IsResponse}
use my_rpc_project_v.Protocol.Request.Write.{serialize-eq-encoding}
use my_rpc_project_v.Protocol.Request.RoundTrip.{deserialize-serialize}
use my_rpc_project_v.Protocol.Request.Sound.{deserialize_sound, deserialize_truncated}
use my_rpc_project_v.Protocol.Response.Read.{response_deserialize-serialize, deserialize_overread}

abbrev ping : RpcRequest
ping = record {
  sequence_id = 300;
  service_name = codes "S";
  method_name = codes "Echo";
  payload = codes "hi";
}

abbrev blank : RpcRequest
blank = record { sequence_id = 0; service_name = []; method_name = []; payload = [] }

ping-IsRequest : IsRequest ping
ping-IsRequest = omega arith

abbrev pong : RpcResponse
pong = record {
  sequence_id = 300;
  result_data = codes "hi";
  error_message = codes "Success";
  error_code = 0;
}

abbrev no_response : RpcResponse
no_response = record { sequence_id = 0; result_data = []; error_message = []; error_code = 0 }

pong-IsResponse : IsResponse pong
pong-IsResponse = omega arith

ping_size : length (Request.encoding ping) ≡ 31
unfolding word_bytes
ping_size = refl

serialize-eq-encoding_example : Request.serialize ping (codes "old") ≡ Request.encoding ping
serialize-eq-encoding_example = serialize-eq-encoding ping (codes "old") ping-IsRequest

deserialize-serialize_example :
    Request.deserialize blank (Request.serialize ping (codes "old") ++ codes "more") ≡ (ping, true)
deserialize-serialize_example =
    deserialize-serialize ping blank (codes "old") (codes "more") ping-IsRequest

-- A message of 24 bytes with three empty fields.
abbrev bare : Bytes
bare =
    0x78 ∷ 0x56 ∷ 0x34 ∷ 0x12 ∷ 12 ∷ 0 ∷ 0 ∷ 0 ∷ 5 ∷ 0 ∷ 0 ∷ 0 ∷ 0 ∷ 0 ∷ 0 ∷ 0 ∷ 0 ∷ 0 ∷ 0 ∷ 0 ∷ 0
    ∷ 0 ∷ 0 ∷ 0 ∷ []

abbrev fifth : RpcRequest
fifth = record { sequence_id = 5; service_name = []; method_name = []; payload = [] }

bare_read : Request.deserialize blank bare ≡ (fifth, true)
unfolding Request.deserialize Request.read_field word
bare_read = refl

deserialize_sound_example :
    (size : ℕ) × (rest : Bytes) × IsU32 size
    × IsRequest fifth
    × (bare
        ≡ header_bytes (record { magic_number = magic; message_length = size; sequence_id = 5 })
          ++ (field_bytes [] ++ (field_bytes [] ++ (field_bytes [] ++ rest))))
deserialize_sound_example = deserialize_sound fifth blank bare (omega arith) bare_read

fifth_written : Request.serialize fifth [] ≡ (0x78 ∷ 0x56 ∷ []) ++ (0x34 ∷ drop 3 bare)
unfolding Request.serialize word_bytes write_field
fifth_written = refl

deserialize_truncated_example : (Request.deserialize blank (0x78 ∷ 0x56 ∷ [])).1 ≡ false
deserialize_truncated_example =
    deserialize_truncated fifth blank [] (0x78 ∷ 0x56 ∷ []) (drop 3 bare) 0x34 (omega arith)
      (omega arith) fifth_written

response_deserialize-serialize_example :
    Response.deserialize no_response (Response.serialize pong []) ≡ some (pong, true)
response_deserialize-serialize_example =
    response_deserialize-serialize pong no_response [] pong-IsResponse

-- A header that announces no byte.
abbrev header_only : Bytes
header_only = 0x78 ∷ 0x56 ∷ 0x34 ∷ 0x12 ∷ 0 ∷ 0 ∷ 0 ∷ 0 ∷ 5 ∷ 0 ∷ 0 ∷ 0 ∷ []

header_only-magic : word header_only ≡ magic
unfolding word
header_only-magic = refl

header_only-length : length header_only ≡ 12 + word (drop 4 header_only)
unfolding word
header_only-length = refl

deserialize_overread_example : Response.deserialize no_response header_only ≡ none
deserialize_overread_example =
    deserialize_overread no_response header_only (omega arith) (omega arith) header_only-magic
      header_only-length
