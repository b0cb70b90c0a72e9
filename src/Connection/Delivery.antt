-- ===== src/Connection/Delivery.antt =====
-- From Write on one connection to ExtractFrame and Deserialize on the other.
use my_rpc_project_v.Base.{
  ℕ, ◌+◌, ◌≤◌, ◌≡◌, ◌∙◌, sym, ap, arith, List, [], ◌++◌, append-nil, true, some, Bytes, length,
  length-append, Option-cases, inl, inr, word, word_bytes, word_bytes-IsBytes, IsBytes, All-append,
}
use my_rpc_project_v.Protocol.{magic, header_bytes, field_bytes}
use my_rpc_project_v.Protocol.Fields.{
  header_magic, length-header_bytes, header_bytes-IsBytes, field_bytes-IsBytes,
}
use my_rpc_project_v.Protocol.Request.{RpcRequest, IsRequest}
use my_rpc_project_v.Protocol.Request
use my_rpc_project_v.Protocol.Request.RoundTrip.{deserialize-serialize as request_back}
use my_rpc_project_v.Protocol.Response.{RpcResponse, IsResponse}
use my_rpc_project_v.Protocol.Response
use my_rpc_project_v.Protocol.Response.Read.{response_deserialize-serialize as response_back}
use my_rpc_project_v.Compress.{Zstd, ZstdLaws}
use my_rpc_project_v.Connection.{
  Connection, complete, extract_frame, max_frame_size, wire_bytes, write_frame, write_request,
  write_response, WriteResult, Written,
}
use my_rpc_project_v.Connection.Writing.{write_bytes-Outcome}
use my_rpc_project_v.Connection.Frames.{extract_frame-wire}

pub request_length : (r : RpcRequest) → IsRequest r → 12 ≤ length (Request.serialize r [])
request_length r v = rw (Request.Write.serialize-eq-encoding r [] v) (
    omega (
      arith,
      length-append (header_bytes (Request.header r))
          (field_bytes r.service_name ++ (field_bytes r.method_name ++ field_bytes r.payload)),
      length-header_bytes (Request.header r),
    ))

pub request_magic : (r : RpcRequest) → IsRequest r → word (Request.serialize r []) ≡ magic
request_magic r v = rw (Request.Write.serialize-eq-encoding r [] v) (
    header_magic (Request.header r)
      (field_bytes r.service_name ++ (field_bytes r.method_name ++ field_bytes r.payload))
      (omega arith))

pub request_bytes : (r : RpcRequest) → IsRequest r → IsBytes (Request.serialize r [])
request_bytes r v = rw (Request.Write.serialize-eq-encoding r [] v) (
    All-append _ (header_bytes (Request.header r)) _ (header_bytes-IsBytes (Request.header r)) (
      All-append _ (field_bytes r.service_name) _
        (field_bytes-IsBytes r.service_name v.service_bytes)
        (All-append _ (field_bytes r.method_name) _
          (field_bytes-IsBytes r.method_name v.method_bytes)
          (field_bytes-IsBytes r.payload v.payload_bytes))))

abbrev tail_bytes : RpcResponse → Bytes
tail_bytes r =
    field_bytes r.result_data
    ++ (field_bytes r.error_message ++ (word_bytes r.error_code ++ word_bytes r.sequence_id))

pub response_length : (r : RpcResponse) → IsResponse r → 12 ≤ length (Response.serialize r [])
response_length r v = rw (Response.Write.response_serialize-eq-encoding r [] v) (
    omega (
      arith,
      length-append (header_bytes (Response.header r)) (tail_bytes r),
      length-header_bytes (Response.header r),
    ))

pub response_bytes : (r : RpcResponse) → IsResponse r → IsBytes (Response.serialize r [])
response_bytes r v = rw (Response.Write.response_serialize-eq-encoding r [] v) (
    All-append _ (header_bytes (Response.header r)) _ (header_bytes-IsBytes (Response.header r)) (
      All-append _ (field_bytes r.result_data) _ (field_bytes-IsBytes r.result_data v.result_bytes)
        (All-append _ (field_bytes r.error_message) _
          (field_bytes-IsBytes r.error_message v.message_bytes)
          (All-append _ (word_bytes r.error_code) _ (word_bytes-IsBytes r.error_code)
            (word_bytes-IsBytes r.sequence_id)))))

pub response_magic : (r : RpcResponse) → IsResponse r → word (Response.serialize r []) ≡ magic
response_magic r v =
    rw (Response.Write.response_serialize-eq-encoding r [] v)
      (header_magic (Response.header r) (tail_bytes r) (omega arith))

-- What a successful WriteFrame has sent.
pub write_frame-sent :
    (z : Zstd) (draw : ℕ → ℕ) (c : Connection) (message : Bytes) (ws : List WriteResult)
    (w : Written)
    → write_frame z draw c message ws ≡ some w
    → w.result ≡ true
    → wire_bytes z draw message ≡ some w.sent
unfolding write_frame
write_frame-sent z draw c message ws w e ok = elim (Option-cases (wire_bytes z draw message)) [
  | inl none_left ↦ absurd (ground (arith, none_left))
  | inr (wire, k) ↦ elim (write_bytes-Outcome c wire ws w (ground (arith, k))) [
    | inl sent ↦ k ∙ ap some (sym sent.all_sent)
    | inr lost ↦ absurd (ground (arith, lost.failed))
  ]
]

-- The bytes of a message that was sent, at the front of the other side's buffer.
module _ (z : Zstd) (laws : ZstdLaws z) (draw : ℕ → ℕ) (c s : Connection) (ws : List WriteResult)
    (w : Written) (rest frame_out : Bytes) (ok : w.result ≡ true)
    (within : length w.sent ≤ 4 + max_frame_size) (arrived : s.read_buffer ≡ w.sent ++ rest) where
  message_delivered :
      (message : Bytes)
      → IsBytes message
      → write_frame z draw c message ws ≡ some w
      → 12 ≤ length message
      → word message ≡ magic
      → extract_frame z s frame_out ≡ (record s { read_buffer = rest }, complete, message)
  message_delivered message bytes e long_enough magic_found =
      extract_frame-wire z laws draw message w.sent bytes
        (write_frame-sent z draw c message ws w e ok) within s rest frame_out long_enough
        magic_found arrived

  -- Under the laws of zstd: a request of C++ sizes whose Write returned true, once its bytes have
  -- arrived at the front of the other side's buffer and within the frame limit, is cut out whole
  -- and deserialised to the same request; what follows it stays in the buffer.
  pub request_delivered :
      (r r0 : RpcRequest)
      → IsRequest r
      → write_request z draw c r ws ≡ some w
      → (frame : Bytes) × (extract_frame z s frame_out
          ≡ (record s { read_buffer = rest }, complete, frame))
        × (Request.deserialize r0 frame ≡ (r, true))
  unfolding write_request
  request_delivered r r0 v e = (
    Request.serialize r [],
    message_delivered (Request.serialize r []) (request_bytes r v) e (request_length r v)
        (request_magic r v),
    ap (λ xs. Request.deserialize r0 xs) (sym (append-nil (Request.serialize r [])))
        ∙ request_back r r0 [] [] v,
  )

  -- Under the laws of zstd: a response of C++ sizes whose Write returned true, once its bytes have
  -- arrived at the front of the other side's buffer and within the frame limit, is cut out whole
  -- and deserialised to the same response; what follows it stays in the buffer.
  pub response_delivered :
      (r r0 : RpcResponse)
      → IsResponse r
      → write_response z draw c r ws ≡ some w
      → (frame : Bytes) × (extract_frame z s frame_out
          ≡ (record s { read_buffer = rest }, complete, frame))
        × (Response.deserialize r0 frame ≡ some (r, true))
  unfolding write_response
  response_delivered r r0 v e = (
    Response.serialize r [],
    message_delivered (Response.serialize r []) (response_bytes r v) e (response_length r v)
        (response_magic r v),
    response_back r r0 [] v,
  )
