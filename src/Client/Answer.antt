-- ===== src/Client/Answer.antt =====
-- A call whose response arrives.
use my_rpc_project_v.Base.{
  ℕ, ◌+◌, ◌%◌, ◌^◌, ◌≤◌, ◌≡◌, ◌∙◌, ap, arith, List, [], ◌∷◌, ◌++◌, Option, some, true, Bytes,
  length,
}
use my_rpc_project_v.Protocol.Response.{RpcResponse, IsResponse}
use my_rpc_project_v.Protocol.Response
use my_rpc_project_v.Protocol.Response.Read.{response_deserialize-serialize}
use my_rpc_project_v.Compress.{Zstd, ZstdLaws}
use my_rpc_project_v.Connection.{
  Connection, Written, write_request, SelectResult, ReadResult, read_with_timeout, wire_bytes,
  max_frame_size, extract_frame, complete,
}
use my_rpc_project_v.Connection.Frames.{extract_frame-wire}
use my_rpc_project_v.Connection.Delivery.{response_length, response_magic, response_bytes}
use my_rpc_project_v.Client.{
  Client, connect, of_option, Answers, wait_frame, whole_frame, read_result, read_response,
  generate_sequence_id, request_for, send, call, empty_response,
}

-- A response as it comes over the wire.
pub record Replied (z : Zstd) (response : RpcResponse) (wire : Bytes) : Type 0 where
  pub draw : ℕ → ℕ
  pub valid : IsResponse response
  pub written : wire_bytes z draw (Response.serialize response []) ≡ some wire
  pub within : length wire ≤ 4 + max_frame_size

module _ (z : Zstd) (laws : ZstdLaws z) {A : Type 0} (decode : Bytes → Option A) where
  frame_waited :
      (response : RpcResponse) (wire rest : Bytes) (k k1 : Connection) (ss : List SelectResult)
      (rs left : List ReadResult) (rounds : List (List SelectResult × List ReadResult))
      → Replied z response wire
      → read_with_timeout ss rs k ≡ some (k1, true, left)
      → k1.read_buffer ≡ wire ++ rest
      → wait_frame z ((ss, rs) ∷ rounds) k
        ≡ some (record k1 { read_buffer = rest }, whole_frame (Response.serialize response []))
  unfolding wait_frame
  frame_waited response wire rest k k1 ss rs left rounds m reading buffered =
      rw (reading, wait_frame) (rw (cut, wait_frame) (rw cut))
    where
      cut :
          extract_frame z k1 []
          ≡ (record k1 { read_buffer = rest }, complete, Response.serialize response [])
      cut =
          extract_frame-wire z laws m.draw (Response.serialize response []) wire
            (response_bytes response m.valid) m.written m.within k1 rest []
            (response_length response m.valid) (response_magic response m.valid) buffered

  result_read :
      (response : RpcResponse)
      → IsResponse response
      → response.error_code ≡ 0
      → read_result decode (Response.serialize response [])
        ≡ some (of_option (decode response.result_data))
  unfolding read_result
  result_read response valid success =
      rw (response_deserialize-serialize response empty_response [] valid, read_result)
        (ground (arith, success))

  -- Under the laws of zstd: on a client that is connected, a call with a payload whose request is
  -- written and whose first reading brings a whole response with code 0, within the frame limit,
  -- returns what the response's data decode to, and what came behind it stays in the buffer. The
  -- response may carry any sequence number.
  pub call_answered :
      (draw : ℕ → ℕ) (c : Client) (k k1 : Connection) (service_name method_name more : Bytes)
      (first : ℕ) (answers : Answers) (w : Written) (ss : List SelectResult)
      (rs left : List ReadResult) (rounds : List (List SelectResult × List ReadResult))
      (response : RpcResponse) (wire rest : Bytes)
      → c.is_connected ≡ true
      → c.connection ≡ some k
      → write_request z draw k
          (request_for ((c.sequence_id + 1) % 2 ^ 32) service_name method_name (first ∷ more))
          answers.writes
        ≡ some w
      → w.result ≡ true
      → answers.rounds ≡ (ss, rs) ∷ rounds
      → read_with_timeout ss rs w.conn ≡ some (k1, true, left)
      → Replied z response wire
      → k1.read_buffer ≡ wire ++ rest
      → response.error_code ≡ 0
      → call z decode draw c service_name method_name (first ∷ more) answers
        ≡ some (
          record c {
            connection = some (record k1 { read_buffer = rest });
            sequence_id = (c.sequence_id + 1) % 2 ^ 32;
          },
          of_option (decode response.result_data),
        )
  unfolding call connect send generate_sequence_id read_response
  call_answered draw c k k1 service_name method_name more first answers w ss rs left rounds response
        wire rest on there written sent listed reading m buffered success =
      ground (arith, on, there, written, sent, waited, result_read response m.valid success)
    where
      waited :
          wait_frame z answers.rounds w.conn
          ≡ some (record k1 { read_buffer = rest }, whole_frame (Response.serialize response []))
      waited =
          ap (λ x. wait_frame z x w.conn) listed
          ∙ frame_waited response wire rest w.conn k1 ss rs left rounds m reading buffered
