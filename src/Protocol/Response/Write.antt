-- ===== src/Protocol/Response/Write.antt =====
-- RpcResponse::Serialize writes one piece after the other, and nothing of the buffer is left over.
use my_rpc_project_v.Base.{
  ℕ, ◌+◌, ◌-◌, ◌≡◌, ◌∙◌, refl, sym, ap, arith, Bytes, [], ◌++◌, append_assoc, append-nil, length,
  drop, word_bytes, memcpy, memcpy_next, length-append, length-word_bytes, length-drop, drop_all,
  resize, length-resize,
}
use my_rpc_project_v.Protocol.{write_field, field_bytes, header_bytes, header_size}
use my_rpc_project_v.Protocol.Fields.{
  u32_fits, write_field_next, length-header_bytes, length-field_bytes,
}
use my_rpc_project_v.Protocol.Response.{
  RpcResponse, serialize, encoding, IsResponse, header, body_size,
}

module _ (r : RpcResponse) (out : Bytes) (v : IsResponse r) where
  abbrev head : Bytes
  head = header_bytes (header r)

  abbrev room : Bytes
  room = resize out (header_size + body_size r) 0

  length-room : length room ≡ header_size + body_size r
  length-room = length-resize out (header_size + body_size r) 0

  abbrev room1 : Bytes
  room1 = drop (length head) room

  abbrev room2 : Bytes
  room2 = drop (4 + length r.result_data) room1

  abbrev room3 : Bytes
  room3 = drop (4 + length r.error_message) room2

  abbrev code : Bytes
  code = word_bytes r.error_code

  abbrev sequence : Bytes
  sequence = word_bytes r.sequence_id

  abbrev room4 : Bytes
  room4 = drop (length code) room3

  abbrev head_result : Bytes
  head_result = head ++ field_bytes r.result_data

  abbrev head_message : Bytes
  head_message = head_result ++ field_bytes r.error_message

  length-room1 : length room1 ≡ body_size r
  length-room1 =
      omega (arith, length-room, length-header_bytes (header r), length-drop (length head) room)

  length-room2 : length room2 ≡ body_size r - (4 + length r.result_data)
  length-room2 = omega (arith, length-room1, length-drop (4 + length r.result_data) room1)

  length-room3 : length room3 ≡ 8
  length-room3 = omega (arith, length-room2, length-drop (4 + length r.error_message) room2)

  length-room4 : length room4 ≡ 4
  length-room4 = omega (arith, length-room3, length-drop (length code) room3, length-word_bytes)

  length-head_result : length head_result ≡ 16 + length r.result_data
  length-head_result = omega (
    arith,
    length-append head (field_bytes r.result_data),
    length-header_bytes (header r),
    length-field_bytes r.result_data,
  )

  abbrev at_code : ℕ
  at_code = 16 + length r.result_data + 4 + length r.error_message

  length-head-message : length head_message ≡ at_code
  length-head-message = omega (
    arith,
    length-append head_result (field_bytes r.error_message),
    length-head_result,
    length-field_bytes r.error_message,
  )

  header_written : memcpy room 0 head ≡ head ++ room1
  header_written =
      memcpy_next [] room head 0 refl (omega (arith, length-room, length-header_bytes (header r)))

  result_written : write_field (head ++ room1) 12 r.result_data ≡ head_result ++ room2
  result_written =
      write_field_next head room1 r.result_data 12 (sym (length-header_bytes (header r)))
        (omega (arith, v.body_fits)) (omega (arith, length-room1))

  message_written :
      write_field (head_result ++ room2) (16 + length r.result_data) r.error_message
      ≡ head_message ++ room3
  message_written =
      write_field_next head_result room2 r.error_message _ (sym length-head_result)
        (omega (arith, v.body_fits)) (omega (arith, length-room2))

  code_written : memcpy (head_message ++ room3) at_code code ≡ (head_message ++ code) ++ room4
  code_written =
      memcpy_next head_message room3 code at_code (sym length-head-message)
        (omega (arith, length-room3, length-word_bytes))
      ∙ sym (append_assoc head_message code room4)

  sequence_written :
      memcpy ((head_message ++ code) ++ room4) (at_code + 4) sequence
      ≡ (head_message ++ code) ++ sequence
  sequence_written =
      memcpy_next (head_message ++ code) room4 sequence (at_code + 4)
        (omega (arith, length-append head_message code, length-head-message, length-word_bytes))
        (omega (arith, length-room4, length-word_bytes))
      ∙ ap (λ xs. (head_message ++ code) ++ (sequence ++ xs))
          (drop_all (length sequence) room4 (omega (arith, length-room4, length-word_bytes)))
      ∙ ap (λ xs. (head_message ++ code) ++ xs) (append-nil sequence)

  -- A response of C++ sizes is written as its header, its two fields, its code and its sequence
  -- number, whatever the string held before.
  pub response_serialize-eq-encoding : serialize r out ≡ encoding r
  unfolding serialize
  response_serialize-eq-encoding =
      rw
        (
          u32_fits (length r.result_data) (omega (arith, v.body_fits)),
          u32_fits (length r.error_message) (omega (arith, v.body_fits)),
          header_written,
          result_written,
          message_written,
          code_written,
          sequence_written,
        )
        (simp append_assoc)
