-- ===== src/Protocol/Request/Write.antt =====
-- RpcRequest::Serialize writes one piece after the other, and nothing of the buffer is left over.
use my_rpc_project_v.Base.{
  ◌+◌, ◌-◌, ◌≡◌, ◌∙◌, refl, sym, arith, Bytes, [], ◌++◌, append_assoc, append-nil, length, drop,
  memcpy, memcpy_next, length-append, length-drop, drop_all, resize, length-resize,
}
use my_rpc_project_v.Protocol.{write_field, field_bytes, header_bytes, header_size}
use my_rpc_project_v.Protocol.Fields.{
  u32_fits, write_field_next, length-header_bytes, length-field_bytes,
}
use my_rpc_project_v.Protocol.Request.{
  RpcRequest, serialize, encoding, IsRequest, header, body_size,
}

module _ (r : RpcRequest) (out : Bytes) (v : IsRequest r) where
  abbrev head : Bytes
  head = header_bytes (header r)

  abbrev room : Bytes
  room = resize out (header_size + body_size r) 0

  length-room : length room ≡ header_size + body_size r
  length-room = length-resize out (header_size + body_size r) 0

  abbrev room1 : Bytes
  room1 = drop (length head) room

  abbrev room2 : Bytes
  room2 = drop (4 + length r.service_name) room1

  abbrev room3 : Bytes
  room3 = drop (4 + length r.method_name) room2

  header_written : memcpy room 0 head ≡ head ++ room1
  header_written =
      memcpy_next [] room head 0 refl (omega (arith, length-room, length-header_bytes (header r)))

  abbrev head_service : Bytes
  head_service = head ++ field_bytes r.service_name

  abbrev head_method : Bytes
  head_method = head_service ++ field_bytes r.method_name

  length-room1 : length room1 ≡ body_size r
  length-room1 =
      omega (arith, length-room, length-header_bytes (header r), length-drop (length head) room)

  length-room2 : length room2 ≡ body_size r - (4 + length r.service_name)
  length-room2 = omega (arith, length-room1, length-drop (4 + length r.service_name) room1)

  length-room3 :
      length room3 ≡ body_size r - (4 + length r.service_name) - (4 + length r.method_name)
  length-room3 = omega (arith, length-room2, length-drop (4 + length r.method_name) room2)

  service_written : write_field (head ++ room1) 12 r.service_name ≡ head_service ++ room2
  service_written =
      write_field_next head room1 r.service_name 12 (sym (length-header_bytes (header r)))
        v.service_fits (omega (arith, length-room1))

  method_written :
      write_field (head_service ++ room2) (16 + length r.service_name) r.method_name
      ≡ head_method ++ room3
  method_written =
      write_field_next head_service room2 r.method_name _ (omega (arith, at_method)) v.method_fits
        (omega (arith, length-room2))
    where
      at_method : 16 + length r.service_name ≡ length head_service
      at_method = omega (
        arith,
        length-append head (field_bytes r.service_name),
        length-header_bytes (header r),
        length-field_bytes r.service_name,
      )

  payload_written :
      write_field
        (head_method ++ room3)
        (16 + length r.service_name + 4 + length r.method_name)
        r.payload
      ≡ head_method ++ field_bytes r.payload
  payload_written =
      write_field_next head_method room3 r.payload _ (omega (arith, at_payload)) v.payload_fits
        (omega (arith, length-room3))
      ∙ rw (drop_all (4 + length r.payload) room3 (omega (arith, length-room3))) (append-nil _)
    where
      at_payload : 16 + length r.service_name + 4 + length r.method_name ≡ length head_method
      at_payload = omega (
        arith,
        length-append head (field_bytes r.service_name),
        length-header_bytes (header r),
        length-append head_service (field_bytes r.method_name),
        length-field_bytes r.service_name,
        length-field_bytes r.method_name,
      )

  -- A request of C++ sizes is written as its header and its three fields, each behind its size,
  -- whatever the string held before.
  pub serialize-eq-encoding : serialize r out ≡ encoding r
  unfolding serialize
  serialize-eq-encoding =
      rw
        (
          u32_fits (length r.service_name) v.service_fits,
          u32_fits (length r.method_name) v.method_fits,
          header_written,
          service_written,
          method_written,
          payload_written,
        )
        (simp append_assoc)
