-- ===== src/Protocol/Request/RoundTrip.antt =====
-- RpcRequest::Deserialize after RpcRequest::Serialize.
use my_rpc_project_v.Base.{
  ℕ, ◌+◌, ◌≤◌, ◌≡◌, ◌∙◌, sym, ap, arith, Bytes, ◌++◌, append_assoc, length, some, true, ge→ltb,
  length-append, u32, IsU32,
}
use my_rpc_project_v.Protocol.{field_bytes, header_bytes, magic, RpcHeader}
use my_rpc_project_v.Protocol.Fields.{
  length-field_bytes, length-header_bytes, header_magic, header_sequence,
}
use my_rpc_project_v.Protocol.Request.{
  RpcRequest, read_field, IsRequest, encoding, deserialize, serialize, body_size,
}
use my_rpc_project_v.Protocol.Request.Read.{read_field_at}
use my_rpc_project_v.Protocol.Request.Write.{serialize-eq-encoding}

-- A message whose header names any length: Deserialize does not look at it.
module _ (r r0 : RpcRequest) (size : ℕ) (rest : Bytes) (v : IsRequest r)
    (size_fits : IsU32 size) where
  abbrev named : RpcHeader
  named = record { magic_number = magic; message_length = size; sequence_id = r.sequence_id }

  abbrev head : Bytes
  head = header_bytes named

  abbrev service : Bytes
  service = field_bytes r.service_name

  abbrev method : Bytes
  method = field_bytes r.method_name

  abbrev load : Bytes
  load = field_bytes r.payload

  abbrev input : Bytes
  input = head ++ (service ++ (method ++ (load ++ rest)))

  long_enough : 12 ≤ length input
  long_enough =
      omega (
        arith,
        length-append head (service ++ (method ++ (load ++ rest))),
        length-header_bytes named,
      )

  service_read : read_field input 12 ≡ some (r.service_name, 16 + length r.service_name)
  service_read =
      read_field_at head r.service_name (method ++ (load ++ rest)) 12
        (sym (length-header_bytes named)) v.service_fits

  abbrev at_method : ℕ
  at_method = 16 + length r.service_name

  method_read :
      read_field input at_method ≡ some (r.method_name, at_method + 4 + length r.method_name)
  method_read =
      ap (λ xs. read_field xs at_method) (simp append_assoc)
      ∙ read_field_at (head ++ service) r.method_name (load ++ rest) at_method
          (omega (
            arith,
            length-append head service,
            length-header_bytes named,
            length-field_bytes r.service_name,
          ))
          v.method_fits

  abbrev at_load : ℕ
  at_load = at_method + 4 + length r.method_name

  load_read : read_field input at_load ≡ some (r.payload, at_load + 4 + length r.payload)
  load_read =
      ap (λ xs. read_field xs at_load) (simp append_assoc)
      ∙ read_field_at (head ++ (service ++ method)) r.payload rest at_load
          (omega (
            arith,
            length-append head (service ++ method),
            length-append service method,
            length-header_bytes named,
            length-field_bytes r.service_name,
            length-field_bytes r.method_name,
          ))
          v.payload_fits

  pub deserialize-message : deserialize r0 input ≡ (r, true)
  unfolding deserialize
  deserialize-message = rw (
    ge→ltb (length input) 12 long_enough,
    header_magic named (service ++ (method ++ (load ++ rest))) (omega arith),
    service_read,
    method_read,
    load_read,
    header_sequence named (service ++ (method ++ (load ++ rest))) v.sequence_fits,
  )

pub deserialize-encoding :
    (r r0 : RpcRequest) (rest : Bytes)
    → IsRequest r
    → deserialize r0 (encoding r ++ rest) ≡ (r, true)
deserialize-encoding r r0 rest v =
    ap (λ xs. deserialize r0 xs) (simp append_assoc)
    ∙ deserialize-message r r0 (u32 (body_size r)) rest v (omega arith)

-- A request of C++ sizes that is serialised into any string and followed by any bytes is read back
-- as it was, whatever the receiving object held before.
pub deserialize-serialize :
    (r r0 : RpcRequest) (out rest : Bytes)
    → IsRequest r
    → deserialize r0 (serialize r out ++ rest) ≡ (r, true)
deserialize-serialize r r0 out rest v =
    rw (serialize-eq-encoding r out v) (deserialize-encoding r r0 rest v)
