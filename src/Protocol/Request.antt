-- ===== src/Protocol/Request.antt =====
-- RpcRequest::Serialize and RpcRequest::Deserialize of rpc_src/protocol/rpc_protocol.cpp.
pub mod Write
pub mod Read
pub mod RoundTrip
pub mod Sound
use my_rpc_project_v.Base.{
  ℕ, ◌+◌, ◌-◌, ◌++◌, Bytes, length, drop, word, memcpy, u32, ltb, ◌==◌, not, if◌then◌else◌, Bool,
  true, false, Option, none, some, resize, IsU32, IsBytes,
}
use my_rpc_project_v.Protocol.{
  RpcHeader, header_size, magic, header_bytes, read_header, substr, write_field, field_bytes,
}

pub record RpcRequest : Type 0 where
  pub sequence_id : ℕ
  pub service_name : Bytes
  pub method_name : Bytes
  pub payload : Bytes

-- service_name_.size() + method_name_.size() + payload_.size() + 3 * sizeof(uint32_t)
abbrev pub body_size : RpcRequest → ℕ
body_size r = length r.service_name + length r.method_name + length r.payload + 12

abbrev pub header : RpcRequest → RpcHeader
header r = record {
  magic_number = magic;
  message_length = u32 (body_size r);
  sequence_id = r.sequence_id;
}

-- `out` is the string that the caller hands in; it is written at `pos`, which moves on by the
-- truncated `len`.
unfoldable pub serialize : RpcRequest → Bytes → Bytes
serialize r out =
    let out0 = memcpy (resize out (header_size + body_size r) 0) 0 (header_bytes (header r)) in
    let pos1 : ℕ = header_size in
    let out1 = write_field out0 pos1 r.service_name in
    let pos2 : ℕ = pos1 + 4 + u32 (length r.service_name) in
    let out2 = write_field out1 pos2 r.method_name in
    let pos3 : ℕ = pos2 + 4 + u32 (length r.method_name) in write_field out2 pos3 r.payload

-- One field of Deserialize at `pos`: the bytes, and the position behind them.
unfoldable pub read_field : Bytes → ℕ → Option (Bytes × ℕ)
read_field input pos =
    if ltb (length input) (pos + 4)
    then none
    else let len = word (drop pos input) in
      if ltb (length input - (pos + 4)) len
      then none
      else some (substr input (pos + 4) len, pos + 4 + len)

-- The fields read before a failure are already assigned.
unfoldable pub deserialize : RpcRequest → Bytes → RpcRequest × Bool
deserialize r input =
    if ltb (length input) header_size
    then (r, false)
    else let h = read_header input in
      if not (h.magic_number == magic) then (r, false) else elim (read_field input header_size) [
        | none ↦ (r, false)
        | some (name, pos1) ↦
            let r1 = record r { service_name = name } in
            elim (read_field input pos1) [
              | none ↦ (r1, false)
              | some (method, pos2) ↦
                  let r2 = record r1 { method_name = method } in
                  elim (read_field input pos2) [
                    | none ↦ (r2, false)
                    | some (load, pos3) ↦
                        (record r2 { payload = load; sequence_id = h.sequence_id }, true)
                  ]
            ]
      ]

-- What Serialize writes, in one piece, for fields whose sizes fit a uint32_t.
abbrev pub encoding : RpcRequest → Bytes
encoding r =
    header_bytes (header r)
    ++ (field_bytes r.service_name ++ (field_bytes r.method_name ++ field_bytes r.payload))

-- The C++ types of the members: strings of bytes, of sizes that fit a uint32_t, and a
-- sequence number of 32 bits.
pub record IsRequest (r : RpcRequest) : Type 0 where
  pub sequence_fits : IsU32 r.sequence_id
  pub service_fits : IsU32 (length r.service_name)
  pub method_fits : IsU32 (length r.method_name)
  pub payload_fits : IsU32 (length r.payload)
  pub service_bytes : IsBytes r.service_name
  pub method_bytes : IsBytes r.method_name
  pub payload_bytes : IsBytes r.payload
