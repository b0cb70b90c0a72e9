-- ===== src/Protocol/Response.antt =====
-- RpcResponse::Serialize and RpcResponse::Deserialize of rpc_src/protocol/rpc_protocol.cpp.
pub mod Write
pub mod Read
use my_rpc_project_v.Base.{
  ℕ, ◌+◌, ◌++◌, [], ◌∷◌, Bytes, length, drop, word, word_bytes, memcpy, u32, ltb, ◌==◌, not,
  if◌then◌else◌, Bool, true, false, Option, none, some, resize, IsU32, IsBytes,
}
use my_rpc_project_v.Protocol.{
  RpcHeader, header_size, magic, header_bytes, read_header, substr, write_field, field_bytes,
}

pub record RpcResponse : Type 0 where
  pub sequence_id : ℕ
  pub result_data : Bytes
  pub error_message : Bytes
  pub error_code : ℕ

-- result_data_.size() + error_message_.size() + 2 * sizeof(uint32_t) + sizeof(error_code_)
-- + sizeof(sequence_id_)
abbrev pub body_size : RpcResponse → ℕ
body_size r = length r.result_data + length r.error_message + 16

abbrev pub header : RpcResponse → RpcHeader
header r = record {
  magic_number = magic;
  message_length = u32 (body_size r);
  sequence_id = r.sequence_id;
}

unfoldable pub serialize : RpcResponse → Bytes → Bytes
serialize r out =
    let out0 = memcpy (resize out (header_size + body_size r) 0) 0 (header_bytes (header r)) in
    let pos1 : ℕ = header_size in
    let out1 = write_field out0 pos1 r.result_data in
    let pos2 : ℕ = pos1 + 4 + u32 (length r.result_data) in
    let out2 = write_field out1 pos2 r.error_message in
    let pos3 : ℕ = pos2 + 4 + u32 (length r.error_message) in
    let out3 = memcpy out2 pos3 (word_bytes r.error_code) in
    memcpy out3 (pos3 + 4) (word_bytes r.sequence_id)

-- std::memcpy(&len, &in[pos], 4), with no check before it. A std::string may be read up to the
-- NUL byte behind its last one; `none` is a read past that, which C++ leaves undefined.
unfoldable pub read_word : Bytes → ℕ → Option ℕ
read_word input pos =
    if ltb (length input + 1) (pos + 4) then none else some (word (drop pos (input ++ (0 ∷ []))))

-- The result is `none` where the code reads out of bounds. Fields that were read before a failure
-- are already assigned.
unfoldable pub deserialize : RpcResponse → Bytes → Option (RpcResponse × Bool)
deserialize r input =
    if ltb (length input) header_size
    then some (r, false)
    else let h = read_header input in
      if not (h.magic_number == magic)
      then some (r, false)
      else if not (length input == header_size + h.message_length)
      then some (r, false)
      else elim (read_word input header_size) [
        | none ↦ none
        | some len1 ↦
            let pos1 : ℕ = header_size + 4 in
            if ltb (length input) (pos1 + len1)
            then some (r, false)
            else let r1 = record r { result_data = substr input pos1 len1 } in
              let pos2 : ℕ = pos1 + len1 in
              elim (read_word input pos2) [
                | none ↦ none
                | some len2 ↦
                    let pos3 : ℕ = pos2 + 4 in
                    if ltb (length input) (pos3 + len2)
                    then some (r1, false)
                    else let r2 = record r1 { error_message = substr input pos3 len2 } in
                      let pos4 : ℕ = pos3 + len2 in
                      elim (read_word input pos4) [
                        | none ↦ none
                        | some code ↦
                            let r3 = record r2 { error_code = code } in
                            elim (read_word input (pos4 + 4)) [
                              | none ↦ none
                              | some sequence ↦ some (record r3 { sequence_id = sequence }, true)
                            ]
                      ]
              ]
      ]

-- What Serialize writes, in one piece, for fields whose sizes fit a uint32_t.
abbrev pub encoding : RpcResponse → Bytes
encoding r =
    header_bytes (header r)
    ++ (field_bytes r.result_data
        ++ (field_bytes r.error_message ++ (word_bytes r.error_code ++ word_bytes r.sequence_id)))

-- The C++ types of the members, strings of bytes and numbers of 32 bits, and a body whose size fits the header's uint32_t.
pub record IsResponse (r : RpcResponse) : Type 0 where
  pub sequence_fits : IsU32 r.sequence_id
  pub code_fits : IsU32 r.error_code
  pub body_fits : IsU32 (body_size r)
  pub result_bytes : IsBytes r.result_data
  pub message_bytes : IsBytes r.error_message
