-- ===== src/Protocol.antt =====
-- rpc_src/protocol: RpcHeader, RpcRequest and RpcResponse.
-- A message is a record; a method that fills it returns the new message with its bool, also where
-- it fails half way. Memory is taken to be there, so nothing is thrown.
pub mod Fields
pub mod Request
pub mod Response
mod Tests
use my_rpc_project_v.Base.{ℕ, ◌+◌, Bytes, length, take, drop, word, word_bytes, memcpy, u32, ◌++◌}

-- sizeof(RpcHeader): three uint32_t.
abbrev pub header_size : ℕ
header_size = 12

abbrev pub magic : ℕ
magic = 0x12345678

pub record RpcHeader : Type 0 where
  pub magic_number : ℕ
  pub message_length : ℕ
  pub sequence_id : ℕ

-- The memory of a header.
abbrev pub header_bytes : RpcHeader → Bytes
header_bytes h =
    word_bytes h.magic_number ++ (word_bytes h.message_length ++ word_bytes h.sequence_id)

-- std::memcpy(&header, in.data(), sizeof(header))
abbrev pub read_header : Bytes → RpcHeader
read_header input = record {
  magic_number = word input;
  message_length = word (drop 4 input);
  sequence_id = word (drop 8 input);
}

-- in.substr(pos, len)
abbrev pub substr : Bytes → ℕ → ℕ → Bytes
substr input pos len = take len (drop pos input)

-- One field of Serialize: the size as a uint32_t `len`, then that many bytes.
unfoldable pub write_field : Bytes → ℕ → Bytes → Bytes
write_field out pos field =
    let len = u32 (length field) in
    memcpy (memcpy out pos (word_bytes len)) (pos + 4) (take len field)

-- The same bytes in one piece.
abbrev pub field_bytes : Bytes → Bytes
field_bytes field = word_bytes (length field) ++ field
