-- ===== src/Connection/Tests.antt =====
-- A connection that reads, writes and cuts frames.
use my_rpc_project_v.Base.{
  ◌+◌, ◌≡◌, ◌≤◌, ◌<◌, ◌++◌, List, [], ◌∷◌, refl, arith, Bytes, codes, true, some, net_word,
  net_bytes, word_bytes, drop,
}
use my_rpc_project_v.Protocol.{write_field}
use my_rpc_project_v.Protocol.Request
use my_rpc_project_v.Protocol.Request.{RpcRequest, IsRequest}
use my_rpc_project_v.Protocol.Response
use my_rpc_project_v.Protocol.Response.{RpcResponse, IsResponse}
use my_rpc_project_v.Compress.Stored.{stored, stored-ZstdLaws}
use my_rpc_project_v.Encrypt.{combine, generate_random_bytes}
use my_rpc_project_v.Encrypt.Shift.{shift_encrypt, shift_encrypt_from}
use my_rpc_project_v.Encrypt.Base64.{base64_encode, encode_loop, encode_group, encode_rest}
use my_rpc_project_v.Connection.{
  incomplete, complete, ReadResult, got, read, read_loop, WriteResult, write_blocked, wrote,
  Written, write_bytes, write_loop, extract_frame,
}
use my_rpc_project_v.Connection.Bounds.{ReadOutcome, read-ReadOutcome, oversized_frame_stuck}
use my_rpc_project_v.Connection.Writing.{Outcome, write_bytes-Outcome}
use my_rpc_project_v.Connection.Frames.{extract_frame-wire}
use my_rpc_project_v.Connection.Delivery.{request_delivered}
use my_rpc_project_v.Connection.Samples.{
  socket, draws, ping, blank, ping-IsRequest, pong, on_wire, sent_as, one_write, ping_written,
  ping-length, ping_sent,
}
use my_rpc_project_v.Connection.Delivery.{request_length, request_magic, request_bytes}

abbrev arrivals : List ReadResult
arrivals = got (codes "abc") ∷ []

arrivals-read : read arrivals (socket (codes "xy")) ≡ some (socket (codes "xyabc"), true, [])
unfolding read read_loop
arrivals-read = refl

read-ReadOutcome_example :
    ReadOutcome arrivals [] (socket (codes "xy")) (socket (codes "xyabc")) true
read-ReadOutcome_example =
    read-ReadOutcome arrivals [] (socket (codes "xy")) (socket (codes "xyabc")) true refl
      arrivals-read

-- The size prefix of a frame of 2 MiB.
abbrev prefixed : Bytes
prefixed = 0 ∷ 32 ∷ 0 ∷ 0 ∷ []

prefixed_read :
    read (got (codes "abc") ∷ []) (socket prefixed)
    ≡ some (socket (prefixed ++ codes "abc"), true, [])
unfolding read read_loop
prefixed_read = refl

prefixed_over : 1048576 < 4 + net_word prefixed
unfolding net_word
prefixed_over = omega arith

prefixed_within : net_word prefixed ≤ 16777216
unfolding net_word
prefixed_within = omega arith

oversized_frame_stuck_example :
    extract_frame stored (socket (prefixed ++ codes "abc")) []
    ≡ (socket (prefixed ++ codes "abc"), incomplete, [])
oversized_frame_stuck_example =
    oversized_frame_stuck stored arrivals [] (socket prefixed) (socket (prefixed ++ codes "abc"))
      true [] refl (omega arith) (omega arith) prefixed_over prefixed_within prefixed_read

abbrev answers : List WriteResult
answers = wrote 2 ∷ write_blocked ∷ wrote 1 ∷ []

abbrev abc_written : Written
abc_written = record { conn = socket []; result = true; sent = codes "abc"; answers = [] }

abc_write : write_bytes (socket []) (codes "abc") answers ≡ some abc_written
unfolding write_bytes write_loop
abc_write = refl

write_bytes-Outcome_example : Outcome (socket []) (codes "abc") abc_written
write_bytes-Outcome_example =
    write_bytes-Outcome (socket []) (codes "abc") answers abc_written abc_write

abbrev ping_wire : Bytes
ping_wire = on_wire (Request.serialize ping [])

abbrev pong_wire : Bytes
pong_wire = on_wire (Response.serialize pong [])

extract_frame-wire_example :
    extract_frame stored (socket (ping_wire ++ codes "more")) []
    ≡ (socket (codes "more"), complete, Request.serialize ping [])
extract_frame-wire_example =
    extract_frame-wire stored stored-ZstdLaws draws (Request.serialize ping []) ping_wire
      (request_bytes ping ping-IsRequest) ping_written (omega (arith, ping-length))
      (socket (ping_wire ++ codes "more")) (codes "more") [] (request_length ping ping-IsRequest)
      (request_magic ping ping-IsRequest) refl

ping_front : ping_wire ≡ (0 ∷ 0 ∷ []) ++ (0 ∷ drop 3 ping_wire)
unfolding Request.serialize write_field word_bytes net_bytes base64_encode encode_loop encode_group
    encode_rest combine generate_random_bytes shift_encrypt shift_encrypt_from
ping_front = refl

request_delivered_example :
    (frame : Bytes) × (extract_frame stored (socket (ping_wire ++ codes "more")) []
      ≡ (socket (codes "more"), complete, frame))
    × (Request.deserialize blank frame ≡ (ping, true))
request_delivered_example =
    request_delivered stored stored-ZstdLaws draws (socket []) (socket (ping_wire ++ codes "more"))
      one_write (sent_as ping_wire) (codes "more") [] refl (omega (arith, ping-length)) refl ping
      blank ping-IsRequest ping_sent
