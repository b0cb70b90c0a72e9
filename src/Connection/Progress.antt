-- ===== src/Connection/Progress.antt =====
-- Every frame that ExtractFrame cuts out takes bytes from the buffer.
use my_rpc_project_v.Base.{
  ◌+◌, ◌≤◌, ◌≡◌, arith, Bytes, length, drop, take, length-drop, net_word, ltb, Bool-cases, inl, inr,
  Option-cases, ap, [], ltb→ge,
}
use my_rpc_project_v.Compress.{Zstd, decompress_string}
use my_rpc_project_v.Encrypt.{decrypt}
use my_rpc_project_v.Connection.{Connection, complete, max_frame_size, extract_frame, open_frame}

open_frame-keeps :
    (z : Zstd) (c : Connection) (ciphertext frame_out : Bytes)
    → (open_frame z c ciphertext frame_out).0 ≡ c
unfolding open_frame
open_frame-keeps z c ciphertext frame_out =
    elim (Option-cases (decompress_string z (decrypt ciphertext []).0)) [
      | inl h ↦ ground (arith, h)
      | inr (message, h) ↦ ground (arith, h)
    ]

-- A frame that is cut out took its size prefix at least.
pub extract_frame_shrinks :
    (z : Zstd) (c : Connection) (frame_out : Bytes)
    → (extract_frame z c frame_out).1 ≡ complete
    → length (extract_frame z c frame_out).0.read_buffer + 4 ≤ length c.read_buffer
unfolding extract_frame
extract_frame_shrinks z c frame_out e = elim (Bool-cases (ltb (length c.read_buffer) 4)) [
  | inl short ↦ absurd (ground (arith, short, e))
  | inr long ↦ elim (Bool-cases (ltb max_frame_size (net_word c.read_buffer))) [
    | inl big ↦ absurd (ground (arith, long, big, e))
    | inr within ↦ elim (Bool-cases (ltb (length c.read_buffer) (4 + net_word c.read_buffer))) [
      | inl part ↦ absurd (ground (arith, long, within, part, e))
      | inr whole ↦
          rw (long, within, whole)
            (omega (
              arith,
              ap (λ k. length k.read_buffer)
                  (open_frame-keeps z
                    (record c { read_buffer = drop (4 + net_word c.read_buffer) c.read_buffer })
                    (take (net_word c.read_buffer) (drop 4 c.read_buffer)) frame_out),
              length-drop (4 + net_word c.read_buffer) c.read_buffer,
              ltb→ge (length c.read_buffer) (4 + net_word c.read_buffer) whole,
            ))
    ]
  ]
]
