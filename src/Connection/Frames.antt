-- ===== src/Connection/Frames.antt =====
-- ExtractFrame on what WriteFrame put on the wire, whole or in parts.
use my_rpc_project_v.Base.{
  ℕ, ◌+◌, ◌≤◌, ◌<◌, ◌≡◌, ◌∙◌, refl, sym, ap, ap₂, arith, [], ◌∷◌, ◌++◌, append-nil, append_assoc,
  true, some, Bytes, IsBytes, length, length-append, take, drop, take_front, drop_front, Bool-cases,
  Option-cases, ◌⊎◌, inl, inr, net_word, net_bytes, net_word-net_bytes, net_word-append,
  length-net_bytes, u32, word, ge→ltb, ltb→ge, ltb,
}
use my_rpc_project_v.Protocol.{magic}
use my_rpc_project_v.Compress.{
  Zstd, ZstdLaws, compress_string, decompress_string, default, compress_string-back,
}
use my_rpc_project_v.Encrypt.{encrypt, decrypt}
use my_rpc_project_v.Encrypt.RoundTrip.{decrypt-encrypt}
use my_rpc_project_v.Connection.{
  Connection, incomplete, complete, max_frame_size, wire_bytes, open_frame, extract_frame,
}

-- The layers of a message on the wire.
record Layers (z : Zstd) (draw : ℕ → ℕ) (message wire : Bytes) : Type 0 where
  compressed : Bytes
  encrypted : Bytes
  was_compressed : compress_string z message default ≡ some compressed
  was_encrypted : encrypt draw compressed [] ≡ (encrypted, true)
  prefixed : wire ≡ net_bytes (u32 (length encrypted)) ++ encrypted

wire_bytes-Layers :
    (z : Zstd) (draw : ℕ → ℕ) (message wire : Bytes)
    → wire_bytes z draw message ≡ some wire
    → Layers z draw message wire
unfolding wire_bytes
wire_bytes-Layers z draw message wire e = elim (Option-cases (compress_string z message default)) [
  | inl none_left ↦ absurd (ground (arith, none_left))
  | inr (packed, k) ↦ record {
    compressed = packed;
    encrypted = (encrypt draw packed []).0;
    was_compressed = k;
    was_encrypted = ground (arith, k);
    prefixed = ground (arith, k);
  }
]

cut_behind :
    (front cipher rest : Bytes)
    → 4 ≡ length front
    → take (length cipher) (drop 4 ((front ++ cipher) ++ rest)) ≡ cipher
cut_behind front cipher rest h =
    rw (append_assoc, drop_front 4 front (cipher ++ rest) h)
      (take_front (length cipher) cipher rest refl)

extract_whole :
    (z : Zstd) (c : Connection) (frame_out : Bytes) (size : ℕ)
    → net_word c.read_buffer ≡ size
    → size ≤ max_frame_size
    → 4 + size ≤ length c.read_buffer
    → extract_frame z c frame_out
      ≡ open_frame z
          (record c { read_buffer = drop (4 + size) c.read_buffer })
          (take size (drop 4 c.read_buffer))
          frame_out
unfolding extract_frame
extract_whole z c frame_out size prefixed within whole = rw (
  ge→ltb (length c.read_buffer) 4 (omega arith),
  prefixed,
  ge→ltb max_frame_size size within,
  ge→ltb (length c.read_buffer) (4 + size) whole,
)

module _ (z : Zstd) (laws : ZstdLaws z) (draw : ℕ → ℕ) (message wire : Bytes)
    (bytes : IsBytes message) (e : wire_bytes z draw message ≡ some wire)
    (fits : length wire ≤ 4 + max_frame_size) where
  layers : Layers z draw message wire
  layers = wire_bytes-Layers z draw message wire e

  length-wire : length wire ≡ 4 + length layers.encrypted
  length-wire = omega (
    arith,
    ap length layers.prefixed,
    length-append (net_bytes (u32 (length layers.encrypted))) layers.encrypted,
    length-net_bytes,
  )

  size_fits : u32 (length layers.encrypted) ≡ length layers.encrypted
  size_fits = omega (arith, length-wire)

  prefix_read : (rest : Bytes) → net_word (wire ++ rest) ≡ length layers.encrypted
  prefix_read rest =
      rw (layers.prefixed, append_assoc)
        (net_word-net_bytes (u32 (length layers.encrypted)) (layers.encrypted ++ rest) (omega arith)
          ∙ size_fits)

  cipher_taken :
      (rest : Bytes) → take (length layers.encrypted) (drop 4 (wire ++ rest)) ≡ layers.encrypted
  cipher_taken rest =
      ap (λ w. take (length layers.encrypted) (drop 4 (w ++ rest))) layers.prefixed
      ∙ cut_behind (net_bytes (u32 (length layers.encrypted))) layers.encrypted rest
          (sym (length-net_bytes (u32 (length layers.encrypted))))

  rest_left : (rest : Bytes) → drop (4 + length layers.encrypted) (wire ++ rest) ≡ rest
  rest_left rest = drop_front (4 + length layers.encrypted) wire rest (sym length-wire)

  back :
      IsBytes layers.compressed
      × (decompress_string z layers.compressed ≡ some message)
      × ((0 < length layers.compressed) ⊎ (message ≡ []))
  back = compress_string-back z laws message default layers.compressed bytes layers.was_compressed

  decrypted : decrypt layers.encrypted [] ≡ (layers.compressed, true)
  decrypted = elim (decrypt-encrypt draw layers.compressed [] [] back.0) [
    | inl (_, refused) ↦ absurd (ground (arith, refused, layers.was_encrypted))
    | inr (text, made, opened) ↦ ground (arith, made, opened, layers.was_encrypted)
  ]

  frame_opened :
      (c : Connection) (frame_out : Bytes)
      → 12 ≤ length message
      → word message ≡ magic
      → open_frame z c layers.encrypted frame_out ≡ (c, complete, message)
  unfolding open_frame
  frame_opened c frame_out long_enough magic_found =
      rw (decrypted, back.1, ge→ltb (length message) 12 long_enough, magic_found)

  -- Under the laws of zstd: bytes that WriteFrame put on the wire for a message of bytes, at the
  -- front of a buffer and within the frame limit, are cut out as the message that they carry, if
  -- it starts with a header of the protocol; the bytes behind them stay.
  pub extract_frame-wire :
      (c : Connection) (rest frame_out : Bytes)
      → 12 ≤ length message
      → word message ≡ magic
      → c.read_buffer ≡ wire ++ rest
      → extract_frame z c frame_out ≡ (record c { read_buffer = rest }, complete, message)
  extract_frame-wire c rest frame_out long_enough magic_found buffered =
      extract_whole z c frame_out (length layers.encrypted)
        (ap (λ b. net_word b) buffered ∙ prefix_read rest) (omega (arith, length-wire))
        (omega (arith, length-wire, ap length buffered, length-append wire rest))
      ∙ ap₂ (λ b t. open_frame z (record c { read_buffer = b }) t frame_out)
          (ap (λ b. drop (4 + length layers.encrypted) b) buffered ∙ rest_left rest)
          (ap (λ b. take (length layers.encrypted) (drop 4 b)) buffered ∙ cipher_taken rest)
      ∙ frame_opened (record c { read_buffer = rest }) frame_out long_enough magic_found

  -- Under the laws of zstd, for bytes that WriteFrame put on the wire for a message of bytes
  -- within the frame limit: a proper front of them, down to none, is incomplete, and the
  -- connection keeps it.
  pub extract_frame_partial :
      (c : Connection) (back frame_out : Bytes) (next : ℕ)
      → wire ≡ c.read_buffer ++ (next ∷ back)
      → extract_frame z c frame_out ≡ (c, incomplete, frame_out)
  unfolding extract_frame
  extract_frame_partial c back frame_out next split =
      elim (Bool-cases (ltb (length c.read_buffer) 4)) [
        | inl short ↦ rw short
        | inr long ↦ ground (
          arith,
          long,
          length-wire,
          ap length split,
          length-append c.read_buffer (next ∷ back),
          net_word-append c.read_buffer (next ∷ back) (ltb→ge (length c.read_buffer) 4 long),
          ap net_word split,
          ap net_word (append-nil wire),
          prefix_read [],
        )
      ]
