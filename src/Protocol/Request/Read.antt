-- ===== src/Protocol/Request/Read.antt =====
-- The fields that RpcRequest::Deserialize reads, one at a time.
use my_rpc_project_v.Base.{
  ℕ, ◌+◌, ◌-◌, ◌≤◌, ◌≡◌, refl, sym, arith, Bytes, ◌++◌, append_assoc, length, drop, some, ge→ltb,
  word_bytes, word, word-word_bytes, word_bytes-word, word-IsU32, length-append, length-word_bytes,
  length-drop, length-take, drop-drop, drop_front, take_front, take-append-drop, IsU32, IsBytes,
  All-drop,
}
use my_rpc_project_v.Protocol.{field_bytes, substr}
use my_rpc_project_v.Protocol.Fields.{length-field_bytes}
use my_rpc_project_v.Protocol.Request.{read_field}

-- A field that stands at `pos` is read back, with the position behind it.
pub read_field_at :
    (done field rest : Bytes) (pos : ℕ)
    → pos ≡ length done
    → IsU32 (length field)
    → read_field (done ++ (field_bytes field ++ rest)) pos ≡ some (field, pos + 4 + length field)
unfolding read_field
read_field_at done field rest pos at fits = rw (
  ge→ltb (length input) (pos + 4) (omega (arith, input_size)),
  at_field,
  size_read,
  ge→ltb (length input - (pos + 4)) (length field) (omega (arith, input_size)),
  field_read,
)
  where
    input : Bytes
    input = done ++ (field_bytes field ++ rest)

    input_size : length input ≡ length done + 4 + length field + length rest
    input_size = omega (
      arith,
      length-append done (field_bytes field ++ rest),
      length-append (field_bytes field) rest,
      length-field_bytes field,
    )

    at_field : drop pos input ≡ field_bytes field ++ rest
    at_field = drop_front pos done _ at

    size_read : word (field_bytes field ++ rest) ≡ length field
    size_read = rw append_assoc (word-word_bytes (length field) (field ++ rest) fits)

    field_read : substr input (pos + 4) (length field) ≡ field
    field_read =
        rw
          (
            sym (drop-drop pos 4 input),
            at_field,
            append_assoc,
            drop_front 4 (word_bytes (length field)) (field ++ rest)
                (sym (length-word_bytes (length field))),
          )
          (take_front (length field) field rest refl)

read_field_inv :
    (input field : Bytes) (pos next : ℕ)
    → read_field input pos ≡ some (field, next)
    → (pos + 4 ≤ length input)
      × (word (drop pos input) ≤ length input - (pos + 4))
      × (field ≡ substr input (pos + 4) (word (drop pos input)))
      × (next ≡ pos + 4 + word (drop pos input))
unfolding read_field
read_field_inv input field pos next e = ground arith

-- What was read stands at `pos`: a size and that many bytes, up to the position returned.
pub read_field_sound :
    (input field : Bytes) (pos next : ℕ)
    → IsBytes input
    → read_field input pos ≡ some (field, next)
    → (next ≤ length input)
      × IsU32 (length field)
      × (drop pos input ≡ field_bytes field ++ drop next input)
read_field_sound input field pos next bytes e = (
  omega (arith, room, fits, behind),
  omega (arith, size_length, word-IsU32 (drop pos input) (All-drop _ pos input bytes)),
  sym (
      rw (size_length, append_assoc, body)
        (rw (sym (drop-drop pos 4 input)) (
          word_bytes-word (drop pos input) (All-drop _ pos input bytes)
            (omega (arith, length-drop pos input, room))))),
)
  where
    size : ℕ
    size = word (drop pos input)

    inv :
        (pos + 4 ≤ length input)
        × (size ≤ length input - (pos + 4))
        × (field ≡ substr input (pos + 4) size)
        × (next ≡ pos + 4 + size)
    inv = read_field_inv input field pos next e

    room : pos + 4 ≤ length input
    room = inv.0

    fits : size ≤ length input - (pos + 4)
    fits = inv.1

    behind : next ≡ pos + 4 + size
    behind = inv.3

    size_length : length field ≡ size
    size_length =
        rw inv.2 (
          omega (arith, length-take size (drop (pos + 4) input), length-drop (pos + 4) input, fits))

    body : field ++ drop next input ≡ drop (pos + 4) input
    body = rw (inv.2, behind, ← drop-drop (pos + 4) size input) (take-append-drop size _)
