-- ===== src/Protocol/Fields.antt =====
-- Writing and reading one length-prefixed field in the middle of a message.
use my_rpc_project_v.Base.{
  ℕ, ◌+◌, ◌≤◌, ◌≡◌, ◌∙◌, sym, ap, arith, Bytes, ◌++◌, append_assoc, length, drop, word_bytes, word,
  word-word_bytes, drop_front, memcpy, memcpy_next, length-append, length-word_bytes, length-drop,
  drop-drop, take_all, u32, IsU32, IsBytes, All-append, word_bytes-IsBytes,
}
use native.Mathlib.Nat.{le_refl}
use my_rpc_project_v.Protocol.{write_field, field_bytes, RpcHeader, header_bytes}

-- A size that fits a uint32_t is written as it is.
pub u32_fits : (n : ℕ) → IsU32 n → u32 n ≡ n
u32_fits n h = omega arith

pub length-header_bytes : (h : RpcHeader) → length (header_bytes h) ≡ 12
length-header_bytes h = omega (
  arith,
  length-append (word_bytes h.magic_number)
      (word_bytes h.message_length ++ word_bytes h.sequence_id),
  length-append (word_bytes h.message_length) (word_bytes h.sequence_id),
  length-word_bytes,
)

pub length-field_bytes : (field : Bytes) → length (field_bytes field) ≡ 4 + length field
length-field_bytes field =
    omega (arith, length-append (word_bytes (length field)) field, length-word_bytes)

-- The words of a header at the front of a message.
module _ (h : RpcHeader) (rest : Bytes) where
  pub header_magic : IsU32 h.magic_number → word (header_bytes h ++ rest) ≡ h.magic_number
  header_magic fits = rw append_assoc (word-word_bytes h.magic_number _ fits)

  pub header_length :
      IsU32 h.message_length → word (drop 4 (header_bytes h ++ rest)) ≡ h.message_length
  header_length fits =
      rw
        (
          append_assoc,
          append_assoc,
          drop_front 4 (word_bytes h.magic_number)
              (word_bytes h.message_length ++ (word_bytes h.sequence_id ++ rest))
              (sym (length-word_bytes h.magic_number)),
        )
        (word-word_bytes h.message_length _ fits)

  pub header_sequence : IsU32 h.sequence_id → word (drop 8 (header_bytes h ++ rest)) ≡ h.sequence_id
  header_sequence fits =
      rw
        (
          ap (λ xs. drop 8 xs) whole,
          drop_front 8 (word_bytes h.magic_number ++ word_bytes h.message_length)
              (word_bytes h.sequence_id ++ rest) size,
        )
        (word-word_bytes h.sequence_id rest fits)
    where
      whole :
          header_bytes h ++ rest
          ≡ (word_bytes h.magic_number ++ word_bytes h.message_length)
            ++ (word_bytes h.sequence_id ++ rest)
      whole = simp append_assoc

      size : 8 ≡ length (word_bytes h.magic_number ++ word_bytes h.message_length)
      size = omega (
        arith,
        length-append (word_bytes h.magic_number) (word_bytes h.message_length),
        length-word_bytes,
      )

-- `done` is written and `rest` is the room left, enough for the field.
pub write_field_next :
    (done rest field : Bytes) (pos : ℕ)
    → pos ≡ length done
    → IsU32 (length field)
    → 4 + length field ≤ length rest
    → write_field (done ++ rest) pos field
      ≡ (done ++ field_bytes field) ++ drop (4 + length field) rest
unfolding write_field word_bytes
write_field_next done rest field pos at fits room =
    rw (u32_fits (length field) fits, take_all (length field) field (le_refl _))
      (ap (λ buffer. memcpy buffer (pos + 4) field) size_written ∙ field_written)
  where
    size : Bytes
    size = word_bytes (length field)

    size_length : length size ≡ 4
    size_length = length-word_bytes (length field)

    size_written : memcpy (done ++ rest) pos size ≡ (done ++ size) ++ drop 4 rest
    size_written =
        memcpy_next done rest size pos at (omega (arith, length-word_bytes (length field)))
        ∙ sym (append_assoc done size (drop 4 rest))

    field_written :
        memcpy ((done ++ size) ++ drop 4 rest) (pos + 4) field
        ≡ (done ++ (size ++ field)) ++ drop (4 + length field) rest
    field_written =
        memcpy_next (done ++ size) (drop 4 rest) field (pos + 4)
          (omega (arith, length-append done size, size_length)) (omega (arith, length-drop 4 rest))
        ∙ simp (append_assoc, drop-drop)

pub header_bytes-IsBytes : (h : RpcHeader) → IsBytes (header_bytes h)
header_bytes-IsBytes h =
    All-append _ (word_bytes h.magic_number) _ (word_bytes-IsBytes h.magic_number) (
      All-append _ (word_bytes h.message_length) _ (word_bytes-IsBytes h.message_length)
        (word_bytes-IsBytes h.sequence_id))

pub field_bytes-IsBytes : (field : Bytes) → IsBytes field → IsBytes (field_bytes field)
field_bytes-IsBytes field bytes =
    All-append _ (word_bytes (length field)) field (word_bytes-IsBytes (length field)) bytes
