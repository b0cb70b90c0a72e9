-- ===== src/Protocol/Response/Read.antt =====
-- RpcResponse::Deserialize: on what Serialize wrote, on longer input, and past the end.
use my_rpc_project_v.Base.{
  ℕ, ◌+◌, ◌≤◌, ◌<◌, ◌≡◌, ◌∙◌, refl, sym, ap, arith, Bytes, [], ◌∷◌, ◌++◌, append_assoc, append-nil,
  length, drop, true, false, word, word_bytes, word-word_bytes, length-append, length-word_bytes,
  drop_front, drop-drop, take_front, IsU32, some, none, ge→ltb,
}
use my_rpc_project_v.Protocol.{field_bytes, header_bytes, magic, substr}
use my_rpc_project_v.Protocol.Fields.{
  length-header_bytes, length-field_bytes, header_magic, header_length, u32_fits,
}
use my_rpc_project_v.Protocol.Response.{
  RpcResponse, serialize, encoding, IsResponse, header, body_size, read_word, deserialize,
}
use my_rpc_project_v.Protocol.Response.Write.{response_serialize-eq-encoding}

-- A word that stands whole in the message is read.
read_word_at :
    (done rest : Bytes) (n pos : ℕ)
    → pos ≡ length done
    → IsU32 n
    → read_word (done ++ (word_bytes n ++ rest)) pos ≡ some n
unfolding read_word
read_word_at done rest n pos at fits = rw (
  ge→ltb (length (done ++ (word_bytes n ++ rest)) + 1) (pos + 4) (
      omega (
        arith,
        length-append done (word_bytes n ++ rest),
        length-append (word_bytes n) rest,
        length-word_bytes,
      )),
  append_assoc,
  drop_front pos done ((word_bytes n ++ rest) ++ (0 ∷ [])) at,
  append_assoc,
  word-word_bytes n (rest ++ (0 ∷ [])) fits,
)

-- The bytes behind the size of a field.
substr_at :
    (done field rest : Bytes) (pos : ℕ)
    → pos ≡ length done
    → substr (done ++ (field_bytes field ++ rest)) (pos + 4) (length field) ≡ field
substr_at done field rest pos at =
    rw
      (
        sym (drop-drop pos 4 (done ++ (field_bytes field ++ rest))),
        drop_front pos done (field_bytes field ++ rest) at,
        append_assoc,
        drop_front 4 (word_bytes (length field)) (field ++ rest)
            (sym (length-word_bytes (length field))),
      )
      (take_front (length field) field rest refl)

-- Deserialize on an input whose reads give the members of `r`.
deserialize-parts :
    (r r0 : RpcResponse) (input : Bytes)
    → length input ≡ 12 + body_size r
    → word input ≡ magic
    → word (drop 4 input) ≡ body_size r
    → read_word input 12 ≡ some (length r.result_data)
    → substr input 16 (length r.result_data) ≡ r.result_data
    → read_word input (16 + length r.result_data) ≡ some (length r.error_message)
    → substr input (16 + length r.result_data + 4) (length r.error_message) ≡ r.error_message
    → read_word input (16 + length r.result_data + 4 + length r.error_message) ≡ some r.error_code
    → read_word input (16 + length r.result_data + 4 + length r.error_message + 4)
      ≡ some r.sequence_id
    → deserialize r0 input ≡ some (r, true)
unfolding deserialize
deserialize-parts r r0 input size magic_found announced e1 d1 e2 d2 e3 e4 = ground arith

module _ (r r0 : RpcResponse) (v : IsResponse r) where
  abbrev head : Bytes
  head = header_bytes (header r)

  abbrev result : Bytes
  result = field_bytes r.result_data

  abbrev message : Bytes
  message = field_bytes r.error_message

  abbrev code : Bytes
  code = word_bytes r.error_code

  abbrev sequence : Bytes
  sequence = word_bytes r.sequence_id

  abbrev tail : Bytes
  tail = code ++ sequence

  length-encoding : length (encoding r) ≡ 12 + body_size r
  length-encoding = omega (
    arith,
    length-append head (result ++ (message ++ tail)),
    length-append result (message ++ tail),
    length-append message tail,
    length-append code sequence,
    length-word_bytes,
    length-header_bytes (header r),
    length-field_bytes r.result_data,
    length-field_bytes r.error_message,
  )

  abbrev at_message : ℕ
  at_message = 16 + length r.result_data

  abbrev at_code : ℕ
  at_code = at_message + 4 + length r.error_message

  length-head_result : at_message ≡ length (head ++ result)
  length-head_result = omega (
    arith,
    length-append head result,
    length-header_bytes (header r),
    length-field_bytes r.result_data,
  )

  length-head-message : at_code ≡ length (head ++ (result ++ message))
  length-head-message = omega (
    arith,
    length-append head (result ++ message),
    length-append result message,
    length-header_bytes (header r),
    length-field_bytes r.result_data,
    length-field_bytes r.error_message,
  )

  result_size : read_word (encoding r) 12 ≡ some (length r.result_data)
  result_size =
      ap (λ xs. read_word (head ++ xs) 12)
        (append_assoc (word_bytes (length r.result_data)) r.result_data (message ++ tail))
      ∙ read_word_at head (r.result_data ++ (message ++ tail)) (length r.result_data) 12
          (sym (length-header_bytes (header r))) (omega (arith, v.body_fits))

  result_read : substr (encoding r) 16 (length r.result_data) ≡ r.result_data
  result_read =
      substr_at head r.result_data (message ++ tail) 12 (sym (length-header_bytes (header r)))

  message_size : read_word (encoding r) at_message ≡ some (length r.error_message)
  message_size =
      ap (λ xs. read_word xs at_message) (simp append_assoc)
      ∙ read_word_at (head ++ result) (r.error_message ++ tail) (length r.error_message) at_message
          length-head_result (omega (arith, v.body_fits))

  message_read : substr (encoding r) (at_message + 4) (length r.error_message) ≡ r.error_message
  message_read =
      ap (λ xs. substr xs (at_message + 4) (length r.error_message))
        (sym (append_assoc head result (message ++ tail)))
      ∙ substr_at (head ++ result) r.error_message tail at_message length-head_result

  code_read : read_word (encoding r) at_code ≡ some r.error_code
  code_read =
      ap (λ xs. read_word xs at_code) (simp append_assoc)
      ∙ read_word_at (head ++ (result ++ message)) sequence r.error_code at_code length-head-message
          v.code_fits

  sequence_read : read_word (encoding r) (at_code + 4) ≡ some r.sequence_id
  sequence_read =
      ap (λ xs. read_word xs (at_code + 4)) (simp (append_assoc, append-nil))
      ∙ read_word_at (head ++ (result ++ (message ++ code))) [] r.sequence_id (at_code + 4)
          (omega (
            arith,
            length-append head (result ++ (message ++ code)),
            length-append result (message ++ code),
            length-append message code,
            length-word_bytes,
            length-header_bytes (header r),
            length-field_bytes r.result_data,
            length-field_bytes r.error_message,
          ))
          v.sequence_fits

  announced : word (drop 4 (encoding r)) ≡ body_size r
  announced =
      header_length (header r) (result ++ (message ++ tail)) (omega arith)
      ∙ u32_fits (body_size r) v.body_fits

  pub deserialize-encoding : deserialize r0 (encoding r) ≡ some (r, true)
  deserialize-encoding =
      deserialize-parts r r0 (encoding r) length-encoding
        (header_magic (header r) (result ++ (message ++ tail)) (omega arith)) announced result_size
        result_read message_size message_read code_read sequence_read

-- A response of C++ sizes that is serialised into any string is read back as it was, whatever the
-- receiving object held before, and nothing is read out of bounds.
pub response_deserialize-serialize :
    (r r0 : RpcResponse) (out : Bytes)
    → IsResponse r
    → deserialize r0 (serialize r out) ≡ some (r, true)
response_deserialize-serialize r r0 out v =
    rw (response_serialize-eq-encoding r out v) (deserialize-encoding r r0 v)

module _ (r r0 : RpcResponse) (more : Bytes) (v : IsResponse r) (longer : 0 < length more) where
  abbrev body_more : Bytes
  body_more =
      field_bytes r.result_data
      ++ (field_bytes r.error_message
          ++ ((word_bytes r.error_code ++ word_bytes r.sequence_id) ++ more))

  encoding-append : encoding r ++ more ≡ header_bytes (header r) ++ body_more
  encoding-append = simp append_assoc

  longer_magic : word (encoding r ++ more) ≡ magic
  longer_magic =
      ap (λ xs. word xs) encoding-append ∙ header_magic (header r) body_more (omega arith)

  longer_announced : word (drop 4 (encoding r ++ more)) ≡ body_size r
  longer_announced =
      ap (λ xs. word (drop 4 xs)) encoding-append
      ∙ header_length (header r) body_more (omega arith)
      ∙ u32_fits (body_size r) v.body_fits

  deserialize-longer : deserialize r0 (encoding r ++ more) ≡ some (r0, false)
  unfolding deserialize
  deserialize-longer = ground (
    arith,
    longer_magic,
    longer_announced,
    length-append (encoding r) more,
    length-encoding r r0 v,
  )

-- Bytes behind a serialised response make the whole input rejected, with the object unchanged.
pub deserialize_longer :
    (r r0 : RpcResponse) (out more : Bytes)
    → IsResponse r
    → 0 < length more
    → deserialize r0 (serialize r out ++ more) ≡ some (r0, false)
deserialize_longer r r0 out more v longer =
    rw (response_serialize-eq-encoding r out v) (deserialize-longer r r0 more v longer)

-- A message that consists of a header with the magic number and of the fewer than three bytes
-- that it announces passes the checks, and the size of the first field is read out of bounds.
pub deserialize_overread :
    (r0 : RpcResponse) (input : Bytes)
    → 12 ≤ length input
    → length input < 15
    → word input ≡ magic
    → length input ≡ 12 + word (drop 4 input)
    → deserialize r0 input ≡ none
unfolding deserialize read_word
deserialize_overread r0 input long_enough short magic_found announced = ground arith
