-- ===== src/Protocol/Request/Sound.antt =====
-- What RpcRequest::Deserialize accepts.
use my_rpc_project_v.Base.{
  ℕ, ◌+◌, ◌≤◌, ◌≡◌, ◌∙◌, sym, ap, arith, Bytes, [], ◌∷◌, ◌++◌, append_assoc, append-nil, length,
  some, true, false, word, word_bytes, drop, length-append, IsU32, IsBytes, Option-cases, inl, inr,
  word_bytes-word, word-IsU32, All-drop, drop-drop, length-drop, Bool-cases, subst, All-front,
  All-back,
}
use my_rpc_project_v.Protocol.{field_bytes, header_bytes, magic, RpcHeader}
use my_rpc_project_v.Protocol.Fields.{length-field_bytes, length-header_bytes}
use my_rpc_project_v.Protocol.Request.{
  RpcRequest, read_field, IsRequest, encoding, deserialize, serialize, header,
}
use my_rpc_project_v.Protocol.Request.Read.{read_field_sound}
use my_rpc_project_v.Protocol.Request.RoundTrip.{deserialize-message, deserialize-serialize}
use my_rpc_project_v.Protocol.Request.Write.{serialize-eq-encoding}

-- The tests that an accepted message has passed.
record Accepted (r : RpcRequest) (input : Bytes) : Type 0 where
  long_enough : 12 ≤ length input
  magic_found : word input ≡ magic
  sequence_found : r.sequence_id ≡ word (drop 8 input)
  at_method : ℕ
  at_load : ℕ
  at_end : ℕ
  service_read : read_field input 12 ≡ some (r.service_name, at_method)
  method_read : read_field input at_method ≡ some (r.method_name, at_load)
  load_read : read_field input at_load ≡ some (r.payload, at_end)

deserialize-Accepted :
    (r r0 : RpcRequest) (input : Bytes) → deserialize r0 input ≡ (r, true) → Accepted r input
unfolding deserialize
deserialize-Accepted r r0 input e = elim (Option-cases (read_field input 12)) [
  | inl h ↦ absurd (ground (arith, h))
  | inr ((name, p1), h) ↦ elim (Option-cases (read_field input p1)) [
    | inl k ↦ absurd (ground (arith, h, k))
    | inr ((method, p2), k) ↦ elim (Option-cases (read_field input p2)) [
      | inl l ↦ absurd (ground (arith, h, k, l))
      | inr ((load, p3), l) ↦ record {
        long_enough = ground (arith, h, k, l);
        magic_found = ground (arith, h, k, l);
        sequence_found = ground (arith, h, k, l);
        at_method = p1;
        at_load = p2;
        at_end = p3;
        service_read = ground (arith, h, k, l);
        method_read = ground (arith, h, k, l);
        load_read = ground (arith, h, k, l);
      }
    ]
  ]
]

abbrev header_in : Bytes → RpcHeader
header_in input = record {
  magic_number = word input;
  message_length = word (drop 4 input);
  sequence_id = word (drop 8 input);
}

word_at :
    (input : Bytes) (pos : ℕ)
    → IsBytes input
    → pos + 4 ≤ length input
    → word_bytes (word (drop pos input)) ++ drop (pos + 4) input ≡ drop pos input
word_at input pos bytes h = rw (sym (drop-drop pos 4 input)) (
    word_bytes-word (drop pos input) (All-drop _ pos input bytes)
      (omega (arith, length-drop pos input)))

-- The first twelve bytes of a message are the memory of the header read from them.
pub header_at_front :
    (input : Bytes)
    → IsBytes input
    → 12 ≤ length input
    → header_bytes (header_in input) ++ drop 12 input ≡ input
header_at_front input bytes h =
    rw
      (
        append_assoc,
        append_assoc,
        word_at input 8 bytes (omega arith),
        word_at input 4 bytes (omega arith),
      )
      (word_at input 0 bytes (omega arith))

-- A field in the middle of bytes consists of bytes.
field_read_bytes :
    (input field : Bytes) (pos : ℕ) (rest : Bytes)
    → IsBytes input
    → drop pos input ≡ field_bytes field ++ rest
    → IsBytes field
field_read_bytes input field pos rest bytes e =
    All-back _ (word_bytes (length field)) field (
      All-front _ (field_bytes field) rest
        (subst (λ xs. IsBytes xs) e (All-drop _ pos input bytes)))

-- Where Deserialize accepts bytes, they start with a header that has the magic number and some
-- length, then hold the three fields that it returns, and then any rest; the members have C++
-- sizes.
pub deserialize_sound :
    (r r0 : RpcRequest) (input : Bytes)
    → IsBytes input
    → deserialize r0 input ≡ (r, true)
    → (size : ℕ) × (rest : Bytes) × IsU32 size
      × IsRequest r
      × (input
          ≡ header_bytes
              (record { magic_number = magic; message_length = size; sequence_id = r.sequence_id })
            ++ (field_bytes r.service_name
                ++ (field_bytes r.method_name ++ (field_bytes r.payload ++ rest))))
deserialize_sound r r0 input bytes e = (
  word (drop 4 input),
  drop a.at_end input,
  word-IsU32 _ (All-drop _ 4 input bytes),
  record {
    sequence_fits = rw a.sequence_found (word-IsU32 _ (All-drop _ 8 input bytes));
    service_fits = service.1;
    method_fits = method.1;
    payload_fits = load.1;
    service_bytes =
        field_read_bytes input r.service_name 12 (drop a.at_method input) bytes service.2;
    method_bytes =
        field_read_bytes input r.method_name a.at_method (drop a.at_load input) bytes method.2;
    payload_bytes = field_read_bytes input r.payload a.at_load (drop a.at_end input) bytes load.2;
  },
  sym (
      rw (← load.2, ← method.2, ← service.2, ← a.magic_found, a.sequence_found)
        (header_at_front input bytes a.long_enough)),
)
  where
    a : Accepted r input
    a = deserialize-Accepted r r0 input e

    service :
        (a.at_method ≤ length input)
        × IsU32 (length r.service_name)
        × (drop 12 input ≡ field_bytes r.service_name ++ drop a.at_method input)
    service = read_field_sound input r.service_name 12 a.at_method bytes a.service_read

    method :
        (a.at_load ≤ length input)
        × IsU32 (length r.method_name)
        × (drop a.at_method input ≡ field_bytes r.method_name ++ drop a.at_load input)
    method = read_field_sound input r.method_name a.at_method a.at_load bytes a.method_read

    load :
        (a.at_end ≤ length input)
        × IsU32 (length r.payload)
        × (drop a.at_load input ≡ field_bytes r.payload ++ drop a.at_end input)
    load = read_field_sound input r.payload a.at_load a.at_end bytes a.load_read

-- More bytes behind an accepted message change nothing.
deserialize-append :
    (r r0 : RpcRequest) (input more : Bytes)
    → IsBytes input
    → deserialize r0 input ≡ (r, true)
    → deserialize r0 (input ++ more) ≡ (r, true)
deserialize-append r r0 input more bytes e =
    let (size, rest, size_fits, v, whole) = deserialize_sound r r0 input bytes e in
    ap (λ xs. deserialize r0 xs) (ap (λ xs. xs ++ more) whole ∙ simp append_assoc)
    ∙ deserialize-message r r0 size (rest ++ more) v size_fits

length-message :
    (h : RpcHeader) (a b c rest : Bytes)
    → length (header_bytes h ++ (field_bytes a ++ (field_bytes b ++ (field_bytes c ++ rest))))
      ≡ 24 + length a + length b + length c + length rest
length-message h a b c rest = omega (
  arith,
  length-append (header_bytes h) (field_bytes a ++ (field_bytes b ++ (field_bytes c ++ rest))),
  length-append (field_bytes a) (field_bytes b ++ (field_bytes c ++ rest)),
  length-append (field_bytes b) (field_bytes c ++ rest),
  length-append (field_bytes c) rest,
  length-header_bytes h,
  length-field_bytes a,
  length-field_bytes b,
  length-field_bytes c,
)

-- An accepted message is at least as long as the encoding of the request that it gives.
accepted_length :
    (r r0 : RpcRequest) (input : Bytes)
    → IsBytes input
    → deserialize r0 input ≡ (r, true)
    → length (encoding r) ≤ length input
accepted_length r r0 input bytes e =
    let (size, rest, size_fits, v, whole) = deserialize_sound r r0 input bytes e in
    omega (
      arith,
      ap length whole,
      length-message
          (record { magic_number = magic; message_length = size; sequence_id = r.sequence_id })
          r.service_name r.method_name r.payload rest,
      length-message (header r) r.service_name r.method_name r.payload [],
      ap length (append-nil (field_bytes r.payload)),
      ap
          (λ load. length (
            header_bytes (header r)
            ++ (field_bytes r.service_name ++ (field_bytes r.method_name ++ load))))
          (append-nil (field_bytes r.payload)),
    )

-- No proper prefix of a serialised request is accepted, also not as another request.
pub deserialize_truncated :
    (r r0 : RpcRequest) (out front back : Bytes) (last : ℕ)
    → IsRequest r
    → IsBytes front
    → serialize r out ≡ front ++ (last ∷ back)
    → (deserialize r0 front).1 ≡ false
deserialize_truncated r r0 out front back last v bytes whole =
    elim (Bool-cases (deserialize r0 front).1) [
      | inr rejected ↦ rejected
      | inl accepted ↦
          let q = (deserialize r0 front).0 in
          let e : deserialize r0 front ≡ (q, true) = ground (arith, accepted) in
          let same : r ≡ q = ground (
            arith,
            rw (append-nil, whole) at (deserialize-serialize r r0 out [] v),
            deserialize-append q r0 front (last ∷ back) bytes e,
          ) in
          absurd (
            omega (
              arith,
              accepted_length q r0 front bytes e,
              ap (λ (x : RpcRequest). length (encoding x)) same,
              ap length (sym (serialize-eq-encoding r out v) ∙ whole),
              length-append front (last ∷ back),
            ))
    ]
