-- ===== src/Client.antt =====
-- rpc_src/core/rpc_client: RpcClient. The answers of ZooKeeper, of the socket calls and of the
-- serializer are arguments. A call runs under the client's mutex, so calls do not overlap.
pub mod Connected
pub mod Answer
mod Tests
use my_rpc_project_v.Base.{
  ℕ, zero, suc, ◌+◌, ◌%◌, ◌^◌, List, [], ◌∷◌, ◌++◌, Option, none, some, Bool, true, false, not,
  Bytes, codes, bytes_eq, length, ltb, leb, ◌==◌, if◌then◌else◌, ℤ, pos, negsuc, ◌&&◌, ◌||◌, ◌*◌,
  ◌-◌,
}
use my_rpc_project_v.Protocol.Request.{RpcRequest}
use my_rpc_project_v.Protocol.Response.{RpcResponse}
use my_rpc_project_v.Protocol.Response
use my_rpc_project_v.Compress.{Zstd}
use my_rpc_project_v.Connection.{
  Connection, FrameStatus, incomplete, complete, error, SelectResult, ReadResult, WriteResult,
  Written, open_fd, close, read_with_timeout, extract_frame, write_request,
}

pub record Client : Type 0 where
  pub server_ip : Bytes
  pub server_port : ℤ
  pub retry_times : ℕ
  pub connection : Option Connection
  pub sequence_id : ℕ
  pub is_connected : Bool

-- ++sequence_id_ on a uint32_t.
unfoldable pub generate_sequence_id : Client → Client × ℕ
generate_sequence_id c =
    let next = (c.sequence_id + 1) % 2 ^ 32 in (record c { sequence_id = next }, next)

-- What socket(2), inet_pton(3) and connect(2) answer.
pub data SocketResult : Type 0 where
  socket_failed : SocketResult
  ip_refused connect_refused opened : ℤ → SocketResult

-- initSocket, with the descriptors that it closes.
unfoldable pub init_socket : Client → SocketResult → Client × Bool × List ℤ
init_socket c socket_failed = (c, false, [])
init_socket c (ip_refused fd) = (c, false, fd ∷ [])
init_socket c (connect_refused fd) = (c, false, fd ∷ [])
init_socket c (opened fd) = (record c { connection = some (open_fd fd) }, true, [])

-- server_address.find(':') with the two parts that substr takes.
unfoldable pub split_address : Bytes → Option (Bytes × Bytes)
split_address [] = none
split_address (x ∷ xs) = elim (x == b':') [
  | true ↦ some ([], xs)
  | false ↦ elim (split_address xs) [ none ↦ none | some (ip, port) ↦ some (x ∷ ip, port) ]
]

-- What one round of Connect is told: the server that ZooKeeper names, and the socket's answers.
pub record Attempt : Type 0 where
  pub server_address : Bytes
  pub socket : SocketResult

-- How Connect ends: with its result, or by what std::stoi throws.
pub data Ended : Type 0 where
  returned : Bool → Ended
  threw : Ended

-- std::stoi: the number at the front, or `none` where it throws.
abbrev pub is_space : ℕ → Bool
is_space x = x == 32 || (leb 9 x && leb x 13)

abbrev pub is_digit : ℕ → Bool
is_digit x = leb b'0' x && leb x b'9'

unfoldable pub skip_spaces : Bytes → Bytes
skip_spaces [] = []
skip_spaces (x ∷ xs) = if is_space x then skip_spaces xs else x ∷ xs

abbrev pub or_zero : Option ℕ → ℕ
or_zero none = 0
or_zero (some n) = n

unfoldable pub read_digits : Bytes → Option ℕ → Option ℕ
read_digits [] acc = acc
read_digits (x ∷ xs) acc = elim (is_digit x) [
  | true ↦ read_digits xs (some (10 * or_zero acc + (x - b'0')))
  | false ↦ acc
]

abbrev pub minus : ℕ → ℤ
minus zero = pos 0
minus (suc n) = negsuc n

unfoldable pub signed : Bytes → Option ℤ
unfolding read_digits
signed [] = none
signed (x ∷ xs) =
    if x == b'-'
    then elim (read_digits xs none) [
      | none ↦ none
      | some n ↦ if ltb (2 ^ 31) n then none else some (minus n)
    ]
    else elim (read_digits (if x == b'+' then xs else x ∷ xs) none) [
      | none ↦ none
      | some n ↦ if ltb n (2 ^ 31) then some (pos n) else none
    ]

unfoldable pub stoi : Bytes → Option ℤ
unfolding skip_spaces signed
stoi text = signed (skip_spaces text)

-- The rounds of Connect that are left.
unfoldable pub connect_loop : ℕ → List Attempt → Client → Option (Client × Ended)
connect_loop zero rest c = some (c, returned false)
connect_loop (suc retries) [] c = none
connect_loop (suc retries) (a ∷ rest) c =
    let again = connect_loop retries rest c in
    elim (split_address a.server_address) [
      | none ↦ again
      | some (ip, port) ↦ elim (stoi port) [
        | none ↦ some (record c { server_ip = ip }, threw)
        | some n ↦
            let named = record c { server_ip = ip; server_port = n } in
            let (c', done, closed) = init_socket named a.socket in
            elim done [
              | true ↦ some (record c' { is_connected = true }, returned true)
              | false ↦ connect_loop retries rest c'
            ]
      ]
    ]

unfoldable pub connect : List Attempt → Client → Option (Client × Ended)
connect rest c =
    if c.is_connected then some (c, returned true) else connect_loop c.retry_times rest c

-- Disconnect, with the descriptor that is closed.
unfoldable pub disconnect : Client → Client × Option ℤ
disconnect c = elim c.connection [
  | none ↦ (record c { is_connected = false }, none)
  | some k ↦ (record c { connection = none; is_connected = false }, (close k).1)
]

-- What ends the waiting for a frame.
pub data Waited : Type 0 where
  no_frame bad_frame : Waited
  whole_frame : Bytes → Waited

-- How Call ends.
pub data CallResult (A : Type 0) : Type 0 where
  failed thrown : CallResult A
  answered : A → CallResult A

-- What the calls of the kernel answer during a call: one entry of `rounds` for each ReadWithTimeout.
pub record Answers : Type 0 where
  pub attempts : List Attempt
  pub writes : List WriteResult
  pub rounds : List (List SelectResult × List ReadResult)

abbrev pub empty_response : RpcResponse
empty_response = record { sequence_id = 0; result_data = []; error_message = []; error_code = 0 }

abbrev pub request_for : ℕ → Bytes → Bytes → Bytes → RpcRequest
request_for sequence_id service_name method_name payload = record {
  sequence_id = sequence_id;
  service_name = service_name;
  method_name = method_name;
  payload = payload;
}

abbrev pub of_option : {A : Type 0} → Option A → CallResult A
of_option none = failed
of_option (some a) = answered a

-- What ReadResponse makes of a frame; `none` is a read out of bounds.
unfoldable pub read_result : {A : Type 0} → (Bytes → Option A) → Bytes → Option (CallResult A)
read_result decode frame = elim (Response.deserialize empty_response frame) [
  | none ↦ none
  | some (response, valid) ↦
      if not valid
      then some failed
      else if not (response.error_code == 0)
      then some failed
      else some (of_option (decode response.result_data))
]

module _ (z : Zstd) where
  -- The loop of ReadResponse; `none` is a wait that does not end.
  unfoldable pub wait_frame :
      List (List SelectResult × List ReadResult) → Connection → Option (Connection × Waited)
  wait_frame [] k = none
  wait_frame ((ss, rs) ∷ rounds) k = elim (read_with_timeout ss rs k) [
    | none ↦ none
    | some (k1, done, left) ↦
        let (k2, status, frame) = extract_frame z k1 [] in
        elim done [
          | false ↦ some (k1, no_frame)
          | true ↦ elim status [
            | incomplete ↦ wait_frame rounds k2
            | error ↦ some (k2, bad_frame)
            | complete ↦ some (k2, whole_frame frame)
          ]
        ]
  ]

  module _ {A : Type 0} (decode : Bytes → Option A) where
    unfoldable pub read_response :
        List (List SelectResult × List ReadResult)
        → Client
        → Connection
        → Option (Client × CallResult A)
    read_response rounds c k = elim (wait_frame rounds k) [
      | none ↦ none
      | some (k', waited) ↦ elim waited [
        | no_frame ↦ some (record c { connection = some k'; is_connected = false }, failed)
        | bad_frame ↦ some (record c { connection = some k'; is_connected = false }, failed)
        | whole_frame frame ↦ elim (read_result decode frame) [
          | none ↦ none
          | some result ↦ some (record c { connection = some k' }, result)
        ]
      ]
    ]

    -- Call behind Connect, on the payload that the serializer gave. A null connection gives `none`.
    unfoldable pub send :
        (ℕ → ℕ) → Client → Bytes → Bytes → Bytes → Answers → Option (Client × CallResult A)
    send draw c service_name method_name [] answers = some (c, failed)
    send draw c service_name method_name (x ∷ xs) answers =
        let (c', sequence_id) = generate_sequence_id c in
        let request = request_for sequence_id service_name method_name (x ∷ xs) in
        elim c'.connection [
          | none ↦ none
          | some k ↦ elim (write_request z draw k request answers.writes) [
            | none ↦ none
            | some w ↦ elim w.result [
              | false ↦ some (record c' { connection = some w.conn; is_connected = false }, failed)
              | true ↦ read_response answers.rounds (record c' { connection = some w.conn }) w.conn
            ]
          ]
        ]

    -- Call
    unfoldable pub call :
        (ℕ → ℕ) → Client → Bytes → Bytes → Bytes → Answers → Option (Client × CallResult A)
    call draw c service_name method_name payload answers = elim (connect answers.attempts c) [
      | none ↦ none
      | some (c', ended) ↦ elim ended [
        | threw ↦ some (c', thrown)
        | returned up ↦ elim up [
          | false ↦ some (c', failed)
          | true ↦ send draw c' service_name method_name payload answers
        ]
      ]
    ]
