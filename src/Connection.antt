-- ===== src/Connection.antt =====
-- rpc_src/network/connection: a socket's buffer and the frames cut out of it.
-- What the kernel answers is a list of results, one for each system call; a call whose answers run
-- out is still waiting, and its result is `none`.
pub mod Bounds
pub mod Writing
pub mod Frames
pub mod Delivery
pub mod Progress
pub mod Samples
mod Tests
use my_rpc_project_v.Base.{
  ℕ, zero, suc, ◌+◌, ◌-◌, ◌*◌, ◌<◌, ◌≡◌, List, [], ◌∷◌, ◌++◌, Option, none, some, Bool, true, false,
  not, ◌&&◌, Bytes, length, take, drop, ltb, leb, ◌==◌, if◌then◌else◌, net_word, net_bytes, u32,
  word, ℤ, pos, negsuc, is_nonneg, is_pos,
}
use my_rpc_project_v.Protocol.{header_size, magic}
use my_rpc_project_v.Protocol.Request.{RpcRequest}
use my_rpc_project_v.Protocol.Request
use my_rpc_project_v.Protocol.Response.{RpcResponse}
use my_rpc_project_v.Protocol.Response
use my_rpc_project_v.Compress.{Zstd, compress_string, decompress_string, default}
use my_rpc_project_v.Encrypt.{encrypt, decrypt}

pub data State : Type 0 where
  connected disconnected : State

pub data FrameStatus : Type 0 where
  incomplete complete error : FrameStatus

pub record Connection : Type 0 where
  pub fd : ℤ
  pub read_buffer : Bytes
  pub state : State

-- MAX_BUFFER_SIZE and MAX_FRAME_SIZE
abbrev pub max_buffer_size : ℕ
max_buffer_size = 1048576

abbrev pub max_frame_size : ℕ
max_frame_size = 16777216

-- sizeof(buf)
abbrev pub chunk_size : ℕ
chunk_size = 4096

unfoldable pub open_fd : ℤ → Connection
unfolding is_nonneg
open_fd fd = record {
  fd = fd;
  read_buffer = [];
  state = if is_nonneg fd then connected else disconnected;
}

abbrev pub is_connected : State → Bool
is_connected connected = true
is_connected disconnected = false

unfoldable pub is_valid : Connection → Bool
unfolding is_pos
is_valid c = is_pos c.fd && is_connected c.state

-- Close, with the descriptor that is handed to close(2). The destructor is the same.
unfoldable pub close : Connection → Connection × Option ℤ
unfolding is_nonneg
close c =
    if is_nonneg c.fd
    then (record c { fd = negsuc 0; state = disconnected }, some c.fd)
    else (record c { state = disconnected }, none)

-- What read(2) answers: -1 with EAGAIN, -1 with another error, or the bytes; no byte is the end.
pub data ReadResult : Type 0 where
  would_block : ReadResult
  read_failed : ReadResult
  got : Bytes → ReadResult

-- The loop of Read: the connection, the result, and the answers that are left.
unfoldable pub read_loop :
    List ReadResult → Connection → Option (Connection × Bool × List ReadResult)
read_loop [] c = none
read_loop (would_block ∷ rs) c = some (c, true, rs)
read_loop (read_failed ∷ rs) c = some (record c { state = disconnected }, false, rs)
read_loop (got [] ∷ rs) c = some (record c { state = disconnected }, false, rs)
read_loop (got (b ∷ bs) ∷ rs) c =
    let c' = record c { read_buffer = c.read_buffer ++ (b ∷ bs) } in
    let more = read_loop rs c' in
    if ltb max_buffer_size (length c.read_buffer + length (b ∷ bs))
    then some (record c { state = disconnected }, false, rs)
    else if ltb (length (b ∷ bs)) chunk_size
    then some (c', true, rs)
    else more

unfoldable pub read : List ReadResult → Connection → Option (Connection × Bool × List ReadResult)
read rs c = if not (is_connected c.state) then some (c, false, rs) else read_loop rs c

-- What select(2) answers.
pub data SelectResult : Type 0 where
  interrupted select_failed timed_out ready : SelectResult

unfoldable pub read_with_timeout :
    List SelectResult → List ReadResult → Connection → Option (Connection × Bool × List ReadResult)
read_with_timeout [] rs c = none
read_with_timeout (interrupted ∷ ss) rs c = read_with_timeout ss rs c
read_with_timeout (select_failed ∷ ss) rs c = some (c, false, rs)
read_with_timeout (timed_out ∷ ss) rs c = some (c, false, rs)
read_with_timeout (ready ∷ ss) rs c = read rs c

-- What write(2) answers.
pub data WriteResult : Type 0 where
  write_blocked write_failed : WriteResult
  wrote : ℕ → WriteResult

-- The loop of Write on the bytes that are left, with those already sent.
unfoldable pub write_loop :
    List WriteResult → Bytes → Bytes → Option (Bytes × Bool × List WriteResult)
write_loop ws [] sent = some (sent, true, ws)
write_loop [] (x ∷ xs) sent = none
write_loop (write_blocked ∷ ws) (x ∷ xs) sent = write_loop ws (x ∷ xs) sent
write_loop (write_failed ∷ ws) (x ∷ xs) sent = some (sent, false, ws)
write_loop (wrote n ∷ ws) (x ∷ xs) sent = write_loop ws (drop n (x ∷ xs)) (sent ++ take n (x ∷ xs))

-- Write of a string: the connection, the result, the bytes that went to the socket, and the answers
-- that are left.
pub record Written : Type 0 where
  pub conn : Connection
  pub result : Bool
  pub sent : Bytes
  pub answers : List WriteResult

abbrev pub after_write : Connection → Bytes × Bool × List WriteResult → Written
after_write c (sent, result, answers) = record {
  conn = if result then c else record c { state = disconnected };
  result = result;
  sent = sent;
  answers = answers;
}

unfoldable pub write_bytes : Connection → Bytes → List WriteResult → Option Written
write_bytes c [] ws = some (record { conn = c; result = false; sent = []; answers = ws })
write_bytes c (x ∷ xs) ws =
    if not (is_connected c.state)
    then some (record { conn = c; result = false; sent = []; answers = ws })
    else elim (write_loop ws (x ∷ xs) []) [ none ↦ none | some r ↦ some (after_write c r) ]

module _ (z : Zstd) where
  -- The bytes on the wire for a message: compressed, encrypted, behind the size of the result.
  unfoldable pub wire_bytes : (ℕ → ℕ) → Bytes → Option Bytes
  wire_bytes draw message = elim (compress_string z message default) [
    | none ↦ none
    | some compressed ↦
        let (encrypted, done) = encrypt draw compressed [] in
        if done then some (net_bytes (u32 (length encrypted)) ++ encrypted) else none
  ]

  unfoldable pub write_frame : (ℕ → ℕ) → Connection → Bytes → List WriteResult → Option Written
  write_frame draw c message ws = elim (wire_bytes draw message) [
    | none ↦ some (record { conn = c; result = false; sent = []; answers = ws })
    | some wire ↦ write_bytes c wire ws
  ]

  unfoldable pub write_response :
      (ℕ → ℕ) → Connection → RpcResponse → List WriteResult → Option Written
  write_response draw c response ws = write_frame draw c (Response.serialize response []) ws

  unfoldable pub write_request :
      (ℕ → ℕ) → Connection → RpcRequest → List WriteResult → Option Written
  write_request draw c request ws = write_frame draw c (Request.serialize request []) ws

  -- The checks behind the cut: the connection has lost the frame's bytes already.
  unfoldable pub open_frame : Connection → Bytes → Bytes → Connection × FrameStatus × Bytes
  open_frame c ciphertext frame_out =
      let (decrypted, done) = decrypt ciphertext [] in
      if not done then (c, error, frame_out) else elim (decompress_string z decrypted) [
        | none ↦ (c, error, frame_out)
        | some message ↦
            if ltb (length message) header_size
            then (c, error, frame_out)
            else if not (word message == magic)
            then (c, error, frame_out)
            else (c, complete, message)
      ]

  unfoldable pub extract_frame : Connection → Bytes → Connection × FrameStatus × Bytes
  extract_frame c frame_out =
      if ltb (length c.read_buffer) 4
      then (c, incomplete, frame_out)
      else let cipher_len = net_word c.read_buffer in
        if ltb max_frame_size cipher_len
        then (c, error, frame_out)
        else let total_len = 4 + cipher_len in
          if ltb (length c.read_buffer) total_len
          then (c, incomplete, frame_out)
          else open_frame (record c { read_buffer = drop total_len c.read_buffer })
              (take cipher_len (drop 4 c.read_buffer)) frame_out
