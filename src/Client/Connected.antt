-- ===== src/Client/Connected.antt =====
-- The connection behind a client that calls itself connected.
use my_rpc_project_v.Base.{
  ℕ, zero, suc, ◌+◌, ◌%◌, ◌^◌, ◌≡◌, subst, refl, arith, List, [], ◌∷◌, Option, some, true, false,
  Bytes, ℤ, inl, inr, Bool-cases, Option-cases,
}
use my_rpc_project_v.Compress.{Zstd}
use my_rpc_project_v.Connection.{Connection, open_fd, write_request, SelectResult, ReadResult}
use my_rpc_project_v.Client.{
  Client, SocketResult, socket_failed, ip_refused, connect_refused, opened, init_socket,
  split_address, Attempt, Ended, returned, threw, stoi, connect_loop, connect, Waited, no_frame,
  bad_frame, whole_frame, CallResult, Answers, wait_frame, read_result, read_response,
  generate_sequence_id, request_for, send, call,
}

-- A client that calls itself connected has a connection.
abbrev pub IsClient : Client → Type 0
IsClient c = c.is_connected ≡ true → (k : Connection) × (c.connection ≡ some k)

abbrev pub Fresh : Client → Type 0
Fresh c = (fd : ℤ) × (c.connection ≡ some (open_fd fd)) × (c.is_connected ≡ true)

init_socket-Fresh :
    (c : Client) (r : SocketResult)
    → (init_socket c r).1 ≡ true
    → (fd : ℤ) × ((init_socket c r).0.connection ≡ some (open_fd fd))
unfolding init_socket
init_socket-Fresh c socket_failed h = absurd (ground (arith, h))
init_socket-Fresh c (ip_refused fd) h = absurd (ground (arith, h))
init_socket-Fresh c (connect_refused fd) h = absurd (ground (arith, h))
init_socket-Fresh c (opened fd) h = (fd, refl)

-- A connection that Connect has made is new: nothing of an earlier one is in its buffer.
pub connect_loop-Fresh :
    (retries : ℕ) (rest : List Attempt) (c c' : Client)
    → connect_loop retries rest c ≡ some (c', returned true)
    → Fresh c'
unfolding connect_loop
connect_loop-Fresh zero rest c c' e = absurd (ground (arith, e))
connect_loop-Fresh (suc retries) [] c c' e = absurd (ground (arith, e))
connect_loop-Fresh (suc retries) (a ∷ rest) c c' e =
    elim (Option-cases (split_address a.server_address)) [
      | inl s ↦ connect_loop-Fresh retries rest c c' (rw (s, connect_loop) at e)
      | inr ((ip, port), s) ↦ elim (Option-cases (stoi port)) [
        | inl t ↦ absurd (ground (arith, e, s, t))
        | inr (n, t) ↦
            let named = record c { server_ip = ip; server_port = n } in
            elim (Bool-cases (init_socket named a.socket).1) [
              | inr down ↦
                  connect_loop-Fresh retries rest (init_socket named a.socket).0 c'
                    (rw (s, t, down, connect_loop) at e)
              | inl up ↦
                  let (fd, made) = init_socket-Fresh named a.socket up in
                  (fd, ground (arith, e, s, t, up, made), ground (arith, e, s, t, up))
            ]
      ]
    ]

IsClient-down : (c : Client) → c.is_connected ≡ false → IsClient c
IsClient-down c down up = absurd (ground (arith, up, down))

connect_loop-keeps :
    (retries : ℕ) (rest : List Attempt) (c c' : Client) (ended : Ended)
    → c.is_connected ≡ false
    → connect_loop retries rest c ≡ some (c', ended)
    → IsClient c'
unfolding connect_loop
connect_loop-keeps zero rest c c' ended down e = IsClient-down c' (ground (arith, e, down))
connect_loop-keeps (suc retries) [] c c' ended down e = absurd (ground (arith, e))
connect_loop-keeps (suc retries) (a ∷ rest) c c' ended down e =
    elim (Option-cases (split_address a.server_address)) [
      | inl s ↦ connect_loop-keeps retries rest c c' ended down (rw (s, connect_loop) at e)
      | inr ((ip, port), s) ↦ elim (Option-cases (stoi port)) [
        | inl t ↦ IsClient-down c' (ground (arith, e, s, t, down))
        | inr (n, t) ↦
            let named = record c { server_ip = ip; server_port = n } in
            elim (Bool-cases (init_socket named a.socket).1) [
              | inr failed_socket ↦
                  connect_loop-keeps retries rest (init_socket named a.socket).0 c' ended
                    (init_socket-down named a.socket down)
                    (rw (s, t, failed_socket, connect_loop) at e)
              | inl up ↦
                  let (fd, made) = init_socket-Fresh named a.socket up in
                  λ connected. (open_fd fd, ground (arith, e, s, t, up, made))
            ]
      ]
    ]
  where
    init_socket-down :
        (k : Client) (r : SocketResult)
        → k.is_connected ≡ false
        → (init_socket k r).0.is_connected ≡ false
    init_socket-down k socket_failed h = unfold init_socket in h
    init_socket-down k (ip_refused fd) h = unfold init_socket in h
    init_socket-down k (connect_refused fd) h = unfold init_socket in h
    init_socket-down k (opened fd) h = unfold init_socket in h

abbrev HasConnection : Client → Type 0
HasConnection c = (k : Connection) × (c.connection ≡ some k)

module _ (z : Zstd) {A : Type 0} (decode : Bytes → Option A) where
  waited-HasConnection :
      (rounds : List (List SelectResult × List ReadResult)) (c c' : Client) (k k' : Connection)
      (waited : Waited) (r : CallResult A)
      → wait_frame z rounds k ≡ some (k', waited)
      → read_response z decode rounds c k ≡ some (c', r)
      → HasConnection c'
  unfolding read_response
  waited-HasConnection rounds c c' k k' no_frame r w e = (k', ground (arith, w, e))
  waited-HasConnection rounds c c' k k' bad_frame r w e = (k', ground (arith, w, e))
  waited-HasConnection rounds c c' k k' (whole_frame frame) r w e =
      elim (Option-cases (read_result decode frame)) [
        | inl over ↦ absurd (ground (arith, w, e, over))
        | inr (result, got) ↦ (k', ground (arith, w, e, got))
      ]

  read_response-HasConnection :
      (rounds : List (List SelectResult × List ReadResult)) (c c' : Client) (k : Connection)
      (r : CallResult A)
      → read_response z decode rounds c k ≡ some (c', r)
      → HasConnection c'
  unfolding read_response
  read_response-HasConnection rounds c c' k r e = elim (Option-cases (wait_frame z rounds k)) [
    | inl waiting ↦ absurd (ground (arith, e, waiting))
    | inr ((k', waited), w) ↦ waited-HasConnection rounds c c' k k' waited r w e
  ]

  send-IsClient :
      (draw : ℕ → ℕ) (c c' : Client) (service_name method_name payload : Bytes) (answers : Answers)
      (r : CallResult A)
      → send z decode draw c service_name method_name payload answers ≡ some (c', r)
      → IsClient c
      → IsClient c'
  unfolding send generate_sequence_id
  send-IsClient draw c c' service_name method_name [] answers r e v up =
      let (k, h) = v (ground (arith, e, up)) in (k, ground (arith, e, h))
  send-IsClient draw c c' service_name method_name (x ∷ xs) answers r e v up =
      elim (Option-cases c.connection) [
        | inl null ↦ absurd (ground (arith, e, null))
        | inr (k, there) ↦
            elim (Option-cases (
              write_request z draw k
                (request_for ((c.sequence_id + 1) % 2 ^ 32) service_name method_name (x ∷ xs))
                answers.writes)) [
                  | inl waiting ↦ absurd (ground (arith, e, there, waiting))
                  | inr (w, written) ↦ elim (Bool-cases w.result) [
                    | inr lost ↦ (w.conn, ground (arith, e, there, written, lost))
                    | inl sent ↦
                        read_response-HasConnection answers.rounds
                          (record c {
                            sequence_id = (c.sequence_id + 1) % 2 ^ 32;
                            connection = some w.conn;
                          })
                          c' w.conn r (ground (arith, e, there, written, sent))
                  ]
                ]
      ]

  connect-IsClient :
      (rest : List Attempt) (c c' : Client) (ended : Ended)
      → connect rest c ≡ some (c', ended)
      → IsClient c
      → IsClient c'
  unfolding connect
  connect-IsClient rest c c' ended e v = elim (Bool-cases c.is_connected) [
    | inl on ↦ λ up. let (k, h) = v on in (k, ground (arith, e, on, h))
    | inr off ↦ connect_loop-keeps c.retry_times rest c c' ended off (ground (arith, e, off))
  ]

  -- However a call ends, a client that calls itself connected has a connection afterwards, if this
  -- held before.
  pub call-IsClient :
      (draw : ℕ → ℕ) (c c' : Client) (service_name method_name payload : Bytes) (answers : Answers)
      (r : CallResult A)
      → call z decode draw c service_name method_name payload answers ≡ some (c', r)
      → IsClient c
      → IsClient c'
  unfolding call
  call-IsClient draw c c' service_name method_name payload answers r e v =
      elim (Option-cases (connect answers.attempts c)) [
        | inl waiting ↦ absurd (ground (arith, e, waiting))
        | inr ((c1, ended), connected) ↦
            behind c1 ended connected (connect-IsClient answers.attempts c c1 ended connected v)
      ]
    where
      behind :
          (c1 : Client) (ended : Ended)
          → connect answers.attempts c ≡ some (c1, ended)
          → IsClient c1
          → IsClient c'
      behind c1 threw connected v1 =
          subst (λ x. IsClient x) {x = c1} {y = c'} (ground (arith, e, connected)) v1
      behind c1 (returned false) connected v1 =
          subst (λ x. IsClient x) {x = c1} {y = c'} (ground (arith, e, connected)) v1
      behind c1 (returned true) connected v1 =
          send-IsClient draw c1 c' service_name method_name payload answers r
            (ground (arith, e, connected)) v1
