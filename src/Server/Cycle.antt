-- ===== src/Server/Cycle.antt =====
-- rpc_src/network/message_cycle.cpp: MessageCycle. Connections are objects that the table and the
-- tasks share, named by their place in `objects`. What the kernel answers comes with each event.
-- A request that is handed to the thread pool is the pair of its connection and the message.
pub mod Stream
pub mod Invariant
pub mod Ends
pub mod Events
use my_rpc_project_v.Base.{
  ℕ, zero, suc, ◌+◌, ◌≡◌, List, [], ◌∷◌, ◌++◌, Option, none, some, Bool, true, false, ◌||◌, not,
  Bytes, length, set, ℤ, int_eq, if◌then◌else◌,
}
use my_rpc_project_v.Protocol.Request.{RpcRequest}
use my_rpc_project_v.Protocol.Request
use my_rpc_project_v.Protocol.Response.{RpcResponse}
use my_rpc_project_v.Compress.{Zstd}
use my_rpc_project_v.Connection.{
  Connection, FrameStatus, incomplete, complete, error, ReadResult, WriteResult, Written, open_fd,
  read, extract_frame, write_response,
}
use my_rpc_project_v.Service.{
  ServiceManager, handle_rpc_request, ErrorCode, success, service_not_found, invalid_request,
  error_number, error_message,
}
use my_rpc_project_v.Server.Manager.{get_connection, add_connection, remove_connection}

pub record Server : Type 0 where
  pub listen_fds : List ℤ
  pub running : Bool
  -- The descriptors that epoll watches.
  pub watched : List ℤ
  pub connections : List (ℤ × ℕ)
  pub objects : List Connection
  -- What the thread pool has been handed, oldest first.
  pub tasks : List (ℕ × RpcRequest)
  -- What the pool answers to the calls of enqueue to come, the next one first: whether it takes the
  -- task, which it does not once it is stopped; `none` is a call that waits for room and never gets
  -- it.
  pub enqueues : ℕ → Option Bool
  -- The descriptors closed by an explicit close(2).
  pub closed : List ℤ

unfoldable pub contains : ℤ → List ℤ → Bool
contains fd [] = false
contains fd (x ∷ xs) = int_eq x fd || contains fd xs

unfoldable pub remove_fd : ℤ → List ℤ → List ℤ
remove_fd fd [] = []
remove_fd fd (x ∷ xs) = if int_eq x fd then xs else x ∷ remove_fd fd xs

unfoldable pub object_at : List Connection → ℕ → Option Connection
object_at [] i = none
object_at (c ∷ cs) zero = some c
object_at (c ∷ cs) (suc i) = object_at cs i

-- EPOLL_CTL_ADD, which the kernel may refuse.
unfoldable pub add_listen_fd : Server → ℤ → Bool → Server × Bool
add_listen_fd s fd watched =
    if watched
    then (record s { watched = fd ∷ s.watched; listen_fds = fd ∷ s.listen_fds }, true)
    else (s, false)

unfoldable pub remove : Server → ℤ → Server
remove s fd = record s {
  watched = remove_fd fd s.watched;
  connections = remove_connection fd s.connections;
}

-- What accept(2), fcntl(2) and epoll_ctl(2) answer for a new connection.
pub data AcceptResult : Type 0 where
  accept_failed : AcceptResult
  nonblock_failed : ℤ → AcceptResult
  accepted : ℤ → Bool → AcceptResult

unfoldable pub handle_new_connection : Server → AcceptResult → Server
unfolding remove
handle_new_connection s accept_failed = s
handle_new_connection s (nonblock_failed client_fd) = record s {
  closed = s.closed ++ (client_fd ∷ []);
}
handle_new_connection s (accepted client_fd watched) =
    let added = record s {
      connections = add_connection client_fd (length s.objects) s.connections;
      objects = s.objects ++ (open_fd client_fd ∷ []);
    } in
    if watched then record added { watched = client_fd ∷ s.watched } else remove added client_fd

-- HandleRpcRequest: the message goes to the thread pool, which is made first if there is none, with
-- its connection. The thread of the loop waits while the queue is full, and a pool that is stopped
-- throws the task away, as in `enqueue` of Pool; how long it is full is up to the workers.
unfoldable pub hand_over : Server → ℕ → RpcRequest → Option Server
hand_over s conn request = elim (s.enqueues 0) [
  | none ↦ none
  | some taken ↦ some (record s {
    enqueues = λ n. s.enqueues (suc n);
    tasks = if taken then s.tasks ++ ((conn, request) ∷ []) else s.tasks;
  })
]

abbrev pub empty_request : RpcRequest
empty_request = record { sequence_id = 0; service_name = []; method_name = []; payload = [] }

-- One entry of epoll_wait's answer, with what the calls of its handler are answered.
pub record Event : Type 0 where
  pub fd : ℤ
  -- EPOLLERR or EPOLLHUP
  pub failed : Bool
  -- EPOLLIN
  pub readable : Bool
  pub accept : AcceptResult
  pub reads : List ReadResult

-- What epoll_wait answers, or a call of Stop by another thread. No event is a timeout.
pub data WaitResult : Type 0 where
  stopped wait_interrupted wait_failed : WaitResult
  ready_events : List Event → WaitResult

module _ (z : Zstd) where
  -- The loop of HandleClientData over the object `conn`, which is `c`. Without fuel it gives none,
  -- and where a call of enqueue does not return.
  unfoldable pub frame_loop : ℕ → Server → ℤ → ℕ → Connection → Option Server
  unfolding hand_over
  frame_loop zero s fd conn c = none
  frame_loop (suc fuel) s fd conn c =
      let (c', status, frame) = extract_frame z c [] in
      let s' = record s { objects = set s.objects conn c' } in
      elim status [
        | incomplete ↦ some s'
        | error ↦ some (remove s' fd)
        | complete ↦
            let (request, valid) = Request.deserialize empty_request frame in
            elim valid [
              | false ↦ some (remove s' fd)
              | true ↦ elim (hand_over s' conn request) [
                | none ↦ none
                | some handed ↦ frame_loop fuel handed fd conn c'
              ]
            ]
      ]

  -- Each round takes four bytes at least from the buffer.
  unfoldable pub frame_fuel : Connection → ℕ
  frame_fuel c = suc (length c.read_buffer)

  -- HandleClientData with the answers of read(2); `none` is a Read that still waits, or
  -- an enqueue.
  unfoldable pub handle_client_data : Server → ℤ → List ReadResult → Option Server
  unfolding remove
  handle_client_data s fd rs = elim (get_connection fd s.connections) [
    | none ↦ some (remove s fd)
    | some conn ↦ elim (object_at s.objects conn) [
      | none ↦ none
      | some c ↦ elim (read rs c) [
        | none ↦ none
        | some (c', done, left) ↦
            let s' = record s { objects = set s.objects conn c' } in
            if done then frame_loop (frame_fuel c') s' fd conn c' else some (remove s' fd)
      ]
    ]
  ]

  unfoldable pub handle_event : Server → Event → Option Server
  unfolding remove
  handle_event s ev =
      if ev.failed
      then some (remove s ev.fd)
      else if contains ev.fd s.listen_fds
      then some (handle_new_connection s ev.accept)
      else if ev.readable
      then handle_client_data s ev.fd ev.reads
      else some s

  -- HandleEpollEvents
  unfoldable pub handle_epoll_events : Server → List Event → Option Server
  handle_epoll_events s [] = some s
  handle_epoll_events s (ev ∷ evs) = elim (handle_event s ev) [
    | none ↦ none
    | some s' ↦ handle_epoll_events s' evs
  ]

  -- The loop, while `running` holds: the answers of epoll_wait, and calls of Stop between them.
  -- The result is the server and whether the loop has ended.
  unfoldable pub run_loop : Server → List WaitResult → Option (Server × Bool)
  run_loop s [] = some (s, not s.running)
  run_loop s (r ∷ rs) = if not s.running then some (s, true) else elim r [
    | stopped ↦ run_loop (record s { running = false }) rs
    | wait_interrupted ↦ run_loop s rs
    | wait_failed ↦ some (s, true)
    | ready_events evs ↦ elim (handle_epoll_events s evs) [ none ↦ none | some s' ↦ run_loop s' rs ]
  ]

  unfoldable pub loop : Server → List WaitResult → Option (Server × Bool)
  loop s rs = run_loop (record s { running = true }) rs
