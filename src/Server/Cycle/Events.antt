-- ===== src/Server/Cycle/Events.antt =====
-- The events of the loop, up to its end.
use my_rpc_project_v.Base.{
  ℕ, ◌≤◌, ◌<◌, ◌≡◌, refl, arith, List, [], ◌∷◌, ◌++◌, Bool, true, false, some, length,
  length-append, Bool-cases, ◌⊎◌, inl, inr, ℤ, int_eq, All,
}
use my_rpc_project_v.Protocol.Request.{RpcRequest}
use my_rpc_project_v.Compress.{Zstd}
use my_rpc_project_v.Connection.{open_fd}
use my_rpc_project_v.Server.Cycle.{
  Server, remove, remove_fd, contains, AcceptResult, accept_failed, nonblock_failed, accepted,
  handle_new_connection, Event, handle_event, handle_epoll_events, WaitResult, stopped,
  wait_interrupted, wait_failed, ready_events, run_loop, loop,
}
use my_rpc_project_v.Server.Manager.{
  get_connection, add_connection, remove_connection, Distinct, table_updates,
}
use my_rpc_project_v.Server.Cycle.Invariant.{
  IsServer, Admits, remove-IsServer, add-found, remove-found, contains-remove_fd,
}
use my_rpc_project_v.Server.Cycle.Ends.{Ends, Answered, remove-Admits, handle_client_data-Ends}

unchanged-IsServer :
    (s : Server) (closed listen_fds : List ℤ) (running : Bool)
    → IsServer s
    → IsServer (record s { closed = closed; listen_fds = listen_fds; running = running })
unchanged-IsServer s closed listen_fds running v = record {
  distinct = v.distinct;
  known = v.known;
  watching = v.watching;
  queued = v.queued;
}

wider :
    (m n : ℕ) (ts : List (ℕ × RpcRequest))
    → m ≤ n
    → All (λ (t : ℕ × RpcRequest). t.0 < m) ts
    → All (λ (t : ℕ × RpcRequest). t.0 < n) ts
wider m n [] e h = tt
wider m n (t ∷ ts) e h = (omega (arith, h.0), wider m n ts e h.1)

-- A connection that epoll watches too.
abbrev with_client : Server → ℤ → Server
with_client s fd = record s {
  connections = add_connection fd (length s.objects) s.connections;
  objects = s.objects ++ (open_fd fd ∷ []);
  watched = fd ∷ s.watched;
}

with_client-IsServer : (s : Server) (fd : ℤ) → IsServer s → IsServer (with_client s fd)
unfolding contains
with_client-IsServer s fd v = record {
  distinct = (table_updates fd fd (length s.objects) s.connections v.distinct).2;
  known = λ other conn h. elim (added other conn h) [
    | inl (same, new) ↦ omega (arith, new, length-append s.objects (open_fd fd ∷ []))
    | inr old ↦ omega (arith, v.known other conn old, length-append s.objects (open_fd fd ∷ []))
  ];
  watching = λ other conn h. elim (added other conn h) [
    | inl (same, new) ↦ ground (arith, same)
    | inr old ↦ ground (arith, v.watching other conn old)
  ];
  queued =
      wider (length s.objects) (length (s.objects ++ (open_fd fd ∷ []))) s.tasks
        (omega (arith, length-append s.objects (open_fd fd ∷ []))) v.queued;
}
  where
    added :
        (other : ℤ) (conn : ℕ)
        → get_connection other (add_connection fd (length s.objects) s.connections) ≡ some conn
        → ((int_eq fd other ≡ true) × (length s.objects ≡ conn))
          ⊎ (get_connection other s.connections ≡ some conn)
    added other conn h = add-found fd other (length s.objects) conn s.connections v.distinct h

-- A connection that epoll refuses to watch is in the table for a moment only.
refused-IsServer :
    (s : Server) (fd : ℤ)
    → IsServer s
    → IsServer (
        remove
          (record s {
            connections = add_connection fd (length s.objects) s.connections;
            objects = s.objects ++ (open_fd fd ∷ []);
          })
          fd)
unfolding remove
refused-IsServer s fd v = record {
  distinct = (table_updates fd fd 0 added.connections added-distinct).3;
  known = λ other conn h. (stays other conn h).1;
  watching = λ other conn h. (stays other conn h).0;
  queued = (with_client-IsServer s fd v).queued;
}
  where
    added : Server
    added = with_client s fd

    added-distinct : Distinct added.connections
    added-distinct = (table_updates fd fd (length s.objects) s.connections v.distinct).2

    stays :
        (other : ℤ) (conn : ℕ)
        → get_connection other (remove_connection fd added.connections) ≡ some conn
        → (contains other (remove_fd fd s.watched) ≡ true) × (conn < length added.objects)
    stays other conn h =
        let (apart, there) = remove-found fd other conn added.connections added-distinct h in
        elim (add-found fd other (length s.objects) conn s.connections v.distinct there) [
          | inl (same, new) ↦ absurd (ground (arith, same, apart))
          | inr old ↦ (
            contains-remove_fd fd other s.watched apart (v.watching other conn old),
            (with_client-IsServer s fd v).known other conn there,
          )
        ]

handle_new_connection-Admits :
    (s : Server) (r : AcceptResult) → Admits s → Admits (handle_new_connection s r)
unfolding handle_new_connection remove
handle_new_connection-Admits s accept_failed a = a
handle_new_connection-Admits s (nonblock_failed client_fd) a = a
handle_new_connection-Admits s (accepted client_fd true) a = a
handle_new_connection-Admits s (accepted client_fd false) a = a

handle_new_connection-IsServer :
    (s : Server) (r : AcceptResult) → IsServer s → IsServer (handle_new_connection s r)
unfolding handle_new_connection
handle_new_connection-IsServer s accept_failed v = v
handle_new_connection-IsServer s (nonblock_failed client_fd) v =
    unchanged-IsServer s (s.closed ++ (client_fd ∷ [])) s.listen_fds s.running v
handle_new_connection-IsServer s (accepted client_fd true) v = with_client-IsServer s client_fd v
handle_new_connection-IsServer s (accepted client_fd false) v = refused-IsServer s client_fd v

handle_event-Ends :
    (z : Zstd) (s : Server) (ev : Event)
    → Answered ev.reads
    → IsServer s
    → Admits s
    → Ends (handle_event z s ev)
unfolding handle_event
handle_event-Ends z s ev answered v a = elim (Bool-cases ev.failed) [
  | inl lost ↦ (remove s ev.fd, rw lost, remove-IsServer s ev.fd v, remove-Admits s ev.fd a)
  | inr alive ↦ elim (Bool-cases (contains ev.fd s.listen_fds)) [
    | inl listening ↦ (
      handle_new_connection s ev.accept,
      rw (alive, listening),
      handle_new_connection-IsServer s ev.accept v,
      handle_new_connection-Admits s ev.accept a,
    )
    | inr client ↦ elim (Bool-cases ev.readable) [
      | inr idle ↦ (s, rw (alive, client, idle), v, a)
      | inl readable ↦
          let ended = handle_client_data-Ends z s ev.fd ev.reads answered v a in
          (ended.0, rw (alive, client, readable) ended.1, ended.2, ended.3)
    ]
  ]
]

-- On a server whose tables fit together, each entry of epoll_wait's answer is dealt with if its
-- read(2) answers at last that nothing more is there and no call of enqueue waits for ever; the
-- tables fit together afterwards.
pub handle_epoll_events-Ends :
    (z : Zstd) (evs : List Event) (s : Server)
    → All (λ (ev : Event). Answered ev.reads) evs
    → IsServer s
    → Admits s
    → Ends (handle_epoll_events z s evs)
unfolding handle_epoll_events
handle_epoll_events-Ends z [] s answered v a = (s, refl, v, a)
handle_epoll_events-Ends z (ev ∷ evs) s answered v a =
    let (s1, done, v1, a1) = handle_event-Ends z s ev answered.0 v a in
    let (s2, rest, v2, a2) = handle_epoll_events-Ends z evs s1 answered.1 v1 a1 in
    (s2, rw (done, handle_epoll_events) rest, v2, a2)

abbrev pub AllAnswered : List WaitResult → Type 0
AllAnswered [] = Unit {0}
AllAnswered (stopped ∷ rs) = AllAnswered rs
AllAnswered (wait_interrupted ∷ rs) = AllAnswered rs
AllAnswered (wait_failed ∷ rs) = AllAnswered rs
AllAnswered (ready_events evs ∷ rs) = All (λ (ev : Event). Answered ev.reads) evs × AllAnswered rs

module _ (z : Zstd) where
  stopped_ends :
      (rs : List WaitResult) (s : Server) → s.running ≡ false → run_loop z s rs ≡ some (s, true)
  unfolding run_loop
  stopped_ends [] s h = rw h
  stopped_ends (r ∷ rs) s h = rw h

  -- Without a failure of epoll_wait the loop goes on until it is stopped.
  run_loop-stops :
      (rs later : List WaitResult) (s : Server)
      → AllAnswered rs
      → IsServer s
      → Admits s
      → (s' : Server) × (run_loop z s (rs ++ (stopped ∷ later)) ≡ some (s', true)) × IsServer s'
  unfolding run_loop
  run_loop-stops [] later s answered v a = elim (Bool-cases s.running) [
    | inr off ↦ (s, rw off, v)
    | inl on ↦ (
      record s { running = false },
      rw on (stopped_ends later (record s { running = false }) refl),
      unchanged-IsServer s s.closed s.listen_fds false v,
    )
  ]
  run_loop-stops (stopped ∷ rs) later s answered v a = elim (Bool-cases s.running) [
    | inr off ↦ (s, rw off, v)
    | inl on ↦ (
      record s { running = false },
      rw on (stopped_ends (rs ++ (stopped ∷ later)) (record s { running = false }) refl),
      unchanged-IsServer s s.closed s.listen_fds false v,
    )
  ]
  run_loop-stops (wait_interrupted ∷ rs) later s answered v a = elim (Bool-cases s.running) [
    | inr off ↦ (s, rw off, v)
    | inl on ↦ let (s', e, v') = run_loop-stops rs later s answered v a in (s', simp on e, v')
  ]
  run_loop-stops (wait_failed ∷ rs) later s answered v a = elim (Bool-cases s.running) [
    | inr off ↦ (s, rw off, v)
    | inl on ↦ (s, rw on, v)
  ]
  run_loop-stops (ready_events evs ∷ rs) later s answered v a = elim (Bool-cases s.running) [
    | inr off ↦ (s, rw off, v)
    | inl on ↦
        let (s1, done, v1, a1) = handle_epoll_events-Ends z evs s answered.0 v a in
        let (s2, e, v2) = run_loop-stops rs later s1 answered.1 v1 a1 in
        (s2, simp on (rw (done, run_loop) e), v2)
  ]

  -- On a server whose tables fit together, the loop ends once it is stopped, or before, if each
  -- read(2) up to then answers at last that nothing more is there and no call of enqueue waits for
  -- ever on a full queue; and the tables still fit together.
  pub loop_stops :
      (rs later : List WaitResult) (s : Server)
      → AllAnswered rs
      → IsServer s
      → Admits s
      → (s' : Server) × (loop z s (rs ++ (stopped ∷ later)) ≡ some (s', true)) × IsServer s'
  unfolding loop
  loop_stops rs later s answered v a =
      run_loop-stops rs later (record s { running = true }) answered
        (unchanged-IsServer s s.closed s.listen_fds true v) a
