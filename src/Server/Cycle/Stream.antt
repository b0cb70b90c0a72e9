-- ===== src/Server/Cycle/Stream.antt =====
-- The loop of HandleClientData on a buffer: it ends, and hands over what the client sent.
use my_rpc_project_v.Base.{
  ℕ, zero, suc, ◌+◌, ◌≤◌, ◌<◌, ◌≡◌, ◌∙◌, refl, sym, ap, ap₂, arith, List, [], ◌∷◌, ◌++◌,
  append_assoc, append-nil, Bool, true, false, Option, none, some, if◌then◌else◌, Bytes, length,
  ◌⊎◌, inl, inr, set, ℤ,
}
use my_rpc_project_v.Protocol.Request.{RpcRequest, IsRequest}
use my_rpc_project_v.Protocol.Request
use my_rpc_project_v.Compress.{Zstd, ZstdLaws}
use my_rpc_project_v.Connection.{
  Connection, FrameStatus, incomplete, complete, error, extract_frame, max_frame_size, wire_bytes,
  ReadResult, read,
}
use my_rpc_project_v.Connection.Progress.{extract_frame_shrinks}
use my_rpc_project_v.Connection.Frames.{extract_frame-wire, extract_frame_partial}
use my_rpc_project_v.Protocol.Request.RoundTrip.{deserialize-serialize as request_back}
use my_rpc_project_v.Connection.Delivery.{request_length, request_magic, request_bytes}
use my_rpc_project_v.Server.Cycle.{
  Server, frame_loop, frame_fuel, handle_client_data, hand_over, empty_request, object_at,
}
use my_rpc_project_v.Server.Manager.{get_connection}

pub FrameStatus-cases : (st : FrameStatus) → (st ≡ incomplete) ⊎ ((st ≡ error) ⊎ (st ≡ complete))
FrameStatus-cases incomplete = inl refl
FrameStatus-cases error = inr (inl refl)
FrameStatus-cases complete = inr (inr refl)

-- A request with the bytes that WriteRequest sends for it.
pub record Sent (z : Zstd) (request : RpcRequest) (wire : Bytes) : Type 0 where
  pub draw : ℕ → ℕ
  pub valid : IsRequest request
  pub written : wire_bytes z draw (Request.serialize request []) ≡ some wire
  pub within : length wire ≤ 4 + max_frame_size

abbrev pub AllSent : Zstd → List (RpcRequest × Bytes) → Type 0
AllSent z [] = Unit {0}
AllSent z ((request, wire) ∷ ms) = Sent z request wire × AllSent z ms

abbrev pub wires : List (RpcRequest × Bytes) → Bytes
wires [] = []
wires ((request, wire) ∷ ms) = wire ++ wires ms

-- The answers of enqueue behind the first one, and behind those for the messages.
abbrev pub later : (ℕ → Option Bool) → ℕ → Option Bool
later enqueues n = enqueues (suc n)

abbrev pub after_all : (ℕ → Option Bool) → List (RpcRequest × Bytes) → ℕ → Option Bool
after_all enqueues [] = enqueues
after_all enqueues (m ∷ ms) = after_all (later enqueues) ms

-- enqueue returns for each of the messages.
abbrev pub AllReturn : (ℕ → Option Bool) → List (RpcRequest × Bytes) → Type 0
AllReturn enqueues [] = Unit {0}
AllReturn enqueues (m ∷ ms) =
    ((taken : Bool) × (enqueues 0 ≡ some taken)) × AllReturn (later enqueues) ms

abbrev pub is_taken : Option Bool → Bool
is_taken none = false
is_taken (some taken) = taken

-- The tasks for those messages that the pool takes.
abbrev pub tasks_for : ℕ → (ℕ → Option Bool) → List (RpcRequest × Bytes) → List (ℕ × RpcRequest)
tasks_for conn enqueues [] = []
tasks_for conn enqueues ((request, wire) ∷ ms) =
    let rest = tasks_for conn (later enqueues) ms in
    if is_taken (enqueues 0) then (conn, request) ∷ rest else rest

-- The server when the loop has handed over the messages and `rest` is left in the buffer.
abbrev pub after_stream : Server → ℕ → Connection → List (RpcRequest × Bytes) → Bytes → Server
after_stream s conn c ms rest = record s {
  objects = set s.objects conn (record c { read_buffer = rest });
  tasks = s.tasks ++ tasks_for conn s.enqueues ms;
  enqueues = after_all s.enqueues ms;
}

-- The server behind a call of enqueue that returns.
abbrev pub handed : Server → ℕ → RpcRequest → Bool → Server
handed s conn request taken = record s {
  enqueues = later s.enqueues;
  tasks = if taken then s.tasks ++ ((conn, request) ∷ []) else s.tasks;
}

pub hand_over-handed :
    (s : Server) (conn : ℕ) (request : RpcRequest) (taken : Bool)
    → s.enqueues 0 ≡ some taken
    → hand_over s conn request ≡ some (handed s conn request taken)
unfolding hand_over
hand_over-handed s conn request taken e = rw (e, hand_over) refl

set-set {ℓ} : {A : Type ℓ} (xs : List A) (i : ℕ) (a b : A) → set (set xs i a) i b ≡ set xs i b
set-set [] i a b = refl
set-set (x ∷ xs) zero a b = refl
set-set (x ∷ xs) (suc i) a b = ap (◌∷◌ x) (set-set xs i a b)

module _ (z : Zstd) (laws : ZstdLaws z) (fd : ℤ) (conn : ℕ) where
  Sent-cut :
      (request : RpcRequest) (wire rest : Bytes) (c : Connection)
      → Sent z request wire
      → c.read_buffer ≡ wire ++ rest
      → (extract_frame z c []
          ≡ (record c { read_buffer = rest }, complete, Request.serialize request []))
        × (Request.deserialize empty_request (Request.serialize request []) ≡ (request, true))
  Sent-cut request wire rest c m buffered = (
    extract_frame-wire z laws m.draw (Request.serialize request []) wire
        (request_bytes request m.valid) m.written m.within c rest []
        (request_length request m.valid) (request_magic request m.valid) buffered,
    ap (λ xs. Request.deserialize empty_request xs)
          (sym (append-nil (Request.serialize request [])))
        ∙ request_back request empty_request [] [] m.valid,
  )

  one_round :
      (fuel : ℕ) (s : Server) (c c' : Connection) (frame : Bytes) (request : RpcRequest)
      (taken : Bool)
      → s.enqueues 0 ≡ some taken
      → (extract_frame z c []).0 ≡ c'
      → (extract_frame z c []).1 ≡ complete
      → (extract_frame z c []).2 ≡ frame
      → Request.deserialize empty_request frame ≡ (request, true)
      → frame_loop z (suc fuel) s fd conn c
        ≡ frame_loop z fuel
            (handed (record s { objects = set s.objects conn c' }) conn request taken)
            fd
            conn
            c'
  unfolding frame_loop
  one_round fuel s c c' frame request taken returns kept e cut d =
      rw (e, ap (λ x. (Request.deserialize empty_request x).1) cut ∙ ap (λ o. o.1) d, frame_loop)
        (rw
          (
            hand_over-handed (record s { objects = set s.objects conn (extract_frame z c []).0 })
                conn (Request.deserialize empty_request (extract_frame z c []).2).0 taken returns,
            frame_loop,
          )
          (ap₂
            (λ (k : Connection) (r : RpcRequest).
              frame_loop z fuel (handed (record s { objects = set s.objects conn k }) conn r taken)
                fd conn k)
            kept (ap (λ x. (Request.deserialize empty_request x).0) cut ∙ ap (λ o. o.0) d)))

  last_round :
      (fuel : ℕ) (s : Server) (c : Connection)
      → (extract_frame z c []).0 ≡ c
      → (extract_frame z c []).1 ≡ incomplete
      → frame_loop z (suc fuel) s fd conn c ≡ some (record s { objects = set s.objects conn c })
  unfolding frame_loop
  last_round fuel s c kept e = rw (e, frame_loop) (rw kept)

  -- Handing over the first message and then the others is handing over them all.
  hand_over-after :
      (s : Server) (c : Connection) (request : RpcRequest) (wire front rest : Bytes)
      (ms : List (RpcRequest × Bytes)) (taken : Bool)
      → s.enqueues 0 ≡ some taken
      → after_stream
          (handed
            (record s { objects = set s.objects conn (record c { read_buffer = front }) })
            conn
            request
            taken)
          conn
          (record c { read_buffer = front })
          ms
          rest
        ≡ after_stream s conn c ((request, wire) ∷ ms) rest
  hand_over-after s c request wire front rest ms taken returns =
      ap₂
        (λ os ts. record s { objects = os; tasks = ts; enqueues = after_all (later s.enqueues) ms })
        (set-set s.objects conn (record c { read_buffer = front })
          (record c { read_buffer = rest }))
        (by_answer taken returns)
    where
      others : List (ℕ × RpcRequest)
      others = tasks_for conn (later s.enqueues) ms

      by_answer :
          (b : Bool)
          → s.enqueues 0 ≡ some b
          → (if b then s.tasks ++ ((conn, request) ∷ []) else s.tasks) ++ others
            ≡ s.tasks ++ (if is_taken (s.enqueues 0) then (conn, request) ∷ others else others)
      by_answer true e = rw e (append_assoc s.tasks ((conn, request) ∷ []) others)
      by_answer false e = rw e refl

  -- With `rest` too short to hold a frame, and enough fuel, the loop hands over the messages that
  -- stand before it, in their order, and leaves `rest` in the buffer.
  pub frame_loop-stream :
      (ms : List (RpcRequest × Bytes)) (rest : Bytes) (fuel : ℕ) (s : Server) (c : Connection)
      → AllSent z ms
      → AllReturn s.enqueues ms
      → c.read_buffer ≡ wires ms ++ rest
      → length c.read_buffer < fuel
      → extract_frame z (record c { read_buffer = rest }) []
        ≡ (record c { read_buffer = rest }, incomplete, [])
      → frame_loop z fuel s fd conn c ≡ some (after_stream s conn c ms rest)
  frame_loop-stream ms rest zero s c sent returns buffered enough short = elim enough [ ]
  frame_loop-stream [] rest (suc fuel) s c sent returns buffered enough short =
      ap (λ b. frame_loop z (suc fuel) s fd conn (record c { read_buffer = b })) buffered
      ∙ last_round fuel s (record c { read_buffer = rest }) (ap (λ p. p.0) short)
          (ap (λ p. p.1) short)
      ∙ ap
          (λ ts. some (record s {
            objects = set s.objects conn (record c { read_buffer = rest });
            tasks = ts;
          }))
          (sym (append-nil s.tasks))
  frame_loop-stream ((request, wire) ∷ ms) rest (suc fuel) s c sent returns buffered enough short =
      one_round fuel s c (record c { read_buffer = wires ms ++ rest })
        (Request.serialize request []) request returns.0.0 returns.0.1 (ap (λ p. p.0) cut.0)
        (ap (λ p. p.1) cut.0) (ap (λ p. p.2) cut.0) cut.1
      ∙ frame_loop-stream ms rest fuel
          (handed
            (record s {
              objects = set s.objects conn (record c { read_buffer = wires ms ++ rest });
            })
            conn request returns.0.0)
          (record c { read_buffer = wires ms ++ rest }) sent.1 returns.1 refl smaller short
      ∙ ap some
          (hand_over-after s c request wire (wires ms ++ rest) rest ms returns.0.0 returns.0.1)
    where
      cut :
          (extract_frame z c []
            ≡ (record c { read_buffer = wires ms ++ rest }, complete, Request.serialize request []))
          × (Request.deserialize empty_request (Request.serialize request []) ≡ (request, true))
      cut =
          Sent-cut request wire (wires ms ++ rest) c sent.0
            (buffered ∙ append_assoc wire (wires ms) rest)

      smaller : length (wires ms ++ rest) < fuel
      smaller = omega (
        arith,
        enough,
        extract_frame_shrinks z c [] (ap (λ p. p.1) cut.0),
        ap (λ p. length p.0.read_buffer) cut.0,
      )

-- A reading that leaves `front` behind the requests, too short to hold a frame, hands over the
-- requests before it, in the order of their sending, each to a call of enqueue that returns.
pub handle_client_data-front :
    (z : Zstd) (laws : ZstdLaws z) (s : Server) (fd : ℤ) (conn : ℕ) (c c' : Connection)
    (rs left : List ReadResult) (ms : List (RpcRequest × Bytes)) (front : Bytes)
    → get_connection fd s.connections ≡ some conn
    → object_at s.objects conn ≡ some c
    → read rs c ≡ some (c', true, left)
    → AllSent z ms
    → AllReturn s.enqueues ms
    → c'.read_buffer ≡ wires ms ++ front
    → extract_frame z (record c' { read_buffer = front }) []
      ≡ (record c' { read_buffer = front }, incomplete, [])
    → handle_client_data z s fd rs ≡ some (after_stream s conn c' ms front)
unfolding handle_client_data frame_fuel
handle_client_data-front z laws s fd conn c c' rs left ms front found object reading sent returns
      buffered short =
    rw (found, handle_client_data)
      (rw (object, handle_client_data)
        (rw (reading, handle_client_data)
          (frame_loop-stream z laws fd conn ms front (suc (length c'.read_buffer))
              (record s { objects = set s.objects conn c' }) c' sent returns buffered (omega arith)
              short
            ∙ ap
                (λ os. some (record s {
                  objects = os;
                  tasks = s.tasks ++ tasks_for conn s.enqueues ms;
                  enqueues = after_all s.enqueues ms;
                }))
                (set-set s.objects conn c' (record c' { read_buffer = front })))))

-- A reading of bytes that end inside a frame hands over the requests before it, in the order of
-- their sending, and nothing else: the pool has those whose enqueue it has answered by taking them.
-- What has come of the unfinished one stays in the buffer. The requests were written by
-- WriteRequest, each within the frame limit, enqueue returns for each, and the laws of zstd hold.
pub handle_client_data-stream :
    (z : Zstd) (laws : ZstdLaws z) (s : Server) (fd : ℤ) (conn : ℕ) (c c' : Connection)
    (rs left : List ReadResult) (ms : List (RpcRequest × Bytes)) (last : RpcRequest)
    (front back : Bytes) (next : ℕ)
    → get_connection fd s.connections ≡ some conn
    → object_at s.objects conn ≡ some c
    → read rs c ≡ some (c', true, left)
    → AllSent z ms
    → AllReturn s.enqueues ms
    → Sent z last (front ++ (next ∷ back))
    → c'.read_buffer ≡ wires ms ++ front
    → handle_client_data z s fd rs ≡ some (after_stream s conn c' ms front)
handle_client_data-stream z laws s fd conn c c' rs left ms last front back next found object reading
      sent returns unfinished buffered =
    handle_client_data-front z laws s fd conn c c' rs left ms front found object reading sent
      returns buffered
      (extract_frame_partial z laws unfinished.draw (Request.serialize last [])
        (front ++ (next ∷ back)) (request_bytes last unfinished.valid) unfinished.written
        unfinished.within (record c' { read_buffer = front }) back [] next refl)
