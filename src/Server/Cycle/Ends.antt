-- ===== src/Server/Cycle/Ends.antt =====
-- Reading from a client ends, where enqueue does, and keeps the server's tables together.
use my_rpc_project_v.Base.{
  ℕ, zero, suc, ◌<◌, ◌≡◌, ◌∙◌, refl, ap, arith, List, [], ◌∷◌, ◌++◌, Bool, true, false, Option,
  some, length, Bool-cases, Option-cases, ◌⊎◌, inl, inr, set, ℤ,
}
use my_rpc_project_v.Protocol.Request.{RpcRequest}
use my_rpc_project_v.Protocol.Request
use my_rpc_project_v.Compress.{Zstd}
use my_rpc_project_v.Connection.{Connection, extract_frame, ReadResult, would_block, read}
use my_rpc_project_v.Server.Cycle.{
  Server, frame_loop, frame_fuel, handle_client_data, remove, empty_request, object_at,
}
use my_rpc_project_v.Connection.Progress.{extract_frame_shrinks}
use my_rpc_project_v.Connection.Bounds.{read_returns}
use my_rpc_project_v.Server.Cycle.Stream.{FrameStatus-cases, handed, hand_over-handed}
use my_rpc_project_v.Server.Manager.{get_connection}
use my_rpc_project_v.Server.Cycle.Invariant.{
  IsServer, Admits, remove-IsServer, updated-IsServer, hand_over-IsServer, length-set,
}

abbrev pub Ends : Option Server → Type 0
Ends r = (s' : Server) × (r ≡ some s') × IsServer s' × Admits s'

pub remove-Admits : (s : Server) (fd : ℤ) → Admits s → Admits (remove s fd)
unfolding remove
remove-Admits s fd a = a

module _ (z : Zstd) where
  frame_loop-Ends :
      (fuel : ℕ) (s : Server) (fd : ℤ) (conn : ℕ) (c : Connection)
      → length c.read_buffer < fuel
      → conn < length s.objects
      → IsServer s
      → Admits s
      → Ends (frame_loop z fuel s fd conn c)
  unfolding frame_loop
  frame_loop-Ends zero s fd conn c h known v a = elim h [ ]
  frame_loop-Ends (suc fuel) s fd conn c h known v a =
      elim (FrameStatus-cases (extract_frame z c []).1) [
        | inl e ↦ (cut, rw (e, frame_loop), cut-IsServer, a)
        | inr (inl e) ↦ (
          remove cut fd,
          rw (e, frame_loop),
          remove-IsServer cut fd cut-IsServer,
          remove-Admits cut fd a,
        )
        | inr (inr e) ↦
            elim (Bool-cases (Request.deserialize empty_request (extract_frame z c []).2).1) [
              | inr bad ↦ (
                remove cut fd,
                rw (e, bad, frame_loop),
                remove-IsServer cut fd cut-IsServer,
                remove-Admits cut fd a,
              )
              | inl valid ↦
                  let rest =
                    frame_loop-Ends fuel (handed cut conn next (a 0).0) fd conn
                      (extract_frame z c []).0 (omega (arith, extract_frame_shrinks z c [] e))
                      cut_known (hand_over-IsServer cut conn next (a 0).0 cut_known cut-IsServer)
                      (λ n. a (suc n)) in
                  (
                    rest.0,
                    rw (e, valid, frame_loop)
                        (rw (hand_over-handed cut conn next (a 0).0 (a 0).1, frame_loop) rest.1),
                    rest.2,
                    rest.3,
                  )
            ]
      ]
    where
      cut : Server
      cut = record s { objects = set s.objects conn (extract_frame z c []).0 }

      cut-IsServer : IsServer cut
      cut-IsServer = updated-IsServer s conn (extract_frame z c []).0 v

      next : RpcRequest
      next = (Request.deserialize empty_request (extract_frame z c []).2).0

      cut_known : conn < length cut.objects
      cut_known = omega (arith, known, length-set s.objects conn (extract_frame z c []).0)

-- read(2) answers at last that nothing more is there.
abbrev pub Answered : List ReadResult → Type 0
Answered rs =
    (before : List ReadResult) × (later : List ReadResult) × (rs ≡ before ++ (would_block ∷ later))

object_at_known :
    (cs : List Connection) (i : ℕ) → i < length cs → (c : Connection) × (object_at cs i ≡ some c)
unfolding object_at
object_at_known [] i h = absurd (omega arith)
object_at_known (c ∷ cs) zero h = (c, refl)
object_at_known (c ∷ cs) (suc i) h = object_at_known cs i (omega arith)

read-Answered :
    (rs : List ReadResult) (c : Connection)
    → Answered rs
    → (r : Connection × Bool × List ReadResult) × (read rs c ≡ some r)
read-Answered rs c (before, later, e) =
    let (r, k) = read_returns before later c in (r, ap (λ x. read x c) e ∙ k)

pub handle_client_data-Ends :
    (z : Zstd) (s : Server) (fd : ℤ) (rs : List ReadResult)
    → Answered rs
    → IsServer s
    → Admits s
    → Ends (handle_client_data z s fd rs)
unfolding handle_client_data frame_fuel
handle_client_data-Ends z s fd rs answered v a =
    elim (Option-cases (get_connection fd s.connections)) [
      | inl unknown ↦ (
        remove s fd,
        rw (unknown, handle_client_data),
        remove-IsServer s fd v,
        remove-Admits s fd a,
      )
      | inr (conn, found) ↦
          let (c, object) = object_at_known s.objects conn (v.known fd conn found) in
          let ((c', done, left), reading) = read-Answered rs c answered in
          behind conn c c' done left found object reading (Bool-cases done)
    ]
  where
    behind :
        (conn : ℕ) (c c' : Connection) (done : Bool) (left : List ReadResult)
        → get_connection fd s.connections ≡ some conn
        → object_at s.objects conn ≡ some c
        → read rs c ≡ some (c', done, left)
        → (done ≡ true) ⊎ (done ≡ false)
        → Ends (handle_client_data z s fd rs)
    behind conn c c' done left found object reading (inl up) =
        let ended =
          frame_loop-Ends z (suc (length c'.read_buffer))
            (record s { objects = set s.objects conn c' }) fd conn c' (omega arith)
            (omega (arith, v.known fd conn found, length-set s.objects conn c'))
            (updated-IsServer s conn c' v) a in
        (
          ended.0,
          rw (found, handle_client_data)
              (rw (object, handle_client_data)
                (rw (reading, handle_client_data) (rw (up, handle_client_data) ended.1))),
          ended.2,
          ended.3,
        )
    behind conn c c' done left found object reading (inr down) = (
      remove (record s { objects = set s.objects conn c' }) fd,
      rw (found, handle_client_data)
          (rw (object, handle_client_data)
            (rw (reading, handle_client_data) (rw (down, handle_client_data)))),
      remove-IsServer (record s { objects = set s.objects conn c' }) fd
          (updated-IsServer s conn c' v),
      remove-Admits (record s { objects = set s.objects conn c' }) fd a,
    )
