-- ===== src/Pool/Unstaffed.antt =====
-- A pool that is given no threads.
use my_rpc_project_v.Base.{
  ℕ, ◌≡◌, ◌∙◌, refl, arith, [], ◌∷◌, some, Bool, false, subst, Bool-cases, inl, inr, ge→ltb, ltb,
}
use my_rpc_project_v.Pool.{
  Pool, Task, Step, Reach, here, next, enqueued, took, started, ended, retired, left, paused_now,
  resumed, closing, closed, gave_up, cut_off, create, enqueue, adjust_thread_count, is_full,
  take_task, start_task, finish_task, has_idle, retire, leave, pause, resume, shutdown_begin,
  shutdown_end, shutdown_timeout, stop_now, pick,
}

record IsUnstaffed (p : Pool) : Type 0 where
  no_max : p.max_threads ≡ 0
  no_alive : p.alive ≡ 0
  no_held : p.held ≡ []
  no_active : p.active ≡ []
  none_done : p.finished ≡ []

no_idle : (p : Pool) → IsUnstaffed p → has_idle p ≡ false
unfolding has_idle
no_idle p u = rw (u.no_alive) (ground arith)

same_workers :
    (p q : Pool)
    → IsUnstaffed p
    → q.max_threads ≡ p.max_threads
    → q.alive ≡ p.alive
    → q.held ≡ p.held
    → q.active ≡ p.active
    → q.finished ≡ p.finished
    → IsUnstaffed q
same_workers p q u m a h c f = record {
  no_max = m ∙ u.no_max;
  no_alive = a ∙ u.no_alive;
  no_held = h ∙ u.no_held;
  no_active = c ∙ u.no_active;
  none_done = f ∙ u.none_done;
}

adjust-IsUnstaffed : (b : Bool) (p : Pool) → IsUnstaffed p → IsUnstaffed (adjust_thread_count b p)
unfolding adjust_thread_count
adjust-IsUnstaffed b p u = simp (no_room p u) u
  where
    no_room : (p : Pool) → IsUnstaffed p → ltb p.current_threads p.max_threads ≡ false
    no_room p u = ge→ltb p.current_threads p.max_threads (omega (arith, u.no_max))

enqueue-IsUnstaffed :
    (b r : Bool) (task : Task) (p q : Pool)
    → enqueue b task p ≡ some (q, r)
    → IsUnstaffed p
    → IsUnstaffed q
unfolding enqueue
enqueue-IsUnstaffed b r task p q e u = elim (Bool-cases p.stop) [
  | inl shut ↦ subst (λ x. IsUnstaffed x) {x = p} {y = q} (ground (arith, e, shut)) u
  | inr open_pool ↦ elim (Bool-cases (is_full p)) [
    | inl full ↦ absurd (ground (arith, e, open_pool, full))
    | inr room ↦
        let added = record p { tasks = task ∷ p.tasks; accepted = task ∷ p.accepted } in
        subst (λ x. IsUnstaffed x) {x = adjust_thread_count b added} {y = q}
          (ground (arith, e, open_pool, room))
          (adjust-IsUnstaffed b added (same_workers p added u refl refl refl refl refl))
  ]
]

pause-IsUnstaffed : (p : Pool) → IsUnstaffed p → IsUnstaffed (pause p)
unfolding pause
pause-IsUnstaffed p u =
    same_workers p (pause p) u (ground arith) (ground arith) (ground arith) (ground arith)
      (ground arith)

resume-IsUnstaffed : (p : Pool) → IsUnstaffed p → IsUnstaffed (resume p)
unfolding resume
resume-IsUnstaffed p u =
    same_workers p (resume p) u (ground arith) (ground arith) (ground arith) (ground arith)
      (ground arith)

begin-IsUnstaffed : (p : Pool) → IsUnstaffed p → IsUnstaffed (shutdown_begin p).0
unfolding shutdown_begin
begin-IsUnstaffed p u =
    same_workers p (shutdown_begin p).0 u (ground arith) (ground arith) (ground arith)
      (ground arith) (ground arith)

end-IsUnstaffed : (p q : Pool) → shutdown_end p ≡ some q → IsUnstaffed p → IsUnstaffed q
unfolding shutdown_end
end-IsUnstaffed p q e u =
    same_workers p q u (ground (arith, e)) (ground (arith, e)) (ground (arith, e))
      (ground (arith, e)) (ground (arith, e))

timeout-IsUnstaffed : (p q : Pool) → shutdown_timeout p ≡ some q → IsUnstaffed p → IsUnstaffed q
unfolding shutdown_timeout
timeout-IsUnstaffed p q e u =
    same_workers p q u (ground (arith, e)) (ground (arith, e)) (ground (arith, e))
      (ground (arith, e)) (ground (arith, e))

Step-IsUnstaffed : {p q : Pool} → Step p q → IsUnstaffed p → IsUnstaffed q
unfolding take_task start_task finish_task retire leave stop_now pick
Step-IsUnstaffed {p} {q} (enqueued b r task e) u = enqueue-IsUnstaffed b r task p q e u
Step-IsUnstaffed {p} {q} (took i e) u = absurd (ground (arith, e, no_idle p u))
Step-IsUnstaffed {p} {q} (started i e) u = absurd (ground (arith, e, u.no_held))
Step-IsUnstaffed {p} {q} (ended i e) u = absurd (ground (arith, e, u.no_active))
Step-IsUnstaffed {p} {q} (retired e) u = absurd (ground (arith, e, no_idle p u))
Step-IsUnstaffed {p} {q} (left e) u = absurd (ground (arith, e, no_idle p u))
Step-IsUnstaffed {p} {q} (paused_now e) u =
    subst (λ x. IsUnstaffed x) {x = pause p} {y = q} e (pause-IsUnstaffed p u)
Step-IsUnstaffed {p} {q} (resumed e) u =
    subst (λ x. IsUnstaffed x) {x = resume p} {y = q} e (resume-IsUnstaffed p u)
Step-IsUnstaffed {p} {q} (closing e) u =
    subst (λ x. IsUnstaffed x) {x = (shutdown_begin p).0} {y = q} e (begin-IsUnstaffed p u)
Step-IsUnstaffed {p} {q} (closed e) u = end-IsUnstaffed p q e u
Step-IsUnstaffed {p} {q} (gave_up e) u = timeout-IsUnstaffed p q e u
Step-IsUnstaffed {p} {q} (cut_off e) u =
    subst (λ x. IsUnstaffed x) {x = stop_now p} {y = q} e
      (same_workers p (stop_now p) u refl refl refl refl refl)

Reach-IsUnstaffed :
    (max_queue_size : ℕ) (p : Pool) → Reach (create 0 0 max_queue_size) p → IsUnstaffed p
unfolding create
Reach-IsUnstaffed max_queue_size p here = record {
  no_max = refl;
  no_alive = refl;
  no_held = refl;
  no_active = refl;
  none_done = refl;
}
Reach-IsUnstaffed max_queue_size p (next {q} r st) =
    Step-IsUnstaffed st (Reach-IsUnstaffed max_queue_size q r)

-- A pool that is made for no threads, with a core and a maximum of 0, does no task, whatever happens
-- to it.
pub no_threads_no_work :
    (max_queue_size : ℕ) (p : Pool) → Reach (create 0 0 max_queue_size) p → p.finished ≡ []
no_threads_no_work max_queue_size p r = (Reach-IsUnstaffed max_queue_size p r).none_done
