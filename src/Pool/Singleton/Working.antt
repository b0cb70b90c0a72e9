-- ===== src/Pool/Singleton/Working.antt =====
-- What the workers of the one pool, and its callers of enqueue, leave as it is.
use my_rpc_project_v.Base.{◌≡◌, ◌∙◌, refl, arith, subst, ◌∷◌, some, Bool, Bool-cases, inl, inr}
use my_rpc_project_v.Pool.{
  Pool, Task, Step, enqueued, took, started, ended, retired, left, is_full, enqueue,
  adjust_thread_count, take_task, start_task, finish_task, retire, leave,
}
use my_rpc_project_v.Pool.Invariant.{IsPool}
use my_rpc_project_v.Pool.History.{Step-IsPool}
use my_rpc_project_v.Pool.Singleton.{
  Work, enqueues, takes, starts, ends, retires, leaves, Works, idle, then_work,
}

pub Work-Step : {p q : Pool} → Work p q → Step p q
Work-Step (enqueues b r task e) = enqueued b r task e
Work-Step (takes i e) = took i e
Work-Step (starts i e) = started i e
Work-Step (ends i e) = ended i e
Work-Step (retires e) = retired e
Work-Step (leaves e) = left e

-- The workers and callers of enqueue leave the state as it is.
abbrev pub Same : Pool → Pool → Type 0
Same p q = (q.stop ≡ p.stop) × (q.state ≡ p.state)

adjust-Same : (b : Bool) (p : Pool) → Same p (adjust_thread_count b p)
unfolding adjust_thread_count
adjust-Same b p = (ground arith, ground arith)

enqueue-Same : (b r : Bool) (task : Task) (p q : Pool) → enqueue b task p ≡ some (q, r) → Same p q
unfolding enqueue
enqueue-Same b r task p q e = elim (Bool-cases p.stop) [
  | inl shut ↦ (ground (arith, e, shut), ground (arith, e, shut))
  | inr going ↦ elim (Bool-cases (is_full p)) [
    | inl full ↦ absurd (ground (arith, e, going, full))
    | inr room ↦
        let added = record p { tasks = task ∷ p.tasks; accepted = task ∷ p.accepted } in
        subst (Same p) {x = adjust_thread_count b added} {y = q} (ground (arith, e, going, room))
          (adjust-Same b added)
  ]
]

pub Work-Same : {p q : Pool} → Work p q → Same p q
unfolding enqueue take_task start_task finish_task retire leave
Work-Same {p} {q} (enqueues b r task e) = enqueue-Same b r task p q e
Work-Same {p} {q} (takes i e) = (ground (arith, e), ground (arith, e))
Work-Same {p} {q} (starts i e) = (ground (arith, e), ground (arith, e))
Work-Same {p} {q} (ends i e) = (ground (arith, e), ground (arith, e))
Work-Same {p} {q} (retires e) = (ground (arith, e), ground (arith, e))
Work-Same {p} {q} (leaves e) = (ground (arith, e), ground (arith, e))

pub Works-Same : {p q : Pool} → Works p q → Same p q
Works-Same idle = (refl, refl)
Works-Same (then_work {q} ws w) =
    let (stop, state) = Work-Same w in
    let (stop', state') = Works-Same ws in (stop ∙ stop', state ∙ state')

pub Works-IsPool : {p q : Pool} → Works p q → IsPool p → IsPool q
Works-IsPool idle v = v
Works-IsPool (then_work ws w) v = Step-IsPool (Work-Step w) (Works-IsPool ws v)
