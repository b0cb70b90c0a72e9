-- ===== src/Pool/History.antt =====
-- What a pool has done, whatever steps were taken.
use my_rpc_project_v.Base.{ℕ, ◌+◌, ◌≤◌, ◌≡◌, refl, ap, subst, arith, List, [], ◌∷◌, true, length}
use my_rpc_project_v.Pool.{
  Pool, Task, create, pause, resume, shutdown_begin, stop_now, Step, enqueued, took, started, ended,
  retired, left, paused_now, resumed, closing, closed, gave_up, cut_off, Reach, here, next,
}
use my_rpc_project_v.Pool.Invariant.{IsPool, count, create-IsPool}
use my_rpc_project_v.Pool.Steps.{enqueue-IsPool, take-IsPool, start-IsPool, finish-IsPool}
use my_rpc_project_v.Pool.States.{
  retire-IsPool, leave-IsPool, pause-IsPool, resume-IsPool, begin-IsPool, end-IsPool,
  timeout-IsPool, stop_now-IsPool,
}

pub Step-IsPool : {p q : Pool} → Step p q → IsPool p → IsPool q
Step-IsPool (enqueued b r task e) v = enqueue-IsPool b r task _ _ e v
Step-IsPool (took i e) v = take-IsPool i _ _ e v
Step-IsPool (started i e) v = start-IsPool i _ _ e v
Step-IsPool (ended i e) v = finish-IsPool i _ _ e v
Step-IsPool (retired e) v = retire-IsPool _ _ e v
Step-IsPool (left e) v = leave-IsPool _ _ e v
Step-IsPool {p} {q} (paused_now e) v =
    subst (λ x. IsPool x) {x = pause p} {y = q} e (pause-IsPool p v)
Step-IsPool {p} {q} (resumed e) v =
    subst (λ x. IsPool x) {x = resume p} {y = q} e (resume-IsPool p v)
Step-IsPool {p} {q} (closing e) v =
    subst (λ x. IsPool x) {x = (shutdown_begin p).0} {y = q} e (begin-IsPool p v)
Step-IsPool (closed e) v = end-IsPool _ _ e v
Step-IsPool (gave_up e) v = timeout-IsPool _ _ e v
Step-IsPool {p} {q} (cut_off e) v =
    subst (λ x. IsPool x) {x = stop_now p} {y = q} e (stop_now-IsPool p v)

-- In any order of steps from a new pool whose core is not above its maximum: each accepted task is
-- in one place, namely waiting, with a worker, done or thrown away; the queue and the number of
-- threads keep their limits; and a pool that was told to stop is stopped, with an empty queue.
pub Reach-IsPool :
    (core_threads max_threads max_queue_size : ℕ) (p : Pool)
    → core_threads ≤ max_threads
    → Reach (create core_threads max_threads max_queue_size) p
    → IsPool p
Reach-IsPool core_threads max_threads max_queue_size p h here =
    create-IsPool core_threads max_threads max_queue_size h
Reach-IsPool core_threads max_threads max_queue_size p h (next {q} r st) =
    Step-IsPool st (Reach-IsPool core_threads max_threads max_queue_size q h r)

no_task : (n : ℕ) (xs : List Task) → length xs ≡ 0 → count n xs ≡ 0
no_task n [] h = refl
no_task n (x ∷ xs) h = absurd (omega (arith, h))

-- A pool that is told to stop and has no thread left has done or thrown away what it accepted.
pub IsPool-done :
    (p : Pool) (n : ℕ)
    → IsPool p
    → p.stop ≡ true
    → p.alive ≡ 0
    → count n p.accepted ≡ count n p.finished + count n p.discarded
IsPool-done p n v told joined = omega (
  arith,
  v.conserved n,
  no_task n p.tasks (ap length (v.halted told).0),
  no_task n p.held (omega (arith, v.employed)),
  no_task n p.active (omega (arith, v.employed)),
)

-- For a pool that was new with a core not above its maximum, after any steps: once it is told to
-- stop and all its threads have returned, every task that was accepted, as often as it was, is done
-- or was thrown away; with nothing thrown away, all are done.
pub stopped_pool_done :
    (core_threads max_threads max_queue_size : ℕ) (p : Pool) (n : ℕ)
    → core_threads ≤ max_threads
    → Reach (create core_threads max_threads max_queue_size) p
    → p.stop ≡ true
    → p.alive ≡ 0
    → (count n p.accepted ≡ count n p.finished + count n p.discarded)
      × (p.discarded ≡ [] → count n p.accepted ≡ count n p.finished)
stopped_pool_done core_threads max_threads max_queue_size p n h r told joined =
    (all, λ none_lost. omega (arith, all, ap (count n) none_lost))
  where
    all : count n p.accepted ≡ count n p.finished + count n p.discarded
    all = IsPool-done p n (Reach-IsPool core_threads max_threads max_queue_size p h r) told joined
