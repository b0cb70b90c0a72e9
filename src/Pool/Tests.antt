-- ===== src/Pool/Tests.antt =====
-- A pool of one thread, and its tasks.
use my_rpc_project_v.Base.{ℕ, ◌+◌, ◌≡◌, refl, arith, [], ◌∷◌, none, some, true, false, All, ◌≤◌}
use my_rpc_project_v.Pool.{
  Pool, Task, rank, normal, high, running, create, adjust_thread_count, enqueue, none_above, pick,
  has_idle, take_task, start_task, finish_task, leave, shutdown_begin, shutdown_end, Reach, here,
  next, enqueued, took, started, ended, left, closing, closed, stopped,
}
use my_rpc_project_v.Pool.Invariant.{IsPool, count}
use my_rpc_project_v.Pool.History.{Reach-IsPool, stopped_pool_done}
use my_rpc_project_v.Pool.Progress.{take_task_possible}

abbrev chore : Task
chore = record { number = 7; priority = normal }

abbrev alarm : Task
alarm = record { number = 8; priority = high }

abbrev idle_pool : Pool
idle_pool = record {
  core_threads = 1;
  max_threads = 1;
  max_queue_size = 2;
  stop = false;
  state = running;
  tasks = [];
  held = [];
  active = [];
  current_threads = 1;
  tasks_completed = 0;
  alive = 1;
  waiting = 0;
  accepted = [];
  finished = [];
  discarded = [];
}

abbrev two_waiting : Pool
two_waiting = record idle_pool { tasks = alarm ∷ chore ∷ []; accepted = alarm ∷ chore ∷ [] }

-- The queue is full, so a third task waits.
third_waits : enqueue true chore two_waiting ≡ none
unfolding enqueue
third_waits = refl

low_one_refused : take_task 1 two_waiting ≡ none
unfolding take_task none_above pick
low_one_refused = refl

two_held : Reach (create 1 1 2) (record two_waiting { tasks = chore ∷ []; held = alarm ∷ [] })
unfolding create enqueue adjust_thread_count take_task none_above pick
two_held =
    next (next (next here (enqueued true true chore refl)) (enqueued true true alarm refl))
      (took 0 refl)

Reach-IsPool_example : IsPool (record two_waiting { tasks = chore ∷ []; held = alarm ∷ [] })
Reach-IsPool_example =
    Reach-IsPool 1 1 2 (record two_waiting { tasks = chore ∷ []; held = alarm ∷ [] }) (omega arith)
      two_held

-- One task is done, and shutdown has joined the thread.
abbrev over : Pool
over = record idle_pool {
  stop = true;
  state = stopped;
  tasks_completed = 1;
  alive = 0;
  accepted = chore ∷ [];
  finished = chore ∷ [];
}

over_reached : Reach (create 1 1 2) over
unfolding create enqueue adjust_thread_count take_task none_above pick start_task finish_task
    shutdown_begin shutdown_end leave
over_reached =
    next
      (next
        (next
          (next
            (next (next (next here (enqueued true true chore refl)) (took 0 refl)) (closing refl))
            (started 0 refl))
          (ended 0 refl))
        (closed refl))
      (left refl)

stopped_pool_done_example :
    (count 7 over.accepted ≡ count 7 over.finished + count 7 over.discarded)
    × (over.discarded ≡ [] → count 7 over.accepted ≡ count 7 over.finished)
stopped_pool_done_example = stopped_pool_done 1 1 2 over 7 (omega arith) over_reached refl refl

waiting_idle : has_idle two_waiting ≡ true
unfolding has_idle
waiting_idle = refl

take_task_possible_example :
    ((i : ℕ) × (t : Task) × (q : Pool) × (take_task i two_waiting ≡ some q)
      × (q.held ≡ t ∷ [])
      × (none_above t.priority q.tasks ≡ true))
    × ((i : ℕ) (q : Pool)
        → take_task i two_waiting ≡ some q
        → (t : Task) × (q.held ≡ t ∷ [])
          × All (λ (u : Task). rank u.priority ≤ rank t.priority) two_waiting.tasks)
take_task_possible_example = take_task_possible two_waiting (omega arith) waiting_idle refl
