-- ===== src/Pool/Singleton/Tests.antt =====
-- The one pool is made, given a task, and shut down; then it is made again by an enqueue.
use my_rpc_project_v.Base.{◌≡◌, refl, arith, [], ◌∷◌, none, some, true, false, All}
use my_rpc_project_v.Pool.{
  Pool, Task, normal, running, stopped, create, adjust_thread_count, is_full, enqueue, none_above,
  pick, has_idle, take_task, start_task, finish_task, leave, shutdown_begin, shutdown_end, Reach,
  here, next, enqueued,
}
use my_rpc_project_v.Pool.Unstaffed.{no_threads_no_work}
use my_rpc_project_v.Pool.Singleton.{
  ThreadPoolStruct, config_pool, fixed_pool, init, get_instance, shutdown, joined, idle, then_work,
  enqueues, takes, starts, ends, leaves, ran_joined, inits, works, shuts, Uses, unused, then_use,
}
use my_rpc_project_v.Pool.Singleton.Released.{IsInstance, Accounted, Uses-Accounted}

abbrev chore : Task
chore = record { number = 7; priority = normal }

abbrev one_thread : ThreadPoolStruct
one_thread = record { core_threads = 1; max_threads = 1; max_queue_size = 2 }

abbrev new_pool : Pool
new_pool = record {
  core_threads = 1;
  max_threads = 1;
  max_queue_size = 2;
  stop = false;
  state = running;
  tasks = [];
  held = [];
  active = [];
  current_threads = 1;
  tasks_completed = 0;
  alive = 1;
  waiting = 0;
  accepted = [];
  finished = [];
  discarded = [];
}

abbrev done_pool : Pool
done_pool = record new_pool {
  stop = true;
  state = stopped;
  tasks_completed = 1;
  alive = 0;
  accepted = chore ∷ [];
  finished = chore ∷ [];
}

abbrev given : Pool
given = record new_pool { tasks = chore ∷ []; accepted = chore ∷ [] }

shut_down : Uses (none, done_pool ∷ [])
unfolding config_pool create init shutdown enqueue is_full adjust_thread_count shutdown_begin
    take_task none_above pick has_idle start_task finish_task shutdown_end leave
shut_down =
    then_use
      (then_use (then_use unused (inits one_thread (omega arith)))
        (works {q = given} (enqueues true true chore refl)))
      (shuts (joined done_pool) (
        ran_joined
          (then_work (then_work (then_work idle (takes 0 refl)) (starts 0 refl)) (ends 0 refl)) refl
          (then_work idle (leaves refl)) refl))

Uses-Accounted_example : IsInstance none × All Accounted (done_pool ∷ [])
Uses-Accounted_example = Uses-Accounted none (done_pool ∷ []) shut_down

-- After the shutdown an enqueue asks for the instance, and a second pool is made.
made_again : (get_instance (fixed_pool 4) none).0 ≡ some (create 4 4 0)
unfolding get_instance fixed_pool
made_again = refl

abbrev stuck : Pool
stuck = record new_pool {
  core_threads = 0;
  max_threads = 0;
  max_queue_size = 0;
  current_threads = 0;
  alive = 0;
  tasks = chore ∷ [];
  accepted = chore ∷ [];
}

stuck_reached : Reach (create 0 0 0) stuck
unfolding create enqueue is_full adjust_thread_count
stuck_reached = next here (enqueued true true chore refl)

no_threads_no_work_example : stuck.finished ≡ []
no_threads_no_work_example = no_threads_no_work 0 stuck stuck_reached
