-- ===== src/Pool/Singleton.antt =====
-- rpc_src/thread_pool/thread_pool_singleton: ThreadPoolSingleton, the one pool of the process or none.
-- Its mutex makes each operation one step; the pool's own threads run on during the waiting of
-- shutdown. `hardware` is what std::thread::hardware_concurrency answers.
pub mod Working
pub mod Released
mod Tests
use my_rpc_project_v.Base.{
  ℕ, zero, suc, ◌+◌, ◌≤◌, ◌≡◌, ◌⊎◌, ◌∙◌, ◌++◌, inl, inr, refl, sym, ap, arith, subst, List, [], ◌∷◌,
  Option, none, some, Bool, true, false, not, length, if◌then◌else◌, ◌==◌, Bool-cases, Option-cases,
  ◌&&◌,
}
use my_rpc_project_v.Pool.{
  Pool, Task, ThreadPoolState, stopped, Step, create, enqueue, take_task, start_task, finish_task,
  retire, leave, pause, resume, shutdown_begin, shutdown_end, shutdown_timeout, stop_now, closing,
  closed, gave_up, cut_off, enqueued, paused_now, resumed,
}
use my_rpc_project_v.Pool.Invariant.{IsPool, count, create-IsPool}
use my_rpc_project_v.Pool.History.{Step-IsPool}

-- ThreadPoolStruct without the times.
pub record ThreadPoolStruct : Type 0 where
  pub core_threads : ℕ
  pub max_threads : ℕ
  pub max_queue_size : ℕ

-- The two constructors of ThreadPool.
unfoldable pub fixed_pool : ℕ → Pool
unfolding create
fixed_pool threads = create threads threads 0

unfoldable pub config_pool : ThreadPoolStruct → Pool
unfolding create
config_pool config = create config.core_threads config.max_threads config.max_queue_size

-- init with a number of threads, or with a configuration: the pool to make is the argument.
unfoldable pub init : Pool → Option Pool → Option Pool × Bool
init made none = (some made, true)
init made (some p) = (some p, false)

-- getInstance, of both kinds, with the instance that it returns.
unfoldable pub get_instance : Pool → Option Pool → Option Pool × Pool
get_instance made none = (some made, made)
get_instance made (some p) = (some p, p)

-- ThreadPool::get_stats, less the average, which is a floating-point number. tasks_failed_ is never
-- raised.
pub record Stats : Type 0 where
  pub tasks_completed : ℕ
  pub tasks_failed : ℕ
  pub active_threads : ℕ

unfoldable pub pool_stats : Pool → Stats
pool_stats p = record {
  tasks_completed = p.tasks_completed;
  tasks_failed = 0;
  active_threads = length p.active;
}

unfoldable pub get_stats : Option Pool → Stats
unfolding pool_stats
get_stats none = record { tasks_completed = 0; tasks_failed = 0; active_threads = 0 }
get_stats (some p) = pool_stats p

unfoldable pub get_queue_size : Option Pool → ℕ
get_queue_size none = 0
get_queue_size (some p) = length p.tasks

unfoldable pub pause_instance : Option Pool → Option Pool × Bool
unfolding pause
pause_instance none = (none, false)
pause_instance (some p) = (some (pause p), true)

unfoldable pub resume_instance : Option Pool → Option Pool × Bool
unfolding resume
resume_instance none = (none, false)
resume_instance (some p) = (some (resume p), true)

unfoldable pub exists : Option Pool → Bool
exists none = false
exists (some p) = true

unfoldable pub get_state : Option Pool → ThreadPoolState
get_state none = stopped
get_state (some p) = p.state

-- What has become of the pool when the waiting of shutdown, and the join behind it, are over.
pub data Ended : Type 0 where
  joined timed_out : Pool → Ended

abbrev pub after_wait : Ended → Option Pool × Bool × List Pool
after_wait (joined q) = (none, true, q ∷ [])
after_wait (timed_out q) = (some q, false, [])

-- shutdown, with the pools that it releases.
unfoldable pub shutdown : Ended → Option Pool → Option Pool × Bool × List Pool
unfolding shutdown_begin
shutdown ended none = (none, true, [])
shutdown ended (some p) = elim (shutdown_begin p).1 [
  | some true ↦ (none, true, p ∷ [])
  | some false ↦ (some p, false, [])
  | none ↦ after_wait ended
]

-- destroy, with the pool that it releases as it is after the join of stop_now.
unfoldable pub destroy : Pool → Option Pool → Option Pool × List Pool
destroy after none = (none, [])
destroy after (some p) = (none, after ∷ [])

-- What the workers do, and callers of enqueue.
pub data Work : Pool → Pool → Type 0 where
  enqueues :
      {p q : Pool} (thread_starts accepted : Bool) (task : Task)
      → enqueue thread_starts task p ≡ some (q, accepted)
      → Work p q
  takes : {p q : Pool} (i : ℕ) → take_task i p ≡ some q → Work p q
  starts : {p q : Pool} (i : ℕ) → start_task i p ≡ some q → Work p q
  ends : {p q : Pool} (i : ℕ) → finish_task i p ≡ some q → Work p q
  retires : {p q : Pool} → retire p ≡ some q → Work p q
  leaves : {p q : Pool} → leave p ≡ some q → Work p q

pub data Works (p : Pool) : Pool → Type 0 where
  idle : Works p p
  then_work : {q r : Pool} → Works p q → Work q r → Works p r

-- How the waiting of shutdown can end.
pub data Ran (p : Pool) : Ended → Type 0 where
  ran_joined :
      {p2 p3 q : Pool}
      → Works (shutdown_begin p).0 p2
      → shutdown_end p2 ≡ some p3
      → Works p3 q
      → q.alive ≡ 0
      → Ran p (joined q)
  ran_out :
      {p2 q : Pool}
      → Works (shutdown_begin p).0 p2
      → shutdown_timeout p2 ≡ some q
      → Ran p (timed_out q)

-- The instance, and the pools that have been released.
abbrev pub Single : Type 0
Single = Option Pool × List Pool

-- A pool that is asked for has a core not above its maximum.
pub data Use : Single → Single → Type 0 where
  inits :
      {s : Option Pool} {r : List Pool} (config : ThreadPoolStruct)
      → config.core_threads ≤ config.max_threads
      → Use (s, r) ((init (config_pool config) s).0, r)
  gets :
      {s : Option Pool} {r : List Pool} (hardware : ℕ)
      → Use (s, r) ((get_instance (fixed_pool hardware) s).0, r)
  works : {p q : Pool} {r : List Pool} → Work p q → Use (some p, r) (some q, r)
  pauses : {s : Option Pool} {r : List Pool} → Use (s, r) ((pause_instance s).0, r)
  resumes : {s : Option Pool} {r : List Pool} → Use (s, r) ((resume_instance s).0, r)
  shuts :
      {p : Pool} {r : List Pool} (ended : Ended)
      → Ran p ended
      → Use (some p, r) ((shutdown ended (some p)).0, (shutdown ended (some p)).2 ++ r)
  destroys :
      {p q : Pool} {r : List Pool}
      → Works (stop_now p) q
      → q.alive ≡ 0
      → Use (some p, r) ((destroy q (some p)).0, (destroy q (some p)).1 ++ r)

pub data Uses : Single → Type 0 where
  unused : Uses (none, [])
  then_use : {s t : Single} → Uses s → Use s t → Uses t
