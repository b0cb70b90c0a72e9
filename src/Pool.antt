-- ===== src/Pool.antt =====
-- rpc_src/thread_pool/thread_pool: ThreadPool. Each function is one critical section or one atomic
-- change, and Step runs them in any order. A task is its number and its priority; its work is done
-- between `start_task` and `finish_task`. Which worker does what is left open, only their number is
-- kept, and so is time: a timeout may come whenever the code allows it.
pub mod Invariant
pub mod Steps
pub mod States
pub mod History
pub mod Progress
pub mod Unstaffed
pub mod Singleton
mod Tests
use my_rpc_project_v.Base.{
  ℕ, zero, suc, ◌+◌, ◌-◌, List, [], ◌∷◌, ◌++◌, Option, none, some, Bool, true, false, not, ◌&&◌,
  ◌||◌, length, ltb, leb, ◌==◌, if◌then◌else◌, ◌≡◌,
}

pub data TaskPriority : Type 0 where
  low normal high : TaskPriority

pub data ThreadPoolState : Type 0 where
  running paused shutting_down stopped : ThreadPoolState

pub record Task : Type 0 where
  pub number : ℕ
  pub priority : TaskPriority

pub record Pool : Type 0 where
  pub core_threads : ℕ
  pub max_threads : ℕ
  pub max_queue_size : ℕ
  pub stop : Bool
  pub state : ThreadPoolState
  pub tasks : List Task
  -- Taken from the queue, and not counted as active yet.
  pub held : List Task
  -- active_threads_ is their number.
  pub active : List Task
  pub current_threads : ℕ
  pub tasks_completed : ℕ
  -- The threads that have not returned, which join waits for.
  pub alive : ℕ
  -- The calls of shutdown that wait for the tasks.
  pub waiting : ℕ
  -- What has become of the tasks: accepted by enqueue, done, thrown away by stop_now.
  pub accepted : List Task
  pub finished : List Task
  pub discarded : List Task

-- The pool behind its second constructor. The first one is the case of no limit on the queue and of
-- as many threads at most as at first.
unfoldable pub create : ℕ → ℕ → ℕ → Pool
create core_threads max_threads max_queue_size = record {
  core_threads = core_threads;
  max_threads = max_threads;
  max_queue_size = max_queue_size;
  stop = false;
  state = running;
  tasks = [];
  held = [];
  active = [];
  current_threads = core_threads;
  tasks_completed = 0;
  alive = core_threads;
  waiting = 0;
  accepted = [];
  finished = [];
  discarded = [];
}

-- A thread can be started, or std::thread throws.
unfoldable pub adjust_thread_count : Bool → Pool → Pool
adjust_thread_count thread_starts p =
    if ltb p.current_threads p.max_threads && ltb (length p.active) (length p.tasks)
    then if thread_starts
      then record p { current_threads = p.current_threads + 1; alive = p.alive + 1 }
      else p
    else p

unfoldable pub is_full : Pool → Bool
is_full p = ltb 0 p.max_queue_size && leb p.max_queue_size (length p.tasks)

-- enqueue: `none` while it waits for room; the result says whether the future is valid.
unfoldable pub enqueue : Bool → Task → Pool → Option (Pool × Bool)
unfolding is_full
enqueue thread_starts task p =
    if p.stop
    then some (p, false)
    else if is_full p
    then none
    else some (
      adjust_thread_count thread_starts
          (record p { tasks = task ∷ p.tasks; accepted = task ∷ p.accepted }),
      true,
    )

abbrev pub rank : TaskPriority → ℕ
rank low = 0
rank normal = 1
rank high = 2

-- No task of the list comes before one of this priority.
unfoldable pub none_above : TaskPriority → List Task → Bool
none_above priority [] = true
none_above priority (t ∷ ts) = leb (rank t.priority) (rank priority) && none_above priority ts

-- The element at a place, and the others.
unfoldable pub pick : ℕ → List Task → Option (Task × List Task)
pick i [] = none
pick zero (t ∷ ts) = some (t, ts)
pick (suc i) (t ∷ ts) = elim (pick i ts) [ none ↦ none | some (u, us) ↦ some (u, t ∷ us) ]

abbrev pub is_paused : ThreadPoolState → Bool
is_paused paused = true
is_paused _ = false

abbrev pub is_stopped : ThreadPoolState → Bool
is_stopped stopped = true
is_stopped _ = false

-- A worker without a task.
unfoldable pub has_idle : Pool → Bool
has_idle p = ltb (length p.held + length p.active) p.alive

-- The top of the queue goes to an idle worker. It is the task at place `i`, where no other has a
-- higher priority; `none` where the step is not possible.
unfoldable pub take_task : ℕ → Pool → Option Pool
unfolding has_idle
take_task i p = if not (has_idle p) || is_paused p.state then none else elim (pick i p.tasks) [
  | none ↦ none
  | some (t, ts) ↦
      if none_above t.priority p.tasks
      then some (record p { tasks = ts; held = t ∷ p.held })
      else none
]

-- active_threads_++
unfoldable pub start_task : ℕ → Pool → Option Pool
start_task i p = elim (pick i p.held) [
  | none ↦ none
  | some (t, ts) ↦ some (record p { held = ts; active = t ∷ p.active })
]

-- The packaged_task keeps what its function throws, so execute returns and the task counts as
-- completed; then active_threads_--.
unfoldable pub finish_task : ℕ → Pool → Option Pool
finish_task i p = elim (pick i p.active) [
  | none ↦ none
  | some (t, ts) ↦
      some (record p {
        active = ts;
        tasks_completed = p.tasks_completed + 1;
        finished = t ∷ p.finished;
      })
]

-- The condition that workers wait for.
unfoldable pub has_task : Pool → Bool
has_task p = p.stop || elim p.tasks [
  | [] ↦ false
  | t ∷ ts ↦ elim p.state [ running ↦ true | shutting_down ↦ true | _ ↦ false ]
]

-- An idle worker above the core returns when its waiting has timed out.
unfoldable pub retire : Pool → Option Pool
unfolding has_idle
retire p =
    if has_idle p && (not (has_task p) && ltb p.core_threads p.current_threads)
    then some (record p { current_threads = p.current_threads - 1; alive = p.alive - 1 })
    else none

-- An idle worker returns from a pool that is stopped.
unfoldable pub leave : Pool → Option Pool
unfolding has_idle
leave p = elim p.tasks [
  | t ∷ ts ↦ none
  | [] ↦
      if has_idle p && (p.stop || is_stopped p.state)
      then some (record p { alive = p.alive - 1 })
      else none
]

unfoldable pub pause : Pool → Pool
pause p = elim p.state [ running ↦ record p { state = paused } | _ ↦ p ]

unfoldable pub resume : Pool → Pool
resume p = elim p.state [ paused ↦ record p { state = running } | _ ↦ p ]

-- The first part of shutdown: whether it goes on to wait, or what it returns at once.
unfoldable pub shutdown_begin : Pool → Pool × Option Bool
shutdown_begin p = elim p.state [
  | running ↦ (record p { state = shutting_down; waiting = p.waiting + 1 }, none)
  | stopped ↦ (p, some true)
  | _ ↦ (p, some false)
]

-- The waiting ends by its condition; the caller joins the threads and returns true.
unfoldable pub shutdown_end : Pool → Option Pool
shutdown_end p = elim p.waiting [
  | zero ↦ none
  | suc others ↦ elim p.tasks [
    | t ∷ ts ↦ none
    | [] ↦ elim p.active [
      | t ∷ ts ↦ none
      | [] ↦ some (record p { state = stopped; stop = true; waiting = others })
    ]
  ]
]

-- The waiting times out, and shutdown returns false.
unfoldable pub shutdown_timeout : Pool → Option Pool
shutdown_timeout p = elim p.waiting [
  | zero ↦ none
  | suc others ↦ some (record p { waiting = others })
]

-- The part of stop_now in front of its join; the destructor does the same where the pool is not
-- stopped.
unfoldable pub stop_now : Pool → Pool
stop_now p = record p {
  state = stopped;
  stop = true;
  tasks = [];
  discarded = p.tasks ++ p.discarded;
}

-- Any thread may do any of these next.
pub data Step : Pool → Pool → Type 0 where
  enqueued :
      {p q : Pool} (thread_starts accepted : Bool) (task : Task)
      → enqueue thread_starts task p ≡ some (q, accepted)
      → Step p q
  took : {p q : Pool} (i : ℕ) → take_task i p ≡ some q → Step p q
  started : {p q : Pool} (i : ℕ) → start_task i p ≡ some q → Step p q
  ended : {p q : Pool} (i : ℕ) → finish_task i p ≡ some q → Step p q
  retired : {p q : Pool} → retire p ≡ some q → Step p q
  left : {p q : Pool} → leave p ≡ some q → Step p q
  paused_now : {p q : Pool} → pause p ≡ q → Step p q
  resumed : {p q : Pool} → resume p ≡ q → Step p q
  closing : {p q : Pool} → (shutdown_begin p).0 ≡ q → Step p q
  closed : {p q : Pool} → shutdown_end p ≡ some q → Step p q
  gave_up : {p q : Pool} → shutdown_timeout p ≡ some q → Step p q
  cut_off : {p q : Pool} → stop_now p ≡ q → Step p q

pub data Reach (p : Pool) : Pool → Type 0 where
  here : Reach p p
  next : {q r : Pool} → Reach p q → Step q r → Reach p r
