-- ===== src/Pool/Singleton/Released.antt =====
-- What is known of the one pool, and of those that were released.
use my_rpc_project_v.Base.{
  ℕ, ◌+◌, ◌≤◌, ◌≡◌, ◌∙◌, refl, ap, arith, List, [], ◌∷◌, ◌++◌, Option, none, some, Bool, true,
  false, All,
}
use my_rpc_project_v.Pool.{
  Pool, closing, closed, gave_up, cut_off, is_stopped, paused_now, resumed, create, pause, resume,
  shutdown_begin, shutdown_end, shutdown_timeout, stop_now,
}
use my_rpc_project_v.Pool.Invariant.{IsPool, count, create-IsPool}
use my_rpc_project_v.Pool.History.{Step-IsPool, IsPool-done}
use my_rpc_project_v.Pool.Singleton.{
  fixed_pool, config_pool, init, get_instance, pause_instance, resume_instance, Ended, joined,
  timed_out, after_wait, shutdown, destroy, Work, Works, Ran, ran_joined, ran_out, Single, Use,
  inits, gets, works, pauses, resumes, shuts, destroys, Uses, unused, then_use,
}
use my_rpc_project_v.Pool.Singleton.Working.{Work-Step, Work-Same, Works-Same, Works-IsPool}

-- The instance between two operations.
pub record IsOpen (p : Pool) : Type 0 where
  pub pool : IsPool p
  pub going : p.stop ≡ false
  pub not_stopped : is_stopped p.state ≡ false

-- A pool that is released: told to stop, and its threads joined.
record IsReleased (p : Pool) : Type 0 where
  pub pool : IsPool p
  pub told : p.stop ≡ true
  pub left_all : p.alive ≡ 0

abbrev pub IsInstance : Option Pool → Type 0
IsInstance none = Unit
IsInstance (some p) = IsOpen p

abbrev IsSingle : Single → Type 0
IsSingle (s, released) = IsInstance s × All IsReleased released

create-IsOpen : (core most queue : ℕ) → core ≤ most → IsOpen (create core most queue)
unfolding create
create-IsOpen core most queue h = record {
  pool = create-IsPool core most queue h;
  going = refl;
  not_stopped = refl;
}

Work-IsOpen : (p q : Pool) → Work p q → IsOpen p → IsOpen q
Work-IsOpen p q w o =
    let (stop, state) = Work-Same w in
    record {
      pool = Step-IsPool (Work-Step w) o.pool;
      going = stop ∙ o.going;
      not_stopped = ap is_stopped state ∙ o.not_stopped;
    }

pause-IsOpen : (p : Pool) → IsOpen p → IsOpen (pause p)
unfolding pause
pause-IsOpen p o = record {
  pool = Step-IsPool (paused_now refl) o.pool;
  going = ground (arith, o.going);
  not_stopped = ground (arith, o.not_stopped);
}

resume-IsOpen : (p : Pool) → IsOpen p → IsOpen (resume p)
unfolding resume
resume-IsOpen p o = record {
  pool = Step-IsPool (resumed refl) o.pool;
  going = ground (arith, o.going);
  not_stopped = ground (arith, o.not_stopped);
}

joined-IsReleased :
    (p p2 p3 q : Pool)
    → Works (shutdown_begin p).0 p2
    → shutdown_end p2 ≡ some p3
    → Works p3 q
    → q.alive ≡ 0
    → IsOpen p
    → IsReleased q
unfolding shutdown_end
joined-IsReleased p p2 p3 q before e after none_left o = record {
  pool =
      Works-IsPool after
        (Step-IsPool (closed e) (Works-IsPool before (Step-IsPool (closing refl) o.pool)));
  told = (Works-Same after).0 ∙ ground (arith, e);
  left_all = none_left;
}

timed_out-IsOpen :
    (p p2 q : Pool)
    → Works (shutdown_begin p).0 p2
    → shutdown_timeout p2 ≡ some q
    → IsOpen p
    → IsOpen q
unfolding shutdown_timeout shutdown_begin
timed_out-IsOpen p p2 q before e o =
    let (stop, state) = Works-Same before in
    record {
      pool = Step-IsPool (gave_up e) (Works-IsPool before (Step-IsPool (closing refl) o.pool));
      going = ground (arith, e, stop, o.going);
      not_stopped = ground (arith, e, state, o.not_stopped);
    }

stop_now-IsReleased : (p q : Pool) → Works (stop_now p) q → q.alive ≡ 0 → IsPool p → IsReleased q
unfolding stop_now
stop_now-IsReleased p q after none_left v = record {
  pool = Works-IsPool after (Step-IsPool (cut_off refl) v);
  told = (Works-Same after).0;
  left_all = none_left;
}

begin_never : (p : Pool) → IsOpen p → (shutdown_begin p).1 ≡ some true → ⊥
unfolding shutdown_begin
begin_never p o e = ground (arith, e, o.not_stopped)

shutdown-IsSingle :
    (p : Pool) (outcome : Ended) (released : List Pool)
    → Ran p outcome
    → IsOpen p
    → All IsReleased released
    → IsSingle ((shutdown outcome (some p)).0, (shutdown outcome (some p)).2 ++ released)
unfolding shutdown
shutdown-IsSingle p outcome released ran o done = by_begin (shutdown_begin p).1 refl outcome ran
  where
    never : (shutdown_begin p).1 ≡ some true → ⊥
    never = begin_never p o

    by_begin :
        (b : Option Bool)
        → (shutdown_begin p).1 ≡ b
        → (outcome : Ended) → Ran p outcome
        → let o : Option Pool × Bool × List Pool = elim b [
          | some true ↦ (none, true, p ∷ [])
          | some false ↦ (some p, false, [])
          | none ↦ after_wait outcome
        ] in
          IsSingle (o.0, o.2 ++ released)
    by_begin (some true) e outcome ran = absurd (never e)
    by_begin (some false) e outcome ran = (o, done)
    by_begin none e (joined q) (ran_joined {p2} {p3} before f after none_left) =
        (tt, (joined-IsReleased p p2 p3 q before f after none_left o, done))
    by_begin none e (timed_out q) (ran_out {p2} before f) =
        (timed_out-IsOpen p p2 q before f o, done)

Use-IsSingle : {s t : Single} → Use s t → IsSingle s → IsSingle t
unfolding init get_instance pause_instance resume_instance destroy config_pool fixed_pool
Use-IsSingle (inits {s = none} {r} config h) (o, done) =
    (create-IsOpen config.core_threads config.max_threads config.max_queue_size h, done)
Use-IsSingle (inits {s = some p} {r} config h) (o, done) = (o, done)
Use-IsSingle (gets {s = none} {r} hardware) (o, done) =
    (create-IsOpen hardware hardware 0 (omega arith), done)
Use-IsSingle (gets {s = some p} {r} hardware) (o, done) = (o, done)
Use-IsSingle (works {p} {q} {r} w) (o, done) = (Work-IsOpen p q w o, done)
Use-IsSingle (pauses {s = none} {r}) (o, done) = (o, done)
Use-IsSingle (pauses {s = some p} {r}) (o, done) = (pause-IsOpen p o, done)
Use-IsSingle (resumes {s = none} {r}) (o, done) = (o, done)
Use-IsSingle (resumes {s = some p} {r}) (o, done) = (resume-IsOpen p o, done)
Use-IsSingle (shuts {p} {r} outcome ran) (o, done) = shutdown-IsSingle p outcome r ran o done
Use-IsSingle (destroys {p} {q} {r} after none_left) (o, done) =
    (tt, (stop_now-IsReleased p q after none_left o.pool, done))

Uses-IsSingle : {s : Single} → Uses s → IsSingle s
Uses-IsSingle unused = (tt, tt)
Uses-IsSingle (then_use us u) = Use-IsSingle u (Uses-IsSingle us)

abbrev pub Accounted : Pool → Type 0
Accounted p = (n : ℕ) → count n p.accepted ≡ count n p.finished + count n p.discarded

-- However the pool of the process is made, used, shut down, destroyed and made again: the instance
-- keeps the invariant of a pool and has not been told to stop, and in every pool that was released
-- each accepted task is done or was thrown away.
pub Uses-Accounted :
    (s : Option Pool) (released : List Pool)
    → Uses (s, released)
    → IsInstance s × All Accounted released
Uses-Accounted s released us = let (o, done) = Uses-IsSingle us in (o, accounted released done)
  where
    accounted : (released : List Pool) → All IsReleased released → All Accounted released
    accounted [] done = tt
    accounted (q ∷ released) (d, done) =
        ((λ n. IsPool-done q n d.pool d.told d.left_all), accounted released done)
