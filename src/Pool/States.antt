-- ===== src/Pool/States.antt =====
-- The steps of the threads and of the state keep the invariant.
use my_rpc_project_v.Base.{
  ℕ, zero, suc, ◌+◌, ◌-◌, ◌≡◌, refl, ap, subst, arith, [], some, true, false, length, ltb,
  Bool-cases, ◌⊎◌, inl, inr, ◌&&◌, ◌||◌, not,
}
use my_rpc_project_v.Pool.{
  Pool, ThreadPoolState, running, paused, shutting_down, stopped, has_idle, has_task, retire, leave,
  pause, resume, shutdown_begin, shutdown_end, shutdown_timeout, stop_now, is_stopped,
}
use my_rpc_project_v.Pool.Invariant.{IsPool, count-append}

pub retire-IsPool : (p q : Pool) → retire p ≡ some q → IsPool p → IsPool q
unfolding retire has_idle
retire-IsPool p q e v =
    elim (Bool-cases (
      ltb (length p.held + length p.active) p.alive
      && (not (has_task p) && ltb p.core_threads p.current_threads))) [
        | inr stays ↦ absurd (ground (arith, e, stays))
        | inl goes ↦
            subst (λ x. IsPool x)
              {x = record p { current_threads = p.current_threads - 1; alive = p.alive - 1 }}
              {y = q} (ground (arith, e, goes))
              (record {
                conserved = v.conserved;
                queue_bound = v.queue_bound;
                employed = ground (arith, goes);
                core_kept = ground (arith, goes);
                max_kept = omega (arith, v.max_kept);
                halted = v.halted;
                counted = v.counted;
              })
      ]

pub leave-IsPool : (p q : Pool) → leave p ≡ some q → IsPool p → IsPool q
unfolding leave has_idle
leave-IsPool p q e v =
    elim (Bool-cases
      (ltb (length p.held + length p.active) p.alive && (p.stop || is_stopped p.state))) [
        | inr stays ↦ absurd (ground (arith, e, stays))
        | inl goes ↦
            subst (λ x. IsPool x) {x = record p { alive = p.alive - 1 }} {y = q}
              (ground (arith, e, goes))
              (record {
                conserved = v.conserved;
                queue_bound = v.queue_bound;
                employed = ground (arith, goes);
                core_kept = v.core_kept;
                max_kept = v.max_kept;
                halted = v.halted;
                counted = v.counted;
              })
      ]

-- A change of the state of a pool that runs on.
state-IsPool :
    (state : ThreadPoolState) (waiting : ℕ) (p : Pool)
    → p.stop ≡ false
    → IsPool p
    → IsPool (record p { state = state; waiting = waiting })
state-IsPool state waiting p going v = record {
  conserved = v.conserved;
  queue_bound = v.queue_bound;
  employed = v.employed;
  core_kept = v.core_kept;
  max_kept = v.max_kept;
  halted = λ e. absurd (ground (arith, e, going));
  counted = v.counted;
}

-- A pool in another state than stopped has not been told to stop.
not_stopped : (p : Pool) → IsPool p → is_stopped p.state ≡ false → p.stop ≡ false
not_stopped p v h = elim (Bool-cases p.stop) [
  | inr going ↦ going
  | inl told ↦ absurd (ground (arith, h, (v.halted told).1))
]

State-cases :
    (s : ThreadPoolState) → (s ≡ running) ⊎ ((s ≡ paused) ⊎ ((s ≡ shutting_down) ⊎ (s ≡ stopped)))
State-cases running = inl refl
State-cases paused = inr (inl refl)
State-cases shutting_down = inr (inr (inl refl))
State-cases stopped = inr (inr (inr refl))

pub pause-IsPool : (p : Pool) → IsPool p → IsPool (pause p)
unfolding pause
pause-IsPool p v = elim (State-cases p.state) [
  | inl s ↦
      subst (λ x. IsPool x) {x = record p { state = paused }} {y = pause p} (ground (arith, s))
        (state-IsPool paused p.waiting p (not_stopped p v (ap is_stopped s)) v)
  | inr other ↦ subst (λ x. IsPool x) {x = p} {y = pause p} (ground (arith, other)) v
]

pub resume-IsPool : (p : Pool) → IsPool p → IsPool (resume p)
unfolding resume
resume-IsPool p v = elim (State-cases p.state) [
  | inr (inl s) ↦
      subst (λ x. IsPool x) {x = record p { state = running }} {y = resume p} (ground (arith, s))
        (state-IsPool running p.waiting p (not_stopped p v (ap is_stopped s)) v)
  | inl s ↦ subst (λ x. IsPool x) {x = p} {y = resume p} (ground (arith, s)) v
  | inr (inr other) ↦ subst (λ x. IsPool x) {x = p} {y = resume p} (ground (arith, other)) v
]

pub begin-IsPool : (p : Pool) → IsPool p → IsPool (shutdown_begin p).0
unfolding shutdown_begin
begin-IsPool p v = elim (State-cases p.state) [
  | inl s ↦
      subst (λ x. IsPool x) {x = record p { state = shutting_down; waiting = p.waiting + 1 }}
        {y = (shutdown_begin p).0} (ground (arith, s))
        (state-IsPool shutting_down (p.waiting + 1) p (not_stopped p v (ap is_stopped s)) v)
  | inr other ↦ subst (λ x. IsPool x) {x = p} {y = (shutdown_begin p).0} (ground (arith, other)) v
]

-- A stopped pool with no task in its queue, whoever still waits.
halted-IsPool :
    (waiting : ℕ) (p : Pool)
    → p.tasks ≡ []
    → IsPool p
    → IsPool (record p { state = stopped; stop = true; waiting = waiting })
halted-IsPool waiting p empty v = record {
  conserved = v.conserved;
  queue_bound = v.queue_bound;
  employed = v.employed;
  core_kept = v.core_kept;
  max_kept = v.max_kept;
  halted = λ _. (empty, refl);
  counted = v.counted;
}

waiting-IsPool : (waiting : ℕ) (p : Pool) → IsPool p → IsPool (record p { waiting = waiting })
waiting-IsPool waiting p v = record {
  conserved = v.conserved;
  queue_bound = v.queue_bound;
  employed = v.employed;
  core_kept = v.core_kept;
  max_kept = v.max_kept;
  halted = v.halted;
  counted = v.counted;
}

Nat-cases : (n : ℕ) → (n ≡ 0) ⊎ ((m : ℕ) × (n ≡ suc m))
Nat-cases zero = inl refl
Nat-cases (suc m) = inr (m, refl)

pub end-IsPool : (p q : Pool) → shutdown_end p ≡ some q → IsPool p → IsPool q
unfolding shutdown_end
end-IsPool p q e v = elim (Nat-cases p.waiting) [
  | inl none_waits ↦ absurd (ground (arith, e, none_waits))
  | inr (others, w) ↦
      subst (λ x. IsPool x) {x = record p { state = stopped; stop = true; waiting = others }}
        {y = q} (ground (arith, e, w)) (halted-IsPool others p (ground (arith, e, w)) v)
]

pub timeout-IsPool : (p q : Pool) → shutdown_timeout p ≡ some q → IsPool p → IsPool q
unfolding shutdown_timeout
timeout-IsPool p q e v = elim (Nat-cases p.waiting) [
  | inl none_waits ↦ absurd (ground (arith, e, none_waits))
  | inr (others, w) ↦
      subst (λ x. IsPool x) {x = record p { waiting = others }} {y = q} (ground (arith, e, w))
        (waiting-IsPool others p v)
]

pub stop_now-IsPool : (p : Pool) → IsPool p → IsPool (stop_now p)
unfolding stop_now
stop_now-IsPool p v = record {
  conserved = λ n. omega (arith, v.conserved n, count-append n p.tasks p.discarded);
  queue_bound = λ _. omega arith;
  employed = v.employed;
  core_kept = v.core_kept;
  max_kept = v.max_kept;
  halted = λ _. (refl, refl);
  counted = v.counted;
}
