-- ===== src/Pool/Steps.antt =====
-- The steps of a task keep the invariant.
use my_rpc_project_v.Base.{
  ℕ, ◌+◌, ◌≡◌, ap, subst, arith, ◌∷◌, some, Bool, true, false, length, ltb, Bool-cases,
  Option-cases, inl, inr, ◌&&◌, ◌||◌, not,
}
use my_rpc_project_v.Pool.{
  Pool, Task, adjust_thread_count, is_full, enqueue, none_above, pick, has_idle, take_task,
  start_task, finish_task, is_paused,
}
use my_rpc_project_v.Pool.Invariant.{IsPool, pick-count}

adjust-IsPool : (b : Bool) (p : Pool) → IsPool p → IsPool (adjust_thread_count b p)
unfolding adjust_thread_count
adjust-IsPool true p v =
    elim (Bool-cases
      (ltb p.current_threads p.max_threads && ltb (length p.active) (length p.tasks))) [
        | inr enough ↦ rw enough v
        | inl room ↦ rw room (record {
          conserved = v.conserved;
          queue_bound = v.queue_bound;
          employed = omega (arith, v.employed);
          core_kept = omega (arith, v.core_kept);
          max_kept = ground (arith, room);
          halted = v.halted;
          counted = v.counted;
        })
      ]
adjust-IsPool false p v =
    elim (Bool-cases
      (ltb p.current_threads p.max_threads && ltb (length p.active) (length p.tasks))) [
        | inr enough ↦ rw enough v
        | inl room ↦ rw room v
      ]

added-IsPool :
    (task : Task) (p : Pool)
    → p.stop ≡ false
    → is_full p ≡ false
    → IsPool p
    → IsPool (record p { tasks = task ∷ p.tasks; accepted = task ∷ p.accepted })
unfolding is_full
added-IsPool task p open_pool room v = record {
  conserved = λ n. omega (arith, v.conserved n);
  queue_bound = λ limited. ground (arith, room, limited);
  employed = v.employed;
  core_kept = v.core_kept;
  max_kept = v.max_kept;
  halted = λ e. absurd (ground (arith, e, open_pool));
  counted = v.counted;
}

pub enqueue-IsPool :
    (b r : Bool) (task : Task) (p q : Pool) → enqueue b task p ≡ some (q, r) → IsPool p → IsPool q
unfolding enqueue
enqueue-IsPool b r task p q e v = elim (Bool-cases p.stop) [
  | inl shut ↦ subst (λ x. IsPool x) {x = p} {y = q} (ground (arith, e, shut)) v
  | inr open_pool ↦ elim (Bool-cases (is_full p)) [
    | inl full ↦ absurd (ground (arith, e, open_pool, full))
    | inr room ↦
        subst (λ x. IsPool x)
          {x = adjust_thread_count b
            (record p { tasks = task ∷ p.tasks; accepted = task ∷ p.accepted })}
          {y = q} (ground (arith, e, open_pool, room))
          (adjust-IsPool b (record p { tasks = task ∷ p.tasks; accepted = task ∷ p.accepted })
            (added-IsPool task p open_pool room v))
  ]
]

pub take-IsPool : (i : ℕ) (p q : Pool) → take_task i p ≡ some q → IsPool p → IsPool q
unfolding take_task has_idle
take-IsPool i p q e v = elim (Option-cases (pick i p.tasks)) [
  | inl empty ↦ absurd (ground (arith, e, empty))
  | inr ((t, ts), got) ↦
      elim (Bool-cases (not (ltb (length p.held + length p.active) p.alive) || is_paused p.state)) [
        | inl barred ↦ absurd (ground (arith, e, barred))
        | inr may ↦ elim (Bool-cases (none_above t.priority p.tasks)) [
          | inr above ↦ absurd (ground (arith, e, got, may, above))
          | inl top ↦
              subst (λ x. IsPool x) {x = record p { tasks = ts; held = t ∷ p.held }} {y = q}
                (ground (arith, e, got, may, top))
                (record {
                  conserved =
                      λ n. omega (arith, v.conserved n, (pick-count n i p.tasks ts t got).0);
                  queue_bound = λ limited.
                      omega (arith, v.queue_bound limited, (pick-count 0 i p.tasks ts t got).1);
                  employed = ground (arith, may);
                  core_kept = v.core_kept;
                  max_kept = v.max_kept;
                  halted = λ s. absurd (
                      omega (arith, (pick-count 0 i p.tasks ts t got).1, ap length (v.halted s).0));
                  counted = v.counted;
                })
        ]
      ]
]

pub start-IsPool : (i : ℕ) (p q : Pool) → start_task i p ≡ some q → IsPool p → IsPool q
unfolding start_task
start-IsPool i p q e v = elim (Option-cases (pick i p.held)) [
  | inl empty ↦ absurd (ground (arith, e, empty))
  | inr ((t, ts), got) ↦
      subst (λ x. IsPool x) {x = record p { held = ts; active = t ∷ p.active }} {y = q}
        (ground (arith, e, got))
        (record {
          conserved = λ n. omega (arith, v.conserved n, (pick-count n i p.held ts t got).0);
          queue_bound = v.queue_bound;
          employed = omega (arith, v.employed, (pick-count 0 i p.held ts t got).1);
          core_kept = v.core_kept;
          max_kept = v.max_kept;
          halted = v.halted;
          counted = v.counted;
        })
]

pub finish-IsPool : (i : ℕ) (p q : Pool) → finish_task i p ≡ some q → IsPool p → IsPool q
unfolding finish_task
finish-IsPool i p q e v = elim (Option-cases (pick i p.active)) [
  | inl empty ↦ absurd (ground (arith, e, empty))
  | inr ((t, ts), got) ↦
      subst (λ x. IsPool x)
        {x = record p {
          active = ts;
          tasks_completed = p.tasks_completed + 1;
          finished = t ∷ p.finished;
        }}
        {y = q} (ground (arith, e, got))
        (record {
          conserved = λ n. omega (arith, v.conserved n, (pick-count n i p.active ts t got).0);
          queue_bound = v.queue_bound;
          employed = omega (arith, v.employed, (pick-count 0 i p.active ts t got).1);
          core_kept = v.core_kept;
          max_kept = v.max_kept;
          halted = v.halted;
          counted = omega (arith, v.counted);
        })
]
