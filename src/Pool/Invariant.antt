-- ===== src/Pool/Invariant.antt =====
-- What holds of a pool between any two steps.
use mathlib.Core.Option.{some-injective}
use my_rpc_project_v.Base.{
  ℕ, zero, suc, ◌+◌, ◌≤◌, ◌<◌, ◌≡◌, ◌∙◌, refl, sym, ap, arith, List, [], ◌∷◌, ◌++◌, some, true,
  false, length, ◌==◌, Option-cases, inl, inr,
}
use my_rpc_project_v.Pool.{Pool, Task, stopped, create, pick}

-- How many tasks of a list have the number.
abbrev pub count : ℕ → List Task → ℕ
count n [] = 0
count n (t ∷ ts) = (elim (t.number == n) [ true ↦ 1 | false ↦ 0 ]) + count n ts

-- Each accepted task is in one place; the queue and the threads keep their limits; a stopped pool
-- has no task waiting.
pub record IsPool (p : Pool) : Type 0 where
  pub conserved :
      (n : ℕ)
      → count n p.accepted
        ≡ count n p.tasks
          + count n p.held
          + count n p.active
          + count n p.finished
          + count n p.discarded
  pub queue_bound : 0 < p.max_queue_size → length p.tasks ≤ p.max_queue_size
  pub employed : length p.held + length p.active ≤ p.alive
  pub core_kept : p.core_threads ≤ p.current_threads
  pub max_kept : p.current_threads ≤ p.max_threads
  pub halted : p.stop ≡ true → (p.tasks ≡ []) × (p.state ≡ stopped)
  pub counted : p.tasks_completed ≡ length p.finished

pub create-IsPool :
    (core_threads max_threads max_queue_size : ℕ)
    → core_threads ≤ max_threads
    → IsPool (create core_threads max_threads max_queue_size)
unfolding create
create-IsPool core_threads max_threads max_queue_size h = record {
  conserved = λ n. refl;
  queue_bound = λ _. omega arith;
  employed = omega arith;
  core_kept = omega arith;
  max_kept = h;
  halted = λ e. cc;
  counted = refl;
}

pub count-append : (n : ℕ) (xs ys : List Task) → count n (xs ++ ys) ≡ count n xs + count n ys
count-append n [] ys = omega arith
count-append n (x ∷ xs) ys = omega (arith, count-append n xs ys)

pub pick-count :
    (n i : ℕ) (xs ts : List Task) (t : Task)
    → pick i xs ≡ some (t, ts)
    → (count n xs ≡ count n (t ∷ ts)) × (length xs ≡ suc (length ts))
unfolding pick
pick-count n i [] ts t e = absurd (ground (arith, e))
pick-count n zero (x ∷ xs) ts t e = (
  ap (λ r. count n (r.0 ∷ r.1)) (some-injective (x, xs) (t, ts) e),
  ap (λ r. suc (length r.1)) (some-injective (x, xs) (t, ts) e),
)
pick-count n (suc i) (x ∷ xs) ts t e = elim (Option-cases (pick i xs)) [
  | inl empty ↦ absurd (ground (arith, e, empty))
  | inr ((u, us), got) ↦
      let same : (u, x ∷ us) ≡ (t, ts) = some-injective _ (t, ts) (sym (rw got) ∙ e) in
      let ih = pick-count n i xs us u got in
      (
        omega (arith, ih.0, ap (λ r. count n (r.0 ∷ r.1)) same),
        omega (arith, ih.1, ap (λ r. length r.1) same),
      )
]
