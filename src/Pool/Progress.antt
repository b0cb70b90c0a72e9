-- ===== src/Pool/Progress.antt =====
-- A worker can take a task whenever one waits.
use my_rpc_project_v.Base.{
  ℕ, zero, suc, ◌≤◌, ◌<◌, ◌≡◌, ◌∙◌, refl, ap, arith, List, [], ◌∷◌, some, true, false, length, leb,
  Bool-cases, Option-cases, ◌⊎◌, inl, inr, All, not, ◌||◌,
}
use my_rpc_project_v.Pool.{
  Pool, Task, TaskPriority, rank, none_above, pick, has_idle, is_paused, take_task,
}

none_above_mono :
    (a b : TaskPriority) (ts : List Task)
    → rank a ≤ rank b
    → none_above a ts ≡ true
    → none_above b ts ≡ true
unfolding none_above
none_above_mono a b [] h k = refl
none_above_mono a b (t ∷ ts) h k = ground (arith, k, none_above_mono a b ts h)

-- A list that is not empty has an element that none is above.
top_of :
    (t : Task) (ts : List Task)
    → (i : ℕ) × (u : Task) × (us : List Task) × (pick i (t ∷ ts) ≡ some (u, us))
      × (none_above u.priority (t ∷ ts) ≡ true)
unfolding pick none_above
top_of t [] = (0, t, [], refl, ground arith)
top_of t (x ∷ xs) =
    let (i, u, us, got, top) = top_of x xs in
    elim (Bool-cases (leb (rank t.priority) (rank u.priority))) [
      | inl below ↦ (suc i, u, t ∷ us, rw (got, pick), ground (arith, below, top))
      | inr above ↦ (
        0,
        t,
        x ∷ xs,
        refl,
        ground (
          arith,
          above,
          top,
          none_above_mono u.priority t.priority (x ∷ xs) (ground (arith, above)) top,
        ),
      )
    ]

List-cases : (xs : List Task) → (xs ≡ []) ⊎ ((t : Task) × (ts : List Task) × (xs ≡ t ∷ ts))
List-cases [] = inl refl
List-cases (t ∷ ts) = inr (t, ts, refl)

pick-none_above :
    (a : TaskPriority) (i : ℕ) (xs us : List Task) (u : Task)
    → pick i xs ≡ some (u, us)
    → none_above a xs ≡ true
    → none_above a us ≡ true
unfolding pick none_above
pick-none_above a i [] us u e h = absurd (ground (arith, e))
pick-none_above a zero (x ∷ xs) us u e h = ground (arith, e, h)
pick-none_above a (suc i) (x ∷ xs) us u e h = elim (Option-cases (pick i xs)) [
  | inl empty ↦ absurd (ground (arith, e, empty))
  | inr ((w, ws), got) ↦ ground (arith, e, h, got, pick-none_above a i xs ws w got)
]

top_taken :
    (p : Pool)
    → 0 < length p.tasks
    → has_idle p ≡ true
    → is_paused p.state ≡ false
    → (i : ℕ) × (t : Task) × (q : Pool) × (take_task i p ≡ some q)
      × (q.held ≡ t ∷ p.held)
      × (none_above t.priority q.tasks ≡ true)
unfolding take_task has_idle
top_taken p some_task idle going = elim (List-cases p.tasks) [
  | inl empty ↦ absurd (omega (arith, some_task, ap length empty))
  | inr (x, xs, listed) ↦
      let (i, t, ts, got, top) = top_of x xs in
      let got' : pick i p.tasks ≡ some (t, ts) = ap (pick i) listed ∙ got in
      let top' : none_above t.priority p.tasks ≡ true = ap (none_above t.priority) listed ∙ top in
      (
        i,
        t,
        record p { tasks = ts; held = t ∷ p.held },
        ground (arith, idle, going, got', top'),
        refl,
        pick-none_above t.priority i p.tasks ts t got' top',
      )
]

none_above-All :
    (a : TaskPriority) (ts : List Task)
    → none_above a ts ≡ true
    → All (λ (t : Task). rank t.priority ≤ rank a) ts
unfolding none_above
none_above-All a [] h = tt
none_above-All a (t ∷ ts) h = (ground (arith, h), none_above-All a ts (ground (arith, h)))

-- The task that a worker is given is one of the highest priority among those that wait.
taken_above :
    (p q : Pool) (i : ℕ)
    → take_task i p ≡ some q
    → (t : Task) × (q.held ≡ t ∷ p.held)
      × All (λ (u : Task). rank u.priority ≤ rank t.priority) p.tasks
unfolding take_task
taken_above p q i e = elim (Bool-cases (not (has_idle p) || is_paused p.state)) [
  | inl stays ↦ absurd (ground (arith, e, stays))
  | inr goes ↦ elim (Option-cases (pick i p.tasks)) [
    | inl empty ↦ absurd (ground (arith, e, goes, empty))
    | inr ((t, ts), got) ↦ elim (Bool-cases (none_above t.priority p.tasks)) [
      | inr below ↦ absurd (ground (arith, e, goes, got, below))
      | inl top ↦ (t, ground (arith, e, goes, got, top), none_above-All t.priority p.tasks top)
    ]
  ]
]

-- While a task waits in a pool that is not paused, and some worker has none, one step gives a
-- worker a task that no waiting task is above; and whatever task such a step gives to a worker is
-- one of the highest priority among those that waited.
pub take_task_possible :
    (p : Pool)
    → 0 < length p.tasks
    → has_idle p ≡ true
    → is_paused p.state ≡ false
    → ((i : ℕ) × (t : Task) × (q : Pool) × (take_task i p ≡ some q)
        × (q.held ≡ t ∷ p.held)
        × (none_above t.priority q.tasks ≡ true))
      × ((i : ℕ) (q : Pool)
          → take_task i p ≡ some q
          → (t : Task) × (q.held ≡ t ∷ p.held)
            × All (λ (u : Task). rank u.priority ≤ rank t.priority) p.tasks)
take_task_possible p some_task idle going =
    (top_taken p some_task idle going, λ i q. taken_above p q i)
