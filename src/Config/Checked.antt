-- ===== src/Config/Checked.antt =====
-- What a configuration that is accepted is known to hold.
use native.Mathlib.Nat.{mod-lt}
use my_rpc_project_v.Base.{
  ℕ, ◌^◌, ◌≤◌, ◌<◌, ◌≡◌, refl, ap, arith, Option, none, some, Bool, true, false, codes,
  if◌then◌else◌, ◌||◌, subst, ltb, ◌==◌, ℤ, pos, negsuc, wrap,
}
use my_rpc_project_v.Config.{
  Json, ThreadPoolConfig, read_keep_alive, read_queue_size, read_core_threads,
  init_thread_pool_config,
}
use my_rpc_project_v.Pool.{Pool, Reach, create}
use my_rpc_project_v.Pool.Invariant.{IsPool}
use my_rpc_project_v.Pool.History.{Reach-IsPool}

pub wrap_below : (m : ℕ) (z : ℤ) → 0 < m → wrap m z < m
unfolding wrap
wrap_below m (pos n) h = mod-lt n h
wrap_below m (negsuc n) h = omega arith

-- What an accepted configuration of the pool meets.
pub record IsChecked (c : ThreadPoolConfig) : Type 0 where
  pub core_positive : 0 < c.core_threads
  pub core_below : c.core_threads ≤ c.max_threads
  pub max_fits : c.max_threads < 2 ^ 16
  pub queue_positive : 0 < c.queue_size
  pub queue_fits : c.queue_size < 2 ^ 32
  pub keep_positive : 0 < c.keep_alive_time

module _ (c s : ThreadPoolConfig) where
  -- A step that succeeds has read a value, and passed its test.
  from_value :
      (o : Option ℤ) (f : ℤ → ThreadPoolConfig × Bool)
      → (elim o as (λ _. ThreadPoolConfig × Bool) [ none ↦ (c, false) | some z ↦ f z ]) ≡ (s, true)
      → (z : ℤ) × (f z ≡ (s, true))
  from_value none f h = ground (arith, ap (λ (o : ThreadPoolConfig × Bool). o.1) h)
  from_value (some z) f h = (z, h)

  passed :
      (t : Bool) (next : ThreadPoolConfig × Bool)
      → (if t then (c, false) else next) ≡ (s, true)
      → (t ≡ false) × (next ≡ (s, true))
  passed true next h = ground (arith, ap (λ (o : ThreadPoolConfig × Bool). o.1) h)
  passed false next h = (refl, h)

positive : (n : ℕ) → (n == 0) ≡ false → 0 < n
positive n h = ground arith

in_range : (n m : ℕ) → (n == 0 || ltb m n) ≡ false → (0 < n) × (n ≤ m)
in_range n m h = (ground arith, ground arith)

module _ (j : Json) (config : j.Value) where
  keep_alive_checked :
      (c s : ThreadPoolConfig)
      → read_keep_alive j config c ≡ (s, true)
      → (k : ℕ) × (0 < k) × (record c { keep_alive_time = k } ≡ s)
  unfolding read_keep_alive
  keep_alive_checked c s h =
      let (z, e) = from_value c s (j.number_value config (codes "keep_alive_time") (pos 60)) _ h in
      let (t, e') = passed c s (wrap (2 ^ 32) z == 0) _ e in
      (wrap (2 ^ 32) z, positive (wrap (2 ^ 32) z) t, ap (λ (o : ThreadPoolConfig × Bool). o.0) e')

  queue_size_checked :
      (c s : ThreadPoolConfig)
      → read_queue_size j config c ≡ (s, true)
      → (q k : ℕ) × (0 < q)
        × (q < 2 ^ 32)
        × (0 < k)
        × (record c { queue_size = q; keep_alive_time = k } ≡ s)
  unfolding read_queue_size
  queue_size_checked c s h =
      let (z, e) = from_value c s (j.number_value config (codes "queue_size") (pos 100)) _ h in
      let (t, e') = passed c s (wrap (2 ^ 32) z == 0) _ e in
      let (k, alive, e2) = keep_alive_checked (record c { queue_size = wrap (2 ^ 32) z }) s e' in
      (
        wrap (2 ^ 32) z,
        k,
        positive (wrap (2 ^ 32) z) t,
        wrap_below (2 ^ 32) z (omega arith),
        alive,
        e2,
      )

  core_threads-IsChecked :
      (most : ℕ) (c s : ThreadPoolConfig)
      → most < 2 ^ 16
      → read_core_threads j config most (record c { max_threads = most }) ≡ (s, true)
      → IsChecked s
  unfolding read_core_threads
  core_threads-IsChecked most c s fits h =
      let first = record c { max_threads = most } in
      let (z, e) =
        from_value first s (j.number_value config (codes "core_threads") (pos most)) _ h in
      let (t, e') = passed first s (wrap (2 ^ 16) z == 0 || ltb most (wrap (2 ^ 16) z)) _ e in
      let (q, k, queue, queue_max, alive, e2) =
        queue_size_checked (record first { core_threads = wrap (2 ^ 16) z }) s e' in
      let (core, below) = in_range (wrap (2 ^ 16) z) most t in
      subst IsChecked e2 (record {
        core_positive = core;
        core_below = below;
        max_fits = fits;
        queue_positive = queue;
        queue_fits = queue_max;
        keep_positive = alive;
      })

  pub init_thread_pool_config-IsChecked :
      (c c' : ThreadPoolConfig) → init_thread_pool_config j config c ≡ (c', true) → IsChecked c'
  unfolding init_thread_pool_config
  init_thread_pool_config-IsChecked c c' h =
      let (z, e) = from_value c c' (j.number_value config (codes "max_threads") (pos 10)) _ h in
      let (t, e') = passed c c' (wrap (2 ^ 16) z == 0) _ e in
      core_threads-IsChecked (wrap (2 ^ 16) z) c c' (wrap_below (2 ^ 16) z (omega arith)) e'

  -- The pool that the server makes of an accepted configuration keeps its invariant whatever happens
  -- to it. It starts with at least one thread.
  pub init_thread_pool_config-IsPool :
      (c c' : ThreadPoolConfig) (p : Pool)
      → init_thread_pool_config j config c ≡ (c', true)
      → Reach (create c'.core_threads c'.max_threads c'.queue_size) p
      → IsPool p × (0 < c'.core_threads)
  init_thread_pool_config-IsPool c c' p h reached =
      let checked = init_thread_pool_config-IsChecked c c' h in
      (
        Reach-IsPool c'.core_threads c'.max_threads c'.queue_size p checked.core_below reached,
        checked.core_positive,
      )
