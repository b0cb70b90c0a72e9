-- ===== src/Startup/Registries.antt =====
-- The configuration of the registry that an accepted configuration of the server leaves.
use my_rpc_project_v.Base.{
  ◌≡◌, ◌∙◌, inl, inr, sym, ap, arith, subst, Option, Bool, true, false, Bytes, codes,
}
use my_rpc_project_v.Config.{Json, RegistryConfig, Loaded, returned, threw, init_registry_config}
use my_rpc_project_v.Config.Registries.{IsComplete, RegistryRead, init_registry_config-RegistryRead}
use my_rpc_project_v.Discovery.{Answers}
use my_rpc_project_v.Startup.{
  Process, loaded, load_registry, load_thread_pool, connect_zk, choose_balancer,
}
use my_rpc_project_v.Startup.Steps.{optional}

-- The key of the registry's file is there only where that file was read, with a name, a version and
-- nodes whose ports are ports.
abbrev pub IsRegistryReady : (j : Json) → j.Value → Process → Type 0
IsRegistryReady j config q =
    j.contains config (codes "register_config") ≡ true → IsComplete q.server.registry

loaded-IsComplete :
    (c s : RegistryConfig) (l : Loaded) → RegistryRead c s l → loaded l ≡ true → IsComplete s
loaded-IsComplete c s (returned true) read e = read
loaded-IsComplete c s (returned false) read e = ground arith
loaded-IsComplete c s threw read e = ground arith

module _ (j : Json) (files : Bytes → Option Bytes) (a : Answers) (config : j.Value) where
  pub load_registry_reads :
      (p q : Process) → load_registry j files a config p ≡ (q, true) → IsRegistryReady j config q
  unfolding load_registry
  load_registry_reads p q h there =
      elim (optional p q (j.contains config (codes "register_config"))
        (j.text_value config (codes "register_config") (codes "../config/servers.json")) _ h) [
          | inl (missing, e) ↦ absurd (ground (arith, there, missing))
          | inr (_, name, _, e) ↦
              let read = init_registry_config j (files name) p.server.registry in
              subst IsComplete (ap (λ (o : Process × Bool). o.0.server.registry) e) (
                loaded-IsComplete p.server.registry read.0 read.1
                  (init_registry_config-RegistryRead j (files name) p.server.registry)
                  (ap (λ (o : Process × Bool). o.1) e))
        ]

  load_thread_pool_registry :
      (p : Process) → (load_thread_pool j files a config p).0.server.registry ≡ p.server.registry
  unfolding load_thread_pool
  load_thread_pool_registry p = ground arith

  connect_zk_registry :
      (p : Process) → (connect_zk j files a config p).0.server.registry ≡ p.server.registry
  unfolding connect_zk
  connect_zk_registry p = ground arith

  choose_balancer_registry :
      (p : Process) → (choose_balancer j files a config p).0.server.registry ≡ p.server.registry
  unfolding choose_balancer
  choose_balancer_registry p = ground arith

  same_registry :
      (p q : Process) (x : Process × Bool)
      → x.0.server.registry ≡ p.server.registry
      → x ≡ (q, true)
      → q.server.registry ≡ p.server.registry
  same_registry p q x k e = ap (λ (o : Process × Bool). o.0.server.registry) (sym e) ∙ k

  -- The steps after the one that reads the registry's file do not touch what it has read.
  pub later_steps_registry :
      (p2 p3 p4 q : Process)
      → load_thread_pool j files a config p2 ≡ (p3, true)
      → connect_zk j files a config p3 ≡ (p4, true)
      → choose_balancer j files a config p4 ≡ (q, true)
      → q.server.registry ≡ p2.server.registry
  later_steps_registry p2 p3 p4 q h3 h4 h5 =
      same_registry p4 q _ (choose_balancer_registry p4) h5
      ∙ (same_registry p3 p4 _ (connect_zk_registry p3) h4
          ∙ same_registry p2 p3 _ (load_thread_pool_registry p2) h3)
