-- ===== src/Startup/Ready.antt =====
-- What an accepted configuration of the server leaves set up.
use my_rpc_project_v.Base.{
  ℕ, ◌≡◌, ◌⊎◌, ◌∙◌, inl, inr, refl, sym, ap, arith, subst, Option, none, some, Bool, true, false,
  Bytes, codes,
}
use my_rpc_project_v.Config.{Json}
use my_rpc_project_v.Config.Checked.{IsChecked, init_thread_pool_config-IsChecked}
use my_rpc_project_v.Balancer.{init_balancer}
use my_rpc_project_v.Discovery.{Handler, Answers}
use my_rpc_project_v.Discovery.Ensure.{init_zk_conn_handler-online}
use my_rpc_project_v.Startup.{
  Process, ◌>>>◌, read_basic, load_registry, load_thread_pool, connect_zk, choose_balancer,
  init_rpc_server_config,
}
use my_rpc_project_v.Config.Registries.{IsComplete}
use my_rpc_project_v.Startup.Registries.{IsRegistryReady, load_registry_reads, later_steps_registry}
use my_rpc_project_v.Startup.Steps.{
  steps, optional, needed, Keeps-then, kept_at, read_basic-Keeps, load_registry-Keeps,
  connect_zk-Keeps, choose_balancer-Keeps,
}

module _ (j : Json) (config : j.Value) where
  -- The configuration of the pool is checked, or it has no key and is the one from before.
  abbrev pub IsPoolReady : Process → Process → Type 0
  IsPoolReady p q =
      ((j.contains config (codes "thread_pool") ≡ false)
        × (q.server.thread_pool ≡ p.server.thread_pool))
      ⊎ ((j.contains config (codes "thread_pool") ≡ true) × IsChecked q.server.thread_pool)

  -- The key of the scheduler is there only where the client is.
  abbrev pub IsOnline : Process → Type 0
  IsOnline q =
      j.contains config (codes "scheduler") ≡ true
      → (client : ℕ) × (q.handler.zk_client ≡ some client)

  -- The key of the strategy is there only where its text names a balancer, which is the one set.
  abbrev pub HasBalancer : Process → Type 0
  HasBalancer q =
      j.contains config (codes "load_balance_strategy") ≡ true
      → (v : j.Value) × (strategy : Bytes) × (j.field config (codes "load_balance_strategy")
          ≡ some v)
        × (j.text v ≡ some strategy)
        × (init_balancer strategy ≡ (q.balancer, true))

module _ (j : Json) (files : Bytes → Option Bytes) (a : Answers) (config : j.Value) where
  load_thread_pool_checks :
      (p q : Process) → load_thread_pool j files a config p ≡ (q, true) → IsPoolReady j config p q
  unfolding load_thread_pool
  load_thread_pool_checks p q h =
      elim (optional p q (j.contains config (codes "thread_pool"))
        (j.field config (codes "thread_pool")) _ h) [
          | inl (missing, e) ↦ inl (missing, ap (λ (r : Process). r.server.thread_pool) (sym e))
          | inr (found, v, _, e) ↦ inr (
            found,
            init_thread_pool_config-IsChecked j v p.server.thread_pool q.server.thread_pool
                (ap (λ (o : Process × Bool). (o.0.server.thread_pool, o.1)) e),
          )
        ]

  connect_zk_online :
      (p q : Process) → connect_zk j files a config p ≡ (q, true) → IsOnline j config q
  unfolding connect_zk
  connect_zk_online p q h there =
      elim (optional p q (j.contains config (codes "scheduler"))
        (j.field config (codes "scheduler")) _ h) [
          | inl (missing, e) ↦ absurd (ground (arith, there, missing))
          | inr (_, v, _, e) ↦
              let (client, c) =
                init_zk_conn_handler-online j v a p.handler (ap (λ (o : Process × Bool). o.1) e) in
              (client, ap (λ (o : Process × Bool). o.0.handler.zk_client) (sym e) ∙ c)
        ]

  choose_balancer_handler :
      (p : Process) → (choose_balancer j files a config p).0.handler ≡ p.handler
  unfolding choose_balancer
  choose_balancer_handler p = ground arith

  choose_balancer_names :
      (p q : Process) → choose_balancer j files a config p ≡ (q, true) → HasBalancer j config q
  unfolding choose_balancer
  choose_balancer_names p q h there =
      elim (optional p q (j.contains config (codes "load_balance_strategy"))
        (j.field config (codes "load_balance_strategy")) _ h) [
          | inl (missing, e) ↦ absurd (ground (arith, there, missing))
          | inr (_, v, got, e) ↦
              let (strategy, text, made) = named (j.text v) e in (v, strategy, got, text, made)
        ]
    where
      named :
          (o : Option Bytes)
          → ◌≡◌ {A = Process × Bool}
              (elim o as (λ _. Process × Bool) [
                | none ↦ (p, false)
                | some strategy ↦
                    (record p { balancer = (init_balancer strategy).0 }, (init_balancer strategy).1)
              ])
              (q, true)
          → (strategy : Bytes) × (o ≡ some strategy) × (init_balancer strategy ≡ (q.balancer, true))
      named none e = absurd (ground (arith, ap (λ (o : Process × Bool). o.1) e))
      named (some strategy) e = (strategy, refl, ap (λ (o : Process × Bool). (o.0.balancer, o.1)) e)

  ready :
      (p q : Process)
      → (read_basic j files a config p
          >>> load_registry j files a config
          >>> load_thread_pool j files a config
          >>> connect_zk j files a config
          >>> choose_balancer j files a config)
        ≡ (q, true)
      → IsPoolReady j config p q
        × IsRegistryReady j config q
        × IsOnline j config q
        × HasBalancer j config q
  ready p q h =
      let (p4, e4, h5) = steps _ (choose_balancer j files a config) q h in
      let (p3, e3, h4) = steps _ (connect_zk j files a config) p4 e4 in
      let (p2, e2, h3) = steps _ (load_thread_pool j files a config) p3 e3 in
      let (p1, h1, h2) = steps _ (load_registry j files a config) p2 e2 in
      let before =
        kept_at p p2 _
          (Keeps-then p (read_basic j files a config p) (load_registry j files a config)
            (read_basic-Keeps j files a config p) (load_registry-Keeps j files a config))
          e2 in
      let after =
        kept_at p4 q _ (choose_balancer-Keeps j files a config p4) h5
        ∙ kept_at p3 p4 _ (connect_zk-Keeps j files a config p3) h4 in
      (
        moved p2 p3 before after (load_thread_pool_checks p2 p3 h3),
        (λ there.
            subst IsComplete (sym (later_steps_registry j files a config p2 p3 p4 q h3 h4 h5))
              (load_registry_reads j files a config p1 p2 h2 there)),
        (λ there.
            let (client, c) = connect_zk_online p3 p4 h4 there in
            (
              client,
              ap (λ (o : Process × Bool). o.0.handler.zk_client) (sym h5)
                  ∙ (ap (λ (h : Handler). h.zk_client) (choose_balancer_handler p4) ∙ c),
            )),
        choose_balancer_names p4 q h5,
      )
    where
      moved :
          (p2 p3 : Process)
          → p2.server.thread_pool ≡ p.server.thread_pool
          → q.server.thread_pool ≡ p3.server.thread_pool
          → IsPoolReady j config p2 p3
          → IsPoolReady j config p q
      moved p2 p3 before after (inl (missing, same)) = inl (missing, after ∙ (same ∙ before))
      moved p2 p3 before after (inr (found, checked)) =
          inr (found, subst IsChecked (sym after) checked)

module _ (j : Json) (files : Bytes → Option Bytes) (a : Answers) where
  -- InitRpcServerConfig returns true only for a file that is there and parsed. Then the
  -- configuration of the pool has been checked, or it has no key and is the one from before; a
  -- registry that is asked for has been read with a name, a version and ports of 16 bits; a
  -- scheduler that is asked for has a ZooKeeper client, and a strategy that is asked for is a text,
  -- and the balancer is the one of that name.
  pub init_rpc_server_config-ready :
      (config_file : Bytes) (p q : Process)
      → init_rpc_server_config j files a config_file p ≡ (q, true)
      → (file : Bytes) × (config : j.Value) × (files config_file ≡ some file)
        × (j.parse file ≡ some config)
        × IsPoolReady j config p q
        × IsRegistryReady j config q
        × IsOnline j config q
        × HasBalancer j config q
  unfolding init_rpc_server_config
  init_rpc_server_config-ready config_file p q h =
      let (file, there, h1) = needed p q (files config_file) _ h in
      let (config, parsed, h2) = needed p q (j.parse file) _ h1 in
      let (pooled, registered, online, balanced) = ready j files a config p q h2 in
      (file, config, there, parsed, pooled, registered, online, balanced)
