-- ===== src/Startup/Main/Closing.antt =====
-- What the server closes when its loop has ended.
use my_rpc_project_v.Base.{
  ℕ, ◌≡◌, ◌∙◌, inl, inr, refl, arith, subst, List, [], ◌++◌, Option, none, some, Bool, true, false,
  Bytes, codes, Bool-cases, ℤ, ℤ,
}
use my_rpc_project_v.Config.{Json}
use my_rpc_project_v.Service.{Service, ServiceManager, register_service}
use my_rpc_project_v.Server.Cycle.{Server, add_listen_fd}
use my_rpc_project_v.Pool.{Pool}
use my_rpc_project_v.Pool.Singleton.{Ended}
use my_rpc_project_v.Startup.{
  ServerConfig, Process, ◌>>>◌, read_text, read_number, read_basic, load_registry, load_thread_pool,
  connect_zk, choose_balancer, init_rpc_server_config, set_servers_name_prefix, set_servers_ip,
  set_servers_port, set_timeout, set_max_connections,
}
use my_rpc_project_v.Startup.Listening.{CreateSocket, create_socket}
use my_rpc_project_v.Startup.Main.{
  Outside, Running, Started, failed, loops, finish, after_listen, after_registration, after_service,
  after_socket, after_config, start,
}
use my_rpc_project_v.Zookeeper.{Zookeeper}
use my_rpc_project_v.Discovery.{Handler, Answers, cleanup, handles, reset_registry}
use my_rpc_project_v.Discovery.Registration.{register_services_from_config}
use my_rpc_project_v.Discovery.Uncleaned.{Same, init_zk_conn_handler-Same, register-Same}

-- A step that succeeds has not called cleanup.
abbrev Untouched : Process → Process × Bool → Type 0
Untouched p x = x.1 ≡ true → Same p.handler x.0.handler

Untouched-then :
    (p : Process) (x : Process × Bool) (f : Process → Process × Bool)
    → Untouched p x
    → ((q : Process) → Untouched q (f q))
    → Untouched p (x >>> f)
unfolding ◌>>>◌
Untouched-then p (q, false) f h k e = ground (arith, e)
Untouched-then p (q, true) f h k e = k q e ∙ h refl

option-Untouched {ℓ} :
    {A : Type ℓ} (p : Process) (o : Option A) (f : A → Process × Bool)
    → ((v : A) → Untouched p (f v))
    → Untouched p (elim o as (λ _. Process × Bool) [ none ↦ (p, false) | some v ↦ f v ])
option-Untouched p none f h e = refl
option-Untouched p (some v) f h e = h v e

module _ (j : Json) (files : Bytes → Option Bytes) (a : Answers) (config : j.Value) where
  read_text-Untouched :
      (key otherwise : Bytes) (set : Bytes → ServerConfig → ServerConfig) (p : Process)
      → Untouched p (read_text j files a config key otherwise set p)
  unfolding read_text
  read_text-Untouched key otherwise set p e = ground arith

  read_number-Untouched :
      (key : Bytes) (otherwise : ℕ) (set : ℤ → ServerConfig → ServerConfig) (p : Process)
      → Untouched p (read_number j files a config key otherwise set p)
  unfolding read_number
  read_number-Untouched key otherwise set p e = ground arith

  read_basic-Untouched : (p : Process) → Untouched p (read_basic j files a config p)
  unfolding read_basic
  read_basic-Untouched p =
      Untouched-then p _ _
        (Untouched-then p _ _
          (Untouched-then p _ _
            (Untouched-then p _ _
              (read_text-Untouched (codes "servers_name_prefix") (codes "myrpc")
                set_servers_name_prefix p)
              (read_text-Untouched (codes "servers_ip") (codes "0.0.0.0") set_servers_ip))
            (read_number-Untouched (codes "servers_port") 8989 set_servers_port))
          (read_number-Untouched (codes "timeout") 3000 set_timeout))
        (read_number-Untouched (codes "max_connections") 1000 set_max_connections)

  load_registry-Untouched : (p : Process) → Untouched p (load_registry j files a config p)
  unfolding load_registry
  load_registry-Untouched p e = ground arith

  load_thread_pool-Untouched : (p : Process) → Untouched p (load_thread_pool j files a config p)
  unfolding load_thread_pool
  load_thread_pool-Untouched p e = ground arith

  choose_balancer-Untouched : (p : Process) → Untouched p (choose_balancer j files a config p)
  unfolding choose_balancer
  choose_balancer-Untouched p e = ground arith

  connect_zk-Untouched : (p : Process) → Untouched p (connect_zk j files a config p)
  unfolding connect_zk
  connect_zk-Untouched p = elim (Bool-cases (j.contains config (codes "scheduler"))) [
    | inr missing ↦ rw missing (λ e. refl)
    | inl there ↦ rw there (
        option-Untouched p (j.field config (codes "scheduler")) _
          (λ v. init_zk_conn_handler-Same j v a p.handler))
  ]

  steps-Untouched :
      (p : Process)
      → Untouched p (
          read_basic j files a config p
          >>> load_registry j files a config
          >>> load_thread_pool j files a config
          >>> connect_zk j files a config
          >>> choose_balancer j files a config)
  steps-Untouched p =
      Untouched-then p _ _
        (Untouched-then p _ _
          (Untouched-then p _ _
            (Untouched-then p _ _ (read_basic-Untouched p) load_registry-Untouched)
            load_thread_pool-Untouched)
          connect_zk-Untouched)
        choose_balancer-Untouched

init_rpc_server_config-Untouched :
    (j : Json) (files : Bytes → Option Bytes) (a : Answers) (config_file : Bytes) (p : Process)
    → Untouched p (init_rpc_server_config j files a config_file p)
unfolding init_rpc_server_config
init_rpc_server_config-Untouched j files a config_file p =
    option-Untouched p (files config_file) _
      (λ file. option-Untouched p (j.parse file) _ (λ config. steps-Untouched j files a config p))

module _ (Z : Zookeeper) (h : Handler) where
  -- A server that comes to its loop has not called cleanup.
  abbrev Fresh : Option (Started × Z.State) → Type 0
  Fresh none = Unit
  Fresh (some (failed closed, s)) = Unit
  Fresh (some (loops r, s)) = Same h r.process.handler

  module _ (j : Json) (o : Outside) (service : Service) (server : Server) where
    registration-Fresh :
        (p : Process) (socket : CreateSocket) (services : ServiceManager) (s : Z.State)
        → Same h p.handler
        → Fresh (
            after_registration j Z o service server p socket services
              (register_services_from_config Z o.opening (some p.server.registry) p.handler s))
    unfolding after_registration after_listen
    registration-Fresh p socket services s kept =
        by_result (register_services_from_config Z o.opening (some p.server.registry) p.handler s)
          refl
      where
        by_listen :
            (q : Process) (s' : Z.State) (x : Server × Bool)
            → Same h q.handler
            → Fresh (some (after_listen j Z o service server q socket services x, s'))
        by_listen q s' (server', false) k = tt
        by_listen q s' (server', true) k = k

        by_result :
            (result : Option (Bool × Handler × List ℕ × Z.State))
            → register_services_from_config Z o.opening (some p.server.registry) p.handler s
              ≡ result
            → Fresh (after_registration j Z o service server p socket services result)
        by_result none e = tt
        by_result (some (false, h', closed, s')) e = tt
        by_result (some (true, h', closed, s')) e =
            by_listen (record p { handler = h'; closed = p.closed ++ closed }) s'
              (add_listen_fd server socket.fd o.watched)
              (register-Same Z o.opening (some p.server.registry) p.handler h' true closed s s' e
                ∙ kept)

    socket-Fresh :
        (p : Process) (made : Option CreateSocket × List ℤ) (s : Z.State)
        → Same h p.handler
        → Fresh (after_socket j Z o service server p made s)
    unfolding after_socket after_service
    socket-Fresh p (none, closed) s kept = tt
    socket-Fresh p (some socket, closed) s kept = by_service (register_service [] (some service))
      where
        by_service :
            (x : ServiceManager × Bool) → Fresh (after_service j Z o service server p socket x s)
        by_service (services, false) = tt
        by_service (services, true) = registration-Fresh p socket services s kept

start-Fresh :
    (Z : Zookeeper) (j : Json) (o : Outside) (service : Service) (server : Server) (p : Process)
    (s : Z.State)
    → Fresh Z p.handler (start j Z o service server p s)
unfolding start after_config
start-Fresh Z j o service server p s =
    by_config (init_rpc_server_config j o.files o.zk (codes "../config/rpc_server.json") p)
      (init_rpc_server_config-Untouched j o.files o.zk (codes "../config/rpc_server.json") p)
  where
    by_config :
        (c : Process × Bool)
        → Untouched p c
        → Fresh Z p.handler (after_config j Z o service server c s)
    by_config (p1, false) kept = tt
    by_config (p1, true) kept =
        socket-Fresh Z p.handler j o service server p1 (create_socket o.calls p1.server) s
          (kept refl)

-- A server of a new process that has come to its loop closes all its handles of ZooKeeper when the
-- loop has ended, the one of the registry and the one of the client, each once; it keeps none. This
-- holds however the waiting for the pool goes.
pub finish-closes :
    (Z : Zookeeper) (j : Json) (o : Outside) (service : Service) (server : Server) (p : Process)
    (s s' : Z.State) (r : Running) (ended : Ended) (instance_ : Option Pool)
    → p.handler.cleanup_done ≡ false
    → start j Z o service server p s ≡ some (loops r, s')
    → let l = finish ended instance_ r.process.handler in
      (l.closed
        ≡ reset_registry r.process.handler.service_registry ++ handles r.process.handler.zk_client)
      × (l.handler.zk_client ≡ none)
      × (l.handler.service_registry ≡ none)
unfolding finish cleanup
finish-closes Z j o service server p s s' r ended instance_ new started =
    rw
      (
        subst (Fresh Z p.handler) started (start-Fresh Z j o service server p s) ∙ new,
        finish,
        cleanup,
      )
      (refl, refl, refl)
