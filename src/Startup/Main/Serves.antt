-- ===== src/Startup/Main/Serves.antt =====
-- What the server is when its loop begins.
use my_rpc_project_v.Base.{
  ℕ, ◌≡◌, ◌⊎◌, inl, inr, refl, sym, ap, subst, List, [], ◌∷◌, ◌++◌, Option, none, some, Bool, true,
  false, codes, All, ℤ, Bool-cases, bytes_eq_refl, if◌then◌else◌, is_nonneg, is_pos,
}
use my_rpc_project_v.Zookeeper.{Zookeeper, IsLawful, IsKept}
use my_rpc_project_v.Config.{Json}
use my_rpc_project_v.Service.{Service, ServiceManager, find_service, register_service}
use my_rpc_project_v.Server.Cycle.{Server, add_listen_fd}
use my_rpc_project_v.Pool.{create}
use my_rpc_project_v.Pool.Singleton.{config_pool, init}
use my_rpc_project_v.Discovery.{Handler}
use my_rpc_project_v.Discovery.Registration.{register_services_from_config}
use my_rpc_project_v.Discovery.Registered.{Registered, register_services_from_config_builds}
use my_rpc_project_v.Startup.{Process, init_rpc_server_config}
use my_rpc_project_v.Startup.Listening.{
  CreateSocket, new_socket, create_socket, create_socket-closes, all_succeed, destroy,
}
use my_rpc_project_v.Startup.Main.{
  Outside, Started, failed, loops, pool_config, after_listen, after_registration, after_service,
  after_socket, after_config, start,
}

module _ (Z : Zookeeper) (o : Outside) (service : Service) (server : Server) where
  -- A start that fails has closed the descriptor of the socket, or nothing, and nothing twice. In the
  -- loop, the nodes of the configuration are registered; the socket holds a descriptor, which epoll
  -- watches as one to accept from; the service is found by its name; and there is a new pool of the
  -- size that the configuration says.
  abbrev pub Serves : Started × Z.State → Type 0
  Serves (failed closed, s) = (closed ≡ []) ⊎ (closed ≡ o.calls.socket ∷ [])
  Serves (loops r, s) =
      All (Registered Z s r.process.server.registry.service_name)
        r.process.server.registry.registry_nodes
      × (is_nonneg o.calls.socket ≡ true)
      × (r.socket.fd ≡ o.calls.socket)
      × (r.server ≡ record server {
        watched = o.calls.socket ∷ server.watched;
        listen_fds = o.calls.socket ∷ server.listen_fds;
      })
      × (find_service r.services service.service_name ≡ some service)
      × (r.instance_
          ≡ some (
              create r.process.server.thread_pool.core_threads
                r.process.server.thread_pool.max_threads r.process.server.thread_pool.queue_size))

  -- The start ends, in one of these ways.
  abbrev pub Returns : Option (Started × Z.State) → Type 0
  Returns result = (r : Started × Z.State) × (result ≡ some r) × Serves r

  destroyed :
      (socket : CreateSocket)
      → socket.fd ≡ o.calls.socket
      → (destroy socket ≡ []) ⊎ (destroy socket ≡ o.calls.socket ∷ [])
  unfolding destroy
  destroyed socket e = elim (Bool-cases (is_pos socket.fd)) [
    | inl t ↦ inr (rw (t, destroy) (ap (λ (fd : ℤ). fd ∷ []) e))
    | inr t ↦ inl (rw (t, destroy) refl)
  ]

  module _ (j : Json) (socket : CreateSocket) (nonneg : is_nonneg o.calls.socket ≡ true)
      (held : socket.fd ≡ o.calls.socket) where
    listen-Serves :
        (p : Process) (services : ServiceManager) (s : Z.State) (watched : Bool)
        → All (Registered Z s p.server.registry.service_name) p.server.registry.registry_nodes
        → find_service services service.service_name ≡ some service
        → Serves (
          after_listen j Z o service server p socket services
              (add_listen_fd server socket.fd watched),
          s,
        )
    unfolding after_listen add_listen_fd pool_config config_pool init
    listen-Serves p services s false registered found = destroyed socket held
    listen-Serves p services s true registered found = (
      registered,
      nonneg,
      held,
      ap
          (λ (fd : ℤ). record server {
            watched = fd ∷ server.watched;
            listen_fds = fd ∷ server.listen_fds;
          })
          held,
      found,
      refl,
    )

    found_alone :
        find_service (register_service [] (some service)).0 service.service_name ≡ some service
    unfolding find_service register_service
    found_alone = rw (bytes_eq_refl service.service_name) refl

    module _ (lawful : IsLawful Z) (kept : IsKept Z) where
      registration-Returns :
          (p : Process) (services : ServiceManager) (s : Z.State)
          → find_service services service.service_name ≡ some service
          → Returns (
              after_registration j Z o service server p socket services
                (register_services_from_config Z o.opening (some p.server.registry) p.handler s))
      unfolding after_registration
      registration-Returns p services s found =
          let ((done, h, closed, s1), run, keeps, all) =
            register_services_from_config_builds Z lawful kept o.opening p.server.registry p.handler
              s in
          rw run (by_result done h closed s1 all)
        where
          by_result :
              (done : Bool) (h : Handler) (closed : List ℕ) (s1 : Z.State)
              → (done ≡ true
                  → All
                      (Registered Z s1 p.server.registry.service_name)
                      p.server.registry.registry_nodes)
              → Returns (
                  after_registration j Z o service server p socket services
                    (some (done, h, closed, s1)))
          by_result false h closed s1 all =
              ((failed (destroy socket), s1), refl, destroyed socket held)
          by_result true h closed s1 all = (
            _,
            refl,
            listen-Serves (record p { handler = h; closed = p.closed ++ closed }) services s1
                o.watched (all refl) found,
          )

  module _ (j : Json) (lawful : IsLawful Z) (kept : IsKept Z) where
    socket-Returns :
        (p : Process) (s : Z.State)
        → Returns (after_socket j Z o service server p (create_socket o.calls p.server) s)
    unfolding after_socket after_service register_service find_service
    socket-Returns p s =
        subst
          (λ (made : Option CreateSocket × List ℤ).
            Returns (after_socket j Z o service server p made s))
          (sym (create_socket-closes o.calls p.server))
          (by_calls (is_nonneg o.calls.socket) (all_succeed o.calls p.server.servers_ip) refl)
      where
        held : CreateSocket
        held = record (new_socket p.server) { fd = o.calls.socket }

        by_calls :
            (nonneg all : Bool)
            → is_nonneg o.calls.socket ≡ nonneg
            → Returns (
                after_socket j Z o service server p
                  (if nonneg
                    then if all then (some held, []) else (none, o.calls.socket ∷ [])
                    else (none, []))
                  s)
        by_calls false all e = ((failed [], s), refl, inl refl)
        by_calls true false e = ((failed (o.calls.socket ∷ []), s), refl, inr refl)
        by_calls true true e =
            registration-Returns j held e refl lawful kept p ((service.service_name, service) ∷ [])
              s (found_alone j held e refl)

    -- The start of the server ends, whatever the calls out of it answer. If it fails, it has closed the
    -- descriptor of the socket or nothing. If it comes to the loop, the nodes of the configuration are
    -- registered; the socket holds a descriptor, which epoll watches as one to accept from; the
    -- service is found by its name; and there is a new pool of the size that the configuration says.
    pub start-Serves : (p : Process) (s : Z.State) → Returns (start j Z o service server p s)
    unfolding start after_config
    start-Serves p s =
        by_config (init_rpc_server_config j o.files o.zk (codes "../config/rpc_server.json") p)
      where
        by_config : (c : Process × Bool) → Returns (after_config j Z o service server c s)
        by_config (p1, false) = ((failed [], s), refl, inl refl)
        by_config (p1, true) = socket-Returns p1 s
