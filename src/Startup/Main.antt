-- ===== src/Startup/Main.antt =====
-- rpc_src/core/servers_main.cpp before and after the event loop. The table of services and the pool are empty
-- when the process starts.
pub mod Serves
pub mod Closing
mod Tests
use my_rpc_project_v.Base.{
  List, [], ◌∷◌, ◌++◌, Option, none, some, Bool, true, false, Bytes, codes, ℤ, ℕ,
}
use my_rpc_project_v.Zookeeper.{Zookeeper}
use my_rpc_project_v.Config.{Json, ThreadPoolConfig}
use my_rpc_project_v.Service.{Service, ServiceManager, register_service}
use my_rpc_project_v.Server.Cycle.{Server, add_listen_fd}
use my_rpc_project_v.Pool.{Pool}
use my_rpc_project_v.Pool.Singleton.{ThreadPoolStruct, config_pool, init, Ended, shutdown}
use my_rpc_project_v.Discovery.{Handler, Answers, cleanup}
use my_rpc_project_v.Discovery.Registration.{Opening, register_services_from_config}
use my_rpc_project_v.Startup.{Process, init_rpc_server_config}
use my_rpc_project_v.Startup.Listening.{Calls, CreateSocket, create_socket, destroy}

-- What the calls out of the program answer while it starts.
pub record Outside : Type 0 where
  pub files : Bytes → Option Bytes
  pub zk : Answers
  pub calls : Calls
  pub opening : Opening
  pub watched : Bool

-- main before its loop: with an exit code of 1 and the descriptors that were closed, or with all that
-- the loop works on.
pub record Running : Type 0 where
  pub process : Process
  pub socket : CreateSocket
  pub services : ServiceManager
  pub instance_ : Option Pool
  pub server : Server

pub data Started : Type 0 where
  failed : List ℤ → Started
  loops : Running → Started

unfoldable pub pool_config : ThreadPoolConfig → ThreadPoolStruct
pool_config c = record {
  core_threads = c.core_threads;
  max_threads = c.max_threads;
  max_queue_size = c.queue_size;
}

module _ (j : Json) (Z : Zookeeper) (o : Outside) (service : Service) (server : Server) where
  unfoldable pub after_listen : Process → CreateSocket → ServiceManager → Server × Bool → Started
  unfolding pool_config config_pool init destroy
  after_listen p socket services (server', false) = failed (destroy socket)
  after_listen p socket services (server', true) = loops (record {
    process = p;
    socket = socket;
    services = services;
    instance_ = (init (config_pool (pool_config p.server.thread_pool)) none).0;
    server = server';
  })

  unfoldable pub after_registration :
      Process
      → CreateSocket
      → ServiceManager
      → Option (Bool × Handler × List ℕ × Z.State)
      → Option (Started × Z.State)
  unfolding after_listen add_listen_fd destroy
  after_registration p socket services none = none
  after_registration p socket services (some (false, h, closed, s)) =
      some (failed (destroy socket), s)
  after_registration p socket services (some (true, h, closed, s)) = some (
    after_listen (record p { handler = h; closed = p.closed ++ closed }) socket services
        (add_listen_fd server socket.fd o.watched),
    s,
  )

  unfoldable pub after_service :
      Process → CreateSocket → ServiceManager × Bool → Z.State → Option (Started × Z.State)
  unfolding after_registration register_services_from_config destroy
  after_service p socket (services, false) s = some (failed (destroy socket), s)
  after_service p socket (services, true) s =
      after_registration p socket services
        (register_services_from_config Z o.opening (some p.server.registry) p.handler s)

  unfoldable pub after_socket :
      Process → Option CreateSocket × List ℤ → Z.State → Option (Started × Z.State)
  unfolding after_service register_service
  after_socket p (none, closed) s = some (failed closed, s)
  after_socket p (some socket, closed) s =
      after_service p socket (register_service [] (some service)) s

  unfoldable pub after_config : Process × Bool → Z.State → Option (Started × Z.State)
  unfolding after_socket create_socket
  after_config (p, false) s = some (failed [], s)
  after_config (p, true) s = after_socket p (create_socket o.calls p.server) s

  -- `none` is a registration that does not return.
  unfoldable pub start : Process → Z.State → Option (Started × Z.State)
  unfolding after_config init_rpc_server_config
  start p s =
      after_config (init_rpc_server_config j o.files o.zk (codes "../config/rpc_server.json") p) s

-- What main leaves: the pool that is still there, the ones that were released, and the handler, with
-- the handles of ZooKeeper that were closed.
pub record Finished : Type 0 where
  pub instance_ : Option Pool
  pub released : List Pool
  pub handler : Handler
  pub closed : List ℕ

-- main behind its loop, with the pool and the handler as they are then. `ended` is how the waiting of
-- shutdown goes, for ten seconds at most.
unfoldable pub finish : Ended → Option Pool → Handler → Finished
unfolding shutdown cleanup
finish ended instance_ h = record {
  instance_ = (shutdown ended instance_).0;
  released = (shutdown ended instance_).2;
  handler = (cleanup h).0;
  closed = (cleanup h).1;
}
