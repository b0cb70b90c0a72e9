-- ===== src/Startup/Main/Tests.antt =====
-- A server that starts, and ends.
use my_rpc_project_v.Base.{
  ℕ, ◌≡◌, ◌++◌, refl, List, [], ◌∷◌, ℤ, Option, none, some, true, false, codes, bytes_eq, pos,
  is_nonneg,
}
use my_rpc_project_v.Zookeeper.{connected}
use my_rpc_project_v.Registry.{session, wait_connected, global_watcher}
use my_rpc_project_v.Config.Documents.{documents}
use my_rpc_project_v.Discovery.{Handler}
use my_rpc_project_v.Startup.Listening.{new_socket}
use my_rpc_project_v.Registry.Memory.{memory, memory-IsLawful, memory-IsKept}
use my_rpc_project_v.Service.{Service, find_service}
use my_rpc_project_v.Server.Cycle.{Server}
use my_rpc_project_v.Discovery.Registration.{Opening}
use my_rpc_project_v.Startup.Main.{Outside, Started, failed, loops, start, after_config}
use my_rpc_project_v.Discovery.{handles, reset_registry}
use my_rpc_project_v.Pool.{Pool, create}
use my_rpc_project_v.Pool.Singleton.{joined}
use my_rpc_project_v.Startup.Main.{finish, Running}
use my_rpc_project_v.Startup.Main.Closing.{finish-closes}
use my_rpc_project_v.Startup.Main.Serves.{Returns, start-Serves}
use my_rpc_project_v.Startup.Samples.{answers, process, both_documents, the_file, after, taken}

abbrev opening : Opening
opening = record {
  init = λ host. some 7;
  early = [];
  rounds = (session connected ∷ []) ∷ [];
  late = [];
}

abbrev outside : Outside
outside = record {
  files = the_file;
  zk = answers;
  calls = record taken { bind = true };
  opening = opening;
  watched = true;
}

abbrev echo : Service
echo = record { service_name = codes "echo"; handle_request = λ method args. some args }

abbrev idle : Server
idle = record {
  listen_fds = [];
  running = false;
  watched = [];
  connections = [];
  objects = [];
  tasks = [];
  enqueues = λ n. some true;
  closed = [];
}

-- The descriptors of the server that comes to its loop, and the threads of its pool.
abbrev in_loop : Option (Started × memory.State) → Option (List ℤ × Option ℕ)
in_loop (some (loops r, s)) =
    some (
      r.server.listen_fds,
      elim r.instance_ [ none ↦ none | some pool ↦ some pool.current_threads ],
    )
in_loop (some (failed closed, s)) = none
in_loop none = none

serves :
    in_loop (start (documents both_documents) memory outside echo idle process [])
    ≡ some (pos 5 ∷ [], some 4)
unfolding start after_config bytes_eq is_nonneg find_service wait_connected global_watcher
serves = refl

start-Serves_example :
    Returns memory outside echo idle
      (start (documents both_documents) memory outside echo idle process [])
start-Serves_example =
    start-Serves memory outside echo idle (documents both_documents) memory-IsLawful memory-IsKept
      process []

abbrev in_use : Handler
in_use = record after.handler {
  service_registry = some (record { zk_handle = some 7; is_connected = true });
}

abbrev pool : Pool
pool = create 4 4 100

abbrev running : Running
running = record {
  process = record after { handler = in_use };
  socket = record (new_socket after.server) { fd = pos 5 };
  services = (codes "echo", echo) ∷ [];
  instance_ = some pool;
  server = record idle { listen_fds = pos 5 ∷ []; watched = pos 5 ∷ [] };
}

abbrev nodes_after : Option (Started × memory.State) → memory.State
nodes_after (some (started, s)) = s
nodes_after none = []

abbrev run : Option (Started × memory.State)
run = start (documents both_documents) memory outside echo idle process []

runs : run ≡ some (loops running, nodes_after run)
unfolding start after_config bytes_eq is_nonneg find_service wait_connected global_watcher
runs = refl

-- The handle of the registry, and the one of the client.
finish-closes_example :
    let l = finish (joined pool) (some pool) in_use in
    (l.closed ≡ reset_registry in_use.service_registry ++ handles in_use.zk_client)
    × (l.handler.zk_client ≡ none)
    × (l.handler.service_registry ≡ none)
finish-closes_example =
    finish-closes memory (documents both_documents) outside echo idle process [] (nodes_after run)
      running (joined pool) (some pool) refl runs
