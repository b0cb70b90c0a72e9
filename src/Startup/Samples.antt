-- ===== src/Startup/Samples.antt =====
-- A server that starts, for the examples.
use my_rpc_project_v.Base.{[], ◌∷◌, Option, none, some, true, false, Bytes, codes, pos}
use my_rpc_project_v.Zookeeper.{connected}
use my_rpc_project_v.Config.Documents.{Value, num, str, pair, item, end}
use my_rpc_project_v.Balancer.{round}
use my_rpc_project_v.Discovery.{Handler, Answers}
use my_rpc_project_v.Startup.{ServerConfig, Process}
use my_rpc_project_v.Startup.Listening.{Calls}

abbrev pub handler : Handler
handler = record {
  zk_client = none;
  zk_host = [];
  zk_port = 0;
  zk_namespace = [];
  retry_interval = pos 0;
  servers = [];
  service_registry = none;
  running = false;
  cleanup_done = false;
}

abbrev pub answers : Answers
answers = record { init = λ host. some 8; state = λ round. connected }

abbrev pub unset : ServerConfig
unset = record {
  max_connections = 0;
  servers_ip = [];
  servers_port = 0;
  timeout = 0;
  servers_name_prefix = [];
  thread_pool = record { max_threads = 0; queue_size = 0; keep_alive_time = 0; core_threads = 0 };
  registry = record { registry_nodes = []; service_name = []; service_version = [] };
}

abbrev pub process : Process
process = record { server = unset; handler = handler; balancer = none; closed = [] }

abbrev pub server_document : Value
server_document = pair (codes "servers_port") (num (pos 9000)) (
    pair (codes "thread_pool") (pair (codes "max_threads") (num (pos 4)) end) (
      pair (codes "scheduler") (pair (codes "zk_host") (str (codes "zk")) end)
        (pair (codes "load_balance_strategy") (str (codes "round")) end)))

-- The file of the server and the one of its registry.
abbrev pub both_documents : Value
both_documents = pair (codes "register_config") (str (codes "servers.json")) (
    pair (codes "service_name") (str (codes "echo")) (
      pair (codes "service_version") (str (codes "1")) (
        pair (codes "registry_nodes")
          (item (pair (codes "address") (str (codes "h")) (pair (codes "port") (num (pos 80)) end))
            end)
          server_document)))

abbrev pub the_file : Bytes → Option Bytes
the_file name = some (codes "{}")

abbrev pub after : Process
after = record {
  server = record unset {
    max_connections = 1000;
    servers_ip = codes "0.0.0.0";
    servers_port = 9000;
    timeout = 3000;
    servers_name_prefix = codes "myrpc";
    thread_pool = record {
      max_threads = 4;
      queue_size = 100;
      keep_alive_time = 60;
      core_threads = 4;
    };
    registry = record {
      registry_nodes = record { address = codes "h"; port = 80 } ∷ [];
      service_name = codes "echo";
      service_version = codes "1";
    };
  };
  handler = record handler {
    zk_client = some 8;
    zk_host = codes "zk";
    zk_port = 2181;
    zk_namespace = codes "/myrpc";
    retry_interval = pos 5;
  };
  balancer = some (round 0);
  closed = [];
}

abbrev pub taken : Calls
taken = record {
  socket = pos 5;
  reuse = true;
  nodelay = true;
  get_flags = true;
  set_flags = true;
  inet_pton = λ ip. true;
  bind = false;
  listen = true;
}
