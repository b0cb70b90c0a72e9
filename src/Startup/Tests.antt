-- ===== src/Startup/Tests.antt =====
-- A server and a client that start, and a socket that cannot be bound.
use my_rpc_project_v.Base.{
  ◌≡◌, refl, [], ◌∷◌, Option, none, some, true, Bytes, codes, bytes_eq, pos, wrap, to_int, to_text,
  digits, is_nonneg,
}
use my_rpc_project_v.Config.{
  init_thread_pool_config, read_core_threads, read_queue_size, read_keep_alive,
}
use my_rpc_project_v.Config.RpcClient.{ClientConfig}
use my_rpc_project_v.Config.Documents.{Value, num, str, pair, end, documents}
use my_rpc_project_v.Balancer.{init_balancer, find_factory, create_round_robin}
use my_rpc_project_v.Connection.{open_fd}
use my_rpc_project_v.Discovery.{
  Handler, init_zk_conn_handler, read_settings, ensure_zk_connection, wait_state, set_zk_host,
  set_zk_port, valid_port, set_zk_namespace, set_zk_retry_interval,
}
use my_rpc_project_v.Client.{Client}
use my_rpc_project_v.Startup.{
  ◌>>>◌, read_text, read_number, read_basic, load_registry, load_thread_pool, connect_zk,
  choose_balancer, init_rpc_server_config, set_servers_name_prefix, set_servers_ip,
  set_servers_port, set_timeout, set_max_connections,
}
use my_rpc_project_v.Startup.Registries.{IsRegistryReady}
use my_rpc_project_v.Startup.Ready.{
  IsPoolReady, IsOnline, HasBalancer, init_rpc_server_config-ready,
}
use my_rpc_project_v.Startup.Listening.{create_socket, new_socket, create_socket-closes}
use my_rpc_project_v.Startup.Samples.{
  handler, answers, unset, process, both_documents, the_file, after, taken,
}

starts :
    init_rpc_server_config (documents both_documents) the_file answers (codes "c") process
    ≡ (after, true)
unfolding init_rpc_server_config ◌>>>◌ read_basic read_text read_number load_registry
    load_thread_pool connect_zk choose_balancer set_servers_name_prefix set_servers_ip
    set_servers_port set_timeout set_max_connections init_thread_pool_config read_core_threads
    read_queue_size read_keep_alive bytes_eq wrap to_int to_text digits init_zk_conn_handler
    read_settings ensure_zk_connection wait_state set_zk_host set_zk_port valid_port
    set_zk_namespace set_zk_retry_interval init_balancer find_factory create_round_robin
starts = refl

init_rpc_server_config-ready_example :
    (file : Bytes) × (config : Value) × (◌≡◌ {A = Option Bytes} (some (codes "{}")) (some file))
    × ((documents both_documents).parse file ≡ some config)
    × IsPoolReady (documents both_documents) config process after
    × IsRegistryReady (documents both_documents) config after
    × IsOnline (documents both_documents) config after
    × HasBalancer (documents both_documents) config after
init_rpc_server_config-ready_example =
    init_rpc_server_config-ready (documents both_documents) the_file answers (codes "c") process
      after starts

-- The address is in use: the descriptor is closed, and not a second time by the destructor.
create_socket-closes_example : create_socket taken unset ≡ (none, pos 5 ∷ [])
unfolding is_nonneg bytes_eq new_socket
create_socket-closes_example = create_socket-closes taken unset

abbrev no_client : ClientConfig
no_client = record {
  zk_namespace = [];
  zk_host = [];
  zk_port = pos 0;
  timeout_ms = pos 0;
  retry_times = pos 0;
  server_port = pos 0;
}

abbrev client_config : ClientConfig
client_config = record {
  zk_namespace = codes "myrpc";
  zk_host = codes "localhost";
  zk_port = pos 2181;
  timeout_ms = pos 3000;
  retry_times = pos 3;
  server_port = pos 8989;
}

-- The object that the constructor builds of its configuration.
abbrev zk_config : ClientConfig → Value
zk_config c =
    pair (codes "zk_host") (str c.zk_host) (
      pair (codes "zk_port") (num c.zk_port) (pair (codes "zk_namespace") (str c.zk_namespace) end))

abbrev online : Client
online = record {
  server_ip = codes "h";
  server_port = pos 80;
  retry_times = 3;
  connection = some (open_fd (pos 5));
  sequence_id = 0;
  is_connected = true;
}

abbrev client_handler : Handler
client_handler = record handler {
  zk_client = some 8;
  zk_host = codes "localhost";
  zk_port = 2181;
  zk_namespace = codes "myrpc";
  retry_interval = pos 5;
}
