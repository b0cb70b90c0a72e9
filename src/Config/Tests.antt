-- ===== src/Config/Tests.antt =====
-- Configurations read from small documents.
use my_rpc_project_v.Base.{
  ◌<◌, ◌≡◌, refl, [], ◌∷◌, some, true, false, codes, bytes_eq, pos, wrap, to_int,
}
use my_rpc_project_v.Config.{
  ThreadPoolConfig, RegistryConfig, returned, threw, init_thread_pool_config, read_core_threads,
  read_queue_size, read_keep_alive, init_registry_config, read_nodes, read_node, node_of,
}
use my_rpc_project_v.Config.RpcClient.{ClientConfig, init_rpc_client_config, read_client_config}
use my_rpc_project_v.Config.Documents.{Value, num, str, pair, item, end, documents}
use my_rpc_project_v.Config.Checked.{init_thread_pool_config-IsPool}
use my_rpc_project_v.Pool.{here, create}
use my_rpc_project_v.Pool.Invariant.{IsPool}

abbrev no_pool : ThreadPoolConfig
no_pool = record { max_threads = 0; queue_size = 0; keep_alive_time = 0; core_threads = 0 }

abbrev small : Value
small = pair (codes "max_threads") (num (pos 4)) (pair (codes "core_threads") (num (pos 2)) end)

abbrev small_pool : ThreadPoolConfig
small_pool = record { max_threads = 4; queue_size = 100; keep_alive_time = 60; core_threads = 2 }

accepts_small : init_thread_pool_config (documents end) small no_pool ≡ (small_pool, true)
unfolding init_thread_pool_config read_core_threads read_queue_size read_keep_alive bytes_eq wrap
accepts_small = refl

-- 65536 threads are none.
refuses_wrapped :
    init_thread_pool_config
      (documents end)
      (pair (codes "max_threads") (num (pos 65536)) end)
      no_pool
    ≡ (no_pool, false)
unfolding init_thread_pool_config read_core_threads read_queue_size read_keep_alive bytes_eq wrap
refuses_wrapped = refl

init_thread_pool_config-IsPool_example : IsPool (create 2 4 100) × (0 < 2)
init_thread_pool_config-IsPool_example =
    init_thread_pool_config-IsPool (documents end) small no_pool small_pool (create 2 4 100)
      accepts_small here

abbrev registry : Value
registry = pair (codes "service_name") (str (codes "echo")) (
    pair (codes "service_version") (str (codes "1")) (
      pair (codes "registry_nodes")
        (item (pair (codes "address") (str (codes "h")) (pair (codes "port") (num (pos 65616)) end))
          end)
        end))

abbrev no_registry : RegistryConfig
no_registry = record { registry_nodes = []; service_name = []; service_version = [] }

-- A port above 65535 is reduced.
reads_registry : init_registry_config (documents registry) (some (codes "{}")) no_registry ≡ (
  record {
    registry_nodes = record { address = codes "h"; port = 80 } ∷ [];
    service_name = codes "echo";
    service_version = codes "1";
  },
  returned true,
)
unfolding init_registry_config read_nodes read_node node_of bytes_eq wrap
reads_registry = refl

abbrev no_client : ClientConfig
no_client = record {
  zk_namespace = [];
  zk_host = [];
  zk_port = pos 0;
  timeout_ms = pos 0;
  retry_times = pos 0;
  server_port = pos 0;
}

-- A broken file throws, and so does a value of another type, behind the values already set.
broken_file : init_rpc_client_config (documents end) (some []) no_client ≡ (no_client, threw)
unfolding init_rpc_client_config
broken_file = refl

wrong_type :
    init_rpc_client_config
      (documents (pair (codes "zk_host") (num (pos 1)) end))
      (some (codes "{}"))
      no_client
    ≡ (record no_client { zk_namespace = codes "myrpc" }, threw)
unfolding init_rpc_client_config read_client_config bytes_eq to_int
wrong_type = refl
