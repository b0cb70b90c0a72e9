-- ===== src/Discovery/Tests.antt =====
-- A service of two nodes that is registered, found, and connected to.
use my_rpc_project_v.Base.{
  zero, suc, ◌≡◌, ◌⊎◌, refl, arith, List, [], ◌∷◌, ◌++◌, none, some, true, false, Bytes, codes,
  bytes_eq, pos,
}
use my_rpc_project_v.Zookeeper.{Node, Listed, connected, connecting, expired}
use my_rpc_project_v.Registry.{session}
use my_rpc_project_v.Registry.Memory.{memory, memory-IsLawful, memory-IsKept}
use my_rpc_project_v.Config.{RegistryInfo, RegistryConfig}
use my_rpc_project_v.Balancer.{round, select_server, select, select_round, get_instance}
use my_rpc_project_v.Client.{Client, opened, returned, connect}
use my_rpc_project_v.Discovery.{
  Handler, Answers, ensure_zk_connection, wait_state, get_all_servers, get_server,
  update_servers_from_zk, list_servers, read_nodes,
}
use my_rpc_project_v.Discovery.Registration.{Opening, service_address}
use my_rpc_project_v.Discovery.Ensure.{Settled, ensure_zk_connection-settles, get_server_dead}
use my_rpc_project_v.Discovery.Found.{Held, get_server-Held}
use my_rpc_project_v.Discovery.Registered.{AllStored, register_services_from_config_builds}
use my_rpc_project_v.Discovery.Addresses.{connected_to, connect-service_address}

abbrev client : Client
client = record {
  server_ip = [];
  server_port = pos 0;
  retry_times = 3;
  connection = none;
  sequence_id = 0;
  is_connected = false;
}

abbrev fresh : Handler
fresh = record {
  zk_client = none;
  zk_host = codes "zk";
  zk_port = 2181;
  zk_namespace = codes "/myrpc";
  retry_interval = pos 5;
  servers = [];
  service_registry = none;
  running = false;
  cleanup_done = false;
}

abbrev opening : Opening
opening = record {
  init = λ host. some 7;
  early = [];
  rounds = (session connected ∷ []) ∷ [];
  late = [];
}

abbrev slow : Answers
slow = record {
  init = λ host. some 8;
  state =
      λ round. elim round [ zero ↦ connecting | suc zero ↦ connecting | suc (suc n) ↦ connected ];
}

abbrev gone : Answers
gone = record { init = λ host. some 8; state = λ round. expired }

abbrev node_a : RegistryInfo
node_a = record { address = codes "10.0.0.1"; port = 8989 }

abbrev node_b : RegistryInfo
node_b = record { address = codes "10.0.0.2"; port = 80 }

abbrev config : RegistryConfig
config = record {
  registry_nodes = node_a ∷ node_b ∷ [];
  service_name = codes "echo";
  service_version = codes "1";
}

abbrev with_registry : Handler
with_registry = record fresh {
  service_registry = some (record { zk_handle = some 7; is_connected = true });
}

abbrev persistent : Node
persistent = record { contents = []; ephemeral = false }

abbrev instance_of : Bytes → Bytes × Node
instance_of address =
    (codes "/myrpc/echo/" ++ address, record { contents = address; ephemeral = true })

abbrev tree : List (Bytes × Node)
tree =
    instance_of (codes "10.0.0.2:80")
    ∷ instance_of (codes "10.0.0.1:8989")
    ∷ (codes "/myrpc/echo", persistent)
    ∷ (codes "/myrpc", persistent)
    ∷ []

finds :
    (get_server memory slow (some (round 0)) 0 (codes "/myrpc/echo") fresh tree).0
    ≡ codes "10.0.0.2:80"
unfolding get_server update_servers_from_zk get_all_servers ensure_zk_connection wait_state
    list_servers read_nodes bytes_eq select_server select select_round get_instance
finds = refl

ensure_zk_connection-settles_example : Settled slow fresh
ensure_zk_connection-settles_example = ensure_zk_connection-settles slow fresh

get_server_dead_example :
    get_server memory gone
      (some (round 0))
      0
      (codes "/myrpc/echo")
      (record fresh { zk_client = some 8; cleanup_done = true })
      tree
    ≡ (
      [],
      some (round 0),
      record fresh { zk_client = some 8; cleanup_done = true; servers = [] },
      [],
      tree,
    )
get_server_dead_example =
    get_server_dead memory gone (some (round 0)) 0 (codes "/myrpc/echo") fresh 8 tree refl

get_server-Held_example :
    let o = get_server memory slow (some (round 0)) 0 (codes "/myrpc/echo") fresh tree in
    ((o.0 ≡ []) × (o.2.servers ≡ []))
    ⊎ (Listed o.0 o.2.servers
        × Held memory memory-IsLawful memory-IsKept o.4 (codes "/myrpc/echo") o.0)
get_server-Held_example =
    get_server-Held memory memory-IsLawful memory-IsKept slow (some (round 0)) 0
      (codes "/myrpc/echo") fresh tree

register_services_from_config_builds_example : AllStored memory opening config fresh []
register_services_from_config_builds_example =
    register_services_from_config_builds memory memory-IsLawful memory-IsKept opening config fresh
      []

connect-service_address_example :
    connect
      (record { server_address = service_address node_a; socket = opened (pos 5) } ∷ [])
      client
    ≡ some (connected_to node_a (pos 5) client, returned true)
connect-service_address_example =
    connect-service_address node_a (pos 5) [] client refl (omega arith) refl (omega arith)
