-- ===== src/Startup.antt =====
-- rpc_src/load_config/rpc_server_config and the constructor of rpc_src/core/rpc_client: what is
-- read, and which parts of the program are set up from it.
pub mod Steps
pub mod Registries
pub mod Ready
pub mod Listening
pub mod NewClient
pub mod Main
pub mod Samples
mod Tests
use my_rpc_project_v.Base.{
  ℕ, ◌^◌, List, [], ◌∷◌, ◌++◌, Option, none, some, Bool, true, false, Bytes, codes, if◌then◌else◌,
  ℤ, pos, wrap, to_int,
}
use my_rpc_project_v.Config.{
  Json, ThreadPoolConfig, RegistryConfig, Loaded, returned, threw, init_thread_pool_config,
  init_registry_config,
}
use my_rpc_project_v.Balancer.{Balancer, init_balancer}
use my_rpc_project_v.Discovery.{Handler, Answers, init_zk_conn_handler}

pub record ServerConfig : Type 0 where
  pub max_connections : ℕ
  pub servers_ip : Bytes
  pub servers_port : ℕ
  pub timeout : ℕ
  pub servers_name_prefix : Bytes
  pub thread_pool : ThreadPoolConfig
  pub registry : RegistryConfig

unfoldable pub set_servers_name_prefix : Bytes → ServerConfig → ServerConfig
set_servers_name_prefix v s = record s { servers_name_prefix = v }

unfoldable pub set_servers_ip : Bytes → ServerConfig → ServerConfig
set_servers_ip v s = record s { servers_ip = v }

unfoldable pub set_servers_port : ℤ → ServerConfig → ServerConfig
unfolding wrap
set_servers_port v s = record s { servers_port = wrap (2 ^ 16) v }

unfoldable pub set_timeout : ℤ → ServerConfig → ServerConfig
unfolding wrap
set_timeout v s = record s { timeout = wrap (2 ^ 32) v }

unfoldable pub set_max_connections : ℤ → ServerConfig → ServerConfig
unfolding wrap
set_max_connections v s = record s { max_connections = wrap (2 ^ 32) v }

-- The singletons that InitRpcServerConfig writes to, with the handles closed so far.
pub record Process : Type 0 where
  pub server : ServerConfig
  pub handler : Handler
  pub balancer : Option Balancer
  pub closed : List ℕ

-- A step says whether the next one follows; otherwise false is returned, by an exception or not.
infixl 5 ◌>>>◌
unfoldable pub ◌>>>◌ : Process × Bool → (Process → Process × Bool) → Process × Bool
(p, false) >>> next = (p, false)
(p, true) >>> next = next p

abbrev pub loaded : Loaded → Bool
loaded (returned b) = b
loaded threw = false

module _ (j : Json) (files : Bytes → Option Bytes) (a : Answers) where
  open j use {Value, parse, contains, field, text_value, number_value, text}

  unfoldable pub read_text :
      Value → Bytes → Bytes → (Bytes → ServerConfig → ServerConfig) → Process → Process × Bool
  read_text config key otherwise set p = elim (text_value config key otherwise) [
    | none ↦ (p, false)
    | some v ↦ (record p { server = set v p.server }, true)
  ]

  unfoldable pub read_number :
      Value → Bytes → ℕ → (ℤ → ServerConfig → ServerConfig) → Process → Process × Bool
  read_number config key otherwise set p = elim (number_value config key (pos otherwise)) [
    | none ↦ (p, false)
    | some v ↦ (record p { server = set (to_int v) p.server }, true)
  ]

  unfoldable pub read_basic : Value → Process → Process × Bool
  unfolding ◌>>>◌ read_text read_number set_servers_name_prefix set_servers_ip set_servers_port
      set_timeout set_max_connections
  read_basic config p =
      read_text config (codes "servers_name_prefix") (codes "myrpc") set_servers_name_prefix p
      >>> read_text config (codes "servers_ip") (codes "0.0.0.0") set_servers_ip
      >>> read_number config (codes "servers_port") 8989 set_servers_port
      >>> read_number config (codes "timeout") 3000 set_timeout
      >>> read_number config (codes "max_connections") 1000 set_max_connections

  unfoldable pub load_registry : Value → Process → Process × Bool
  unfolding init_registry_config
  load_registry config p =
      if contains config (codes "register_config")
      then elim (text_value config (codes "register_config") (codes "../config/servers.json")) [
        | none ↦ (p, false)
        | some name ↦
            let read = init_registry_config j (files name) p.server.registry in
            (record p { server = record p.server { registry = read.0 } }, loaded read.1)
      ]
      else (p, true)

  unfoldable pub load_thread_pool : Value → Process → Process × Bool
  unfolding init_thread_pool_config
  load_thread_pool config p =
      if contains config (codes "thread_pool")
      then elim (field config (codes "thread_pool")) [
        | none ↦ (p, false)
        | some v ↦
            let read = init_thread_pool_config j v p.server.thread_pool in
            (record p { server = record p.server { thread_pool = read.0 } }, read.1)
      ]
      else (p, true)

  unfoldable pub connect_zk : Value → Process → Process × Bool
  unfolding init_zk_conn_handler
  connect_zk config p =
      if contains config (codes "scheduler")
      then elim (field config (codes "scheduler")) [
        | none ↦ (p, false)
        | some v ↦
            let made = init_zk_conn_handler j v a p.handler in
            (record p { handler = made.0; closed = p.closed ++ made.2 }, made.1)
      ]
      else (p, true)

  unfoldable pub choose_balancer : Value → Process → Process × Bool
  unfolding init_balancer
  choose_balancer config p =
      if contains config (codes "load_balance_strategy")
      then elim (field config (codes "load_balance_strategy")) [
        | none ↦ (p, false)
        | some v ↦ elim (text v) [
          | none ↦ (p, false)
          | some strategy ↦
              (record p { balancer = (init_balancer strategy).0 }, (init_balancer strategy).1)
        ]
      ]
      else (p, true)

  unfoldable pub init_rpc_server_config : Bytes → Process → Process × Bool
  unfolding ◌>>>◌ read_basic load_registry load_thread_pool connect_zk choose_balancer
  init_rpc_server_config config_file p = elim (files config_file) [
    | none ↦ (p, false)
    | some file ↦ elim (parse file) [
      | none ↦ (p, false)
      | some config ↦
          read_basic config p
          >>> load_registry config
          >>> load_thread_pool config
          >>> connect_zk config
          >>> choose_balancer config
    ]
  ]
