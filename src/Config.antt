-- ===== src/Config.antt =====
-- rpc_src/load_config: the files' values and their checks. nlohmann::json is a parameter; `none` is
-- a call that throws.
pub mod Documents
pub mod Checked
pub mod Registries
pub mod RpcClient
mod Tests
use my_rpc_project_v.Base.{
  ℕ, ◌^◌, List, [], ◌∷◌, ◌++◌, Option, none, some, Bool, true, false, not, Bytes, codes, ◌==◌, ltb,
  ◌||◌, if◌then◌else◌, ℤ, pos, wrap, to_int,
}

pub record Json : Type 1 where
  pub Value : Type 0
  pub parse : Bytes → Option Value
  pub empty : Value → Bool
  pub contains : Value → Bytes → Bool
  -- operator[] of a key, and the elements that a range-based for runs over
  pub field : Value → Bytes → Option Value
  pub elements : Value → List Value
  -- value(key, default) of a string, and of a number before its conversion to the default's type
  pub text_value : Value → Bytes → Bytes → Option Bytes
  pub number_value : Value → Bytes → ℤ → Option ℤ
  -- The conversions of a value to a string and to a number.
  pub text : Value → Option Bytes
  pub number : Value → Option ℤ

pub record ThreadPoolConfig : Type 0 where
  pub max_threads : ℕ
  pub queue_size : ℕ
  pub keep_alive_time : ℕ
  pub core_threads : ℕ

pub record RegistryInfo : Type 0 where
  pub address : Bytes
  pub port : ℕ

pub record RegistryConfig : Type 0 where
  pub registry_nodes : List RegistryInfo
  pub service_name : Bytes
  pub service_version : Bytes

-- How a function that does not catch ends: with its result, or by the exception.
pub data Loaded : Type 0 where
  returned : Bool → Loaded
  threw : Loaded

-- How the loop over the nodes ends.
pub data Nodes : Type 0 where
  nodes_read : List RegistryInfo → Nodes
  key_missing node_threw : Nodes

module _ (j : Json) where
  open j use {
    Value, parse, empty, contains, field, elements, text_value, number_value, text, number,
  }

  -- config.value of a uint32_t, the last two steps of InitThreadPoolConfig.
  unfoldable pub read_keep_alive : Value → ThreadPoolConfig → ThreadPoolConfig × Bool
  unfolding wrap
  read_keep_alive config c = elim (number_value config (codes "keep_alive_time") (pos 60)) [
    | none ↦ (c, false)
    | some n ↦
        if wrap (2 ^ 32) n == 0
        then (c, false)
        else (record c { keep_alive_time = wrap (2 ^ 32) n }, true)
  ]

  unfoldable pub read_queue_size : Value → ThreadPoolConfig → ThreadPoolConfig × Bool
  unfolding read_keep_alive wrap
  read_queue_size config c = elim (number_value config (codes "queue_size") (pos 100)) [
    | none ↦ (c, false)
    | some n ↦
        if wrap (2 ^ 32) n == 0
        then (c, false)
        else read_keep_alive config (record c { queue_size = wrap (2 ^ 32) n })
  ]

  unfoldable pub read_core_threads : Value → ℕ → ThreadPoolConfig → ThreadPoolConfig × Bool
  unfolding read_queue_size wrap
  read_core_threads config most c = elim (number_value config (codes "core_threads") (pos most)) [
    | none ↦ (c, false)
    | some n ↦
        if wrap (2 ^ 16) n == 0 || ltb most (wrap (2 ^ 16) n)
        then (c, false)
        else read_queue_size config (record c { core_threads = wrap (2 ^ 16) n })
  ]

  unfoldable pub init_thread_pool_config : Value → ThreadPoolConfig → ThreadPoolConfig × Bool
  unfolding read_core_threads wrap
  init_thread_pool_config config c = elim (number_value config (codes "max_threads") (pos 10)) [
    | none ↦ (c, false)
    | some n ↦
        if wrap (2 ^ 16) n == 0
        then (c, false)
        else read_core_threads config (wrap (2 ^ 16) n) (record c { max_threads = wrap (2 ^ 16) n })
  ]

  -- node["address"] and node["port"] with their conversions.
  abbrev read_address : Value → Option Bytes
  read_address node = elim (field node (codes "address")) [ none ↦ none | some v ↦ text v ]

  abbrev read_port : Value → Option ℤ
  read_port node = elim (field node (codes "port")) [ none ↦ none | some v ↦ number v ]

  unfoldable pub node_of : Option Bytes → Option ℤ → Nodes
  unfolding wrap
  node_of none port = node_threw
  node_of (some address) none = node_threw
  node_of (some address) (some port) =
      nodes_read (record { address = address; port = wrap (2 ^ 16) port } ∷ [])

  unfoldable pub read_node : Value → Nodes
  unfolding node_of
  read_node node =
      if not (contains node (codes "address")) || not (contains node (codes "port"))
      then key_missing
      else node_of (read_address node) (read_port node)

  unfoldable pub read_nodes : List Value → List RegistryInfo → Nodes
  unfolding read_node
  read_nodes [] found = nodes_read found
  read_nodes (node ∷ nodes) found = elim (read_node node) [
    | nodes_read one ↦ read_nodes nodes (found ++ one)
    | key_missing ↦ key_missing
    | node_threw ↦ node_threw
  ]

  abbrev pub store_nodes : Nodes → RegistryConfig → RegistryConfig × Loaded
  store_nodes (nodes_read found) c = (record c { registry_nodes = found }, returned true)
  store_nodes key_missing c = (c, returned false)
  store_nodes node_threw c = (c, threw)

  abbrev pub load_found : Option Value → RegistryConfig → RegistryConfig × Loaded
  load_found none c = (c, threw)
  load_found (some nodes) c = store_nodes (read_nodes (elements nodes) []) c

  abbrev pub load_nodes : Value → RegistryConfig → RegistryConfig × Loaded
  load_nodes config c =
      if not (contains config (codes "registry_nodes"))
      then (c, returned false)
      else load_found (field config (codes "registry_nodes")) c

  abbrev pub load_version : Value → Option Bytes → RegistryConfig → RegistryConfig × Loaded
  load_version config none c = (c, threw)
  load_version config (some []) c = (c, returned false)
  load_version config (some (x ∷ version)) c =
      load_nodes config (record c { service_version = x ∷ version })

  abbrev pub load_name : Value → Option Bytes → RegistryConfig → RegistryConfig × Loaded
  load_name config none c = (c, threw)
  load_name config (some []) c = (c, returned false)
  load_name config (some (x ∷ name)) c =
      load_version config (text_value config (codes "service_version") [])
        (record c { service_name = x ∷ name })

  -- `file` is what the named file holds; `none` is a file that cannot be opened.
  unfoldable pub init_registry_config : Option Bytes → RegistryConfig → RegistryConfig × Loaded
  unfolding read_nodes
  init_registry_config none c = (c, returned false)
  init_registry_config (some file) c = elim (parse file) [
    | none ↦ (c, threw)
    | some config ↦ load_name config (text_value config (codes "service_name") []) c
  ]
