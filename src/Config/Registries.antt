-- ===== src/Config/Registries.antt =====
-- What InitRegistryConfig is known to have read.
use my_rpc_project_v.Base.{
  length, not, ℤ, ℕ, ◌^◌, ◌<◌, ◌≡◌, ◌≢◌, refl, ap, arith, List, [], ◌∷◌, ◌++◌, Option, none, some,
  Bool, true, false, Bytes, codes, All, All-append, if◌then◌else◌, ◌||◌,
}
use my_rpc_project_v.Config.{
  Json, RegistryInfo, RegistryConfig, Loaded, returned, threw, Nodes, nodes_read, key_missing,
  node_threw, node_of, read_node, read_nodes, store_nodes, load_found, load_nodes, load_version,
  load_name, init_registry_config,
}
use my_rpc_project_v.Config.Checked.{wrap_below}

abbrev IsPort : RegistryInfo → Type 0
IsPort node = node.port < 2 ^ 16

abbrev HasPorts : Nodes → Type 0
HasPorts (nodes_read nodes) = All IsPort nodes
HasPorts key_missing = Unit
HasPorts node_threw = Unit

abbrev pub IsComplete : RegistryConfig → Type 0
IsComplete s = (s.service_name ≢ []) × (s.service_version ≢ []) × All IsPort s.registry_nodes

-- How InitRegistryConfig can end: it returns true with a name, a version and nodes whose ports are
-- ports; or it returns false or throws, and the nodes are those from before.
abbrev pub RegistryRead : RegistryConfig → RegistryConfig → Loaded → Type 0
RegistryRead c s (returned true) = IsComplete s
RegistryRead c s (returned false) = s.registry_nodes ≡ c.registry_nodes
RegistryRead c s threw = s.registry_nodes ≡ c.registry_nodes

module _ (j : Json) where
  read_node-HasPorts : (node : j.Value) → HasPorts (read_node j node)
  unfolding read_node
  read_node-HasPorts node =
      by_test (not (j.contains node (codes "address")) || not (j.contains node (codes "port"))) _ _
    where
      by_test :
          (t : Bool) (address : Option Bytes) (port : Option ℤ)
          → HasPorts (if t then key_missing else node_of j address port)
      by_test true address port = tt
      by_test false none port = tt
      by_test false (some address) none = tt
      by_test false (some address) (some port) = (wrap_below (2 ^ 16) port (omega arith), tt)

  read_nodes-HasPorts :
      (nodes : List j.Value) (found : List RegistryInfo)
      → All IsPort found
      → HasPorts (read_nodes j nodes found)
  unfolding read_nodes
  read_nodes-HasPorts [] found ports = ports
  read_nodes-HasPorts (node ∷ nodes) found ports =
      by_node (read_node j node) (read_node-HasPorts node) (λ more. read_nodes-HasPorts nodes more)
    where
      by_node :
          (n : Nodes)
          → HasPorts n
          → ((more : List RegistryInfo) → All IsPort more → HasPorts (read_nodes j nodes more))
          → HasPorts (elim n as (λ _. Nodes) [
            | nodes_read one ↦ read_nodes j nodes (found ++ one)
            | key_missing ↦ key_missing
            | node_threw ↦ node_threw
          ])
      by_node (nodes_read one) good ih = ih (found ++ one) (All-append IsPort found one ports good)
      by_node key_missing good ih = tt
      by_node node_threw good ih = tt

  abbrev Read : RegistryConfig → RegistryConfig × Loaded → Type 0
  Read c o = RegistryRead c o.0 o.1

  store_nodes-Read :
      (n : Nodes) (c : RegistryConfig)
      → HasPorts n
      → c.service_name ≢ []
      → c.service_version ≢ []
      → Read c (store_nodes j n c)
  store_nodes-Read (nodes_read found) c ports name version = (name, version, ports)
  store_nodes-Read key_missing c ports name version = refl
  store_nodes-Read node_threw c ports name version = refl

  load_nodes-Read :
      (config : j.Value) (c : RegistryConfig)
      → c.service_name ≢ []
      → c.service_version ≢ []
      → Read c (load_nodes j config c)
  load_nodes-Read config c name version =
      by_test (j.contains config (codes "registry_nodes")) (j.field config (codes "registry_nodes"))
    where
      by_test :
          (t : Bool) (nodes : Option j.Value)
          → Read c (if not t then (c, returned false) else load_found j nodes c)
      by_test false nodes = refl
      by_test true none = refl
      by_test true (some nodes) =
          store_nodes-Read (read_nodes j (j.elements nodes) []) c
            (read_nodes-HasPorts (j.elements nodes) [] tt) name version

  full : (x : ℕ) (xs : Bytes) → x ∷ xs ≢ []
  full x xs e = omega (arith, ap length e)

  load_version-Read :
      (config : j.Value) (version : Option Bytes) (c : RegistryConfig)
      → c.service_name ≢ []
      → Read c (load_version j config version c)
  load_version-Read config none c name = refl
  load_version-Read config (some []) c name = refl
  load_version-Read config (some (x ∷ version)) c name =
      load_nodes-Read config (record c { service_version = x ∷ version }) name (full x version)

  load_name-Read :
      (config : j.Value) (name : Option Bytes) (c : RegistryConfig)
      → Read c (load_name j config name c)
  load_name-Read config none c = refl
  load_name-Read config (some []) c = refl
  load_name-Read config (some (x ∷ name)) c =
      load_version-Read config (j.text_value config (codes "service_version") [])
        (record c { service_name = x ∷ name }) (full x name)

  -- InitRegistryConfig returns true only with a name, a version, and nodes that have ports of 16
  -- bits; where it returns false or throws, the nodes are those from before.
  pub init_registry_config-RegistryRead :
      (file : Option Bytes) (c : RegistryConfig)
      → RegistryRead c (init_registry_config j file c).0 (init_registry_config j file c).1
  unfolding init_registry_config
  init_registry_config-RegistryRead none c = refl
  init_registry_config-RegistryRead (some file) c = by_parse (j.parse file)
    where
      by_parse :
          (o : Option j.Value)
          → Read c (elim o as (λ _. RegistryConfig × Loaded) [
            | none ↦ (c, threw)
            | some config ↦ load_name j config (j.text_value config (codes "service_name") []) c
          ])
      by_parse none = refl
      by_parse (some config) =
          load_name-Read config (j.text_value config (codes "service_name") []) c
