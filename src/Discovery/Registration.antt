-- ===== src/Discovery/Registration.antt =====
-- zk_conn_handler.cpp: the registration of services through the one ServiceRegistry.
use my_rpc_project_v.Base.{
  ℕ, List, [], ◌∷◌, ◌++◌, Option, none, some, Bool, true, false, Bytes, if◌then◌else◌, to_text,
}
use my_rpc_project_v.Zookeeper.{Zookeeper}
use my_rpc_project_v.Registry.{
  Registry, WatchEvent, watch, create_registry, registry_connected, register_service,
}
use my_rpc_project_v.Config.{RegistryInfo, RegistryConfig}
use my_rpc_project_v.Discovery.{Handler, conn_string, handles}

-- What the constructor of a ServiceRegistry meets: zookeeper_init's answer, the events before its
-- waiting, in each round of it, and in the second after it.
pub record Opening : Type 0 where
  pub init : Bytes → Option ℕ
  pub early : List WatchEvent
  pub rounds : List (List WatchEvent)
  pub late : List WatchEvent

-- The handler, the result, and the handles closed.
unfoldable pub create_service_registry_if_needed : Opening → Handler → Handler × Bool × List ℕ
unfolding create_registry watch registry_connected
create_service_registry_if_needed o h =
    elim (create_registry (o.init (conn_string h)) o.early o.rounds) [
      | none ↦ (record h { service_registry = none }, false, [])
      | some r ↦
          let r' = watch o.late r in
          if registry_connected r'
          then (record h { service_registry = some r' }, true, [])
          else (record h { service_registry = none }, false, handles r'.zk_handle)
    ]

-- A null pointer is `none`.
unfoldable pub get_or_create_service_registry :
    Opening → Handler → Handler × Option Registry × List ℕ
unfolding create_service_registry_if_needed
get_or_create_service_registry o h = elim h.service_registry [
  | some r ↦ (h, some r, [])
  | none ↦
      let made = create_service_registry_if_needed o h in
      (made.0, if made.1 then made.0.service_registry else none, made.2)
]

unfoldable pub service_address : RegistryInfo → Bytes
unfolding to_text
service_address node = node.address ++ (b':' ∷ to_text node.port)

module _ (Z : Zookeeper) where
  -- The loop over the nodes of the configuration with all_success.
  unfoldable pub register_nodes :
      Registry → Bytes → List RegistryInfo → Bool → Z.State → Option (Bool × Z.State)
  unfolding register_service service_address
  register_nodes r service_name [] all_success s = some (all_success, s)
  register_nodes r service_name (node ∷ nodes) all_success s =
      elim (register_service Z r service_name (service_address node) s) [
        | none ↦ none
        | some (done, s1) ↦
            register_nodes r service_name nodes (if done then all_success else false) s1
      ]

  -- ZkConnHandler::registerService. `none` is a call that does not return.
  unfoldable pub register_one :
      Opening → Bytes → Bytes → Handler → Z.State → Option (Bool × Handler × List ℕ × Z.State)
  unfolding get_or_create_service_registry register_service
  register_one o service_name address h s =
      let got = get_or_create_service_registry o h in
      elim got.1 [
        | none ↦ some (false, got.0, got.2, s)
        | some r ↦ elim (register_service Z r service_name address s) [
          | none ↦ none
          | some (done, s1) ↦ some (done, got.0, got.2, s1)
        ]
      ]

  -- registerServicesFromConfig; a null configuration is `none`.
  unfoldable pub register_services_from_config :
      Opening
      → Option RegistryConfig
      → Handler
      → Z.State
      → Option (Bool × Handler × List ℕ × Z.State)
  unfolding get_or_create_service_registry register_nodes
  register_services_from_config o none h s = some (true, h, [], s)
  register_services_from_config o (some config) h s = elim config.registry_nodes [
    | [] ↦ some (true, h, [], s)
    | node ∷ nodes ↦
        let got = get_or_create_service_registry o h in
        elim got.1 [
          | none ↦ some (false, got.0, got.2, s)
          | some r ↦ elim (register_nodes r config.service_name (node ∷ nodes) true s) [
            | none ↦ none
            | some (all_success, s1) ↦ some (all_success, got.0, got.2, s1)
          ]
        ]
  ]
