-- ===== src/Discovery/Registered.antt =====
-- The services of a configuration, from their registration to the list of servers.
use my_rpc_project_v.Base.{
  ℕ, ◌≤◌, ◌≡◌, refl, arith, List, [], ◌∷◌, Option, some, Bool, true, false, Bytes, length, inl, inr,
  All, Option-cases, if◌then◌else◌,
}
use my_rpc_project_v.Zookeeper.{Zookeeper, IsLawful, IsKept, Present, Listed, has_slash}
use my_rpc_project_v.Config.{RegistryInfo, RegistryConfig}
use my_rpc_project_v.Registry.{Registry, service_path, instance_path}
use my_rpc_project_v.Registry.Built.{Keeps}
use my_rpc_project_v.Registry.Present.{register_service_builds}
use my_rpc_project_v.Discovery.{Handler}
use my_rpc_project_v.Discovery.Registration.{
  Opening, service_address, register_nodes, register_services_from_config,
  get_or_create_service_registry,
}

both : (a b : Bool) → (if a then b else false) ≡ true → (a ≡ true) × (b ≡ true)
both a b h = ground arith

module _ (Z : Zookeeper) where
  abbrev pub Registered : Z.State → Bytes → RegistryInfo → Type 0
  Registered s service_name node =
      Present Z s (service_path service_name)
      × Present Z s (instance_path service_name (service_address node))

  abbrev Outcome : Type 0
  Outcome = Bool × Handler × List ℕ × Z.State

  -- registerServicesFromConfig returns, removes and changes nothing, and registers every node where
  -- it returns true.
  abbrev pub AllStored : Opening → RegistryConfig → Handler → Z.State → Type 0
  AllStored o config h s =
      (r : Outcome) × (register_services_from_config Z o (some config) h s ≡ some r)
      × Keeps Z s r.3
      × (r.0 ≡ true → All (Registered r.3 config.service_name) config.registry_nodes)

-- The addresses that can be names of nodes and fit into the buffer are among the servers.
abbrev pub AllListed : List RegistryInfo → List Bytes → Type 0
AllListed nodes servers =
    All
      (λ node.
        has_slash (service_address node) ≡ false
        → length (service_address node) ≤ 1024
        → Listed (service_address node) servers)
      nodes

module _ (Z : Zookeeper) (lawful : IsLawful Z) (kept : IsKept Z) where
  up : (s s' : Z.State) → Keeps Z s s' → {path : Bytes} → Present Z s path → Present Z s' path
  up s s' keeps {path} (n, v) = (n, keeps path n v)

  -- The loop returns, removes nothing, and is true at the end only if each node is registered.
  register_nodes_builds :
      (r : Registry) (service_name : Bytes) (nodes : List RegistryInfo) (so_far : Bool)
      (s : Z.State)
      → (o : Bool × Z.State) × (register_nodes Z r service_name nodes so_far s ≡ some o)
        × Keeps Z s o.1
        × (o.0 ≡ true → (so_far ≡ true) × All (Registered Z o.1 service_name) nodes)
  unfolding register_nodes
  register_nodes_builds r service_name [] so_far s =
      ((so_far, s), refl, (λ other n v. v), (λ e. (e, tt)))
  register_nodes_builds r service_name (node ∷ nodes) so_far s =
      let ((done, s1), run, keeps, builds) =
        register_service_builds Z lawful kept r service_name (service_address node) s in
      let (o, run', keeps', builds') =
        register_nodes_builds r service_name nodes (if done then so_far else false) s1 in
      (
        o,
        rw (run, register_nodes) run',
        (λ other n v. keeps' other n (keeps other n v)),
        λ e.
            let (so, rest) = builds' e in
            let (was_done, was) = both done so_far so in
            let (_, built, there) = builds was_done in
            (was, ((up s1 o.1 keeps' built.0, up s1 o.1 keeps' there), rest)),
      )

  -- registerServicesFromConfig returns, whatever ZooKeeper answers, and removes or changes no node.
  -- Where it returns true, the node of the service and the node of each instance are there.
  pub register_services_from_config_builds :
      (o : Opening) (config : RegistryConfig) (h : Handler) (s : Z.State) → AllStored Z o config h s
  unfolding register_services_from_config
  register_services_from_config_builds o config h s = by_nodes config.registry_nodes
    where
      got : Handler × Option Registry × List ℕ
      got = get_or_create_service_registry o h

      by_nodes :
          (nodes : List RegistryInfo)
          → let config' = record config { registry_nodes = nodes } in
            (r : Outcome Z) × (register_services_from_config Z o (some config') h s ≡ some r)
            × Keeps Z s r.3
            × (r.0 ≡ true → All (Registered Z r.3 config.service_name) nodes)
      by_nodes [] = ((true, h, [], s), refl, (λ other n v. v), (λ e. tt))
      by_nodes (node ∷ nodes) = elim (Option-cases got.1) [
        | inl e ↦ (
          (false, got.0, got.2, s),
          rw (e, register_services_from_config) refl,
          (λ other n v. v),
          (λ e. ground arith),
        )
        | inr (r, e) ↦
            let (done, run, keeps, builds) =
              register_nodes_builds r config.service_name (node ∷ nodes) true s in
            (
              (done.0, got.0, got.2, done.1),
              rw (e, register_services_from_config) (rw run refl),
              keeps,
              (λ e. (builds e).1),
            )
      ]
