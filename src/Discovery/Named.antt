-- ===== src/Discovery/Named.antt =====
-- What the nodes below a service hold after its registration.
use mathlib.Core.Option.{some-injective}
use my_rpc_project_v.Base.{
  ℕ, ◌≡◌, refl, ap, arith, subst, List, [], ◌∷◌, Option, none, some, Bool, true, false, Bytes, inl,
  inr, Option-cases, if◌then◌else◌,
}
use my_rpc_project_v.Zookeeper.{Zookeeper, AddsNamed}
use my_rpc_project_v.Config.{RegistryInfo, RegistryConfig}
use my_rpc_project_v.Registry.{Registry, service_path, register_service}
use my_rpc_project_v.Registry.Named.{NamedBelow, register_service-NamedBelow}
use my_rpc_project_v.Discovery.{Handler}
use my_rpc_project_v.Discovery.Registration.{
  Opening, service_address, register_nodes, register_services_from_config,
  get_or_create_service_registry,
}

module _ (Z : Zookeeper) (service_name : Bytes)
    (adds : AddsNamed Z (service_path service_name)) where
  abbrev Below : Z.State → Type 0
  Below s = NamedBelow Z (service_path service_name) s

  abbrev Outcome : Type 0
  Outcome = Bool × Handler × List ℕ × Z.State

  register_nodes-NamedBelow :
      (r : Registry) (nodes : List RegistryInfo) (so_far : Bool) (s : Z.State) (o : Bool × Z.State)
      → register_nodes Z r service_name nodes so_far s ≡ some o
      → Below s
      → Below o.1
  unfolding register_nodes
  register_nodes-NamedBelow r [] so_far s o e named =
      subst (λ (o : Bool × Z.State). Below o.1) (some-injective _ _ e) named
  register_nodes-NamedBelow r (node ∷ nodes) so_far s o e named =
      elim (Option-cases (register_service Z r service_name (service_address node) s)) [
        | inl endless ↦ absurd (ground (arith, e, endless))
        | inr ((done, s1), run) ↦
            register_nodes-NamedBelow r nodes (if done then so_far else false) s1 o
              (rw (run, register_nodes) at e)
              (register_service-NamedBelow Z service_name adds r (service_address node) s (done, s1)
                run named)
      ]

  pub register_services_from_config-NamedBelow :
      (o : Opening) (config : RegistryConfig) (h h1 : Handler) (done : Bool) (closed : List ℕ)
      (s s1 : Z.State)
      → config.service_name ≡ service_name
      → register_services_from_config Z o (some config) h s ≡ some (done, h1, closed, s1)
      → Below s
      → Below s1
  unfolding register_services_from_config
  register_services_from_config-NamedBelow o config h h1 done closed s s1 same e named =
      by_nodes config.registry_nodes e
    where
      got : Handler × Option Registry × List ℕ
      got = get_or_create_service_registry o h

      by_run :
          (result : Option (Bool × Z.State)) (nodes : List RegistryInfo) (r : Registry)
          → register_nodes Z r config.service_name nodes true s ≡ result
          → ◌≡◌ {A = Option Outcome}
              (elim result as (λ _. Option Outcome) [
                | none ↦ none
                | some (all_success, s2) ↦ some (all_success, got.0, got.2, s2)
              ])
              (some (done, h1, closed, s1))
          → Below s1
      by_run none nodes r run e = absurd (ground (arith, e))
      by_run (some (all, s2)) nodes r run e =
          subst Below (ap (λ (x : Outcome). x.3) (some-injective _ _ e)) (
            register_nodes-NamedBelow r nodes true s (all, s2)
              (subst (λ (n : Bytes). register_nodes Z r n nodes true s ≡ some (all, s2)) same run)
              named)

      by_nodes :
          (nodes : List RegistryInfo)
          → register_services_from_config Z o (some (record config { registry_nodes = nodes })) h s
            ≡ some (done, h1, closed, s1)
          → Below s1
      by_nodes [] e = subst Below (ap (λ (x : Outcome). x.3) (some-injective _ _ e)) named
      by_nodes (node ∷ nodes) e = elim (Option-cases got.1) [
        | inl closed_off ↦
            subst Below
              (ap (λ (x : Outcome). x.3)
                (some-injective _ _ (rw (closed_off, register_services_from_config) at e)))
              named
        | inr (r, there) ↦
            by_run (register_nodes Z r config.service_name (node ∷ nodes) true s) (node ∷ nodes) r
              refl (rw (there, register_services_from_config) at e)
      ]
