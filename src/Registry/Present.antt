-- ===== src/Registry/Present.antt =====
-- What registerService leaves behind in ZooKeeper.
use my_rpc_project_v.Base.{
  ◌≡◌, inl, inr, refl, arith, ◌++◌, some, Bool, true, false, Bytes, codes, Bool-cases,
  if◌then◌else◌,
}
use my_rpc_project_v.Zookeeper.{Zookeeper, IsLawful, IsKept, Present}
use my_rpc_project_v.Registry.{
  Registry, create_node, has_handle, registry_connected, register_service, service_path,
  instance_path,
}
use my_rpc_project_v.Registry.Built.{Built, Keeps, create_made, ensure_path_builds, Built-create}

module _ (Z : Zookeeper) where
  -- registerService returns, removes and changes nothing, and where it returns true the client is
  -- connected, and the nodes of the service, above it and of the instance are there.
  abbrev pub Stored : Registry → Bytes → Bytes → Z.State → Type 0
  Stored r name address s =
      (o : Bool × Z.State) × (register_service Z r name address s ≡ some o)
      × Keeps Z s o.1
      × (o.0 ≡ true
          → (registry_connected r ≡ true)
            × Built Z o.1 (service_path name)
            × Present Z o.1 (instance_path name address))

module _ (Z : Zookeeper) (lawful : IsLawful Z) (kept : IsKept Z) where
  -- registerService returns, whatever ZooKeeper answers, and removes or changes no node. Where it
  -- returns true the client is connected, the nodes of the service and above it are there, and so is
  -- the node of the instance.
  pub register_service_builds :
      (r : Registry) (name address : Bytes) (s : Z.State) → Stored Z r name address s
  unfolding register_service
  register_service_builds r name address s = elim (Bool-cases (registry_connected r)) [
    | inr e ↦ ((false, s), rw (e, register_service) refl, (λ other n v. v), (λ done. ground arith))
    | inl e ↦
        let ((made, s1), run, keeps, builds) =
          ensure_path_builds Z lawful kept r b'/' (codes "myrpc/" ++ name) s in
        let (keeps', builds') = last made s1 builds in
        (
          if made
              then create_node Z r (instance_path name address) address true s1
              else (false, s1),
          rw (e, register_service) (rw run refl),
          (λ other n v. keeps' other n (keeps other n v)),
          (λ done. (e, (builds' done).0, (builds' done).1)),
        )
  ]
    where
      last :
          (made : Bool) (s1 : Z.State)
          → (made ≡ true → Built Z s1 (service_path name))
          → let o : Bool × Z.State =
              if made
              then create_node Z r (instance_path name address) address true s1
              else (false, s1) in
            Keeps Z s1 o.1
            × (o.0 ≡ true
                → Built Z o.1 (service_path name) × Present Z o.1 (instance_path name address))
      last false s1 builds = ((λ other n v. v), (λ done. ground arith))
      last true s1 builds = elim (Bool-cases (has_handle r)) [
        | inr h ↦ rw (h, create_node) ((λ other n v. v), (λ done. ground arith))
        | inl h ↦
            rw (h, create_node)
              (
                (λ other n v.
                    kept.create_kept s1 (instance_path name address) address other true n v),
                (λ done. (
                  Built-create Z lawful kept (service_path name) (instance_path name address)
                      address true s1 (builds refl),
                  create_made Z lawful kept s1 (instance_path name address) address true done,
                )),
              )
      ]
