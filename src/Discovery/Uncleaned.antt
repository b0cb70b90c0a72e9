-- ===== src/Discovery/Uncleaned.antt =====
-- Operations of the handler that do not call cleanup where they succeed.
use my_rpc_project_v.Base.{
  ℕ, ◌≡◌, ◌∙◌, inl, inr, ap, arith, List, [], ◌∷◌, Option, some, Bool, true, false, Bool-cases, not,
  if◌then◌else◌,
}
use my_rpc_project_v.Config.{Json, RegistryConfig}
use my_rpc_project_v.Zookeeper.{Zookeeper}
use my_rpc_project_v.Discovery.{
  Handler, Answers, cleanup, ensure_zk_connection, init_zk_conn_handler, read_settings, has_client,
}
use my_rpc_project_v.Discovery.Ensure.{settles, ensure_zk_connection-settles}
use my_rpc_project_v.Discovery.Registration.{
  Opening, register_services_from_config, get_or_create_service_registry,
}

-- cleanup has been called as often before as after.
abbrev pub Same : Handler → Handler → Type 0
Same h h' = h'.cleanup_done ≡ h.cleanup_done

ensure_zk_connection-Same :
    (a : Answers) (h : Handler)
    → (ensure_zk_connection a h).1 ≡ true
    → Same h (ensure_zk_connection a h).0
ensure_zk_connection-Same a h up = elim (ensure_zk_connection-settles a h) [
  | inl (missing, e) ↦ absurd (ground (arith, ap (λ o. o.1) e, up))
  | inr (client, there, e) ↦ elim (Bool-cases (settles (a.state 1 ∷ a.state 2 ∷ a.state 3 ∷ []))) [
    | inl t ↦ ap (λ (o : Handler × Bool × List ℕ). o.0.cleanup_done) (rw t at e)
    | inr f ↦ absurd (ground (arith, ap (λ (o : Handler × Bool × List ℕ). o.1) (rw f at e), up))
  ]
]

module _ (j : Json) where
  read_settings-Same : (config : j.Value) (h : Handler) → Same h (read_settings j config h).0
  unfolding read_settings
  read_settings-Same config h = ground arith

  pub init_zk_conn_handler-Same :
      (config : j.Value) (a : Answers) (h : Handler)
      → (init_zk_conn_handler j config a h).1 ≡ true
      → Same h (init_zk_conn_handler j config a h).0
  unfolding init_zk_conn_handler
  init_zk_conn_handler-Same config a h up =
      by_tests (j.empty config) (read_settings j config h).1
        (has_client (ensure_zk_connection a (read_settings j config h).0).0) up
    where
      read : Handler × Bool
      read = read_settings j config h

      ensured : Handler × Bool × List ℕ
      ensured = ensure_zk_connection a read.0

      by_tests :
          (empty good there : Bool)
          → let o : Handler × Bool × List ℕ =
              if empty
              then (h, false, [])
              else if not good
              then ((cleanup read.0).0, false, (cleanup read.0).1)
              else if not there
              then (ensured.0, false, ensured.2)
              else (ensured.0, ensured.1, ensured.2) in
            o.1 ≡ true → Same h o.0
      by_tests true good there e = absurd (ground arith)
      by_tests false false there e = absurd (ground arith)
      by_tests false true false e = absurd (ground arith)
      by_tests false true true e =
          ensure_zk_connection-Same a read.0 e ∙ read_settings-Same config h

get_or_create-Same : (o : Opening) (h : Handler) → Same h (get_or_create_service_registry o h).0
unfolding get_or_create_service_registry
get_or_create-Same o h = ground (arith, get_or_create_service_registry)

module _ (Z : Zookeeper) where
  pub register-Same :
      (o : Opening) (config : Option RegistryConfig) (h h' : Handler) (done : Bool)
      (closed : List ℕ) (s s' : Z.State)
      → register_services_from_config Z o config h s ≡ some (done, h', closed, s')
      → Same h h'
  unfolding register_services_from_config
  register-Same o config h h' done closed s s' e = ground (arith, e, get_or_create-Same o h)
