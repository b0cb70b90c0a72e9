-- ===== src/Discovery/Found.antt =====
-- What getAllServers and getServer find in ZooKeeper.
use mathlib.Core.Option.{some-injective}
use my_rpc_project_v.Base.{
  ℕ, zero, suc, ◌<◌, ◌≡◌, ◌≢◌, ◌⊎◌, ◌∙◌, inl, inr, refl, sym, ap, arith, List, [], ◌∷◌, Option,
  none, some, Bool, true, false, Bytes, length, get_or, take, if◌then◌else◌, subst,
}
use my_rpc_project_v.Zookeeper.{
  Zookeeper, IsLawful, IsKept, IsUp, Present, Listed, Node, child, has_slash,
}
use my_rpc_project_v.Balancer.{Balancer}
use my_rpc_project_v.Balancer.Choice.{select_server_choice}
use my_rpc_project_v.Discovery.{
  Handler, Answers, push, choose, read_nodes, list_servers, ensure_zk_connection, get_all_servers,
  get_server,
}

get_or-Listed :
    (servers : List Bytes) (i : ℕ) → i < length servers → Listed (get_or servers i []) servers
get_or-Listed [] i h = absurd (omega arith)
get_or-Listed (x ∷ servers) zero h = inl refl
get_or-Listed (x ∷ servers) (suc i) h = inr (get_or-Listed servers i (omega arith))

choose-Listed :
    (instance_ : Option Balancer) (drawn : ℕ) (servers : List Bytes)
    → ((servers ≡ []) × ((choose instance_ drawn servers).0 ≡ []))
      ⊎ Listed (choose instance_ drawn servers).0 servers
choose-Listed instance_ drawn [] = inl (refl, refl)
choose-Listed instance_ drawn (x ∷ servers) =
    elim (select_server_choice instance_ drawn (x ∷ servers)) [
      | inl (e, _) ↦ ground arith
      | inr (i, below, e) ↦ inr (
          subst (λ (server : Bytes). Listed server (x ∷ servers)) (sym e)
            (get_or-Listed (x ∷ servers) i below))
    ]

module _ (Z : Zookeeper) (lawful : IsLawful Z) (kept : IsKept Z) where
  read_nodes_kept :
      (zk_namespace : Bytes) (names : List Bytes) (s : Z.State) (other : Bytes) (n : Node)
      → Z.value s other ≡ some n
      → Z.value (read_nodes Z zk_namespace names s).1 other ≡ some n
  unfolding read_nodes
  read_nodes_kept zk_namespace [] s other n v = v
  read_nodes_kept zk_namespace (name ∷ names) s other n v =
      read_nodes_kept zk_namespace names (Z.get s (child zk_namespace name)).1 other n
        (kept.get_kept s (child zk_namespace name) other n v)

  -- A server is what a node of the namespace holds, as far as the buffer goes.
  abbrev pub Held : Z.State → Bytes → Bytes → Type 0
  Held s zk_namespace server =
      (name : Bytes) × (n : Node) × (Z.value s (child zk_namespace name) ≡ some n)
      × (server ≡ take 1024 n.contents)

  push-Listed :
      (got : Option Bytes) (server : Bytes) (servers : List Bytes)
      → Listed server (push got servers)
      → (got ≡ some server) ⊎ Listed server servers
  push-Listed none server servers l = inr l
  push-Listed (some []) server servers l = inr l
  push-Listed (some (x ∷ text)) server servers (inl e) = inl (ap some (sym e))
  push-Listed (some (x ∷ text)) server servers (inr l) = inr l

  read_nodes-Held :
      (zk_namespace : Bytes) (names : List Bytes) (s : Z.State) (server : Bytes)
      → Listed server (read_nodes Z zk_namespace names s).0
      → Held (read_nodes Z zk_namespace names s).1 zk_namespace server
  unfolding read_nodes
  read_nodes-Held zk_namespace [] s server l = elim l [ ]
  read_nodes-Held zk_namespace (name ∷ names) s server l =
      elim (push-Listed (Z.get s (child zk_namespace name)).0 server
        (read_nodes Z zk_namespace names (Z.get s (child zk_namespace name)).1).0 l) [
          | inr later ↦
              read_nodes-Held zk_namespace names (Z.get s (child zk_namespace name)).1 server later
          | inl e ↦
              let (n, v, t) = lawful.get_some s (child zk_namespace name) server e in
              (
                name,
                n,
                read_nodes_kept zk_namespace names (Z.get s (child zk_namespace name)).1
                    (child zk_namespace name) n v,
                t,
              )
        ]

  list_servers-Held :
      (zk_namespace : Bytes) (s : Z.State) (server : Bytes)
      → Listed server (list_servers Z zk_namespace s).0
      → Held (list_servers Z zk_namespace s).1 zk_namespace server
  unfolding list_servers
  list_servers-Held zk_namespace s server l = by_answer (Z.get_children s zk_namespace).0 l
    where
      s1 : Z.State
      s1 = (Z.get_children s zk_namespace).1

      by_answer :
          (o : Option (List Bytes))
          → let found = elim o as (λ _. List Bytes × Z.State) [
            | none ↦ ([], s1)
            | some names ↦ read_nodes Z zk_namespace names s1
          ] in
            Listed server found.0 → Held found.1 zk_namespace server
      by_answer none l = elim l [ ]
      by_answer (some names) l = read_nodes-Held zk_namespace names s1 server l

  push-keeps :
      (got : Option Bytes) (server : Bytes) (servers : List Bytes)
      → Listed server servers
      → Listed server (push got servers)
  push-keeps none server servers l = l
  push-keeps (some []) server servers l = l
  push-keeps (some (x ∷ text)) server servers l = inr l

  push-first :
      (server : Bytes) (servers : List Bytes)
      → server ≢ []
      → Listed server (push (some server) servers)
  push-first [] servers h = absurd (h refl)
  push-first (x ∷ server) servers h = inl refl

  -- ZooKeeper is up: what is there is answered.
  get_there :
      (up : IsUp Z) (s : Z.State) (path : Bytes) (n : Node)
      → Z.value s path ≡ some n
      → (Z.get s path).0 ≡ some (take 1024 n.contents)
  get_there up s path n v =
      let (text, e) = up.get_up s path (n, v) in
      let (m, w, t) = lawful.get_some s path text e in
      e
      ∙ ap some (
          t
          ∙ ap (λ (k : Node). take 1024 k.contents)
              (some-injective m n (sym w ∙ kept.get_kept s path path n v)))

  read_nodes-Listed :
      (up : IsUp Z) (zk_namespace : Bytes) (names : List Bytes) (name : Bytes) (n : Node)
      (s : Z.State)
      → Listed name names
      → Z.value s (child zk_namespace name) ≡ some n
      → take 1024 n.contents ≢ []
      → Listed (take 1024 n.contents) (read_nodes Z zk_namespace names s).0
  unfolding read_nodes
  read_nodes-Listed up zk_namespace [] name n s l v full = elim l [ ]
  read_nodes-Listed up zk_namespace (first ∷ names) name n s (inr l) v full = push-keeps _ _ _ (
      read_nodes-Listed up zk_namespace names name n _ l
        (kept.get_kept s (child zk_namespace first) (child zk_namespace name) n v) full)
  read_nodes-Listed up zk_namespace (first ∷ names) name n s (inl e) v full =
      rw
        (get_there up s (child zk_namespace first) n
          (subst (λ (k : Bytes). Z.value s (child zk_namespace k) ≡ some n) e v))
        (push-first (take 1024 n.contents) _ full)

  -- What is there below the namespace when the children are asked for is found.
  pub list_servers-Listed :
      (up : IsUp Z) (zk_namespace name : Bytes) (n : Node) (s : Z.State)
      → Present Z s zk_namespace
      → has_slash name ≡ false
      → Z.value s (child zk_namespace name) ≡ some n
      → take 1024 n.contents ≢ []
      → Listed (take 1024 n.contents) (list_servers Z zk_namespace s).0
  unfolding list_servers
  list_servers-Listed up zk_namespace name n s there flat v full =
      let (names, e) = up.children_up s zk_namespace there in
      let v1 = kept.children_kept s zk_namespace (child zk_namespace name) n v in
      rw (e, list_servers)
        (read_nodes-Listed up zk_namespace names name n (Z.get_children s zk_namespace).1
          (lawful.children_all s zk_namespace name names e flat (n, v1)) v1 full)

  all-Held :
      (a : Answers) (zk_namespace : Bytes) (h : Handler) (s : Z.State) (server : Bytes)
      → Listed server (get_all_servers Z a zk_namespace h s).2
      → Held (get_all_servers Z a zk_namespace h s).3 zk_namespace server
  unfolding get_all_servers
  all-Held a zk_namespace h s server l =
      by_result (ensure_zk_connection a h).1 (list_servers-Held zk_namespace s server) l
    where
      by_result :
          (b : Bool)
          → (Listed server (list_servers Z zk_namespace s).0
              → Held (list_servers Z zk_namespace s).1 zk_namespace server)
          → let ensured = ensure_zk_connection a h in
            let found = list_servers Z zk_namespace s in
            let o : Handler × List ℕ × List Bytes × Z.State =
              if b
              then (ensured.0, ensured.2, found.0, found.1)
              else (ensured.0, ensured.2, [], s) in
            Listed server o.2 → Held o.3 zk_namespace server
      by_result true held l = held l
      by_result false held l = elim l [ ]

  -- getServer answers the empty text, with no servers known afterwards, or one of the servers that it
  -- has just read: each is what a node below the namespace holds, up to 1024 bytes of it.
  pub get_server-Held :
      (a : Answers) (instance_ : Option Balancer) (drawn : ℕ) (zk_namespace : Bytes) (h : Handler)
      (s : Z.State)
      → let o = get_server Z a instance_ drawn zk_namespace h s in
        ((o.0 ≡ []) × (o.2.servers ≡ [])) ⊎ (Listed o.0 o.2.servers × Held o.4 zk_namespace o.0)
  unfolding get_server
  get_server-Held a instance_ drawn zk_namespace h s =
      elim (choose-Listed instance_ drawn (get_all_servers Z a zk_namespace h s).2) [
        | inl (none_left, e) ↦ inl (e, none_left)
        | inr l ↦ inr (l, all-Held a zk_namespace h s _ l)
      ]
