-- ===== src/Discovery.antt =====
-- rpc_src/conn_balancer/zk_conn_handler: ZkConnHandler. A handle is a number, and an operation gives
-- the handles that it closes. The methods do not overlap: the mutexes are left out.
pub mod Registration
pub mod Ensure
pub mod Uncleaned
pub mod Found
pub mod Named
pub mod Registered
pub mod Addresses
mod Tests
use my_rpc_project_v.Base.{
  ℕ, zero, suc, ◌+◌, ◌^◌, List, [], ◌∷◌, ◌++◌, Option, none, some, Bool, true, false, Bytes, codes,
  ltb, ◌&&◌, ◌||◌, not, if◌then◌else◌, ℤ, pos, negsuc, to_text, to_int, length,
}
use my_rpc_project_v.Zookeeper.{
  Zookeeper, child, ClientState, connected, connecting, expired, auth_failed, associating, unknown,
}
use my_rpc_project_v.Registry.{Registry, close_registry}
use my_rpc_project_v.Config.{Json}
use my_rpc_project_v.Balancer.{Balancer, select_server}

pub record Handler : Type 0 where
  pub zk_client : Option ℕ
  pub zk_host : Bytes
  pub zk_port : ℕ
  pub zk_namespace : Bytes
  pub retry_interval : ℤ
  pub servers : List Bytes
  pub service_registry : Option Registry
  pub running : Bool
  -- The static flag of cleanup: the handler is the one instance of its class.
  pub cleanup_done : Bool

unfoldable pub set_zk_namespace : Bytes → Handler → Handler
set_zk_namespace zk_namespace h = record h { zk_namespace = zk_namespace }

unfoldable pub set_zk_retry_interval : ℤ → Handler → Handler
set_zk_retry_interval seconds h = record h { retry_interval = seconds }

unfoldable pub set_zk_host : Bytes → Handler → Handler
set_zk_host [] h = record h { zk_host = codes "localhost" }
set_zk_host (x ∷ host) h = record h { zk_host = x ∷ host }

unfoldable pub valid_port : ℤ → ℕ
valid_port (pos n) = if ltb 0 n && ltb n 65536 then n else 2181
valid_port (negsuc n) = 2181

unfoldable pub set_zk_port : ℤ → Handler → Handler
unfolding valid_port
set_zk_port port h = record h { zk_port = valid_port port }

abbrev pub conn_string : Handler → Bytes
conn_string h = h.zk_host ++ (b':' ∷ to_text h.zk_port)

abbrev pub handles : Option ℕ → List ℕ
handles none = []
handles (some handle) = handle ∷ []

-- unique_ptr::reset, with the handle that the destructor closes.
abbrev pub reset_registry : Option Registry → List ℕ
reset_registry none = []
reset_registry (some r) = handles (close_registry r).1

unfoldable pub cleanup : Handler → Handler × List ℕ
unfolding close_registry
cleanup h = if h.cleanup_done then (h, []) else (
  record h { cleanup_done = true; service_registry = none; zk_client = none; running = false },
  reset_registry h.service_registry ++ handles h.zk_client,
)

abbrev is_connected_state : ClientState → Bool
is_connected_state connected = true
is_connected_state _ = false

-- The states that end the waiting, `count` being retry_count.
abbrev is_fatal : ClientState → ℕ → Bool
is_fatal expired count = true
is_fatal auth_failed count = true
is_fatal connecting count = false
is_fatal connected count = ltb 10 count
is_fatal associating count = ltb 10 count
is_fatal unknown count = ltb 10 count

-- What the client library answers: zookeeper_init for a connection string, and zoo_state in the
-- round of a count.
pub record Answers : Type 0 where
  pub init : Bytes → Option ℕ
  pub state : ℕ → ClientState

-- The rounds that are left, `count` of them done.
unfoldable pub wait_state : ℕ → ℕ → (ℕ → ClientState) → Handler → Handler × Bool × List ℕ
unfolding cleanup
wait_state zero count state h = ((cleanup h).0, false, (cleanup h).1)
wait_state (suc left) count state h =
    let later = wait_state left (count + 1) state h in
    if is_connected_state (state (count + 1))
    then (h, true, [])
    else if is_fatal (state (count + 1)) (count + 1)
    then ((cleanup h).0, false, (cleanup h).1)
    else later

unfoldable pub ensure_zk_connection : Answers → Handler → Handler × Bool × List ℕ
unfolding wait_state
ensure_zk_connection a h = elim h.zk_client [
  | some client ↦ wait_state 3 0 a.state h
  | none ↦ elim (a.init (conn_string h)) [
    | none ↦ (h, false, [])
    | some client ↦ wait_state 3 0 a.state (record h { zk_client = some client })
  ]
]

abbrev pub has_client : Handler → Bool
has_client h = elim h.zk_client [ none ↦ false | some client ↦ true ]

module _ (j : Json) where
  open j use {Value, empty, text_value, number_value}

  -- The four values with their setters: the handler, and whether none of them threw.
  unfoldable pub read_settings : Value → Handler → Handler × Bool
  unfolding set_zk_host set_zk_port set_zk_namespace set_zk_retry_interval to_int
  read_settings config h = elim (text_value config (codes "zk_host") (codes "localhost")) [
    | none ↦ (h, false)
    | some host ↦
        let h1 = set_zk_host host h in
        elim (number_value config (codes "zk_port") (pos 2181)) [
          | none ↦ (h1, false)
          | some port ↦
              let h2 = set_zk_port (to_int port) h1 in
              elim (text_value config (codes "zk_namespace") (codes "/myrpc")) [
                | none ↦ (h2, false)
                | some zk_namespace ↦
                    let h3 = set_zk_namespace zk_namespace h2 in
                    elim (number_value config (codes "zk_retry_interval") (pos 5)) [
                      | none ↦ (h3, false)
                      | some seconds ↦ (set_zk_retry_interval (to_int seconds) h3, true)
                    ]
              ]
        ]
  ]

  unfoldable pub init_zk_conn_handler : Value → Answers → Handler → Handler × Bool × List ℕ
  unfolding read_settings cleanup ensure_zk_connection
  init_zk_conn_handler config a h =
      if empty config
      then (h, false, [])
      else let read = read_settings config h in
        if not read.1
        then ((cleanup read.0).0, false, (cleanup read.0).1)
        else let ensured = ensure_zk_connection a read.0 in
          if not (has_client ensured.0)
          then (ensured.0, false, ensured.2)
          else (ensured.0, ensured.1, ensured.2)

abbrev pub push : Option Bytes → List Bytes → List Bytes
push none servers = servers
push (some []) servers = servers
push (some (x ∷ server)) servers = (x ∷ server) ∷ servers

-- What selectServer of the load balancer gives for no servers is not asked for.
abbrev pub choose : Option Balancer → ℕ → List Bytes → Bytes × Option Balancer
choose instance_ drawn [] = ([], instance_)
choose instance_ drawn (x ∷ servers) =
    let chosen = select_server instance_ drawn (x ∷ servers) in (chosen.0, some chosen.1)

module _ (Z : Zookeeper) where
  -- The loop over the children.
  unfoldable pub read_nodes : Bytes → List Bytes → Z.State → List Bytes × Z.State
  read_nodes zk_namespace [] s = ([], s)
  read_nodes zk_namespace (name ∷ names) s =
      let got = Z.get s (child zk_namespace name) in
      let rest = read_nodes zk_namespace names got.1 in (push got.0 rest.0, rest.1)

  unfoldable pub list_servers : Bytes → Z.State → List Bytes × Z.State
  unfolding read_nodes
  list_servers zk_namespace s = elim (Z.get_children s zk_namespace).0 [
    | none ↦ ([], (Z.get_children s zk_namespace).1)
    | some names ↦ read_nodes zk_namespace names (Z.get_children s zk_namespace).1
  ]

  -- The handler, the handles closed, the servers found, and ZooKeeper after that.
  unfoldable pub get_all_servers :
      Answers → Bytes → Handler → Z.State → Handler × List ℕ × List Bytes × Z.State
  unfolding ensure_zk_connection list_servers
  get_all_servers a zk_namespace h s =
      let ensured = ensure_zk_connection a h in
      let found = list_servers zk_namespace s in
      if ensured.1 then (ensured.0, ensured.2, found.0, found.1) else (ensured.0, ensured.2, [], s)

  unfoldable pub update_servers_from_zk :
      Answers → Bytes → Handler → Z.State → Handler × List ℕ × Z.State
  unfolding get_all_servers
  update_servers_from_zk a zk_namespace h s =
      let all = get_all_servers a zk_namespace h s in
      (record all.0 { servers = all.2 }, all.1, all.3)

  -- The server with the load balancer, the handler, the handles closed, and ZooKeeper after that.
  unfoldable pub get_server :
      Answers
      → Option Balancer
      → ℕ
      → Bytes
      → Handler
      → Z.State
      → Bytes × Option Balancer × Handler × List ℕ × Z.State
  unfolding update_servers_from_zk
  get_server a instance_ drawn zk_namespace h s =
      let updated = update_servers_from_zk a zk_namespace h s in
      let chosen = choose instance_ drawn updated.0.servers in
      (chosen.0, chosen.1, updated.0, updated.1, updated.2)
