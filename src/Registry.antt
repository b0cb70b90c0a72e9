-- ===== src/Registry.antt =====
-- rpc_src/registry/service_registry: ServiceRegistry. The handle is a number. The calls of ZooKeeper
-- are those of the parameter; the texts of the log are left out.
pub mod Paths
pub mod Built
pub mod Named
pub mod Present
pub mod Memory
mod Tests
use my_rpc_project_v.Base.{
  ℕ, zero, suc, List, [], ◌∷◌, ◌++◌, Option, none, some, Bool, true, false, Bytes, codes, length,
  ◌==◌, ◌&&◌, if◌then◌else◌,
}
use my_rpc_project_v.Zookeeper.{
  Zookeeper, Answer, ok, no_node, node_exists, other_error, ClientState, connected, child,
}

pub record Registry : Type 0 where
  pub zk_handle : Option ℕ
  pub is_connected : Bool

-- What the watcher is told: a session event with the state, or another event.
pub data WatchEvent : Type 0 where
  session : ClientState → WatchEvent
  other_event : WatchEvent

abbrev is_connected_state : ClientState → Bool
is_connected_state connected = true
is_connected_state _ = false

unfoldable pub global_watcher : WatchEvent → Registry → Registry
global_watcher (session state) r = record r { is_connected = is_connected_state state }
global_watcher other_event r = r

unfoldable pub watch : List WatchEvent → Registry → Registry
watch [] r = r
watch (e ∷ events) r = watch events (global_watcher e r)

-- The rounds of waiting that are left; `rounds` has the events of each half second.
unfoldable pub wait_connected : ℕ → List (List WatchEvent) → Registry → Registry
wait_connected zero rounds r = r
wait_connected (suc retries) [] r = r
wait_connected (suc retries) (events ∷ rounds) r = elim r.is_connected [
  | true ↦ r
  | false ↦ wait_connected retries rounds (watch events r)
]

-- The constructor; `none` is its exception. `early` is what comes before the waiting starts.
unfoldable pub create_registry :
    Option ℕ → List WatchEvent → List (List WatchEvent) → Option Registry
create_registry none early rounds = none
create_registry (some handle) early rounds = some (
    wait_connected 10 rounds
      (watch early (record { zk_handle = some handle; is_connected = false })))

-- The destructor, with the handle that it closes.
unfoldable pub close_registry : Registry → Registry × Option ℕ
close_registry r = (record r { zk_handle = none }, r.zk_handle)

unfoldable pub has_handle : Registry → Bool
has_handle r = elim r.zk_handle [ none ↦ false | some handle ↦ true ]

unfoldable pub registry_connected : Registry → Bool
unfolding has_handle
registry_connected r = r.is_connected && has_handle r

abbrev pub root_path : Bytes
root_path = codes "/myrpc"

abbrev pub service_path : Bytes → Bytes
service_path name = child root_path name

abbrev pub instance_path : Bytes → Bytes → Bytes
instance_path name address = child (service_path name) address

-- path.find_last_of('/') with the parts before and behind it.
unfoldable pub split_last : Bytes → Option (Bytes × Bytes)
split_last [] = none
split_last (x ∷ xs) = elim (split_last xs) [
  | some (front, last) ↦ some (x ∷ front, last)
  | none ↦ if x == b'/' then some ([], xs) else none
]

-- The parent that ensurePath calls itself for: there is a slash, and not in front.
unfoldable pub parent_of : Bytes → Option Bytes
unfolding split_last
parent_of path = elim (split_last path) [
  | none ↦ none
  | some (front, last) ↦ elim front [ [] ↦ none | x ∷ xs ↦ some (x ∷ xs) ]
]

abbrev pub is_made : Answer → Bool
is_made ok = true
is_made node_exists = true
is_made no_node = false
is_made other_error = false

module _ (Z : Zookeeper) where
  -- createNode, with ZOO_EPHEMERAL as the flag.
  unfoldable pub create_node : Registry → Bytes → Bytes → Bool → Z.State → Bool × Z.State
  unfolding has_handle
  create_node r path text ephemeral s = elim (has_handle r) [
    | false ↦ (false, s)
    | true ↦ (is_made (Z.create s path text ephemeral).0, (Z.create s path text ephemeral).1)
  ]

  -- What ensurePath makes of zoo_exists's answer.
  unfoldable pub ensure_found : Bytes → Answer → Z.State → Bool × Z.State
  ensure_found path ok s = (true, s)
  ensure_found path no_node s = (is_made (Z.create s path [] false).0, (Z.create s path [] false).1)
  ensure_found path node_exists s = (false, s)
  ensure_found path other_error s = (false, s)

  -- ensurePath from zoo_exists on.
  unfoldable pub ensure_here : Bytes → Z.State → Bool × Z.State
  unfolding ensure_found
  ensure_here path s = ensure_found path (Z.exists s path).0 (Z.exists s path).1

  -- The calls that ensurePath makes of itself, at most `fuel` deep; `none` is a deeper one.
  unfoldable pub ensure_loop : ℕ → Bytes → Z.State → Option (Bool × Z.State)
  unfolding ensure_here parent_of
  ensure_loop zero path s = none
  ensure_loop (suc fuel) path s = elim (parent_of path) [
    | none ↦ some (ensure_here path s)
    | some parent ↦ elim (ensure_loop fuel parent s) [
      | none ↦ none
      | some (made, s') ↦ some (if made then ensure_here path s' else (false, s'))
    ]
  ]

  unfoldable pub ensure_path : Registry → Bytes → Z.State → Option (Bool × Z.State)
  unfolding ensure_loop has_handle
  ensure_path r [] s = some (true, s)
  ensure_path r (x ∷ path) s = elim (has_handle r) [
    | false ↦ some (false, s)
    | true ↦ ensure_loop (length (x ∷ path)) (x ∷ path) s
  ]

  unfoldable pub register_service : Registry → Bytes → Bytes → Z.State → Option (Bool × Z.State)
  unfolding registry_connected ensure_path create_node
  register_service r name address s = elim (registry_connected r) [
    | false ↦ some (false, s)
    | true ↦ elim (ensure_path r (service_path name) s) [
      | none ↦ none
      | some (made, s') ↦
          some (
            if made
            then create_node r (instance_path name address) address true s'
            else (false, s'))
    ]
  ]
