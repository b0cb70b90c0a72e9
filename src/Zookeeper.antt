-- ===== src/Zookeeper.antt =====
-- The calls of the ZooKeeper C client that rpc_src/registry/service_registry.cpp and
-- rpc_src/conn_balancer/zk_conn_handler.cpp make, over an unknown state, and what is assumed of them.
use my_rpc_project_v.Base.{
  List, ◌∷◌, ◌++◌, Option, some, Bool, false, Bytes, take, ◌≡◌, ◌⊎◌, ◌||◌, ◌==◌, [],
}

-- ZOK, ZNONODE, ZNODEEXISTS, and every other code.
pub data Answer : Type 0 where
  ok no_node node_exists other_error : Answer

-- What zoo_state answers.
pub data ClientState : Type 0 where
  connected connecting expired auth_failed associating unknown : ClientState

pub record Node : Type 0 where
  pub contents : Bytes
  pub ephemeral : Bool

-- Each call gives the state after it, in which other clients may have been at work; `value` is what
-- the tree holds, and no program reads it. `get` has a buffer of 1024 bytes.
pub record Zookeeper : Type 1 where
  pub State : Type 0
  pub value : State → Bytes → Option Node
  pub exists : State → Bytes → Answer × State
  pub create : State → Bytes → Bytes → Bool → Answer × State
  pub get_children : State → Bytes → Option (List Bytes) × State
  pub get : State → Bytes → Option Bytes × State

abbrev pub Present : (Z : Zookeeper) → Z.State → Bytes → Type 0
Present Z s path = (n : Node) × (Z.value s path ≡ some n)

abbrev pub child : Bytes → Bytes → Bytes
child path name = path ++ (b'/' ∷ name)

abbrev pub Listed : Bytes → List Bytes → Type 0
Listed x [] = ⊥
Listed x (y ∷ ys) = (x ≡ y) ⊎ Listed x ys

abbrev pub has_slash : Bytes → Bool
has_slash [] = false
has_slash (x ∷ xs) = x == b'/' || has_slash xs

-- What an answer says of the tree.
pub record IsLawful (Z : Zookeeper) : Type 0 where
  pub exists_ok :
      (s : Z.State) (path : Bytes) → (Z.exists s path).0 ≡ ok → Present Z (Z.exists s path).1 path
  pub create_ok :
      (s : Z.State) (path text : Bytes) (flag : Bool)
      → (Z.create s path text flag).0 ≡ ok
      → Z.value (Z.create s path text flag).1 path
        ≡ some (record { contents = text; ephemeral = flag })
  pub create_exists :
      (s : Z.State) (path text : Bytes) (flag : Bool)
      → (Z.create s path text flag).0 ≡ node_exists
      → Present Z (Z.create s path text flag).1 path
  pub get_some :
      (s : Z.State) (path text : Bytes)
      → (Z.get s path).0 ≡ some text
      → (n : Node) × (Z.value (Z.get s path).1 path ≡ some n) × (text ≡ take 1024 n.contents)
  pub children_all :
      (s : Z.State) (path name : Bytes) (names : List Bytes)
      → (Z.get_children s path).0 ≡ some names
      → has_slash name ≡ false
      → Present Z (Z.get_children s path).1 (child path name)
      → Listed name names

-- While the calls are made, no client removes a node or sets the data of one.
pub record IsKept (Z : Zookeeper) : Type 0 where
  pub exists_kept :
      (s : Z.State) (path other : Bytes) (n : Node)
      → Z.value s other ≡ some n
      → Z.value (Z.exists s path).1 other ≡ some n
  pub create_kept :
      (s : Z.State) (path text other : Bytes) (flag : Bool) (n : Node)
      → Z.value s other ≡ some n
      → Z.value (Z.create s path text flag).1 other ≡ some n
  pub children_kept :
      (s : Z.State) (path other : Bytes) (n : Node)
      → Z.value s other ≡ some n
      → Z.value (Z.get_children s path).1 other ≡ some n
  pub get_kept :
      (s : Z.State) (path other : Bytes) (n : Node)
      → Z.value s other ≡ some n
      → Z.value (Z.get s path).1 other ≡ some n

-- While the calls are made, other clients add below `above` only nodes that hold their own name, as a
-- server does that registers itself, and set none. What create adds is the node that it was asked
-- for.
pub record AddsNamed (Z : Zookeeper) (above : Bytes) : Type 0 where
  pub exists_adds :
      (s : Z.State) (path name : Bytes) (n : Node)
      → Z.value (Z.exists s path).1 (child above name) ≡ some n
      → (Z.value s (child above name) ≡ some n) ⊎ (n.contents ≡ name)
  pub create_adds :
      (s : Z.State) (path text name : Bytes) (flag : Bool) (n : Node)
      → Z.value (Z.create s path text flag).1 (child above name) ≡ some n
      → (Z.value s (child above name) ≡ some n)
        ⊎ ((n.contents ≡ name) ⊎ ((child above name ≡ path) × (n.contents ≡ text)))

-- The servers are reached: what is there is read.
pub record IsUp (Z : Zookeeper) : Type 0 where
  pub children_up :
      (s : Z.State) (path : Bytes)
      → Present Z s path
      → (names : List Bytes) × ((Z.get_children s path).0 ≡ some names)
  pub get_up :
      (s : Z.State) (path : Bytes)
      → Present Z s path
      → (text : Bytes) × ((Z.get s path).0 ≡ some text)
