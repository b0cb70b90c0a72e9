-- ===== src/Balancer.antt =====
-- rpc_src/conn_balancer/load_balancer and the three balancers in round.h, weight.h and random.h.
-- A server is its address. The number that the distribution draws is an argument, reduced to its
-- range.
pub mod Turns
pub mod Choice
mod Tests
use my_rpc_project_v.Base.{
  ℕ, zero, suc, ◌+◌, ◌%◌, ◌^◌, List, [], ◌∷◌, Option, none, some, Bool, true, false, Bytes, codes,
  bytes_eq, length, get_or, replicate, ltb, if◌then◌else◌,
}

-- The object behind instance_: a random one, or a cyclic one with its current_index_.
pub data Balancer : Type 0 where
  random : Balancer
  round weight : ℕ → Balancer

unfoldable pub create_random : Balancer
create_random = random

unfoldable pub create_round_robin : Balancer
create_round_robin = round 0

unfoldable pub create_weighted : Balancer
create_weighted = weight 0

-- The factories by their names.
unfoldable pub find_factory : Bytes → Option Balancer
unfolding create_random create_round_robin create_weighted
find_factory type =
    if bytes_eq type (codes "random")
    then some create_random
    else if bytes_eq type (codes "round")
    then some create_round_robin
    else if bytes_eq type (codes "weight")
    then some create_weighted
    else none

unfoldable pub get_instance : Option Balancer → Balancer
unfolding create_random
get_instance none = create_random
get_instance (some b) = b

unfoldable pub init_balancer : Bytes → Option Balancer × Bool
unfolding find_factory create_random
init_balancer type = elim (find_factory type) [
  | some b ↦ (some b, true)
  | none ↦ (some create_random, false)
]

unfoldable pub select_random : ℕ → List Bytes → Bytes
select_random drawn [] = []
select_random drawn (s ∷ ss) = get_or (s ∷ ss) (drawn % length (s ∷ ss)) []

-- current_index_ is a std::atomic<size_t> of 64 bits.
unfoldable pub select_round : ℕ → List Bytes → Bytes × ℕ
select_round current [] = ([], current)
select_round current (s ∷ ss) =
    (get_or (s ∷ ss) (current % length (s ∷ ss)) [], (current + 1) % 2 ^ 64)

unfoldable pub total_of : List ℕ → ℕ → ℕ
total_of [] total = total
total_of (w ∷ ws) total = total_of ws (total + w)

-- The loop over the instances with their weights; `fallback` is instances[0].
unfoldable pub weight_loop : ℕ → ℕ → List Bytes → List ℕ → Bytes → Bytes
weight_loop index current [] ws fallback = fallback
weight_loop index current (s ∷ ss) [] fallback = fallback
weight_loop index current (s ∷ ss) (w ∷ ws) fallback =
    if ltb index (current + w) then s else weight_loop index (current + w) ss ws fallback

-- The sums are those of an int, which as many servers as memory holds do not exceed.
unfoldable pub select_weight : ℕ → List Bytes → Bytes × ℕ
select_weight current [] = ([], current)
select_weight current (s ∷ ss) =
    let weights = replicate (length (s ∷ ss)) 1 in
    let index = (current + 1) % total_of weights 0 in
    (weight_loop index 0 (s ∷ ss) weights s, index)

-- The virtual method.
unfoldable pub select : Balancer → ℕ → List Bytes → Bytes × Balancer
unfolding select_random select_round select_weight
select random drawn servers = (select_random drawn servers, random)
select (round current) drawn servers =
    let (server, next) = select_round current servers in (server, round next)
select (weight current) drawn servers =
    let (server, next) = select_weight current servers in (server, weight next)

unfoldable pub select_server : Option Balancer → ℕ → List Bytes → Bytes × Balancer
unfolding get_instance
select_server instance_ drawn [] = ([], get_instance instance_)
select_server instance_ drawn (s ∷ ss) = select (get_instance instance_) drawn (s ∷ ss)
