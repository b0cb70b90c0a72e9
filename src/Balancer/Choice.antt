-- ===== src/Balancer/Choice.antt =====
-- What selectServer and initBalancer give.
use native.Mathlib.Nat.{mod-lt}
use my_rpc_project_v.Base.{
  ℕ, ◌+◌, ◌%◌, ◌<◌, ◌≡◌, ◌∙◌, ap, ◌⊎◌, inl, inr, refl, arith, List, [], ◌∷◌, Option, some, true,
  false, Bytes, codes, bytes_eq, bytes_eq-eq, length, get_or, replicate, Bool-cases,
}
use my_rpc_project_v.Balancer.{
  Balancer, random, round, weight, weight_loop, select, select_server, get_instance, total_of,
  init_balancer,
}
use my_rpc_project_v.Balancer.Turns.{weight_loop-get, total_of-ones}

abbrev OneOf : Bytes → List Bytes → Type 0
OneOf chosen servers = (i : ℕ) × (i < length servers) × (chosen ≡ get_or servers i [])

select-OneOf :
    (b : Balancer) (drawn : ℕ) (s : Bytes) (ss : List Bytes)
    → OneOf (select b drawn (s ∷ ss)).0 (s ∷ ss)
unfolding select
select-OneOf random drawn s ss = (drawn % length (s ∷ ss), mod-lt drawn (omega arith), refl)
select-OneOf (round current) drawn s ss =
    (current % length (s ∷ ss), mod-lt current (omega arith), refl)
select-OneOf (weight current) drawn s ss = (
  (current + 1) % total_of (replicate (length (s ∷ ss)) 1) 0,
  below,
  ap (λ i. weight_loop i 0 (s ∷ ss) (replicate (length (s ∷ ss)) 1) s)
        {y = 0 + (current + 1) % total_of (replicate (length (s ∷ ss)) 1) 0} (omega arith)
      ∙ weight_loop-get s ss ((current + 1) % total_of (replicate (length (s ∷ ss)) 1) 0) 0 (s ∷ ss)
          s below,
)
  where
    below : (current + 1) % total_of (replicate (length (s ∷ ss)) 1) 0 < length (s ∷ ss)
    below = omega (
      arith,
      mod-lt (current + 1) {m = total_of (replicate (length (s ∷ ss)) 1) 0}
          (omega (arith, total_of-ones s ss (length (s ∷ ss)) 0)),
      total_of-ones s ss (length (s ∷ ss)) 0,
    )

-- Whatever balancer is set, and whatever is drawn: a choice among no servers is the empty string
-- and moves no index; any other choice is one of the servers.
pub select_server_choice :
    (instance_ : Option Balancer) (drawn : ℕ) (servers : List Bytes)
    → ((servers ≡ []) × (select_server instance_ drawn servers ≡ ([], get_instance instance_)))
      ⊎ ((i : ℕ) × (i < length servers)
          × ((select_server instance_ drawn servers).0 ≡ get_or servers i []))
unfolding select_server
select_server_choice instance_ drawn [] = inl (refl, refl)
select_server_choice instance_ drawn (s ∷ ss) =
    inr (select-OneOf (get_instance instance_) drawn s ss)

-- initBalancer accepts its three names, and takes the random balancer for any other.
pub init_balancer_cases :
    (type : Bytes)
    → ((type ≡ codes "random") × (init_balancer type ≡ (some random, true)))
      ⊎ (((type ≡ codes "round") × (init_balancer type ≡ (some (round 0), true)))
          ⊎ (((type ≡ codes "weight") × (init_balancer type ≡ (some (weight 0), true)))
              ⊎ ((bytes_eq type (codes "random") ≡ false)
                  × (bytes_eq type (codes "round") ≡ false)
                  × (bytes_eq type (codes "weight") ≡ false)
                  × (init_balancer type ≡ (some random, false)))))
unfolding init_balancer
init_balancer_cases type = elim (Bool-cases (bytes_eq type (codes "random"))) [
  | inl a ↦ inl (bytes_eq-eq type _ a, rw (a, init_balancer) refl)
  | inr a ↦ elim (Bool-cases (bytes_eq type (codes "round"))) [
    | inl b ↦ inr (inl (bytes_eq-eq type _ b, rw (a, b, init_balancer) refl))
    | inr b ↦ elim (Bool-cases (bytes_eq type (codes "weight"))) [
      | inl c ↦ inr (inr (inl (bytes_eq-eq type _ c, rw (a, b, c, init_balancer) refl)))
      | inr c ↦ inr (inr (inr (a, b, c, rw (a, b, c, init_balancer) refl)))
    ]
  ]
]
