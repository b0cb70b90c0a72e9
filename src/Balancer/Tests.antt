-- ===== src/Balancer/Tests.antt =====
-- Three servers and their turns.
use my_rpc_project_v.Base.{
  ◌+◌, ◌%◌, ◌^◌, ◌≡◌, ◌++◌, refl, arith, List, [], ◌∷◌, Bytes, codes, length, take, drop,
}
use my_rpc_project_v.Balancer.{round, weight, select, weight_loop, total_of}
use my_rpc_project_v.Balancer.Turns.{turns, round_visits_all}

abbrev three : List Bytes
three = codes "a" ∷ codes "b" ∷ codes "c" ∷ []

four_turns : (turns 4 (round 5) three).0 ≡ codes "c" ∷ codes "a" ∷ codes "b" ∷ codes "c" ∷ []
unfolding turns select
four_turns = refl

weighted_turns : (turns 3 (weight 0) three).0 ≡ codes "b" ∷ codes "c" ∷ codes "a" ∷ []
unfolding turns select weight_loop total_of
weighted_turns = refl

round_visits_all_example :
    turns 3 (round 5) three
    ≡ (drop (5 % 3) three ++ take (5 % 3) three, round ((5 + length three) % 2 ^ 64))
round_visits_all_example = round_visits_all three 5 (omega arith) (omega arith) (omega arith)
