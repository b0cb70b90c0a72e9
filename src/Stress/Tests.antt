-- ===== src/Stress/Tests.antt =====
-- Seven requests by three workers, and arguments.
use my_rpc_project_v.Base.{
  ℕ, zero, suc, ◌≡◌, refl, [], ◌∷◌, true, false, codes, bytes_eq, is_pos, int_eq,
}
use my_rpc_project_v.Client.{stoi, skip_spaces, signed, read_digits}
use my_rpc_project_v.Stress.{
  called, threw, Outcome, default_config, parse_args, throws, perform_single_request,
  requests_per_client, run_requests, client_worker, run_workers, is_accepted, run_main, no_counts,
}

abbrev mixed : ℕ → Outcome
mixed zero = threw
mixed (suc zero) = called false
mixed (suc (suc i)) = called true

runs :
    run_main
      (codes "-n" ∷ codes "7" ∷ codes "-v" ∷ codes "-c" ∷ codes "3" ∷ [])
      (λ worker. true)
      mixed
    ≡ (0, record { total_requests = 7; success_count = 5; error_count = 2 })
unfolding run_main default_config parse_args bytes_eq stoi skip_spaces signed read_digits
    is_accepted is_pos int_eq run_workers client_worker requests_per_client run_requests
    perform_single_request
runs = refl

-- Where the first worker's client is not constructed, its requests are not made.
first_fails :
    run_main
      (codes "-n" ∷ codes "7" ∷ codes "-c" ∷ codes "3" ∷ [])
      (λ worker. elim worker [ zero ↦ false | suc w ↦ true ])
      mixed
    ≡ (0, record { total_requests = 4; success_count = 4; error_count = 0 })
unfolding run_main default_config parse_args bytes_eq stoi skip_spaces signed read_digits
    is_accepted is_pos int_eq run_workers client_worker requests_per_client run_requests
    perform_single_request
first_fails = refl

refused : run_main (codes "-c" ∷ codes "101" ∷ []) (λ worker. true) mixed ≡ (1, no_counts)
unfolding run_main default_config parse_args bytes_eq stoi skip_spaces signed read_digits
    is_accepted is_pos int_eq
refused = refl

no_number : parse_args (codes "-n" ∷ codes "x" ∷ []) default_config ≡ throws
unfolding parse_args bytes_eq stoi skip_spaces signed read_digits default_config
no_number = refl
