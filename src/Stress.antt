-- ===== src/Stress.antt =====
-- rpc_src/tools/stress_test_client.cpp: the arguments, the requests of each worker, and the counters.
-- Times are left out. The counters are atomic and only added to, so the workers are run one after the
-- other.
pub mod Counted
mod Tests
use my_rpc_project_v.Base.{
  ℕ, zero, suc, ◌+◌, ◌*◌, ◌/◌, ◌%◌, List, [], ◌∷◌, Option, none, some, Bool, true, false, not, ◌&&◌,
  ◌||◌, Bytes, codes, bytes_eq, ltb, ◌==◌, if◌then◌else◌, ℤ, pos, negsuc, is_pos, int_eq,
}
use my_rpc_project_v.Client.{stoi}

pub record StressTestConfig : Type 0 where
  pub num_requests : ℤ
  pub concurrent_clients : ℤ
  pub test_duration_seconds : ℤ
  pub server_config : Bytes
  pub verbose : Bool

unfoldable pub default_config : StressTestConfig
default_config = record {
  num_requests = pos 100;
  concurrent_clients = pos 10;
  test_duration_seconds = pos 0;
  server_config = codes "../config/rpc_client.json";
  verbose = false;
}

-- How parseArgs ends: with a configuration, by exit, or by what std::stoi throws.
pub data Parsed : Type 0 where
  parsed : StressTestConfig → Parsed
  exits : ℕ → Parsed
  throws : Parsed

abbrev is_option : Bytes → Bytes → Bytes → Bool
is_option arg short long = bytes_eq arg short || bytes_eq arg long

abbrev with_number : Option ℤ → (ℤ → Parsed) → Parsed
with_number none next = throws
with_number (some n) next = next n

-- The arguments behind the program's name. A value that is missing at the end is passed over.
unfoldable pub parse_args : List Bytes → StressTestConfig → Parsed
unfolding bytes_eq stoi
parse_args [] c = parsed c
parse_args (arg ∷ []) c =
    if is_option arg (codes "-n") (codes "--requests")
      || is_option arg (codes "-c") (codes "--clients")
      || is_option arg (codes "-t") (codes "--time")
      || is_option arg (codes "-f") (codes "--config")
    then parsed c
    else if is_option arg (codes "-v") (codes "--verbose")
    then parsed (record c { verbose = true })
    else if is_option arg (codes "-h") (codes "--help")
    then exits 0
    else exits 1
parse_args (arg ∷ value ∷ rest) c =
    if is_option arg (codes "-n") (codes "--requests")
    then with_number (stoi value) (λ n. parse_args rest (record c { num_requests = n }))
    else if is_option arg (codes "-c") (codes "--clients")
    then with_number (stoi value) (λ n. parse_args rest (record c { concurrent_clients = n }))
    else if is_option arg (codes "-t") (codes "--time")
    then with_number (stoi value) (λ n. parse_args rest (record c { test_duration_seconds = n }))
    else if is_option arg (codes "-f") (codes "--config")
    then parse_args rest (record c { server_config = value })
    else if is_option arg (codes "-v") (codes "--verbose")
    then parse_args (value ∷ rest) (record c { verbose = true })
    else if is_option arg (codes "-h") (codes "--help")
    then exits 0
    else exits 1

pub record Counters : Type 0 where
  pub total_requests : ℕ
  pub success_count : ℕ
  pub error_count : ℕ

-- What Call does: its result, or an exception.
pub data Outcome : Type 0 where
  called : Bool → Outcome
  threw : Outcome

unfoldable pub perform_single_request : Outcome → Counters → Counters
perform_single_request (called true) c = record c {
  total_requests = c.total_requests + 1;
  success_count = c.success_count + 1;
}
perform_single_request (called false) c = record c {
  total_requests = c.total_requests + 1;
  error_count = c.error_count + 1;
}
perform_single_request threw c = record c {
  total_requests = c.total_requests + 1;
  error_count = c.error_count + 1;
}

-- requests_per_client; main lets only positive numbers through.
unfoldable pub requests_per_client : ℕ → ℕ → ℕ → ℕ
requests_per_client num_requests concurrent_clients worker_id =
    if worker_id == 0
    then num_requests / concurrent_clients + num_requests % concurrent_clients
    else num_requests / concurrent_clients

-- The requests from number `i` on, `left` of them; the number of the request is the one that Call is
-- asked with.
unfoldable pub run_requests : ℕ → ℕ → ℕ → (ℕ → Outcome) → Counters → Counters
unfolding perform_single_request
run_requests zero i worker_id answer c = c
run_requests (suc left) i worker_id answer c =
    run_requests left (i + 1) worker_id answer
      (perform_single_request (answer (worker_id * 100000 + i)) c)

-- clientWorker where the test goes by the number of requests. `connects` says whether the client of
-- the worker is constructed.
unfoldable pub client_worker : ℕ → ℕ → Bool → (ℕ → Outcome) → ℕ → Counters → Counters
unfolding requests_per_client run_requests
client_worker num_requests concurrent_clients false answer worker_id c = c
client_worker num_requests concurrent_clients true answer worker_id c =
    run_requests (requests_per_client num_requests concurrent_clients worker_id) 0 worker_id answer
      c

-- The workers from number `i` on, `left` of them.
unfoldable pub run_workers : ℕ → ℕ → ℕ → ℕ → (ℕ → Bool) → (ℕ → Outcome) → Counters → Counters
unfolding client_worker
run_workers zero i num_requests concurrent_clients connects answer c = c
run_workers (suc left) i num_requests concurrent_clients connects answer c =
    run_workers left (i + 1) num_requests concurrent_clients connects answer
      (client_worker num_requests concurrent_clients (connects i) answer i c)

abbrev int_below : ℤ → ℤ → Bool
int_below (pos m) (pos n) = ltb m n
int_below (pos m) (negsuc n) = false
int_below (negsuc m) (pos n) = true
int_below (negsuc m) (negsuc n) = ltb n m

-- The checks of main.
unfoldable pub is_accepted : StressTestConfig → Bool
unfolding is_pos int_eq
is_accepted c =
    is_pos c.num_requests
    && is_pos c.concurrent_clients
    && not (int_below c.num_requests c.concurrent_clients && int_eq c.test_duration_seconds (pos 0))

abbrev pub no_counts : Counters
no_counts = record { total_requests = 0; success_count = 0; error_count = 0 }

abbrev magnitude : ℤ → ℕ
magnitude (pos n) = n
magnitude (negsuc n) = 0

-- main where the test goes by the number of requests: the exit code and the counters at the end.
unfoldable pub run_main : List Bytes → (ℕ → Bool) → (ℕ → Outcome) → ℕ × Counters
unfolding default_config parse_args is_accepted run_workers
run_main args connects answer = elim (parse_args args default_config) [
  | throws ↦ (1, no_counts)
  | exits code ↦ (code, no_counts)
  | parsed c ↦
      if is_accepted c
      then (
        0,
        run_workers (magnitude c.concurrent_clients) 0 (magnitude c.num_requests)
            (magnitude c.concurrent_clients) connects answer no_counts,
      )
      else (1, no_counts)
]
