-- ===== src/Stress/Counted.antt =====
-- The counters of a stress test against the number of requests that was asked for.
use native.Mathlib.Nat.{div-add-mod}
use my_rpc_project_v.Base.{ℕ, zero, suc, ◌+◌, ◌*◌, ◌/◌, ◌<◌, ◌≡◌, refl, arith, true, false}
use my_rpc_project_v.Stress.{
  Counters, Outcome, called, threw, perform_single_request, requests_per_client, run_requests,
  client_worker, run_workers, no_counts,
}

-- Each request counts once, as a success or as an error.
abbrev Added : ℕ → Counters → Counters → Type 0
Added n c d =
    (d.total_requests ≡ c.total_requests + n)
    × (d.success_count + d.error_count ≡ c.success_count + c.error_count + n)

perform-Added : (o : Outcome) (c : Counters) → Added 1 c (perform_single_request o c)
unfolding perform_single_request
perform-Added (called true) c = (refl, omega arith)
perform-Added (called false) c = (refl, omega arith)
perform-Added threw c = (refl, omega arith)

run_requests-Added :
    (left i worker_id : ℕ) (answer : ℕ → Outcome) (c : Counters)
    → Added left c (run_requests left i worker_id answer c)
unfolding run_requests
run_requests-Added zero i worker_id answer c = (omega arith, omega arith)
run_requests-Added (suc left) i worker_id answer c =
    let o = answer (worker_id * 100000 + i) in
    let (total, parts) =
      run_requests-Added left (i + 1) worker_id answer (perform_single_request o c) in
    let (total1, parts1) = perform-Added o c in
    (omega (arith, total, total1), omega (arith, parts, parts1))

-- A worker behind the first has an even share.
later_share : (n k i : ℕ) → 0 < i → requests_per_client n k i ≡ n / k
unfolding requests_per_client
later_share n k i h = ground arith

client_worker-Added :
    (n k i : ℕ) (answer : ℕ → Outcome) (c : Counters)
    → Added (requests_per_client n k i) c (client_worker n k true answer i c)
unfolding client_worker
client_worker-Added n k i answer c = run_requests-Added (requests_per_client n k i) 0 i answer c

later_workers-Added :
    (left i n k : ℕ) (answer : ℕ → Outcome) (c : Counters)
    → 0 < i
    → Added (left * (n / k)) c (run_workers left i n k (λ w. true) answer c)
unfolding run_workers
later_workers-Added zero i n k answer c h = (omega arith, omega arith)
later_workers-Added (suc left) i n k answer c h =
    let (total, parts) =
      later_workers-Added left (i + 1) n k answer (client_worker n k true answer i c)
        (omega arith) in
    let (total1, parts1) = client_worker-Added n k i answer c in
    let share = later_share n k i h in
    (omega (arith, total, total1, share), omega (arith, parts, parts1, share))

-- Where every client connects, a test of at least one client makes exactly the requests that were
-- asked for, whatever they answer, and each of them counts once as a success or as an error.
pub run_workers_counts :
    (n k : ℕ) (answer : ℕ → Outcome)
    → 0 < k
    → let c = run_workers k 0 n k (λ w. true) answer no_counts in
      (c.total_requests ≡ n) × (c.success_count + c.error_count ≡ n)
unfolding run_workers
run_workers_counts n zero answer h = absurd (omega arith)
run_workers_counts n (suc k) answer h =
    let first = client_worker n (suc k) true answer 0 no_counts in
    let (total, parts) = later_workers-Added k 1 n (suc k) answer first (omega arith) in
    let (total1, parts1) = client_worker-Added n (suc k) 0 answer no_counts in
    (
      omega (arith, total, total1, div-add-mod n (suc k)),
      omega (arith, parts, parts1, div-add-mod n (suc k)),
    )
