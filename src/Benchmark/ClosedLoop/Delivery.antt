-- ===== src/Benchmark/ClosedLoop/Delivery.antt =====
-- What the closed-loop phase promises over every schedule of its goroutines.
use llm_serving_performance.Prelude.Sums.{sum_by}
use llm_serving_performance.Prelude.{
  inr, inl, ltb, Bool-cases, ℕ, ◌≤◌, ◌<◌, ◌≡◌, ◌∙◌, ap, true, false, Option, none, List, length,
  arith,
}
use llm_serving_performance.Benchmark.Types.{Err, is_measured}
use llm_serving_performance.Benchmark.Outcomes.{total}
use llm_serving_performance.Benchmark.Coordinator.{Coordinator}
use llm_serving_performance.Benchmark.ClosedLoop.Defs.{
  Plan, worker_count, State, initial, loop_goes_on,
}
use llm_serving_performance.Benchmark.ClosedLoop.Step.{Action, run, all_exited}
use llm_serving_performance.Benchmark.ClosedLoop.Count.{
  has_sequence, occupancy, issued, started_count, all_exited-busy, all_exited-holds,
  all_exited-count, has_exited,
}
use llm_serving_performance.Benchmark.ClosedLoop.Invariant.{Inv, reached-Inv}
use llm_serving_performance.Benchmark.ClosedLoop.Ending.{Ending, reached-Ending}

-- Under every schedule of the goroutines the requests in flight, and their recorded maximum, stay
-- within the concurrency and within the number of requests of the phase.
pub in_flight_bounded :
    (p : Plan) (c : Coordinator) (parent : Option Err) (schedule : List Action)
    → let s = run p (initial p c parent) schedule in
      (s.active ≤ s.max_active) × (s.max_active ≤ p.concurrency) × (s.max_active ≤ p.requests)
unfolding worker_count
in_flight_bounded p c parent schedule = ground (arith, reached-Inv p c parent schedule)

-- Under every schedule each of the sequences 1 to the number of requests is at most once in a
-- worker's hands, in the channel and among the collected results together, and no other sequence
-- is there at all.
pub issued_once :
    (p : Plan) (c : Coordinator) (parent : Option Err) (schedule : List Action) (q : ℕ)
    → occupancy q (run p (initial p c parent) schedule) ≤ issued q p.requests
issued_once p c parent schedule q =
    let v = reached-Inv p c parent schedule in ground (arith, v.once q, v.within)

-- Under every schedule the last measured request is neither started nor answered before the
-- coordinating goroutine has closed the final claim's boundary.
pub last_request_gated :
    (p : Plan) (c : Coordinator) (parent : Option Err) (schedule : List Action)
    → is_measured p.phase ≡ true
    → (run p (initial p c parent) schedule).admission_stopped ≡ false
    → started_count p.requests (run p (initial p c parent) schedule) ≡ 0
last_request_gated p c parent schedule m o = (reached-Inv p c parent schedule).gated m o

loop_over : (s : State) → loop_goes_on s ≡ false → s.results_open ≡ false
unfolding loop_goes_on
loop_over s h = ground arith

-- When the select loop is over, the collected results are exactly the sequences that were claimed,
-- each of them once, and the outcome counters add up to their number.
pub collected_exactly :
    (p : Plan) (c : Coordinator) (parent : Option Err) (schedule : List Action) (q : ℕ)
    → loop_goes_on (run p (initial p c parent) schedule) ≡ false
    → let s = run p (initial p c parent) schedule in
      (sum_by (has_sequence q) s.completed ≡ issued q s.next_sequence)
      × (length s.completed ≡ s.next_sequence)
      × (total s.outcomes ≡ s.next_sequence)
unfolding occupancy sum_by
collected_exactly p c parent schedule q over =
    let s = run p (initial p c parent) schedule in
    let v = reached-Inv p c parent schedule in
    let e = reached-Ending p c parent schedule in
    let (ended, empty) = e.closed (loop_over s over) in
    let size : length s.completed ≡ s.next_sequence =
      omega (arith, e.balanced, ap length empty, all_exited-busy s.workers ended) in
    (
      omega
          (arith, v.once q, ap (sum_by (has_sequence q)) empty, all_exited-holds q s.workers ended),
      size,
      v.recorded ∙ size,
    )

claimed_all :
    (p : Plan) (s : State)
    → 0 < p.concurrency
    → Inv p s
    → Ending p s
    → all_exited s.workers ≡ true
    → s.phase_cause ≡ none
    → s.next_sequence ≡ p.requests
unfolding worker_count
claimed_all p s positive v e ended free = elim (Bool-cases (ltb 0 p.requests)) [
  | inl some_requests ↦
      let workers : 0 < sum_by has_exited s.workers =
        ground (arith, all_exited-count s.workers ended, v.sized) in
      omega (arith, e.exhausted free workers, v.within)
  | inr no_requests ↦ ground (arith, v.within)
]

-- When the select loop is over and the phase was never cancelled, every request of the phase was
-- issued and collected: the results are the sequences 1 to the number of requests, each once. The
-- concurrency is positive.
pub uncancelled_complete :
    (p : Plan) (c : Coordinator) (parent : Option Err) (schedule : List Action) (q : ℕ)
    → 0 < p.concurrency
    → loop_goes_on (run p (initial p c parent) schedule) ≡ false
    → (run p (initial p c parent) schedule).phase_cause ≡ none
    → let s = run p (initial p c parent) schedule in
      (sum_by (has_sequence q) s.completed ≡ issued q p.requests) × (total s.outcomes ≡ p.requests)
uncancelled_complete p c parent schedule q positive over free =
    let s = run p (initial p c parent) schedule in
    let v = reached-Inv p c parent schedule in
    let e = reached-Ending p c parent schedule in
    let (ended, _) = e.closed (loop_over s over) in
    let all_claimed : s.next_sequence ≡ p.requests = claimed_all p s positive v e ended free in
    let (once, _, totals) = collected_exactly p c parent schedule q over in
    (once ∙ ap (λ n. issued q n) all_claimed, totals ∙ all_claimed)
