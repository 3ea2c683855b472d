-- ===== src/Tests/Runs.antt =====
-- The status of a closed-loop run of two measured requests.
use llm_serving_performance.Benchmark.Outcomes.{
  completed, skipped, failed, OutcomeCounts, PhaseStatus, increment_outcome, no_outcomes,
}
use llm_serving_performance.Benchmark.Types.{
  measured, succeeded, RequestPhase, closed_loop, drain_timeout_expired, parent_cancelled,
}
use llm_serving_performance.Prelude.Int.{pos}
use llm_serving_performance.Prelude.{List, [], false, none, refl, some, ℕ, ◌↔◌, ◌∷◌, ◌≡◌}
use llm_serving_performance.Executor.Completed.{IsDelivered, completed_iff, status_of}
use llm_serving_performance.Executor.Classify.{
  classify_run, phase_metadata, run_completed, run_failed,
}
use llm_serving_performance.Benchmark.Coordinator.{LifecycleResult}
use llm_serving_performance.Benchmark.Arrivals.{CompletedRequest, PhaseResult, no_arrivals}
use llm_serving_performance.Benchmark.Types

abbrev phase_of :
    RequestPhase → PhaseStatus → ℕ → OutcomeCounts → List CompletedRequest → PhaseResult
phase_of phase status requested outcomes done = record {
  load_mode = Types.closed_loop;
  phase = phase;
  status = status;
  started_at = some (pos 1);
  completed_at = some (pos 9);
  elapsed_ns = pos 8;
  requested_requests = requested;
  requested_concurrency = 1;
  worker_count = 1;
  max_observed_active = 1;
  arrivals = [];
  arrival_counts = no_arrivals 0;
  outcomes = outcomes;
  completed = done;
}

abbrev done : ℕ → CompletedRequest
done n = record {
  sequence = n;
  phase = measured;
  outcome = succeeded;
  request_id = n ∷ [];
  error = none;
  arrival = none;
}

abbrev two_done : OutcomeCounts
two_done = increment_outcome (increment_outcome no_outcomes succeeded) succeeded

abbrev finished_run : LifecycleResult
finished_run = record {
  load_mode = Types.closed_loop;
  started_at = pos 0;
  completed_at = pos 10;
  elapsed_ns = pos 10;
  transitions = [];
  warmup = phase_of Types.warmup skipped 0 no_outcomes [];
  measurement = phase_of measured completed 2 two_done (done 1 ∷ done 2 ∷ []);
  drain_result = record {
    started_at = some (pos 9);
    completed_at = some (pos 10);
    elapsed_ns = pos 1;
    timeout = pos 5;
    timed_out = false;
    parent_cancelled = false;
    cancelled_request_ids = [];
  };
}

completed_iff_example :
    (status_of finished_run none ≡ run_completed) ↔ IsDelivered finished_run none
completed_iff_example = completed_iff finished_run none

finished_run_completed : status_of finished_run none ≡ run_completed
unfolding classify_run phase_metadata failed increment_outcome
finished_run_completed = refl

timed_out_run_failed : status_of finished_run (some drain_timeout_expired) ≡ run_failed
unfolding classify_run
timed_out_run_failed = refl
