-- ===== src/Benchmark/Phases.antt =====
-- One phase of a lifecycle for `Run`: its plan and environment, its result where it is skipped, and
-- its run in either loop, internal/benchmark/lifecycle.go.
use llm_serving_performance.Benchmark.ClosedLoop.Defs.{initial, Plan}
use llm_serving_performance.Benchmark.ClosedLoop.Step.{run, Action}
use llm_serving_performance.Prelude.Int.{negsuc, pos, ℤ}
use llm_serving_performance.Prelude.{
  Bool, List, Option, String, [], false, if◌then◌else◌, ltb, none, true, ℕ,
}
use llm_serving_performance.Benchmark.Types.{Err, LoadMode, RequestPhase, open_loop}
use llm_serving_performance.Benchmark.Outcomes.{PhaseStatus, no_outcomes, skipped}
use llm_serving_performance.Benchmark.OpenLoop.Step.{OpenAction, open_run}
use llm_serving_performance.Benchmark.OpenLoop.Result.{open_end_phase}
use llm_serving_performance.Benchmark.OpenLoop.Defs.{OpenPlan, open_initial}
use llm_serving_performance.Benchmark.Coordinator.{Coordinator, LifecycleResult}
use llm_serving_performance.Benchmark.ClosedLoop.Result.{end_phase}
use llm_serving_performance.Benchmark.Arrivals.{PhaseResult, no_arrivals}

-- What one phase meets: the parent's error at its start, the steps of its goroutines, and the
-- clock's readings behind them.
pub record PhaseEnv : Type 0 where
  pub parent : Option Err
  pub closed_steps : List Action
  pub open_steps : List OpenAction
  pub seen_at : ℤ
  pub phase_end : ℤ

pub record LifecycleEnv : Type 0 where
  pub run_start : ℤ
  pub setup_err : Option Err
  pub setup_cancel_at : ℤ
  pub warmup_start : ℤ
  pub warmup_env : PhaseEnv
  pub measurement_start : ℤ
  pub measurement_env : PhaseEnv
  pub is_parent_done : Bool
  pub run_end : ℤ

-- A count that `validate` has found not to be negative.
abbrev pub count_of : ℤ → ℕ
count_of (pos n) = n
count_of (negsuc n) = 0

abbrev pub is_open_mode : LoadMode → Bool
is_open_mode open_loop = true
is_open_mode _ = false

-- `skippedPhaseResult`
unfoldable pub skipped_phase_result : LoadMode → RequestPhase → ℕ → ℕ → PhaseResult
skipped_phase_result mode phase requested concurrency = record {
  load_mode = mode;
  phase = phase;
  status = skipped;
  started_at = none;
  completed_at = none;
  elapsed_ns = pos 0;
  requested_requests = requested;
  requested_concurrency = if is_open_mode mode then 0 else concurrency;
  worker_count = 0;
  max_observed_active = 0;
  arrivals = [];
  arrival_counts = no_arrivals (if is_open_mode mode then requested else 0);
  outcomes = no_outcomes;
  completed = [];
}

mark_skipped : PhaseStatus → PhaseResult → PhaseResult
mark_skipped skipped r =
    if ltb 0 r.arrival_counts.planned
    then record r {
      arrival_counts = record (r.arrival_counts) {
        unprocessed_due_to_cancellation = r.arrival_counts.planned;
      };
    }
    else r
mark_skipped _ r = r

-- `markSkippedOpenLoopUnprocessed`
unfoldable pub mark_skipped_unprocessed : LifecycleResult → LifecycleResult
unfolding mark_skipped
mark_skipped_unprocessed r =
    if is_open_mode r.load_mode
    then record r {
      warmup = mark_skipped r.warmup.status r.warmup;
      measurement = mark_skipped r.measurement.status r.measurement;
    }
    else r

-- A phase's `phaseExecutionPlan`, for either loop.
pub record PhaseSpec : Type 0 where
  pub phase : RequestPhase
  pub requests : ℕ
  pub schedule : List ℤ
  pub started_at : ℤ
  pub deadline : Option ℤ
  pub drain_timeout_ns : ℤ
  pub stopped_reason : Option String
  pub cancelled_reason : Option String

abbrev pub closed_plan : ℕ → PhaseSpec → Plan
closed_plan concurrency q = record {
  phase = q.phase;
  concurrency = concurrency;
  requests = q.requests;
  started_at = q.started_at;
  drain_timeout_ns = q.drain_timeout_ns;
  stopped_reason = q.stopped_reason;
  cancelled_reason = q.cancelled_reason;
}

abbrev pub open_plan : ℕ → PhaseSpec → OpenPlan
open_plan max_in_flight q = record {
  phase = q.phase;
  schedule = q.schedule;
  max_in_flight = max_in_flight;
  started_at = q.started_at;
  deadline = q.deadline;
  drain_timeout_ns = q.drain_timeout_ns;
  stopped_reason = q.stopped_reason;
  cancelled_reason = q.cancelled_reason;
}

-- A whole phase, as its loop is.
unfoldable pub run_phase :
    LoadMode → ℕ → ℕ → PhaseSpec → Coordinator → PhaseEnv → PhaseResult × Option Err × Coordinator
run_phase open_loop concurrency max_in_flight q c env =
    let p = open_plan max_in_flight q in
    open_end_phase p (open_run p (open_initial p c env.parent) env.open_steps) env.phase_end
run_phase _ concurrency max_in_flight q c env =
    let p = closed_plan concurrency q in
    end_phase p (run p (initial p c env.parent) env.closed_steps) env.seen_at env.phase_end
