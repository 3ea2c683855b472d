-- ===== src/Benchmark/ClosedLoop/Result.antt =====
-- The end of `runClosedLoopPhase`, behind its select loop. Stopping the timer changes nothing else.
use llm_serving_performance.Prelude.{[], ◌&&◌, Option, some, if◌then◌else◌}
use llm_serving_performance.Prelude.Int.{ℤ, ◌-ℤ◌, saturate64}
use llm_serving_performance.Benchmark.Types.{Err, closed_loop}
use llm_serving_performance.Benchmark.Outcomes.{phase_status}
use llm_serving_performance.Benchmark.Arrivals.{PhaseResult, no_arrivals}
use llm_serving_performance.Benchmark.Coordinator.{Coordinator}
use llm_serving_performance.Benchmark.ClosedLoop.Defs.{Plan, State, worker_count}
use llm_serving_performance.Benchmark.ClosedLoop.Step.{cancel_callback, or_else, is_some_err}

abbrev pub see_parent : State → Coordinator × Option Err → State
see_parent s (c, err) = record s {
  coordinator = c;
  phase_err = or_else (or_else s.phase_err err) s.parent_err;
}

-- The last look at the parent context, if its case was never taken.
unfoldable pub last_look : Plan → State → ℤ → State
last_look p s now =
    if is_some_err s.parent_err && s.parent_armed
    then see_parent s (cancel_callback p s.coordinator now)
    else s

-- The result of a state that the loop has left, at the clock's reading.
unfoldable pub phase_result : Plan → State → ℤ → PhaseResult
phase_result p s completed_at = record {
  load_mode = closed_loop;
  phase = p.phase;
  status = phase_status s.outcomes s.phase_err;
  started_at = some p.started_at;
  completed_at = some completed_at;
  elapsed_ns = saturate64 (completed_at -ℤ p.started_at);
  requested_requests = p.requests;
  requested_concurrency = p.concurrency;
  worker_count = worker_count p;
  max_observed_active = s.max_active;
  arrivals = [];
  arrival_counts = no_arrivals 0;
  outcomes = s.outcomes;
  completed = s.completed;
}

-- The result and the error returned, with the coordinator's state.
unfoldable pub end_phase : Plan → State → ℤ → ℤ → PhaseResult × Option Err × Coordinator
unfolding last_look phase_result
end_phase p s now completed_at =
    let t = last_look p s now in (phase_result p t completed_at, t.phase_err, t.coordinator)
