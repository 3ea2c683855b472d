-- ===== src/Tests/Lifecycles.antt =====
-- A closed-loop run of two measured requests from its plan to its result.
use llm_serving_performance.Benchmark.Coordinator.{
  enter_stop_and_drain, finish_lifecycle, returned, aborted, RunReturn,
}
use llm_serving_performance.Prelude.Int.{◌+ℤ◌, ◌-ℤ◌, saturate64, pos}
use llm_serving_performance.Benchmark.ClosedLoop.Step.{drain_time_remaining, run, Action}
use llm_serving_performance.Benchmark.ClosedLoop.Defs.{initial}
use llm_serving_performance.Benchmark.ClosedLoop.Result.{end_phase}
use llm_serving_performance.Benchmark.Lifecycle.{
  measure, warm_up, LifecyclePlan, run_lifecycle, run_phases, validate_lifecycle,
}
use llm_serving_performance.Benchmark.Phases.{run_phase, LifecycleEnv, PhaseEnv}
use llm_serving_performance.Benchmark.Transitions.{new_lifecycle_state, transition}
use llm_serving_performance.Floats.Whole.{whole}
use llm_serving_performance.Prelude.Results.{ok}
use llm_serving_performance.Prelude.{List, Option, [], false, length, none, refl, some, ℕ, ◌∷◌, ◌≡◌}
use llm_serving_performance.Floats.{zero_float}
use llm_serving_performance.Benchmark.Types.{Err, closed_loop, drain_timeout, request_timeout}
use llm_serving_performance.Benchmark.Lifecycle.Ended.{HasEnded, run_lifecycle-HasEnded}
use llm_serving_performance.Tests.Phase.{clean_schedule}
use llm_serving_performance.Benchmark.Types

abbrev plan : LifecyclePlan whole
plan = record {
  mode = Types.closed_loop;
  run_id = 114 ∷ [];
  concurrency = pos 2;
  warmup_requests = pos 0;
  measured_requests = pos 2;
  request_timeout = pos 500;
  drain_timeout = pos 1000;
  request_rate = zero_float whole;
  duration = pos 0;
  max_in_flight = pos 0;
}

abbrev quiet : List Action → PhaseEnv
quiet steps = record {
  parent = none;
  closed_steps = steps;
  open_steps = [];
  seen_at = pos 200;
  phase_end = pos 210;
}

abbrev env : LifecycleEnv
env = record {
  run_start = pos 0;
  setup_err = none;
  setup_cancel_at = pos 0;
  warmup_start = pos 50;
  warmup_env = quiet [];
  measurement_start = pos 100;
  measurement_env = quiet clean_schedule;
  is_parent_done = false;
  run_end = pos 220;
}

abbrev outcome : RunReturn
outcome = run_phases whole plan Types.closed_loop [] [] env

run_accepted : run_lifecycle whole plan env ≡ ok outcome
unfolding run_lifecycle validate_lifecycle
run_accepted = refl

run_lifecycle-HasEnded_example : HasEnded outcome
run_lifecycle-HasEnded_example = run_lifecycle-HasEnded whole plan env outcome run_accepted

abbrev error_of : RunReturn → Option Err
error_of (aborted e) = some e
error_of (returned r e) = e

abbrev log_length : RunReturn → ℕ
log_length (aborted e) = 0
log_length (returned r e) = length r.transitions

-- The run passes through six phases and ends without an error.
run_ends_well : error_of outcome ≡ none
unfolding run_phases warm_up transition new_lifecycle_state measure finish_lifecycle run_phase
    end_phase run initial drain_time_remaining saturate64 ◌-ℤ◌ ◌+ℤ◌ enter_stop_and_drain
run_ends_well = refl

run_log : log_length outcome ≡ 6
unfolding run_phases warm_up transition new_lifecycle_state measure finish_lifecycle run_phase
    end_phase run initial drain_time_remaining saturate64 ◌-ℤ◌ ◌+ℤ◌ enter_stop_and_drain
run_log = refl
