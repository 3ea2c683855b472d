-- ===== src/Tests/Summary.antt =====
-- The input of a summary: a warmup request and a measured one.
use llm_serving_performance.Prelude.{true, ◌≤◌, ◌≡◌, refl, none, some, [], ◌++◌, map}
use llm_serving_performance.Prelude.Int.{ℤ, pos}
use llm_serving_performance.Prelude.Sums.{sum_by}
use llm_serving_performance.Prelude.Results.{ok}
use llm_serving_performance.Floats.Whole.{whole}
use llm_serving_performance.Benchmark.Types.{closed_loop}
use llm_serving_performance.Benchmark.Outcomes.{
  OutcomeCounts, no_outcomes, increment_outcome, total,
}
use llm_serving_performance.Aggregate.Slo.{validate_slo_config}
use llm_serving_performance.Metrics.Calculate.{calculate}
use llm_serving_performance.Benchmark.Ids.{request_id}
use llm_serving_performance.Aggregate.Types.{Request}
use llm_serving_performance.Aggregate.Input.{Input}
use llm_serving_performance.Aggregate.Selection.{validate_and_select_measured}
use llm_serving_performance.Aggregate.Selection.Selected.{
  Every, IsValid, only_measured, is_for, selection_sound,
}
use llm_serving_performance.Tests.Numbers.{requests, slo}
use llm_serving_performance.Benchmark.Types

abbrev in_warmup : Request whole → Request whole
in_warmup r = record r { phase = Types.warmup }

abbrev one_success : OutcomeCounts
one_success = record no_outcomes { succeeded_count = 1 }

abbrev pub input : Input whole
input = record {
  run_id = "run";
  run_status = "completed";
  error_class = "";
  is_complete = true;
  workload = record {
    mode = "prompt";
    input_target_tokens = none;
    input_resolved_tokens = none;
    requested_output_max_tokens = pos 3;
  };
  load = record {
    mode = closed_loop;
    closed_loop_input = some (record { requested_concurrency = pos 2; requested_requests = pos 4 });
    open_loop_input = none;
  };
  measurement = record {
    requested = pos 4;
    attempted = pos 1;
    completed = pos 1;
    elapsed_ns = pos 2000000000;
    outcomes = one_success;
    requested_concurrency = pos 2;
    worker_count = pos 2;
    max_observed_active = pos 1;
    arrival_counts = none;
  };
  requests = map in_warmup requests ++ requests;
  arrivals = [];
  slo = slo;
}

selected : validate_and_select_measured whole input ≡ ok (requests, one_success)
unfolding validate_and_select_measured validate_slo_config calculate request_id increment_outcome
    total
selected = refl

selection_sound_example :
    (requests ≡ only_measured whole input.requests)
    × Every whole (IsValid whole "run" (pos 4)) requests
    × ((q : ℤ) → sum_by (is_for whole q) requests ≤ 1)
    × (pos 1 ≡ pos 1)
    × (pos 1 ≡ pos 1)
    × (one_success ≡ one_success)
    × (total one_success ≡ 1)
selection_sound_example = selection_sound whole input requests one_success selected
