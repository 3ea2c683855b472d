-- ===== src/Tests/Delivered.antt =====
-- An open loop of one planned arrival that has started, and its calibration.
use llm_serving_performance.Prelude.{true, ◌≡◌, refl, none, some, [], ◌∷◌}
use llm_serving_performance.Prelude.Int.{pos}
use llm_serving_performance.Prelude.Results.{ok}
use llm_serving_performance.Floats.Whole.{whole}
use llm_serving_performance.Benchmark.Types.{open_loop}
use llm_serving_performance.Benchmark.Arrivals.{ArrivalCounts}
use llm_serving_performance.Benchmark.Schedule.{planned_arrival_count}
use llm_serving_performance.Metrics.Calculate.{calculate}
use llm_serving_performance.Aggregate.Types.{calculate_ratio}
use llm_serving_performance.Aggregate.Input.{Input, OpenLoopInput}
use llm_serving_performance.Aggregate.Load.{
  OpenLoopSummary, open_summary, populate_load_summary, open_loop_load,
}
use llm_serving_performance.Calibration.{Evidence, evaluate_evidence}
use llm_serving_performance.Calibration.Clean.{clean_means_delivered}
use llm_serving_performance.Tests.Numbers.{requests}
use llm_serving_performance.Tests.Summary.{input}
use llm_serving_performance.Tests.Load.{first_arrival}

abbrev one_arrival : ArrivalCounts
one_arrival = record {
  planned = 1;
  processed = 1;
  started_count = 1;
  client_limited_count = 0;
  scheduler_limited_count = 0;
  unprocessed_due_to_cancellation = 0;
  max_observed_in_flight = 1;
}

abbrev one_second : OpenLoopInput whole
one_second = record {
  configured_request_rate = pos 1;
  duration = pos 1000000000;
  max_in_flight = pos 1;
  planned_arrivals = pos 1;
}

abbrev delivered_run : Input whole
delivered_run = record input {
  load = record { mode = open_loop; closed_loop_input = none; open_loop_input = some one_second };
  measurement = record (input.measurement) { requested = pos 1; arrival_counts = some one_arrival };
  arrivals = first_arrival ∷ [];
}

abbrev delivered : OpenLoopSummary whole
delivered = open_summary whole one_second one_arrival

abbrev evidence : Evidence whole
evidence = record {
  run_status = "completed";
  complete = true;
  counts = record {
    requested_or_planned = pos 1;
    started_requests = 1;
    completed_requests = 1;
    successful = 1;
    failed_requests = 0;
    request_errors = 0;
    request_timeouts = 0;
    parent_cancellations = 0;
    drain_timeouts = 0;
  };
  mode = open_loop;
  open_load = some delivered;
  attempted = pos 1;
  lag_available = true;
  lag_p95 = pos 0;
}

loaded : populate_load_summary whole delivered_run requests ≡ ok (open_loop_load delivered)
unfolding populate_load_summary planned_arrival_count calculate
loaded = refl

is_clean : evaluate_evidence whole evidence (some (pos 5)) ≡ []
unfolding evaluate_evidence open_summary calculate_ratio
is_clean = refl

clean_means_delivered_example :
    (delivered.planned_arrivals ≡ delivered.started_arrivals)
    × (delivered.planned_arrivals ≡ 1)
    × (evidence.counts.failed_requests ≡ 0)
clean_means_delivered_example =
    clean_means_delivered whole evidence (some (pos 5)) delivered_run requests delivered is_clean
      refl refl loaded
