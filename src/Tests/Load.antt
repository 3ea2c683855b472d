-- ===== src/Tests/Load.antt =====
-- An open loop of four planned arrivals: a start, two limited arrivals and one that is not reached.
use llm_serving_performance.Prelude.{ℕ, ◌≡◌, refl, none, some, List, [], ◌∷◌}
use llm_serving_performance.Prelude.Int.{pos}
use llm_serving_performance.Prelude.Results.{ok}
use llm_serving_performance.Floats.Whole.{whole}
use llm_serving_performance.Benchmark.Types.{
  open_loop, measured, ArrivalDisposition, started, client_limited, scheduler_limited,
}
use llm_serving_performance.Benchmark.Arrivals.{ArrivalRecord, ArrivalCounts}
use llm_serving_performance.Benchmark.Schedule.{planned_arrival_count}
use llm_serving_performance.Metrics.Calculate.{calculate}
use llm_serving_performance.Aggregate.Input.{Input, OpenLoopInput}
use llm_serving_performance.Aggregate.Load.{
  open_summary, measured_arrivals, populate_load_summary, open_loop_load,
}
use llm_serving_performance.Aggregate.Load.Accounting.{Accounts, open_loop_accounted}
use llm_serving_performance.Tests.Numbers.{requests}
use llm_serving_performance.Tests.Summary.{input}

abbrev arrival : ℕ → ArrivalDisposition → ArrivalRecord
arrival n d = record {
  sequence = n;
  phase = measured;
  scheduled_at = pos 0;
  scheduled_after_ns = pos 0;
  disposition = d;
  request_id = none;
  actual_started_at = none;
  actual_started_after_ns = none;
  scheduler_lag_ns = none;
}

abbrev pub first_arrival : ArrivalRecord
first_arrival = record (arrival 1 started) {
  request_id = some (b'r' ∷ b'e' ∷ b'q' ∷ b'-' ∷ b'0' ∷ b'0' ∷ b'0' ∷ b'0' ∷ b'0' ∷ b'1' ∷ []);
  scheduler_lag_ns = some (pos 20);
}

abbrev arrivals : List ArrivalRecord
arrivals = first_arrival ∷ arrival 2 client_limited ∷ arrival 3 scheduler_limited ∷ []

abbrev counts : ArrivalCounts
counts = record {
  planned = 4;
  processed = 3;
  started_count = 1;
  client_limited_count = 1;
  scheduler_limited_count = 1;
  unprocessed_due_to_cancellation = 1;
  max_observed_in_flight = 1;
}

abbrev open_input : OpenLoopInput whole
open_input = record {
  configured_request_rate = pos 2;
  duration = pos 2000000000;
  max_in_flight = pos 1;
  planned_arrivals = pos 4;
}

abbrev open_input_run : Input whole
open_input_run = record input {
  load = record { mode = open_loop; closed_loop_input = none; open_loop_input = some open_input };
  measurement = record (input.measurement) { arrival_counts = some counts };
  arrivals = arrivals;
}

summarised :
    populate_load_summary whole open_input_run requests
    ≡ ok (open_loop_load (open_summary whole open_input counts))
unfolding populate_load_summary planned_arrival_count calculate
summarised = refl

open_loop_accounted_example :
    (o : OpenLoopInput whole) × (found : List ArrivalRecord) × (some open_input ≡ some o)
    × (measured_arrivals arrivals ≡ ok found)
    × Accounts whole requests open_input_run.measurement o found
        (open_summary whole open_input counts)
open_loop_accounted_example =
    open_loop_accounted whole requests open_input_run (open_summary whole open_input counts)
      summarised
