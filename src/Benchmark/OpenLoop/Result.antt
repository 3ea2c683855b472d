-- ===== src/Benchmark/OpenLoop/Result.antt =====
-- The end of `runOpenLoopPhase`, behind its last receive.
use llm_serving_performance.Prelude.{[], Bool, List, Option, leb, length, some, ◌++◌, ◌+◌, ◌-◌, ◌∷◌}
use llm_serving_performance.Prelude.Int.{saturate64, ℤ, ◌-ℤ◌}
use llm_serving_performance.Prelude.Sort.{sort_by}
use llm_serving_performance.Benchmark.Types.{Err, open_loop}
use llm_serving_performance.Benchmark.Outcomes.{phase_status}
use llm_serving_performance.Benchmark.OpenLoop.Defs.{OpenPlan, OpenState}
use llm_serving_performance.Benchmark.OpenLoop.Count.{
  was_client_limited, was_scheduler_limited, was_started,
}
use llm_serving_performance.Benchmark.Coordinator.{Coordinator}
use llm_serving_performance.Benchmark.Arrivals.{ArrivalCounts, ArrivalRecord, PhaseResult}

abbrev pub by_sequence : ArrivalRecord → ArrivalRecord → Bool
by_sequence a b = leb a.sequence b.sequence

-- The loop over the arrivals that counts them by their disposition.
unfoldable pub count_arrivals : ArrivalCounts → List ArrivalRecord → ArrivalCounts
count_arrivals n [] = n
count_arrivals n (a ∷ rest) =
    count_arrivals
      (record n {
        started_count = n.started_count + was_started a.disposition;
        client_limited_count = n.client_limited_count + was_client_limited a.disposition;
        scheduler_limited_count = n.scheduler_limited_count + was_scheduler_limited a.disposition;
      })
      rest

unfoldable pub open_arrivals : OpenState → List ArrivalRecord
open_arrivals s = sort_by by_sequence (s.pool.dropped ++ s.pool.collected_arrivals)

-- The subtraction of `processed` stops at zero, as the code's does with its last test.
unfoldable pub open_arrival_counts : OpenPlan → OpenState → ArrivalCounts
unfolding open_arrivals count_arrivals
open_arrival_counts p s =
    count_arrivals
      (record {
        planned = length p.schedule;
        processed = length (open_arrivals s);
        started_count = 0;
        client_limited_count = 0;
        scheduler_limited_count = 0;
        unprocessed_due_to_cancellation = length p.schedule - s.pool.processed;
        max_observed_in_flight = s.pool.max_active;
      })
      (open_arrivals s)

-- The result of a state that has ended, at the clock's reading.
unfoldable pub open_phase_result : OpenPlan → OpenState → ℤ → PhaseResult
unfolding open_arrival_counts
open_phase_result p s completed_at = record {
  load_mode = open_loop;
  phase = p.phase;
  status = phase_status s.pool.outcomes s.phase_err;
  started_at = some p.started_at;
  completed_at = some completed_at;
  elapsed_ns = saturate64 (completed_at -ℤ p.started_at);
  requested_requests = length p.schedule;
  requested_concurrency = 0;
  worker_count = 0;
  max_observed_active = s.pool.max_active;
  arrivals = open_arrivals s;
  arrival_counts = open_arrival_counts p s;
  outcomes = s.pool.outcomes;
  completed = s.pool.collected;
}

unfoldable pub open_end_phase : OpenPlan → OpenState → ℤ → PhaseResult × Option Err × Coordinator
open_end_phase p s completed_at = (open_phase_result p s completed_at, s.phase_err, s.coordinator)
