-- ===== src/Tests/Open.antt =====
-- A measured open-loop phase of three arrivals with room for one request, scheduled to its end.
use llm_serving_performance.Benchmark.Outcomes.{
  increment_outcome, total, completed, phase_status, classify_outcome,
}
use llm_serving_performance.Benchmark.OpenLoop.Step.{
  dropped_arrival, started_arrival, request_result, OpenAction, open_run, look, wake, waits,
  proceed, request, answer, classify, deactivate, release, send, collect, close_results,
  schedule_step, requests_finished, join,
}
use llm_serving_performance.Prelude.Sort.{sort_by}
use llm_serving_performance.Benchmark.Ids.{phase_request_id}
use llm_serving_performance.Benchmark.ClosedLoop.Step.{drain_time_remaining}
use llm_serving_performance.Benchmark.Transitions.{new_lifecycle_state, transition}
use llm_serving_performance.Benchmark.Coordinator.{enter_stop_and_drain}
use llm_serving_performance.Prelude.Int.{◌+ℤ◌, ◌-ℤ◌, saturate64, pos}
use llm_serving_performance.Benchmark.OpenLoop.Ordered.{
  consecutive, sequences, open_arrivals_listed,
}
use llm_serving_performance.Prelude.Sums.{sum_by}
use llm_serving_performance.Prelude.{
  List, [], arith, false, length, none, refl, some, true, ◌++◌, ◌+◌, ◌∷◌, ◌≡◌, ◌≤◌,
}
use llm_serving_performance.Benchmark.OpenLoop.Result.{open_end_phase, open_phase_result}
use llm_serving_performance.Benchmark.OpenLoop.Progress.{open_loop_can_end}
use llm_serving_performance.Benchmark.OpenLoop.Placed.{is_ended}
use llm_serving_performance.Benchmark.OpenLoop.Defs.{OpenPlan, OpenState, open_initial}
use llm_serving_performance.Benchmark.OpenLoop.Count.{record_with}
use llm_serving_performance.Benchmark.OpenLoop.Completed.{open_completed_means_all}
use llm_serving_performance.Benchmark.OpenLoop.Accounting.{open_loop_accounts, open_loop_bounded}
use llm_serving_performance.Benchmark.ClosedLoop.Count.{issued}
use llm_serving_performance.Tests.Phase.{coordinator}
use llm_serving_performance.Benchmark.Types

abbrev open_plan : OpenPlan
open_plan = record {
  phase = Types.measured;
  schedule = pos 0 ∷ pos 50 ∷ pos 100 ∷ [];
  max_in_flight = 1;
  started_at = pos 100;
  deadline = some (pos 300);
  drain_timeout_ns = pos 1000;
  stopped_reason = some "measurement_duration_elapsed";
  cancelled_reason = some "parent_cancelled_during_measurement";
}

-- The first arrival starts its request; the second finds no room.
abbrev two_arrivals : List OpenAction
two_arrivals =
    schedule_step (waits (look (pos 90)))
    ∷ schedule_step (waits wake)
    ∷ schedule_step (waits (look (pos 100)))
    ∷ schedule_step (proceed (pos 100))
    ∷ request 0 (answer none false (some (pos 101)))
    ∷ schedule_step (waits (look (pos 150)))
    ∷ schedule_step (proceed (pos 151))
    ∷ []

-- The first request ends, the third arrival starts one, and the phase drains.
abbrev all_steps : List OpenAction
all_steps =
    two_arrivals
    ++ request 0 classify
      ∷ request 0 deactivate
      ∷ request 0 release
      ∷ request 0 send
      ∷ collect
      ∷ schedule_step (waits (look (pos 200)))
      ∷ schedule_step (proceed (pos 205))
      ∷ schedule_step (proceed (pos 206))
      ∷ schedule_step (waits (look (pos 300)))
      ∷ schedule_step (proceed (pos 300))
      ∷ schedule_step (proceed (pos 301))
      ∷ request 1 (answer none false (some (pos 206)))
      ∷ request 1 classify
      ∷ request 1 deactivate
      ∷ request 1 release
      ∷ request 1 send
      ∷ close_results
      ∷ schedule_step requests_finished
      ∷ collect
      ∷ schedule_step join
      ∷ []

abbrev at_end : OpenState
at_end = open_run open_plan (open_initial open_plan coordinator none) all_steps

over : is_ended at_end.main ≡ true
unfolding open_run open_initial saturate64 ◌-ℤ◌ ◌+ℤ◌ enter_stop_and_drain transition
    new_lifecycle_state drain_time_remaining phase_request_id
over = refl

limited_once : (open_end_phase open_plan at_end (pos 400)).0.arrival_counts.client_limited_count ≡ 1
unfolding open_run open_initial open_end_phase open_phase_result sort_by saturate64 ◌-ℤ◌ ◌+ℤ◌
    enter_stop_and_drain transition new_lifecycle_state drain_time_remaining phase_request_id
    request_result started_arrival dropped_arrival
limited_once = refl

done_well : (open_end_phase open_plan at_end (pos 400)).0.status ≡ completed
unfolding open_run open_initial open_end_phase open_phase_result phase_status classify_outcome
    saturate64 ◌-ℤ◌ ◌+ℤ◌ enter_stop_and_drain transition new_lifecycle_state drain_time_remaining
    phase_request_id increment_outcome request_result
done_well = refl

open_loop_bounded_example :
    let o = (open_run open_plan (open_initial open_plan coordinator none) two_arrivals).pool in
    (o.active ≤ o.semaphore) × (o.semaphore ≤ 1) × (o.max_active ≤ 1)
open_loop_bounded_example = open_loop_bounded open_plan coordinator none two_arrivals

open_loop_accounts_example :
    let r = (open_end_phase open_plan at_end (pos 400)).0 in
    (r.arrival_counts.planned
      ≡ r.arrival_counts.started_count + r.arrival_counts.client_limited_count
        + r.arrival_counts.scheduler_limited_count
        + r.arrival_counts.unprocessed_due_to_cancellation)
    × (sum_by (record_with 2) r.arrivals ≡ issued 2 r.arrival_counts.processed)
    × (r.arrival_counts.started_count ≡ length r.completed)
    × (total r.outcomes ≡ length r.completed)
open_loop_accounts_example =
    open_loop_accounts open_plan coordinator none all_steps (pos 400) 2 over

open_arrivals_listed_example :
    let r = (open_end_phase open_plan at_end (pos 400)).0 in
    sequences r.arrivals ≡ consecutive 1 r.arrival_counts.processed
open_arrivals_listed_example =
    open_arrivals_listed open_plan coordinator none all_steps (pos 400) over

open_completed_means_all_example :
    let (r, err, c') = open_end_phase open_plan at_end (pos 400) in
    (err ≡ none)
    × (r.arrival_counts.unprocessed_due_to_cancellation ≡ 0)
    × (r.outcomes.succeeded_count ≡ r.arrival_counts.started_count)
open_completed_means_all_example =
    open_completed_means_all open_plan coordinator none all_steps (pos 400) over done_well

open_loop_can_end_example :
    (more : List OpenAction) × (is_ended
        (open_run open_plan
          (open_run open_plan (open_initial open_plan coordinator none) two_arrivals)
          more).main
      ≡ true)
open_loop_can_end_example = open_loop_can_end open_plan coordinator none two_arrivals (omega arith)
