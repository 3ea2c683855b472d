-- ===== src/Tests/Phase.antt =====
-- A measured closed-loop phase of two requests on two workers, scheduled to its end.
use llm_serving_performance.Benchmark.Types.{closed_loop, parent_cancelled, Err, deadline_exceeded}
use llm_serving_performance.Benchmark.ClosedLoop.Defs.{Plan, initial, loop_goes_on}
use llm_serving_performance.Prelude.{
  ◌++◌, Bool, Option, ◌≤◌, ◌≡◌, refl, true, false, none, some, List, [], ◌∷◌, arith, length,
}
use llm_serving_performance.Prelude.Sums.{sum_by}
use llm_serving_performance.Prelude.Int.{pos, saturate64, ◌-ℤ◌, ◌+ℤ◌}
use llm_serving_performance.Benchmark.Outcomes.{
  no_outcomes, total, increment_outcome, phase_status, classify_outcome,
}
use llm_serving_performance.Benchmark.Arrivals.{PhaseResult, no_arrivals}
use llm_serving_performance.Benchmark.Transitions.{
  new_lifecycle_state, transition, warmup, measurement, LifecycleState,
}
use llm_serving_performance.Benchmark.Coordinator.{
  Coordinator, DrainResult, LifecycleResult, finish_lifecycle, enter_stop_and_drain,
}
use llm_serving_performance.Benchmark.Coordinator.Finish.{
  IsLive, IsFinished, finish_lifecycle-IsFinished,
}
use llm_serving_performance.Benchmark.ClosedLoop.Step.{
  classified, Action, work, receive_boundary, receive_result, enter, drain_time_remaining, claim,
  start, classify, send, proceed, resume, answer, run,
}
use llm_serving_performance.Benchmark.ClosedLoop.Count.{
  occupancy, issued, started_count, has_sequence,
}
use llm_serving_performance.Benchmark.ClosedLoop.Result.{end_phase}
use llm_serving_performance.Benchmark.ClosedLoop.Completed.{completed_means_all}
use llm_serving_performance.Benchmark.ClosedLoop.Delivery.{
  in_flight_bounded, issued_once, last_request_gated, collected_exactly, uncancelled_complete,
}
use llm_serving_performance.Benchmark.Types
use llm_serving_performance.Benchmark.Outcomes

abbrev plan : Plan
plan = record {
  phase = Types.measured;
  concurrency = 2;
  requests = 2;
  started_at = pos 100;
  drain_timeout_ns = pos 1000;
  stopped_reason = some "measured_request_limit_reached";
  cancelled_reason = some "parent_cancelled_during_measurement";
}

abbrev no_drain : DrainResult
no_drain = record {
  started_at = none;
  completed_at = none;
  elapsed_ns = pos 0;
  timeout = pos 1000;
  timed_out = false;
  parent_cancelled = false;
  cancelled_request_ids = [];
}

abbrev measuring : LifecycleState
measuring =
    (transition (transition (new_lifecycle_state (pos 0)) warmup (pos 50) "warmup_skipped").0
      measurement (pos 100) "warmup_complete").0

abbrev pub coordinator : Coordinator
coordinator = record { state = measuring; drain_result = no_drain }

-- Both workers claim; the second one waits for the boundary; then both requests run at once.
abbrev both_claim : List Action
both_claim =
    work 0 enter
    ∷ work 1 enter
    ∷ work 0 claim
    ∷ work 1 claim
    ∷ work 0 (proceed (pos 110))
    ∷ work 0 start
    ∷ work 1 (proceed (pos 120))
    ∷ work 1 start
    ∷ []

-- The rest, with the second request's answer.
abbrev schedule_with : Option Err → Bool → List Action
schedule_with err late =
    both_claim
    ++ (receive_boundary (pos 130)
        ∷ work 1 resume
        ∷ work 1 start
        ∷ work 0 (answer none false)
        ∷ work 0 classify
        ∷ work 0 send
        ∷ receive_result
        ∷ work 1 (answer err late)
        ∷ work 1 classify
        ∷ work 1 send
        ∷ work 0 enter
        ∷ work 0 claim
        ∷ work 1 enter
        ∷ work 1 claim
        ∷ receive_result
        ∷ receive_result
        ∷ [])

-- The second request runs into its deadline.
abbrev schedule : List Action
schedule = schedule_with (some deadline_exceeded) true

abbrev pub clean_schedule : List Action
clean_schedule = schedule_with none false

phase_over : loop_goes_on (run plan (initial plan coordinator none) schedule) ≡ false
unfolding run initial transition new_lifecycle_state drain_time_remaining saturate64 ◌-ℤ◌ ◌+ℤ◌
    enter_stop_and_drain loop_goes_on
phase_over = refl

phase_free : (run plan (initial plan coordinator none) schedule).phase_cause ≡ none
unfolding run initial transition new_lifecycle_state drain_time_remaining saturate64 ◌-ℤ◌ ◌+ℤ◌
    enter_stop_and_drain
phase_free = refl

-- Two requests were in flight together.
phase_peak : (run plan (initial plan coordinator none) schedule).max_active ≡ 2
unfolding run initial transition new_lifecycle_state drain_time_remaining saturate64 ◌-ℤ◌ ◌+ℤ◌
    enter_stop_and_drain
phase_peak = refl

in_flight_bounded_example :
    let s = run plan (initial plan coordinator none) schedule in
    (s.active ≤ s.max_active) × (s.max_active ≤ 2) × (s.max_active ≤ 2)
in_flight_bounded_example = in_flight_bounded plan coordinator none schedule

issued_once_example : occupancy 2 (run plan (initial plan coordinator none) schedule) ≤ issued 2 2
issued_once_example = issued_once plan coordinator none schedule 2

not_yet_stopped : (run plan (initial plan coordinator none) both_claim).admission_stopped ≡ false
unfolding run initial transition new_lifecycle_state drain_time_remaining saturate64 ◌-ℤ◌ ◌+ℤ◌
    enter_stop_and_drain
not_yet_stopped = refl

last_request_gated_example :
    started_count 2 (run plan (initial plan coordinator none) both_claim) ≡ 0
last_request_gated_example =
    last_request_gated plan coordinator none both_claim refl not_yet_stopped

collected_exactly_example :
    let s = run plan (initial plan coordinator none) schedule in
    (sum_by (has_sequence 1) s.completed ≡ issued 1 s.next_sequence)
    × (length s.completed ≡ s.next_sequence)
    × (total s.outcomes ≡ s.next_sequence)
collected_exactly_example = collected_exactly plan coordinator none schedule 1 phase_over

uncancelled_complete_example :
    let s = run plan (initial plan coordinator none) schedule in
    (sum_by (has_sequence 2) s.completed ≡ issued 2 2) × (total s.outcomes ≡ 2)
uncancelled_complete_example =
    uncancelled_complete plan coordinator none schedule 2 (omega arith) phase_over phase_free

clean_over : loop_goes_on (run plan (initial plan coordinator none) clean_schedule) ≡ false
unfolding run initial transition new_lifecycle_state drain_time_remaining saturate64 ◌-ℤ◌ ◌+ℤ◌
    enter_stop_and_drain loop_goes_on
clean_over = refl

clean_completed :
    (end_phase plan
      (run plan (initial plan coordinator none) clean_schedule)
      (pos 140)
      (pos 150)).0.status
    ≡ Outcomes.completed
unfolding run initial transition new_lifecycle_state drain_time_remaining saturate64 ◌-ℤ◌ ◌+ℤ◌
    enter_stop_and_drain loop_goes_on end_phase increment_outcome phase_status classified
    classify_outcome
clean_completed = refl

completed_means_all_example :
    let (r, err, c') =
      end_phase plan
        (run plan (initial plan coordinator none) clean_schedule)
        (pos 140)
        (pos 150) in
    (err ≡ none)
    × (sum_by (has_sequence 2) r.completed ≡ issued 2 2)
    × (r.outcomes.succeeded_count ≡ 2)
completed_means_all_example =
    completed_means_all plan coordinator none clean_schedule (pos 140) (pos 150) 2 (omega arith)
      clean_over clean_completed

coordinator-IsLive : IsLive coordinator
unfolding transition new_lifecycle_state
coordinator-IsLive = record {
  is_open = tt;
  logged = (refl, refl, (refl, refl, (refl, refl, refl)));
}

abbrev empty_phase : PhaseResult
empty_phase = record {
  load_mode = Types.closed_loop;
  phase = Types.measured;
  status = Outcomes.skipped;
  started_at = none;
  completed_at = none;
  elapsed_ns = pos 0;
  requested_requests = 2;
  requested_concurrency = 2;
  worker_count = 0;
  max_observed_active = 0;
  arrivals = [];
  arrival_counts = no_arrivals 0;
  outcomes = no_outcomes;
  completed = [];
}

abbrev unfinished : LifecycleResult
unfinished = record {
  load_mode = Types.closed_loop;
  started_at = pos 0;
  completed_at = pos 0;
  elapsed_ns = pos 0;
  transitions = [];
  warmup = empty_phase;
  measurement = empty_phase;
  drain_result = no_drain;
}

finish_lifecycle-IsFinished_example :
    IsFinished none (finish_lifecycle coordinator unfinished (pos 200) none)
finish_lifecycle-IsFinished_example =
    finish_lifecycle-IsFinished coordinator unfinished (pos 200) none coordinator-IsLive
