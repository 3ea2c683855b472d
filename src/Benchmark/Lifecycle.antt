-- ===== src/Benchmark/Lifecycle.antt =====
-- `LifecycleCoordinator.Run` with its plan and `validate`, internal/benchmark/lifecycle.go. The steps that the goroutines
-- of each phase take are the environment's, with the clock's readings and the cancellations.
pub mod Keeping
pub mod Opened
pub mod Ended
use llm_serving_performance.Benchmark.Phases.{
  LifecycleEnv, PhaseSpec, count_of, is_open_mode, mark_skipped_unprocessed, run_phase,
  skipped_phase_result,
}
use llm_serving_performance.Benchmark.ClosedLoop.Defs.{initial, Plan, worker_count}
use llm_serving_performance.Benchmark.ClosedLoop.Step.{run, Action}
use llm_serving_performance.Prelude.Results.{err, Result, ok, refuse_if, wrap_err, ◌>>=◌, ◌>>◌}
use llm_serving_performance.Prelude.Int.{leb_ℤ, ltb_ℤ, negsuc, pos, ℤ, ◌+ℤ◌}
use llm_serving_performance.Prelude.{
  Bool, List, Option, String, [], false, if◌then◌else◌, length, ltb, none, some, true, ℕ, ◌==◌,
  ◌||◌, ◌∷◌,
}
use llm_serving_performance.Floats.{Floats, zero_float}
use llm_serving_performance.Benchmark.Types.{
  Err, LoadMode, RequestPhase, closed_loop, is_drain_timeout, measured, normalized_load_mode,
  open_loop, parent_cancelled,
}
use llm_serving_performance.Benchmark.Transitions.{
  LifecycleState, measurement, new_lifecycle_state, transition,
}
use llm_serving_performance.Benchmark.Schedule.{
  ScheduleErr, arrival_offsets, duration_arrival_offsets,
}
use llm_serving_performance.Benchmark.Outcomes.{PhaseStatus, completed, no_outcomes, skipped}
use llm_serving_performance.Benchmark.OpenLoop.Step.{OpenAction, open_run}
use llm_serving_performance.Benchmark.OpenLoop.Result.{open_end_phase}
use llm_serving_performance.Benchmark.OpenLoop.Defs.{OpenPlan, open_initial}
use llm_serving_performance.Benchmark.Coordinator.{
  Coordinator, DrainResult, LifecycleResult, RunReturn, aborted, append_cancelled_ids,
  enter_stop_and_drain, finish_lifecycle,
}
use llm_serving_performance.Benchmark.ClosedLoop.Result.{end_phase}
use llm_serving_performance.Benchmark.Arrivals.{CompletedRequest, PhaseResult, no_arrivals}
use llm_serving_performance.Benchmark.Types
use llm_serving_performance.Benchmark.Transitions

pub data LifecycleErr : Type 0 where
  no_run_id bad_warmup_count bad_counts bad_open_loop unknown_mode bad_timeouts : LifecycleErr
  bad_warmup_schedule bad_measurement_schedule : ScheduleErr → LifecycleErr

module _ (fl : Floats) where
  open fl use {Float}

  pub record LifecyclePlan : Type 0 where
    pub mode : LoadMode
    pub run_id : List ℕ
    pub concurrency : ℤ
    pub warmup_requests : ℤ
    pub measured_requests : ℤ
    pub request_timeout : ℤ
    pub drain_timeout : ℤ
    pub request_rate : Float
    pub duration : ℤ
    pub max_in_flight : ℤ

abbrev is_no_id : List ℕ → Bool
is_no_id [] = true
is_no_id (_ ∷ _) = false

module _ (fl : Floats) where
  validate_mode : LifecyclePlan fl → LoadMode → Result LifecycleErr (Unit {0})
  validate_mode p closed_loop =
      refuse_if (leb_ℤ p.concurrency (pos 0) || leb_ℤ p.measured_requests (pos 0)) bad_counts
  validate_mode p open_loop =
      refuse_if
        (fl.le p.request_rate (zero_float fl)
          || (leb_ℤ p.duration (pos 0) || leb_ℤ p.max_in_flight (pos 0)))
        bad_open_loop
  validate_mode p _ = err unknown_mode

  -- `validate`, for a coordinator with a runner and a clock.
  unfoldable pub validate_lifecycle : LifecyclePlan fl → Result LifecycleErr (Unit {0})
  unfolding validate_mode
  validate_lifecycle p = do
    refuse_if (is_no_id p.run_id) no_run_id
    refuse_if (ltb_ℤ p.warmup_requests (pos 0)) bad_warmup_count
    validate_mode p (normalized_load_mode p.mode)
    refuse_if (leb_ℤ p.request_timeout (pos 0) || leb_ℤ p.drain_timeout (pos 0)) bad_timeouts

  unfoldable pub warmup_offsets : LifecyclePlan fl → LoadMode → Result ScheduleErr (List ℤ)
  warmup_offsets p open_loop = arrival_offsets fl p.request_rate p.warmup_requests
  warmup_offsets p _ = ok []

  unfoldable pub measurement_offsets : LifecyclePlan fl → LoadMode → Result ScheduleErr (List ℤ)
  measurement_offsets p open_loop = duration_arrival_offsets fl p.request_rate p.duration
  measurement_offsets p _ = ok []

  abbrev pub measured_count : LifecyclePlan fl → LoadMode → List ℤ → ℕ
  measured_count p open_loop schedule = length schedule
  measured_count p _ schedule = count_of p.measured_requests

  unfoldable pub start_coordinator : LifecyclePlan fl → ℤ → Coordinator
  start_coordinator p at = record {
    state = new_lifecycle_state at;
    drain_result = record {
      started_at = none;
      completed_at = none;
      elapsed_ns = pos 0;
      timeout = p.drain_timeout;
      timed_out = false;
      parent_cancelled = false;
      cancelled_request_ids = [];
    };
  }

  unfoldable pub start_result : LifecyclePlan fl → LoadMode → ℕ → ℤ → Coordinator → LifecycleResult
  start_result p mode requests at c = record {
    load_mode = mode;
    started_at = at;
    completed_at = pos 0;
    elapsed_ns = pos 0;
    transitions = [];
    warmup =
        skipped_phase_result mode Types.warmup (count_of p.warmup_requests)
          (count_of p.concurrency);
    measurement = skipped_phase_result mode measured requests (count_of p.concurrency);
    drain_result = c.drain_result;
  }

  -- `appendCancelledIDs` on the coordinator's drain record.
  abbrev pub with_cancelled : Coordinator → List CompletedRequest → Coordinator
  with_cancelled c done = record c {
    drain_result = record (c.drain_result) {
      cancelled_request_ids = append_cancelled_ids c.drain_result.cancelled_request_ids done;
    };
  }

  abbrev pub cancelled_in_setup : LifecycleResult → Err → ℤ → Coordinator × Option Err → RunReturn
  cancelled_in_setup r e run_end (c, some failure) = aborted failure
  cancelled_in_setup r e run_end (c, none) =
      finish_lifecycle
        (record c { drain_result = record (c.drain_result) { parent_cancelled = true } })
        (mark_skipped_unprocessed r) run_end (some e)

  -- Behind the measured phase.
  abbrev pub measured_with :
      LifecycleResult → LifecycleEnv → PhaseResult × Option Err × Coordinator → RunReturn
  measured_with r env (phase, failure, c) =
      finish_lifecycle
        (with_cancelled
          (record c {
            drain_result = record (c.drain_result) {
              timed_out = is_drain_timeout failure;
              parent_cancelled = env.is_parent_done || c.drain_result.parent_cancelled;
            };
          })
          phase.completed)
        (record r { measurement = phase }) env.run_end failure

  abbrev pub measurement_spec : LifecyclePlan fl → LoadMode → ℕ → List ℤ → ℤ → PhaseSpec
  measurement_spec p mode requests schedule at = record {
    phase = measured;
    requests = requests;
    schedule = schedule;
    started_at = at;
    deadline = if is_open_mode mode then some (at +ℤ p.duration) else none;
    drain_timeout_ns = p.drain_timeout;
    stopped_reason = some (
        if is_open_mode mode
        then "measurement_duration_elapsed"
        else "measured_request_limit_reached");
    cancelled_reason = some "parent_cancelled_during_measurement";
  }

  abbrev pub warmup_spec : LifecyclePlan fl → List ℤ → ℤ → PhaseSpec
  warmup_spec p schedule at = record {
    phase = Types.warmup;
    requests = count_of p.warmup_requests;
    schedule = schedule;
    started_at = at;
    deadline = none;
    drain_timeout_ns = pos 0;
    stopped_reason = none;
    cancelled_reason = some "parent_cancelled_during_warmup";
  }

  -- From the transition to the measurement on, with what it returns.
  unfoldable pub measure :
      LifecyclePlan fl
      → LoadMode
      → List ℤ
      → LifecycleEnv
      → LifecycleResult
      → DrainResult
      → LifecycleState × Option Err
      → RunReturn
  measure p mode schedule env r d (s, some failure) = aborted failure
  measure p mode schedule env r d (s, none) = measured_with r env (
      run_phase mode (count_of p.concurrency) (count_of p.max_in_flight)
        (measurement_spec p mode (measured_count p mode schedule) schedule env.measurement_start)
        (record { state = s; drain_result = d }) env.measurement_env)

  abbrev pub to_measurement :
      LifecyclePlan fl
      → LoadMode
      → List ℤ
      → LifecycleEnv
      → LifecycleResult
      → Coordinator
      → RunReturn
  to_measurement p mode schedule env r c =
      measure p mode schedule env r c.drain_result
        (transition c.state Transitions.measurement env.measurement_start "warmup_complete")

  -- Behind the warmup.
  abbrev pub warmed_with :
      LifecyclePlan fl
      → LoadMode
      → List ℤ
      → LifecycleEnv
      → LifecycleResult
      → PhaseResult × Option Err × Coordinator
      → RunReturn
  warmed_with p mode schedule env r (warmed, some failure, c) =
      finish_lifecycle (with_cancelled c warmed.completed)
        (mark_skipped_unprocessed (record r { warmup = warmed })) env.run_end (some failure)
  warmed_with p mode schedule env r (warmed, none, c) =
      to_measurement p mode schedule env (record r { warmup = warmed })
        (with_cancelled c warmed.completed)

  -- From the transition to the warmup on, with what it returns.
  unfoldable pub warm_up :
      LifecyclePlan fl
      → LoadMode
      → List ℤ
      → List ℤ
      → LifecycleEnv
      → LifecycleResult
      → DrainResult
      → LifecycleState × Option Err
      → RunReturn
  warm_up p mode warmups schedule env r d (s, some failure) = aborted failure
  warm_up p mode warmups schedule env r d (s, none) =
      let c : Coordinator = record { state = s; drain_result = d } in
      if count_of p.warmup_requests == 0
      then to_measurement p mode schedule env
          (record r {
            warmup = record (r.warmup) {
              started_at = some env.warmup_start;
              completed_at = some env.warmup_start;
            };
          })
          c
      else warmed_with p mode schedule env r (
          run_phase mode (count_of p.concurrency) (count_of p.max_in_flight)
            (warmup_spec p warmups env.warmup_start) c env.warmup_env)

  -- `Run`, once its plan is valid and its schedules are made.
  unfoldable pub run_phases :
      LifecyclePlan fl → LoadMode → List ℤ → List ℤ → LifecycleEnv → RunReturn
  unfolding start_coordinator start_result
  run_phases p mode warmups schedule env =
      let c = start_coordinator p env.run_start in
      let r = start_result p mode (measured_count p mode schedule) env.run_start c in
      elim env.setup_err [
        | some e ↦
            cancelled_in_setup r e env.run_end
              (enter_stop_and_drain c env.setup_cancel_at "parent_cancelled_during_setup")
        | none ↦ warm_up p mode warmups schedule env r c.drain_result (
            transition c.state Transitions.warmup env.warmup_start
              (if count_of p.warmup_requests == 0 then "warmup_skipped" else "warmup_started"))
      ]

  unfoldable pub run_lifecycle : LifecyclePlan fl → LifecycleEnv → Result LifecycleErr RunReturn
  unfolding warmup_offsets measurement_offsets
  run_lifecycle p env = do
    validate_lifecycle p
    warmups ← wrap_err bad_warmup_schedule (warmup_offsets p (normalized_load_mode p.mode))
    schedule ←
        wrap_err bad_measurement_schedule (measurement_offsets p (normalized_load_mode p.mode))
    ok (run_phases p (normalized_load_mode p.mode) warmups schedule env)
