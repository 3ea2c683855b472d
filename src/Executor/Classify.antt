-- ===== src/Executor/Classify.antt =====
-- What `Execute` makes of the result of a lifecycle: the metadata of its phases, the first stop of
-- admission, the arrivals, and the status of the run with `classifyRun`.
use llm_serving_performance.Benchmark.Types.{
  Err, LoadMode, RequestPhase, is_canceled, is_closed_loop, is_drain_timeout, open_loop,
}
use llm_serving_performance.Prelude.{
  Bool, List, Option, String, [], false, if◌then◌else◌, length, ltb, none, not, some, true, ℕ, ◌&&◌,
  ◌++◌, ◌==◌, ◌||◌, ◌∷◌,
}
use llm_serving_performance.Benchmark.Outcomes.{failed, OutcomeCounts, PhaseStatus}
use llm_serving_performance.Prelude.Int.{pos, ℤ}
use llm_serving_performance.Benchmark.Transitions.{LifecyclePhase, PhaseTransition, stop_admission}
use llm_serving_performance.Benchmark.Coordinator.{LifecycleResult}
use llm_serving_performance.Benchmark.Arrivals.{ArrivalCounts, ArrivalRecord, PhaseResult}

pub data RunStatus : Type 0 where
  run_completed run_failed run_cancelled : RunStatus
  other_run : String → RunStatus

-- The text of a run's error, by what it says: a lifecycle's error, or failures among the attempted.
pub data RunError : Type 0 where
  no_run_error load_delivery not_attempted : RunError
  lifecycle_error : Err → RunError
  warmup_failed measured_failed : ℕ → ℕ → RunError

pub record PhaseMetadata : Type 0 where
  pub phase : RequestPhase
  pub status : PhaseStatus
  pub started_at : Option ℤ
  pub completed_at : Option ℤ
  pub elapsed_ns : ℤ
  pub requested : ℕ
  pub attempted : ℕ
  pub completed : ℕ
  pub successful : ℕ
  pub failed_requests : ℕ
  pub requested_concurrency : ℕ
  pub effective_workers : ℕ
  pub max_observed_active : ℕ
  pub arrivals : Option ArrivalCounts
  pub outcomes : OutcomeCounts

-- Without a transition, the time is the zero time.
pub record StopAdmissionMetadata : Type 0 where
  pub stopped_at : Option ℤ
  pub stopped_after_ns : ℤ
  pub reason : String

abbrev pub is_open_loop : LoadMode → Bool
is_open_loop open_loop = true
is_open_loop _ = false

unfoldable pub phase_metadata : PhaseResult → PhaseMetadata
phase_metadata r =
    let attempted = length r.completed in
    let m : PhaseMetadata = record {
      phase = r.phase;
      status = r.status;
      started_at = r.started_at;
      completed_at = r.completed_at;
      elapsed_ns = r.elapsed_ns;
      requested = r.requested_requests;
      attempted = attempted;
      completed = attempted;
      successful = r.outcomes.succeeded_count;
      failed_requests = failed r.outcomes;
      requested_concurrency = r.requested_concurrency;
      effective_workers = r.worker_count;
      max_observed_active = r.max_observed_active;
      arrivals = none;
      outcomes = r.outcomes;
    } in
    if is_open_loop r.load_mode
    then record m {
      arrivals = some r.arrival_counts;
      requested_concurrency = 0;
      effective_workers = 0;
      max_observed_active = 0;
    }
    else m

abbrev is_stop_admission : LifecyclePhase → Bool
is_stop_admission stop_admission = true
is_stop_admission _ = false

unfoldable pub stop_admission_metadata : List PhaseTransition → StopAdmissionMetadata
stop_admission_metadata [] = record { stopped_at = none; stopped_after_ns = pos 0; reason = "" }
stop_admission_metadata (t ∷ ts) =
    let rest = stop_admission_metadata ts in
    if is_stop_admission t.phase
    then record {
      stopped_at = some t.entered_at;
      stopped_after_ns = t.entered_after_ns;
      reason = t.reason;
    }
    else rest

unfoldable pub lifecycle_arrivals : LifecycleResult → List ArrivalRecord
lifecycle_arrivals r =
    if is_open_loop r.load_mode then r.warmup.arrivals ++ r.measurement.arrivals else []

-- `loadLimited` of `classifyRun`.
abbrev pub load_limited : LifecycleResult → Bool
load_limited r =
    is_open_loop r.load_mode
    && (not r.drain_result.parent_cancelled
        && (ltb 0 r.measurement.arrival_counts.client_limited_count
            || ltb 0 r.measurement.arrival_counts.scheduler_limited_count))

-- `classifyRun`: the status, the error and its class.
unfoldable pub classify_run :
    LifecycleResult → Option Err → PhaseMetadata → PhaseMetadata → RunStatus × (RunError × String)
classify_run r (some e) warmup measurement =
    if is_canceled (some e) || (r.drain_result.parent_cancelled && not (is_drain_timeout (some e)))
    then (run_cancelled, (lifecycle_error e, ""))
    else (run_failed, (lifecycle_error e, ""))
classify_run r none warmup measurement =
    if load_limited r
    then (run_failed, (load_delivery, "load_delivery_error"))
    else if ltb 0 warmup.failed_requests
    then (run_failed, (warmup_failed warmup.failed_requests warmup.attempted, ""))
    else if ltb 0 measurement.failed_requests
    then (run_failed, (measured_failed measurement.failed_requests measurement.attempted, ""))
    else if is_closed_loop r.load_mode
        && (not (warmup.attempted == warmup.requested)
            || not (measurement.attempted == measurement.requested))
    then (run_failed, (not_attempted, ""))
    else (run_completed, (no_run_error, ""))
