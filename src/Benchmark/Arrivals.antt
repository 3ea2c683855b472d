-- ===== src/Benchmark/Arrivals.antt =====
-- The records of a phase: requests, arrivals and phase results, internal/benchmark/types.go,
-- coordinator.go and lifecycle.go. Of a request's `Result` the identifier in its observation and the
-- error are kept. Times are nanoseconds since an epoch.
use llm_serving_performance.Prelude.{ℕ, List, Option}
use llm_serving_performance.Prelude.Int.{ℤ}
use llm_serving_performance.Benchmark.Types.{
  LoadMode, RequestPhase, RequestOutcome, ArrivalDisposition, Err,
}
use llm_serving_performance.Benchmark.Outcomes.{OutcomeCounts, PhaseStatus}

pub record ArrivalRecord : Type 0 where
  pub sequence : ℕ
  pub phase : RequestPhase
  pub scheduled_at : ℤ
  pub scheduled_after_ns : ℤ
  pub disposition : ArrivalDisposition
  pub request_id : Option (List ℕ)
  pub actual_started_at : Option ℤ
  pub actual_started_after_ns : Option ℤ
  pub scheduler_lag_ns : Option ℤ

pub record ArrivalCounts : Type 0 where
  pub planned : ℕ
  pub processed : ℕ
  pub started_count : ℕ
  pub client_limited_count : ℕ
  pub scheduler_limited_count : ℕ
  pub unprocessed_due_to_cancellation : ℕ
  pub max_observed_in_flight : ℕ

abbrev pub no_arrivals : ℕ → ArrivalCounts
no_arrivals n = record {
  planned = n;
  processed = 0;
  started_count = 0;
  client_limited_count = 0;
  scheduler_limited_count = 0;
  unprocessed_due_to_cancellation = 0;
  max_observed_in_flight = 0;
}

pub record CompletedRequest : Type 0 where
  pub sequence : ℕ
  pub phase : RequestPhase
  pub outcome : RequestOutcome
  pub request_id : List ℕ
  pub error : Option Err
  pub arrival : Option ArrivalRecord

pub record PhaseResult : Type 0 where
  pub load_mode : LoadMode
  pub phase : RequestPhase
  pub status : PhaseStatus
  pub started_at : Option ℤ
  pub completed_at : Option ℤ
  pub elapsed_ns : ℤ
  pub requested_requests : ℕ
  pub requested_concurrency : ℕ
  pub worker_count : ℕ
  pub max_observed_active : ℕ
  pub arrivals : List ArrivalRecord
  pub arrival_counts : ArrivalCounts
  pub outcomes : OutcomeCounts
  pub completed : List CompletedRequest
