-- ===== src/Aggregate/Input.antt =====
-- The input of the aggregation, internal/aggregate/types.go. `none` is a nil pointer; counters of
-- outcomes and arrivals start at zero and only grow.
use llm_serving_performance.Prelude.{String, Bool, Option, List}
use llm_serving_performance.Prelude.Int.{ℤ}
use llm_serving_performance.Floats.{Floats}
use llm_serving_performance.Benchmark.Types.{LoadMode}
use llm_serving_performance.Benchmark.Outcomes.{OutcomeCounts}
use llm_serving_performance.Benchmark.Arrivals.{ArrivalRecord, ArrivalCounts}
use llm_serving_performance.Aggregate.Types.{Request}
use llm_serving_performance.Aggregate.Slo.{SloConfig}

pub record WorkloadInput : Type 0 where
  pub mode : String
  pub input_target_tokens : Option ℤ
  pub input_resolved_tokens : Option ℤ
  pub requested_output_max_tokens : ℤ

pub record ClosedLoopInput : Type 0 where
  pub requested_concurrency : ℤ
  pub requested_requests : ℤ

pub record MeasurementInput : Type 0 where
  pub requested : ℤ
  pub attempted : ℤ
  pub completed : ℤ
  pub elapsed_ns : ℤ
  pub outcomes : OutcomeCounts
  pub requested_concurrency : ℤ
  pub worker_count : ℤ
  pub max_observed_active : ℤ
  pub arrival_counts : Option ArrivalCounts

module _ (fl : Floats) where
  open fl use {Float}

  pub record OpenLoopInput : Type 0 where
    pub configured_request_rate : Float
    pub duration : ℤ
    pub max_in_flight : ℤ
    pub planned_arrivals : ℤ

  pub record LoadInput : Type 0 where
    pub mode : LoadMode
    pub closed_loop_input : Option ClosedLoopInput
    pub open_loop_input : Option OpenLoopInput

  pub record Input : Type 0 where
    pub run_id : String
    pub run_status : String
    pub error_class : String
    pub is_complete : Bool
    pub workload : WorkloadInput
    pub load : LoadInput
    pub measurement : MeasurementInput
    pub requests : List (Request fl)
    pub arrivals : List ArrivalRecord
    pub slo : SloConfig fl
