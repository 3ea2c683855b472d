-- ===== src/Experiment/Types.antt =====
-- The records of a sweep's run: points, the manifest and what the executor answers, types.go and
-- run.go of internal/experiment. Paths and identifiers that are written from a point's index or a
-- run's identifier, and the constant schema version, are left out.
use llm_serving_performance.Executor.Classify.{RunStatus, run_cancelled}
use llm_serving_performance.Prelude.Int.{ℤ}
use llm_serving_performance.Prelude.{Bool, List, Option, String, false, true, ℕ}
use llm_serving_performance.Experiment.Plan.{Parameters}
use llm_serving_performance.Experiment.Axes.{Axes}
use llm_serving_performance.Config.Types.{WorkloadMode}
use llm_serving_performance.Benchmark.Types.{LoadMode}
use llm_serving_performance.Floats.{Floats}
use llm_serving_performance.Config.Text.{Text}

pub data PointStatus : Type 0 where
  executed preflight_failed point_cancelled not_started : PointStatus

pub data FailureStage : Type 0 where
  static_preflight workload_preparation runtime_stage : FailureStage

-- An error of the executor: whether `errors.Is` finds `context.Canceled`, its stage and its text.
pub record ExecuteFailure : Type 0 where
  pub is_canceled_err : Bool
  pub stage : FailureStage
  pub text : String

pub data ExperimentStatus : Type 0 where
  unset_status experiment_completed experiment_cancelled experiment_failed : ExperimentStatus

pub data RunErr : Type 0 where
  no_points no_experiment_id no_publication : RunErr

abbrev pub is_preparation : FailureStage → Bool
is_preparation workload_preparation = true
is_preparation _ = false

abbrev pub is_run_cancelled : RunStatus → Bool
is_run_cancelled run_cancelled = true
is_run_cancelled _ = false

module _ (fl : Floats) where
  pub record PointRecord : Type 0 where
    pub point_index : ℕ
    pub parameters : Parameters fl
    pub point_status : PointStatus
    pub run_id : Option Text
    pub run_status : Option RunStatus
    pub error_class : String
    pub error : String

  pub record Manifest : Type 0 where
    pub experiment_id : Text
    pub created_at : ℤ
    pub completed_at : ℤ
    pub status : ExperimentStatus
    pub complete : Bool
    pub model : Text
    pub load_mode : LoadMode
    pub workload_mode : WorkloadMode
    pub axes : Axes fl
    pub planned_points : ℕ
    pub executed_points : ℕ
    pub preflight_failed_points : ℕ
    pub cancelled_points : ℕ
    pub not_started_points : ℕ
    pub child_runs_completed : ℕ
    pub child_runs_failed : ℕ
    pub child_runs_cancelled : ℕ
    pub error_class : String
    pub error : String
    pub points : List PointRecord

  -- A child run: its metadata, and its summary.
  pub record ChildResult (S : Type 0) : Type 0 where
    pub run_id : Text
    pub run_status : RunStatus
    pub error_class : String
    pub summary : S

  pub data Answer (S : Type 0) : Type 0 where
    failed_with : ExecuteFailure → Answer S
    finished_with : ChildResult S → Answer S

  pub record PointEnv (S : Type 0) : Type 0 where
    pub cancelled_before : Bool
    pub answer : Answer S
    pub cancelled_behind : Bool

  -- The locals of the loop over the points.
  pub record RunState (S : Type 0) : Type 0 where
    pub records : List PointRecord
    pub summaries : List (ℕ × S)
    pub cancelled : Bool
    pub fatal : Bool
