-- ===== src/Benchmark/Coordinator.antt =====
-- What a lifecycle run shares between its phases: the phase log and the drain record, with the
-- callbacks of `Run` and `finishLifecycle`, internal/benchmark/lifecycle.go.
pub mod Finish
use llm_serving_performance.Prelude.{
  ℕ, String, Bool, true, false, Option, none, some, List, [], ◌∷◌, ◌++◌, if◌then◌else◌,
}
use llm_serving_performance.Prelude.Int.{ℤ, pos, ◌-ℤ◌, saturate64}
use llm_serving_performance.Prelude.Sort.{sort_by, leb_bytes}
use llm_serving_performance.Benchmark.Types.{
  LoadMode, RequestOutcome, parent_cancelled, drain_timeout, Err,
}
use llm_serving_performance.Benchmark.Arrivals.{CompletedRequest, PhaseResult}
use llm_serving_performance.Benchmark.Transitions.{
  LifecyclePhase, stop_admission, drain, artifacts, PhaseTransition, LifecycleState, transition,
}

pub record DrainResult : Type 0 where
  pub started_at : Option ℤ
  pub completed_at : Option ℤ
  pub elapsed_ns : ℤ
  pub timeout : ℤ
  pub timed_out : Bool
  pub parent_cancelled : Bool
  pub cancelled_request_ids : List (List ℕ)

pub record Coordinator : Type 0 where
  pub state : LifecycleState
  pub drain_result : DrainResult

-- `if err := …; err != nil { return err }` between two transitions.
abbrev pub then_transition :
    LifecycleState × Option Err → LifecyclePhase → ℤ → String → LifecycleState × Option Err
then_transition (s, none) next at reason = transition s next at reason
then_transition (s, some e) next at reason = (s, some e)

abbrev pub is_stopping : LifecyclePhase → Bool
is_stopping stop_admission = true
is_stopping drain = true
is_stopping _ = false

abbrev pub is_drain : LifecyclePhase → Bool
is_drain drain = true
is_drain _ = false

abbrev record_drain_start : Coordinator → ℤ → LifecycleState × Option Err → Coordinator × Option Err
record_drain_start c at (s, none) =
    (record { state = s; drain_result = record (c.drain_result) { started_at = some at } }, none)
record_drain_start c at (s, some e) = (record c { state = s }, some e)

-- The closure `enterStopAndDrain` of `Run`.
unfoldable pub enter_stop_and_drain : Coordinator → ℤ → String → Coordinator × Option Err
enter_stop_and_drain c at reason =
    if is_stopping c.state.current
    then (c, none)
    else record_drain_start c at
        (then_transition (transition c.state stop_admission at reason) drain at reason)

-- The closures `onParentCancellation` of `Run`.
unfoldable pub on_parent_cancellation : Coordinator → ℤ → String → Coordinator × Option Err
unfolding enter_stop_and_drain
on_parent_cancellation c at reason =
    enter_stop_and_drain
      (record c { drain_result = record (c.drain_result) { parent_cancelled = true } }) at reason

abbrev is_cancelled_outcome : RequestOutcome → Bool
is_cancelled_outcome drain_timeout = true
is_cancelled_outcome parent_cancelled = true
is_cancelled_outcome _ = false

unfoldable pub append_cancelled_ids : List (List ℕ) → List CompletedRequest → List (List ℕ)
append_cancelled_ids ids [] = ids
append_cancelled_ids ids (r ∷ rs) =
    append_cancelled_ids
      (if is_cancelled_outcome r.outcome then ids ++ (r.request_id ∷ []) else ids) rs

pub record LifecycleResult : Type 0 where
  pub load_mode : LoadMode
  pub started_at : ℤ
  pub completed_at : ℤ
  pub elapsed_ns : ℤ
  pub transitions : List PhaseTransition
  pub warmup : PhaseResult
  pub measurement : PhaseResult
  pub drain_result : DrainResult

-- A run that stops before its result is assembled, or a result with the run's error.
pub data RunReturn : Type 0 where
  aborted : Err → RunReturn
  returned : LifecycleResult → Option Err → RunReturn

-- `completed` is the clock's reading on entry.
abbrev close_drain : DrainResult → ℤ → DrainResult
close_drain d completed = elim d.started_at [
  | none ↦ d
  | some started ↦ record d {
    completed_at = some completed;
    elapsed_ns = saturate64 (completed -ℤ started);
  }
]

abbrev assemble :
    LifecycleResult → DrainResult → ℤ → Option Err → LifecycleState × Option Err → RunReturn
assemble result d completed err (s, some e) = aborted e
assemble result d completed err (s, none) =
    returned
      (record result {
        completed_at = completed;
        elapsed_ns = saturate64 (completed -ℤ result.started_at);
        transitions = s.transitions;
        drain_result = record d {
          cancelled_request_ids = sort_by leb_bytes d.cancelled_request_ids;
        };
      })
      err

-- `result` holds the phases and the start; the drain record and the log are the coordinator's.
unfoldable pub finish_lifecycle : Coordinator → LifecycleResult → ℤ → Option Err → RunReturn
finish_lifecycle c result completed err =
    let d = close_drain c.drain_result completed in
    if is_drain c.state.current
    then assemble result d completed err (transition c.state artifacts completed "drain_complete")
    else assemble result (record d { started_at = some completed; completed_at = some completed })
        completed err
        (then_transition
          (then_transition (transition c.state stop_admission completed "phase_complete") drain
            completed "phase_complete")
          artifacts completed "drain_complete")
