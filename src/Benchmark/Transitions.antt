-- ===== src/Benchmark/Transitions.antt =====
-- The lifecycle's phases and their log, `lifecycleState` of internal/benchmark/lifecycle.go. Times
-- are nanoseconds since an epoch.
pub mod Path
use llm_serving_performance.Prelude.{
  ℕ, suc, ◌+◌, String, Bool, true, false, ◌||◌, Option, none, some, List, [], ◌∷◌, ◌++◌, length,
  if◌then◌else◌,
}
use llm_serving_performance.Prelude.Int.{ℤ, pos, ◌-ℤ◌, saturate64}
use llm_serving_performance.Benchmark.Types.{Err, illegal_transition}

pub data LifecyclePhase : Type 0 where
  setup warmup measurement stop_admission drain artifacts : LifecyclePhase

pub record PhaseTransition : Type 0 where
  pub sequence : ℕ
  pub phase : LifecyclePhase
  pub entered_at : ℤ
  pub entered_after_ns : ℤ
  pub reason : String

pub record LifecycleState : Type 0 where
  pub started_at : ℤ
  pub current : LifecyclePhase
  pub transitions : List PhaseTransition

unfoldable pub new_lifecycle_state : ℤ → LifecycleState
new_lifecycle_state at = record {
  started_at = at;
  current = setup;
  transitions =
      record {
        sequence = 1;
        phase = setup;
        entered_at = at;
        entered_after_ns = pos 0;
        reason = "lifecycle_started";
      }
      ∷ [];
}

unfoldable pub legal_transition : LifecyclePhase → LifecyclePhase → Bool
legal_transition setup warmup = true
legal_transition setup stop_admission = true
legal_transition warmup measurement = true
legal_transition warmup stop_admission = true
legal_transition measurement stop_admission = true
legal_transition stop_admission drain = true
legal_transition drain artifacts = true
legal_transition _ _ = false

-- The new state and the error returned; an illegal transition leaves the state as it was.
unfoldable pub transition :
    LifecycleState → LifecyclePhase → ℤ → String → LifecycleState × Option Err
unfolding legal_transition
transition s next observed reason =
    if legal_transition s.current next
    then (
      record s {
        current = next;
        transitions =
            s.transitions
            ++ record {
              sequence = length s.transitions + 1;
              phase = next;
              entered_at = observed;
              entered_after_ns = saturate64 (observed -ℤ s.started_at);
              reason = reason;
            }
              ∷ [];
      },
      none,
    )
    else (s, some illegal_transition)
