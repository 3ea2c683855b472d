-- ===== src/Benchmark/Coordinator/Finish.antt =====
-- The callbacks never fail while a run is open, and finishing always reaches the artifacts.
use llm_serving_performance.Prelude.{
  refl, inr, inl, Bool-cases, true, false, Option, ◌≡◌, String, none, arith,
}
use llm_serving_performance.Benchmark.Coordinator.{
  is_stopping, some, returned, record_drain_start, assemble, RunReturn, DrainResult, Err,
  LifecycleResult, is_drain, finish_lifecycle, on_parent_cancellation, enter_stop_and_drain,
  Coordinator, then_transition,
}
use llm_serving_performance.Benchmark.Transitions.Path.{transition-IsLogged, IsLogged}
use llm_serving_performance.Benchmark.Transitions.{
  measurement, warmup, LifecyclePhase, setup, stop_admission, drain, artifacts, LifecycleState,
  transition,
}
use llm_serving_performance.Prelude.Int.{ℤ}

-- The phases in which a run can be between two calls of its callbacks.
abbrev pub IsOpen : LifecyclePhase → Type 0
IsOpen stop_admission = ⊥
IsOpen artifacts = ⊥
IsOpen _ = Unit {0}

pub record IsLive (c : Coordinator) : Type 0 where
  pub is_open : IsOpen c.state.current
  pub logged : IsLogged c.state.current c.state.transitions

IsLogged-then_transition :
    (t : LifecycleState × Option Err) (next : LifecyclePhase) (at : ℤ) (reason : String)
    → IsLogged t.0.current t.0.transitions
    → let t' = (then_transition t next at reason).0 in IsLogged t'.current t'.transitions
IsLogged-then_transition (s, none) next at reason h = transition-IsLogged s next at reason h
IsLogged-then_transition (s, some e) next at reason h = h

enter_current :
    (c : Coordinator) (at : ℤ) (reason : String) (p : LifecyclePhase)
    → c.state.current ≡ p
    → IsOpen p
    → ((enter_stop_and_drain c at reason).0.state.current ≡ drain)
      × ((enter_stop_and_drain c at reason).1 ≡ none)
unfolding enter_stop_and_drain transition
enter_current c at reason setup e o = ground arith
enter_current c at reason p e o = ground arith

enter-IsLogged :
    (c : Coordinator) (at : ℤ) (reason : String)
    → IsLogged c.state.current c.state.transitions
    → let s = (enter_stop_and_drain c at reason).0.state in IsLogged s.current s.transitions
unfolding enter_stop_and_drain
enter-IsLogged c at reason h = elim (Bool-cases (is_stopping c.state.current)) [
  | inl e ↦ rw e h
  | inr e ↦ rw e (
      kept _ (
        IsLogged-then_transition (transition c.state stop_admission at reason) drain at reason
          (transition-IsLogged c.state stop_admission at reason h)))
]
  where
    kept :
        (t : LifecycleState × Option Err)
        → IsLogged t.0.current t.0.transitions
        → let s = (record_drain_start c at t).0.state in IsLogged s.current s.transitions
    kept (s, none) h = h
    kept (s, some e) h = h

IsOpen-drain : (p : LifecyclePhase) → p ≡ drain → IsOpen p
IsOpen-drain drain e = tt
IsOpen-drain setup e = cc
IsOpen-drain warmup e = cc
IsOpen-drain measurement e = cc
IsOpen-drain stop_admission e = cc
IsOpen-drain artifacts e = cc

-- Stopping an open run ends in `drain`, reports no error and keeps the log a path.
pub enter_stop_and_drain-IsLive :
    (c : Coordinator) (at : ℤ) (reason : String)
    → IsLive c
    → IsLive (enter_stop_and_drain c at reason).0
      × ((enter_stop_and_drain c at reason).0.state.current ≡ drain)
      × ((enter_stop_and_drain c at reason).1 ≡ none)
enter_stop_and_drain-IsLive c at reason live =
    let (current, no_error) = enter_current c at reason c.state.current refl live.is_open in
    (
      record { is_open = IsOpen-drain _ current; logged = enter-IsLogged c at reason live.logged },
      current,
      no_error,
    )

pub on_parent_cancellation-IsLive :
    (c : Coordinator) (at : ℤ) (reason : String)
    → IsLive c
    → IsLive (on_parent_cancellation c at reason).0
      × ((on_parent_cancellation c at reason).1 ≡ none)
unfolding on_parent_cancellation
on_parent_cancellation-IsLive c at reason live =
    let (kept, _, no_error) =
      enter_stop_and_drain-IsLive
        (record c { drain_result = record (c.drain_result) { parent_cancelled = true } }) at reason
        (record { is_open = live.is_open; logged = live.logged }) in
    (kept, no_error)

-- The outcome of finishing an open run: a result, with the run's own error, whose log is a path
-- that ends in the artifacts.
pub data IsFinished (err : Option Err) : RunReturn → Type 0 where
  finished :
      (r : LifecycleResult) → IsLogged artifacts r.transitions → IsFinished err (returned r err)

assemble-IsFinished :
    (result : LifecycleResult) (d : DrainResult) (at : ℤ) (err : Option Err)
    (t : LifecycleState × Option Err)
    → t.0.current ≡ artifacts
    → t.1 ≡ none
    → IsLogged t.0.current t.0.transitions
    → IsFinished err (assemble result d at err t)
assemble-IsFinished result d at err (s, some e) c n h = cc
assemble-IsFinished result d at err (s, none) c n h = finished _ (rw c at h)

drain_artifacts :
    (s : LifecycleState) (at : ℤ) (reason : String)
    → s.current ≡ drain
    → ((transition s artifacts at reason).0.current ≡ artifacts)
      × ((transition s artifacts at reason).1 ≡ none)
unfolding transition
drain_artifacts s at reason e = ground arith

to_artifacts :
    (s : LifecycleState) (at : ℤ) (reason last : String) (p : LifecyclePhase)
    → s.current ≡ p
    → IsOpen p
    → is_drain p ≡ false
    → let t =
        then_transition
          (then_transition (transition s stop_admission at reason) drain at reason)
          artifacts
          at
          last in
      (t.0.current ≡ artifacts) × (t.1 ≡ none)
unfolding transition
to_artifacts s at reason last setup e o n = ground arith
to_artifacts s at reason last p e o n = ground arith

from_drain :
    (s : LifecycleState) (result : LifecycleResult) (d : DrainResult) (at : ℤ) (err : Option Err)
    → is_drain s.current ≡ true
    → IsLogged s.current s.transitions
    → IsFinished err (assemble result d at err (transition s artifacts at "drain_complete"))
from_drain s result d at err e logged =
    let (arrived, no_error) = drain_artifacts s at "drain_complete" (is_drain-eq s.current e) in
    assemble-IsFinished result d at err (transition s artifacts at "drain_complete") arrived
      no_error (transition-IsLogged s artifacts at "drain_complete" logged)
  where
    is_drain-eq : (p : LifecyclePhase) → is_drain p ≡ true → p ≡ drain
    is_drain-eq p h = ground arith

from_open :
    (s : LifecycleState) (result : LifecycleResult) (d : DrainResult) (at : ℤ) (err : Option Err)
    → IsOpen s.current
    → is_drain s.current ≡ false
    → IsLogged s.current s.transitions
    → IsFinished err (
        assemble result d at err (
          then_transition
            (then_transition
              (transition s stop_admission at "phase_complete")
              drain
              at
              "phase_complete")
            artifacts
            at
            "drain_complete"))
from_open s result d at err open_now e logged =
    let a : LifecycleState × Option Err = transition s stop_admission at "phase_complete" in
    let b : LifecycleState × Option Err = then_transition a drain at "phase_complete" in
    let (arrived, no_error) =
      to_artifacts s at "phase_complete" "drain_complete" s.current refl open_now e in
    assemble-IsFinished result d at err (then_transition b artifacts at "drain_complete") arrived
      no_error
      (IsLogged-then_transition b artifacts at "drain_complete" (
        IsLogged-then_transition a drain at "phase_complete"
          (transition-IsLogged s stop_admission at "phase_complete" logged)))

-- Finishing an open run succeeds.
pub finish_lifecycle-IsFinished :
    (c : Coordinator) (result : LifecycleResult) (at : ℤ) (err : Option Err)
    → IsLive c
    → IsFinished err (finish_lifecycle c result at err)
unfolding finish_lifecycle
finish_lifecycle-IsFinished c result at err live = elim (Bool-cases (is_drain c.state.current)) [
  | inl e ↦ rw e (from_drain c.state result _ at err e live.logged)
  | inr e ↦ rw e (from_open c.state result _ at err live.is_open e live.logged)
]
