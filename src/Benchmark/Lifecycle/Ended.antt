-- ===== src/Benchmark/Lifecycle/Ended.antt =====
-- Every run of the lifecycle that starts ends in the artifacts.
use llm_serving_performance.Prelude.Results.{wrap_err, ensured, Ensures, Result, ◌>>=◌, ok}
use llm_serving_performance.Benchmark.Lifecycle.{
  bad_measurement_schedule, bad_warmup_schedule, measurement_offsets, warmup_offsets, err,
  validate_lifecycle, measured_count, run_lifecycle, run_phases, start_coordinator, start_result,
  warmup_spec, measure, LifecyclePlan, cancelled_in_setup, measured_with, to_measurement, warm_up,
  warmed_with, with_cancelled,
}
use llm_serving_performance.Benchmark.Phases.{
  count_of, LifecycleEnv, PhaseEnv, PhaseSpec, closed_plan, open_plan, run_phase,
}
use llm_serving_performance.Benchmark.Types.{
  normalized_load_mode, Err, LoadMode, closed_loop, open_loop,
}
use llm_serving_performance.Prelude.{
  Bool, false, if◌then◌else◌, ◌==◌, List, Option, String, ap, arith, none, refl, some, sym, true, ℕ,
  ◌∙◌, ◌≡◌,
}
use llm_serving_performance.Benchmark.Transitions.Path.{new-IsLogged, IsLogged, transition-IsLogged}
use llm_serving_performance.Benchmark.Transitions.{
  new_lifecycle_state, artifacts, LifecyclePhase, LifecycleState, legal_transition, transition,
}
use llm_serving_performance.Benchmark.Coordinator.Finish.{
  enter_stop_and_drain-IsLive, finished, IsFinished, IsLive, IsOpen, finish_lifecycle-IsFinished,
}
use llm_serving_performance.Benchmark.Coordinator.{
  enter_stop_and_drain, returned, Coordinator, DrainResult, LifecycleResult, RunReturn,
}
use mathlib.Core.Path.{subst}
use llm_serving_performance.Prelude.Int.{ℤ}
use llm_serving_performance.Floats.{Floats}
use llm_serving_performance.Benchmark.Lifecycle.Opened.{open_end_phase-Kept}
use llm_serving_performance.Benchmark.Lifecycle.Keeping.{Kept, end_phase-Kept}
use llm_serving_performance.Benchmark.Arrivals.{PhaseResult}
use llm_serving_performance.Benchmark.Transitions

-- A result, whose log is a path of legal transitions from setup to the artifacts.
pub data HasEnded : RunReturn → Type 0 where
  has_ended :
      (r : LifecycleResult) (failure : Option Err)
      → IsLogged artifacts r.transitions
      → HasEnded (returned r failure)

ended_by : {failure : Option Err} {x : RunReturn} → IsFinished failure x → HasEnded x
ended_by (finished r logged) = has_ended r _ logged

run_phase-Kept :
    (mode : LoadMode) (concurrency max_in_flight : ℕ) (q : PhaseSpec) (c : Coordinator)
    (env : PhaseEnv)
    → IsLive c
    → let (r, failure, d) = run_phase mode concurrency max_in_flight q c env in
      Kept c q.stopped_reason d failure
unfolding run_phase
run_phase-Kept open_loop concurrency max_in_flight q c env live =
    open_end_phase-Kept (open_plan max_in_flight q) c env.parent env.open_steps env.phase_end live
run_phase-Kept closed_loop concurrency max_in_flight q c env live =
    end_phase-Kept (closed_plan concurrency q) c env.parent env.closed_steps env.seen_at
      env.phase_end live
run_phase-Kept mode concurrency max_in_flight q c env live =
    end_phase-Kept (closed_plan concurrency q) c env.parent env.closed_steps env.seen_at
      env.phase_end live

-- A legal transition to an open phase.
moved :
    (s : LifecycleState) (next : LifecyclePhase) (at : ℤ) (reason : String)
    → legal_transition s.current next ≡ true
    → ((transition s next at reason).0.current ≡ next) × ((transition s next at reason).1 ≡ none)
unfolding transition
moved s next at reason h = ground arith

module _ (fl : Floats) (p : LifecyclePlan fl) (mode : LoadMode) (warmups schedule : List ℤ)
    (env : LifecycleEnv) where
  measured_with-HasEnded :
      (r : LifecycleResult) (x : PhaseResult × Option Err × Coordinator)
      → (let (q, failure, c) = x in IsLive c)
      → HasEnded (measured_with fl r env x)
  measured_with-HasEnded r (q, failure, c) live = ended_by (
      finish_lifecycle-IsFinished _ _ env.run_end failure
        (record { is_open = live.is_open; logged = live.logged }))

  measure-HasEnded :
      (r : LifecycleResult) (d : DrainResult) (x : LifecycleState × Option Err)
      → x.0.current ≡ Transitions.measurement
      → x.1 ≡ none
      → IsLogged x.0.current x.0.transitions
      → HasEnded (measure fl p mode schedule env r d x)
  unfolding measure
  measure-HasEnded r d (s, some failure) at e logged = cc
  measure-HasEnded r d (s, none) at e logged =
      measured_with-HasEnded r _
        (run_phase-Kept mode _ _ _ _ env.measurement_env
          (record { is_open = subst IsOpen (sym at) tt; logged = logged })).live

  to_measurement-HasEnded :
      (r : LifecycleResult) (c : Coordinator)
      → c.state.current ≡ Transitions.warmup
      → IsLogged c.state.current c.state.transitions
      → HasEnded (to_measurement fl p mode schedule env r c)
  unfolding legal_transition
  to_measurement-HasEnded r c at logged =
      let (arrived, no_error) =
        moved c.state Transitions.measurement env.measurement_start "warmup_complete"
          (ap (λ q. legal_transition q Transitions.measurement) at) in
      measure-HasEnded r c.drain_result _ arrived no_error (
        transition-IsLogged c.state Transitions.measurement env.measurement_start "warmup_complete"
          logged)

  warmed_with-HasEnded :
      (r : LifecycleResult) (c : Coordinator) (x : PhaseResult × Option Err × Coordinator)
      → c.state.current ≡ Transitions.warmup
      → (let (q, failure, d) = x in Kept c none d failure)
      → HasEnded (warmed_with fl p mode schedule env r x)
  warmed_with-HasEnded r c (q, some failure, d) at kept = ended_by (
      finish_lifecycle-IsFinished _ _ env.run_end (some failure)
        (record { is_open = kept.live.is_open; logged = kept.live.logged }))
  warmed_with-HasEnded r c (q, none, d) at kept =
      to_measurement-HasEnded (record r { warmup = q }) (with_cancelled fl d q.completed)
        (ap (λ e. e.state.current) (kept.unmoved refl refl) ∙ at) kept.live.logged

  warm_up-HasEnded :
      (r : LifecycleResult) (d : DrainResult) (x : LifecycleState × Option Err)
      → x.0.current ≡ Transitions.warmup
      → x.1 ≡ none
      → IsLogged x.0.current x.0.transitions
      → HasEnded (warm_up fl p mode warmups schedule env r d x)
  unfolding warm_up
  warm_up-HasEnded r d (s, some failure) at e logged = cc
  warm_up-HasEnded r d (s, none) at e logged =
      let c : Coordinator = record { state = s; drain_result = d } in
      by_count (count_of p.warmup_requests == 0) _ _ (to_measurement-HasEnded _ c at logged) (
        warmed_with-HasEnded r c _ at (
          run_phase-Kept mode _ _ (warmup_spec fl p warmups env.warmup_start) c env.warmup_env
            (record { is_open = subst IsOpen (sym at) tt; logged = logged })))
    where
      by_count :
          (b : Bool) (x y : RunReturn) → HasEnded x → HasEnded y → HasEnded (if b then x else y)
      by_count true x y h g = h
      by_count false x y h g = g

  cancelled_in_setup-HasEnded :
      (r : LifecycleResult) (e : Err) (x : Coordinator × Option Err)
      → IsLive x.0
      → x.1 ≡ none
      → HasEnded (cancelled_in_setup fl r e env.run_end x)
  cancelled_in_setup-HasEnded r e (c, some failure) live n = cc
  cancelled_in_setup-HasEnded r e (c, none) live n = ended_by (
      finish_lifecycle-IsFinished _ _ env.run_end (some e)
        (record { is_open = live.is_open; logged = live.logged }))

  run_phases-HasEnded : HasEnded (run_phases fl p mode warmups schedule env)
  unfolding run_phases start_coordinator legal_transition new_lifecycle_state
  run_phases-HasEnded = at_setup env.setup_err
    where
      c : Coordinator
      c = start_coordinator fl p env.run_start

      r : LifecycleResult
      r = start_result fl p mode (measured_count fl p mode schedule) env.run_start c

      at_setup :
          (parent : Option Err)
          → HasEnded (elim parent [
            | some e ↦
                cancelled_in_setup fl r e env.run_end
                  (enter_stop_and_drain c env.setup_cancel_at "parent_cancelled_during_setup")
            | none ↦ warm_up fl p mode warmups schedule env r c.drain_result (
                transition c.state Transitions.warmup env.warmup_start
                  (if count_of p.warmup_requests == 0 then "warmup_skipped" else "warmup_started"))
          ])
      at_setup (some e) =
          let live : IsLive c = record { is_open = tt; logged = new-IsLogged env.run_start } in
          let (kept, _, no_error) =
            enter_stop_and_drain-IsLive c env.setup_cancel_at "parent_cancelled_during_setup"
              live in
          cancelled_in_setup-HasEnded r e _ kept no_error
      at_setup none =
          let (arrived, no_error) = moved c.state Transitions.warmup env.warmup_start _ refl in
          warm_up-HasEnded r c.drain_result _ arrived no_error (
            transition-IsLogged c.state Transitions.warmup env.warmup_start _
              (new-IsLogged env.run_start))

behind :
    {E A B : Type 0} (Q : B → Type 0) (r : Result E A) (f : A → Result E B)
    → ((a : A) → Ensures Q (f a))
    → Ensures Q (r >>= f)
behind Q (ok a) f h = h a
behind Q (err e) f h = tt

module _ (fl : Floats) where
  -- A run whose plan is accepted always returns a result, never an illegal transition: however its
  -- goroutines run and whenever its parent is cancelled, the log of the result is a path of legal
  -- transitions from setup to the artifacts, numbered from one.
  pub run_lifecycle-HasEnded :
      (p : LifecyclePlan fl) (env : LifecycleEnv) (x : RunReturn)
      → run_lifecycle fl p env ≡ ok x
      → HasEnded x
  unfolding run_lifecycle
  run_lifecycle-HasEnded p env x h =
      let mode = normalized_load_mode p.mode in
      ensured HasEnded (run_lifecycle fl p env)
        (behind HasEnded (validate_lifecycle fl p) _ (λ u.
          behind HasEnded (wrap_err bad_warmup_schedule (warmup_offsets fl p mode))
            (λ warmups.
              wrap_err bad_measurement_schedule (measurement_offsets fl p mode) >>= λ schedule.
              ok (run_phases fl p mode warmups schedule env))
            (λ warmups.
              behind HasEnded (wrap_err bad_measurement_schedule (measurement_offsets fl p mode))
                (λ schedule. ok (run_phases fl p mode warmups schedule env))
                (λ schedule. run_phases-HasEnded fl p mode warmups schedule env))))
        h
