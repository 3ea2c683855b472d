-- ===== src/Benchmark/Lifecycle/Keeping.antt =====
-- What a phase does to the coordinator: it stays live, and a phase without a callback for the stop
-- of admission leaves it alone unless it ends with an error.
use llm_serving_performance.Benchmark.ClosedLoop.Defs.{initial, Worker, loop_goes_on, Plan, State}
use llm_serving_performance.Benchmark.ClosedLoop.Result.{end_phase, last_look}
use llm_serving_performance.Prelude.{
  if◌then◌else◌, List, [], arith, get_elem?, sym, ℕ, ◌&&◌, ◌∷◌, Bool, Option, String, ap, false,
  ltb, none, refl, some, true, ◌∙◌, ◌≡◌,
}
use llm_serving_performance.Benchmark.ClosedLoop.Step.{
  timer_fires, cancel_parent, work, run, step, parent_done, Action, WorkerAction, arm_drain,
  fail_phase, receive_boundary, receive_result, select_step, work_at, worker_step, expire,
  drain_time_remaining, is_some_err, on_boundary, on_parent_done, on_result, or_else,
}
use llm_serving_performance.Prelude.Int.{leb_ℤ, ltb_ℤ, pos, ℤ}
use llm_serving_performance.Benchmark.Types.{Err}
use llm_serving_performance.Benchmark.Coordinator.Finish.{
  IsLive, enter_stop_and_drain-IsLive, on_parent_cancellation-IsLive,
}
use llm_serving_performance.Benchmark.Coordinator.{
  Coordinator, enter_stop_and_drain, on_parent_cancellation,
}
use mathlib.Core.Path.{subst}

pub record Kept (before : Coordinator) (stopped : Option String) (c : Coordinator)
    (failure : Option Err) : Type 0 where
  pub live : IsLive c
  pub unmoved : stopped ≡ none → failure ≡ none → c ≡ before

pub failing :
    {before c : Coordinator} {stopped : Option String} {failure : Option Err}
    → IsLive c
    → is_some_err failure ≡ true
    → Kept before stopped c failure
failing live h = record { live = live; unmoved = λ _ e. absurd (clash (ap is_some_err e) h) }
  where
    clash : {b : Bool} → b ≡ false → b ≡ true → ⊥
    clash f t = cc

pub same-Kept :
    {before c d : Coordinator} {stopped : Option String} {failure new_failure : Option Err}
    → d ≡ c
    → new_failure ≡ failure
    → Kept before stopped c failure
    → Kept before stopped d new_failure
same-Kept p q v = record {
  live = subst IsLive (sym p) v.live;
  unmoved = λ h e. p ∙ v.unmoved h (sym q ∙ e);
}

abbrev pub stopping : Option String → Coordinator → ℤ → Coordinator × Option Err
stopping r c at = elim r [ none ↦ (c, none) | some reason ↦ enter_stop_and_drain c at reason ]

abbrev pub cancelling : Option String → Coordinator → ℤ → Coordinator × Option Err
cancelling r c at = elim r [ none ↦ (c, none) | some reason ↦ on_parent_cancellation c at reason ]

pub stopping-IsLive :
    (reason : Option String) (c : Coordinator) (at : ℤ)
    → IsLive c
    → IsLive (stopping reason c at).0
      × ((stopping reason c at).1 ≡ none)
      × (reason ≡ none → (stopping reason c at).0 ≡ c)
stopping-IsLive none c at live = (live, refl, λ e. refl)
stopping-IsLive (some reason) c at live =
    let (kept, _, no_error) = enter_stop_and_drain-IsLive c at reason live in
    (kept, no_error, λ e. absurd (some-none reason e))
  where
    some-none : (s : String) → some s ≡ none → ⊥
    some-none s e = cc

pub cancelling-IsLive :
    (reason : Option String) (c : Coordinator) (at : ℤ)
    → IsLive c
    → IsLive (cancelling reason c at).0
cancelling-IsLive none c at live = live
cancelling-IsLive (some reason) c at live = (on_parent_cancellation-IsLive c at reason live).0

pub or_else-some : (d e : Option Err) → is_some_err e ≡ true → is_some_err (or_else d e) ≡ true
or_else-some none e h = h
or_else-some (some d) e h = refl

module _ (p : Plan) (before : Coordinator) where
  abbrev Holds : State → Type 0
  Holds s = Kept before p.stopped_reason s.coordinator s.phase_err

  either :
      (b : Bool) (x y : State)
      → (b ≡ true → Holds x)
      → (b ≡ false → Holds y)
      → Holds (if b then x else y)
  either true x y f g = f refl
  either false x y f g = g refl

  expire-Kept : (s : State) → Holds s → Holds (expire s)
  expire-Kept s v = either (ltb 0 s.active) _ _ (λ _. failing v.live refl) (λ _. v)

  arm_drain-Kept : (s : State) (observed now : ℤ) → Holds s → Holds (arm_drain p s observed now)
  arm_drain-Kept s observed now v =
      either (ltb_ℤ (pos 0) p.drain_timeout_ns) _ _
        (λ _.
          either (leb_ℤ (drain_time_remaining observed p.drain_timeout_ns now) (pos 0)) _ _
            (λ _. expire-Kept s v) (λ _. record { live = v.live; unmoved = v.unmoved }))
        (λ _. v)

  fail_phase-Kept :
      (s : State) (x : Coordinator × Option Err)
      → IsLive x.0
      → (p.stopped_reason ≡ none → x.0 ≡ s.coordinator)
      → Holds s
      → Holds (fail_phase s x)
  fail_phase-Kept s (c, none) live same v = record {
    live = live;
    unmoved = λ h e. same h ∙ v.unmoved h e;
  }
  fail_phase-Kept s (c, some e) live same v = failing live refl

  on_boundary-Kept : (s : State) (observed now : ℤ) → Holds s → Holds (on_boundary p s observed now)
  unfolding on_boundary
  on_boundary-Kept s observed now v =
      let t : State = record s {
        final_claim = none;
        admission_stopped = true;
        final_claim_seen = true;
      } in
      let (live, _, same) = stopping-IsLive p.stopped_reason s.coordinator observed v.live in
      either s.final_claim_seen _ _ (λ _. record { live = v.live; unmoved = v.unmoved })
        (λ _.
          arm_drain-Kept (fail_phase t (stopping p.stopped_reason s.coordinator observed)) observed
            now
            (fail_phase-Kept t (stopping p.stopped_reason s.coordinator observed) live same
              (record { live = v.live; unmoved = v.unmoved })))

  on_parent_done-Kept :
      (s : State) (now : ℤ)
      → is_some_err s.parent_err ≡ true
      → Holds s
      → Holds (on_parent_done p s now)
  unfolding on_parent_done
  on_parent_done-Kept s now h v =
      failing (cancelling-IsLive p.cancelled_reason s.coordinator now v.live)
        (or_else-some (or_else s.phase_err _) s.parent_err h)

  on_result-frame :
      (s : State)
      → ((on_result s).coordinator ≡ s.coordinator) × ((on_result s).phase_err ≡ s.phase_err)
  unfolding on_result
  on_result-frame s = ground arith

  worker_step-phase_err :
      (s : State) (i : ℕ) (w : Worker) (a : WorkerAction)
      → ((worker_step p s i w a).coordinator ≡ s.coordinator)
        × ((worker_step p s i w a).phase_err ≡ s.phase_err)
  unfolding worker_step
  worker_step-phase_err s i w a = ground arith

  select_step-Kept : (s : State) (a : Action) → Holds s → Holds (select_step p s a)
  unfolding select_step
  select_step-Kept s (receive_boundary now) v = at_claim s.final_claim
    where
      at_claim :
          (claim : Option ℤ)
          → Holds (elim claim [ none ↦ s | some observed ↦ on_boundary p s observed now ])
      at_claim none = v
      at_claim (some observed) = on_boundary-Kept s observed now v
  select_step-Kept s (parent_done now) v =
      either (s.parent_armed && is_some_err s.parent_err) _ _
        (λ e. on_parent_done-Kept s now (ground arith) v) (λ _. v)
  select_step-Kept s timer_fires v =
      either s.timer_armed _ _
        (λ _.
          expire-Kept (record s { timer_armed = false })
            (record { live = v.live; unmoved = v.unmoved }))
        (λ _. v)
  select_step-Kept s receive_result v =
      either s.results_open _ _ (λ _. same-Kept (on_result-frame s).0 (on_result-frame s).1 v)
        (λ _. v)
  select_step-Kept s (work i a) v = v
  select_step-Kept s (cancel_parent e) v = v

  step-Kept : (s : State) (a : Action) → Holds s → Holds (step p s a)
  unfolding step
  step-Kept s (work i a) v = at_worker (get_elem? s.workers i)
    where
      at_worker : (w : Option Worker) → Holds (work_at p s i a w)
      at_worker none = v
      at_worker (some w) =
          same-Kept (worker_step-phase_err s i w a).0 (worker_step-phase_err s i w a).1 v
  step-Kept s (cancel_parent e) v = record { live = v.live; unmoved = v.unmoved }
  step-Kept s a v = either (loop_goes_on s) _ _ (λ _. select_step-Kept s a v) (λ _. v)

  pub run-Kept : (s : State) (steps : List Action) → Holds s → Holds (run p s steps)
  unfolding run
  run-Kept s [] v = v
  run-Kept s (a ∷ rest) v = run-Kept (step p s a) rest (step-Kept s a v)

  last_look-Kept : (s : State) (now : ℤ) → Holds s → Holds (last_look p s now)
  unfolding last_look
  last_look-Kept s now v =
      either (is_some_err s.parent_err && s.parent_armed) _ _
        (λ e.
          failing (cancelling-IsLive p.cancelled_reason s.coordinator now v.live)
            (or_else-some (or_else s.phase_err _) s.parent_err (ground arith)))
        (λ _. v)

  -- A closed-loop phase, whatever its goroutines do.
  pub end_phase-Kept :
      (parent : Option Err) (steps : List Action) (now completed_at : ℤ)
      → IsLive before
      → let (r, failure, c) =
          end_phase p (run p (initial p before parent) steps) now completed_at in
        Kept before p.stopped_reason c failure
  unfolding end_phase initial
  end_phase-Kept parent steps now completed_at live =
      last_look-Kept (run p (initial p before parent) steps) now
        (run-Kept (initial p before parent) steps (record { live = live; unmoved = λ _ _. refl }))
