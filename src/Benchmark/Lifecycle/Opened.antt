-- ===== src/Benchmark/Lifecycle/Opened.antt =====
-- What an open-loop phase does to the coordinator.
use llm_serving_performance.Benchmark.OpenLoop.Defs.{
  draining, left, joining, looking, closing, scheduling, Main, OpenPlan, OpenState, at_deadline,
  open_initial, returned,
}
use llm_serving_performance.Benchmark.ClosedLoop.Step.{drain_time_remaining, is_some_err}
use llm_serving_performance.Benchmark.OpenLoop.Step.{
  proceed, join, collect, waits, request, arrive, MainAction, OpenAction, all_done, close_results,
  deadline_passed, expire_drain, is_empty, main_step, open_run, open_step, parent_seen,
  requests_finished, schedule_step, start_drain, stopped_with, cancel_parent, parent_done,
  timer_fires,
}
use llm_serving_performance.Prelude.Int.{leb_ℤ, pos, ℤ}
use llm_serving_performance.Prelude.{
  Bool, List, Option, [], false, if◌then◌else◌, ltb, none, refl, some, true, ℕ, ◌&&◌, ◌∙◌, ◌∷◌, ◌≡◌,
}
use llm_serving_performance.Benchmark.Types.{Err}
use llm_serving_performance.Benchmark.OpenLoop.Whole.{IsWhole, gives_up}
use llm_serving_performance.Benchmark.OpenLoop.Result.{open_end_phase}
use llm_serving_performance.Benchmark.OpenLoop.Reached.{open_initial-Inv, open_step-Inv}
use llm_serving_performance.Benchmark.OpenLoop.Invariant.{OpenInv}
use llm_serving_performance.Benchmark.OpenLoop.Completed.{open_initial-IsWhole, open_step-IsWhole}
use llm_serving_performance.Benchmark.Lifecycle.Keeping.{
  Kept, cancelling-IsLive, failing, or_else-some, stopping, stopping-IsLive,
}
use llm_serving_performance.Benchmark.Coordinator.Finish.{IsLive}
use llm_serving_performance.Benchmark.Coordinator.{Coordinator}

module _ (p : OpenPlan) (before : Coordinator) where
  abbrev OpenHolds : OpenState → Type 0
  OpenHolds s = Kept before p.stopped_reason s.coordinator s.phase_err

  open_either :
      (b : Bool) (x y : OpenState)
      → (b ≡ true → OpenHolds x)
      → (b ≡ false → OpenHolds y)
      → OpenHolds (if b then x else y)
  open_either true x y f g = f refl
  open_either false x y f g = g refl

  expire_drain-Kept : (s : OpenState) → OpenHolds s → OpenHolds (expire_drain s)
  unfolding expire_drain
  expire_drain-Kept s v =
      open_either (ltb 0 s.pool.active) _ _ (λ _. failing v.live refl)
        (λ _. record { live = v.live; unmoved = v.unmoved })

  parent_seen-Kept :
      (s : OpenState) (next : Main) (now : ℤ)
      → is_some_err s.parent_err ≡ true
      → OpenHolds s
      → OpenHolds (parent_seen p s next now)
  unfolding parent_seen
  parent_seen-Kept s next now h v =
      failing (cancelling-IsLive p.cancelled_reason s.coordinator now v.live)
        (or_else-some _ s.parent_err h)

  stopped_with-Kept :
      (s : OpenState) (x : Coordinator × Option Err)
      → IsLive x.0
      → (p.stopped_reason ≡ none → x.0 ≡ s.coordinator)
      → OpenHolds s
      → OpenHolds (stopped_with s x)
  stopped_with-Kept s (c, none) live same v = record {
    live = live;
    unmoved = λ h e. same h ∙ v.unmoved h e;
  }
  stopped_with-Kept s (c, some e) live same v = failing live refl

  start_drain-Kept :
      (s : OpenState) (e : Option Err) (deadline : Option ℤ) (now : ℤ)
      → OpenHolds s
      → OpenHolds (start_drain p s e deadline now)
  unfolding start_drain
  start_drain-Kept s none (some deadline) now v =
      open_either (leb_ℤ (drain_time_remaining deadline p.drain_timeout_ns now) (pos 0)) _ _
        (λ _.
          expire_drain-Kept (record s { launched = true })
            (record { live = v.live; unmoved = v.unmoved }))
        (λ _. record { live = v.live; unmoved = v.unmoved })
  start_drain-Kept s e d now v = record { live = v.live; unmoved = v.unmoved }

  arrive-Kept :
      (s : OpenState) (i : ℕ) (offset : ℤ) (rest : List ℤ) (now : ℤ)
      → OpenHolds s
      → OpenHolds (arrive p s i offset rest now)
  unfolding arrive
  arrive-Kept s i offset rest now v =
      open_either (deadline_passed p.deadline now) _ _
        (λ _. record { live = v.live; unmoved = v.unmoved })
        (λ _. record { live = v.live; unmoved = v.unmoved })

  main_step-Kept :
      (s : OpenState) (m : Main) (a : MainAction)
      → (gives_up m ≡ true → is_some_err s.parent_err ≡ true)
      → OpenHolds s
      → OpenHolds (main_step p s m a)
  unfolding main_step
  main_step-Kept s (scheduling i offset rest w) (waits a) g v = record {
    live = v.live;
    unmoved = v.unmoved;
  }
  main_step-Kept s (scheduling i offset rest (returned false)) (proceed now) g v = record {
    live = v.live;
    unmoved = v.unmoved;
  }
  main_step-Kept s (scheduling i offset rest (returned true)) (proceed now) g v =
      arrive-Kept s i offset rest now v
  main_step-Kept s left (proceed now) g v =
      open_either (is_some_err s.parent_err) _ _ (λ e. parent_seen-Kept s closing now e v)
        (λ _. at_end p.deadline)
    where
      at_end :
          (d : Option ℤ)
          → OpenHolds (elim d [
            | none ↦ record s { main = closing }
            | some d ↦ record s { main = at_deadline d looking }
          ])
      at_end none = record { live = v.live; unmoved = v.unmoved }
      at_end (some d) = record { live = v.live; unmoved = v.unmoved }
  main_step-Kept s (at_deadline d w) (waits a) g v = record { live = v.live; unmoved = v.unmoved }
  main_step-Kept s (at_deadline d (returned true)) (proceed now) g v =
      let (live, _, same) = stopping-IsLive p.stopped_reason s.coordinator d v.live in
      stopped_with-Kept s (stopping p.stopped_reason s.coordinator d) live same v
  main_step-Kept s (at_deadline d (returned false)) (proceed now) g v =
      parent_seen-Kept s closing now (g refl) v
  main_step-Kept s closing (proceed now) g v = start_drain-Kept s s.phase_err p.deadline now v
  main_step-Kept s draining requests_finished g v =
      open_either s.results_closed _ _ (λ _. record { live = v.live; unmoved = v.unmoved }) (λ _. v)
  main_step-Kept s draining timer_fires g v = expire_drain-Kept s v
  main_step-Kept s draining (parent_done now) g v =
      open_either (is_some_err s.parent_err) _ _ (λ e. parent_seen-Kept s joining now e v) (λ _. v)
  main_step-Kept s joining join g v =
      open_either (s.results_closed && is_empty s.pool.results) _ _
        (λ _. record { live = v.live; unmoved = v.unmoved }) (λ _. v)
  main_step-Kept s m a g v = v

  open_step-Kept :
      (s : OpenState) (a : OpenAction) → IsWhole p s → OpenHolds s → OpenHolds (open_step p s a)
  unfolding open_step
  open_step-Kept s (schedule_step a) w v = main_step-Kept s s.main a w.cancelled v
  open_step-Kept s (request i a) w v = record { live = v.live; unmoved = v.unmoved }
  open_step-Kept s collect w v = record { live = v.live; unmoved = v.unmoved }
  open_step-Kept s close_results w v =
      open_either (s.launched && all_done s.pool.requests) _ _
        (λ _. record { live = v.live; unmoved = v.unmoved }) (λ _. v)
  open_step-Kept s (cancel_parent e) w v = record { live = v.live; unmoved = v.unmoved }

  open_run-Kept :
      (s : OpenState) (steps : List OpenAction)
      → OpenInv p s
      → IsWhole p s
      → OpenHolds s
      → OpenHolds (open_run p s steps)
  unfolding open_run
  open_run-Kept s [] i w v = v
  open_run-Kept s (a ∷ rest) i w v =
      open_run-Kept (open_step p s a) rest (open_step-Inv p s a i) (open_step-IsWhole p s a i w)
        (open_step-Kept s a w v)

  -- An open-loop phase, whatever its goroutines do.
  pub open_end_phase-Kept :
      (parent : Option Err) (steps : List OpenAction) (completed_at : ℤ)
      → IsLive before
      → let (r, failure, c) =
          open_end_phase p (open_run p (open_initial p before parent) steps) completed_at in
        Kept before p.stopped_reason c failure
  unfolding open_end_phase open_initial
  open_end_phase-Kept parent steps completed_at live =
      open_run-Kept (open_initial p before parent) steps (open_initial-Inv p before parent)
        (open_initial-IsWhole p before parent) (record { live = live; unmoved = λ _ _. refl })
