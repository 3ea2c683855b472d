-- ===== src/Experiment/Ended.antt =====
-- What the manifest of a sweep promises.
use llm_serving_performance.Prelude.Results.{ok}
use llm_serving_performance.Prelude.{
  List, Option, ◌∷◌, ◌↔◌, Bool, arith, false, sym, true, ◌+◌, ◌==◌, ◌∙◌, [], length, refl, ℕ, ◌≡◌,
}
use llm_serving_performance.Experiment.Stepped.{IsNumbered, length-new_records, Swept}
use llm_serving_performance.Experiment.Planned.{build_plan-Covers}
use llm_serving_performance.Experiment.Plan.{Point, build_plan, SweepPlan}
use llm_serving_performance.Experiment.Grid.{Cell, Covers}
use llm_serving_performance.Config.Types.{Config}
use llm_serving_performance.Config.Text.{Url, Text}
use llm_serving_performance.Experiment.Run.{
  counted_manifest, successful, is_completed_experiment, new_manifest, settle, final_manifest,
  loop_state,
}
use llm_serving_performance.Experiment.Types.{Manifest, PointEnv}
use llm_serving_performance.Experiment.Counted.{
  completed-le-executed, four_statuses, update_manifest_counts-sums, cancelled_record,
  completed_record, executed_record, preflight_record, waiting_record,
}
use mathlib.Core.Path.{subst}
use llm_serving_performance.Experiment.Swept.{run_points-Swept}
use llm_serving_performance.Prelude.Sums.{sum_by}
use llm_serving_performance.Prelude.Int.{ℤ}
use llm_serving_performance.Floats.{Floats}

module _ (fl : Floats) where
  settle-kept :
      (m : Manifest fl) (c f : Bool)
      → let n = settle fl m c f in
        (n.executed_points ≡ m.executed_points)
        × (n.preflight_failed_points ≡ m.preflight_failed_points)
        × (n.cancelled_points ≡ m.cancelled_points)
        × (n.not_started_points ≡ m.not_started_points)
        × (n.child_runs_completed ≡ m.child_runs_completed)
        × (n.planned_points ≡ m.planned_points)
  unfolding settle
  settle-kept m true f = (refl, refl, refl, refl, refl, refl)
  settle-kept m false true = (refl, refl, refl, refl, refl, refl)
  settle-kept m false false = (refl, refl, refl, refl, refl, refl)

  settle-completed :
      (m : Manifest fl) (c f : Bool)
      → is_completed_experiment fl (settle fl m c f).status ≡ true
      → (c ≡ false) × (f ≡ false) × ((settle fl m c f).complete ≡ (m.not_started_points == 0))
  unfolding settle
  settle-completed m true f h = cc
  settle-completed m false true h = cc
  settle-completed m false false h = (refl, refl, refl)

Covers-IsNumbered :
    (fl : Floats) (parse : Text → Option Url) {D : Type 0} (diagnostics : D) (base : Config fl)
    (k : ℕ) (cs : List (Cell fl)) (ps : List (Point fl))
    → Covers fl parse diagnostics base k cs ps
    → IsNumbered k ps
Covers-IsNumbered fl parse diagnostics base k [] [] v = tt
Covers-IsNumbered fl parse diagnostics base k [] (p ∷ ps) v = absurd v
Covers-IsNumbered fl parse diagnostics base k (c ∷ cs) [] v = absurd v
Covers-IsNumbered fl parse diagnostics base k (c ∷ cs) (p ∷ ps) (number, _, _, v) =
    (number, Covers-IsNumbered fl parse diagnostics base (k + 1) cs ps v)

module _ (fl : Floats) {S : Type 0} (env : ℕ → PointEnv fl S) (plan : SweepPlan fl) where
  swept : Swept fl (IsNumbered 1 plan.points) (length plan.points) (loop_state fl env plan)
  unfolding loop_state sum_by
  swept =
      subst (λ n. Swept fl (IsNumbered 1 plan.points) n (loop_state fl env plan))
        (zero_add (length plan.points))
        (run_points-Swept fl (IsNumbered 1 plan.points) env plan.points [] [] (λ q. q)
          (record { none_waits = refl; none_cancelled = refl; summed = λ q. (refl, tt) }))
    where
      zero_add : (n : ℕ) → 0 + n ≡ n
      zero_add n = omega arith

  module _ (id : Text) (created_at completed_at : ℤ) where
    counted_sums :
        let m = counted_manifest fl env plan id created_at in
        let s = loop_state fl env plan in
        (m.executed_points ≡ sum_by (executed_record fl) s.records)
        × (m.preflight_failed_points ≡ sum_by (preflight_record fl) s.records)
        × (m.cancelled_points ≡ sum_by (cancelled_record fl) s.records)
        × (m.not_started_points ≡ sum_by (waiting_record fl) s.records)
        × (m.child_runs_completed ≡ sum_by (completed_record fl) s.records)
        × (m.planned_points ≡ length plan.points)
    unfolding counted_manifest new_manifest
    counted_sums =
        let (a, b, c, d, e, f, _) = update_manifest_counts-sums fl _ in
        (a, b, c, d, e, f ∙ length-new_records fl plan.points)

    -- The published manifest, over the end of the loop.
    manifest_sums :
        let m = final_manifest fl env plan id created_at completed_at in
        let s = loop_state fl env plan in
        (m.executed_points ≡ sum_by (executed_record fl) s.records)
        × (m.preflight_failed_points ≡ sum_by (preflight_record fl) s.records)
        × (m.cancelled_points ≡ sum_by (cancelled_record fl) s.records)
        × (m.not_started_points ≡ sum_by (waiting_record fl) s.records)
        × (m.child_runs_completed ≡ sum_by (completed_record fl) s.records)
        × (m.planned_points ≡ length plan.points)
    unfolding final_manifest
    manifest_sums =
        let s = loop_state fl env plan in
        let m = counted_manifest fl env plan id created_at in
        let (a, b, c, d, e, f) = settle-kept fl m s.cancelled s.fatal in
        let (a', b', c', d', e', f') = counted_sums in
        (a ∙ a', b ∙ b', c ∙ c', d ∙ d', e ∙ e', f ∙ f')

    manifest_sizes :
        let m = final_manifest fl env plan id created_at completed_at in
        (m.planned_points ≡ length plan.points)
        × (m.planned_points
            ≡ m.executed_points + m.preflight_failed_points + m.cancelled_points
              + m.not_started_points)
    manifest_sizes =
        let s = loop_state fl env plan in
        let (a, b, c, d, _, f) = manifest_sums in
        (f, omega (arith, a, b, c, d, f, four_statuses fl s.records, swept.kept))

    -- For a plan that was built, every planned point of the sweep is in the end executed, failed in
    -- its preflight, cancelled or not started: the manifest's four counts add up to them, and there
    -- are as many summaries, kept by the points' indices, as executed points.
    pub manifest_accounts :
        (parse : Text → Option Url) {D : Type 0} (diagnostics : D) (base : Config fl)
        → build_plan fl parse diagnostics base ≡ ok plan
        → let m = final_manifest fl env plan id created_at completed_at in
          (m.planned_points ≡ length plan.points)
          × (m.planned_points
              ≡ m.executed_points + m.preflight_failed_points + m.cancelled_points
                + m.not_started_points)
          × (length (loop_state fl env plan).summaries ≡ m.executed_points)
    manifest_accounts parse diagnostics base built =
        let (planned, split) = manifest_sizes in
        let (covers, _, _) = build_plan-Covers fl parse diagnostics base plan built in
        let numbered = Covers-IsNumbered fl parse diagnostics base 1 _ plan.points covers in
        (planned, split, swept.summed numbered ∙ sym manifest_sums.0)

    -- A sweep whose status is completed is complete: no point of it was cancelled or not started.
    pub completed_whole :
        is_completed_experiment fl (final_manifest fl env plan id created_at completed_at).status
          ≡ true
        → let m = final_manifest fl env plan id created_at completed_at in
          (m.complete ≡ true) × (m.not_started_points ≡ 0) × (m.cancelled_points ≡ 0)
    unfolding final_manifest
    completed_whole h =
        let s = loop_state fl env plan in
        let m = counted_manifest fl env plan id created_at in
        let (quiet, sane, complete) = settle-completed fl m s.cancelled s.fatal h in
        let (nothing_waits, nothing_cancelled) = swept.whole quiet sane in
        let (_, _, c, d, _, _) = counted_sums in
        let (_, _, c', d', _, _) = settle-kept fl m s.cancelled s.fatal in
        (
          complete ∙ is_zero m.not_started_points (d ∙ nothing_waits),
          d' ∙ d ∙ nothing_waits,
          c' ∙ c ∙ nothing_cancelled,
        )
      where
        is_zero : (n : ℕ) → n ≡ 0 → (n == 0) ≡ true
        is_zero n e = ground arith

    -- A sweep is successful exactly if its status is completed and every planned point was executed
    -- with a completed run.
    pub successful_iff :
        let m = final_manifest fl env plan id created_at completed_at in
        (successful fl m ≡ true) ↔ (
          (is_completed_experiment fl m.status ≡ true)
          × (sum_by (completed_record fl) (loop_state fl env plan).records ≡ length plan.points))
    unfolding successful
    successful_iff =
        let m = final_manifest fl env plan id created_at completed_at in
        let s = loop_state fl env plan in
        let (a, b, c, d, e, f) = manifest_sums in
        (
          λ h. (ground arith, omega (arith, e, f, all_completed m h)),
          λ (status, all).
              let (complete, waiting, cancelled) = completed_whole status in
              ground (
                arith,
                status,
                complete,
                waiting,
                cancelled,
                all,
                e,
                f,
                a,
                manifest_sizes.1,
                completed-le-executed fl s.records,
              ),
        )
      where
        all_completed :
            (m : Manifest fl) → successful fl m ≡ true → m.child_runs_completed ≡ m.planned_points
        all_completed m h = ground arith
