-- ===== src/Experiment/Counted.antt =====
-- The counters of a manifest, as sums over its points.
use llm_serving_performance.Executor.Classify.{RunStatus, run_completed}
use llm_serving_performance.Experiment.Run.{
  update_manifest_counts, count_point, count_records, count_run,
}
use llm_serving_performance.Experiment.Types.{
  Manifest, PointRecord, PointStatus, executed, not_started, point_cancelled, preflight_failed,
}
use llm_serving_performance.Prelude.Sums.{sum_by}
use llm_serving_performance.Prelude.{
  List, Option, [], arith, length, refl, some, ℕ, ◌+◌, ◌∙◌, ◌∷◌, ◌≡◌, ◌≤◌,
}
use llm_serving_performance.Floats.{Floats}

abbrev pub is_executed : PointStatus → ℕ
is_executed executed = 1
is_executed _ = 0

abbrev pub is_preflight_failed : PointStatus → ℕ
is_preflight_failed preflight_failed = 1
is_preflight_failed _ = 0

abbrev pub is_point_cancelled : PointStatus → ℕ
is_point_cancelled point_cancelled = 1
is_point_cancelled _ = 0

abbrev pub is_not_started : PointStatus → ℕ
is_not_started not_started = 1
is_not_started _ = 0

abbrev pub has_completed_run : PointStatus → Option RunStatus → ℕ
has_completed_run executed (some run_completed) = 1
has_completed_run _ _ = 0

module _ (fl : Floats) where
  abbrev pub executed_record : PointRecord fl → ℕ
  executed_record r = is_executed r.point_status

  abbrev pub preflight_record : PointRecord fl → ℕ
  preflight_record r = is_preflight_failed r.point_status

  abbrev pub cancelled_record : PointRecord fl → ℕ
  cancelled_record r = is_point_cancelled r.point_status

  abbrev pub waiting_record : PointRecord fl → ℕ
  waiting_record r = is_not_started r.point_status

  abbrev pub completed_record : PointRecord fl → ℕ
  completed_record r = has_completed_run r.point_status r.run_status

  count_point-adds :
      (m : Manifest fl) (p : PointStatus) (q : Option RunStatus)
      → let n = count_point fl m p q in
        (n.executed_points ≡ m.executed_points + is_executed p)
        × (n.preflight_failed_points ≡ m.preflight_failed_points + is_preflight_failed p)
        × (n.cancelled_points ≡ m.cancelled_points + is_point_cancelled p)
        × (n.not_started_points ≡ m.not_started_points + is_not_started p)
        × (n.child_runs_completed ≡ m.child_runs_completed + has_completed_run p q)
        × (n.planned_points ≡ m.planned_points)
        × (n.points ≡ m.points)
  unfolding count_point count_run
  count_point-adds m p q = ground arith

  count_records-sums :
      (m : Manifest fl) (rs : List (PointRecord fl))
      → let n = count_records fl m rs in
        (n.executed_points ≡ m.executed_points + sum_by executed_record rs)
        × (n.preflight_failed_points ≡ m.preflight_failed_points + sum_by preflight_record rs)
        × (n.cancelled_points ≡ m.cancelled_points + sum_by cancelled_record rs)
        × (n.not_started_points ≡ m.not_started_points + sum_by waiting_record rs)
        × (n.child_runs_completed ≡ m.child_runs_completed + sum_by completed_record rs)
        × (n.planned_points ≡ m.planned_points)
        × (n.points ≡ m.points)
  unfolding count_records sum_by
  count_records-sums m [] =
      (omega arith, omega arith, omega arith, omega arith, omega arith, refl, refl)
  count_records-sums m (r ∷ rs) =
      let n : Manifest fl = count_point fl m r.point_status r.run_status in
      let (a, b, c, d, e, f, g) = count_point-adds m r.point_status r.run_status in
      let (a', b', c', d', e', f', g') = count_records-sums n rs in
      (
        omega (arith, a, a'),
        omega (arith, b, b'),
        omega (arith, c, c'),
        omega (arith, d, d'),
        omega (arith, e, e'),
        f' ∙ f,
        g' ∙ g,
      )

  pub update_manifest_counts-sums :
      (m : Manifest fl)
      → let n = update_manifest_counts fl m in
        (n.executed_points ≡ sum_by executed_record m.points)
        × (n.preflight_failed_points ≡ sum_by preflight_record m.points)
        × (n.cancelled_points ≡ sum_by cancelled_record m.points)
        × (n.not_started_points ≡ sum_by waiting_record m.points)
        × (n.child_runs_completed ≡ sum_by completed_record m.points)
        × (n.planned_points ≡ m.planned_points)
        × (n.points ≡ m.points)
  unfolding update_manifest_counts
  update_manifest_counts-sums m =
      let (a, b, c, d, e, f, g) = count_records-sums _ m.points in
      (
        omega (arith, a),
        omega (arith, b),
        omega (arith, c),
        omega (arith, d),
        omega (arith, e),
        f,
        g,
      )

  -- A point has one status.
  pub four_statuses :
      (rs : List (PointRecord fl))
      → sum_by executed_record rs
          + sum_by preflight_record rs
          + sum_by cancelled_record rs
          + sum_by waiting_record rs
        ≡ length rs
  unfolding sum_by
  four_statuses [] = refl
  four_statuses (r ∷ rs) =
      let one : is_executed r.point_status
            + is_preflight_failed r.point_status
            + is_point_cancelled r.point_status
            + is_not_started r.point_status
          ≡ 1 =
        one_status r.point_status in
      omega (arith, one, four_statuses rs)
    where
      one_status :
          (p : PointStatus)
          → is_executed p + is_preflight_failed p + is_point_cancelled p + is_not_started p ≡ 1
      one_status p = ground arith

  -- Where each executed point has a completed run, there are no more such runs than points.
  pub completed-le-executed :
      (rs : List (PointRecord fl)) → sum_by completed_record rs ≤ sum_by executed_record rs
  unfolding sum_by
  completed-le-executed [] = omega arith
  completed-le-executed (r ∷ rs) =
      omega (arith, one_run r.point_status r.run_status, completed-le-executed rs)
    where
      one_run : (p : PointStatus) (q : Option RunStatus) → has_completed_run p q ≤ is_executed p
      one_run p q = ground arith
