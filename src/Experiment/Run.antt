-- ===== src/Experiment/Run.antt =====
-- The run of a sweep, internal/experiment/run.go and types.go. What the executor answers for a
-- point, and whether the parent context is cancelled before and behind it, are the environment's.
-- The callbacks for the output are left out; the copies of parameters and axes are themselves.
use llm_serving_performance.Prelude.Results.{err, Result, ok, refuse_if, ◌>>◌}
use llm_serving_performance.Experiment.Types.{
  finished_with, failed_with, Answer, ChildResult, ExecuteFailure, ExperimentStatus, Manifest,
  PointEnv, PointRecord, PointStatus, RunErr, RunState, executed, experiment_cancelled,
  experiment_completed, experiment_failed, is_preparation, is_run_cancelled, no_experiment_id,
  no_points, no_publication, not_started, point_cancelled, preflight_failed, unset_status,
}
use llm_serving_performance.Executor.Classify.{RunStatus, run_cancelled, run_completed, run_failed}
use llm_serving_performance.Prelude.Int.{pos, ℤ}
use llm_serving_performance.Prelude.{
  length, not, Bool, List, Option, String, [], false, get_elem?, if◌then◌else◌, none, set, some,
  true, ℕ, ◌&&◌, ◌+◌, ◌==◌, ◌||◌, ◌∷◌,
}
use llm_serving_performance.Experiment.Plan.{SweepPlan, Point}
use llm_serving_performance.Experiment.Axes.{is_nil}
use llm_serving_performance.Floats.{Floats}
use llm_serving_performance.Config.Text.{Text}

module _ (fl : Floats) where
  abbrev pub fresh_record : Point fl → PointRecord fl
  fresh_record p = record {
    point_index = p.index;
    parameters = p.parameters;
    point_status = not_started;
    run_id = none;
    run_status = none;
    error_class = "";
    error = "";
  }

  unfoldable pub new_records : List (Point fl) → List (PointRecord fl)
  new_records [] = []
  new_records (p ∷ ps) = fresh_record p ∷ new_records ps

-- The map `summaries`, as a list of its keys and values: a key that it has gets a new value.
unfoldable pub put_summary : {S : Type 0} → ℕ → S → List (ℕ × S) → List (ℕ × S)
put_summary k v [] = (k, v) ∷ []
put_summary k v ((j, w) ∷ m) = if j == k then (k, v) ∷ m else (j, w) ∷ put_summary k v m

module _ (fl : Floats) {S : Type 0} where
  -- The state behind a point, and whether the loop goes on. The record is the one of this point.
  unfoldable pub fail_point :
      RunState fl S → ℕ → PointRecord fl → ExecuteFailure → Bool → RunState fl S × Bool
  fail_point s i r e cancelled =
      if e.is_canceled_err || cancelled
      then (
        record s {
          records = set s.records i (record r {
            point_status = point_cancelled;
            error_class = "parent_cancelled";
            error = "context canceled";
          });
          cancelled = true;
        },
        false,
      )
      else if is_preparation e.stage
      then (
        record s {
          records = set s.records i (record r {
            point_status = preflight_failed;
            error_class = "workload_preparation_error";
            error = e.text;
          });
        },
        true,
      )
      else (record s { fatal = true }, false)

  unfoldable pub finish_point :
      RunState fl S → ℕ → ℕ → PointRecord fl → ChildResult fl S → Bool → RunState fl S × Bool
  finish_point s i index r c cancelled =
      let t : RunState fl S = record s {
        records = set s.records i (record r {
          point_status = executed;
          run_id = some c.run_id;
          run_status = some c.run_status;
          error_class = c.error_class;
        });
        summaries = put_summary index c.summary s.summaries;
      } in
      if is_run_cancelled c.run_status || cancelled
      then (record t { cancelled = true }, false)
      else (t, true)

  unfoldable pub answer_point :
      RunState fl S → ℕ → ℕ → Option (PointRecord fl) → Answer fl S → Bool → RunState fl S × Bool
  unfolding fail_point finish_point
  answer_point s i index none a cancelled = (s, false)
  answer_point s i index (some r) (failed_with e) cancelled = fail_point s i r e cancelled
  answer_point s i index (some r) (finished_with c) cancelled = finish_point s i index r c cancelled

  unfoldable pub run_point : RunState fl S → ℕ → ℕ → PointEnv fl S → RunState fl S × Bool
  unfolding answer_point
  run_point s i index env =
      if env.cancelled_before
      then (record s { cancelled = true }, false)
      else answer_point s i index (get_elem? s.records i) env.answer env.cancelled_behind

  -- The loop, from the index of its next point on.
  unfoldable pub run_points :
      (ℕ → PointEnv fl S) → ℕ → List (Point fl) → RunState fl S → RunState fl S
  unfolding run_point
  run_points env i [] s = s
  run_points env i (p ∷ ps) s =
      let (t, goes_on) = run_point s i p.index (env i) in
      let rest = run_points env (i + 1) ps t in if goes_on then rest else t

module _ (fl : Floats) where
  -- The inner switch of `updateManifestCounts`, on the status of the point's run.
  unfoldable pub count_run : Manifest fl → Option RunStatus → Manifest fl
  count_run m (some run_completed) = record m { child_runs_completed = m.child_runs_completed + 1 }
  count_run m (some run_failed) = record m { child_runs_failed = m.child_runs_failed + 1 }
  count_run m (some run_cancelled) = record m { child_runs_cancelled = m.child_runs_cancelled + 1 }
  count_run m _ = m

  unfoldable pub count_point : Manifest fl → PointStatus → Option RunStatus → Manifest fl
  unfolding count_run
  count_point m executed run = count_run (record m { executed_points = m.executed_points + 1 }) run
  count_point m preflight_failed run = record m {
    preflight_failed_points = m.preflight_failed_points + 1;
  }
  count_point m point_cancelled run = record m { cancelled_points = m.cancelled_points + 1 }
  count_point m not_started run = record m { not_started_points = m.not_started_points + 1 }

  unfoldable pub count_records : Manifest fl → List (PointRecord fl) → Manifest fl
  unfolding count_point
  count_records m [] = m
  count_records m (r ∷ rs) = count_records (count_point m r.point_status r.run_status) rs

  unfoldable pub update_manifest_counts : Manifest fl → Manifest fl
  unfolding count_records
  update_manifest_counts m =
      count_records
        (record m {
          executed_points = 0;
          preflight_failed_points = 0;
          cancelled_points = 0;
          not_started_points = 0;
          child_runs_completed = 0;
          child_runs_failed = 0;
          child_runs_cancelled = 0;
        })
        m.points

  -- `newManifest`
  unfoldable pub new_manifest : SweepPlan fl → Text → ℤ → Manifest fl
  new_manifest plan id created_at = record {
    experiment_id = id;
    created_at = created_at;
    completed_at = pos 0;
    status = unset_status;
    complete = false;
    model = plan.base.endpoint.model;
    load_mode = plan.base.benchmark.mode;
    workload_mode = plan.base.workload.mode;
    axes = plan.axes;
    planned_points = length (new_records fl plan.points);
    executed_points = 0;
    preflight_failed_points = 0;
    cancelled_points = 0;
    not_started_points = 0;
    child_runs_completed = 0;
    child_runs_failed = 0;
    child_runs_cancelled = 0;
    error_class = "";
    error = "";
    points = new_records fl plan.points;
  }

  -- The status of the manifest once its points are counted.
  unfoldable pub settle : Manifest fl → Bool → Bool → Manifest fl
  settle m true fatal = record m { status = experiment_cancelled; complete = false }
  settle m false true = record m { status = experiment_failed; complete = false }
  settle m false false = record m {
    status = experiment_completed;
    complete = m.not_started_points == 0;
  }

  fatal_class : Bool → String
  fatal_class true = "orchestration_error"
  fatal_class false = ""

  fatal_text : Bool → String
  fatal_text true = "child benchmark execution could not be completed"
  fatal_text false = ""

  unfoldable pub loop_state : {S : Type 0} → (ℕ → PointEnv fl S) → SweepPlan fl → RunState fl S
  loop_state env plan = run_points fl env 0 plan.points (record {
    records = new_records fl plan.points;
    summaries = [];
    cancelled = false;
    fatal = false;
  })

  -- The manifest behind the loop, with its points counted.
  unfoldable pub counted_manifest :
      {S : Type 0} → (ℕ → PointEnv fl S) → SweepPlan fl → Text → ℤ → Manifest fl
  unfolding fatal_class fatal_text
  counted_manifest env plan id created_at =
      update_manifest_counts (record (new_manifest plan id created_at) {
        points = (loop_state env plan).records;
        error_class = fatal_class (loop_state env plan).fatal;
        error = fatal_text (loop_state env plan).fatal;
      })

  -- The manifest that `Run` publishes.
  unfoldable pub final_manifest :
      {S : Type 0} → (ℕ → PointEnv fl S) → SweepPlan fl → Text → ℤ → ℤ → Manifest fl
  final_manifest env plan id created_at completed_at =
      let s = loop_state env plan in
      let m = settle (counted_manifest env plan id created_at) s.cancelled s.fatal in
      record m { completed_at = completed_at }

  -- `Run`, with the identifier, whether the publication can begin, and the error of publishing, which
  -- is returned beside the manifest.
  unfoldable pub run_experiment :
      {S : Type 0}
      → (ℕ → PointEnv fl S)
      → SweepPlan fl
      → Option Text
      → Bool
      → ℤ
      → ℤ
      → Option String
      → Result RunErr (Manifest fl × Option String)
  run_experiment env plan none begun created_at completed_at publish_err = do
    refuse_if (is_nil plan.points) no_points
    err no_experiment_id
  run_experiment env plan (some id) begun created_at completed_at publish_err = do
    refuse_if (is_nil plan.points) no_points
    refuse_if (not begun) no_publication
    ok (final_manifest env plan id created_at completed_at, publish_err)

  abbrev pub is_completed_experiment : ExperimentStatus → Bool
  is_completed_experiment experiment_completed = true
  is_completed_experiment _ = false

  -- `Result.Successful`
  unfoldable pub successful : Manifest fl → Bool
  successful m =
      is_completed_experiment m.status
      && (m.complete
          && (m.preflight_failed_points == 0
              && (m.cancelled_points == 0
                  && (m.not_started_points == 0
                      && (m.executed_points == m.planned_points
                          && m.child_runs_completed == m.planned_points)))))
