-- ===== src/Experiment/Plan.antt =====
-- `BuildPlan` and `buildPoint`, internal/experiment/plan.go. The copy of the base configuration that
-- a point or the plan holds is the configuration itself.
use llm_serving_performance.Benchmark.Types.{is_closed_loop}
use llm_serving_performance.Config.Overriding.{given}
use llm_serving_performance.Prelude.Results.{err, Result, ok, refuse_if, wrap_err, ◌>>=◌, ◌>>◌}
use llm_serving_performance.Prelude.Int.{leb_ℤ, ltb_ℤ, pos, ℤ}
use llm_serving_performance.Prelude.{
  Bool, List, Option, [], false, if◌then◌else◌, length, none, some, true, ℕ, ◌++◌, ◌+◌, ◌==◌, ◌∷◌,
}
use llm_serving_performance.Floats.{Floats}
use llm_serving_performance.Experiment.Product.{checked_product, max_one}
use llm_serving_performance.Experiment.Axes.{
  ApplicabilityErr, Axes, AxisErr, axes_from_config, validate_applicability, validate_int_axis,
  validate_rate_axis,
}
use llm_serving_performance.Executor.Static.{StaticErr, validate_static}
use llm_serving_performance.Config.Types.{Config, WorkloadMode, token_length_mode}
use llm_serving_performance.Config.Text.{Text, Url}

pub data PlanErr : Type 0 where
  no_axis max_points_not_positive point_count_overflows too_many_points : PlanErr
  not_applicable : ApplicabilityErr → PlanErr
  bad_concurrency_axis bad_rate_axis bad_input_axis bad_output_axis : AxisErr → PlanErr
  invalid_point : ℕ → StaticErr → PlanErr

module _ (fl : Floats) where
  open fl use {Float}

  -- The load of a point, by the axis of its mode; the other pointer is nil.
  pub data Load : Type 0 where
    by_concurrency : ℤ → Load
    by_rate : Float → Load

  pub record Parameters : Type 0 where
    pub concurrency : Option ℤ
    pub request_rate : Option Float
    pub input_tokens : Option ℤ
    pub requested_output_tokens : ℤ

  -- The identifier is the index in six digits, and left out.
  pub record Point : Type 0 where
    pub index : ℕ
    pub parameters : Parameters
    pub config : Config fl

  pub record SweepPlan : Type 0 where
    pub base : Config fl
    pub axes : Axes fl
    pub max_points : ℤ
    pub points : List Point

module _ (fl : Floats) where
  open fl use {Float}

  abbrev concurrency_of : Load fl → Option ℤ
  concurrency_of (by_concurrency n) = some n
  concurrency_of (by_rate r) = none

  abbrev rate_of : Load fl → Option Float
  rate_of (by_concurrency n) = none
  rate_of (by_rate r) = some r

  abbrev is_token_length : WorkloadMode → Bool
  is_token_length token_length_mode = true
  is_token_length _ = false

  -- The configuration of a point.
  unfoldable pub resolved_config : Config fl → Load fl → ℤ → ℤ → Config fl
  resolved_config base load input output = record base {
    request = record (base.request) { max_output_tokens = output };
    workload = record (base.workload) {
      input_tokens =
          if is_token_length base.workload.mode then input else base.workload.input_tokens;
    };
    benchmark = record (base.benchmark) {
      concurrency = given (concurrency_of load) base.benchmark.concurrency;
      open_loop = record (base.benchmark.open_loop) {
        request_rate = given (rate_of load) base.benchmark.open_loop.request_rate;
      };
    };
  }

  unfoldable pub point_parameters : Config fl → Load fl → ℤ → ℤ → Parameters fl
  point_parameters base load input output = record {
    concurrency = concurrency_of load;
    request_rate = rate_of load;
    input_tokens = if is_token_length base.workload.mode then some input else none;
    requested_output_tokens = output;
  }

  -- The axis of the load, or the one value of the base.
  abbrev pub concurrency_loads : List ℤ → List (Load fl)
  concurrency_loads [] = []
  concurrency_loads (n ∷ ns) = by_concurrency n ∷ concurrency_loads ns

  abbrev pub rate_loads : List Float → List (Load fl)
  rate_loads [] = []
  rate_loads (r ∷ rs) = by_rate r ∷ rate_loads rs

  abbrev pub or_single {ℓ} : {A : Type ℓ} → List A → A → List A
  or_single [] a = a ∷ []
  or_single (x ∷ xs) a = x ∷ xs

  unfoldable pub plan_loads : Config fl → List (Load fl)
  plan_loads c =
      if is_closed_loop c.benchmark.mode
      then concurrency_loads (or_single c.experiment.concurrency_values c.benchmark.concurrency)
      else rate_loads
          (or_single c.experiment.request_rate_values c.benchmark.open_loop.request_rate)

  unfoldable pub plan_inputs : Config fl → List ℤ
  plan_inputs c = or_single c.experiment.input_token_values c.workload.input_tokens

  unfoldable pub plan_outputs : Config fl → List ℤ
  plan_outputs c = or_single c.experiment.output_token_values c.request.max_output_tokens

  -- The counts of the inputs, the outputs and the loads.
  unfoldable pub point_counts : Config fl → List ℕ
  point_counts c =
      max_one (length c.experiment.input_token_values)
      ∷ max_one (length c.experiment.output_token_values)
      ∷ (if is_closed_loop c.benchmark.mode
          then max_one (length c.experiment.concurrency_values)
          else max_one (length c.experiment.request_rate_values))
      ∷ []

  abbrev pub or_overflow : Option ℕ → Result PlanErr ℕ
  or_overflow none = err point_count_overflows
  or_overflow (some n) = ok n

module _ (fl : Floats) (parse : Text → Option Url) {D : Type 0} (diagnostics : D) where
  unfoldable pub build_point : Config fl → ℕ → Load fl → ℤ → ℤ → Result PlanErr (Point fl)
  build_point base index load input output = do
    admitted ←
        wrap_err (invalid_point index)
          (validate_static fl parse diagnostics (resolved_config fl base load input output))
    ok (record {
      index = index;
      parameters = point_parameters fl base load input output;
      config = resolved_config fl base load input output;
    })

  -- The three loops; each takes the points so far.
  unfoldable pub build_loads :
      Config fl → ℤ → ℤ → List (Load fl) → List (Point fl) → Result PlanErr (List (Point fl))
  unfolding build_point
  build_loads base input output [] points = ok points
  build_loads base input output (l ∷ ls) points =
      build_point base (length points + 1) l input output >>= λ p.
      build_loads base input output ls (points ++ p ∷ [])

  unfoldable pub build_outputs :
      Config fl → ℤ → List ℤ → List (Point fl) → Result PlanErr (List (Point fl))
  unfolding build_loads
  build_outputs base input [] points = ok points
  build_outputs base input (o ∷ os) points =
      build_loads base input o (plan_loads fl base) points >>= λ more.
      build_outputs base input os more

  unfoldable pub build_inputs :
      Config fl → List ℤ → List (Point fl) → Result PlanErr (List (Point fl))
  unfolding build_outputs
  build_inputs base [] points = ok points
  build_inputs base (i ∷ is) points =
      build_outputs base i (plan_outputs fl base) points >>= λ more. build_inputs base is more

  unfoldable pub check_axes : Config fl → Result PlanErr (Unit {0})
  check_axes base =
      let a = axes_from_config fl base in
      do
        refuse_if
            (length a.concurrency_values
                + length a.request_rate_values
                + length a.input_token_values
                + length a.output_token_values
              == 0)
            no_axis
        refuse_if (leb_ℤ base.experiment.max_points (pos 0)) max_points_not_positive
        wrap_err not_applicable (validate_applicability fl base a)
        wrap_err bad_concurrency_axis (validate_int_axis [] a.concurrency_values)
        wrap_err bad_rate_axis (validate_rate_axis fl [] a.request_rate_values)
        wrap_err bad_input_axis (validate_int_axis [] a.input_token_values)
        wrap_err bad_output_axis (validate_int_axis [] a.output_token_values)

  -- The number of points, once the axes are valid.
  unfoldable pub count_points : Config fl → Result PlanErr ℕ
  unfolding check_axes
  count_points base =
      check_axes base >>= λ u. or_overflow fl (checked_product (point_counts fl base))

  unfoldable pub build_plan : Config fl → Result PlanErr (SweepPlan fl)
  unfolding count_points build_inputs
  build_plan base = do
    count ← count_points base
    refuse_if (ltb_ℤ base.experiment.max_points (pos count)) too_many_points
    points ← build_inputs base (plan_inputs fl base) []
    ok (record {
      base = base;
      axes = axes_from_config fl base;
      max_points = base.experiment.max_points;
      points = points;
    })
