-- ===== src/Tests/Sweep.antt =====
-- A configuration from its defaults and a command line, and a sweep of four points over it.
use llm_serving_performance.Prelude.{
  ◌<◌, Option, [], arith, false, length, none, refl, some, true, ℕ, ◌+◌, ◌↔◌, ◌∷◌, ◌≡◌, ◌≤◌,
}
use llm_serving_performance.Experiment.Ended.{completed_whole, manifest_accounts, successful_iff}
use llm_serving_performance.Executor.Classify.{run_completed}
use llm_serving_performance.Experiment.Axes.{
  validate_rate_axis, validate_int_axis, validate_applicability, axes_from_config,
}
use llm_serving_performance.Prelude.Int.{◌-ℤ◌, max_int64, pos, ℤ, ◌≤ℤ◌, ◌<ℤ◌}
use llm_serving_performance.Experiment.Product.{
  checked_product_from, product, checked_product, checked_product_exact,
}
use llm_serving_performance.Experiment.Plan.{
  count_points, check_axes, build_point, build_outputs, build_loads, build_inputs, by_concurrency,
  Point, SweepPlan, build_plan, plan_inputs, plan_loads, plan_outputs, point_counts,
  point_parameters, resolved_config,
}
use llm_serving_performance.Config.Validate.{
  validate_workload, validate_tokens, validate_slo, validate_load, validate_limits,
  validate_endpoint, validate,
}
use llm_serving_performance.Config.Text.{
  validate_parsed, is_space, is_environment_name, eqb_text, all_name_rest, validate_base_url,
  is_blank, Text, Url,
}
use llm_serving_performance.Config.Overriding.{
  override_workload, override_supplied, override_safety, override_request, override_benchmark,
  apply_overrides,
}
use llm_serving_performance.Benchmark.Schedule.{
  planned_arrival_count, offsets_from, duration_arrival_offsets, check_boundary, arrival_offsets,
}
use llm_serving_performance.Benchmark.Admission.{
  admit_open_loop, admit_closed_loop, admit_run, AdmissionDecision,
}
use llm_serving_performance.Experiment.Run.{
  new_records, run_points, settle, successful, final_manifest, is_completed_experiment, loop_state,
}
use llm_serving_performance.Experiment.Types.{finished_with, Manifest, PointEnv}
use llm_serving_performance.Executor.Static.{
  admission_request, ServesWithin, Transport, new_shared_http_client, static_limit_positive,
  validate_static,
}
use llm_serving_performance.Floats.Whole.{whole}
use llm_serving_performance.Experiment.Grid.{grid, Covers}
use llm_serving_performance.Prelude.Sums.{sum_by}
use llm_serving_performance.Prelude.Results.{ok}
use llm_serving_performance.Experiment.Planned.{build_plan-Covers}
use llm_serving_performance.Experiment.Counted.{completed_record}
use llm_serving_performance.Config.Line.{nothing_given}
use llm_serving_performance.Config.Types.{Config, Overrides}
use llm_serving_performance.Config.Valid.{IsValidConfig}
use llm_serving_performance.Config.Defaults.{default_config}
use llm_serving_performance.Config.Accepted.{validate_iff}
use llm_serving_performance.Benchmark.Types.{closed_loop, drain_timeout}
use llm_serving_performance.Benchmark.Types

-- A parser that takes every text for an address with the host `h`.
abbrev parse : Text → Option Url
parse t = some (record {
  scheme = 104 ∷ 116 ∷ 116 ∷ 112 ∷ [];
  host = 104 ∷ [];
  has_user = false;
  raw_query = [];
  fragment = [];
})

abbrev machine : ℕ
machine = 0

abbrev no_values : Overrides whole
no_values = nothing_given whole

abbrev first_line : Overrides whole
first_line = record no_values {
  base_url = some (104 ∷ []);
  model = some (109 ∷ []);
  prompt = some (112 ∷ []);
  concurrency = some (pos 2);
}

abbrev sweep_config : Config whole
sweep_config = record (apply_overrides whole (default_config whole) first_line) {
  experiment = record {
    concurrency_values = pos 1 ∷ pos 2 ∷ [];
    request_rate_values = [];
    input_token_values = [];
    output_token_values = pos 16 ∷ pos 32 ∷ [];
    max_points = pos 64;
  };
}

validate_iff_example :
    (validate whole parse sweep_config ≡ ok tt) ↔ IsValidConfig whole parse sweep_config
validate_iff_example = validate_iff whole parse sweep_config

sweep_validates : validate whole parse sweep_config ≡ ok tt
unfolding validate apply_overrides default_config is_blank validate_base_url
sweep_validates = refl

decision : AdmissionDecision ℕ
decision = record {
  mode = Types.closed_loop;
  worker_count = pos 1;
  warmup_worker_count = pos 0;
  measurement_worker_count = pos 1;
  transport_worker_limit = pos 1;
  planned_arrivals = pos 0;
  diagnostics = 0;
}

sweep_admitted : validate_static whole parse machine sweep_config ≡ ok decision
unfolding validate_static validate apply_overrides default_config is_blank validate_base_url
    admit_run admission_request decision
sweep_admitted = refl

-- The limits of net/http's default transport.
abbrev default_transport : Transport
default_transport = record {
  max_idle_conns = pos 100;
  max_idle_conns_per_host = pos 0;
  max_conns_per_host = pos 0;
}

static_limit_positive_example :
    IsValidConfig whole parse sweep_config
    × (pos 0 <ℤ decision.transport_worker_limit)
    × ServesWithin decision.transport_worker_limit
        (new_shared_http_client (some default_transport) decision.transport_worker_limit)
static_limit_positive_example =
    static_limit_positive whole parse machine sweep_config decision default_transport sweep_admitted

checked_product_exact_example :
    ((checked_product (1 ∷ 2 ∷ 2 ∷ []) ≡ some (product (1 ∷ 2 ∷ 2 ∷ [])))
      ↔ (product (1 ∷ 2 ∷ 2 ∷ []) ≤ max_int64))
    × ((checked_product (1 ∷ 2 ∷ 2 ∷ []) ≡ none) ↔ (max_int64 < product (1 ∷ 2 ∷ 2 ∷ [])))
checked_product_exact_example =
    checked_product_exact (1 ∷ 2 ∷ 2 ∷ []) (omega arith, (omega arith, (omega arith, tt)))

abbrev point : ℕ → ℤ → ℤ → Point whole
point index concurrency output = record {
  index = index;
  parameters = point_parameters whole sweep_config (by_concurrency concurrency) (pos 0) output;
  config = resolved_config whole sweep_config (by_concurrency concurrency) (pos 0) output;
}

abbrev sweep_plan : SweepPlan whole
sweep_plan = record {
  base = sweep_config;
  axes = axes_from_config whole sweep_config;
  max_points = pos 64;
  points =
      point 1 (pos 1) (pos 16)
      ∷ point 2 (pos 2) (pos 16)
      ∷ point 3 (pos 1) (pos 32)
      ∷ point 4 (pos 2) (pos 32)
      ∷ [];
}

sweep_planned : build_plan whole parse machine sweep_config ≡ ok sweep_plan
unfolding build_plan axes_from_config apply_overrides default_config checked_product point_counts
    plan_inputs plan_outputs plan_loads validate_static validate resolved_config is_blank
    validate_base_url admit_run admission_request point_parameters admit_closed_loop admit_open_loop
    arrival_offsets check_boundary duration_arrival_offsets offsets_from planned_arrival_count
    override_benchmark override_request override_safety override_supplied override_workload
    all_name_rest eqb_text is_environment_name is_space validate_parsed validate_endpoint
    validate_limits validate_load validate_slo validate_tokens validate_workload build_inputs
    build_loads build_outputs build_point check_axes count_points checked_product_from ◌-ℤ◌
    validate_applicability validate_int_axis validate_rate_axis
sweep_planned = refl

build_plan-Covers_example :
    Covers whole parse machine sweep_config 1
      (grid whole
        (plan_inputs whole sweep_config)
        (plan_outputs whole sweep_config)
        (plan_loads whole sweep_config))
      sweep_plan.points
    × (length sweep_plan.points ≡ product (point_counts whole sweep_config))
    × (pos (length sweep_plan.points) ≤ℤ pos 64)
build_plan-Covers_example =
    build_plan-Covers whole parse machine sweep_config sweep_plan sweep_planned

-- Every point is executed with a completed run.
abbrev env : ℕ → PointEnv whole ℕ
env i = record {
  cancelled_before = false;
  answer =
      finished_with
        (record { run_id = 114 ∷ []; run_status = run_completed; error_class = ""; summary = i });
  cancelled_behind = false;
}

abbrev manifest : Manifest whole
manifest = final_manifest whole env sweep_plan (101 ∷ []) (pos 1) (pos 2)

sweep_completed : is_completed_experiment whole manifest.status ≡ true
unfolding final_manifest settle loop_state run_points new_records
sweep_completed = refl

manifest_accounts_example :
    (manifest.planned_points ≡ length sweep_plan.points)
    × (manifest.planned_points
        ≡ manifest.executed_points + manifest.preflight_failed_points + manifest.cancelled_points
          + manifest.not_started_points)
    × (length (loop_state whole env sweep_plan).summaries ≡ manifest.executed_points)
manifest_accounts_example =
    manifest_accounts whole env sweep_plan (101 ∷ []) (pos 1) (pos 2) parse machine sweep_config
      sweep_planned

successful_iff_example : (successful whole manifest ≡ true) ↔ (
    (is_completed_experiment whole manifest.status ≡ true)
    × (sum_by (completed_record whole) (loop_state whole env sweep_plan).records
        ≡ length sweep_plan.points))
successful_iff_example = successful_iff whole env sweep_plan (101 ∷ []) (pos 1) (pos 2)

completed_whole_example :
    (manifest.complete ≡ true) × (manifest.not_started_points ≡ 0) × (manifest.cancelled_points ≡ 0)
completed_whole_example =
    completed_whole whole env sweep_plan (101 ∷ []) (pos 1) (pos 2) sweep_completed
