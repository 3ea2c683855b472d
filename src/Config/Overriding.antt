-- ===== src/Config/Overriding.antt =====
-- `ApplyOverrides`: the values of a command line over a configuration.
use llm_serving_performance.Prelude.{Bool, Option, false, none, some, true, ◌||◌}
use llm_serving_performance.Floats.{Floats}
use llm_serving_performance.Config.Types.{
  BenchmarkConfig, BenchmarkFields, Config, Overrides, RequestConfig, Safety, Workload,
}

-- A value given on the command line takes the place of the field.
abbrev pub given {ℓ} : {A : Type ℓ} → Option A → A → A
given none old = old
given (some new) old = new

abbrev pub is_given {ℓ} : {A : Type ℓ} → Option A → Bool
is_given none = false
is_given (some _) = true

-- An optional field keeps its value, or takes the one that is given.
abbrev pub given_option {ℓ} : {A : Type ℓ} → Option A → Option A → Option A
given_option none old = old
given_option (some new) old = some new

module _ (fl : Floats) where
  unfoldable pub override_request : RequestConfig fl → Overrides fl → RequestConfig fl
  override_request r o = record {
    prompt = given o.prompt r.prompt;
    max_output_tokens = given o.max_output_tokens r.max_output_tokens;
    temperature = given o.temperature r.temperature;
  }

  unfoldable pub override_workload : Workload → Overrides fl → Workload
  override_workload w o = record {
    mode = given o.workload_mode w.mode;
    input_tokens = given o.input_tokens w.input_tokens;
    adapter = given o.tokenizer_adapter w.adapter;
    tokenizer_url = given o.tokenizer_url w.tokenizer_url;
    supplied = record {
      mode_given = is_given o.workload_mode || w.supplied.mode_given;
      input_tokens_given = is_given o.input_tokens || w.supplied.input_tokens_given;
      tokenizer_adapter_given = is_given o.tokenizer_adapter || w.supplied.tokenizer_adapter_given;
      tokenizer_url_given = is_given o.tokenizer_url || w.supplied.tokenizer_url_given;
      prompt_given = is_given o.prompt || w.supplied.prompt_given;
    };
  }

  unfoldable pub override_safety : Safety fl → Overrides fl → Safety fl
  override_safety s o = record {
    max_concurrency = given o.max_concurrency s.max_concurrency;
    max_requests = given o.max_requests s.max_requests;
    max_request_rate = given o.max_request_rate s.max_request_rate;
    max_in_flight = given o.max_in_flight_ceiling s.max_in_flight;
    max_input_tokens = given o.max_input_tokens s.max_input_tokens;
    max_output_tokens = given o.max_output_tokens_ceiling s.max_output_tokens;
  }

  unfoldable pub override_supplied : BenchmarkFields → Overrides fl → BenchmarkFields
  override_supplied f o = record {
    mode_given = is_given o.mode || f.mode_given;
    concurrency_given = is_given o.concurrency || f.concurrency_given;
    requests_given = is_given o.requests || f.requests_given;
    request_rate_given = is_given o.request_rate || f.request_rate_given;
    duration_given = is_given o.duration || f.duration_given;
    max_in_flight_given = is_given o.max_in_flight || f.max_in_flight_given;
    open_loop_block =
        ((is_given o.request_rate || is_given o.duration) || is_given o.max_in_flight)
        || f.open_loop_block;
  }

  unfoldable pub override_benchmark : BenchmarkConfig fl → Overrides fl → BenchmarkConfig fl
  unfolding override_safety override_supplied
  override_benchmark b o = record {
    mode = given o.mode b.mode;
    concurrency = given o.concurrency b.concurrency;
    requests = given o.requests b.requests;
    warmup_requests = given o.warmup_requests b.warmup_requests;
    open_loop = record {
      request_rate = given o.request_rate b.open_loop.request_rate;
      duration = given o.duration b.open_loop.duration;
      max_in_flight = given o.max_in_flight b.open_loop.max_in_flight;
    };
    token_timing = given o.token_timing_mode b.token_timing;
    slo = record {
      ttft = given_option o.slo_ttft b.slo.ttft;
      tpot = given_option o.slo_tpot b.slo.tpot;
      e2e = given_option o.slo_e2e b.slo.e2e;
    };
    safety = override_safety b.safety o;
    supplied = override_supplied b.supplied o;
  }

  unfoldable pub apply_overrides : Config fl → Overrides fl → Config fl
  unfolding override_request override_workload override_benchmark
  apply_overrides c o = record {
    version = c.version;
    endpoint = record {
      base_url = given o.base_url c.endpoint.base_url;
      api_key_env = given o.api_key_env c.endpoint.api_key_env;
      model = given o.model c.endpoint.model;
    };
    request = override_request c.request o;
    workload = override_workload c.workload o;
    runtime = record {
      timeout = given o.timeout c.runtime.timeout;
      drain_timeout = given o.drain_timeout c.runtime.drain_timeout;
    };
    output_dir = given o.output_dir c.output_dir;
    benchmark = override_benchmark c.benchmark o;
    experiment = c.experiment;
  }
