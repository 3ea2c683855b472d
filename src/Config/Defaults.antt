-- ===== src/Config/Defaults.antt =====
-- `Default`.
use llm_serving_performance.Prelude.Int.{pos}
use llm_serving_performance.Prelude.{[], false, none, ◌∷◌}
use llm_serving_performance.Floats.{Floats, zero_float}
use llm_serving_performance.Config.Types.{
  BenchmarkFields, Config, WorkloadFields, other_adapter, prompt_mode, timing_disabled,
}
use llm_serving_performance.Benchmark.Types.{closed_loop}

abbrev nothing_supplied : WorkloadFields
nothing_supplied = record {
  mode_given = false;
  input_tokens_given = false;
  tokenizer_adapter_given = false;
  tokenizer_url_given = false;
  prompt_given = false;
}

abbrev no_benchmark_fields : BenchmarkFields
no_benchmark_fields = record {
  mode_given = false;
  concurrency_given = false;
  requests_given = false;
  request_rate_given = false;
  duration_given = false;
  max_in_flight_given = false;
  open_loop_block = false;
}

module _ (fl : Floats) where
  unfoldable pub default_config : Config fl
  default_config = record {
    version = pos 1;
    endpoint = record { base_url = []; api_key_env = []; model = [] };
    request = record { prompt = []; max_output_tokens = pos 64; temperature = zero_float fl };
    workload = record {
      mode = prompt_mode;
      input_tokens = pos 0;
      adapter = other_adapter [];
      tokenizer_url = [];
      supplied = nothing_supplied;
    };
    runtime = record { timeout = pos 120000000000; drain_timeout = pos 120000000000 };
    output_dir = 114 ∷ 117 ∷ 110 ∷ 115 ∷ [];
    benchmark = record {
      mode = closed_loop;
      concurrency = pos 1;
      requests = pos 1;
      warmup_requests = pos 0;
      open_loop = record { request_rate = zero_float fl; duration = pos 0; max_in_flight = pos 0 };
      token_timing = timing_disabled;
      slo = record { ttft = none; tpot = none; e2e = none };
      safety = record {
        max_concurrency = pos 256;
        max_requests = pos 10000;
        max_request_rate = fl.of_int (pos 10000);
        max_in_flight = pos 256;
        max_input_tokens = pos 131072;
        max_output_tokens = pos 32768;
      };
      supplied = no_benchmark_fields;
    };
    experiment = record {
      concurrency_values = [];
      request_rate_values = [];
      input_token_values = [];
      output_token_values = [];
      max_points = pos 64;
    };
  }
