-- ===== src/Config/Types.antt =====
-- The records of a configuration. Durations are nanoseconds. A `…Fields` record tells which fields
-- were supplied.
use llm_serving_performance.Prelude.Int.{ℤ}
use llm_serving_performance.Prelude.{Bool, List, Option}
use llm_serving_performance.Floats.{Floats}
use llm_serving_performance.Config.Text.{Text}
use llm_serving_performance.Benchmark.Types.{LoadMode}

pub data WorkloadMode : Type 0 where
  prompt_mode token_length_mode : WorkloadMode
  other_workload : Text → WorkloadMode

pub data TokenizerAdapter : Type 0 where
  vllm_adapter : TokenizerAdapter
  other_adapter : Text → TokenizerAdapter

pub data TokenTimingMode : Type 0 where
  timing_disabled timing_vllm : TokenTimingMode
  other_timing : Text → TokenTimingMode

pub record Endpoint : Type 0 where
  pub base_url : Text
  pub api_key_env : Text
  pub model : Text

pub record WorkloadFields : Type 0 where
  pub mode_given : Bool
  pub input_tokens_given : Bool
  pub tokenizer_adapter_given : Bool
  pub tokenizer_url_given : Bool
  pub prompt_given : Bool

pub record Workload : Type 0 where
  pub mode : WorkloadMode
  pub input_tokens : ℤ
  pub adapter : TokenizerAdapter
  pub tokenizer_url : Text
  pub supplied : WorkloadFields

pub record Runtime : Type 0 where
  pub timeout : ℤ
  pub drain_timeout : ℤ

pub record BenchmarkFields : Type 0 where
  pub mode_given : Bool
  pub concurrency_given : Bool
  pub requests_given : Bool
  pub request_rate_given : Bool
  pub duration_given : Bool
  pub max_in_flight_given : Bool
  pub open_loop_block : Bool

pub record SloDurations : Type 0 where
  pub ttft : Option ℤ
  pub tpot : Option ℤ
  pub e2e : Option ℤ

module _ (fl : Floats) where
  open fl use {Float}

  pub record RequestConfig : Type 0 where
    pub prompt : Text
    pub max_output_tokens : ℤ
    pub temperature : Float

  pub record OpenLoopConfig : Type 0 where
    pub request_rate : Float
    pub duration : ℤ
    pub max_in_flight : ℤ

  pub record Safety : Type 0 where
    pub max_concurrency : ℤ
    pub max_requests : ℤ
    pub max_request_rate : Float
    pub max_in_flight : ℤ
    pub max_input_tokens : ℤ
    pub max_output_tokens : ℤ

  pub record BenchmarkConfig : Type 0 where
    pub mode : LoadMode
    pub concurrency : ℤ
    pub requests : ℤ
    pub warmup_requests : ℤ
    pub open_loop : OpenLoopConfig
    pub token_timing : TokenTimingMode
    pub slo : SloDurations
    pub safety : Safety
    pub supplied : BenchmarkFields

  pub record ExperimentConfig : Type 0 where
    pub concurrency_values : List ℤ
    pub request_rate_values : List Float
    pub input_token_values : List ℤ
    pub output_token_values : List ℤ
    pub max_points : ℤ

  pub record Config : Type 0 where
    pub version : ℤ
    pub endpoint : Endpoint
    pub request : RequestConfig
    pub workload : Workload
    pub runtime : Runtime
    pub output_dir : Text
    pub benchmark : BenchmarkConfig
    pub experiment : ExperimentConfig

  -- The values given on the command line; `none` is a nil pointer.
  pub record Overrides : Type 0 where
    pub base_url : Option Text
    pub api_key_env : Option Text
    pub model : Option Text
    pub prompt : Option Text
    pub workload_mode : Option WorkloadMode
    pub input_tokens : Option ℤ
    pub tokenizer_adapter : Option TokenizerAdapter
    pub tokenizer_url : Option Text
    pub max_output_tokens : Option ℤ
    pub temperature : Option Float
    pub timeout : Option ℤ
    pub output_dir : Option Text
    pub concurrency : Option ℤ
    pub requests : Option ℤ
    pub max_concurrency : Option ℤ
    pub max_requests : Option ℤ
    pub warmup_requests : Option ℤ
    pub drain_timeout : Option ℤ
    pub mode : Option LoadMode
    pub request_rate : Option Float
    pub duration : Option ℤ
    pub max_in_flight : Option ℤ
    pub max_request_rate : Option Float
    pub max_in_flight_ceiling : Option ℤ
    pub max_input_tokens : Option ℤ
    pub max_output_tokens_ceiling : Option ℤ
    pub token_timing_mode : Option TokenTimingMode
    pub slo_ttft : Option ℤ
    pub slo_tpot : Option ℤ
    pub slo_e2e : Option ℤ
