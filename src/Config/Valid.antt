-- ===== src/Config/Valid.antt =====
-- What a configuration that validates satisfies, section by section.
use llm_serving_performance.Prelude.{[], ◌⊎◌, ◌||◌, Option, false, none, some, true, ◌≡◌}
use llm_serving_performance.Floats.{not_finite, zero_float, Floats, not_positive}
use llm_serving_performance.Config.Text.{
  is_empty_text, is_environment_name, Text, Url, is_blank, http, https,
}
use llm_serving_performance.Prelude.Int.{max_int64, pos, ℤ, ◌+ℤ◌, ◌<ℤ◌, ◌≤ℤ◌}
use llm_serving_performance.Config.Validate.{is_known_timing}
use llm_serving_performance.Config.Types.{
  BenchmarkConfig, Config, SloDurations, WorkloadMode, other_workload, prompt_mode,
  token_length_mode, vllm_adapter,
}
use llm_serving_performance.Benchmark.Types.{LoadMode, closed_loop, open_loop}

abbrev pub IsThreshold : Option ℤ → Type 0
IsThreshold none = Unit {0}
IsThreshold (some d) = pos 0 <ℤ d

-- A URL of the web with a host, and nothing else but a path.
pub record IsPlain (url : Url) : Type 0 where
  pub web_scheme : (url.scheme ≡ http) ⊎ (url.scheme ≡ https)
  pub has_host : ¬ (url.host ≡ [])
  pub without_user : url.has_user ≡ false
  pub without_query : url.raw_query ≡ []
  pub without_fragment : url.fragment ≡ []

abbrev pub IsPlainUrl : Option Url → Type 0
IsPlainUrl none = ⊥
IsPlainUrl (some url) = IsPlain url

module _ (fl : Floats) (parse : Text → Option Url) where
  open fl use {lt}

  -- A server with a name of its model, reached through a plain URL.
  pub record HasEndpoint (c : Config fl) : Type 0 where
    pub version_one : c.version ≡ pos 1
    pub url_given : is_blank c.endpoint.base_url ≡ false
    pub url_valid : IsPlainUrl (parse c.endpoint.base_url)
    pub key_valid :
        (is_empty_text c.endpoint.api_key_env || is_environment_name c.endpoint.api_key_env) ≡ true
    pub model_given : is_blank c.endpoint.model ≡ false

  -- The tokens of a request within their ceilings.
  pub record HasTokens (c : Config fl) : Type 0 where
    pub output_low : pos 0 <ℤ c.request.max_output_tokens
    pub output_high : c.request.max_output_tokens ≤ℤ c.benchmark.safety.max_output_tokens
    pub input_ceiling : pos 0 <ℤ c.benchmark.safety.max_input_tokens
    pub timing : is_known_timing c.benchmark.token_timing ≡ true

  pub record HasThresholds (s : SloDurations) : Type 0 where
    pub ttft_positive : IsThreshold s.ttft
    pub tpot_positive : IsThreshold s.tpot
    pub e2e_positive : IsThreshold s.e2e

  pub record HasPrompt (c : Config fl) : Type 0 where
    pub prompt_given : is_blank c.request.prompt ≡ false
    pub no_input_tokens : c.workload.supplied.input_tokens_given ≡ false
    pub no_adapter : c.workload.supplied.tokenizer_adapter_given ≡ false
    pub no_url : c.workload.supplied.tokenizer_url_given ≡ false

  -- A target of tokens, within 64 bits together with the output.
  pub record HasTarget (c : Config fl) : Type 0 where
    pub no_prompt : c.workload.supplied.prompt_given ≡ false
    pub input_low : pos 0 <ℤ c.workload.input_tokens
    pub input_high : c.workload.input_tokens ≤ℤ c.benchmark.safety.max_input_tokens
    pub adapter_vllm : c.workload.adapter ≡ vllm_adapter
    pub tokenizer_given : is_blank c.workload.tokenizer_url ≡ false
    pub tokenizer_valid : IsPlainUrl (parse c.workload.tokenizer_url)
    pub total_fits : c.workload.input_tokens +ℤ c.request.max_output_tokens ≤ℤ pos max_int64

  -- The workload that its mode asks for.
  abbrev pub HasWorkload : WorkloadMode → Config fl → Type 0
  HasWorkload prompt_mode c = HasPrompt c
  HasWorkload token_length_mode c = HasTarget c
  HasWorkload (other_workload _) c = ⊥

  pub record HasLimits (c : Config fl) : Type 0 where
    pub temperature_finite : not_finite fl c.request.temperature ≡ false
    pub temperature_low : lt c.request.temperature (zero_float fl) ≡ false
    pub timeout_positive : pos 0 <ℤ c.runtime.timeout
    pub drain_positive : pos 0 <ℤ c.runtime.drain_timeout
    pub output_dir_given : is_blank c.output_dir ≡ false
    pub warmup_low : pos 0 ≤ℤ c.benchmark.warmup_requests
    pub concurrency_ceiling : pos 0 <ℤ c.benchmark.safety.max_concurrency
    pub request_ceiling : pos 0 <ℤ c.benchmark.safety.max_requests
    pub rate_ceiling : not_positive fl c.benchmark.safety.max_request_rate ≡ false
    pub in_flight_ceiling : pos 0 <ℤ c.benchmark.safety.max_in_flight

  pub record HasClosedLoad (b : BenchmarkConfig fl) : Type 0 where
    pub no_open_block : b.supplied.open_loop_block ≡ false
    pub concurrency_low : pos 0 <ℤ b.concurrency
    pub requests_low : pos 0 <ℤ b.requests

  pub record HasOpenLoad (b : BenchmarkConfig fl) : Type 0 where
    pub no_concurrency : b.supplied.concurrency_given ≡ false
    pub no_requests : b.supplied.requests_given ≡ false
    pub rate_positive : not_positive fl b.open_loop.request_rate ≡ false
    pub duration_positive : pos 0 <ℤ b.open_loop.duration
    pub in_flight_low : pos 0 <ℤ b.open_loop.max_in_flight

  -- The load that its mode asks for, with no setting of the other mode.
  abbrev pub HasLoad : LoadMode → BenchmarkConfig fl → Type 0
  HasLoad closed_loop b = HasClosedLoad b
  HasLoad open_loop b = HasOpenLoad b
  HasLoad _ b = ⊥

  pub record IsValidConfig (c : Config fl) : Type 0 where
    pub endpoint : HasEndpoint c
    pub tokens : HasTokens c
    pub thresholds : HasThresholds c.benchmark.slo
    pub workload : HasWorkload c.workload.mode c
    pub limits : HasLimits c
    pub load : HasLoad c.benchmark.mode c.benchmark
