-- ===== src/Config/Validate.antt =====
-- `Validate`, in the order of its tests. The parser of URLs is a parameter.
use llm_serving_performance.Prelude.Results.{err, Result, refuse_if, wrap_err, ◌>>◌}
use llm_serving_performance.Prelude.Int.{eqb_ℤ, leb_ℤ, ltb_ℤ, max_int64, pos, ℤ, ◌-ℤ◌}
use llm_serving_performance.Prelude.{Bool, Option, false, none, not, some, true, ◌&&◌, ◌||◌}
use llm_serving_performance.Floats.{Floats, not_finite, not_positive, zero_float}
use llm_serving_performance.Config.Types.{
  BenchmarkConfig, Config, TokenTimingMode, TokenizerAdapter, WorkloadMode, other_adapter,
  other_timing, other_workload, prompt_mode, timing_disabled, timing_vllm, token_length_mode,
  vllm_adapter,
}
use llm_serving_performance.Config.Text.{
  Text, Url, UrlErr, is_blank, is_empty_text, is_environment_name, validate_base_url,
}
use llm_serving_performance.Benchmark.Types.{LoadMode, closed_loop, open_loop}

pub data ConfigErr : Type 0 where
  bad_version no_base_url bad_key_env no_model : ConfigErr
  bad_base_url bad_tokenizer_url : UrlErr → ConfigErr
  output_not_positive input_ceiling_not_positive output_ceiling_not_positive : ConfigErr
  output_exceeds_ceiling bad_token_timing ttft_not_positive tpot_not_positive : ConfigErr
  e2e_not_positive token_settings_in_prompt_mode no_prompt prompt_in_token_mode : ConfigErr
  input_not_positive input_exceeds_ceiling bad_adapter no_tokenizer_url : ConfigErr
  token_total_overflows bad_workload_mode bad_temperature timeout_not_positive : ConfigErr
  drain_not_positive no_output_dir warmup_negative concurrency_ceiling_not_positive : ConfigErr
  request_ceiling_not_positive bad_rate_ceiling in_flight_ceiling_not_positive : ConfigErr
  open_loop_in_closed_mode concurrency_not_positive requests_not_positive : ConfigErr
  closed_loop_in_open_mode bad_rate duration_not_positive in_flight_not_positive : ConfigErr
  bad_load_mode : ConfigErr

abbrev pub is_known_timing : TokenTimingMode → Bool
is_known_timing timing_disabled = true
is_known_timing timing_vllm = true
is_known_timing (other_timing _) = false

-- A threshold that is set and not positive.
abbrev pub bad_duration : Option ℤ → Bool
bad_duration none = false
bad_duration (some d) = leb_ℤ d (pos 0)

abbrev pub is_vllm : TokenizerAdapter → Bool
is_vllm vllm_adapter = true
is_vllm (other_adapter _) = false

module _ (fl : Floats) (parse : Text → Option Url) where
  open fl use {lt}

  unfoldable pub validate_endpoint : Config fl → Result ConfigErr (Unit {0})
  validate_endpoint c = do
    refuse_if (not (eqb_ℤ c.version (pos 1))) bad_version
    refuse_if (is_blank c.endpoint.base_url) no_base_url
    wrap_err bad_base_url (validate_base_url parse c.endpoint.base_url)
    refuse_if
        (not (is_empty_text c.endpoint.api_key_env)
          && not (is_environment_name c.endpoint.api_key_env))
        bad_key_env
    refuse_if (is_blank c.endpoint.model) no_model

  unfoldable pub validate_tokens : Config fl → Result ConfigErr (Unit {0})
  validate_tokens c = do
    refuse_if (leb_ℤ c.request.max_output_tokens (pos 0)) output_not_positive
    refuse_if (leb_ℤ c.benchmark.safety.max_input_tokens (pos 0)) input_ceiling_not_positive
    refuse_if (leb_ℤ c.benchmark.safety.max_output_tokens (pos 0)) output_ceiling_not_positive
    refuse_if (ltb_ℤ c.benchmark.safety.max_output_tokens c.request.max_output_tokens)
        output_exceeds_ceiling
    refuse_if (not (is_known_timing c.benchmark.token_timing)) bad_token_timing

  -- The loop over the three thresholds.
  unfoldable pub validate_slo : Config fl → Result ConfigErr (Unit {0})
  validate_slo c = do
    refuse_if (bad_duration c.benchmark.slo.ttft) ttft_not_positive
    refuse_if (bad_duration c.benchmark.slo.tpot) tpot_not_positive
    refuse_if (bad_duration c.benchmark.slo.e2e) e2e_not_positive

  validate_prompt : Config fl → Result ConfigErr (Unit {0})
  validate_prompt c = do
    refuse_if
        (c.workload.supplied.input_tokens_given
          || (c.workload.supplied.tokenizer_adapter_given
              || c.workload.supplied.tokenizer_url_given))
        token_settings_in_prompt_mode
    refuse_if (is_blank c.request.prompt) no_prompt

  -- The number of output tokens is positive here, so that the subtraction does not wrap.
  validate_token_length : Config fl → Result ConfigErr (Unit {0})
  validate_token_length c = do
    refuse_if c.workload.supplied.prompt_given prompt_in_token_mode
    refuse_if (leb_ℤ c.workload.input_tokens (pos 0)) input_not_positive
    refuse_if (ltb_ℤ c.benchmark.safety.max_input_tokens c.workload.input_tokens)
        input_exceeds_ceiling
    refuse_if (not (is_vllm c.workload.adapter)) bad_adapter
    refuse_if (is_blank c.workload.tokenizer_url) no_tokenizer_url
    wrap_err bad_tokenizer_url (validate_base_url parse c.workload.tokenizer_url)
    refuse_if (ltb_ℤ (pos max_int64 -ℤ c.request.max_output_tokens) c.workload.input_tokens)
        token_total_overflows

  unfoldable pub validate_workload : WorkloadMode → Config fl → Result ConfigErr (Unit {0})
  unfolding validate_prompt validate_token_length
  validate_workload prompt_mode c = validate_prompt c
  validate_workload token_length_mode c = validate_token_length c
  validate_workload (other_workload _) c = err bad_workload_mode

  unfoldable pub validate_limits : Config fl → Result ConfigErr (Unit {0})
  validate_limits c = do
    refuse_if (not_finite fl c.request.temperature || lt c.request.temperature (zero_float fl))
        bad_temperature
    refuse_if (leb_ℤ c.runtime.timeout (pos 0)) timeout_not_positive
    refuse_if (leb_ℤ c.runtime.drain_timeout (pos 0)) drain_not_positive
    refuse_if (is_blank c.output_dir) no_output_dir
    refuse_if (ltb_ℤ c.benchmark.warmup_requests (pos 0)) warmup_negative
    refuse_if (leb_ℤ c.benchmark.safety.max_concurrency (pos 0)) concurrency_ceiling_not_positive
    refuse_if (leb_ℤ c.benchmark.safety.max_requests (pos 0)) request_ceiling_not_positive
    refuse_if (not_positive fl c.benchmark.safety.max_request_rate) bad_rate_ceiling
    refuse_if (leb_ℤ c.benchmark.safety.max_in_flight (pos 0)) in_flight_ceiling_not_positive

  unfoldable pub validate_load : LoadMode → BenchmarkConfig fl → Result ConfigErr (Unit {0})
  validate_load closed_loop b = do
    refuse_if b.supplied.open_loop_block open_loop_in_closed_mode
    refuse_if (leb_ℤ b.concurrency (pos 0)) concurrency_not_positive
    refuse_if (leb_ℤ b.requests (pos 0)) requests_not_positive
  validate_load open_loop b = do
    refuse_if (b.supplied.concurrency_given || b.supplied.requests_given) closed_loop_in_open_mode
    refuse_if (not_positive fl b.open_loop.request_rate) bad_rate
    refuse_if (leb_ℤ b.open_loop.duration (pos 0)) duration_not_positive
    refuse_if (leb_ℤ b.open_loop.max_in_flight (pos 0)) in_flight_not_positive
  validate_load _ b = err bad_load_mode

  unfoldable pub validate : Config fl → Result ConfigErr (Unit {0})
  unfolding validate_endpoint validate_tokens validate_slo validate_workload validate_limits
      validate_load
  validate c = do
    validate_endpoint c
    validate_tokens c
    validate_slo c
    validate_workload c.workload.mode c
    validate_limits c
    validate_load c.benchmark.mode c.benchmark
