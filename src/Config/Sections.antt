-- ===== src/Config/Sections.antt =====
-- Each section of the validation accepts exactly what it should.
use llm_serving_performance.Prelude.Int.{int_laws, ltb_ℤ, max_int64, pos, ◌+ℤ◌, ◌-ℤ◌, ◌≤ℤ◌, ℤ}
use llm_serving_performance.Prelude.{refl, ◌↔◌, Option, arith, false, none, some, ◌≡◌}
use llm_serving_performance.Config.Validate.{
  validate_load, bad_duration, validate_endpoint, validate_limits, validate_slo, validate_tokens,
  validate_workload,
}
use llm_serving_performance.Config.Valid.{
  HasClosedLoad, HasLoad, HasOpenLoad, HasWorkload, HasEndpoint, HasLimits, HasPrompt, HasTarget,
  HasThresholds, HasTokens, IsThreshold,
}
use llm_serving_performance.Config.Types.{
  BenchmarkConfig, WorkloadMode, other_workload, Config, prompt_mode, token_length_mode,
}
use llm_serving_performance.Benchmark.Types.{
  LoadMode, closed_loop, open_loop, other_mode, unset_mode,
}
use llm_serving_performance.Prelude.Results.{ok}
use llm_serving_performance.Config.Plain.{validate_base_url_iff}
use llm_serving_performance.Floats.{Floats}
use llm_serving_performance.Config.Text.{Text, Url}

module _ (fl : Floats) (parse : Text → Option Url) (c : Config fl) where
  pub tokens_sound : validate_tokens fl parse c ≡ ok tt → HasTokens fl parse c
  unfolding validate_tokens
  tokens_sound h = record {
    output_low = ground arith;
    output_high = ground arith;
    input_ceiling = ground arith;
    timing = ground arith;
  }

  pub tokens_complete : HasTokens fl parse c → validate_tokens fl parse c ≡ ok tt
  unfolding validate_tokens
  tokens_complete v = ground (arith, v.output_low, v.output_high, v.input_ceiling, v.timing)

  pub endpoint_sound : validate_endpoint fl parse c ≡ ok tt → HasEndpoint fl parse c
  unfolding validate_endpoint
  endpoint_sound h = record {
    version_one = ground arith;
    url_given = ground arith;
    url_valid = (validate_base_url_iff parse c.endpoint.base_url).0 (ground arith);
    key_valid = ground arith;
    model_given = ground arith;
  }

  pub endpoint_complete : HasEndpoint fl parse c → validate_endpoint fl parse c ≡ ok tt
  unfolding validate_endpoint
  endpoint_complete v = ground (
    arith,
    v.version_one,
    v.url_given,
    (validate_base_url_iff parse c.endpoint.base_url).1 v.url_valid,
    v.key_valid,
    v.model_given,
  )

  pub slo_sound : validate_slo fl parse c ≡ ok tt → HasThresholds fl parse c.benchmark.slo
  unfolding validate_slo
  slo_sound h = record {
    ttft_positive = threshold c.benchmark.slo.ttft (ground arith);
    tpot_positive = threshold c.benchmark.slo.tpot (ground arith);
    e2e_positive = threshold c.benchmark.slo.e2e (ground arith);
  }
    where
      threshold : (d : Option ℤ) → bad_duration d ≡ false → IsThreshold d
      threshold none e = tt
      threshold (some d) e = ground arith

  prompt_sound : validate_workload fl parse prompt_mode c ≡ ok tt → HasPrompt fl parse c
  unfolding validate_workload
  prompt_sound h = record {
    prompt_given = ground arith;
    no_input_tokens = ground arith;
    no_adapter = ground arith;
    no_url = ground arith;
  }

  target_sound : validate_workload fl parse token_length_mode c ≡ ok tt → HasTarget fl parse c
  unfolding validate_workload
  target_sound h = record {
    no_prompt = ground arith;
    input_low = ground arith;
    input_high = ground arith;
    adapter_vllm = ground arith;
    tokenizer_given = ground arith;
    tokenizer_valid = (validate_base_url_iff parse c.workload.tokenizer_url).0 (ground arith);
    total_fits = total_within (ground arith);
  }
    where
      total_within :
          ltb_ℤ (pos max_int64 -ℤ c.request.max_output_tokens) c.workload.input_tokens ≡ false
          → c.workload.input_tokens +ℤ c.request.max_output_tokens ≤ℤ pos max_int64
      total_within e =
          let below : c.workload.input_tokens ≤ℤ pos max_int64 -ℤ c.request.max_output_tokens =
            ground arith in
          omega (int_laws, below)

  pub limits_sound : validate_limits fl parse c ≡ ok tt → HasLimits fl parse c
  unfolding validate_limits
  limits_sound h = record {
    temperature_finite = ground arith;
    temperature_low = ground arith;
    timeout_positive = ground arith;
    drain_positive = ground arith;
    output_dir_given = ground arith;
    warmup_low = ground arith;
    concurrency_ceiling = ground arith;
    request_ceiling = ground arith;
    rate_ceiling = ground arith;
    in_flight_ceiling = ground arith;
  }

  pub slo_complete : HasThresholds fl parse c.benchmark.slo → validate_slo fl parse c ≡ ok tt
  unfolding validate_slo
  slo_complete v =
      rw
        (
          threshold c.benchmark.slo.ttft v.ttft_positive,
          threshold c.benchmark.slo.tpot v.tpot_positive,
          threshold c.benchmark.slo.e2e v.e2e_positive,
        )
        refl
    where
      threshold : (d : Option ℤ) → IsThreshold d → bad_duration d ≡ false
      threshold none v = refl
      threshold (some d) v = ground arith

  prompt_complete : HasPrompt fl parse c → validate_workload fl parse prompt_mode c ≡ ok tt
  unfolding validate_workload
  prompt_complete v = ground (arith, v.prompt_given, v.no_input_tokens, v.no_adapter, v.no_url)

  target_complete : HasTarget fl parse c → validate_workload fl parse token_length_mode c ≡ ok tt
  unfolding validate_workload
  target_complete v =
      let below : c.workload.input_tokens ≤ℤ pos max_int64 -ℤ c.request.max_output_tokens =
        omega (int_laws, v.total_fits) in
      ground (
        arith,
        below,
        v.no_prompt,
        v.input_low,
        v.input_high,
        v.adapter_vllm,
        v.tokenizer_given,
        (validate_base_url_iff parse c.workload.tokenizer_url).1 v.tokenizer_valid,
      )

  pub limits_complete : HasLimits fl parse c → validate_limits fl parse c ≡ ok tt
  unfolding validate_limits
  limits_complete v = ground (
    arith, v.temperature_finite, v.temperature_low, v.timeout_positive, v.drain_positive,
    v.output_dir_given, v.warmup_low, v.concurrency_ceiling, v.request_ceiling, v.rate_ceiling,
    v.in_flight_ceiling,
  )

  pub workload_iff :
      (m : WorkloadMode) → (validate_workload fl parse m c ≡ ok tt) ↔ HasWorkload fl parse m c
  unfolding validate_workload
  workload_iff prompt_mode = (prompt_sound, prompt_complete)
  workload_iff token_length_mode = (target_sound, target_complete)
  workload_iff (other_workload t) = (λ h. cc, λ v. absurd v)

module _ (fl : Floats) (parse : Text → Option Url) (b : BenchmarkConfig fl) where
  closed_sound : validate_load fl parse closed_loop b ≡ ok tt → HasClosedLoad fl parse b
  unfolding validate_load
  closed_sound h = record {
    no_open_block = ground arith;
    concurrency_low = ground arith;
    requests_low = ground arith;
  }

  open_sound : validate_load fl parse open_loop b ≡ ok tt → HasOpenLoad fl parse b
  unfolding validate_load
  open_sound h = record {
    no_concurrency = ground arith;
    no_requests = ground arith;
    rate_positive = ground arith;
    duration_positive = ground arith;
    in_flight_low = ground arith;
  }

  pub load_iff : (m : LoadMode) → (validate_load fl parse m b ≡ ok tt) ↔ HasLoad fl parse m b
  unfolding validate_load
  load_iff closed_loop =
      (closed_sound, λ v. ground (arith, v.no_open_block, v.concurrency_low, v.requests_low))
  load_iff open_loop = (
    open_sound,
    λ v. ground (
      arith, v.no_concurrency, v.no_requests, v.rate_positive, v.duration_positive, v.in_flight_low,
    ),
  )
  load_iff unset_mode = (λ h. cc, λ v. absurd v)
  load_iff (other_mode s) = (λ h. cc, λ v. absurd v)
