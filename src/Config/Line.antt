-- ===== src/Config/Line.antt =====
-- What a command line with sane values is.
use llm_serving_performance.Config.Validate.{is_known_timing}
use llm_serving_performance.Config.Text.{is_empty_text, is_environment_name, Text, is_blank}
use llm_serving_performance.Prelude.Int.{pos, ℤ, ◌<ℤ◌, ◌≤ℤ◌}
use llm_serving_performance.Prelude.{Option, false, none, some, true, ◌||◌, ◌≡◌}
use llm_serving_performance.Floats.{Floats, not_positive, zero_float}
use llm_serving_performance.Config.Types.{
  Overrides, WorkloadMode, other_workload, prompt_mode, token_length_mode, vllm_adapter,
}
use llm_serving_performance.Benchmark.Types.{LoadMode, closed_loop, open_loop}

-- What is asked of a value, if it is given.
abbrev pub IfGiven {ℓ} : {A : Type ℓ} → (A → Type 0) → Option A → Type 0
IfGiven P none = Unit {0}
IfGiven P (some a) = P a

abbrev pub Positive : ℤ → Type 0
Positive n = pos 0 <ℤ n

abbrev pub NotBlank : Text → Type 0
NotBlank t = is_blank t ≡ false

module _ (fl : Floats) where
  -- No value of the other load, and only positive values of this one.
  abbrev pub HasLoadLine : LoadMode → Overrides fl → Type 0
  HasLoadLine closed_loop o =
      ((o.request_rate ≡ none) × (o.duration ≡ none) × (o.max_in_flight ≡ none))
      × (IfGiven Positive o.concurrency × IfGiven Positive o.requests)
  HasLoadLine open_loop o =
      ((o.concurrency ≡ none) × (o.requests ≡ none))
      × (IfGiven (λ x. not_positive fl x ≡ false) o.request_rate
          × (IfGiven Positive o.duration × IfGiven Positive o.max_in_flight))
  HasLoadLine _ o = ⊥

  -- No value of the other workload, and values that this one can use.
  abbrev pub HasWorkloadLine : WorkloadMode → Overrides fl → Type 0
  HasWorkloadLine prompt_mode o =
      ((o.input_tokens ≡ none) × (o.tokenizer_adapter ≡ none) × (o.tokenizer_url ≡ none))
      × IfGiven NotBlank o.prompt
  HasWorkloadLine token_length_mode o =
      (o.prompt ≡ none)
      × (IfGiven Positive o.input_tokens
          × (IfGiven (λ a. a ≡ vllm_adapter) o.tokenizer_adapter
              × IfGiven NotBlank o.tokenizer_url))
  HasWorkloadLine (other_workload _) o = ⊥

  -- A command line with no value.
  abbrev pub nothing_given : Overrides fl
  nothing_given = record {
    base_url = none;
    api_key_env = none;
    model = none;
    prompt = none;
    workload_mode = none;
    input_tokens = none;
    tokenizer_adapter = none;
    tokenizer_url = none;
    max_output_tokens = none;
    temperature = none;
    timeout = none;
    output_dir = none;
    concurrency = none;
    requests = none;
    max_concurrency = none;
    max_requests = none;
    warmup_requests = none;
    drain_timeout = none;
    mode = none;
    request_rate = none;
    duration = none;
    max_in_flight = none;
    max_request_rate = none;
    max_in_flight_ceiling = none;
    max_input_tokens = none;
    max_output_tokens_ceiling = none;
    token_timing_mode = none;
    slo_ttft = none;
    slo_tpot = none;
    slo_e2e = none;
  }

  pub record IsSaneLine (workload : WorkloadMode) (load : LoadMode) (o : Overrides fl)
      : Type 0 where
    pub base_url : IfGiven NotBlank o.base_url
    pub model : IfGiven NotBlank o.model
    pub api_key_env :
        IfGiven (λ key. (is_empty_text key || is_environment_name key) ≡ true) o.api_key_env
    pub max_output_tokens : IfGiven Positive o.max_output_tokens
    pub temperature : IfGiven (λ x. fl.lt x (zero_float fl) ≡ false) o.temperature
    pub timeout : IfGiven Positive o.timeout
    pub drain_timeout : IfGiven Positive o.drain_timeout
    pub output_dir : IfGiven NotBlank o.output_dir
    pub warmup_requests : IfGiven (λ n. pos 0 ≤ℤ n) o.warmup_requests
    pub max_concurrency : IfGiven Positive o.max_concurrency
    pub max_requests : IfGiven Positive o.max_requests
    pub max_request_rate : IfGiven (λ x. not_positive fl x ≡ false) o.max_request_rate
    pub max_in_flight_ceiling : IfGiven Positive o.max_in_flight_ceiling
    pub max_input_tokens : IfGiven Positive o.max_input_tokens
    pub output_within :
        IfGiven
          (λ n. IfGiven (λ ceiling. n ≤ℤ ceiling) o.max_output_tokens_ceiling)
          o.max_output_tokens
    pub token_timing : IfGiven (λ m. is_known_timing m ≡ true) o.token_timing_mode
    pub slo_ttft : IfGiven Positive o.slo_ttft
    pub slo_tpot : IfGiven Positive o.slo_tpot
    pub slo_e2e : IfGiven Positive o.slo_e2e
    pub workload_line : HasWorkloadLine workload o
    pub load_line : HasLoadLine load o
