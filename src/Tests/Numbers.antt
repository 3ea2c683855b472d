-- ===== src/Tests/Numbers.antt =====
-- A request with token evidence, its metrics, and their summaries.
use llm_serving_performance.Metrics.Decode.{HasDecodeWindow, decode_metrics_available_iff}
use llm_serving_performance.Prelude.Sums.{sum_by}
use llm_serving_performance.Aggregate.Tokens.{calculate_tokens}
use llm_serving_performance.Aggregate.Tokens.Totals.{input_of, output_of, tokens_exact}
use llm_serving_performance.Prelude.{
  ◌<◌, ℕ, ◌+◌, ◌≤◌, ◌≡◌, ◌↔◌, suc, refl, arith, true, none, some, List, [], ◌∷◌,
}
use llm_serving_performance.Prelude.Int.{wrap64, max_int64, ℤ, pos, ◌-ℤ◌, ◌+ℤ◌, ◌≤ℤ◌, ◌<ℤ◌}
use llm_serving_performance.Prelude.Results.{ok, Returns}
use llm_serving_performance.Floats.Whole.{whole, whole_order, whole_ranks}
use llm_serving_performance.Benchmark.Types.{measured, succeeded}
use llm_serving_performance.Benchmark.Observation.{StreamEvent, RequestObservation, source_vllm}
use llm_serving_performance.Metrics.Windows.{
  decode_window_ns, calculate_tpot, calculate_decode_rate,
}
use llm_serving_performance.Metrics.Gaps.{calculate_inter_token_latency}
use llm_serving_performance.Metrics.Calculate.{calculate}
use llm_serving_performance.Metrics.Availability.{inter_token_sound, decode_window_positive}
use llm_serving_performance.Aggregate.Types.{Request}
use llm_serving_performance.Aggregate.Distribution.{summarize_distribution}
use llm_serving_performance.Aggregate.Distribution.Bounds.{Summarizes, summarize_distribution_sound}
use llm_serving_performance.Aggregate.Slo.{
  configured, SloConfig, SloSummary, calculate_slo, configured_summary, fresh_tally, tally,
}
use llm_serving_performance.Aggregate.Slo.Goodput.{goodput_exact, count_by, is_good, is_evaluable}

abbrev event : ℕ → ℤ → StreamEvent
event n after = record {
  sequence = n;
  received_at = after;
  received_after_ns = after;
  has_content = true;
  content_bytes = pos 4;
  token_ids_present = true;
  generated_token_count = pos 1;
}

abbrev events : List StreamEvent
events = event 1 (pos 1000000) ∷ event 2 (pos 3000000) ∷ event 3 (pos 5000000) ∷ []

abbrev observation : RequestObservation
observation = record {
  run_id = "run";
  request_id = b'r' ∷ b'e' ∷ b'q' ∷ b'-' ∷ b'0' ∷ b'0' ∷ b'0' ∷ b'0' ∷ b'0' ∷ b'1' ∷ [];
  request_started_at = some (pos 0);
  headers_received_at = none;
  headers_after_ns = none;
  first_byte_at = none;
  first_byte_after_ns = none;
  first_stream_event_at = some (pos 1000000);
  first_stream_event_after_ns = some (pos 1000000);
  first_content_at = some (pos 1000000);
  first_content_after_ns = some (pos 1000000);
  last_content_at = some (pos 5000000);
  last_content_after_ns = some (pos 5000000);
  completed_at = some (pos 6000000);
  completed_after_ns = some (pos 6000000);
  stream_events = events;
  token_timing = record {
    requested = true;
    source = source_vllm;
    completed_through_done = true;
    invalid_reason = "";
  };
  usage = record {
    input_tokens = pos 9;
    output_tokens = pos 3;
    total_tokens = pos 12;
    source = "server_stream_usage";
    available = true;
  };
  response_body_bytes = pos 100;
  status_code = pos 200;
  finish_reason = "stop";
  error = "";
}

token_latency : (calculate_inter_token_latency whole observation).available ≡ true
unfolding calculate_inter_token_latency ◌-ℤ◌ ◌+ℤ◌
token_latency = refl

inter_token_sound_example :
    ((calculate_inter_token_latency whole observation).source ≡ source_vllm)
    × (true ≡ true)
    × (pos (suc (calculate_inter_token_latency whole observation).count) ≡ pos 3)
inter_token_sound_example = inter_token_sound whole observation token_latency

decode_metrics_available_iff_example :
    (((calculate_tpot whole observation 3).available ≡ true) ↔ HasDecodeWindow observation 3)
    × (((calculate_decode_rate whole observation 3).available ≡ true)
        ↔ HasDecodeWindow observation 3)
decode_metrics_available_iff_example = decode_metrics_available_iff whole observation 3

window_found : decode_window_ns observation 3 ≡ ok (pos 4000000)
unfolding decode_window_ns ◌-ℤ◌
window_found = refl

decode_window_positive_example : (pos 0 <ℤ pos 4000000) × (pos 2 ≤ℤ pos 3) × (2 ≤ 3) × (true ≡ true)
decode_window_positive_example = decode_window_positive observation 3 (pos 4000000) window_found

abbrev samples : List ℤ
samples = pos 7 ∷ pos 3 ∷ pos 5 ∷ []

summarize_distribution_sound_example :
    Returns
      (Summarizes whole whole_order whole_ranks samples)
      (summarize_distribution whole samples (pos 1) "ms" "no samples")
summarize_distribution_sound_example =
    summarize_distribution_sound whole whole_order whole_ranks samples (pos 1) "ms" "no samples"
      (omega arith)

-- One request, with 1 ms to its first content, against 2 ms.
abbrev pub slo : SloConfig whole
slo = record { ttft_ms = some (pos 2); tpot_ms = some (pos 2); e2e_ms = none }

abbrev pub requests : List (Request whole)
requests =
    record {
      sequence = pos 1;
      phase = measured;
      outcome = succeeded;
      metrics = calculate whole observation;
    }
    ∷ []

abbrev slo_summary : SloSummary whole
slo_summary = configured_summary whole (tally whole (fresh_tally whole slo) requests) 1 (pos 2)

slo_calculated : calculate_slo whole requests slo (pos 2) ≡ ok slo_summary
unfolding calculate_slo
slo_calculated = refl

goodput_exact_example :
    (slo_summary.counts.good_requests ≡ count_by whole (is_good whole slo) requests)
    × (slo_summary.counts.evaluable_requests ≡ count_by whole (is_evaluable whole slo) requests)
    × (slo_summary.counts.good_requests + slo_summary.counts.bad_requests
        ≡ slo_summary.counts.evaluable_requests)
    × (slo_summary.counts.evaluable_requests + slo_summary.counts.unevaluable_requests ≡ 1)
unfolding configured
goodput_exact_example = goodput_exact whole slo requests (pos 2) slo_summary refl slo_calculated

tokens_available : (calculate_tokens whole requests (pos 2)).available ≡ true
unfolding calculate_tokens calculate ◌+ℤ◌ ◌-ℤ◌ wrap64
tokens_available = refl

tokens_exact_example :
    let s = calculate_tokens whole requests (pos 2) in
    (0 < 1)
    × (s.usage_covered_requests ≡ 1)
    × (s.input_tokens ≡ pos (sum_by (input_of whole) requests))
    × (s.output_tokens ≡ pos (sum_by (output_of whole) requests))
    × (s.total_tokens ≡ pos (sum_by (input_of whole) requests + sum_by (output_of whole) requests))
    × (sum_by (input_of whole) requests + sum_by (output_of whole) requests ≤ max_int64)
tokens_exact_example = tokens_exact whole requests (pos 2) tokens_available
