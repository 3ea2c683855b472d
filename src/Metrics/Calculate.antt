-- ===== src/Metrics/Calculate.antt =====
-- `Calculate` of internal/metrics/calculate.go.
use llm_serving_performance.Prelude.{ℕ, String, List, [], ◌∷◌, length, if◌then◌else◌}
use llm_serving_performance.Prelude.Int.{ℤ, pos, ◌+ℤ◌, wrap64}
use llm_serving_performance.Floats.{Floats}
use llm_serving_performance.Benchmark.Observation.{StreamEvent, TokenUsage, RequestObservation}
use llm_serving_performance.Metrics.Windows.{
  Scalar, duration_scalar, calculate_tpot, calculate_output_rate, calculate_decode_rate,
}
use llm_serving_performance.Metrics.Gaps.{
  IntervalLatency, calculate_inter_chunk_latency, calculate_inter_token_latency,
}

-- The loop over the stream events: the content events and their bytes.
unfoldable pub content_events : List StreamEvent → List StreamEvent
content_events [] = []
content_events (e ∷ es) = if e.has_content then e ∷ content_events es else content_events es

unfoldable pub response_bytes_from : ℤ → List StreamEvent → ℤ
response_bytes_from bytes [] = bytes
response_bytes_from bytes (e ∷ es) =
    response_bytes_from (if e.has_content then wrap64 (bytes +ℤ e.content_bytes) else bytes) es

module _ (fl : Floats) where
  pub record RequestMetrics : Type 0 where
    pub run_id : String
    pub request_id : List ℕ
    pub time_to_headers : Scalar fl
    pub ttfb : Scalar fl
    pub ttft : Scalar fl
    pub ttlt : Scalar fl
    pub e2e : Scalar fl
    pub tpot : Scalar fl
    pub output_tokens_per_second : Scalar fl
    pub decode_tokens_per_second : Scalar fl
    pub inter_chunk_latency : IntervalLatency fl
    pub itl : IntervalLatency fl
    pub token_usage : TokenUsage
    pub stream_event_count : ℕ
    pub content_event_count : ℕ
    pub response_bytes : ℤ
    pub response_body_bytes : ℤ

  unfoldable pub calculate : RequestObservation → RequestMetrics
  unfolding content_events response_bytes_from
  calculate o =
      let content = content_events o.stream_events in
      record {
        run_id = o.run_id;
        request_id = o.request_id;
        time_to_headers =
            duration_scalar fl o.headers_after_ns o.request_started_at o.headers_received_at
              "headers timestamp not available";
        ttfb =
            duration_scalar fl o.first_byte_after_ns o.request_started_at o.first_byte_at
              "true first-byte timestamp not available";
        ttft =
            duration_scalar fl o.first_content_after_ns o.request_started_at o.first_content_at
              "first content timestamp not available";
        ttlt =
            duration_scalar fl o.last_content_after_ns o.request_started_at o.last_content_at
              "last content timestamp not available";
        e2e =
            duration_scalar fl o.completed_after_ns o.request_started_at o.completed_at
              "completion timestamp not available";
        tpot = calculate_tpot fl o (length content);
        output_tokens_per_second = calculate_output_rate fl o;
        decode_tokens_per_second = calculate_decode_rate fl o (length content);
        inter_chunk_latency = calculate_inter_chunk_latency fl content;
        itl = calculate_inter_token_latency fl o;
        token_usage = o.usage;
        stream_event_count = length o.stream_events;
        content_event_count = length content;
        response_bytes = response_bytes_from (pos 0) o.stream_events;
        response_body_bytes = o.response_body_bytes;
      }
