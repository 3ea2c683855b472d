-- ===== src/Benchmark/Observation.antt =====
-- The raw evidence of one request, internal/benchmark/types.go. Times and offsets are nanoseconds;
-- `none` is a nil pointer. Texts that are compared are `String`; a request's identifier is its bytes.
use llm_serving_performance.Prelude.{ℕ, String, Bool, List, Option}
use llm_serving_performance.Prelude.Int.{ℤ}

pub record StreamEvent : Type 0 where
  pub sequence : ℕ
  pub received_at : ℤ
  pub received_after_ns : ℤ
  pub has_content : Bool
  pub content_bytes : ℤ
  pub token_ids_present : Bool
  pub generated_token_count : ℤ

pub record TokenTimingEvidence : Type 0 where
  pub requested : Bool
  pub source : String
  pub completed_through_done : Bool
  pub invalid_reason : String

pub record TokenUsage : Type 0 where
  pub input_tokens : ℤ
  pub output_tokens : ℤ
  pub total_tokens : ℤ
  pub source : String
  pub available : Bool

pub record RequestObservation : Type 0 where
  pub run_id : String
  pub request_id : List ℕ
  pub request_started_at : Option ℤ
  pub headers_received_at : Option ℤ
  pub headers_after_ns : Option ℤ
  pub first_byte_at : Option ℤ
  pub first_byte_after_ns : Option ℤ
  pub first_stream_event_at : Option ℤ
  pub first_stream_event_after_ns : Option ℤ
  pub first_content_at : Option ℤ
  pub first_content_after_ns : Option ℤ
  pub last_content_at : Option ℤ
  pub last_content_after_ns : Option ℤ
  pub completed_at : Option ℤ
  pub completed_after_ns : Option ℤ
  pub stream_events : List StreamEvent
  pub token_timing : TokenTimingEvidence
  pub usage : TokenUsage
  pub response_body_bytes : ℤ
  pub status_code : ℤ
  pub finish_reason : String
  pub error : String

abbrev pub source_unavailable : String
source_unavailable = "not_available"

abbrev pub source_vllm : String
source_vllm = "vllm_return_token_ids_client_receive"
