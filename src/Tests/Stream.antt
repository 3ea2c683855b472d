-- ===== src/Tests/Stream.antt =====
-- A stream of two events, the second one of two lines, and a handler that collects them.
use llm_serving_performance.Client.Sse.Scanner.{scan, Reader, trim_return}
use llm_serving_performance.Prelude.Int.{ℤ, pos}
use llm_serving_performance.Benchmark.Observation.{RequestObservation, source_unavailable}
use llm_serving_performance.Client.Chunks.{StreamChunk, receive_stream}
use llm_serving_performance.Client.Chunks.Recorded.{IsRecorded}
use llm_serving_performance.Client.Chunks.Streamed.{receive_stream-IsRecorded}
use llm_serving_performance.Prelude.{
  ◌+◌, ◌↔◌, true, false, some, ℕ, ◌≡◌, refl, arith, Option, none, List, [], ◌∷◌, ◌++◌, String,
}
use llm_serving_performance.Client.Sse.{parse_sse}
use llm_serving_performance.Client.Sse.Frames.{
  Fits, print_events, handle_events, parse_sse-print_events,
}

abbrev collect : List (List ℕ) → List ℕ → List (List ℕ) × Option String
collect seen text = (seen ++ (text ∷ []), none)

abbrev events : List (List ℕ × List (List ℕ))
events = ((b'h' ∷ b'i' ∷ []), []) ∷ ((b'a' ∷ []), ((b'b' ∷ []) ∷ [])) ∷ []

events-Fits : Fits events
unfolding trim_return
events-Fits = (
  (((ground arith, (ground arith, tt)), refl, omega arith), tt),
  omega arith,
  (
    (((ground arith, tt), refl, omega arith), (((ground arith, tt), refl, omega arith), tt)),
    omega arith,
    tt,
  ),
)

-- A reader of these bytes that ends well.
abbrev reading : List ℕ → Reader
reading bytes = record { bytes = bytes; read_fails = false; ends_with_bytes = false }

parse_sse-print_events_example :
    parse_sse collect (reading (print_events events)) [] ≡ handle_events collect [] events
parse_sse-print_events_example =
    parse_sse-print_events collect (reading (print_events events)) [] events refl refl events-Fits

-- A last line without a line feed is a line too, and a carriage return at the end of a line is cut.
unterminated : scan (reading (b'a' ∷ 13 ∷ 10 ∷ b'b' ∷ [])) ≡ ((b'a' ∷ []) ∷ (b'b' ∷ []) ∷ [], false)
unfolding scan
unterminated = refl

-- An observation with the request just sent at 100.
abbrev sent : RequestObservation
sent = record {
  run_id = "run";
  request_id = [];
  request_started_at = some (pos 100);
  headers_received_at = some (pos 110);
  headers_after_ns = some (pos 10);
  first_byte_at = none;
  first_byte_after_ns = none;
  first_stream_event_at = none;
  first_stream_event_after_ns = none;
  first_content_at = none;
  first_content_after_ns = none;
  last_content_at = none;
  last_content_after_ns = none;
  completed_at = none;
  completed_after_ns = none;
  stream_events = [];
  token_timing = record {
    requested = false;
    source = source_unavailable;
    completed_through_done = false;
    invalid_reason = "";
  };
  usage = record {
    input_tokens = pos 0;
    output_tokens = pos 0;
    total_tokens = pos 0;
    source = "not_available";
    available = false;
  };
  response_body_bytes = pos 0;
  status_code = pos 200;
  finish_reason = "";
  error = "";
}

sent-IsRecorded : IsRecorded (pos 100) sent
sent-IsRecorded = record {
  started = refl;
  numbered = tt;
  events = tt;
  first = refl;
  content_first = refl;
  content_last = refl;
  usage = tt;
}

-- Every text is a chunk with itself as the content.
abbrev echo : List ℕ → Option StreamChunk
echo text = some (record {
  choices =
      record { index = pos 0; content = some text; finish_reason = none; token_ids = none } ∷ [];
  usage = none;
})

abbrev ticks : ℕ → ℤ
ticks n = pos (200 + n)

abbrev chat : List (List ℕ × List (List ℕ))
chat = ((b'h' ∷ b'i' ∷ []), []) ∷ ((b'[' ∷ b'D' ∷ b'O' ∷ b'N' ∷ b'E' ∷ b']' ∷ []), []) ∷ []

receive_stream-IsRecorded_example :
    let (o, e) = receive_stream echo ticks (reading (print_events chat)) sent 0 in
    IsRecorded (pos 100) o × ((e ≡ none) ↔ (o.token_timing.completed_through_done ≡ true))
receive_stream-IsRecorded_example =
    receive_stream-IsRecorded echo ticks (reading (print_events chat)) (pos 100) sent 0
      sent-IsRecorded refl

-- The chat ends well, with two events.
chat_received : (receive_stream echo ticks (reading (print_events chat)) sent 0).1 ≡ none
unfolding receive_stream scan
chat_received = refl
