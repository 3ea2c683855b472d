-- ===== src/Client/Chunks.antt =====
-- What `Execute` of internal/openai/client.go does with the data of a stream, `appendStreamEvent`
-- included. The JSON decoder and the clock are parameters.
pub mod Recorded
pub mod Streamed
use llm_serving_performance.Client.Sse.Scanner.{Reader}
use llm_serving_performance.Prelude.{
  ℕ, suc, ◌+◌, String, Bool, true, false, ◌&&◌, ◌||◌, not, Option, none, some, List, [], ◌∷◌, ◌++◌,
  length, if◌then◌else◌, ◌==◌,
}
use llm_serving_performance.Prelude.Int.{ℤ, pos, ◌-ℤ◌, saturate64, ltb_ℤ, eqb_ℤ}
use llm_serving_performance.Prelude.Results.{Result, ok, err}
use llm_serving_performance.Benchmark.Observation.{
  StreamEvent, TokenTimingEvidence, TokenUsage, RequestObservation,
}
use llm_serving_performance.Client.Sse.{StreamErr, parse_sse}
use text.Mathlib.Text.{◌==◌ as str_eq}

pub record Choice : Type 0 where
  pub index : ℤ
  pub content : Option (List ℕ)
  pub finish_reason : Option String
  pub token_ids : Option (List ℤ)

pub record ChunkUsage : Type 0 where
  pub prompt_tokens : ℤ
  pub completion_tokens : ℤ
  pub total_tokens : ℤ

pub record StreamChunk : Type 0 where
  pub choices : List Choice
  pub usage : Option ChunkUsage

pub data ClientErr : Type 0 where
  data_after_done bad_json negative_usage no_request_start : ClientErr

pub data ExecuteErr : Type 0 where
  stream_failed : StreamErr ClientErr → ExecuteErr
  unexpected_eof : ExecuteErr

-- The observation, `seenDone`, and the number of the clock's next reading.
pub record Receiving : Type 0 where
  pub observation : RequestObservation
  pub seen_done : Bool
  pub readings : ℕ

-- The first value stays.
abbrev pub first_of : Option ℤ → ℤ → Option ℤ
first_of none at = some at
first_of (some before) at = some before

-- What a chunk or the end marker says of an event.
pub record Received : Type 0 where
  pub has_content : Bool
  pub content_bytes : ℕ
  pub token_ids_present : Bool
  pub generated_tokens : ℕ

abbrev pub nothing_received : Received
nothing_received = record {
  has_content = false;
  content_bytes = 0;
  token_ids_present = false;
  generated_tokens = 0;
}

abbrev pub event_of : RequestObservation → ℤ → ℤ → Received → StreamEvent
event_of o received after r = record {
  sequence = length o.stream_events + 1;
  received_at = received;
  received_after_ns = after;
  has_content = r.has_content;
  content_bytes = pos r.content_bytes;
  token_ids_present = r.token_ids_present;
  generated_token_count = pos r.generated_tokens;
}

abbrev pub with_content : RequestObservation → ℤ → ℤ → Bool → RequestObservation
with_content o received after false = o
with_content o received after true = record o {
  first_content_at = first_of o.first_content_at received;
  first_content_after_ns = elim o.first_content_at [
    | none ↦ some after
    | some before ↦ o.first_content_after_ns
  ];
  last_content_at = some received;
  last_content_after_ns = some after;
}

abbrev pub with_event : RequestObservation → ℤ → ℤ → Received → RequestObservation
with_event o received after r =
    let first = record o {
      first_stream_event_at = first_of o.first_stream_event_at received;
      first_stream_event_after_ns = elim o.first_stream_event_at [
        | none ↦ some after
        | some before ↦ o.first_stream_event_after_ns
      ];
    } in
    record (with_content first received after r.has_content) {
      stream_events = o.stream_events ++ (event_of o received after r ∷ []);
    }

unfoldable pub append_stream_event :
    RequestObservation → ℤ → Received → RequestObservation × Option ClientErr
append_stream_event o received r = elim o.request_started_at [
  | none ↦ (o, some no_request_start)
  | some start ↦ (with_event o received (saturate64 (received -ℤ start)) r, none)
]

-- The loop over the choices: the first one with index 0.
abbrev pub first_choice : List Choice → Option Choice
first_choice [] = none
first_choice (c ∷ cs) = let rest = first_choice cs in if eqb_ℤ c.index (pos 0) then some c else rest

abbrev pub bytes_of : Option (List ℕ) → ℕ
bytes_of none = 0
bytes_of (some text) = length text

abbrev pub tokens_of : Option (List ℤ) → ℕ
tokens_of none = 0
tokens_of (some ids) = length ids

abbrev pub has_negative : List ℤ → Bool
has_negative [] = false
has_negative (i ∷ is) = ltb_ℤ i (pos 0) || has_negative is

abbrev pub has_negative_id : Option (List ℤ) → Bool
has_negative_id none = false
has_negative_id (some ids) = has_negative ids

abbrev pub is_present {ℓ} : {A : Type ℓ} → Option A → Bool
is_present none = false
is_present (some a) = true

-- An empty content is no content.
abbrev pub received_of : Option Choice → Received
received_of none = nothing_received
received_of (some c) = record {
  has_content = not (bytes_of c.content == 0);
  content_bytes = bytes_of c.content;
  token_ids_present = is_present c.token_ids;
  generated_tokens = tokens_of c.token_ids;
}

abbrev pub finish_of : Option String → String → String
finish_of none before = before
finish_of (some reason) before = if str_eq reason "" then before else reason

abbrev pub invalid_of : Option (List ℤ) → String → String
invalid_of ids before =
    if has_negative_id ids && str_eq before ""
    then "SSE token_ids contained a negative generated token ID"
    else before

abbrev pub with_choice : RequestObservation → Option Choice → RequestObservation
with_choice o none = o
with_choice o (some c) = record o {
  finish_reason = finish_of c.finish_reason o.finish_reason;
  token_timing = record (o.token_timing) {
    invalid_reason = invalid_of c.token_ids o.token_timing.invalid_reason;
  };
}

abbrev pub negative_tokens : ChunkUsage → Bool
negative_tokens u =
    ltb_ℤ u.prompt_tokens (pos 0)
    || (ltb_ℤ u.completion_tokens (pos 0) || ltb_ℤ u.total_tokens (pos 0))

abbrev pub usage_of : ChunkUsage → TokenUsage
usage_of u = record {
  input_tokens = u.prompt_tokens;
  output_tokens = u.completion_tokens;
  total_tokens = u.total_tokens;
  source = "server_usage";
  available = true;
}

-- The usage of a chunk, and the event.
unfoldable pub on_chunk :
    RequestObservation → ℤ → StreamChunk → RequestObservation × Option ClientErr
unfolding append_stream_event
on_chunk o received chunk =
    let choice = first_choice chunk.choices in
    let o' = with_choice o choice in
    elim chunk.usage [
      | none ↦ append_stream_event o' received (received_of choice)
      | some u ↦
          if negative_tokens u
          then (o', some negative_usage)
          else append_stream_event (record o' { usage = usage_of u }) received (received_of choice)
    ]

-- The end marker.
abbrev pub is_done : List ℕ → Bool
is_done (c1 ∷ c2 ∷ c3 ∷ c4 ∷ c5 ∷ c6 ∷ []) =
    (c1 == b'[')
    && ((c2 == b'D') && ((c3 == b'O') && ((c4 == b'N') && ((c5 == b'E') && (c6 == b']')))))
is_done _ = false

abbrev observed : Receiving → RequestObservation × Option ClientErr → Receiving × Option ClientErr
observed s (o, e) = (record s { observation = o }, e)

module _ (decode : List ℕ → Option StreamChunk) (clock : ℕ → ℤ) where
  -- The handler that `Execute` gives to `parseSSE`.
  unfoldable pub on_data : Receiving → List ℕ → Receiving × Option ClientErr
  unfolding on_chunk append_stream_event
  on_data s text =
      let received = clock s.readings in
      let s' : Receiving = record s { readings = suc s.readings } in
      if s.seen_done
      then (s', some data_after_done)
      else if is_done text
      then observed (record s' { seen_done = true })
          (append_stream_event s.observation received nothing_received)
      else elim (decode text) [
        | none ↦ (s', some bad_json)
        | some chunk ↦ observed s' (on_chunk s.observation received chunk)
      ]

  abbrev pub end_stream :
      Receiving × Result (StreamErr ClientErr) (Unit {0}) → RequestObservation × Option ExecuteErr
  end_stream (s, err e) = (s.observation, some (stream_failed e))
  end_stream (s, ok u) =
      if s.seen_done
      then (
        record (s.observation) {
          token_timing = record (s.observation.token_timing) { completed_through_done = true };
        },
        none,
      )
      else (s.observation, some unexpected_eof)

  -- The end of `Execute`, from the response's body on.
  unfoldable pub receive_stream :
      Reader → RequestObservation → ℕ → RequestObservation × Option ExecuteErr
  unfolding on_data parse_sse
  receive_stream reader o readings = end_stream (
      parse_sse on_data reader (record { observation = o; seen_done = false; readings = readings }))
