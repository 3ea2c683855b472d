-- ===== src/Metrics/Gaps.antt =====
-- Inter-chunk and inter-token latencies: `calculateInterChunkLatency` and
-- `calculateInterTokenLatency`. Their loops over the gaps and over the values are the same code.
use llm_serving_performance.Prelude.{
  ℕ, String, Bool, true, false, ◌||◌, ◌&&◌, not, List, [], ◌∷◌, length, if◌then◌else◌,
}
use llm_serving_performance.Prelude.Int.{ℤ, pos, ◌-ℤ◌, ◌+ℤ◌, ltb_ℤ, eqb_ℤ, max_int64}
use llm_serving_performance.Prelude.Results.{Result, ok, err, ◌>>=◌, ◌>>◌, refuse_if}
use llm_serving_performance.Floats.{Floats, zero_float}
use llm_serving_performance.Benchmark.Observation.{
  StreamEvent, RequestObservation, source_unavailable, source_vllm,
}
use llm_serving_performance.Metrics.Windows.{milliseconds}
use text.Mathlib.Text.{◌==◌ as str_eq}

-- The gaps, in nanoseconds, after an event at `before`.
unfoldable pub gaps_after : String → String → ℤ → List StreamEvent → Result String (List ℤ)
gaps_after negative unordered before [] = ok []
gaps_after negative unordered before (e ∷ es) =
    let rest = gaps_after negative unordered e.received_after_ns es in
    do
      refuse_if (ltb_ℤ e.received_after_ns (pos 0)) negative
      refuse_if (ltb_ℤ (e.received_after_ns -ℤ before) (pos 0)) unordered
      gaps ← rest
      ok ((e.received_after_ns -ℤ before) ∷ gaps)

-- The gaps between the events, of which there are at least two.
unfoldable pub event_gaps : String → String → String → List StreamEvent → Result String (List ℤ)
unfolding gaps_after
event_gaps few negative unordered [] = err few
event_gaps few negative unordered (e ∷ []) = err few
event_gaps few negative unordered (e ∷ f ∷ es) = do
  refuse_if (ltb_ℤ e.received_after_ns (pos 0)) negative
  gaps_after negative unordered e.received_after_ns (f ∷ es)

module _ (fl : Floats) where
  open fl use {Float, of_int, add, div, lt}

  -- The record that both latencies share; without their sources it is the inter-chunk latency.
  pub record IntervalLatency : Type 0 where
    pub available : Bool
    pub source : String
    pub count : ℕ
    pub mean_ms : Float
    pub min_ms : Float
    pub max_ms : Float
    pub values_ms : List Float
    pub reason : String

  abbrev pub unavailable_latency : String → String → IntervalLatency
  unavailable_latency source reason = record {
    available = false;
    source = source;
    count = 0;
    mean_ms = of_int (pos 0);
    min_ms = of_int (pos 0);
    max_ms = of_int (pos 0);
    values_ms = [];
    reason = reason;
  }

  unfoldable pub total_from : Float → List Float → Float
  total_from total [] = total
  total_from total (v ∷ vs) = total_from (add total v) vs

  unfoldable pub minimum_from : Float → List Float → Float
  minimum_from minimum [] = minimum
  minimum_from minimum (v ∷ vs) = minimum_from (if lt v minimum then v else minimum) vs

  unfoldable pub maximum_from : Float → List Float → Float
  maximum_from maximum [] = maximum
  maximum_from maximum (v ∷ vs) = maximum_from (if lt maximum v then v else maximum) vs

  -- `values[0]`, of a list that is not empty here.
  abbrev first_or_zero : List Float → Float
  first_or_zero [] = of_int (pos 0)
  first_or_zero (v ∷ vs) = v

  abbrev pub millisecond_values : List ℤ → List Float
  millisecond_values [] = []
  millisecond_values (g ∷ gs) = milliseconds fl g ∷ millisecond_values gs

  unfoldable pub latency_of : String → Result String (List ℤ) → IntervalLatency
  unfolding total_from minimum_from maximum_from
  latency_of source (err reason) = unavailable_latency source reason
  latency_of source (ok gaps) =
      let values = millisecond_values gaps in
      record {
        available = true;
        source = source;
        count = length values;
        mean_ms = div (total_from (zero_float fl) values) (of_int (pos (length values)));
        min_ms = minimum_from (first_or_zero values) values;
        max_ms = maximum_from (first_or_zero values) values;
        values_ms = values;
        reason = "";
      }

  unfoldable pub calculate_inter_chunk_latency : List StreamEvent → IntervalLatency
  unfolding event_gaps latency_of
  calculate_inter_chunk_latency content_events = latency_of "" (
      event_gaps "at least two content events are required"
        "content event relative offsets must not be negative"
        "content event relative offsets are not ordered" content_events)

-- The loop over the token evidence: the tokens observed, and the events that have any.
unfoldable pub token_events : ℤ → List StreamEvent → Result String (ℤ × List StreamEvent)
token_events observed [] = ok (observed, [])
token_events observed (e ∷ es) =
    let skip = token_events observed es in
    let more = token_events (observed +ℤ e.generated_token_count) es in
    if ltb_ℤ e.generated_token_count (pos 0)
    then err "generated token count must not be negative"
    else if not e.token_ids_present && not (eqb_ℤ e.generated_token_count (pos 0))
    then err "generated token count requires token_ids presence"
    else if eqb_ℤ e.generated_token_count (pos 0)
    then skip
    else if ltb_ℤ (pos max_int64 -ℤ observed) e.generated_token_count
    then err "observed generated token count overflows int"
    else more >>= λ r. ok (r.0, e ∷ r.1)

unfoldable pub all_single : List StreamEvent → Bool
all_single [] = true
all_single (e ∷ es) = eqb_ℤ e.generated_token_count (pos 1) && all_single es

-- The checks of the token evidence, and the gaps. The message of a count that disagrees is given
-- without its two numbers.
unfoldable pub token_gaps : RequestObservation → Result String (List ℤ)
unfolding token_events all_single event_gaps
token_gaps o = do
  refuse_if (not (str_eq o.token_timing.source source_vllm))
      "token timing evidence source is not vLLM return_token_ids client receive timing"
  refuse_if (not (str_eq o.token_timing.invalid_reason "")) o.token_timing.invalid_reason
  refuse_if (not (str_eq o.error "") || not o.token_timing.completed_through_done)
      "SSE request did not complete cleanly through [DONE]"
  refuse_if (not o.usage.available) "server token usage not available"
  refuse_if (ltb_ℤ o.usage.output_tokens (pos 2)) "at least two output tokens are required"
  found ← token_events (pos 0) o.stream_events
  refuse_if (eqb_ℤ found.0 (pos 0)) "generated token-ID evidence was not observed"
  refuse_if (not (eqb_ℤ found.0 o.usage.output_tokens))
      "observed generated token count does not match server output token count"
  refuse_if (not (all_single found.1))
      "SSE event contained multiple generated token IDs; intra-event token timing is not observable"
  event_gaps "at least two proven token events are required"
      "token event relative offsets must not be negative"
      "token event relative offsets are not ordered" found.1

abbrev pub true_itl_reason : String
true_itl_reason = "OpenAI-compatible SSE chunks are not guaranteed to map 1:1 to tokenizer tokens"

module _ (fl : Floats) where
  unfoldable pub calculate_inter_token_latency : RequestObservation → IntervalLatency fl
  unfolding token_gaps latency_of
  calculate_inter_token_latency o =
      if o.token_timing.requested
      then latency_of fl
          (if str_eq o.token_timing.source "" then source_unavailable else o.token_timing.source)
          (token_gaps o)
      else unavailable_latency fl source_unavailable true_itl_reason
