-- ===== src/Metrics/Windows.antt =====
-- Durations and rates of a request: `elapsedDurationNS`, `decodeWindowNS` and the scalars.
use llm_serving_performance.Prelude.{
  ℕ, String, Bool, true, false, ◌||◌, not, Option, none, some, if◌then◌else◌, ltb,
}
use llm_serving_performance.Prelude.Int.{ℤ, pos, ◌-ℤ◌, ltb_ℤ, leb_ℤ, saturate64}
use llm_serving_performance.Prelude.Results.{Result, ok, err}
use llm_serving_performance.Floats.{Floats}
use llm_serving_performance.Benchmark.Observation.{RequestObservation}

unfoldable pub elapsed_duration_ns : Option ℤ → Option ℤ → Option ℤ → String → Result String ℤ
elapsed_duration_ns (some offset) start end missing =
    if ltb_ℤ offset (pos 0) then err "relative offset must not be negative" else ok offset
elapsed_duration_ns none (some start) (some end) missing =
    if ltb_ℤ end start
    then err "end timestamp precedes start timestamp"
    else ok (saturate64 (end -ℤ start))
elapsed_duration_ns none _ _ missing = err missing

abbrev positive_window : ℤ → Result String ℤ
positive_window window =
    if leb_ℤ window (pos 0) then err "content generation duration must be positive" else ok window

-- The last part of `decodeWindowNS`: the window from the offsets, or else from the timestamps.
abbrev pub content_window : Option ℤ → Option ℤ → Option ℤ → Option ℤ → Result String ℤ
content_window (some first) (some last) first_at last_at =
    if ltb_ℤ first (pos 0) || ltb_ℤ last (pos 0)
    then err "content relative offsets must not be negative"
    else positive_window (last -ℤ first)
content_window none none (some first_at) (some last_at) =
    positive_window (saturate64 (last_at -ℤ first_at))
content_window none none _ _ = err "first and last content timestamps are required"
content_window _ _ _ _ = err "first and last content relative offsets must both be available"

unfoldable pub decode_window_ns : RequestObservation → ℕ → Result String ℤ
decode_window_ns o content_events =
    if not o.usage.available
    then err "server token usage not available"
    else if leb_ℤ o.usage.output_tokens (pos 1)
    then err "more than one output token is required"
    else if ltb content_events 2
    then err "at least two content events are required"
    else content_window o.first_content_after_ns o.last_content_after_ns o.first_content_at
        o.last_content_at

module _ (fl : Floats) where
  open fl use {Float, of_int, div}

  pub record Scalar : Type 0 where
    pub available : Bool
    pub value : Float
    pub unit : String
    pub reason : String

  abbrev pub available_scalar : Float → String → Scalar
  available_scalar value unit = record { available = true; value = value; unit = unit; reason = "" }

  -- The reasons handed over are not empty.
  abbrev pub unavailable_scalar : String → String → Scalar
  unavailable_scalar unit reason = record {
    available = false;
    value = of_int (pos 0);
    unit = unit;
    reason = reason;
  }

  abbrev pub scalar_of : String → (ℤ → Float) → Result String ℤ → Scalar
  scalar_of unit convert (ok ns) = available_scalar (convert ns) unit
  scalar_of unit convert (err reason) = unavailable_scalar unit reason

  abbrev pub milliseconds : ℤ → Float
  milliseconds ns = div (of_int ns) (of_int (pos 1000000))

  abbrev pub seconds : ℤ → Float
  seconds ns = div (of_int ns) (of_int (pos 1000000000))

  unfoldable pub duration_scalar : Option ℤ → Option ℤ → Option ℤ → String → Scalar
  unfolding elapsed_duration_ns
  duration_scalar offset start end missing =
      scalar_of "ms" milliseconds (elapsed_duration_ns offset start end missing)

  unfoldable pub calculate_tpot : RequestObservation → ℕ → Scalar
  calculate_tpot o content_events =
      scalar_of "ms/token"
        (λ window. div (milliseconds window) (of_int (o.usage.output_tokens -ℤ pos 1)))
        (decode_window_ns o content_events)

  unfoldable pub calculate_decode_rate : RequestObservation → ℕ → Scalar
  calculate_decode_rate o content_events =
      scalar_of "tokens/s"
        (λ window. div (of_int (o.usage.output_tokens -ℤ pos 1)) (seconds window))
        (decode_window_ns o content_events)

  abbrev positive_duration : Result String ℤ → Result String ℤ
  positive_duration (ok duration) =
      if leb_ℤ duration (pos 0) then err "end-to-end duration must be positive" else ok duration
  positive_duration (err reason) = err reason

  unfoldable pub calculate_output_rate : RequestObservation → Scalar
  calculate_output_rate o =
      if not o.usage.available
      then unavailable_scalar "tokens/s" "server token usage not available"
      else if ltb_ℤ o.usage.output_tokens (pos 0)
      then unavailable_scalar "tokens/s" "output token count is negative"
      else scalar_of "tokens/s" (λ duration. div (of_int o.usage.output_tokens) (seconds duration))
          (positive_duration (
            elapsed_duration_ns o.completed_after_ns o.request_started_at o.completed_at
              "end-to-end timestamps not available"))
