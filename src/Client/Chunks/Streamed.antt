-- ===== src/Client/Chunks/Streamed.antt =====
-- What `Execute` leaves behind a whole stream.
use llm_serving_performance.Client.Sse.Scanner.{scan, Reader}
use llm_serving_performance.Client.Sse.{parse_lines, empty_frame, StreamErr, parse_sse}
use llm_serving_performance.Prelude.{
  ℕ, ◌≡◌, refl, ◌↔◌, ◌∙◌, Bool, true, false, Option, none, List, Bool-cases, Option-cases, inl, inr,
  arith,
}
use llm_serving_performance.Prelude.Int.{ℤ}
use llm_serving_performance.Prelude.Results.{Result, ok, err}
use llm_serving_performance.Benchmark.Observation.{RequestObservation}
use llm_serving_performance.Client.Sse.Keeps.{parse_lines-keeps}
use llm_serving_performance.Client.Chunks.{
  StreamChunk, ClientErr, Receiving, Received, nothing_received, append_stream_event, on_chunk,
  is_done, on_data, end_stream, receive_stream,
}
use llm_serving_performance.Client.Chunks.Recorded.{
  IsRecorded, append_stream_event-IsRecorded, on_chunk-IsRecorded,
}

abbrev completed : RequestObservation → Bool
completed o = o.token_timing.completed_through_done

completed-append :
    (o : RequestObservation) (received : ℤ) (r : Received)
    → completed (append_stream_event o received r).0 ≡ completed o
unfolding append_stream_event
completed-append o received r = ground arith

completed-on_chunk :
    (o : RequestObservation) (received : ℤ) (chunk : StreamChunk)
    → completed (on_chunk o received chunk).0 ≡ completed o
unfolding on_chunk append_stream_event
completed-on_chunk o received chunk = ground arith

-- The observation of a stream that is still open.
record IsOpen (start : ℤ) (o : RequestObservation) : Type 0 where
  recorded : IsRecorded start o
  incomplete : completed o ≡ false

module _ (decode : List ℕ → Option StreamChunk) (clock : ℕ → ℤ) where
  on_data-IsOpen :
      (start : ℤ) (s : Receiving) (text : List ℕ)
      → IsOpen start s.observation
      → IsOpen start (on_data decode clock s text).0.observation
  unfolding on_data
  on_data-IsOpen start s text v = elim (Bool-cases s.seen_done) [
    | inl d ↦ rw d v
    | inr d ↦ elim (Bool-cases (is_done text)) [
      | inl e ↦
          rw (d, e)
            (record {
              recorded =
                  append_stream_event-IsRecorded start s.observation (clock s.readings)
                    nothing_received v.recorded;
              incomplete =
                  completed-append s.observation (clock s.readings) nothing_received ∙ v.incomplete;
            })
      | inr e ↦ elim (Option-cases (decode text)) [
        | inl n ↦ rw (d, e, n) v
        | inr (chunk, n) ↦
            rw (d, e, n)
              (record {
                recorded =
                    on_chunk-IsRecorded start s.observation (clock s.readings) chunk v.recorded;
                incomplete =
                    completed-on_chunk s.observation (clock s.readings) chunk ∙ v.incomplete;
              })
      ]
    ]
  ]

  end_stream-IsRecorded :
      (start : ℤ) (r : Receiving × Result (StreamErr ClientErr) (Unit {0}))
      → IsOpen start r.0.observation
      → let (o, e) = end_stream decode clock r in
        IsRecorded start o × ((e ≡ none) ↔ (completed o ≡ true))
  end_stream-IsRecorded start (s, err x) v =
      (v.recorded, (λ h. cc, λ h. absurd (ground (arith, v.incomplete))))
  end_stream-IsRecorded start (s, ok u) v = elim (Bool-cases s.seen_done) [
    | inl d ↦ rw d (
      record {
        started = v.recorded.started;
        numbered = v.recorded.numbered;
        events = v.recorded.events;
        first = v.recorded.first;
        content_first = v.recorded.content_first;
        content_last = v.recorded.content_last;
        usage = v.recorded.usage;
      },
      (λ h. refl, λ h. refl),
    )
    | inr d ↦ rw d (v.recorded, (λ h. cc, λ h. absurd (ground (arith, v.incomplete))))
  ]

  -- Whatever a stream brings and however it ends, the observation agrees with its events: these are
  -- numbered from one, each has its distance from the start, the first event's time and the first
  -- and last content's times are theirs, and a reported usage is not negative. The stream is marked
  -- as completed through its end marker exactly if there is no error. The observation agrees with
  -- its events before the stream, and is unmarked.
  pub receive_stream-IsRecorded :
      (reader : Reader) (start : ℤ) (o : RequestObservation) (readings : ℕ)
      → IsRecorded start o
      → o.token_timing.completed_through_done ≡ false
      → let (o', e) = receive_stream decode clock reader o readings in
        IsRecorded start o' × ((e ≡ none) ↔ (o'.token_timing.completed_through_done ≡ true))
  unfolding receive_stream parse_sse
  receive_stream-IsRecorded reader start o readings v h =
      let from : Receiving = record { observation = o; seen_done = false; readings = readings } in
      let (tokens, failed) = scan reader in
      end_stream-IsRecorded start
        (parse_lines (on_data decode clock) failed from empty_frame tokens)
        (parse_lines-keeps (on_data decode clock) (λ s. IsOpen start s.observation) failed from
          empty_frame tokens (λ s text. on_data-IsOpen start s text)
          (record { recorded = v; incomplete = h }))
