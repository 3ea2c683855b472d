-- ===== src/Client/Chunks/Recorded.antt =====
-- What a stream leaves in the observation, whether it ends well or not.
use llm_serving_performance.Prelude.{
  ℕ, suc, ◌+◌, ◌≡◌, refl, sym, ap, ◌∙◌, Bool, true, false, Option, none, some, List, [], ◌∷◌, ◌++◌,
  length, if◌then◌else◌, arith, Bool-cases, Option-cases, inl, inr,
}
use mathlib.Core.Path.{subst}
use llm_serving_performance.Prelude.Int.{ℤ, pos, ◌-ℤ◌, ◌≤ℤ◌, saturate64}
use llm_serving_performance.Benchmark.Observation.{StreamEvent, TokenUsage, RequestObservation}
use llm_serving_performance.Client.Chunks.{
  Choice, ChunkUsage, StreamChunk, ClientErr, no_request_start, first_of, Received, event_of,
  with_content, with_event, append_stream_event, first_choice, received_of, with_choice,
  negative_tokens, usage_of, on_chunk,
}

-- The events are numbered from n + 1 on.
abbrev pub Numbered : ℕ → List StreamEvent → Type 0
Numbered n [] = Unit {0}
Numbered n (e ∷ es) = (e.sequence ≡ suc n) × Numbered (suc n) es

-- The offset of an event is its distance from the start, and its counts are not negative.
pub record IsEvent (start : ℤ) (e : StreamEvent) : Type 0 where
  pub offset : e.received_after_ns ≡ saturate64 (e.received_at -ℤ start)
  pub bytes : pos 0 ≤ℤ e.content_bytes
  pub tokens : pos 0 ≤ℤ e.generated_token_count

abbrev pub EveryEvent : ℤ → List StreamEvent → Type 0
EveryEvent start [] = Unit {0}
EveryEvent start (e ∷ es) = IsEvent start e × EveryEvent start es

abbrev pub first_at : List StreamEvent → Option ℤ
first_at [] = none
first_at (e ∷ es) = some e.received_at

abbrev pub first_content : List StreamEvent → Option ℤ
first_content [] = none
first_content (e ∷ es) =
    let rest = first_content es in if e.has_content then some e.received_at else rest

abbrev pub last_content : Option ℤ → List StreamEvent → Option ℤ
last_content before [] = before
last_content before (e ∷ es) =
    last_content (if e.has_content then some e.received_at else before) es

-- The tokens that the server has reported, if it has, are not negative.
abbrev pub NotNegative : Bool → TokenUsage → Type 0
NotNegative false u = Unit {0}
NotNegative true u =
    (pos 0 ≤ℤ u.input_tokens) × (pos 0 ≤ℤ u.output_tokens) × (pos 0 ≤ℤ u.total_tokens)

-- The observation agrees with its events.
pub record IsRecorded (start : ℤ) (o : RequestObservation) : Type 0 where
  pub started : o.request_started_at ≡ some start
  pub numbered : Numbered 0 o.stream_events
  pub events : EveryEvent start o.stream_events
  pub first : o.first_stream_event_at ≡ first_at o.stream_events
  pub content_first : o.first_content_at ≡ first_content o.stream_events
  pub content_last : o.last_content_at ≡ last_content none o.stream_events
  pub usage : NotNegative o.usage.available o.usage

Numbered-append :
    (n : ℕ) (es : List StreamEvent) (e : StreamEvent)
    → Numbered n es
    → e.sequence ≡ n + length es + 1
    → Numbered n (es ++ (e ∷ []))
Numbered-append n [] e h k = (omega (arith, k), tt)
Numbered-append n (x ∷ es) e h k = (h.0, Numbered-append (suc n) es e h.1 (omega (arith, k)))

EveryEvent-append :
    (start : ℤ) (es : List StreamEvent) (e : StreamEvent)
    → EveryEvent start es
    → IsEvent start e
    → EveryEvent start (es ++ (e ∷ []))
EveryEvent-append start [] e h k = (k, tt)
EveryEvent-append start (x ∷ es) e h k = (h.0, EveryEvent-append start es e h.1 k)

first_at-append :
    (es : List StreamEvent) (e : StreamEvent)
    → first_of (first_at es) e.received_at ≡ first_at (es ++ (e ∷ []))
first_at-append [] e = refl
first_at-append (x ∷ es) e = refl

abbrev first_if : Bool → Option ℤ → ℤ → Option ℤ
first_if true before at = first_of before at
first_if false before at = before

first_content-append :
    (es : List StreamEvent) (e : StreamEvent)
    → first_if e.has_content (first_content es) e.received_at ≡ first_content (es ++ (e ∷ []))
first_content-append [] e = ground arith
first_content-append (x ∷ es) e = ground (arith, first_content-append es e)

last_content-append :
    (before : Option ℤ) (es : List StreamEvent) (e : StreamEvent)
    → last_content before (es ++ (e ∷ []))
      ≡ (if e.has_content then some e.received_at else last_content before es)
last_content-append before [] e = refl
last_content-append before (x ∷ es) e =
    last_content-append (if x.has_content then some x.received_at else before) es e

with_content-fields :
    (o : RequestObservation) (received after : ℤ) (b : Bool)
    → let o' = with_content o received after b in
      (o'.first_content_at ≡ first_if b o.first_content_at received)
      × (o'.last_content_at ≡ (if b then some received else o.last_content_at))
      × (o'.request_started_at ≡ o.request_started_at)
      × (o'.first_stream_event_at ≡ o.first_stream_event_at)
      × (o'.usage ≡ o.usage)
with_content-fields o received after true = (refl, refl, refl, refl, refl)
with_content-fields o received after false = (refl, refl, refl, refl, refl)

with_event-IsRecorded :
    (start : ℤ) (o : RequestObservation) (received : ℤ) (r : Received)
    → IsRecorded start o
    → IsRecorded start (with_event o received (saturate64 (received -ℤ start)) r)
with_event-IsRecorded start o received r v =
    let after = saturate64 (received -ℤ start) in
    let e = event_of o received after r in
    let es = o.stream_events in
    let (first_c, last_c, started, first_e, usage) =
      with_content-fields _ received after r.has_content in
    record {
      started = started ∙ v.started;
      numbered = Numbered-append 0 es e v.numbered (omega arith);
      events =
          EveryEvent-append start es e v.events
            (record { offset = refl; bytes = omega arith; tokens = omega arith });
      first = first_e ∙ ap (λ x. first_of x received) v.first ∙ first_at-append es e;
      content_first =
          first_c
          ∙ ap (λ x. first_if r.has_content x received) v.content_first
          ∙ first_content-append es e;
      content_last =
          last_c
          ∙ ap (λ x. if r.has_content then some received else x) v.content_last
          ∙ sym (last_content-append none es e);
      usage = subst (λ u. NotNegative u.available u) (sym usage) v.usage;
    }

pub append_stream_event-IsRecorded :
    (start : ℤ) (o : RequestObservation) (received : ℤ) (r : Received)
    → IsRecorded start o
    → IsRecorded start (append_stream_event o received r).0
unfolding append_stream_event
append_stream_event-IsRecorded start o received r v =
    subst
      (λ m.
        IsRecorded start
          (elim m as (λ x. RequestObservation × Option ClientErr) [
            | none ↦ (o, some no_request_start)
            | some at ↦ (with_event o received (saturate64 (received -ℤ at)) r, none)
          ]).0)
      (sym v.started) (with_event-IsRecorded start o received r v)

with_choice-IsRecorded :
    (start : ℤ) (o : RequestObservation) (c : Option Choice)
    → IsRecorded start o
    → IsRecorded start (with_choice o c)
with_choice-IsRecorded start o none v = v
with_choice-IsRecorded start o (some c) v = record {
  started = v.started;
  numbered = v.numbered;
  events = v.events;
  first = v.first;
  content_first = v.content_first;
  content_last = v.content_last;
  usage = v.usage;
}

with_usage-IsRecorded :
    (start : ℤ) (o : RequestObservation) (u : ChunkUsage)
    → negative_tokens u ≡ false
    → IsRecorded start o
    → IsRecorded start (record o { usage = usage_of u })
with_usage-IsRecorded start o u h v = record {
  started = v.started;
  numbered = v.numbered;
  events = v.events;
  first = v.first;
  content_first = v.content_first;
  content_last = v.content_last;
  usage = ground arith;
}

pub on_chunk-IsRecorded :
    (start : ℤ) (o : RequestObservation) (received : ℤ) (chunk : StreamChunk)
    → IsRecorded start o
    → IsRecorded start (on_chunk o received chunk).0
unfolding on_chunk
on_chunk-IsRecorded start o received chunk v =
    let choice = first_choice chunk.choices in
    let o' = with_choice o choice in
    let v' = with_choice-IsRecorded start o choice v in
    elim (Option-cases chunk.usage) [
      | inl e ↦ rw e (append_stream_event-IsRecorded start o' received (received_of choice) v')
      | inr (u, e) ↦ elim (Bool-cases (negative_tokens u)) [
        | inl n ↦ rw (e, n) v'
        | inr n ↦
            rw (e, n)
              (append_stream_event-IsRecorded start _ received (received_of choice)
                (with_usage-IsRecorded start o' u n v'))
      ]
    ]
