-- ===== src/Metrics/Availability.antt =====
-- When the metrics of a request are available, and what their values then stand for.
use llm_serving_performance.Benchmark.Observation.{
  source_unavailable, source_vllm, StreamEvent, RequestObservation,
}
use llm_serving_performance.Prelude.{
  ℕ, suc, ◌+◌, ◌≤◌, ◌≡◌, refl, ◌∙◌, sym, ap, String, true, List, [], ◌∷◌, length, arith,
  if◌then◌else◌, Bool-cases, inl, inr,
}
use llm_serving_performance.Prelude.Int.{
  ℤ, pos, +ℤ_parts, pos_part, neg_part, ◌+ℤ◌, ◌-ℤ◌, ◌≤ℤ◌, ◌<ℤ◌, int_laws,
}
use text.Mathlib.Text.{◌==◌ as str_eq}
use text.Mathlib.TextEquality.{eq_iff}
use llm_serving_performance.Prelude.Results.{Result, ok, err, Ensures, ensured, is_ok, Result-cases}
use llm_serving_performance.Floats.{Floats}
use llm_serving_performance.Metrics.Windows.{decode_window_ns}
use llm_serving_performance.Metrics.Gaps.{
  gaps_after, event_gaps, latency_of, token_events, all_single, token_gaps,
  calculate_inter_token_latency, millisecond_values,
}

-- The offsets of the events do not fall, from `before` on.
abbrev pub NotFalling : ℤ → List StreamEvent → Type 0
NotFalling before [] = Unit {0}
NotFalling before (e ∷ es) = (before ≤ℤ e.received_after_ns) × NotFalling e.received_after_ns es

-- The offset of the last event, or `before`.
abbrev pub last_offset : ℤ → List StreamEvent → ℤ
last_offset before [] = before
last_offset before (e ∷ es) = last_offset e.received_after_ns es

abbrev pub sum_ℤ : List ℤ → ℤ
sum_ℤ [] = pos 0
sum_ℤ (g ∷ gs) = g +ℤ sum_ℤ gs

-- The gaps are one fewer than the events, and add up to the time between the first and the last.
gaps_after_lem :
    (a b : String) (before : ℤ) (es : List StreamEvent)
    → Ensures
        (λ gaps. (length gaps ≡ length es) × (sum_ℤ gaps ≡ last_offset before es -ℤ before))
        (gaps_after a b before es)
unfolding gaps_after
gaps_after_lem a b before [] = (refl, omega int_laws)
gaps_after_lem a b before (e ∷ es) = elim (Result-cases (gaps_after a b e.received_after_ns es)) [
  | inl (x, k) ↦ ground arith
  | inr (gaps, k) ↦
      let (size, sum) = ensured _ _ (gaps_after_lem a b e.received_after_ns es) k in
      let total : (e.received_after_ns -ℤ before) +ℤ sum_ℤ gaps
          ≡ last_offset e.received_after_ns es -ℤ before =
        omega (int_laws, ap pos_part sum, ap neg_part sum) in
      ground arith
]

-- Events with at least two of them, the first offset not negative and none before the one in front.
abbrev pub Measurable : List StreamEvent → Type 0
Measurable [] = ⊥
Measurable (e ∷ []) = ⊥
Measurable (e ∷ f ∷ es) = NotFalling (pos 0) (e ∷ f ∷ es)

module _ (few a b : String) where
  event_gaps_lem :
      (es : List StreamEvent)
      → Ensures (λ gaps. suc (length gaps) ≡ length es) (event_gaps few a b es)
  unfolding event_gaps
  event_gaps_lem [] = tt
  event_gaps_lem (e ∷ []) = tt
  event_gaps_lem (e ∷ f ∷ es) = ground (arith, gaps_after_lem a b e.received_after_ns (f ∷ es))

module _ (fl : Floats) where
  length-millisecond_values : (gs : List ℤ) → length (millisecond_values fl gs) ≡ length gs
  length-millisecond_values [] = refl
  length-millisecond_values (g ∷ gs) = ap suc (length-millisecond_values gs)

  latency_of-available :
      (s : String) (r : Result String (List ℤ)) → (latency_of fl s r).available ≡ is_ok r
  unfolding latency_of
  latency_of-available s (ok gs) = refl
  latency_of-available s (err e) = refl

  latency_of-count :
      (s : String) (r : Result String (List ℤ)) (n : ℕ)
      → Ensures (λ gaps. suc (length gaps) ≡ n) r
      → (latency_of fl s r).available ≡ true
      → suc (latency_of fl s r).count ≡ n
  unfolding latency_of
  latency_of-count s (ok gs) n h e = omega (arith, length-millisecond_values gs, h)
  latency_of-count s (err x) n h e = cc

-- A decode window is positive, and stands for two output tokens and two content events at least.
pub decode_window_positive :
    (o : RequestObservation) (n : ℕ) (w : ℤ)
    → decode_window_ns o n ≡ ok w
    → (pos 0 <ℤ w) × (pos 2 ≤ℤ o.usage.output_tokens) × (2 ≤ n) × (o.usage.available ≡ true)
unfolding decode_window_ns
decode_window_positive o n w h = ground arith

-- One token for an event: as many tokens as events.
token_events_lem :
    (observed : ℤ) (es : List StreamEvent) (r : ℤ × List StreamEvent)
    → token_events observed es ≡ ok r
    → all_single r.1 ≡ true
    → pos_part r.0 + neg_part observed ≡ pos_part observed + length r.1 + neg_part r.0
unfolding token_events all_single
token_events_lem observed [] r h s = ground arith
token_events_lem observed (e ∷ es) r h s =
    let count = e.generated_token_count in
    elim (Result-cases (token_events (observed +ℤ count) es)) [
      | inl (x, k) ↦ ground (arith, token_events_lem observed es r)
      | inr (r', k) ↦ ground (
        arith,
        token_events_lem observed es r,
        token_events_lem (observed +ℤ count) es r' k,
        +ℤ_parts observed count,
      )
    ]

token_gaps_events :
    (o : RequestObservation) (r : ℤ × List StreamEvent)
    → token_events (pos 0) o.stream_events ≡ ok r
    → is_ok (token_gaps o) ≡ true
    → (o.token_timing.source ≡ source_vllm)
      × (o.usage.available ≡ true)
      × (r.0 ≡ o.usage.output_tokens)
      × (all_single r.1 ≡ true)
      × Ensures (λ gaps. suc (length gaps) ≡ length r.1) (token_gaps o)
unfolding token_gaps
token_gaps_events o r h e = ground (
  arith,
  eq_iff o.token_timing.source source_vllm,
  event_gaps_lem "at least two proven token events are required"
      "token event relative offsets must not be negative"
      "token event relative offsets are not ordered" r.1,
)

token_gaps_found :
    (o : RequestObservation)
    → is_ok (token_gaps o) ≡ true
    → (r : ℤ × List StreamEvent) × (token_events (pos 0) o.stream_events ≡ ok r)
unfolding token_gaps
token_gaps_found o e = elim (Result-cases (token_events (pos 0) o.stream_events)) [
  | inl (x, k) ↦ absurd (ground arith)
  | inr (r, k) ↦ (r, k)
]

latency_of-source :
    (fl : Floats) (s : String) (r : Result String (List ℤ)) → (latency_of fl s r).source ≡ s
unfolding latency_of
latency_of-source fl s (ok gs) = refl
latency_of-source fl s (err e) = refl

requested_latency :
    (fl : Floats) (o : RequestObservation)
    → (calculate_inter_token_latency fl o).available ≡ true
    → (source : String) × (calculate_inter_token_latency fl o ≡ latency_of fl source (token_gaps o))
      × (source
          ≡ (if str_eq o.token_timing.source "" then source_unavailable else o.token_timing.source))
unfolding calculate_inter_token_latency
requested_latency fl o h = elim (Bool-cases o.token_timing.requested) [
  | inl e ↦ (_, rw e, refl)
  | inr e ↦ absurd (ground arith)
]

vllm_source :
    (s : String) → s ≡ source_vllm → (if str_eq s "" then source_unavailable else s) ≡ source_vllm
vllm_source s h = rw h

-- An available inter-token latency rests on vLLM token evidence and on server usage, and its
-- intervals are exactly one fewer than the output tokens that the server reported.
pub inter_token_sound :
    (fl : Floats) (o : RequestObservation)
    → (calculate_inter_token_latency fl o).available ≡ true
    → ((calculate_inter_token_latency fl o).source ≡ source_vllm)
      × (o.usage.available ≡ true)
      × (pos (suc (calculate_inter_token_latency fl o).count) ≡ o.usage.output_tokens)
inter_token_sound fl o h =
    let (source, e, spelled) = requested_latency fl o h in
    let available : (latency_of fl source (token_gaps o)).available ≡ true = rw e at h in
    let fine : is_ok (token_gaps o) ≡ true =
      sym (latency_of-available fl source (token_gaps o)) ∙ available in
    let (r, found) = token_gaps_found o fine in
    let (vllm, usage, tokens, single, size) = token_gaps_events o r found fine in
    let count = latency_of-count fl source (token_gaps o) (length r.1) size available in
    let events = token_events_lem (pos 0) o.stream_events r found single in
    let whole : r.0 ≡ pos (length r.1) = ground arith in
    (
      ap (λ l. l.source) e
          ∙ latency_of-source fl source (token_gaps o)
          ∙ spelled
          ∙ vllm_source o.token_timing.source vllm,
      usage,
      ap (λ l. pos (suc l.count)) e ∙ ap pos count ∙ sym whole ∙ tokens,
    )
