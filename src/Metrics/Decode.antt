-- ===== src/Metrics/Decode.antt =====
-- For which requests TPOT and the decode rate are available.
-- A stretch of time from the first content to the last one, by their offsets or else by their times.
use llm_serving_performance.Prelude.Int.{ -ℤ_parts, leb_ℤ, pos, saturate64, ℤ, ◌-ℤ◌, ◌<ℤ◌, ◌≤ℤ◌}
use llm_serving_performance.Prelude.Results.{err, Result, is_ok, ok}
use llm_serving_performance.Prelude.{
  Option, String, arith, false, none, refl, some, sym, true, ℕ, ◌↔◌, ◌∙◌, ◌≡◌, ◌≤◌,
}
use llm_serving_performance.Metrics.Windows.{
  calculate_decode_rate, calculate_tpot, content_window, decode_window_ns, scalar_of,
}
use llm_serving_performance.Floats.{Floats}
use llm_serving_performance.Client.Chunks.Recorded.{first_at}
use llm_serving_performance.Benchmark.Observation.{RequestObservation}

abbrev pub HasStretch : Option ℤ → Option ℤ → Option ℤ → Option ℤ → Type 0
HasStretch (some first) (some last) first_at last_at = (pos 0 ≤ℤ first) × (first <ℤ last)
HasStretch none none (some first_at) (some last_at) = first_at <ℤ last_at
HasStretch _ _ _ _ = ⊥

-- The server has reported two output tokens at least, and the content of two events at least
-- stretches over some time.
pub record HasDecodeWindow (o : RequestObservation) (content_events : ℕ) : Type 0 where
  pub reported : o.usage.available ≡ true
  pub two_tokens : pos 2 ≤ℤ o.usage.output_tokens
  pub two_events : 2 ≤ content_events
  pub stretch :
      HasStretch o.first_content_after_ns o.last_content_after_ns o.first_content_at
        o.last_content_at

leb_ℤ-saturate64 : (d : ℤ) → leb_ℤ (saturate64 d) (pos 0) ≡ leb_ℤ d (pos 0)
unfolding saturate64
leb_ℤ-saturate64 d = ground arith

-- A difference is positive exactly if the second number is less.
difference_positive : (a b : ℤ) → (leb_ℤ (b -ℤ a) (pos 0) ≡ false) ↔ (a <ℤ b)
difference_positive a b = (λ h. ground (arith, -ℤ_parts b a), λ h. ground (arith, -ℤ_parts b a))

stretch_iff :
    (first last first_at last_at : Option ℤ)
    → (is_ok (content_window first last first_at last_at) ≡ true)
      ↔ HasStretch first last first_at last_at
stretch_iff (some f) (some l) a b =
    let (there, back) = difference_positive f l in
    (λ h. (ground arith, there (ground arith)), λ (low, high). ground (arith, low, high, back high))
stretch_iff none none (some a) (some b) =
    let (there, back) = difference_positive a b in
    let same = leb_ℤ-saturate64 (b -ℤ a) in
    (λ h. there (ground (arith, same)), λ h. ground (arith, same, back h))
stretch_iff (some f) none a b = (λ h. cc, λ h. absurd h)
stretch_iff none (some l) a b = (λ h. cc, λ h. absurd h)
stretch_iff none none none b = (λ h. cc, λ h. absurd h)
stretch_iff none none (some a) none = (λ h. cc, λ h. absurd h)

window_iff :
    (o : RequestObservation) (n : ℕ) → (is_ok (decode_window_ns o n) ≡ true) ↔ HasDecodeWindow o n
unfolding decode_window_ns
window_iff o n =
    let (there, back) =
      stretch_iff o.first_content_after_ns o.last_content_after_ns o.first_content_at
        o.last_content_at in
    (
      λ h. record {
        reported = ground arith;
        two_tokens = ground arith;
        two_events = ground arith;
        stretch = there (ground arith);
      },
      λ w. ground (arith, w.reported, w.two_tokens, w.two_events, back w.stretch),
    )

module _ (fl : Floats) where
  scalar_of-available :
      (unit : String) (convert : ℤ → fl.Float) (r : Result String ℤ)
      → (scalar_of fl unit convert r).available ≡ is_ok r
  scalar_of-available unit convert (ok w) = refl
  scalar_of-available unit convert (err e) = refl

  -- TPOT and the decode rate are available exactly for the requests whose server has reported two
  -- output tokens at least, with two content events at least, of which the last comes after the
  -- first: by their offsets, which are not negative, or by their times where both offsets are
  -- missing.
  pub decode_metrics_available_iff :
      (o : RequestObservation) (n : ℕ)
      → (((calculate_tpot fl o n).available ≡ true) ↔ HasDecodeWindow o n)
        × (((calculate_decode_rate fl o n).available ≡ true) ↔ HasDecodeWindow o n)
  unfolding calculate_tpot calculate_decode_rate
  decode_metrics_available_iff o n =
      let (there, back) = window_iff o n in
      let tpot = scalar_of-available "ms/token" _ (decode_window_ns o n) in
      let rate = scalar_of-available "tokens/s" _ (decode_window_ns o n) in
      (
        (λ h. there (sym tpot ∙ h), λ w. tpot ∙ back w),
        (λ h. there (sym rate ∙ h), λ w. rate ∙ back w),
      )
