-- ===== src/Aggregate/Slo/Goodput.antt =====
-- Goodput counts exactly the requests that meet every configured SLO.
use llm_serving_performance.Prelude.{
  ◌∙◌, ℕ, suc, ◌+◌, ◌≡◌, refl, Bool, true, false, ◌&&◌, Option, none, some, List, [], ◌∷◌, length,
  arith, if◌then◌else◌,
}
use llm_serving_performance.Aggregate.Slo.{
  count_request, SloConfig, SloMetricSummary, SloTally, SloSummary, fresh, fresh_tally, tally,
  tally_request, calculate_slo, configured, evaluate_if, evaluate_slo_metric,
}
use llm_serving_performance.Prelude.Results.{ok}
use llm_serving_performance.Floats.{Floats}
use llm_serving_performance.Metrics.Windows.{Scalar}
use llm_serving_performance.Aggregate.Types.{Request}

and_chain : (x y z a b c : Bool) → a ≡ x → b ≡ (a && y) → c ≡ (b && z) → c ≡ (x && (y && z))
and_chain x y z a b c h k l = ground arith

good_chain :
    (x y z a b c d e f : Bool)
    → (a && b) ≡ x
    → (c && d) ≡ (a && (b && y))
    → (e && f) ≡ (c && (d && z))
    → (e && f) ≡ (x && (y && z))
good_chain x y z a b c d e f h k l = ground arith

module _ (fl : Floats) where
  open fl use {Float, le}

  -- A metric meets its threshold if it is available and not above; no threshold is always met.
  abbrev pub meets : Option Float → Scalar fl → Bool
  meets none value = true
  meets (some threshold) value = value.available && le value.value threshold

  abbrev pub is_good : SloConfig fl → Request fl → Bool
  is_good c r =
      meets c.ttft_ms r.metrics.ttft
      && (meets c.tpot_ms r.metrics.tpot && meets c.e2e_ms r.metrics.e2e)

  abbrev pub has_value : Option Float → Scalar fl → Bool
  has_value none value = true
  has_value (some threshold) value = value.available

  abbrev pub is_evaluable : SloConfig fl → Request fl → Bool
  is_evaluable c r =
      has_value c.ttft_ms r.metrics.ttft
      && (has_value c.tpot_ms r.metrics.tpot && has_value c.e2e_ms r.metrics.e2e)

  abbrev pub count_by : (Request fl → Bool) → List (Request fl) → ℕ
  count_by p [] = 0
  count_by p (r ∷ rs) = let rest = count_by p rs in if p r then suc rest else rest

  -- The thresholds of a tally.
  abbrev threshold_of : Option (SloMetricSummary fl) → Option Float
  threshold_of none = none
  threshold_of (some s) = some s.threshold_ms

  abbrev Follows : SloConfig fl → SloTally fl → Type 0
  Follows c t =
      (threshold_of t.ttft ≡ c.ttft_ms)
      × (threshold_of t.tpot ≡ c.tpot_ms)
      × (threshold_of t.e2e ≡ c.e2e_ms)

  evaluate_lem :
      (s : Option (SloMetricSummary fl)) (v : Scalar fl) (a b : Bool)
      → let r = evaluate_if fl s v (a, b) in
        (threshold_of r.0 ≡ threshold_of s)
        × (r.1.0 ≡ (a && has_value (threshold_of s) v))
        × ((r.1.0 && r.1.1) ≡ (a && (b && meets (threshold_of s) v)))
  unfolding evaluate_slo_metric
  evaluate_lem none v a b = (refl, ground arith, ground arith)
  evaluate_lem (some s) v a b = (ground arith, ground arith, ground arith)

  abbrev if_one : Bool → ℕ
  if_one true = 1
  if_one false = 0

  abbrev Adds : SloConfig fl → Request fl → SloTally fl → SloTally fl → Type 0
  Adds c r t t' =
      (t'.good_requests ≡ t.good_requests + if_one (is_good c r))
      × (t'.evaluable_requests ≡ t.evaluable_requests + if_one (is_evaluable c r))
      × (t'.good_requests + t'.bad_requests + t.evaluable_requests
          ≡ t.good_requests + t.bad_requests + t'.evaluable_requests)
      × (t'.evaluable_requests + t'.unevaluable_requests
          ≡ suc (t.evaluable_requests + t.unevaluable_requests))

  count_request_lem :
      (c : SloConfig fl) (r : Request fl) (t : SloTally fl) (a b : Bool)
      → a ≡ is_evaluable c r
      → (a && b) ≡ is_good c r
      → Adds c r t (count_request fl t (a, b))
  count_request_lem c r t true true h k = rw (← h, ← k) (ground arith)
  count_request_lem c r t true false h k = rw (← h, ← k) (ground arith)
  count_request_lem c r t false b h k = rw (← h, ← k) (ground arith)

  count_request-Follows :
      (c : SloConfig fl) (t : SloTally fl) (flags : Bool × Bool)
      → Follows c t
      → Follows c (count_request fl t flags)
  count_request-Follows c t (true, true) h = h
  count_request-Follows c t (true, false) h = h
  count_request-Follows c t (false, b) h = h

  tally_request_lem :
      (c : SloConfig fl) (t : SloTally fl) (r : Request fl)
      → Follows c t
      → Follows c (tally_request fl t r) × Adds c r t (tally_request fl t r)
  unfolding tally_request
  tally_request_lem c t r (p, q, w) =
      let one = evaluate_if fl t.ttft r.metrics.ttft (true, true) in
      let two = evaluate_if fl t.tpot r.metrics.tpot one.1 in
      let three = evaluate_if fl t.e2e r.metrics.e2e two.1 in
      let (k1, v1, g1) = evaluate_lem t.ttft r.metrics.ttft true true in
      let (k2, v2, g2) = evaluate_lem t.tpot r.metrics.tpot one.1.0 one.1.1 in
      let (k3, v3, g3) = evaluate_lem t.e2e r.metrics.e2e two.1.0 two.1.1 in
      let h1 = has_value (threshold_of t.ttft) r.metrics.ttft in
      let h2 = has_value (threshold_of t.tpot) r.metrics.tpot in
      let h3 = has_value (threshold_of t.e2e) r.metrics.e2e in
      let m1 = meets (threshold_of t.ttft) r.metrics.ttft in
      let m2 = meets (threshold_of t.tpot) r.metrics.tpot in
      let m3 = meets (threshold_of t.e2e) r.metrics.e2e in
      let counted : SloTally fl = record t { ttft = one.0; tpot = two.0; e2e = three.0 } in
      let evaluable : three.1.0 ≡ is_evaluable c r =
        rw (← p, ← q, ← w) (and_chain h1 h2 h3 one.1.0 two.1.0 three.1.0 v1 v2 v3) in
      let good : (three.1.0 && three.1.1) ≡ is_good c r =
        rw (← p, ← q, ← w)
          (good_chain m1 m2 m3 one.1.0 one.1.1 two.1.0 two.1.1 three.1.0 three.1.1 g1 g2 g3) in
      (
        count_request-Follows c counted three.1 (k1 ∙ p, k2 ∙ q, k3 ∙ w),
        count_request_lem c r counted three.1.0 three.1.1 evaluable good,
      )

  Follows-fresh : (c : SloConfig fl) → Follows c (fresh_tally fl c)
  Follows-fresh c =
      (threshold_of-fresh c.ttft_ms, threshold_of-fresh c.tpot_ms, threshold_of-fresh c.e2e_ms)
    where
      threshold_of-fresh : (o : Option Float) → threshold_of (fresh fl o) ≡ o
      threshold_of-fresh none = refl
      threshold_of-fresh (some v) = refl

  tally_lem :
      (c : SloConfig fl) (t : SloTally fl) (rs : List (Request fl))
      → Follows c t
      → let t' = tally fl t rs in
        (t'.good_requests ≡ t.good_requests + count_by (is_good c) rs)
        × (t'.evaluable_requests ≡ t.evaluable_requests + count_by (is_evaluable c) rs)
        × (t'.good_requests + t'.bad_requests + t.evaluable_requests
            ≡ t.good_requests + t.bad_requests + t'.evaluable_requests)
        × (t'.evaluable_requests + t'.unevaluable_requests
            ≡ length rs + (t.evaluable_requests + t.unevaluable_requests))
  unfolding tally
  tally_lem c t [] f = omega arith
  tally_lem c t (r ∷ rs) f =
      let (f', adds) = tally_request_lem c t r f in
      let rest = tally_lem c (tally_request fl t r) rs f' in ground arith

  -- With an SLO configured, a summary that is returned counts as good exactly the successful
  -- requests whose every configured metric is available and within its threshold, and as evaluable
  -- exactly those whose every configured metric is available. Good and bad requests make up the
  -- evaluable ones, and these with the unevaluable ones all successful requests.
  pub goodput_exact :
      (c : SloConfig fl) (rs : List (Request fl)) (window : Float) (s : SloSummary fl)
      → configured fl c ≡ true
      → calculate_slo fl rs c window ≡ ok s
      → (s.counts.good_requests ≡ count_by (is_good c) rs)
        × (s.counts.evaluable_requests ≡ count_by (is_evaluable c) rs)
        × (s.counts.good_requests + s.counts.bad_requests ≡ s.counts.evaluable_requests)
        × (s.counts.evaluable_requests + s.counts.unevaluable_requests ≡ length rs)
  unfolding calculate_slo
  goodput_exact c rs window s on h =
      let t = tally fl (fresh_tally fl c) rs in
      let (a, b, d, e) = tally_lem c (fresh_tally fl c) rs (Follows-fresh c) in
      let same : s.counts ≡ t = ground arith in rw same (omega (arith, a, b, d, e))
