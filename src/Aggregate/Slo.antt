-- ===== src/Aggregate/Slo.antt =====
-- SLO evaluation and goodput, `calculateSLO`, `evaluateSLOMetric` and `validateSLOConfig` of
-- internal/aggregate/calculate.go. The counters are bounded by the number of requests.
pub mod Goodput
use llm_serving_performance.Prelude.{
  ℕ, suc, ◌+◌, String, Bool, true, false, ◌||◌, not, Option, none, some, List, [], ◌∷◌, length,
  if◌then◌else◌,
}
use llm_serving_performance.Prelude.Int.{ℤ, pos}
use llm_serving_performance.Prelude.Results.{Result, ok, err, ◌>>=◌, ◌>>◌, refuse_if}
use llm_serving_performance.Floats.{Floats, zero_float, finite_non_negative}
use llm_serving_performance.Metrics.Windows.{Scalar}
use llm_serving_performance.Aggregate.Types.{Request, Ratio, Rate, calculate_ratio, calculate_rate}

pub data SloErr : Type 0 where
  bad_ttft bad_tpot bad_e2e : SloErr

abbrev pub is_some_of {ℓ} : {A : Type ℓ} → Option A → Bool
is_some_of none = false
is_some_of (some a) = true

module _ (fl : Floats) where
  open fl use {Float, of_int, le}

  pub record SloConfig : Type 0 where
    pub ttft_ms : Option Float
    pub tpot_ms : Option Float
    pub e2e_ms : Option Float

  unfoldable pub configured : SloConfig → Bool
  configured c = is_some_of c.ttft_ms || (is_some_of c.tpot_ms || is_some_of c.e2e_ms)

  abbrev bad_threshold : Option Float → Bool
  bad_threshold none = false
  bad_threshold (some v) = not (finite_non_negative fl v) || le v (zero_float fl)

  unfoldable pub validate_slo_config : SloConfig → Result SloErr (Unit {0})
  unfolding finite_non_negative
  validate_slo_config c = do
    refuse_if (bad_threshold c.ttft_ms) bad_ttft
    refuse_if (bad_threshold c.tpot_ms) bad_tpot
    refuse_if (bad_threshold c.e2e_ms) bad_e2e
    ok tt

  pub record SloMetricSummary : Type 0 where
    pub threshold_ms : Float
    pub available_successful_requests : ℕ
    pub passing_requests : ℕ
    pub failing_requests : ℕ
    pub unavailable_requests : ℕ

  abbrev pub fresh_summary : Float → SloMetricSummary
  fresh_summary threshold = record {
    threshold_ms = threshold;
    available_successful_requests = 0;
    passing_requests = 0;
    failing_requests = 0;
    unavailable_requests = 0;
  }

  abbrev pub fresh : Option Float → Option SloMetricSummary
  fresh none = none
  fresh (some threshold) = some (fresh_summary threshold)

  -- The summary with the two flags behind the pointers.
  unfoldable pub evaluate_slo_metric :
      SloMetricSummary → Scalar fl → Bool × Bool → SloMetricSummary × (Bool × Bool)
  evaluate_slo_metric s value (evaluable, passed) =
      if not value.available
      then (record s { unavailable_requests = s.unavailable_requests + 1 }, (false, passed))
      else if le value.value s.threshold_ms
      then (
        record s {
          available_successful_requests = s.available_successful_requests + 1;
          passing_requests = s.passing_requests + 1;
        },
        (evaluable, passed),
      )
      else (
        record s {
          available_successful_requests = s.available_successful_requests + 1;
          failing_requests = s.failing_requests + 1;
        },
        (evaluable, false),
      )

  -- A metric with no threshold is not evaluated.
  abbrev pub evaluate_if :
      Option SloMetricSummary → Scalar fl → Bool × Bool → Option SloMetricSummary × (Bool × Bool)
  evaluate_if none value flags = (none, flags)
  evaluate_if (some s) value flags =
      let (s', flags') = evaluate_slo_metric s value flags in (some s', flags')

  pub record SloTally : Type 0 where
    pub ttft : Option SloMetricSummary
    pub tpot : Option SloMetricSummary
    pub e2e : Option SloMetricSummary
    pub evaluable_requests : ℕ
    pub unevaluable_requests : ℕ
    pub good_requests : ℕ
    pub bad_requests : ℕ

  abbrev pub fresh_tally : SloConfig → SloTally
  fresh_tally c = record {
    ttft = fresh c.ttft_ms;
    tpot = fresh c.tpot_ms;
    e2e = fresh c.e2e_ms;
    evaluable_requests = 0;
    unevaluable_requests = 0;
    good_requests = 0;
    bad_requests = 0;
  }

  abbrev pub count_request : SloTally → Bool × Bool → SloTally
  count_request t (false, passed) = record t { unevaluable_requests = t.unevaluable_requests + 1 }
  count_request t (true, true) = record t {
    evaluable_requests = t.evaluable_requests + 1;
    good_requests = t.good_requests + 1;
  }
  count_request t (true, false) = record t {
    evaluable_requests = t.evaluable_requests + 1;
    bad_requests = t.bad_requests + 1;
  }

  -- The loop's body, for one successful request.
  unfoldable pub tally_request : SloTally → Request fl → SloTally
  unfolding evaluate_slo_metric
  tally_request t r =
      let (ttft, flags) = evaluate_if t.ttft r.metrics.ttft (true, true) in
      let (tpot, flags') = evaluate_if t.tpot r.metrics.tpot flags in
      let (e2e, flags'') = evaluate_if t.e2e r.metrics.e2e flags' in
      count_request (record t { ttft = ttft; tpot = tpot; e2e = e2e }) flags''

  unfoldable pub tally : SloTally → List (Request fl) → SloTally
  unfolding tally_request
  tally t [] = t
  tally t (r ∷ rs) = tally (tally_request t r) rs

  pub record SloSummary : Type 0 where
    pub is_configured : Bool
    pub successful_requests : ℕ
    pub counts : SloTally
    pub pass_ratio : Ratio fl
    pub goodput : Rate fl

  abbrev goodput_no_slo_reason : String
  goodput_no_slo_reason = "no SLO configured"

  abbrev pub configured_summary : SloTally → ℕ → Float → SloSummary
  configured_summary t successful completion_seconds = record {
    is_configured = true;
    successful_requests = successful;
    counts = t;
    pass_ratio =
        calculate_ratio fl (pos t.good_requests) (pos t.evaluable_requests)
          "no successful measured requests were evaluable against every configured SLO";
    goodput =
        calculate_rate fl (pos t.good_requests) completion_seconds "requests/s"
          "measurement completion window must be positive";
  }

  abbrev pub unconfigured_summary : SloConfig → ℕ → SloSummary
  unconfigured_summary c successful = record {
    is_configured = false;
    successful_requests = successful;
    counts = fresh_tally c;
    pass_ratio = calculate_ratio fl (pos 0) (pos 0) goodput_no_slo_reason;
    goodput = calculate_rate fl (pos 0) (of_int (pos 0)) "requests/s" goodput_no_slo_reason;
  }

  unfoldable pub calculate_slo : List (Request fl) → SloConfig → Float → Result SloErr SloSummary
  unfolding validate_slo_config configured tally
  calculate_slo successful c completion_seconds = do
    validate_slo_config c
    ok (
        if configured c
        then configured_summary (tally (fresh_tally c) successful) (length successful)
            completion_seconds
        else unconfigured_summary c (length successful))
