-- ===== src/Aggregate/Types.antt =====
-- What the aggregation reads, and its ratios and rates, internal/aggregate/types.go and calculate.go.
-- Every text of a reason that is handed over is kept.
use llm_serving_performance.Prelude.{String, Bool, true, false, ◌||◌, if◌then◌else◌}
use llm_serving_performance.Prelude.Int.{ℤ, pos, leb_ℤ}
use llm_serving_performance.Floats.{Floats, zero_float}
use llm_serving_performance.Benchmark.Types.{RequestPhase, RequestOutcome}
use llm_serving_performance.Metrics.Calculate.{RequestMetrics}

module _ (fl : Floats) where
  open fl use {Float, of_int, div, le, is_nan, is_inf}

  pub record Request : Type 0 where
    pub sequence : ℤ
    pub phase : RequestPhase
    pub outcome : RequestOutcome
    pub metrics : RequestMetrics fl

  pub record Ratio : Type 0 where
    pub available : Bool
    pub numerator : ℤ
    pub denominator : ℤ
    pub value : Float
    pub unit : String
    pub reason : String

  pub record Rate : Type 0 where
    pub available : Bool
    pub numerator : ℤ
    pub denominator_seconds : Float
    pub value : Float
    pub unit : String
    pub reason : String

  unfoldable pub calculate_ratio : ℤ → ℤ → String → Ratio
  calculate_ratio numerator denominator why =
      let r : Ratio = record {
        available = false;
        numerator = numerator;
        denominator = denominator;
        value = of_int (pos 0);
        unit = "ratio";
        reason = "";
      } in
      if leb_ℤ denominator (pos 0)
      then record r { reason = why }
      else record r { available = true; value = div (of_int numerator) (of_int denominator) }

  unfoldable pub calculate_rate : ℤ → Float → String → String → Rate
  calculate_rate numerator denominator unit why =
      let r : Rate = record {
        available = false;
        numerator = numerator;
        denominator_seconds = denominator;
        value = of_int (pos 0);
        unit = unit;
        reason = "";
      } in
      if le denominator (zero_float fl) || (is_nan denominator || is_inf denominator)
      then record r { reason = why }
      else record r { available = true; value = div (of_int numerator) denominator }
