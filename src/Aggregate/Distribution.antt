-- ===== src/Aggregate/Distribution.antt =====
-- `SummarizeDistribution` of internal/aggregate/distribution.go, over the abstract floats. The
-- outer `none` is a panic: an index out of range. `sort.Float64s` is a sort by `<=`; of the order of
-- equal numbers nothing is said.
pub mod Ranks
pub mod Bounds
use llm_serving_performance.Prelude.{
  ℕ, zero, suc, ◌+◌, String, Bool, true, false, ◌||◌, Option, none, some, List, [], ◌∷◌, length,
  get_elem?, if◌then◌else◌,
}
use llm_serving_performance.Prelude.Int.{ℤ, pos, negsuc, ◌-ℤ◌, ltb_ℤ}
use llm_serving_performance.Prelude.Results.{Result, ok, err}
use llm_serving_performance.Prelude.Sort.{sort_by}
use llm_serving_performance.Floats.{Floats, zero_float, not_finite}
use mathlib.Core.Option
use text.Mathlib.Text.{◌==◌ as str_eq}

pub data DistributionErr : Type 0 where
  negative_unavailable no_unit no_reason sample_not_finite mean_not_finite : DistributionErr
  -- an error of a caller, of the request that it names
  invalid_metric : DistributionErr

module _ (fl : Floats) where
  open fl use {Float, of_int, to_int, literal, add, mul, div, ceil, le, is_nan, is_inf}

  -- The fields after `available` are zero where it is false.
  pub record DistributionStats : Type 0 where
    pub sample_count : ℕ
    pub mean : Float
    pub minimum : Float
    pub p50 : Float
    pub p90 : Float
    pub p95 : Float
    pub p99 : Float
    pub maximum : Float

  pub record Distribution : Type 0 where
    pub available : Bool
    pub unavailable_count : ℤ
    pub stats : DistributionStats
    pub unit : String
    pub reason : String

  abbrev pub no_stats : DistributionStats
  no_stats = record {
    sample_count = 0;
    mean = of_int (pos 0);
    minimum = of_int (pos 0);
    p50 = of_int (pos 0);
    p90 = of_int (pos 0);
    p95 = of_int (pos 0);
    p99 = of_int (pos 0);
    maximum = of_int (pos 0);
  }

  unfoldable pub all_finite : List Float → Bool
  all_finite [] = true
  all_finite (x ∷ xs) = if not_finite fl x then false else all_finite xs

  unfoldable pub sum_from : Float → List Float → Float
  sum_from total [] = total
  sum_from total (x ∷ xs) = sum_from (add total x) xs

  -- `ordered[index]` at a signed index.
  abbrev pub at_index : List Float → ℤ → Option Float
  at_index xs (pos i) = get_elem? xs i
  at_index xs (negsuc i) = none

  -- The index of a percentile, given as the literal n / 100.
  unfoldable pub rank_index : ℕ → ℕ → ℤ
  rank_index count percent =
      let rank = to_int (ceil (mul (literal percent 100) (of_int (pos count)))) in
      let index = rank -ℤ pos 1 in if ltb_ℤ index (pos 0) then pos 0 else index

  unfoldable pub nearest_rank : List Float → ℕ → Option Float
  unfolding rank_index
  nearest_rank ordered percent = at_index ordered (rank_index (length ordered) percent)

  infixl 5 ◌>>=◌
  abbrev ◌>>=◌ : {A B : Type 0} → Option A → (A → Option B) → Option B
  none >>= f = none
  some a >>= f = f a

  -- The record of an ordered, finite, non-empty list.
  unfoldable pub describe : List Float → Float → Option DistributionStats
  unfolding nearest_rank
  describe ordered average = do
    first ← get_elem? ordered 0
    fifty ← nearest_rank ordered 50
    ninety ← nearest_rank ordered 90
    ninety_five ← nearest_rank ordered 95
    ninety_nine ← nearest_rank ordered 99
    last ← at_index ordered (pos (length ordered) -ℤ pos 1)
    some (record {
      sample_count = length ordered;
      mean = average;
      minimum = first;
      p50 = fifty;
      p90 = ninety;
      p95 = ninety_five;
      p99 = ninety_nine;
      maximum = last;
    })

  abbrev pub available_distribution : ℤ → String → DistributionStats → Distribution
  available_distribution unavailable_count unit stats = record {
    available = true;
    unavailable_count = unavailable_count;
    stats = stats;
    unit = unit;
    reason = "";
  }

  abbrev pub mean_of : List Float → Float
  mean_of ordered = div (sum_from (zero_float fl) ordered) (of_int (pos (length ordered)))

  unfoldable pub summarize_samples :
      List Float → ℤ → String → Option (Result DistributionErr Distribution)
  unfolding all_finite sum_from describe sort_by
  summarize_samples samples unavailable_count unit =
      let ordered = sort_by le samples in
      if all_finite samples
      then if not_finite fl (mean_of ordered)
        then some (err mean_not_finite)
        else Option.map (λ stats. ok (available_distribution unavailable_count unit stats))
            (describe ordered (mean_of ordered))
      else some (err sample_not_finite)

  unfoldable pub summarize_distribution :
      List Float → ℤ → String → String → Option (Result DistributionErr Distribution)
  unfolding summarize_samples
  summarize_distribution samples unavailable_count unit empty_reason =
      if ltb_ℤ unavailable_count (pos 0)
      then some (err negative_unavailable)
      else if str_eq unit ""
      then some (err no_unit)
      else elim samples [
        | [] ↦
            if str_eq empty_reason ""
            then some (err no_reason)
            else some (
                ok (record {
                  available = false;
                  unavailable_count = unavailable_count;
                  stats = no_stats;
                  unit = unit;
                  reason = empty_reason;
                }))
        | x ∷ xs ↦ summarize_samples (x ∷ xs) unavailable_count unit
      ]
