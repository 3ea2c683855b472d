-- ===== src/Aggregate/Tokens.antt =====
-- `calculateTokens` and `addInt64` of internal/aggregate/calculate.go.
pub mod Totals
use llm_serving_performance.Prelude.{
  ℕ, suc, ◌-◌, String, Bool, true, false, ◌||◌, ◌&&◌, not, Option, none, some, List, [], ◌∷◌,
  length, if◌then◌else◌, ◌==◌,
}
use llm_serving_performance.Prelude.Int.{ℤ, pos, ◌+ℤ◌, ◌-ℤ◌, ltb_ℤ, eqb_ℤ, wrap64, max_int64}
use llm_serving_performance.Floats.{Floats, zero_float}
use llm_serving_performance.Benchmark.Observation.{TokenUsage}
use llm_serving_performance.Aggregate.Types.{Request, Rate, calculate_rate}

-- Why token totals are unavailable; the first names the request.
pub data TokenReason : Type 0 where
  usage_inconsistent : List ℕ → TokenReason
  totals_overflow no_requests window_not_positive : TokenReason
  usage_unavailable : ℕ → TokenReason

-- The sum, unless it is above the largest int64.
unfoldable pub add_int64 : ℤ → ℤ → Option ℤ
add_int64 left right =
    if ltb_ℤ (pos 0) right && ltb_ℤ (pos max_int64 -ℤ right) left
    then none
    else some (wrap64 (left +ℤ right))

unfoldable pub inconsistent : TokenUsage → Bool
inconsistent u =
    ltb_ℤ u.input_tokens (pos 0)
    || (ltb_ℤ u.output_tokens (pos 0)
        || (ltb_ℤ u.total_tokens (pos 0)
            || (ltb_ℤ (pos max_int64 -ℤ u.output_tokens) u.input_tokens
                || not (eqb_ℤ (u.input_tokens +ℤ u.output_tokens) u.total_tokens))))

-- The locals of the loop.
pub record TokenTotals : Type 0 where
  pub covered : ℕ
  pub input : ℤ
  pub output : ℤ
  pub all : ℤ
  pub reason : Option TokenReason

abbrev pub no_totals : TokenTotals
no_totals = record { covered = 0; input = pos 0; output = pos 0; all = pos 0; reason = none }

abbrev pub with_sums : TokenTotals → Option ℤ → Option ℤ → Option ℤ → TokenTotals
with_sums t (some i) (some o) (some a) = record t { input = i; output = o; all = a }
with_sums t _ _ _ = record t { reason = some totals_overflow }

-- The loop's body, with the request's identifier.
unfoldable pub count_usage : TokenTotals → List ℕ → TokenUsage → TokenTotals
unfolding add_int64 inconsistent
count_usage t id u =
    if not u.available
    then t
    else if inconsistent u
    then record t { covered = suc t.covered; reason = some (usage_inconsistent id) }
    else with_sums (record t { covered = suc t.covered }) (add_int64 t.input u.input_tokens)
        (add_int64 t.output u.output_tokens) (add_int64 t.all u.total_tokens)

module _ (fl : Floats) where
  open fl use {Float, le, of_int}

  unfoldable pub count_all : TokenTotals → List (Request fl) → TokenTotals
  unfolding count_usage
  count_all t [] = t
  count_all t (r ∷ rs) = count_all (count_usage t r.metrics.request_id r.metrics.token_usage) rs

  -- The reason after the loop.
  abbrev pub final_reason : ℕ → TokenTotals → Float → Option TokenReason
  final_reason requests t window = if requests == 0 then some no_requests else elim t.reason [
    | some reason ↦ some reason
    | none ↦
        if not (t.covered == requests)
        then some (usage_unavailable (requests - t.covered))
        else if le window (zero_float fl)
        then some window_not_positive
        else none
  ]

  pub record TokenSummary : Type 0 where
    pub available : Bool
    pub successful_requests : ℕ
    pub usage_covered_requests : ℕ
    pub input_tokens : ℤ
    pub output_tokens : ℤ
    pub total_tokens : ℤ
    pub input_rate : Option (Rate fl)
    pub output_rate : Option (Rate fl)
    pub total_rate : Option (Rate fl)
    pub why : Option TokenReason

  abbrev token_rate : ℤ → Float → Rate fl
  token_rate n window =
      calculate_rate fl n window "tokens/s" "measurement completion window must be positive"

  abbrev pub token_summary : ℕ → TokenTotals → Float → Option TokenReason → TokenSummary
  token_summary requests t window none = record {
    available = true;
    successful_requests = requests;
    usage_covered_requests = t.covered;
    input_tokens = t.input;
    output_tokens = t.output;
    total_tokens = t.all;
    input_rate = some (token_rate t.input window);
    output_rate = some (token_rate t.output window);
    total_rate = some (token_rate t.all window);
    why = none;
  }
  token_summary requests t window (some reason) = record {
    available = false;
    successful_requests = requests;
    usage_covered_requests = t.covered;
    input_tokens = pos 0;
    output_tokens = pos 0;
    total_tokens = pos 0;
    input_rate = none;
    output_rate = none;
    total_rate = none;
    why = some reason;
  }

  -- An unavailable summary has no rates; the source's are unavailable ones with the same reason.
  unfoldable pub calculate_tokens : List (Request fl) → Float → TokenSummary
  unfolding count_all
  calculate_tokens successful window =
      let t = count_all no_totals successful in
      token_summary (length successful) t window (final_reason (length successful) t window)
