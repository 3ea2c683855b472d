-- ===== src/Aggregate/Selection.antt =====
-- `validateAndSelectMeasured` of internal/aggregate/calculate.go. The maps of seen sequences and
-- identifiers are lists.
pub mod Selected
use llm_serving_performance.Prelude.{
  ℕ, suc, String, Bool, true, false, ◌||◌, ◌&&◌, not, Option, none, some, List, [], ◌∷◌, ◌++◌,
  length, if◌then◌else◌, ◌==◌,
}
use llm_serving_performance.Prelude.Int.{ℤ, pos, ltb_ℤ, leb_ℤ, eqb_ℤ}
use llm_serving_performance.Prelude.Results.{Result, ok, err, ◌>>=◌, ◌>>◌, refuse_if, wrap_err}
use llm_serving_performance.Floats.{Floats}
use llm_serving_performance.Benchmark.Types.{
  RequestPhase, warmup, measured, other_phase, RequestOutcome, other_outcome,
}
use llm_serving_performance.Benchmark.Outcomes.{
  OutcomeCounts, no_outcomes, total, increment_outcome,
}
use llm_serving_performance.Benchmark.Ids.{request_id}
use llm_serving_performance.Aggregate.Types.{Request}
use llm_serving_performance.Aggregate.Slo.{SloErr, validate_slo_config}
use llm_serving_performance.Aggregate.Input.{Input}
use text.Mathlib.Text.{◌==◌ as str_eq}

pub data SelectErr : Type 0 where
  no_run_id no_run_status negative_counts attempted_differs bad_workload : SelectErr
  bad_slo : SloErr → SelectErr
  bad_phase outside_range duplicate_sequence bad_identity duplicate_id bad_outcome : SelectErr
  totals_disagree outcomes_incomplete : SelectErr

abbrev pub eqb_bytes : List ℕ → List ℕ → Bool
eqb_bytes [] [] = true
eqb_bytes (x ∷ xs) (y ∷ ys) = (x == y) && eqb_bytes xs ys
eqb_bytes _ _ = false

abbrev pub seen_sequence : ℤ → List ℤ → Bool
seen_sequence q [] = false
seen_sequence q (s ∷ ss) = eqb_ℤ q s || seen_sequence q ss

abbrev pub seen_id : List ℕ → List (List ℕ) → Bool
seen_id i [] = false
seen_id i (s ∷ ss) = eqb_bytes i s || seen_id i ss

-- `err != nil || request.Metrics.RequestID != requestID`
abbrev pub wrong_id : Option (List ℕ) → List ℕ → Bool
wrong_id none actual = true
wrong_id (some expected) actual = not (eqb_bytes actual expected)

abbrev pub valid_outcome : RequestOutcome → Bool
valid_outcome (other_outcome _) = false
valid_outcome _ = true

abbrev pub eqb_outcomes : OutcomeCounts → OutcomeCounts → Bool
eqb_outcomes a b =
    (a.succeeded_count == b.succeeded_count)
    && ((a.request_error_count == b.request_error_count)
        && ((a.request_timeout_count == b.request_timeout_count)
            && ((a.parent_cancelled_count == b.parent_cancelled_count)
                && (a.drain_timeout_count == b.drain_timeout_count))))

module _ (fl : Floats) where
  -- The locals of the loop.
  pub record Selection : Type 0 where
    pub sequences : List ℤ
    pub ids : List (List ℕ)
    pub outcomes : OutcomeCounts
    pub selected : List (Request fl)

  abbrev pub no_selection : Selection
  no_selection = record { sequences = []; ids = []; outcomes = no_outcomes; selected = [] }

  abbrev pub select : Selection → Request fl → Selection
  select s r = record {
    sequences = r.sequence ∷ s.sequences;
    ids = r.metrics.request_id ∷ s.ids;
    outcomes = increment_outcome s.outcomes r.outcome;
    selected = s.selected ++ (r ∷ []);
  }

  -- The loop's body for a measured request.
  unfoldable pub select_measured : String → ℤ → Selection → Request fl → Result SelectErr Selection
  select_measured run requested s r = do
    refuse_if (leb_ℤ r.sequence (pos 0) || ltb_ℤ requested r.sequence) outside_range
    refuse_if (seen_sequence r.sequence s.sequences) duplicate_sequence
    refuse_if
        (not (str_eq r.metrics.run_id run) || wrong_id (request_id r.sequence) r.metrics.request_id)
        bad_identity
    refuse_if (seen_id r.metrics.request_id s.ids) duplicate_id
    refuse_if (not (valid_outcome r.outcome)) bad_outcome
    ok (select s r)

  -- The loop's body, by the request's phase.
  unfoldable pub select_one :
      String → ℤ → Selection → Request fl → RequestPhase → Result SelectErr Selection
  unfolding select_measured
  select_one run requested s r warmup = ok s
  select_one run requested s r measured = select_measured run requested s r
  select_one run requested s r (other_phase _) = err bad_phase

  unfoldable pub select_all :
      String → ℤ → Selection → List (Request fl) → Result SelectErr Selection
  unfolding select_one
  select_all run requested s [] = ok s
  select_all run requested s (r ∷ rs) =
      select_one run requested s r r.phase >>= λ s'. select_all run requested s' rs

  -- The checks before the loop, and those behind it.
  unfoldable pub check_input : Input fl → Result SelectErr (Unit {0})
  check_input i = do
    refuse_if (str_eq i.run_id "") no_run_id
    refuse_if (str_eq i.run_status "") no_run_status
    refuse_if
        (ltb_ℤ i.measurement.requested (pos 0)
          || (ltb_ℤ i.measurement.attempted (pos 0)
              || (ltb_ℤ i.measurement.completed (pos 0) || ltb_ℤ i.measurement.elapsed_ns (pos 0))))
        negative_counts
    refuse_if (not (eqb_ℤ i.measurement.attempted i.measurement.completed)) attempted_differs
    refuse_if (str_eq i.workload.mode "" || leb_ℤ i.workload.requested_output_max_tokens (pos 0))
        bad_workload
    wrap_err bad_slo (validate_slo_config fl i.slo)

  unfoldable pub check_selected :
      Input fl → Selection → Result SelectErr (List (Request fl) × OutcomeCounts)
  check_selected i s = do
    refuse_if
        (not (eqb_ℤ (pos (length s.selected)) i.measurement.completed)
          || not (eqb_outcomes s.outcomes i.measurement.outcomes))
        totals_disagree
    refuse_if (not (total s.outcomes == length s.selected)) outcomes_incomplete
    ok (s.selected, s.outcomes)

  unfoldable pub validate_and_select_measured :
      Input fl → Result SelectErr (List (Request fl) × OutcomeCounts)
  unfolding check_input select_all check_selected
  validate_and_select_measured i = do
    check_input i
    s ← select_all i.run_id i.measurement.requested no_selection i.requests
    check_selected i s
