-- ===== src/Calibration.antt =====
-- `EvaluateEvidence` of internal/calibration/evaluate.go: whether a run has delivered its load
-- cleanly, and why not. The run's evidence is the fields that it reads of the summary and of the
-- metadata.
pub mod Clean
use llm_serving_performance.Prelude.{
  ℕ, String, Bool, true, false, ◌||◌, not, Option, none, some, List, [], ◌∷◌, ◌++◌, if◌then◌else◌,
  ◌==◌,
}
use llm_serving_performance.Prelude.Int.{ℤ, eqb_ℤ, pos}
use llm_serving_performance.Floats.{Floats}
use llm_serving_performance.Benchmark.Types.{LoadMode, closed_loop, open_loop}
use llm_serving_performance.Aggregate.Load.{OpenLoopSummary}
use text.Mathlib.Text.{◌==◌ as str_eq}

pub data DeliveryReason : Type 0 where
  run_not_completed request_failures_present requests_not_fully_attempted : DeliveryReason
  planned_not_processed delivery_ratio_below_one was_client_limited : DeliveryReason
  was_scheduler_limited cancellation_unprocessed lag_unavailable lag_exceeded : DeliveryReason

-- `aggregate.RequestCounts`, whose counters start at zero and grow.
pub record RequestCounts : Type 0 where
  pub requested_or_planned : ℤ
  pub started_requests : ℕ
  pub completed_requests : ℕ
  pub successful : ℕ
  pub failed_requests : ℕ
  pub request_errors : ℕ
  pub request_timeouts : ℕ
  pub parent_cancellations : ℕ
  pub drain_timeouts : ℕ

unfoldable pub reason_if : Bool → DeliveryReason → List DeliveryReason
reason_if true reason = reason ∷ []
reason_if false reason = []

module _ (fl : Floats) where
  open fl use {Float, of_int, eq, lt}

  pub record Evidence : Type 0 where
    pub run_status : String
    pub complete : Bool
    pub counts : RequestCounts
    pub mode : LoadMode
    pub open_load : Option (OpenLoopSummary fl)
    pub attempted : ℤ
    pub lag_available : Bool
    pub lag_p95 : Float

  abbrev pub has_failures : RequestCounts → Bool
  has_failures c =
      not (c.failed_requests == 0)
      || (not (c.request_errors == 0)
          || (not (c.request_timeouts == 0)
              || (not (c.parent_cancellations == 0) || not (c.drain_timeouts == 0))))

  abbrev pub closed_reasons : Evidence → List DeliveryReason
  closed_reasons e =
      reason_if
        (not (eqb_ℤ e.counts.requested_or_planned e.attempted)
          || (not (eqb_ℤ e.counts.requested_or_planned (pos e.counts.completed_requests))
              || not (eqb_ℤ e.counts.requested_or_planned (pos e.counts.successful))))
        requests_not_fully_attempted

  abbrev pub lag_reasons : Evidence → Option Float → List DeliveryReason
  lag_reasons e none = []
  lag_reasons e (some limit) =
      if not e.lag_available
      then lag_unavailable ∷ []
      else reason_if (lt limit e.lag_p95) lag_exceeded

  abbrev pub open_reasons :
      Evidence → Option Float → Option (OpenLoopSummary fl) → List DeliveryReason
  open_reasons e limit none = planned_not_processed ∷ []
  open_reasons e limit (some o) =
      reason_if (not (o.processed_arrivals == o.planned_arrivals)) planned_not_processed
      ++ (reason_if
            (not o.delivery_ratio.available
              || (not (eqb_ℤ o.delivery_ratio.numerator o.delivery_ratio.denominator)
                  || not (eq o.delivery_ratio.value (of_int (pos 1)))))
            delivery_ratio_below_one
          ++ (reason_if (not (o.client_limited_arrivals == 0)) was_client_limited
              ++ (reason_if (not (o.scheduler_limited_arrivals == 0)) was_scheduler_limited
                  ++ (reason_if (not (o.unprocessed_due_to_cancellation == 0))
                        cancellation_unprocessed
                      ++ lag_reasons e limit))))

  abbrev pub load_reasons : LoadMode → Evidence → Option Float → List DeliveryReason
  load_reasons closed_loop e limit = closed_reasons e
  load_reasons open_loop e limit = open_reasons e limit e.open_load
  load_reasons _ e limit = run_not_completed ∷ []

  -- The reasons; a run is clean if there are none.
  unfoldable pub evaluate_evidence : Evidence → Option Float → List DeliveryReason
  unfolding reason_if
  evaluate_evidence e limit =
      reason_if (not (str_eq e.run_status "completed") || not e.complete) run_not_completed
      ++ (reason_if (has_failures e.counts) request_failures_present ++ load_reasons e.mode e limit)
