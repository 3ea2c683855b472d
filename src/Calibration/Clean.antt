-- ===== src/Calibration/Clean.antt =====
-- A clean open loop has started every planned arrival.
use llm_serving_performance.Prelude.{
  ◌≡◌, refl, sym, ap, ◌∙◌, Bool, true, false, Option, some, List, [], ◌++◌, length, arith,
}
use llm_serving_performance.Prelude.Results.{ok}
use llm_serving_performance.Floats.{Floats}
use llm_serving_performance.Benchmark.Types.{open_loop}
use llm_serving_performance.Aggregate.Types.{Request}
use llm_serving_performance.Aggregate.Input.{Input}
use llm_serving_performance.Aggregate.Load.{OpenLoopSummary, populate_load_summary, open_loop_load}
use llm_serving_performance.Aggregate.Load.Accounting.{open_loop_accounted}
use llm_serving_performance.Calibration.{
  DeliveryReason, RequestCounts, reason_if, Evidence, has_failures, open_reasons, load_reasons,
  evaluate_evidence,
}

reason_if-empty :
    (b : Bool) (r : DeliveryReason) (rest : List DeliveryReason)
    → (reason_if b r ++ rest) ≡ []
    → (b ≡ false) × (rest ≡ [])
unfolding reason_if
reason_if-empty true r rest h = cc
reason_if-empty false r rest h = (refl, h)

module _ (fl : Floats) where
  open fl use {Float}

  open_reasons-empty :
      (e : Evidence fl) (limit : Option Float) (o : OpenLoopSummary fl)
      → open_reasons fl e limit (some o) ≡ []
      → (o.processed_arrivals ≡ o.planned_arrivals)
        × (o.client_limited_arrivals ≡ 0)
        × (o.scheduler_limited_arrivals ≡ 0)
        × (o.unprocessed_due_to_cancellation ≡ 0)
  open_reasons-empty e limit o h =
      let (processed, h1) = reason_if-empty _ _ _ h in
      let (ratio, h2) = reason_if-empty _ _ _ h1 in
      let (clients, h3) = reason_if-empty _ _ _ h2 in
      let (schedulers, h4) = reason_if-empty _ _ _ h3 in
      let (unprocessed, _) = reason_if-empty _ _ _ h4 in
      (ground arith, ground arith, ground arith, ground arith)

  evidence_reasons :
      (e : Evidence fl) (limit : Option Float) (o : OpenLoopSummary fl)
      → evaluate_evidence fl e limit ≡ []
      → e.mode ≡ open_loop
      → e.open_load ≡ some o
      → (has_failures fl e.counts ≡ false) × (open_reasons fl e limit (some o) ≡ [])
  unfolding evaluate_evidence
  evidence_reasons e limit o h m k =
      let (completed, h1) = reason_if-empty _ _ _ h in
      let (failures, h2) = reason_if-empty _ _ _ h1 in
      (
        failures,
        ap (open_reasons fl e limit) (sym k) ∙ sym (ap (λ z. load_reasons fl z e limit) m) ∙ h2,
      )

  no_failures : (c : RequestCounts) → has_failures fl c ≡ false → c.failed_requests ≡ 0
  no_failures c h = ground arith

  -- If the evidence of an open loop gives no reason against it, and its load is the summary of an
  -- input with these measured requests, then every planned arrival has started its request: the
  -- planned arrivals are the started ones and as many as the measured requests, and no request has
  -- failed.
  pub clean_means_delivered :
      (e : Evidence fl) (limit : Option Float) (i : Input fl) (requests : List (Request fl))
      (s : OpenLoopSummary fl)
      → evaluate_evidence fl e limit ≡ []
      → e.mode ≡ open_loop
      → e.open_load ≡ some s
      → populate_load_summary fl i requests ≡ ok (open_loop_load s)
      → (s.planned_arrivals ≡ s.started_arrivals)
        × (s.planned_arrivals ≡ length requests)
        × (e.counts.failed_requests ≡ 0)
  clean_means_delivered e limit i requests s clean m k loaded =
      let (failures, reasons) = evidence_reasons e limit s clean m k in
      let (processed, clients, schedulers, unprocessed) = open_reasons-empty e limit s reasons in
      let (o, arrivals, _, _, a) = open_loop_accounted fl requests i s loaded in
      let all_started : s.planned_arrivals ≡ s.started_arrivals =
        omega (arith, a.split, clients, schedulers, unprocessed) in
      (all_started, all_started ∙ a.requested, no_failures e.counts failures)
