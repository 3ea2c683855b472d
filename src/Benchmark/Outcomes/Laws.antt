-- ===== src/Benchmark/Outcomes/Laws.antt =====
-- What the outcome counters and the classification promise.
use llm_serving_performance.Prelude.{String, ◌+◌, ◌≡◌, ◌↔◌, ◌≢◌, Option, none, arith}
use llm_serving_performance.Benchmark.Types.{other_outcome, Err}
use llm_serving_performance.Benchmark.Outcomes.{
  OutcomeCounts, failed, total, increment_outcome, classify_outcome, completed, phase_status,
}

-- No classified outcome is unknown.
pub classify-ne-other : (p c r : Option Err) (s : String) → classify_outcome p c r ≢ other_outcome s
unfolding classify_outcome
classify-ne-other p c r s = ground arith

-- Counting a classified outcome adds exactly one to the total.
total-increment_classified :
    (n : OutcomeCounts) (p c r : Option Err)
    → total (increment_outcome n (classify_outcome p c r)) ≡ total n + 1
unfolding total increment_outcome classify_outcome
total-increment_classified n p c r = ground arith

-- A phase is completed exactly if it has no error and no failed request.
pub phase_status-completed :
    (n : OutcomeCounts) (e : Option Err)
    → (phase_status n e ≡ completed) ↔ ((e ≡ none) × (failed n ≡ 0))
unfolding phase_status
phase_status-completed n e = (λ h. ground arith, λ h. ground arith)
