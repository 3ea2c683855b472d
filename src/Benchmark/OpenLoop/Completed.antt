-- ===== src/Benchmark/OpenLoop/Completed.antt =====
-- What the status of an open-loop phase promises.
use llm_serving_performance.Benchmark.OpenLoop.Whole.{IsWhole, is_behind, main_step-IsWhole}
use llm_serving_performance.Benchmark.Outcomes.Laws.{phase_status-completed}
use llm_serving_performance.Benchmark.Outcomes.{OutcomeCounts, total, failed, completed}
use llm_serving_performance.Benchmark.OpenLoop.Reached.{
  open_initial-Inv, open_reached-Inv, collect_result-kept, open_step-Inv, request_at-placed,
}
use llm_serving_performance.Benchmark.OpenLoop.Accounting.{accounts_at, unprocessed_left}
use llm_serving_performance.Prelude.{
  get_elem?, none, some, ◌&&◌, Bool-cases, List, [], ap, arith, inl, inr, refl, sym, ℕ, ◌∙◌, ◌∷◌,
  Bool, Option, false, length, true, ◌≡◌,
}
use llm_serving_performance.Benchmark.OpenLoop.Step.{
  OpenAction, all_done, cancel_parent, close_results, collect, open_run, open_step, request,
  schedule_step,
}
use llm_serving_performance.Benchmark.OpenLoop.Result.{
  open_arrival_counts, open_end_phase, open_phase_result,
}
use llm_serving_performance.Benchmark.OpenLoop.Placed.{is_ended}
use llm_serving_performance.Benchmark.OpenLoop.Defs.{
  Pool, empty_pool, open_initial, next_arrival, Main, OpenPlan, OpenState,
}
use llm_serving_performance.Benchmark.Coordinator.{Coordinator}
use llm_serving_performance.Benchmark.ClosedLoop.Step.{first_cause, is_some_err}
use llm_serving_performance.Prelude.Int.{ℤ}
use llm_serving_performance.Benchmark.OpenLoop.Invariant.{OpenInv}
use llm_serving_performance.Benchmark.Types.{Err}

pool-IsWhole :
    (p : OpenPlan) (s : OpenState) (o : Pool)
    → o.processed ≡ s.pool.processed
    → IsWhole p s
    → IsWhole p (record s { pool = o })
pool-IsWhole p s o n h = record {
  cancelled = h.cancelled;
  at_left = λ g f. n ∙ h.at_left g f;
  behind = λ g f. n ∙ h.behind g f;
}

pub open_step-IsWhole :
    (p : OpenPlan) (s : OpenState) (a : OpenAction)
    → OpenInv p s
    → IsWhole p s
    → IsWhole p (open_step p s a)
unfolding open_step
open_step-IsWhole p s (schedule_step a) v h = main_step-IsWhole p s s.main a refl v h
open_step-IsWhole p s (request i a) v h =
    pool-IsWhole p s _ (request_at-placed p s s.pool i a (get_elem? s.pool.requests i)) h
open_step-IsWhole p s collect v h =
    pool-IsWhole p s _ (collect_result-kept s.pool s.pool.results).0 h
open_step-IsWhole p s close_results v h =
    elim (Bool-cases (s.launched && all_done s.pool.requests)) [
      | inl e ↦ rw e (record { cancelled = h.cancelled; at_left = h.at_left; behind = h.behind })
      | inr e ↦ rw e h
    ]
open_step-IsWhole p s (cancel_parent err) v h = record {
  cancelled = λ g. is_some-first s.parent_err err;
  at_left = λ g f. absurd (clash (is_some-first s.parent_err err) f);
  behind = h.behind;
}
  where
    is_some-first : (c : Option Err) (e : Err) → is_some_err (first_cause c e) ≡ true
    is_some-first none e = refl
    is_some-first (some c) e = refl

    clash : {b : Bool} → b ≡ true → b ≡ false → ⊥
    clash t f = cc

open_run-IsWhole :
    (p : OpenPlan) (s : OpenState) (steps : List OpenAction)
    → OpenInv p s
    → IsWhole p s
    → IsWhole p (open_run p s steps)
unfolding open_run
open_run-IsWhole p s [] v h = h
open_run-IsWhole p s (a ∷ rest) v h =
    open_run-IsWhole p (open_step p s a) rest (open_step-Inv p s a v) (open_step-IsWhole p s a v h)

pub open_initial-IsWhole :
    (p : OpenPlan) (c : Coordinator) (parent : Option Err) → IsWhole p (open_initial p c parent)
unfolding open_initial
open_initial-IsWhole p c parent = start p.schedule refl
  where
    start :
        (l : List ℤ)
        → p.schedule ≡ l
        → IsWhole p (record {
          main = next_arrival 0 l;
          pool = empty_pool;
          launched = false;
          results_closed = false;
          parent_err = parent;
          phase_cause = parent;
          phase_err = none;
          coordinator = c;
        })
    start [] e = record {
      cancelled = λ h. cc;
      at_left = λ h g. sym (ap length e);
      behind = λ h. cc;
    }
    start (x ∷ l) e = record { cancelled = λ h. cc; at_left = λ h. cc; behind = λ h. cc }

whole_at :
    (p : OpenPlan) (s : OpenState) (at : ℤ)
    → OpenInv p s
    → IsWhole p s
    → is_ended s.main ≡ true
    → (open_end_phase p s at).0.status ≡ completed
    → let (r, err, c) = open_end_phase p s at in
      (err ≡ none)
      × (r.arrival_counts.unprocessed_due_to_cancellation ≡ 0)
      × (r.outcomes.succeeded_count ≡ r.arrival_counts.started_count)
unfolding open_end_phase open_phase_result open_arrival_counts total
whole_at p s at v h e done_well =
    let (no_error, no_failure) = (phase_status-completed s.pool.outcomes s.phase_err).0 done_well in
    let (_, _, begun, totals) = accounts_at p s v at 0 e in
    let whole = h.behind (ended-behind s.main e) (ap is_some_err no_error) in
    (
      no_error,
      omega (arith, unprocessed_left p s, whole),
      succeeded_all s.pool.outcomes _ no_failure (totals ∙ sym begun),
    )
  where
    ended-behind : (m : Main) → is_ended m ≡ true → is_behind m ≡ true
    ended-behind m g = ground arith

    succeeded_all : (n : OutcomeCounts) (k : ℕ) → failed n ≡ 0 → total n ≡ k → n.succeeded_count ≡ k
    succeeded_all n k f g = omega (arith, f, g)

-- An open-loop phase that has ended and is reported as completed has no error, has left no arrival
-- unprocessed, and each request that it has started has succeeded.
pub open_completed_means_all :
    (p : OpenPlan) (c : Coordinator) (parent : Option Err) (steps : List OpenAction) (at : ℤ)
    → is_ended (open_run p (open_initial p c parent) steps).main ≡ true
    → (open_end_phase p (open_run p (open_initial p c parent) steps) at).0.status ≡ completed
    → let (r, err, c') = open_end_phase p (open_run p (open_initial p c parent) steps) at in
      (err ≡ none)
      × (r.arrival_counts.unprocessed_due_to_cancellation ≡ 0)
      × (r.outcomes.succeeded_count ≡ r.arrival_counts.started_count)
open_completed_means_all p c parent steps at e done_well =
    whole_at p (open_run p (open_initial p c parent) steps) at (open_reached-Inv p c parent steps)
      (open_run-IsWhole p (open_initial p c parent) steps (open_initial-Inv p c parent)
        (open_initial-IsWhole p c parent))
      e done_well
