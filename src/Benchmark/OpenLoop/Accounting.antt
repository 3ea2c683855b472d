-- ===== src/Benchmark/OpenLoop/Accounting.antt =====
-- The accounting of an open-loop phase: its arrivals, its counts and its results agree.
use llm_serving_performance.Benchmark.OpenLoop.Slots.{sum_by-active-le-slots}
use llm_serving_performance.Prelude.Sort.{length-sort_by}
use llm_serving_performance.Prelude.{
  [], length-append, sym, ◌-◌, List, Option, ap, arith, length, refl, true, ℕ, ◌++◌, ◌+◌, ◌∙◌, ◌∷◌,
  ◌≡◌, ◌≤◌,
}
use llm_serving_performance.Benchmark.OpenLoop.Reached.{open_reached-Inv}
use llm_serving_performance.Benchmark.OpenLoop.Placed.{IsPlaced-le, is_ended}
use llm_serving_performance.Benchmark.Outcomes.{total}
use llm_serving_performance.Benchmark.ClosedLoop.Count.{issued, has_sequence}
use llm_serving_performance.Prelude.Sums.{sum_by, sum_by-concat, sum_by-sort_by}
use llm_serving_performance.Prelude.Int.{ℤ}
use llm_serving_performance.Benchmark.Types.{Err}
use llm_serving_performance.Benchmark.OpenLoop.Step.{OpenAction, open_run}
use llm_serving_performance.Benchmark.OpenLoop.Result.{
  by_sequence, count_arrivals, open_arrival_counts, open_arrivals, open_end_phase,
  open_phase_result,
}
use llm_serving_performance.Benchmark.OpenLoop.Invariant.{OpenInv}
use llm_serving_performance.Benchmark.OpenLoop.Defs.{OpenPlan, OpenState, Pool, open_initial}
use llm_serving_performance.Benchmark.OpenLoop.Count.{
  all_done-holds, all_done-in_hand, arrival_occupancy, is_client_record, is_scheduler_record,
  is_started_record, record_with, was_client_limited, was_scheduler_limited, was_started,
}
use llm_serving_performance.Benchmark.Coordinator.{Coordinator}
use llm_serving_performance.Benchmark.Arrivals.{ArrivalCounts, ArrivalRecord}

count_arrivals-sums :
    (n : ArrivalCounts) (l : List ArrivalRecord)
    → let m = count_arrivals n l in
      (m.started_count ≡ n.started_count + sum_by is_started_record l)
      × (m.client_limited_count ≡ n.client_limited_count + sum_by is_client_record l)
      × (m.scheduler_limited_count ≡ n.scheduler_limited_count + sum_by is_scheduler_record l)
      × (m.planned ≡ n.planned)
      × (m.processed ≡ n.processed)
      × (m.unprocessed_due_to_cancellation ≡ n.unprocessed_due_to_cancellation)
      × (m.max_observed_in_flight ≡ n.max_observed_in_flight)
unfolding count_arrivals sum_by
count_arrivals-sums n [] = (omega arith, omega arith, omega arith, refl, refl, refl, refl)
count_arrivals-sums n (x ∷ rest) =
    let m : ArrivalCounts = record n {
      started_count = n.started_count + was_started x.disposition;
      client_limited_count = n.client_limited_count + was_client_limited x.disposition;
      scheduler_limited_count = n.scheduler_limited_count + was_scheduler_limited x.disposition;
    } in
    let (begun, client, scheduler, a, b, c, d) = count_arrivals-sums m rest in
    (omega (arith, begun), omega (arith, client), omega (arith, scheduler), a, b, c, d)

-- A record has one disposition.
three_kinds :
    (l : List ArrivalRecord)
    → sum_by is_started_record l + sum_by is_client_record l + sum_by is_scheduler_record l
      ≤ length l
unfolding sum_by
three_kinds [] = omega arith
three_kinds (a ∷ l) = ground (arith, three_kinds l)

-- The sums over the arrivals of a state, in whatever order.
open_arrivals-sum :
    (f : ArrivalRecord → ℕ) (s : OpenState)
    → sum_by f (open_arrivals s) ≡ sum_by f s.pool.dropped + sum_by f s.pool.collected_arrivals
unfolding open_arrivals
open_arrivals-sum f s =
    sum_by-sort_by f by_sequence (s.pool.dropped ++ s.pool.collected_arrivals)
    ∙ sum_by-concat f s.pool.dropped s.pool.collected_arrivals

-- What the end of the phase says about the pool.
pub record IsSettled (p : OpenPlan) (o : Pool) : Type 0 where
  pub each :
      (q : ℕ)
      → sum_by (record_with q) o.dropped + sum_by (record_with q) o.collected_arrivals
        ≡ issued q o.processed
  pub sizes : length o.dropped + length o.collected_arrivals ≡ o.processed
  pub results : length o.collected_arrivals ≡ length o.collected

pub settled :
    (p : OpenPlan) (s : OpenState) → OpenInv p s → is_ended s.main ≡ true → IsSettled p s.pool
unfolding arrival_occupancy sum_by
settled p s v h =
    let (shut, empty) = v.finished h in
    let every = (v.closed shut).1 in
    record {
      each = λ q. omega (
        arith,
        v.tallied.once q,
        v.tallied.gathered q,
        all_done-holds q s.pool.requests every,
        ap (sum_by (has_sequence q)) empty,
      );
      sizes = omega (
        arith,
        v.tallied.balanced,
        v.tallied.one_each,
        all_done-in_hand s.pool.requests every,
        ap length empty,
      );
      results = v.tallied.one_each;
    }

length-open_arrivals :
    (s : OpenState)
    → length (open_arrivals s) ≡ length s.pool.dropped + length s.pool.collected_arrivals
unfolding open_arrivals
length-open_arrivals s =
    length-sort_by by_sequence (s.pool.dropped ++ s.pool.collected_arrivals)
    ∙ length-append s.pool.dropped s.pool.collected_arrivals

pub unprocessed_left :
    (p : OpenPlan) (s : OpenState)
    → (open_arrival_counts p s).unprocessed_due_to_cancellation
      ≡ length p.schedule - s.pool.processed
unfolding open_arrival_counts
unprocessed_left p s = (count_arrivals-sums _ (open_arrivals s)).5

pub accounts_at :
    (p : OpenPlan) (s : OpenState)
    → OpenInv p s
    → (at : ℤ) (q : ℕ) → is_ended s.main ≡ true
    → let r = (open_end_phase p s at).0 in
      (r.arrival_counts.planned
        ≡ r.arrival_counts.started_count + r.arrival_counts.client_limited_count
          + r.arrival_counts.scheduler_limited_count
          + r.arrival_counts.unprocessed_due_to_cancellation)
      × (sum_by (record_with q) r.arrivals ≡ issued q r.arrival_counts.processed)
      × (r.arrival_counts.started_count ≡ length r.completed)
      × (total r.outcomes ≡ length r.completed)
unfolding open_end_phase open_phase_result open_arrival_counts
accounts_at p s v at q h =
    let e = settled p s v h in
    let start : ArrivalCounts = record {
      planned = length p.schedule;
      processed = length (open_arrivals s);
      started_count = 0;
      client_limited_count = 0;
      scheduler_limited_count = 0;
      unprocessed_due_to_cancellation = length p.schedule - s.pool.processed;
      max_observed_in_flight = s.pool.max_active;
    } in
    let (begun, client, scheduler, planned, processed, left_over, _) =
      count_arrivals-sums start (open_arrivals s) in
    let gone = three_kinds s.pool.dropped in
    let kept = three_kinds s.pool.collected_arrivals in
    let sum_begun = open_arrivals-sum is_started_record s in
    let sum_client = open_arrivals-sum is_client_record s in
    let sum_scheduler = open_arrivals-sum is_scheduler_record s in
    let within = IsPlaced-le p s.main s.pool.processed v.placed in
    let size = length-open_arrivals s in
    (
      omega (
        arith, begun, client, scheduler, planned, left_over, gone, kept, sum_begun, sum_client,
        sum_scheduler, within, e.sizes, v.tallied.limited, v.tallied.all_started,
        v.tallied.one_each,
      ),
      open_arrivals-sum (record_with q) s
          ∙ e.each q
          ∙ ap (issued q) (sym (processed ∙ size ∙ e.sizes)),
      omega (arith, begun, gone, sum_begun, v.tallied.limited, v.tallied.all_started),
      v.tallied.recorded,
    )

-- Whatever order the goroutines of an open-loop phase run in, the active requests never exceed the
-- requests that hold a slot, and neither these nor the largest number observed exceed the limit.
pub open_loop_bounded :
    (p : OpenPlan) (c : Coordinator) (parent : Option Err) (steps : List OpenAction)
    → let o = (open_run p (open_initial p c parent) steps).pool in
      (o.active ≤ o.semaphore) × (o.semaphore ≤ p.max_in_flight) × (o.max_active ≤ p.max_in_flight)
open_loop_bounded p c parent steps =
    let v = open_reached-Inv p c parent steps in
    (
      omega (
        arith,
        v.slotted.slots,
        v.slotted.counted_active,
        sum_by-active-le-slots (open_run p (open_initial p c parent) steps).pool.requests,
      ),
      v.slotted.within,
      v.slotted.topped,
    )

-- At the end of the open-loop phase, whatever order its goroutines ran in, the planned arrivals are
-- the started ones, those dropped at the client's limit, those dropped past the deadline and those
-- left unprocessed; the result has one record for each processed arrival, and none for another; it
-- has one completed request for each started arrival, each with one outcome.
pub open_loop_accounts :
    (p : OpenPlan) (c : Coordinator) (parent : Option Err) (steps : List OpenAction) (at : ℤ)
    (q : ℕ)
    → is_ended (open_run p (open_initial p c parent) steps).main ≡ true
    → let r = (open_end_phase p (open_run p (open_initial p c parent) steps) at).0 in
      (r.arrival_counts.planned
        ≡ r.arrival_counts.started_count + r.arrival_counts.client_limited_count
          + r.arrival_counts.scheduler_limited_count
          + r.arrival_counts.unprocessed_due_to_cancellation)
      × (sum_by (record_with q) r.arrivals ≡ issued q r.arrival_counts.processed)
      × (r.arrival_counts.started_count ≡ length r.completed)
      × (total r.outcomes ≡ length r.completed)
unfolding open_end_phase open_phase_result open_arrival_counts
open_loop_accounts p c parent steps at q h =
    let s = open_run p (open_initial p c parent) steps in
    let v = open_reached-Inv p c parent steps in accounts_at p s v at q h
