-- ===== src/Benchmark/OpenLoop/Arriving.antt =====
-- What the arrival of a request and a round of the collector do to the accounts.
use llm_serving_performance.Benchmark.Ids.Injective.{phase_request_id-next}
use llm_serving_performance.Benchmark.OpenLoop.Step.{
  append_arrival, collect_result, dropped_arrival, launch, launch_of, overdue, start_request,
}
use llm_serving_performance.Prelude.Sums.{sum_by-append, sum_by-concat, sum_by}
use llm_serving_performance.Benchmark.ClosedLoop.Count.{
  same, issued-suc, issued, has_sequence, is_other,
}
use llm_serving_performance.Prelude.{
  [], Option-cases, length-append, List, Option, ap, arith, inl, inr, length, none, refl, some, suc,
  sym, ℕ, ◌++◌, ◌+◌, ◌∙◌, ◌∷◌, ◌≡◌,
}
use llm_serving_performance.Benchmark.Outcomes.{total, OutcomeCounts, increment_outcome}
use llm_serving_performance.Benchmark.Types.{RequestOutcome, client_limited}
use llm_serving_performance.Prelude.Int.{pos, ℤ}
use llm_serving_performance.Benchmark.OpenLoop.Defs.{OpenPlan, Pool, Request, in_runner}
use llm_serving_performance.Benchmark.OpenLoop.Count.{
  arrival_occupancy, bad_arrival, holds_arrival, in_hand, is_client_record, is_scheduler_record,
  is_started_record, record_with, unsound, unsound_result,
}
use llm_serving_performance.Benchmark.OpenLoop.Accounts.{IsTallied}
use llm_serving_performance.Benchmark.Ids.{phase_request_id}
use llm_serving_performance.Benchmark.Arrivals.{ArrivalRecord, CompletedRequest}

pub start_request-frame :
    (p : OpenPlan) (o : Pool) (q : ℕ) (offset : ℤ)
    → let t = start_request p o q offset in
      (t.processed ≡ o.processed)
      × (t.results ≡ o.results)
      × (t.collected ≡ o.collected)
      × (t.collected_arrivals ≡ o.collected_arrivals)
      × (t.outcomes ≡ o.outcomes)
unfolding start_request launch
start_request-frame p o q offset = elim (Option-cases (phase_request_id p.phase (pos q))) [
  | inl e ↦ ground arith
  | inr (id, e) ↦ ground arith
]

-- An arrival with an identifier is either dropped or in a request's hands.
start_request-occupancy :
    (p : OpenPlan) (o : Pool) (q r : ℕ) (offset : ℤ) (id : List ℕ)
    → phase_request_id p.phase (pos q) ≡ some id
    → let t = start_request p o q offset in
      (arrival_occupancy r t ≡ arrival_occupancy r o + same r q)
      × (length t.dropped + sum_by in_hand t.requests
          ≡ length o.dropped + sum_by in_hand o.requests + 1)
      × (sum_by is_client_record t.dropped + sum_by is_scheduler_record t.dropped + length o.dropped
          ≡ sum_by is_client_record o.dropped
            + sum_by is_scheduler_record o.dropped
            + length t.dropped)
      × (sum_by unsound t.requests ≡ sum_by unsound o.requests)
unfolding start_request launch arrival_occupancy dropped_arrival
start_request-occupancy p o q r offset id h =
    let gone : ArrivalRecord = dropped_arrival p q offset client_limited in
    let begun : Request = in_runner (launch_of p q offset id) in
    (
      ground (
        arith,
        h,
        sum_by-append (record_with r) o.dropped gone,
        sum_by-append (holds_arrival r) o.requests begun,
      ),
      ground
          (arith, h, length-append o.dropped (gone ∷ []), sum_by-append in_hand o.requests begun),
      ground (
        arith,
        h,
        length-append o.dropped (gone ∷ []),
        sum_by-append is_client_record o.dropped gone,
        sum_by-append is_scheduler_record o.dropped gone,
      ),
      ground (arith, h, sum_by-append unsound o.requests begun),
    )

-- The next arrival is accounted for.
pub start_request-IsTallied :
    (p : OpenPlan) (o : Pool) (i : ℕ) (offset : ℤ)
    → o.processed ≡ i
    → IsTallied p o
    → IsTallied p
        (let t = start_request p o (i + 1) offset in record t { processed = t.processed + 1 })
unfolding arrival_occupancy
start_request-IsTallied p o i offset e v =
    let (id, known) = phase_request_id-next p.phase i in
    let (processed, results, collected, arrivals, outcomes) =
      start_request-frame p o (i + 1) offset in
    let (_, in_hands, limited, sound) = start_request-occupancy p o (i + 1) 0 offset id known in
    record {
      once = λ q. omega (
        arith,
        (start_request-occupancy p o (i + 1) q offset id known).0,
        v.once q,
        issued-suc q i,
        ap (issued q) e,
        ap (λ n. issued q (n + 1)) (processed ∙ e),
      );
      balanced = rw (processed, results, collected) (omega (arith, in_hands, v.balanced));
      limited = omega (arith, limited, v.limited);
      gathered = λ q. rw (arrivals, collected) (v.gathered q);
      all_started = rw (arrivals, collected) v.all_started;
      one_each = rw (arrivals, collected) v.one_each;
      recorded = rw (outcomes, collected) v.recorded;
      sound = rw results (omega (arith, sound, v.sound));
    }

plus_zero : (a : ℕ) → a + 0 ≡ a
plus_zero a = omega arith

-- The arrivals dropped past the deadline.
overdue-counts :
    (p : OpenPlan) (i : ℕ) (offsets : List ℤ) (q : ℕ)
    → let l = overdue p i offsets in
      (sum_by (record_with q) l + issued q i ≡ issued q (i + length offsets))
      × (length l ≡ length offsets)
      × (sum_by is_client_record l ≡ 0)
      × (sum_by is_scheduler_record l ≡ length offsets)
unfolding overdue sum_by dropped_arrival
overdue-counts p i [] q = (omega (arith, ap (issued q) (plus_zero i)), refl, refl, refl)
overdue-counts p i (offset ∷ rest) q =
    let (once, size, client, scheduler) = overdue-counts p (i + 1) rest q in
    (
      omega (arith, once, issued-suc q i, ap (issued q) (shift i (length rest))),
      omega (arith, size),
      omega (arith, client),
      omega (arith, scheduler),
    )
  where
    shift : (a b : ℕ) → a + 1 + b ≡ a + suc b
    shift a b = omega arith

pub overdue-IsTallied :
    (p : OpenPlan) (o : Pool) (i : ℕ) (offset : ℤ) (rest : List ℤ)
    → o.processed ≡ i
    → i + 1 + length rest ≡ length p.schedule
    → IsTallied p o
    → IsTallied p (record o {
      dropped = o.dropped ++ overdue p i (offset ∷ rest);
      processed = length p.schedule;
    })
unfolding arrival_occupancy
overdue-IsTallied p o i offset rest e n v =
    let late : List ArrivalRecord = overdue p i (offset ∷ rest) in
    let (_, size, client, scheduler) = overdue-counts p i (offset ∷ rest) 0 in
    record {
      once = λ q. omega (
        arith,
        (overdue-counts p i (offset ∷ rest) q).0,
        v.once q,
        sum_by-concat (record_with q) o.dropped late,
        ap (issued q) e,
        ap (issued q) (sym (add_one i (length rest)) ∙ n),
      );
      balanced = omega (arith, length-append o.dropped late, size, v.balanced, e, n);
      limited = omega (
        arith,
        length-append o.dropped late,
        sum_by-concat is_client_record o.dropped late,
        sum_by-concat is_scheduler_record o.dropped late,
        size,
        client,
        scheduler,
        v.limited,
      );
      gathered = v.gathered;
      all_started = v.all_started;
      one_each = v.one_each;
      recorded = v.recorded;
      sound = v.sound;
    }
  where
    add_one : (a b : ℕ) → a + 1 + b ≡ a + suc b
    add_one a b = omega arith

total-increment_known :
    (n : OutcomeCounts) (o : RequestOutcome)
    → is_other o ≡ 0
    → total (increment_outcome n o) ≡ total n + 1
unfolding total increment_outcome
total-increment_known n o h = ground arith

-- What the collector keeps of a sound result's arrival.
append_arrival-counts :
    (l : List ArrivalRecord) (q r : ℕ) (a : Option ArrivalRecord)
    → bad_arrival q a ≡ 0
    → let l' = append_arrival l a in
      (sum_by (record_with r) l' ≡ sum_by (record_with r) l + same r q)
      × (sum_by is_started_record l' ≡ sum_by is_started_record l + 1)
      × (length l' ≡ length l + 1)
append_arrival-counts l q r none h = cc
append_arrival-counts l q r (some a) h = (
  ground (arith, sum_by-append (record_with r) l a),
  ground (arith, sum_by-append is_started_record l a),
  length-append l (a ∷ []),
)

pub collect_result-IsTallied :
    (p : OpenPlan) (o : Pool) (rs : List CompletedRequest)
    → o.results ≡ rs
    → IsTallied p o
    → IsTallied p (collect_result o rs)
unfolding collect_result arrival_occupancy sum_by
collect_result-IsTallied p o [] e v = v
collect_result-IsTallied p o (r ∷ rest) e v =
    let results_sound : sum_by unsound_result o.results
        ≡ unsound_result r + sum_by unsound_result rest =
      ap (sum_by unsound_result) e in
    let good : bad_arrival r.sequence r.arrival ≡ 0 = omega (arith, v.sound, results_sound) in
    let known : is_other r.outcome ≡ 0 = omega (arith, v.sound, results_sound) in
    let grown = length-append o.collected (r ∷ []) in
    let (_, begun, one) = append_arrival-counts o.collected_arrivals r.sequence 0 r.arrival good in
    record {
      once = λ q. omega (
        arith,
        v.once q,
        ap (sum_by (has_sequence q)) e,
        sum_by-append (has_sequence q) o.collected r,
      );
      balanced = omega (arith, v.balanced, ap length e, grown);
      limited = v.limited;
      gathered = λ q. omega (
        arith,
        v.gathered q,
        sum_by-append (has_sequence q) o.collected r,
        (append_arrival-counts o.collected_arrivals r.sequence q r.arrival good).0,
      );
      all_started = omega (arith, v.all_started, grown, begun);
      one_each = omega (arith, v.one_each, grown, one);
      recorded = omega (arith, v.recorded, grown, total-increment_known o.outcomes r.outcome known);
      sound = omega (arith, v.sound, results_sound);
    }
