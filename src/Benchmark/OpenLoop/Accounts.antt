-- ===== src/Benchmark/OpenLoop/Accounts.antt =====
-- Where each arrival of the open-loop machine is.
use llm_serving_performance.Prelude.{
  [], length-append, Bool, Option, ap, arith, get_elem?, length, none, refl, some, sym, ℕ, ◌+◌, ◌∙◌,
  ◌∷◌, ◌≡◌,
}
use llm_serving_performance.Benchmark.Outcomes.{total, classify_outcome}
use llm_serving_performance.Benchmark.ClosedLoop.Count.{issued, has_sequence}
use llm_serving_performance.Prelude.Sums.{sum_by-append, sum_by, sum_by-set}
use llm_serving_performance.Benchmark.Types.{started, Err}
use llm_serving_performance.Prelude.Int.{ℤ}
use llm_serving_performance.Benchmark.OpenLoop.Step.{
  RequestAction, answer, classify, deactivate, release, request_at, request_result, request_step,
  send, started_arrival,
}
use llm_serving_performance.Benchmark.OpenLoop.Defs.{
  Launch, OpenPlan, OpenState, Pool, Request, answered, counted, done, in_runner, sending,
  slot_held,
}
use llm_serving_performance.Benchmark.OpenLoop.Count.{
  arrival_occupancy, holds_arrival, in_hand, is_client_record, is_scheduler_record,
  is_started_record, record_with, unsound, unsound_result,
}

-- Every processed arrival is in one place, once; the collector's records belong to its results.
pub record IsTallied (p : OpenPlan) (o : Pool) : Type 0 where
  pub once : (q : ℕ) → arrival_occupancy q o ≡ issued q o.processed
  pub balanced :
      length o.dropped + sum_by in_hand o.requests + length o.results + length o.collected
      ≡ o.processed
  pub limited :
      sum_by is_client_record o.dropped + sum_by is_scheduler_record o.dropped ≡ length o.dropped
  pub gathered :
      (q : ℕ) → sum_by (record_with q) o.collected_arrivals ≡ sum_by (has_sequence q) o.collected
  pub all_started : sum_by is_started_record o.collected_arrivals ≡ length o.collected
  pub one_each : length o.collected_arrivals ≡ length o.collected
  pub recorded : total o.outcomes ≡ length o.collected
  pub sound : sum_by unsound o.requests + sum_by unsound_result o.results ≡ 0

-- What a step of a request moves along.
request_step-occupancy :
    (q : ℕ) (p : OpenPlan) (s : OpenState) (o : Pool) (i : ℕ) (r : Request) (a : RequestAction)
    → get_elem? o.requests i ≡ some r
    → arrival_occupancy q (request_step p s o i r a) ≡ arrival_occupancy q o
unfolding request_step arrival_occupancy request_result
request_step-occupancy q p s o i (in_runner l) (answer error late actual) h = ground (
  arith,
  sum_by-set (holds_arrival q) o.requests i (in_runner l) (answered l error late actual) h,
)
request_step-occupancy q p s o i (answered l error late actual) classify h = ground (
  arith,
  sum_by-set (holds_arrival q) o.requests i (answered l error late actual)
      (counted (request_result p s l error late actual)) h,
)
request_step-occupancy q p s o i (counted r) deactivate h =
    ground (arith, sum_by-set (holds_arrival q) o.requests i (counted r) (slot_held r) h)
request_step-occupancy q p s o i (slot_held r) release h =
    ground (arith, sum_by-set (holds_arrival q) o.requests i (slot_held r) (sending r) h)
request_step-occupancy q p s o i (sending r) send h = ground (
  arith,
  sum_by-set (holds_arrival q) o.requests i (sending r) done h,
  sum_by-append (has_sequence q) o.results r,
)
request_step-occupancy q p s o i r a h = refl

started_arrival_sound :
    (p : OpenPlan) (l : Launch) (actual : Option ℤ)
    → ((started_arrival p l actual).sequence ≡ l.sequence)
      × ((started_arrival p l actual).disposition ≡ started)
unfolding started_arrival
started_arrival_sound p l none = (refl, refl)
started_arrival_sound p l (some at) = (refl, refl)

request_result_sound :
    (p : OpenPlan) (s : OpenState) (l : Launch) (error : Option Err) (late : Bool)
    (actual : Option ℤ)
    → unsound_result (request_result p s l error late actual) ≡ 0
unfolding request_result classify_outcome
request_result_sound p s l error late actual =
    let (sequence, disposition) = started_arrival_sound p l actual in
    ground (arith, sequence, disposition)

request_step_sound :
    (p : OpenPlan) (s : OpenState) (o : Pool) (i : ℕ) (r : Request) (a : RequestAction)
    → get_elem? o.requests i ≡ some r
    → let t = request_step p s o i r a in
      (sum_by unsound t.requests + sum_by unsound_result t.results
        ≡ sum_by unsound o.requests + sum_by unsound_result o.results)
      × (sum_by in_hand t.requests + length t.results
          ≡ sum_by in_hand o.requests + length o.results)
unfolding request_step
request_step_sound p s o i (in_runner l) (answer error late actual) h = (
  ground (arith, sum_by-set unsound o.requests i (in_runner l) (answered l error late actual) h),
  ground (arith, sum_by-set in_hand o.requests i (in_runner l) (answered l error late actual) h),
)
request_step_sound p s o i (answered l error late actual) classify h = (
  omega (
    arith,
    sum_by-set unsound o.requests i (answered l error late actual)
        (counted (request_result p s l error late actual)) h,
    request_result_sound p s l error late actual,
  ),
  ground (
    arith,
    sum_by-set in_hand o.requests i (answered l error late actual)
        (counted (request_result p s l error late actual)) h,
  ),
)
request_step_sound p s o i (counted r) deactivate h = (
  omega (arith, sum_by-set unsound o.requests i (counted r) (slot_held r) h),
  omega (arith, sum_by-set in_hand o.requests i (counted r) (slot_held r) h),
)
request_step_sound p s o i (slot_held r) release h = (
  omega (arith, sum_by-set unsound o.requests i (slot_held r) (sending r) h),
  omega (arith, sum_by-set in_hand o.requests i (slot_held r) (sending r) h),
)
request_step_sound p s o i (sending r) send h = (
  ground (
    arith,
    sum_by-set unsound o.requests i (sending r) done h,
    sum_by-append unsound_result o.results r,
  ),
  ground
      (arith, sum_by-set in_hand o.requests i (sending r) done h, length-append o.results (r ∷ [])),
)
request_step_sound p s o i r a h = (refl, refl)

-- What a step of a request leaves as it is.
pub request_step-frame :
    (p : OpenPlan) (s : OpenState) (o : Pool) (i : ℕ) (r : Request) (a : RequestAction)
    → let t = request_step p s o i r a in
      (t.dropped ≡ o.dropped)
      × (t.processed ≡ o.processed)
      × (t.collected ≡ o.collected)
      × (t.collected_arrivals ≡ o.collected_arrivals)
      × (t.outcomes ≡ o.outcomes)
unfolding request_step
request_step-frame p s o i r a = ground arith

pub request_at-IsTallied :
    (p : OpenPlan) (s : OpenState) (o : Pool) (i : ℕ) (a : RequestAction) (r : Option Request)
    → get_elem? o.requests i ≡ r
    → IsTallied p o
    → IsTallied p (request_at p s o i a r)
request_at-IsTallied p s o i a none h v = v
request_at-IsTallied p s o i a (some r) h v =
    let (dropped, processed, collected, arrivals, outcomes) = request_step-frame p s o i r a in
    let (sound, in_hands) = request_step_sound p s o i r a h in
    record {
      once = λ q. request_step-occupancy q p s o i r a h ∙ v.once q ∙ ap (issued q) (sym processed);
      balanced = rw (dropped, processed, collected) (omega (arith, in_hands, v.balanced));
      limited = rw dropped v.limited;
      gathered = λ q. rw (arrivals, collected) (v.gathered q);
      all_started = rw (arrivals, collected) v.all_started;
      one_each = rw (arrivals, collected) v.one_each;
      recorded = rw (outcomes, collected) v.recorded;
      sound = sound ∙ v.sound;
    }
