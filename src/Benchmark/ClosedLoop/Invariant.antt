-- ===== src/Benchmark/ClosedLoop/Invariant.antt =====
-- The invariant of the closed-loop machine under every schedule.
use llm_serving_performance.Prelude.Sums.{
  sum_by, sum_by-set, sum_by-append, sum_by-le, sum_by-replicate,
}
use llm_serving_performance.Prelude.{
  ap, inr, inl, Bool-cases, List-cases, ◌∙◌, sym, ℕ, ◌+◌, ◌≤◌, ◌≡◌, refl, Bool, true, false, Option,
  none, some, List, [], ◌∷◌, length, get_elem?, set, arith, if◌then◌else◌, length-set,
  length-replicate, length-append,
}
use llm_serving_performance.Benchmark.ClosedLoop.Count.{
  is_other, is_running, is_running-le, holds, occupancy, issued, started_count, started_with,
  unclassified, unclassified_result,
}
use llm_serving_performance.Benchmark.Types.{RequestOutcome, Err, is_measured}
use llm_serving_performance.Benchmark.Outcomes.{
  OutcomeCounts, classify_outcome, total, increment_outcome,
}
use llm_serving_performance.Benchmark.Coordinator.{Coordinator}
use llm_serving_performance.Benchmark.ClosedLoop.Defs.{
  Plan, worker_count, Worker, idle, claiming, claimed, waiting, ready, running, answered, sending,
  exited, State, initial, loop_goes_on,
}
use llm_serving_performance.Benchmark.ClosedLoop.Step.{
  WorkerAction, enter, claim, lost, start, classify, send, proceed, resume, answer, Action,
  worker_step, step, run, select_step, classified, work, cancel_parent, receive_boundary,
  parent_done, timer_fires, receive_result, work_at,
}
use llm_serving_performance.Benchmark.ClosedLoop.Occupancy.{
  worker_step-occupancy, select_step-occupancy, worker_step-started_count,
  select_step-started_count,
}

-- What holds between any two steps of any schedule.
pub record Inv (p : Plan) (s : State) : Type 0 where
  pub sized : length s.workers ≡ worker_count p
  pub counted : s.active ≡ sum_by is_running s.workers
  pub bounded : s.active ≤ s.max_active
  pub capped : s.max_active ≤ worker_count p
  pub within : s.next_sequence ≤ p.requests
  pub once : (q : ℕ) → occupancy q s ≡ issued q s.next_sequence
  pub recorded : total s.outcomes ≡ length s.completed
  pub known : sum_by unclassified s.workers + sum_by unclassified_result s.results ≡ 0
  pub gated :
      is_measured p.phase ≡ true → s.admission_stopped ≡ false → started_count p.requests s ≡ 0

-- The counters, over the worker that moves.
worker_step-counters :
    (p : Plan) (s : State) (i : ℕ) (w : Worker) (a : WorkerAction)
    → get_elem? s.workers i ≡ some w
    → Inv p s
    → let t = worker_step p s i w a in
      (length t.workers ≡ worker_count p)
      × (t.active ≡ sum_by is_running t.workers)
      × (t.active ≤ t.max_active)
      × (t.max_active ≤ worker_count p)
      × (t.next_sequence ≤ p.requests)
unfolding worker_step
worker_step-counters p s i idle enter h v = ground (
  arith,
  length-set s.workers i claiming,
  length-set s.workers i exited,
  sum_by-set is_running s.workers i idle claiming h,
  sum_by-set is_running s.workers i idle exited h,
)
worker_step-counters p s i claiming claim h v = ground (
  arith,
  length-set s.workers i (claimed (s.next_sequence + 1)),
  length-set s.workers i exited,
  sum_by-set is_running s.workers i claiming (claimed (s.next_sequence + 1)) h,
  sum_by-set is_running s.workers i claiming exited h,
)
worker_step-counters p s i claiming lost h v =
    ground
      (arith, length-set s.workers i exited, sum_by-set is_running s.workers i claiming exited h)
worker_step-counters p s i (claimed r) (proceed now) h v = ground (
  arith,
  length-set s.workers i (waiting r),
  length-set s.workers i (ready r),
  sum_by-set is_running s.workers i (claimed r) (waiting r) h,
  sum_by-set is_running s.workers i (claimed r) (ready r) h,
)
worker_step-counters p s i (waiting r) resume h v = ground (
  arith,
  length-set s.workers i (ready r),
  sum_by-set is_running s.workers i (waiting r) (ready r) h,
)
worker_step-counters p s i (ready r) start h v = ground (
  arith,
  length-set s.workers i (running r),
  sum_by-set is_running s.workers i (ready r) (running r) h,
  sum_by-le is_running (set s.workers i (running r)) is_running-le,
)
worker_step-counters p s i (running r) (answer err late) h v = ground (
  arith,
  length-set s.workers i (answered r err late),
  sum_by-set is_running s.workers i (running r) (answered r err late) h,
)
worker_step-counters p s i (answered r err late) classify h v = ground (
  arith,
  length-set s.workers i (sending (classified p s r err late)),
  sum_by-set is_running s.workers i (answered r err late) (sending (classified p s r err late)) h,
)
worker_step-counters p s i (sending c) send h v =
    ground
      (arith, length-set s.workers i idle, sum_by-set is_running s.workers i (sending c) idle h)
worker_step-counters p s i w a h v = (v.sized, v.counted, v.bounded, v.capped, v.within)

classified-known :
    (p : Plan) (s : State) (q : ℕ) (err : Option Err) (late : Bool)
    → unclassified_result (classified p s q err late) ≡ 0
unfolding classified classify_outcome
classified-known p s q err late = ground arith

-- Every outcome on its way is one of the five.
worker_step-known :
    (p : Plan) (s : State) (i : ℕ) (w : Worker) (a : WorkerAction)
    → get_elem? s.workers i ≡ some w
    → Inv p s
    → let t = worker_step p s i w a in
      sum_by unclassified t.workers + sum_by unclassified_result t.results ≡ 0
unfolding worker_step
worker_step-known p s i idle enter h v = ground (
  arith,
  sum_by-set unclassified s.workers i idle claiming h,
  sum_by-set unclassified s.workers i idle exited h,
)
worker_step-known p s i claiming claim h v = ground (
  arith,
  sum_by-set unclassified s.workers i claiming (claimed (s.next_sequence + 1)) h,
  sum_by-set unclassified s.workers i claiming exited h,
)
worker_step-known p s i claiming lost h v =
    ground (arith, sum_by-set unclassified s.workers i claiming exited h)
worker_step-known p s i (claimed r) (proceed now) h v = ground (
  arith,
  sum_by-set unclassified s.workers i (claimed r) (waiting r) h,
  sum_by-set unclassified s.workers i (claimed r) (ready r) h,
)
worker_step-known p s i (waiting r) resume h v =
    ground (arith, sum_by-set unclassified s.workers i (waiting r) (ready r) h)
worker_step-known p s i (ready r) start h v =
    ground (arith, sum_by-set unclassified s.workers i (ready r) (running r) h)
worker_step-known p s i (running r) (answer err late) h v =
    ground (arith, sum_by-set unclassified s.workers i (running r) (answered r err late) h)
worker_step-known p s i (answered r err late) classify h v = omega (
  arith,
  sum_by-set unclassified s.workers i (answered r err late) (sending (classified p s r err late)) h,
  classified-known p s r err late,
  v.known,
)
worker_step-known p s i (sending c) send h v = ground (
  arith,
  sum_by-set unclassified s.workers i (sending c) idle h,
  sum_by-append unclassified_result s.results c,
)
worker_step-known p s i w a h v = v.known

-- The parts that a step of a worker leaves as they are.
worker_step-frame :
    (p : Plan) (s : State) (i : ℕ) (w : Worker) (a : WorkerAction)
    → let t = worker_step p s i w a in
      (t.outcomes ≡ s.outcomes)
      × (t.completed ≡ s.completed)
      × (t.admission_stopped ≡ s.admission_stopped)
      × (t.coordinator ≡ s.coordinator)
unfolding worker_step
worker_step-frame p s i w a = ground arith

worker_step-Inv :
    (p : Plan) (s : State) (i : ℕ) (w : Worker) (a : WorkerAction)
    → get_elem? s.workers i ≡ some w
    → Inv p s
    → Inv p (worker_step p s i w a)
worker_step-Inv p s i w a h v =
    let (sized, counted, bounded, capped, within) = worker_step-counters p s i w a h v in
    let (outcomes, completed, stopped, _) = worker_step-frame p s i w a in
    record {
      sized = sized;
      counted = counted;
      bounded = bounded;
      capped = capped;
      within = within;
      once = λ q. omega (arith, worker_step-occupancy q p s i w a h, v.once q);
      recorded = rw (outcomes, completed) v.recorded;
      known = worker_step-known p s i w a h v;
      gated = λ m o.
          let still_open : s.admission_stopped ≡ false = sym stopped ∙ o in
          worker_step-started_count p s i w a h m still_open ∙ v.gated m still_open;
    }

total-increment_known :
    (n : OutcomeCounts) (o : RequestOutcome)
    → is_other o ≡ 0
    → total (increment_outcome n o) ≡ total n + 1
unfolding total increment_outcome
total-increment_known n o h = ground arith

-- The select loop: the channels, the counters and the totals.
select_step-frame :
    (p : Plan) (s : State) (a : Action)
    → let t = select_step p s a in
      (t.active ≡ s.active)
      × (t.max_active ≡ s.max_active)
      × (t.admission_stopped ≡ false → s.admission_stopped ≡ false)
unfolding select_step
select_step-frame p s a = ground arith

select_step-totals :
    (p : Plan) (s : State) (a : Action)
    → Inv p s
    → let t = select_step p s a in
      (total t.outcomes ≡ length t.completed)
      × (sum_by unclassified s.workers + sum_by unclassified_result t.results ≡ 0)
unfolding select_step sum_by
select_step-totals p s (receive_boundary now) v = ground arith
select_step-totals p s (parent_done now) v = ground arith
select_step-totals p s timer_fires v = ground arith
select_step-totals p s receive_result v = elim (List-cases s.results) [
  | inl e ↦ ground arith
  | inr (r, rest, e) ↦
      ground (arith, total-increment_known s.outcomes r.outcome, length-append s.completed (r ∷ []))
]
select_step-totals p s a v = (v.recorded, v.known)

select_step-Inv : (p : Plan) (s : State) (a : Action) → Inv p s → Inv p (select_step p s a)
select_step-Inv p s a v =
    let (active, max_active, stopped) = select_step-frame p s a in
    let (recorded, known) = select_step-totals p s a v in
    let workers = (select_step-occupancy 0 p s a).2 in
    let next = (select_step-occupancy 0 p s a).1 in
    record {
      sized = rw workers v.sized;
      counted = rw (active, workers) v.counted;
      bounded = rw (active, max_active) v.bounded;
      capped = rw max_active v.capped;
      within = rw next v.within;
      once = λ q. (select_step-occupancy q p s a).0 ∙ v.once q ∙ ap (λ n. issued q n) (sym next);
      recorded = recorded;
      known = rw workers known;
      gated = λ m o. select_step-started_count p.requests p s a ∙ v.gated m (stopped o);
    }

cancel-Inv : (p : Plan) (s : State) (e : Err) → Inv p s → Inv p (step p s (cancel_parent e))
unfolding step occupancy started_count
cancel-Inv p s e v = record {
  sized = v.sized;
  counted = v.counted;
  bounded = v.bounded;
  capped = v.capped;
  within = v.within;
  once = v.once;
  recorded = v.recorded;
  known = v.known;
  gated = v.gated;
}

work_at-Inv :
    (p : Plan) (s : State) (i : ℕ) (a : WorkerAction) (w : Option Worker)
    → get_elem? s.workers i ≡ w
    → Inv p s
    → Inv p (work_at p s i a w)
work_at-Inv p s i a none h v = v
work_at-Inv p s i a (some w) h v = worker_step-Inv p s i w a h v

select-Inv :
    (p : Plan) (s : State) (a : Action)
    → Inv p s
    → Inv p (if loop_goes_on s then select_step p s a else s)
select-Inv p s a v = elim (Bool-cases (loop_goes_on s)) [
  | inl e ↦ rw e (select_step-Inv p s a v)
  | inr e ↦ rw e v
]

pub step-Inv : (p : Plan) (s : State) (a : Action) → Inv p s → Inv p (step p s a)
unfolding step
step-Inv p s (work i a) v = work_at-Inv p s i a (get_elem? s.workers i) refl v
step-Inv p s (cancel_parent e) v = cancel-Inv p s e v
step-Inv p s (receive_boundary now) v = select-Inv p s (receive_boundary now) v
step-Inv p s (parent_done now) v = select-Inv p s (parent_done now) v
step-Inv p s timer_fires v = select-Inv p s timer_fires v
step-Inv p s receive_result v = select-Inv p s receive_result v

pub run-Inv : (p : Plan) (s : State) (schedule : List Action) → Inv p s → Inv p (run p s schedule)
unfolding run
run-Inv p s [] v = v
run-Inv p s (a ∷ rest) v = run-Inv p (step p s a) rest (step-Inv p s a v)

pub initial-Inv : (p : Plan) (c : Coordinator) (parent : Option Err) → Inv p (initial p c parent)
unfolding initial occupancy started_count sum_by total
initial-Inv p c parent = record {
  sized = length-replicate (worker_count p) idle;
  counted = sym (sum_by-replicate is_running (worker_count p) idle refl);
  bounded = omega arith;
  capped = omega arith;
  within = omega arith;
  once = λ q. ground (arith, sum_by-replicate (holds q) (worker_count p) idle refl);
  recorded = refl;
  known = ground (arith, sum_by-replicate unclassified (worker_count p) idle refl);
  gated =
      λ m o. ground (arith, sum_by-replicate (started_with p.requests) (worker_count p) idle refl);
}

-- Every state that a schedule reaches from the start of the phase satisfies the invariant.
pub reached-Inv :
    (p : Plan) (c : Coordinator) (parent : Option Err) (schedule : List Action)
    → Inv p (run p (initial p c parent) schedule)
reached-Inv p c parent schedule = run-Inv p (initial p c parent) schedule (initial-Inv p c parent)
