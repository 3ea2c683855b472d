-- ===== src/Benchmark/ClosedLoop/Ending.antt =====
-- How the closed-loop phase ends: what the closed result channel means, and when workers end.
use llm_serving_performance.Prelude.Sums.{sum_by, sum_by-set, sum_by-replicate}
use llm_serving_performance.Benchmark.Coordinator.{Coordinator}
use llm_serving_performance.Prelude.{
  inr, Bool-cases, inl, List-cases, length-append, if◌then◌else◌, ℕ, ◌+◌, ◌≤◌, ◌<◌, ◌≡◌, refl, ap,
  true, false, Option, none, some, List, [], ◌∷◌, length, get_elem?, arith,
}
use llm_serving_performance.Benchmark.Types.{Err}
use llm_serving_performance.Benchmark.ClosedLoop.Defs.{
  Plan, worker_count, Worker, idle, claiming, claimed, waiting, ready, running, answered, sending,
  exited, State, initial, loop_goes_on,
}
use llm_serving_performance.Benchmark.ClosedLoop.Step.{
  WorkerAction, enter, claim, lost, start, classify, send, proceed, resume, answer, Action,
  worker_step, step, run, select_step, classified, all_exited, work, cancel_parent,
  receive_boundary, parent_done, timer_fires, receive_result, work_at,
}
use llm_serving_performance.Benchmark.ClosedLoop.Count.{is_busy, has_exited, all_exited-get_elem?}
use llm_serving_performance.Benchmark.ClosedLoop.Occupancy.{select_step-occupancy}

-- The closed channel is empty and every worker has ended; a worker that ends without a
-- cancellation leaves no request unclaimed; every claimed sequence is somewhere.
pub record Ending (p : Plan) (s : State) : Type 0 where
  pub closed : s.results_open ≡ false → (all_exited s.workers ≡ true) × (s.results ≡ [])
  pub exhausted :
      s.phase_cause ≡ none → 0 < sum_by has_exited s.workers → p.requests ≤ s.next_sequence
  pub balanced : sum_by is_busy s.workers + length s.results + length s.completed ≡ s.next_sequence

worker_step-balance :
    (p : Plan) (s : State) (i : ℕ) (w : Worker) (a : WorkerAction)
    → get_elem? s.workers i ≡ some w
    → Ending p s
    → let t = worker_step p s i w a in
      (sum_by is_busy t.workers + length t.results + length t.completed ≡ t.next_sequence)
      × (t.phase_cause ≡ none → 0 < sum_by has_exited t.workers → p.requests ≤ t.next_sequence)
unfolding worker_step
worker_step-balance p s i idle enter h v = (
  ground (
    arith,
    sum_by-set is_busy s.workers i idle claiming h,
    sum_by-set is_busy s.workers i idle exited h,
  ),
  ground (
    arith,
    sum_by-set has_exited s.workers i idle claiming h,
    sum_by-set has_exited s.workers i idle exited h,
  ),
)
worker_step-balance p s i claiming claim h v = (
  ground (
    arith,
    sum_by-set is_busy s.workers i claiming exited h,
    sum_by-set is_busy s.workers i claiming (claimed (s.next_sequence + 1)) h,
  ),
  ground (
    arith,
    sum_by-set has_exited s.workers i claiming exited h,
    sum_by-set has_exited s.workers i claiming (claimed (s.next_sequence + 1)) h,
  ),
)
worker_step-balance p s i claiming lost h v = (
  ground (arith, sum_by-set is_busy s.workers i claiming exited h),
  ground (arith, sum_by-set has_exited s.workers i claiming exited h),
)
worker_step-balance p s i (claimed r) (proceed now) h v = (
  ground (
    arith,
    sum_by-set is_busy s.workers i (claimed r) (waiting r) h,
    sum_by-set is_busy s.workers i (claimed r) (ready r) h,
  ),
  ground (
    arith,
    sum_by-set has_exited s.workers i (claimed r) (waiting r) h,
    sum_by-set has_exited s.workers i (claimed r) (ready r) h,
  ),
)
worker_step-balance p s i (waiting r) resume h v = (
  ground (arith, sum_by-set is_busy s.workers i (waiting r) (ready r) h),
  ground (arith, sum_by-set has_exited s.workers i (waiting r) (ready r) h),
)
worker_step-balance p s i (ready r) start h v = (
  ground (arith, sum_by-set is_busy s.workers i (ready r) (running r) h),
  ground (arith, sum_by-set has_exited s.workers i (ready r) (running r) h),
)
worker_step-balance p s i (running r) (answer err late) h v = (
  ground (arith, sum_by-set is_busy s.workers i (running r) (answered r err late) h),
  ground (arith, sum_by-set has_exited s.workers i (running r) (answered r err late) h),
)
worker_step-balance p s i (answered r err late) classify h v = (
  ground (
    arith,
    sum_by-set is_busy s.workers i (answered r err late) (sending (classified p s r err late)) h,
  ),
  ground (
    arith,
    sum_by-set has_exited s.workers i (answered r err late) (sending (classified p s r err late)) h,
  ),
)
worker_step-balance p s i (sending c) send h v = (
  ground
      (arith, sum_by-set is_busy s.workers i (sending c) idle h, length-append s.results (c ∷ [])),
  ground (arith, sum_by-set has_exited s.workers i (sending c) idle h),
)
worker_step-balance p s i w a h v = (v.balanced, v.exhausted)

worker_step-closed :
    (p : Plan) (s : State) (i : ℕ) (w : Worker) (a : WorkerAction)
    → get_elem? s.workers i ≡ some w
    → Ending p s
    → let t = worker_step p s i w a in
      t.results_open ≡ false → (all_exited t.workers ≡ true) × (t.results ≡ [])
unfolding worker_step
worker_step-closed p s i exited a h v = v.closed
worker_step-closed p s i w a h v = ground (arith, all_exited-get_elem? s.workers i w)

worker_step-Ending :
    (p : Plan) (s : State) (i : ℕ) (w : Worker) (a : WorkerAction)
    → get_elem? s.workers i ≡ some w
    → Ending p s
    → Ending p (worker_step p s i w a)
worker_step-Ending p s i w a h v = record {
  closed = worker_step-closed p s i w a h v;
  exhausted = (worker_step-balance p s i w a h v).1;
  balanced = (worker_step-balance p s i w a h v).0;
}

select_step-balance :
    (p : Plan) (s : State) (a : Action)
    → Ending p s
    → let t = select_step p s a in
      (t.results_open ≡ false → (all_exited s.workers ≡ true) × (t.results ≡ []))
      × (length t.results + length t.completed ≡ length s.results + length s.completed)
      × (t.phase_cause ≡ none → s.phase_cause ≡ none)
unfolding select_step
select_step-balance p s (receive_boundary now) v = ground arith
select_step-balance p s (parent_done now) v = ground arith
select_step-balance p s timer_fires v = ground arith
select_step-balance p s receive_result v = elim (List-cases s.results) [
  | inl e ↦ ground arith
  | inr (r, rest, e) ↦ ground (arith, length-append s.completed (r ∷ []))
]
select_step-balance p s a v = (v.closed, refl, λ e. e)

select_step-Ending : (p : Plan) (s : State) (a : Action) → Ending p s → Ending p (select_step p s a)
select_step-Ending p s a v =
    let (closed, lengths, cause) = select_step-balance p s a v in
    let workers = (select_step-occupancy 0 p s a).2 in
    let next = (select_step-occupancy 0 p s a).1 in
    record {
      closed = λ h. rw workers (closed h);
      exhausted = λ c x. rw next (v.exhausted (cause c) (rw workers at x));
      balanced = omega (arith, lengths, next, ap (λ ws. sum_by is_busy ws) workers, v.balanced);
    }

work_at-Ending :
    (p : Plan) (s : State) (i : ℕ) (a : WorkerAction) (w : Option Worker)
    → get_elem? s.workers i ≡ w
    → Ending p s
    → Ending p (work_at p s i a w)
work_at-Ending p s i a none h v = v
work_at-Ending p s i a (some w) h v = worker_step-Ending p s i w a h v

select-Ending :
    (p : Plan) (s : State) (a : Action)
    → Ending p s
    → Ending p (if loop_goes_on s then select_step p s a else s)
select-Ending p s a v = elim (Bool-cases (loop_goes_on s)) [
  | inl e ↦ rw e (select_step-Ending p s a v)
  | inr e ↦ rw e v
]

cancel-Ending :
    (p : Plan) (s : State) (e : Err) → Ending p s → Ending p (step p s (cancel_parent e))
unfolding step
cancel-Ending p s e v = record {
  closed = v.closed;
  exhausted = λ c x. v.exhausted (ground arith) x;
  balanced = v.balanced;
}

step-Ending : (p : Plan) (s : State) (a : Action) → Ending p s → Ending p (step p s a)
unfolding step
step-Ending p s (work i a) v = work_at-Ending p s i a (get_elem? s.workers i) refl v
step-Ending p s (cancel_parent e) v = cancel-Ending p s e v
step-Ending p s (receive_boundary now) v = select-Ending p s (receive_boundary now) v
step-Ending p s (parent_done now) v = select-Ending p s (parent_done now) v
step-Ending p s timer_fires v = select-Ending p s timer_fires v
step-Ending p s receive_result v = select-Ending p s receive_result v

run-Ending :
    (p : Plan) (s : State) (schedule : List Action) → Ending p s → Ending p (run p s schedule)
unfolding run
run-Ending p s [] v = v
run-Ending p s (a ∷ rest) v = run-Ending p (step p s a) rest (step-Ending p s a v)

initial-Ending : (p : Plan) (c : Coordinator) (parent : Option Err) → Ending p (initial p c parent)
unfolding initial
initial-Ending p c parent = record {
  closed = λ h. cc;
  exhausted = λ h x. absurd (omega (arith, sum_by-replicate has_exited (worker_count p) idle refl));
  balanced = ground (arith, sum_by-replicate is_busy (worker_count p) idle refl);
}

pub reached-Ending :
    (p : Plan) (c : Coordinator) (parent : Option Err) (schedule : List Action)
    → Ending p (run p (initial p c parent) schedule)
reached-Ending p c parent schedule =
    run-Ending p (initial p c parent) schedule (initial-Ending p c parent)
