-- ===== src/Benchmark/ClosedLoop/Completed.antt =====
-- A phase that is reported as completed has issued every request, and each has succeeded.
use llm_serving_performance.Prelude.{
  ◌∙◌, ap, ℕ, ◌<◌, ◌≡◌, true, false, ◌||◌, ◌&&◌, Option, none, some, List, [], ◌∷◌, arith,
  get_elem?, Bool-cases, List-cases, inl, inr, if◌then◌else◌,
}
use llm_serving_performance.Prelude.Int.{ℤ}
use llm_serving_performance.Prelude.Sums.{sum_by}
use llm_serving_performance.Benchmark.Types.{Err}
use llm_serving_performance.Benchmark.Outcomes.{OutcomeCounts, total, failed, completed}
use llm_serving_performance.Benchmark.Outcomes.Laws.{phase_status-completed}
use llm_serving_performance.Benchmark.Coordinator.{Coordinator}
use llm_serving_performance.Benchmark.ClosedLoop.Defs.{Plan, Worker, State, initial, loop_goes_on}
use llm_serving_performance.Benchmark.ClosedLoop.Step.{
  WorkerAction, Action, work, cancel_parent, receive_boundary, parent_done, timer_fires,
  receive_result, worker_step, work_at, select_step, step, run, is_some_err,
}
use llm_serving_performance.Benchmark.ClosedLoop.Count.{has_sequence, issued}
use llm_serving_performance.Benchmark.ClosedLoop.Delivery.{uncancelled_complete}
use llm_serving_performance.Benchmark.ClosedLoop.Result.{last_look, phase_result, end_phase}

-- A cancelled phase has an error, or the parent's cancellation is still to be seen; once it was
-- seen, there is an error.
record IsAccounted (s : State) : Type 0 where
  cause :
      is_some_err s.phase_cause ≡ true
      → (is_some_err s.phase_err || (is_some_err s.parent_err && s.parent_armed)) ≡ true
  seen : s.parent_armed ≡ false → is_some_err s.phase_err ≡ true

worker_step-frame :
    (p : Plan) (s : State) (i : ℕ) (w : Worker) (a : WorkerAction)
    → let t = worker_step p s i w a in
      (t.phase_cause ≡ s.phase_cause)
      × (t.phase_err ≡ s.phase_err)
      × (t.parent_err ≡ s.parent_err)
      × (t.parent_armed ≡ s.parent_armed)
unfolding worker_step
worker_step-frame p s i w a = ground arith

IsAccounted-same :
    (s t : State)
    → t.phase_cause ≡ s.phase_cause
    → t.phase_err ≡ s.phase_err
    → t.parent_err ≡ s.parent_err
    → t.parent_armed ≡ s.parent_armed
    → IsAccounted s
    → IsAccounted t
IsAccounted-same s t a b c d v = record { cause = rw (a, b, c, d) v.cause; seen = rw (b, d) v.seen }

work_at-IsAccounted :
    (p : Plan) (s : State) (i : ℕ) (a : WorkerAction) (o : Option Worker)
    → IsAccounted s
    → IsAccounted (work_at p s i a o)
work_at-IsAccounted p s i a none v = v
work_at-IsAccounted p s i a (some w) v =
    let (cause, phase, parent, armed) = worker_step-frame p s i w a in
    IsAccounted-same s (worker_step p s i w a) cause phase parent armed v

select_step-accounts :
    (p : Plan) (s : State) (a : Action)
    → IsAccounted s
    → let t = select_step p s a in
      (is_some_err t.phase_cause ≡ true
        → (is_some_err t.phase_err || (is_some_err t.parent_err && t.parent_armed)) ≡ true)
      × (t.parent_armed ≡ false → is_some_err t.phase_err ≡ true)
unfolding select_step
select_step-accounts p s (receive_boundary now) v = ground (arith, v.cause, v.seen)
select_step-accounts p s (parent_done now) v = ground (arith, v.cause, v.seen)
select_step-accounts p s timer_fires v = ground (arith, v.cause, v.seen)
select_step-accounts p s receive_result v = elim (List-cases s.results) [
  | inl e ↦ ground (arith, v.cause, v.seen)
  | inr (r, rest, e) ↦ ground (arith, v.cause, v.seen)
]
select_step-accounts p s a v = (v.cause, v.seen)

select-IsAccounted :
    (p : Plan) (s : State) (a : Action)
    → IsAccounted s
    → IsAccounted (if loop_goes_on s then select_step p s a else s)
select-IsAccounted p s a v = elim (Bool-cases (loop_goes_on s)) [
  | inl e ↦
      let (cause, seen) = select_step-accounts p s a v in
      rw e (record { cause = cause; seen = seen })
  | inr e ↦ rw e v
]

step-IsAccounted : (p : Plan) (s : State) (a : Action) → IsAccounted s → IsAccounted (step p s a)
unfolding step
step-IsAccounted p s (work i a) v = work_at-IsAccounted p s i a (get_elem? s.workers i) v
step-IsAccounted p s (cancel_parent e) v = record {
  cause = λ h. ground (arith, v.cause, v.seen);
  seen = v.seen;
}
step-IsAccounted p s (receive_boundary now) v = select-IsAccounted p s (receive_boundary now) v
step-IsAccounted p s (parent_done now) v = select-IsAccounted p s (parent_done now) v
step-IsAccounted p s timer_fires v = select-IsAccounted p s timer_fires v
step-IsAccounted p s receive_result v = select-IsAccounted p s receive_result v

run-IsAccounted :
    (p : Plan) (s : State) (schedule : List Action) → IsAccounted s → IsAccounted (run p s schedule)
unfolding run
run-IsAccounted p s [] v = v
run-IsAccounted p s (a ∷ rest) v = run-IsAccounted p (step p s a) rest (step-IsAccounted p s a v)

initial-IsAccounted :
    (p : Plan) (c : Coordinator) (parent : Option Err) → IsAccounted (initial p c parent)
unfolding initial
initial-IsAccounted p c parent = record { cause = λ h. ground arith; seen = λ h. cc }

-- With no error behind the last look, the phase was never cancelled.
last_look-free :
    (p : Plan) (s : State) (now : ℤ)
    → IsAccounted s
    → (last_look p s now).phase_err ≡ none
    → s.phase_cause ≡ none
unfolding last_look
last_look-free p s now v h = ground (arith, v.cause, v.seen)

last_look-kept :
    (p : Plan) (s : State) (now : ℤ)
    → ((last_look p s now).outcomes ≡ s.outcomes) × ((last_look p s now).completed ≡ s.completed)
unfolding last_look
last_look-kept p s now = ground arith

all_succeeded : (n : OutcomeCounts) (k : ℕ) → failed n ≡ 0 → total n ≡ k → n.succeeded_count ≡ k
unfolding total
all_succeeded n k f e = omega (arith, f, e)

-- When the select loop of a phase is over and the phase is reported as completed, the phase has no
-- error, its results are the sequences 1 to the number of requests, each once, and every one of its
-- requests has succeeded. The concurrency is positive.
pub completed_means_all :
    (p : Plan) (c : Coordinator) (parent : Option Err) (schedule : List Action) (now at : ℤ) (q : ℕ)
    → 0 < p.concurrency
    → loop_goes_on (run p (initial p c parent) schedule) ≡ false
    → (end_phase p (run p (initial p c parent) schedule) now at).0.status ≡ completed
    → let (r, err, c') = end_phase p (run p (initial p c parent) schedule) now at in
      (err ≡ none)
      × (sum_by (has_sequence q) r.completed ≡ issued q p.requests)
      × (r.outcomes.succeeded_count ≡ p.requests)
unfolding end_phase phase_result
completed_means_all p c parent schedule now at q positive over h =
    let s = run p (initial p c parent) schedule in
    let t = last_look p s now in
    let (no_err, no_failure) = (phase_status-completed t.outcomes t.phase_err).0 h in
    let (outcomes, results) = last_look-kept p s now in
    let accounted =
      run-IsAccounted p (initial p c parent) schedule (initial-IsAccounted p c parent) in
    let free = last_look-free p s now accounted no_err in
    let (once, totals) = uncancelled_complete p c parent schedule q positive over free in
    (
      no_err,
      ap (sum_by (has_sequence q)) results ∙ once,
      all_succeeded t.outcomes p.requests no_failure (ap total outcomes ∙ totals),
    )
