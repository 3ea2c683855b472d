-- ===== src/Benchmark/ClosedLoop/Occupancy.antt =====
-- What one step does to the places in which a sequence can be.
use llm_serving_performance.Prelude.Sums.{sum_by, sum_by-set, sum_by-append}
use llm_serving_performance.Benchmark.ClosedLoop.Count.{
  started_with, started_count, holds, has_sequence, occupancy, issued, issued-suc,
}
use llm_serving_performance.Benchmark.Types.{is_measured}
use llm_serving_performance.Prelude.{
  inr, inl, List-cases, ℕ, ◌+◌, ◌≡◌, refl, true, false, some, get_elem?, arith,
}
use llm_serving_performance.Benchmark.ClosedLoop.Defs.{
  Plan, Worker, idle, claiming, claimed, waiting, ready, running, answered, sending, exited, State,
}
use llm_serving_performance.Benchmark.ClosedLoop.Step.{
  WorkerAction, enter, claim, lost, start, classify, send, proceed, resume, answer, Action,
  worker_step, select_step, classified, receive_boundary, parent_done, timer_fires, receive_result,
}

-- A step of a worker moves a sequence along; a claim adds the next one.
pub worker_step-occupancy :
    (q : ℕ) (p : Plan) (s : State) (i : ℕ) (w : Worker) (a : WorkerAction)
    → get_elem? s.workers i ≡ some w
    → occupancy q (worker_step p s i w a) + issued q s.next_sequence
      ≡ occupancy q s + issued q (worker_step p s i w a).next_sequence
unfolding worker_step occupancy classified
worker_step-occupancy q p s i idle enter h = ground (
  arith,
  sum_by-set (holds q) s.workers i idle claiming h,
  sum_by-set (holds q) s.workers i idle exited h,
)
worker_step-occupancy q p s i claiming claim h = ground (
  arith,
  sum_by-set (holds q) s.workers i claiming exited h,
  sum_by-set (holds q) s.workers i claiming (claimed (s.next_sequence + 1)) h,
  issued-suc q s.next_sequence,
)
worker_step-occupancy q p s i claiming lost h =
    ground (arith, sum_by-set (holds q) s.workers i claiming exited h)
worker_step-occupancy q p s i (claimed r) (proceed now) h = ground (
  arith,
  sum_by-set (holds q) s.workers i (claimed r) (waiting r) h,
  sum_by-set (holds q) s.workers i (claimed r) (ready r) h,
)
worker_step-occupancy q p s i (waiting r) resume h =
    ground (arith, sum_by-set (holds q) s.workers i (waiting r) (ready r) h)
worker_step-occupancy q p s i (ready r) start h =
    ground (arith, sum_by-set (holds q) s.workers i (ready r) (running r) h)
worker_step-occupancy q p s i (running r) (answer err late) h =
    ground (arith, sum_by-set (holds q) s.workers i (running r) (answered r err late) h)
worker_step-occupancy q p s i (answered r err late) classify h = ground (
  arith,
  sum_by-set (holds q) s.workers i (answered r err late) (sending (classified p s r err late)) h,
)
worker_step-occupancy q p s i (sending c) send h = ground (
  arith,
  sum_by-set (holds q) s.workers i (sending c) idle h,
  sum_by-append (has_sequence q) s.results c,
)
worker_step-occupancy q p s i w a h = refl

-- While admission is open no step of a worker starts the last measured request.
pub worker_step-started_count :
    (p : Plan) (s : State) (i : ℕ) (w : Worker) (a : WorkerAction)
    → get_elem? s.workers i ≡ some w
    → is_measured p.phase ≡ true
    → s.admission_stopped ≡ false
    → started_count p.requests (worker_step p s i w a) ≡ started_count p.requests s
unfolding worker_step started_count classified
worker_step-started_count p s i idle enter h m o = ground (
  arith,
  sum_by-set (started_with p.requests) s.workers i idle claiming h,
  sum_by-set (started_with p.requests) s.workers i idle exited h,
)
worker_step-started_count p s i claiming claim h m o = ground (
  arith,
  sum_by-set (started_with p.requests) s.workers i claiming exited h,
  sum_by-set (started_with p.requests) s.workers i claiming (claimed (s.next_sequence + 1)) h,
)
worker_step-started_count p s i claiming lost h m o =
    ground (arith, sum_by-set (started_with p.requests) s.workers i claiming exited h)
worker_step-started_count p s i (claimed r) (proceed now) h m o = ground (
  arith,
  sum_by-set (started_with p.requests) s.workers i (claimed r) (waiting r) h,
  sum_by-set (started_with p.requests) s.workers i (claimed r) (ready r) h,
)
worker_step-started_count p s i (waiting r) resume h m o = ground arith
worker_step-started_count p s i (ready r) start h m o =
    ground (arith, sum_by-set (started_with p.requests) s.workers i (ready r) (running r) h)
worker_step-started_count p s i (running r) (answer err late) h m o =
    ground
      (arith, sum_by-set (started_with p.requests) s.workers i (running r) (answered r err late) h)
worker_step-started_count p s i (answered r err late) classify h m o = ground (
  arith,
  sum_by-set (started_with p.requests) s.workers i (answered r err late)
      (sending (classified p s r err late)) h,
)
worker_step-started_count p s i (sending c) send h m o = ground (
  arith,
  sum_by-set (started_with p.requests) s.workers i (sending c) idle h,
  sum_by-append (has_sequence p.requests) s.results c,
)
worker_step-started_count p s i w a h m o = refl

-- The select loop takes results from the channel to the collection, and leaves the workers alone.
pub select_step-occupancy :
    (q : ℕ) (p : Plan) (s : State) (a : Action)
    → (occupancy q (select_step p s a) ≡ occupancy q s)
      × ((select_step p s a).next_sequence ≡ s.next_sequence)
      × ((select_step p s a).workers ≡ s.workers)
unfolding select_step occupancy sum_by
select_step-occupancy q p s (receive_boundary now) = (ground arith, ground arith, ground arith)
select_step-occupancy q p s (parent_done now) = (ground arith, ground arith, ground arith)
select_step-occupancy q p s timer_fires = (ground arith, ground arith, ground arith)
select_step-occupancy q p s receive_result = elim (List-cases s.results) [
  | inl e ↦ (ground arith, ground arith, ground arith)
  | inr (r, rest, e) ↦
      (ground (arith, sum_by-append (has_sequence q) s.completed r), ground arith, ground arith)
]
select_step-occupancy q p s a = (refl, refl, refl)

pub select_step-started_count :
    (q : ℕ) (p : Plan) (s : State) (a : Action)
    → started_count q (select_step p s a) ≡ started_count q s
unfolding select_step started_count sum_by
select_step-started_count q p s (receive_boundary now) = ground arith
select_step-started_count q p s (parent_done now) = ground arith
select_step-started_count q p s timer_fires = ground arith
select_step-started_count q p s receive_result = elim (List-cases s.results) [
  | inl e ↦ ground arith
  | inr (r, rest, e) ↦ ground (arith, sum_by-append (has_sequence q) s.completed r)
]
select_step-started_count q p s a = refl
