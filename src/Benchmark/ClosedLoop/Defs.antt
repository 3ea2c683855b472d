-- ===== src/Benchmark/ClosedLoop/Defs.antt =====
-- The state of the closed-loop machine.
use llm_serving_performance.Prelude.{
  ℕ, Bool, true, false, not, ◌||◌, Option, none, List, [], String, replicate, ltb, if◌then◌else◌,
}
use llm_serving_performance.Prelude.Int.{ℤ}
use llm_serving_performance.Benchmark.Types.{RequestPhase, Err, is_measured}
use llm_serving_performance.Benchmark.Outcomes.{OutcomeCounts, no_outcomes}
use llm_serving_performance.Benchmark.Arrivals.{CompletedRequest}
use llm_serving_performance.Benchmark.Coordinator.{Coordinator}

-- What the phase takes of `phaseExecutionPlan`. The two reasons stand for the two callbacks: `none`
-- is a nil callback.
pub record Plan : Type 0 where
  pub phase : RequestPhase
  pub concurrency : ℕ
  pub requests : ℕ
  pub started_at : ℤ
  pub drain_timeout_ns : ℤ
  pub stopped_reason : Option String
  pub cancelled_reason : Option String

unfoldable pub worker_count : Plan → ℕ
worker_count p = if ltb p.requests p.concurrency then p.requests else p.concurrency

-- Where a worker stands in its loop, with the sequence that it has claimed.
pub data Worker : Type 0 where
  -- at the head of the loop, and inside `claimNext` after its first test of the context
  idle claiming : Worker
  -- before the test for the final claim, and behind it, waiting for `admissionStopped`
  claimed waiting : ℕ → Worker
  -- about to start the request
  ready : ℕ → Worker
  -- inside `RunRequest`
  running : ℕ → Worker
  -- after `active.Add(-1)`: the runner's error, and whether the request's deadline had passed
  answered : ℕ → Option Err → Bool → Worker
  -- about to send the result
  sending : CompletedRequest → Worker
  exited : Worker

pub record State : Type 0 where
  pub next_sequence : ℕ
  pub workers : List Worker
  pub active : ℕ
  pub max_active : ℕ
  -- the buffered channels `resultsCh` and `finalClaimCh`, and whether the boundary was closed
  pub results : List CompletedRequest
  pub final_claim : Option ℤ
  pub admission_stopped : Bool
  -- `ctx.Err()` and the cause with which `phaseCtx` was cancelled
  pub parent_err : Option Err
  pub phase_cause : Option Err
  -- the locals of the select loop; a nil channel is `false`
  pub parent_armed : Bool
  pub timer_armed : Bool
  pub final_claim_seen : Bool
  pub results_open : Bool
  pub phase_err : Option Err
  pub completed : List CompletedRequest
  pub outcomes : OutcomeCounts
  pub coordinator : Coordinator

-- The start of the select loop. A parent context may be cancelled before.
unfoldable pub initial : Plan → Coordinator → Option Err → State
unfolding worker_count
initial p c parent = record {
  next_sequence = 0;
  workers = replicate (worker_count p) idle;
  active = 0;
  max_active = 0;
  results = [];
  final_claim = none;
  admission_stopped = false;
  parent_err = parent;
  phase_cause = parent;
  parent_armed = true;
  timer_armed = false;
  final_claim_seen = not (is_measured p.phase);
  results_open = true;
  phase_err = none;
  completed = [];
  outcomes = no_outcomes;
  coordinator = c;
}

-- The condition of the select loop.
unfoldable pub loop_goes_on : State → Bool
loop_goes_on s = s.results_open || not s.final_claim_seen
