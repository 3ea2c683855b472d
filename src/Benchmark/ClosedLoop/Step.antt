-- ===== src/Benchmark/ClosedLoop/Step.antt =====
-- The steps of the closed-loop machine.
use llm_serving_performance.Prelude.{
  ◌-◌, ℕ, ◌+◌, Bool, true, false, ◌&&◌, ◌||◌, Option, none, some, List, [], ◌∷◌, ◌++◌, length,
  get_elem?, set, ltb, leb, ◌==◌, max, if◌then◌else◌,
}
use llm_serving_performance.Prelude.Int.{ℤ, pos, ◌+ℤ◌, ◌-ℤ◌, ltb_ℤ, leb_ℤ, saturate64}
use llm_serving_performance.Benchmark.Types.{
  Err, drain_timeout_expired, deadline_exceeded, is_measured,
}
use llm_serving_performance.Benchmark.Outcomes.{classify_outcome, increment_outcome}
use llm_serving_performance.Benchmark.Ids.{phase_request_id}
use llm_serving_performance.Benchmark.Arrivals.{CompletedRequest}
use llm_serving_performance.Benchmark.Coordinator.{
  Coordinator, enter_stop_and_drain, on_parent_cancellation,
}
use llm_serving_performance.Benchmark.ClosedLoop.Defs.{
  Plan, worker_count, Worker, idle, claiming, claimed, waiting, ready, running, answered, sending,
  exited, State, loop_goes_on,
}

-- A step of one worker. `lost` is a failed CompareAndSwap; `proceed` takes the time at which the
-- final claim is observed; `answer` has the runner's error and whether the deadline has passed.
pub data WorkerAction : Type 0 where
  enter claim lost start classify send : WorkerAction
  proceed : ℤ → WorkerAction
  resume : WorkerAction
  answer : Option Err → Bool → WorkerAction

pub data Action : Type 0 where
  work : ℕ → WorkerAction → Action
  -- the environment cancels the parent context
  cancel_parent : Err → Action
  -- the cases of the select loop, with the clock's reading where the case takes one
  receive_boundary : ℤ → Action
  parent_done : ℤ → Action
  timer_fires : Action
  receive_result : Action

-- `context.WithCancelCause`: the first cause stays.
abbrev pub first_cause : Option Err → Err → Option Err
first_cause none e = some e
first_cause (some c) e = some c

put_worker : State → ℕ → Worker → State
put_worker s i w = record s { workers = set s.workers i w }

-- `claimNext`, the CompareAndSwap that succeeds, and its refusal past the last request.
unfoldable pub claim_next : Plan → State → ℕ → State
unfolding put_worker
claim_next p s i = if leb p.requests s.next_sequence then put_worker s i exited else record s {
  next_sequence = s.next_sequence + 1;
  workers = set s.workers i (claimed (s.next_sequence + 1));
}

-- The final measured claim sends its boundary and waits; any other goes on.
unfoldable pub announce : Plan → State → ℕ → ℕ → ℤ → State
unfolding put_worker
announce p s i q now =
    if is_measured p.phase && q == p.requests
    then record s { workers = set s.workers i (waiting q); final_claim = some now }
    else put_worker s i (ready q)

-- The cause of a request's context: its own deadline, or that of the phase.
abbrev pub request_cause : Bool → Option Err → Option Err
request_cause true cause = some deadline_exceeded
request_cause false cause = cause

-- `phaseRequestID` has an identifier for every claimed sequence, since these are positive.
abbrev id_or_empty : Option (List ℕ) → List ℕ
id_or_empty none = []
id_or_empty (some id) = id

unfoldable pub classified : Plan → State → ℕ → Option Err → Bool → CompletedRequest
classified p s q err late = record {
  sequence = q;
  phase = p.phase;
  outcome = classify_outcome s.parent_err (request_cause late s.phase_cause) err;
  request_id = id_or_empty (phase_request_id p.phase (pos q));
  error = err;
  arrival = none;
}

unfoldable pub worker_step : Plan → State → ℕ → Worker → WorkerAction → State
unfolding claim_next announce put_worker
worker_step p s i idle enter = elim s.phase_cause [
  | none ↦ put_worker s i claiming
  | some _ ↦ put_worker s i exited
]
worker_step p s i claiming claim = claim_next p s i
worker_step p s i claiming lost = elim s.phase_cause [ none ↦ s | some _ ↦ put_worker s i exited ]
worker_step p s i (claimed q) (proceed now) = announce p s i q now
worker_step p s i (waiting q) resume = if s.admission_stopped then put_worker s i (ready q) else s
worker_step p s i (ready q) start = record s {
  workers = set s.workers i (running q);
  active = s.active + 1;
  max_active = max s.max_active (s.active + 1);
}
worker_step p s i (running q) (answer err late) = record s {
  workers = set s.workers i (answered q err late);
  active = s.active - 1;
}
worker_step p s i (answered q err late) classify =
    put_worker s i (sending (classified p s q err late))
worker_step p s i (sending r) send =
    if ltb (length s.results) (worker_count p)
    then record s { workers = set s.workers i idle; results = s.results ++ (r ∷ []) }
    else s
worker_step p s i _ _ = s

-- A callback that is nil does nothing.
abbrev pub stop_callback : Plan → Coordinator → ℤ → Coordinator × Option Err
stop_callback p c at = elim p.stopped_reason [
  | none ↦ (c, none)
  | some reason ↦ enter_stop_and_drain c at reason
]

abbrev pub cancel_callback : Plan → Coordinator → ℤ → Coordinator × Option Err
cancel_callback p c at = elim p.cancelled_reason [
  | none ↦ (c, none)
  | some reason ↦ on_parent_cancellation c at reason
]

abbrev pub fail_phase : State → Coordinator × Option Err → State
fail_phase s (c, none) = record s { coordinator = c }
fail_phase s (c, some e) = record s {
  coordinator = c;
  phase_cause = first_cause s.phase_cause e;
  phase_err = some e;
}

-- `cancelPhase(ErrDrainTimeout)` while a request is active.
abbrev pub expire : State → State
expire s =
    if ltb 0 s.active
    then record s {
      phase_cause = first_cause s.phase_cause drain_timeout_expired;
      phase_err = some drain_timeout_expired;
    }
    else s

unfoldable pub drain_time_remaining : ℤ → ℤ → ℤ → ℤ
drain_time_remaining stopped timeout now = saturate64 (stopped +ℤ timeout -ℤ now)

abbrev pub arm_drain : Plan → State → ℤ → ℤ → State
arm_drain p s observed now =
    if ltb_ℤ (pos 0) p.drain_timeout_ns
    then if leb_ℤ (drain_time_remaining observed p.drain_timeout_ns now) (pos 0)
      then expire s
      else record s { timer_armed = true }
    else s

-- The case of the final claim's boundary.
unfoldable pub on_boundary : Plan → State → ℤ → ℤ → State
on_boundary p s observed now =
    let t = record s { final_claim = none; admission_stopped = true } in
    if s.final_claim_seen
    then t
    else arm_drain p
        (fail_phase (record t { final_claim_seen = true }) (stop_callback p s.coordinator observed))
        observed now

abbrev pub or_else : Option Err → Option Err → Option Err
or_else none e = e
or_else (some d) e = some d

-- The case of the parent's cancellation.
unfoldable pub on_parent_done : Plan → State → ℤ → State
on_parent_done p s now =
    let (c, err) = cancel_callback p s.coordinator now in
    record s {
      coordinator = c;
      parent_armed = false;
      phase_err = or_else (or_else s.phase_err err) s.parent_err;
      final_claim_seen = s.final_claim_seen || is_measured p.phase;
    }

abbrev pub all_exited : List Worker → Bool
all_exited [] = true
all_exited (exited ∷ ws) = all_exited ws
all_exited (_ ∷ ws) = false

-- The case of a result, or of the closed channel once every worker has ended.
unfoldable pub on_result : State → State
on_result s = elim s.results [
  | r ∷ rest ↦ record s {
    results = rest;
    completed = s.completed ++ (r ∷ []);
    outcomes = increment_outcome s.outcomes r.outcome;
  }
  | [] ↦ if all_exited s.workers then record s { results_open = false } else s
]

abbrev pub work_at : Plan → State → ℕ → WorkerAction → Option Worker → State
work_at p s i a none = s
work_at p s i a (some w) = worker_step p s i w a

abbrev pub is_some_err : Option Err → Bool
is_some_err none = false
is_some_err (some _) = true

-- One step of the select loop, if its condition holds.
unfoldable pub select_step : Plan → State → Action → State
unfolding on_boundary on_parent_done on_result
select_step p s (receive_boundary now) = elim s.final_claim [
  | none ↦ s
  | some observed ↦ on_boundary p s observed now
]
select_step p s (parent_done now) =
    if s.parent_armed && is_some_err s.parent_err then on_parent_done p s now else s
select_step p s timer_fires = if s.timer_armed then expire (record s { timer_armed = false }) else s
select_step p s receive_result = if s.results_open then on_result s else s
select_step p s _ = s

unfoldable pub step : Plan → State → Action → State
unfolding worker_step select_step loop_goes_on
step p s (work i a) = work_at p s i a (get_elem? s.workers i)
step p s (cancel_parent e) = record s {
  parent_err = first_cause s.parent_err e;
  phase_cause = first_cause s.phase_cause e;
}
step p s action = if loop_goes_on s then select_step p s action else s

unfoldable pub run : Plan → State → List Action → State
unfolding step
run p s [] = s
run p s (a ∷ rest) = run p (step p s a) rest
