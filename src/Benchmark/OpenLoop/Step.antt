-- ===== src/Benchmark/OpenLoop/Step.antt =====
-- The steps of the open-loop machine.
use llm_serving_performance.Prelude.{
  ℕ, ◌+◌, ◌-◌, ◌&&◌, not, max, ltb, if◌then◌else◌, Bool, true, false, Option, none, some, List, [],
  ◌∷◌, ◌++◌, length, get_elem?, set,
}
use llm_serving_performance.Prelude.Int.{ℤ, pos, ◌+ℤ◌, ◌-ℤ◌, leb_ℤ, saturate64}
use llm_serving_performance.Benchmark.Types.{
  ArrivalDisposition, started, client_limited, scheduler_limited, Err, drain_timeout_expired,
}
use llm_serving_performance.Benchmark.Outcomes.{classify_outcome, increment_outcome}
use llm_serving_performance.Benchmark.Ids.{phase_request_id}
use llm_serving_performance.Benchmark.Arrivals.{ArrivalRecord, CompletedRequest}
use llm_serving_performance.Benchmark.Coordinator.{
  Coordinator, enter_stop_and_drain, on_parent_cancellation,
}
use llm_serving_performance.Benchmark.ClosedLoop.Step.{
  first_cause, or_else, is_some_err, drain_time_remaining, request_cause,
}
use llm_serving_performance.Benchmark.OpenLoop.Defs.{
  Wait, looking, blocked, returned, OpenPlan, Launch, Request, in_runner, answered, counted,
  slot_held, sending, done, Main, scheduling, left, at_deadline, closing, draining, joining, ended,
  OpenState, Pool, next_arrival,
}
use Prim.Native.Nat.{ℕ}

pub data WaitAction : Type 0 where
  look : ℤ → WaitAction
  wake see_cancel : WaitAction

pub data RequestAction : Type 0 where
  answer : Option Err → Bool → Option ℤ → RequestAction
  classify deactivate release send : RequestAction

-- The steps of the main goroutine; a step that reads the clock takes the reading.
pub data MainAction : Type 0 where
  waits : WaitAction → MainAction
  proceed : ℤ → MainAction
  requests_finished timer_fires : MainAction
  parent_done : ℤ → MainAction
  join : MainAction

pub data OpenAction : Type 0 where
  schedule_step : MainAction → OpenAction
  request : ℕ → RequestAction → OpenAction
  collect close_results : OpenAction
  cancel_parent : Err → OpenAction

-- `waitUntil`, from one read of the clock or of a channel to the next.
unfoldable pub wait_until : Option Err → ℤ → Wait → WaitAction → Wait
wait_until parent target looking (look now) =
    if leb_ℤ (saturate64 (target -ℤ now)) (pos 0)
    then returned (not (is_some_err parent))
    else blocked
wait_until parent target blocked wake = looking
wait_until parent target blocked see_cancel = if is_some_err parent then returned false else blocked
wait_until parent target w a = w

-- The record of an arrival that starts no request.
unfoldable pub dropped_arrival : OpenPlan → ℕ → ℤ → ArrivalDisposition → ArrivalRecord
dropped_arrival p sequence offset why = record {
  sequence = sequence;
  phase = p.phase;
  scheduled_at = p.started_at +ℤ offset;
  scheduled_after_ns = offset;
  disposition = why;
  request_id = none;
  actual_started_at = none;
  actual_started_after_ns = none;
  scheduler_lag_ns = none;
}

-- The loop over the arrivals from an index on, past the deadline.
unfoldable pub overdue : OpenPlan → ℕ → List ℤ → List ArrivalRecord
overdue p index [] = []
overdue p index (offset ∷ rest) =
    dropped_arrival p (index + 1) offset scheduler_limited ∷ overdue p (index + 1) rest

-- The arguments of the goroutine.
abbrev pub launch_of : OpenPlan → ℕ → ℤ → List ℕ → Launch
launch_of p sequence offset id = record {
  sequence = sequence;
  scheduled_at = p.started_at +ℤ offset;
  scheduled_after_ns = offset;
  request_id = id;
}

unfoldable pub launch : OpenPlan → Pool → ℕ → ℤ → Option (List ℕ) → Pool
launch p o sequence offset none = o
launch p o sequence offset (some id) = record o {
  semaphore = o.semaphore + 1;
  active = o.active + 1;
  max_active = max o.max_active (o.active + 1);
  requests = o.requests ++ in_runner (launch_of p sequence offset id) ∷ [];
}

-- `startRequest`; without an identifier the slot is given back.
unfoldable pub start_request : OpenPlan → Pool → ℕ → ℤ → Pool
unfolding launch
start_request p o sequence offset =
    if ltb o.semaphore p.max_in_flight
    then launch p o sequence offset (phase_request_id p.phase (pos sequence))
    else record o { dropped = o.dropped ++ dropped_arrival p sequence offset client_limited ∷ [] }

abbrev pub deadline_passed : Option ℤ → ℤ → Bool
deadline_passed none now = false
deadline_passed (some d) now = leb_ℤ d now

-- The rest of the loop's body, once the arrival's time has come.
unfoldable pub arrive : OpenPlan → OpenState → ℕ → ℤ → List ℤ → ℤ → OpenState
unfolding start_request overdue
arrive p s index offset rest now =
    if deadline_passed p.deadline now
    then record s {
      main = left;
      pool = record (s.pool) {
        dropped = s.pool.dropped ++ overdue p index (offset ∷ rest);
        processed = length p.schedule;
      };
    }
    else let o = start_request p s.pool (index + 1) offset in
      record s {
        main = next_arrival (index + 1) rest;
        pool = record o { processed = o.processed + 1 };
      }

-- A callback that is nil does nothing.
abbrev pub call_stopped : OpenPlan → Coordinator → ℤ → Coordinator × Option Err
call_stopped p c at = elim p.stopped_reason [
  | none ↦ (c, none)
  | some reason ↦ enter_stop_and_drain c at reason
]

abbrev pub call_cancelled : OpenPlan → Coordinator → ℤ → Coordinator × Option Err
call_cancelled p c at = elim p.cancelled_reason [
  | none ↦ (c, none)
  | some reason ↦ on_parent_cancellation c at reason
]

abbrev pub cancelled_with : OpenState → Main → Coordinator × Option Err → OpenState
cancelled_with s next (c, err) = record s {
  main = next;
  coordinator = c;
  phase_err = or_else err s.parent_err;
}

-- Every place where the phase sees that its parent was cancelled.
unfoldable pub parent_seen : OpenPlan → OpenState → Main → ℤ → OpenState
parent_seen p s next now = cancelled_with s next (call_cancelled p s.coordinator now)

abbrev pub stopped_with : OpenState → Coordinator × Option Err → OpenState
stopped_with s (c, none) = record s { main = closing; coordinator = c }
stopped_with s (c, some e) = record s {
  main = closing;
  coordinator = c;
  phase_err = some e;
  phase_cause = first_cause s.phase_cause e;
}

-- `cancelPhase(ErrDrainTimeout)` while a request is active.
unfoldable pub expire_drain : OpenState → OpenState
expire_drain s =
    if ltb 0 s.pool.active
    then record s {
      main = joining;
      phase_cause = first_cause s.phase_cause drain_timeout_expired;
      phase_err = some drain_timeout_expired;
    }
    else record s { main = joining }

-- From the start of the goroutine that waits for the requests to the select of the drain.
unfoldable pub start_drain : OpenPlan → OpenState → Option Err → Option ℤ → ℤ → OpenState
unfolding expire_drain
start_drain p s none (some deadline) now =
    if leb_ℤ (drain_time_remaining deadline p.drain_timeout_ns now) (pos 0)
    then expire_drain (record s { launched = true })
    else record s { launched = true; main = draining }
start_drain p s _ _ now = record s { launched = true; main = joining }

abbrev pub is_empty : List CompletedRequest → Bool
is_empty [] = true
is_empty (_ ∷ _) = false

unfoldable pub main_step : OpenPlan → OpenState → Main → MainAction → OpenState
unfolding wait_until arrive parent_seen start_drain expire_drain
main_step p s (scheduling i offset rest w) (waits a) = record s {
  main = scheduling i offset rest (wait_until s.parent_err (p.started_at +ℤ offset) w a);
}
main_step p s (scheduling i offset rest (returned false)) (proceed now) = record s { main = left }
main_step p s (scheduling i offset rest (returned true)) (proceed now) =
    arrive p s i offset rest now
main_step p s left (proceed now) =
    if is_some_err s.parent_err then parent_seen p s closing now else elim p.deadline [
      | none ↦ record s { main = closing }
      | some d ↦ record s { main = at_deadline d looking }
    ]
main_step p s (at_deadline d w) (waits a) = record s {
  main = at_deadline d (wait_until s.parent_err d w a);
}
main_step p s (at_deadline d (returned true)) (proceed now) =
    stopped_with s (call_stopped p s.coordinator d)
main_step p s (at_deadline d (returned false)) (proceed now) = parent_seen p s closing now
main_step p s closing (proceed now) = start_drain p s s.phase_err p.deadline now
main_step p s draining requests_finished =
    if s.results_closed then record s { main = joining } else s
main_step p s draining timer_fires = expire_drain s
main_step p s draining (parent_done now) =
    if is_some_err s.parent_err then parent_seen p s joining now else s
main_step p s joining join =
    if s.results_closed && is_empty s.pool.results then record s { main = ended } else s
main_step p s m a = s

-- The arrival record of a request that was started, and its result.
abbrev observed_start : OpenPlan → Launch → Option ℤ → ArrivalRecord → ArrivalRecord
observed_start p l none r = r
observed_start p l (some actual) r = record r {
  actual_started_at = some actual;
  actual_started_after_ns = some (saturate64 (actual -ℤ p.started_at));
  scheduler_lag_ns = some (saturate64 (actual -ℤ l.scheduled_at));
}

unfoldable pub started_arrival : OpenPlan → Launch → Option ℤ → ArrivalRecord
started_arrival p l actual = observed_start p l actual (record {
  sequence = l.sequence;
  phase = p.phase;
  scheduled_at = l.scheduled_at;
  scheduled_after_ns = l.scheduled_after_ns;
  disposition = started;
  request_id = some l.request_id;
  actual_started_at = none;
  actual_started_after_ns = none;
  scheduler_lag_ns = none;
})

unfoldable pub request_result :
    OpenPlan → OpenState → Launch → Option Err → Bool → Option ℤ → CompletedRequest
request_result p s l err late actual = record {
  sequence = l.sequence;
  phase = p.phase;
  outcome = classify_outcome s.parent_err (request_cause late s.phase_cause) err;
  request_id = l.request_id;
  error = err;
  arrival = some (started_arrival p l actual);
}

put_request : Pool → ℕ → Request → Pool
put_request o i r = record o { requests = set o.requests i r }

-- The goroutine of one request.
unfoldable pub request_step : OpenPlan → OpenState → Pool → ℕ → Request → RequestAction → Pool
unfolding put_request
request_step p s o i (in_runner l) (answer err late actual) =
    put_request o i (answered l err late actual)
request_step p s o i (answered l err late actual) classify =
    put_request o i (counted (request_result p s l err late actual))
request_step p s o i (counted r) deactivate = record o {
  requests = set o.requests i (slot_held r);
  active = o.active - 1;
}
request_step p s o i (slot_held r) release = record o {
  requests = set o.requests i (sending r);
  semaphore = o.semaphore - 1;
}
request_step p s o i (sending r) send =
    if ltb (length o.results) p.max_in_flight
    then record o { requests = set o.requests i done; results = o.results ++ (r ∷ []) }
    else o
request_step p s o i r a = o

abbrev pub request_at : OpenPlan → OpenState → Pool → ℕ → RequestAction → Option Request → Pool
request_at p s o i a none = o
request_at p s o i a (some r) = request_step p s o i r a

abbrev pub append_arrival : List ArrivalRecord → Option ArrivalRecord → List ArrivalRecord
append_arrival arrivals none = arrivals
append_arrival arrivals (some a) = arrivals ++ (a ∷ [])

-- One round of the collector.
unfoldable pub collect_result : Pool → List CompletedRequest → Pool
collect_result o [] = o
collect_result o (r ∷ rest) = record o {
  results = rest;
  collected = o.collected ++ (r ∷ []);
  outcomes = increment_outcome o.outcomes r.outcome;
  collected_arrivals = append_arrival o.collected_arrivals r.arrival;
}

abbrev pub all_done : List Request → Bool
all_done [] = true
all_done (done ∷ rs) = all_done rs
all_done (_ ∷ rs) = false

unfoldable pub open_step : OpenPlan → OpenState → OpenAction → OpenState
unfolding main_step request_step collect_result
open_step p s (schedule_step a) = main_step p s s.main a
open_step p s (request i a) = record s {
  pool = request_at p s s.pool i a (get_elem? s.pool.requests i);
}
open_step p s collect = record s { pool = collect_result s.pool s.pool.results }
open_step p s close_results =
    if s.launched && all_done s.pool.requests then record s { results_closed = true } else s
open_step p s (cancel_parent e) = record s {
  parent_err = first_cause s.parent_err e;
  phase_cause = first_cause s.phase_cause e;
}

unfoldable pub open_run : OpenPlan → OpenState → List OpenAction → OpenState
unfolding open_step
open_run p s [] = s
open_run p s (a ∷ rest) = open_run p (open_step p s a) rest
