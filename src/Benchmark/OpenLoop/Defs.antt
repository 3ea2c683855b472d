-- ===== src/Benchmark/OpenLoop/Defs.antt =====
-- The state of the open-loop machine. A time is in nanoseconds since an epoch.
use llm_serving_performance.Prelude.{◌∷◌, ℕ, Bool, false, Option, none, List, [], String}
use llm_serving_performance.Prelude.Int.{ℤ}
use llm_serving_performance.Benchmark.Types.{RequestPhase, Err}
use llm_serving_performance.Benchmark.Outcomes.{OutcomeCounts, no_outcomes}
use llm_serving_performance.Benchmark.Arrivals.{ArrivalRecord, CompletedRequest}
use llm_serving_performance.Benchmark.Coordinator.{Coordinator}
use Prim.Native.Nat.{ℕ}

pub data Wait : Type 0 where
  -- at the head of `waitUntil`, inside its select, and behind it with the value returned
  looking blocked : Wait
  returned : Bool → Wait

pub record OpenPlan : Type 0 where
  pub phase : RequestPhase
  pub schedule : List ℤ
  pub max_in_flight : ℕ
  pub started_at : ℤ
  pub deadline : Option ℤ
  pub drain_timeout_ns : ℤ
  -- The reasons of the two callbacks; `none` is a nil callback.
  pub stopped_reason : Option String
  pub cancelled_reason : Option String

-- What `startRequest` hands to the goroutine of a request.
pub record Launch : Type 0 where
  pub sequence : ℕ
  pub scheduled_at : ℤ
  pub scheduled_after_ns : ℤ
  pub request_id : List ℕ

-- Where a request's goroutine stands.
pub data Request : Type 0 where
  in_runner : Launch → Request
  -- behind `RunRequest`: its error, whether the request's deadline has passed, and the start that
  -- it observed
  answered : Launch → Option Err → Bool → Option ℤ → Request
  -- before `active.Add(-1)`, before the release of the semaphore, and before the send
  counted slot_held sending : CompletedRequest → Request
  done : Request

-- Where the goroutine of `runOpenLoopPhase` stands.
pub data Main : Type 0 where
  -- in the loop, at an index, with the offset there and those behind it
  scheduling : ℕ → ℤ → List ℤ → Wait → Main
  -- behind the loop, waiting for the deadline, and before the goroutine that waits for the requests
  left : Main
  at_deadline : ℤ → Wait → Main
  closing : Main
  -- in the select of the drain, before the last two receives, and behind them
  draining joining ended : Main

-- What the scheduling goroutine, the requests and the collector share.
pub record Pool : Type 0 where
  pub semaphore : ℕ
  pub active : ℕ
  pub max_active : ℕ
  pub requests : List Request
  pub dropped : List ArrivalRecord
  pub processed : ℕ
  -- the channel `resultsCh`, and the collector's fields
  pub results : List CompletedRequest
  pub collected : List CompletedRequest
  pub collected_arrivals : List ArrivalRecord
  pub outcomes : OutcomeCounts

pub record OpenState : Type 0 where
  pub main : Main
  pub pool : Pool
  -- whether the goroutine that closes `resultsCh` runs, and whether the channel is closed
  pub launched : Bool
  pub results_closed : Bool
  -- `ctx.Err()` and the cause with which `phaseCtx` was cancelled
  pub parent_err : Option Err
  pub phase_cause : Option Err
  pub phase_err : Option Err
  pub coordinator : Coordinator

-- The head of the loop over the schedule.
abbrev pub next_arrival : ℕ → List ℤ → Main
next_arrival i [] = left
next_arrival i (offset ∷ rest) = scheduling i offset rest looking

abbrev pub empty_pool : Pool
empty_pool = record {
  semaphore = 0;
  active = 0;
  max_active = 0;
  requests = [];
  dropped = [];
  processed = 0;
  results = [];
  collected = [];
  collected_arrivals = [];
  outcomes = no_outcomes;
}

unfoldable pub open_initial : OpenPlan → Coordinator → Option Err → OpenState
open_initial p c parent = record {
  main = next_arrival 0 p.schedule;
  pool = empty_pool;
  launched = false;
  results_closed = false;
  parent_err = parent;
  phase_cause = parent;
  phase_err = none;
  coordinator = c;
}
