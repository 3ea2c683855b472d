-- ===== src/Lib.antt =====
-- Verification of Slentore, a benchmark harness for LLM serving written in Go.
--
-- The program sends streaming chat requests to a server and measures them. A run is admitted
-- against safety ceilings (internal/benchmark/admission.go), gets an arrival schedule if its load
-- is open-loop (schedule.go), and goes through a lifecycle of phases (lifecycle.go): setup, warmup,
-- measurement, stop of admission, drain, artifacts. A phase's worker goroutines claim sequence
-- numbers, send requests and hand results to the coordinating goroutine. From the raw observation
-- of each request internal/metrics computes its metrics, and internal/aggregate summarises the
-- metrics of the measured requests: distributions, SLO counts and goodput. A sweep
-- (internal/experiment) plans one validated configuration for each combination of its axes, and runs
-- them one after another through internal/benchmarkexec, which validates a configuration
-- (internal/config), admits it and runs its lifecycle.
--
-- Files:
--   Prelude    shared names, tests with their case lemmas, the integers, sorting, results
--   Floats     float64 as an interface with the IEEE 754 laws that theorems assume
--   Benchmark  internal/benchmark
--     Types, Arrivals, Observation  the enumerations and records of types.go, coordinator.go and
--                  lifecycle.go
--     Outcomes     OutcomeCounts, classifyOutcome, incrementOutcome, phaseStatus
--     Transitions  lifecycleState, transition, legalTransition
--     Ids          RequestID, WarmupRequestID, phaseRequestID
--     Schedule     PlannedArrivalCount, ArrivalOffsets, DurationArrivalOffsets
--     Admission    AdmitRun, admitOpenLoop
--     Coordinator  the closures of LifecycleCoordinator.Run, appendCancelledIDs, finishLifecycle
--     Phases       phaseExecutionPlan, skippedPhaseResult, markSkippedOpenLoopUnprocessed
--     Lifecycle    LifecycleCoordinator.Run and validate; Keeping and Opened have what a phase does to
--                  the coordinator, Ended the theorem
--     ClosedLoop   runClosedLoopPhase: Defs has the state, Step the steps; Count, Occupancy,
--                  Invariant and Ending carry the invariants, Delivery the results;
--                  Result and Completed the code behind the loop
--     OpenLoop     runOpenLoopPhase and waitUntil: Defs has the state, Step the steps, Result the
--                  end; Count, Slots, Accounts, Arriving, Placed, Invariant and Reached carry the
--                  invariant, Accounting, Ordered, Whole, Completed and Progress the theorems
--   Metrics    internal/metrics: Windows (scalars), Gaps (interval latencies), Calculate; Decode and
--              Availability carry the theorems
--   Aggregate  internal/aggregate: Distribution (distribution.go), Types (records, ratios and
--              rates), Slo (calculateSLO), Input and
--              Selection (validateAndSelectMeasured), Load (populateLoadSummary), Tokens
--              (calculateTokens)
--   Workload   internal/workload: Tokenizer (types.go), Sizes and Builder (builder.go); Exact has the
--              theorem
--   Client     internal/openai: Sse (parseSSE of stream.go); its Scanner is the bufio.Scanner with its
--              limited buffer, and its Frames prints what it parses; Chunks (the event
--              handling of Execute and appendStreamEvent, client.go)
--   Calibration  internal/calibration: EvaluateEvidence (evaluate.go)
--   Config     internal/config/config.go: Types (the records), Text (URLs, names of variables),
--              Defaults (Default), Overriding (ApplyOverrides), Validate; Valid says what a valid
--              configuration is, Plain, Sections and Accepted prove it; Line and Given have what
--              this asks of a command line
--   Executor   internal/benchmarkexec/executor.go: Static has ValidateStatic, admissionRequest and
--              newSharedHTTPClient, Classify classifyRun, phaseMetadata and their kin; Completed has the
--              theorem
--   Experiment internal/experiment: Axes, Product and Plan (plan.go), Types and Run (types.go, run.go); Grid
--              and Planned carry the theorem of a plan, Counted, Stepped, Swept and Ended those of a run
--   Tests      concrete runs
--
-- Numbers. Go's int and int64 are integers (ℤ) where their sign matters; sums that can leave 64 bits
-- wrap (wrap64), and time.Time.Sub saturates (saturate64). Counters that grow by one for a request
-- are unbounded ℕ, so that populateLoadSummary's refusal of a negative maximum in flight has no
-- counterpart. Times are nanoseconds since an epoch. float64 is the record Floats; definitions
-- use its operations only, and theorems name the laws that they need (OrderLaws, RankLaws).
-- Floats.Whole has an instance that meets them. Recursion is structural everywhere; the decimal
-- digits of n take suc n as fuel, which is enough because each round divides by ten; the
-- halving and doubling loops of the workload builder take the number that they start from, which is
-- enough because each round at least halves what is left or adds one.
--
-- Concurrency. A closed-loop phase is a state machine; a schedule is an arbitrary list of atomic
-- actions of the workers, of the select loop and of the environment, and an action that is not
-- enabled changes nothing. So a theorem about `run` holds for every interleaving. A case of the
-- select loop is one step. The runner's answer, the clock and the cancellations are in the actions.
--
-- An open-loop phase is such a machine too. Between two reads of the clock, of a channel or of a
-- context a goroutine is one step: startRequest takes its slot and counts the request in one step,
-- since no other goroutine takes a slot or counts.
--
-- Errors are constructors; their texts are kept only where the program stores them in its output. A
-- context's or a request's error is what `errors.Is` finds in its chain.
--
-- A text of a configuration is a list of code points; the parser of URLs is a parameter. What the
-- executor answers for a point of a sweep is the environment's, with the parent's cancellation.
--
-- Not modelled: HTTP, JSON, YAML, files and the command line, which the source leaves to libraries;
-- the text of log and error messages; the machine's diagnostics, which decide nothing; the error of
-- closing a response's body, which Execute's deferred function may return behind the stream.
pub mod Prelude
pub mod Floats
pub mod Benchmark
pub mod Metrics
pub mod Aggregate
pub mod Workload
pub mod Client
pub mod Calibration
mod Tests
pub mod Config
pub mod Executor
pub mod Experiment
