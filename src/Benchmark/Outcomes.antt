-- ===== src/Benchmark/Outcomes.antt =====
-- Outcome counters and the classification of a finished request, internal/benchmark/lifecycle.go.
-- The counters start at zero and grow by one for a request, so they are left unbounded.
pub mod Laws
use llm_serving_performance.Prelude.{
  ℕ, suc, ◌+◌, Bool, true, false, ◌||◌, Option, none, some, ltb, if◌then◌else◌,
}
use llm_serving_performance.Benchmark.Types.{
  RequestOutcome, succeeded, request_error, request_timeout, parent_cancelled, drain_timeout,
  other_outcome, Err, is_drain_timeout, is_canceled, is_deadline_exceeded,
}

pub record OutcomeCounts : Type 0 where
  pub succeeded_count : ℕ
  pub request_error_count : ℕ
  pub request_timeout_count : ℕ
  pub parent_cancelled_count : ℕ
  pub drain_timeout_count : ℕ

abbrev pub no_outcomes : OutcomeCounts
no_outcomes = record {
  succeeded_count = 0;
  request_error_count = 0;
  request_timeout_count = 0;
  parent_cancelled_count = 0;
  drain_timeout_count = 0;
}

unfoldable pub failed : OutcomeCounts → ℕ
failed c =
    c.request_error_count + c.request_timeout_count + c.parent_cancelled_count
    + c.drain_timeout_count

unfoldable pub total : OutcomeCounts → ℕ
unfolding failed
total c = c.succeeded_count + failed c

unfoldable pub increment_outcome : OutcomeCounts → RequestOutcome → OutcomeCounts
increment_outcome c succeeded = record c { succeeded_count = c.succeeded_count + 1 }
increment_outcome c request_error = record c { request_error_count = c.request_error_count + 1 }
increment_outcome c request_timeout = record c {
  request_timeout_count = c.request_timeout_count + 1;
}
increment_outcome c parent_cancelled = record c {
  parent_cancelled_count = c.parent_cancelled_count + 1;
}
increment_outcome c drain_timeout = record c { drain_timeout_count = c.drain_timeout_count + 1 }
increment_outcome c (other_outcome _) = c

-- `parent` is the parent context's error, `cause` the cause of the request's context, and
-- `result` the error that the runner returned.
unfoldable pub classify_outcome : Option Err → Option Err → Option Err → RequestOutcome
classify_outcome parent cause none = succeeded
classify_outcome parent cause (some e) =
    if is_drain_timeout cause then drain_timeout else elim parent [
      | some _ ↦ parent_cancelled
      | none ↦
          if is_deadline_exceeded cause || is_deadline_exceeded (some e)
          then request_timeout
          else request_error
    ]

pub data PhaseStatus : Type 0 where
  skipped completed failed_phase cancelled : PhaseStatus

unfoldable pub phase_status : OutcomeCounts → Option Err → PhaseStatus
unfolding failed
phase_status outcomes err =
    if is_canceled err || is_deadline_exceeded err then cancelled else elim err [
      | some _ ↦ failed_phase
      | none ↦ if ltb 0 (failed outcomes) then failed_phase else completed
    ]
