-- ===== src/Benchmark/Types.antt =====
-- The string enumerations and errors of internal/benchmark. An enumeration has one more
-- constructor where the code tests for a value outside the declared constants.
use llm_serving_performance.Prelude.{String, Bool, true, false, Option}

pub data LoadMode : Type 0 where
  unset_mode closed_loop open_loop : LoadMode
  other_mode : String → LoadMode

pub data RequestPhase : Type 0 where
  warmup measured : RequestPhase
  other_phase : String → RequestPhase

pub data RequestOutcome : Type 0 where
  succeeded request_error request_timeout parent_cancelled drain_timeout : RequestOutcome
  other_outcome : String → RequestOutcome

pub data ArrivalDisposition : Type 0 where
  started client_limited scheduler_limited : ArrivalDisposition
  other_disposition : String → ArrivalDisposition

-- What `errors.Is` finds at the end of an error's chain of causes.
pub data Err : Type 0 where
  drain_timeout_expired canceled deadline_exceeded illegal_transition other_error : Err

abbrev pub is_drain_timeout : Option Err → Bool
is_drain_timeout (Option.some drain_timeout_expired) = true
is_drain_timeout _ = false

abbrev pub is_canceled : Option Err → Bool
is_canceled (Option.some canceled) = true
is_canceled _ = false

abbrev pub is_deadline_exceeded : Option Err → Bool
is_deadline_exceeded (Option.some deadline_exceeded) = true
is_deadline_exceeded _ = false

abbrev pub is_measured : RequestPhase → Bool
is_measured measured = true
is_measured _ = false

abbrev pub is_open_loop : LoadMode → Bool
is_open_loop open_loop = true
is_open_loop _ = false

abbrev pub is_closed_loop : LoadMode → Bool
is_closed_loop closed_loop = true
is_closed_loop _ = false

abbrev pub normalized_load_mode : LoadMode → LoadMode
normalized_load_mode unset_mode = closed_loop
normalized_load_mode mode = mode
