-- ===== src/Benchmark/Admission.antt =====
-- Admission of a run against the safety ceilings, internal/benchmark/admission.go. The machine
-- diagnostics are carried along and decide nothing.
pub mod Accepted
use llm_serving_performance.Prelude.{ℕ, Bool, true, false, ◌||◌, if◌then◌else◌}
use llm_serving_performance.Prelude.Int.{ℤ, pos, ltb_ℤ, leb_ℤ, eqb_ℤ}
use llm_serving_performance.Prelude.Results.{Result, ok, err, ◌>>=◌, ◌>>◌, refuse_if, wrap_err}
use llm_serving_performance.Floats.{Floats, not_positive}
use llm_serving_performance.Benchmark.Types.{
  LoadMode, unset_mode, closed_loop, open_loop, other_mode, normalized_load_mode,
}
use llm_serving_performance.Benchmark.Schedule.{
  ScheduleErr, planned_arrival_count, arrival_offsets, duration_arrival_offsets,
}

pub data AdmissionErr : Type 0 where
  warmup_negative max_requests_not_positive warmup_exceeds_max bad_mode : AdmissionErr
  concurrency_not_positive requests_not_positive max_concurrency_not_positive : AdmissionErr
  concurrency_exceeds_max requests_exceed_max : AdmissionErr
  bad_request_rate duration_not_positive max_in_flight_not_positive : AdmissionErr
  bad_max_request_rate ceiling_not_positive rate_exceeds_max in_flight_exceeds_ceiling :
      AdmissionErr
  planned_exceed_max : AdmissionErr
  bad_schedule bad_measurement_schedule bad_warmup_schedule : ScheduleErr → AdmissionErr

pub record AdmissionDecision (D : Type 0) : Type 0 where
  pub mode : LoadMode
  pub worker_count : ℤ
  pub warmup_worker_count : ℤ
  pub measurement_worker_count : ℤ
  pub transport_worker_limit : ℤ
  pub planned_arrivals : ℤ
  pub diagnostics : D

abbrev pub min_ℤ : ℤ → ℤ → ℤ
min_ℤ a b = if ltb_ℤ b a then b else a

abbrev pub max_ℤ : ℤ → ℤ → ℤ
max_ℤ a b = if ltb_ℤ a b then b else a

module _ (fl : Floats) where
  open fl use {Float, lt}

  pub record AdmissionRequest : Type 0 where
    pub mode : LoadMode
    pub concurrency : ℤ
    pub requests : ℤ
    pub warmup_requests : ℤ
    pub request_rate : Float
    pub duration : ℤ
    pub max_in_flight : ℤ
    pub max_concurrency : ℤ
    pub max_requests : ℤ
    pub max_request_rate : Float
    pub max_in_flight_ceiling : ℤ

  -- The `warmupWorkers` of a closed loop.
  abbrev pub warmup_workers : ℤ → ℤ → ℤ
  warmup_workers concurrency warmup =
      if eqb_ℤ warmup (pos 0) then pos 0 else min_ℤ concurrency warmup

  unfoldable pub admit_closed_loop :
      {D : Type 0} → AdmissionRequest → D → Result AdmissionErr (AdmissionDecision D)
  admit_closed_loop r diagnostics = do
    refuse_if (leb_ℤ r.concurrency (pos 0)) concurrency_not_positive
    refuse_if (leb_ℤ r.requests (pos 0)) requests_not_positive
    refuse_if (leb_ℤ r.max_concurrency (pos 0)) max_concurrency_not_positive
    refuse_if (ltb_ℤ r.max_concurrency r.concurrency) concurrency_exceeds_max
    refuse_if (ltb_ℤ r.max_requests r.requests) requests_exceed_max
    let measurement = min_ℤ r.concurrency r.requests
    let warmup = warmup_workers r.concurrency r.warmup_requests
    ok (record {
      mode = closed_loop;
      worker_count = measurement;
      warmup_worker_count = warmup;
      measurement_worker_count = measurement;
      transport_worker_limit = max_ℤ measurement warmup;
      planned_arrivals = pos 0;
      diagnostics = diagnostics;
    })

  unfoldable pub admit_open_loop :
      {D : Type 0} → AdmissionRequest → D → Result AdmissionErr (AdmissionDecision D)
  admit_open_loop r diagnostics = do
    refuse_if (not_positive fl r.request_rate) bad_request_rate
    refuse_if (leb_ℤ r.duration (pos 0)) duration_not_positive
    refuse_if (leb_ℤ r.max_in_flight (pos 0)) max_in_flight_not_positive
    refuse_if (not_positive fl r.max_request_rate) bad_max_request_rate
    refuse_if (leb_ℤ r.max_in_flight_ceiling (pos 0)) ceiling_not_positive
    refuse_if (lt r.max_request_rate r.request_rate) rate_exceeds_max
    refuse_if (ltb_ℤ r.max_in_flight_ceiling r.max_in_flight) in_flight_exceeds_ceiling
    planned ← wrap_err bad_schedule (planned_arrival_count fl r.request_rate r.duration)
    refuse_if (ltb_ℤ r.max_requests planned) planned_exceed_max
    measurement ←
        wrap_err bad_measurement_schedule (duration_arrival_offsets fl r.request_rate r.duration)
    warmup ← wrap_err bad_warmup_schedule (arrival_offsets fl r.request_rate r.warmup_requests)
    ok (record {
      mode = open_loop;
      worker_count = pos 0;
      warmup_worker_count = pos 0;
      measurement_worker_count = pos 0;
      transport_worker_limit = r.max_in_flight;
      planned_arrivals = planned;
      diagnostics = diagnostics;
    })

  admit_mode :
      {D : Type 0} → LoadMode → AdmissionRequest → D → Result AdmissionErr (AdmissionDecision D)
  unfolding admit_closed_loop admit_open_loop
  admit_mode open_loop r diagnostics = admit_open_loop r diagnostics
  admit_mode closed_loop r diagnostics = admit_closed_loop r diagnostics
  admit_mode unset_mode r diagnostics = admit_closed_loop r diagnostics
  admit_mode (other_mode _) r diagnostics = err bad_mode

  unfoldable pub admit_run :
      {D : Type 0} → AdmissionRequest → D → Result AdmissionErr (AdmissionDecision D)
  unfolding admit_mode
  admit_run r diagnostics = do
    refuse_if (ltb_ℤ r.warmup_requests (pos 0)) warmup_negative
    refuse_if (leb_ℤ r.max_requests (pos 0)) max_requests_not_positive
    refuse_if (ltb_ℤ r.max_requests r.warmup_requests) warmup_exceeds_max
    admit_mode r.mode r diagnostics
