-- ===== src/Benchmark/Admission/Accepted.antt =====
-- Which runs are admitted, and with what numbers of workers.
use llm_serving_performance.Prelude.{false, inr, inl, ◌≡◌, arith, length, List}
use llm_serving_performance.Floats.{not_positive, Floats}
use llm_serving_performance.Benchmark.Schedule.{
  arrival_offsets, duration_arrival_offsets, planned_arrival_count,
}
use llm_serving_performance.Prelude.Int.{ℤ, pos, ◌≤ℤ◌, ◌<ℤ◌}
use llm_serving_performance.Prelude.Results.{ok, Result-cases}
use llm_serving_performance.Benchmark.Types.{closed_loop, open_loop, normalized_load_mode}
use llm_serving_performance.Benchmark.Schedule.Ordered.{duration_schedule_sound}
use llm_serving_performance.Benchmark.Admission.{
  AdmissionRequest, AdmissionDecision, admit_open_loop, admit_run, min_ℤ, max_ℤ,
}

module _ (fl : Floats) {D : Type 0} (r : AdmissionRequest fl) (diagnostics : D) where
  -- The ceilings of a closed-loop run.
  pub record WithinCeilings : Type 0 where
    pub warmup_low : pos 0 ≤ℤ r.warmup_requests
    pub warmup_high : r.warmup_requests ≤ℤ r.max_requests
    pub concurrency_low : pos 0 <ℤ r.concurrency
    pub concurrency_high : r.concurrency ≤ℤ r.max_concurrency
    pub requests_low : pos 0 <ℤ r.requests
    pub requests_high : r.requests ≤ℤ r.max_requests

  -- A decision for a closed-loop run: the workers of a phase are as many as its requests can use.
  abbrev pub closed_decision : AdmissionDecision D
  closed_decision = record {
    mode = closed_loop;
    worker_count = min_ℤ r.concurrency r.requests;
    warmup_worker_count = min_ℤ r.concurrency r.warmup_requests;
    measurement_worker_count = min_ℤ r.concurrency r.requests;
    transport_worker_limit =
        max_ℤ (min_ℤ r.concurrency r.requests) (min_ℤ r.concurrency r.warmup_requests);
    planned_arrivals = pos 0;
    diagnostics = diagnostics;
  }

  -- A closed-loop run within its ceilings is admitted, with the lesser of concurrency and requests
  -- as the workers of each phase.
  pub admit_closed_accepts :
      normalized_load_mode r.mode ≡ closed_loop
      → WithinCeilings
      → admit_run fl r diagnostics ≡ ok closed_decision
  unfolding admit_run
  admit_closed_accepts m w = ground arith

  -- No other closed-loop run is admitted.
  pub admit_closed_refuses :
      normalized_load_mode r.mode ≡ closed_loop
      → (d : AdmissionDecision D) → admit_run fl r diagnostics ≡ ok d
      → WithinCeilings
  unfolding admit_run
  admit_closed_refuses m d h = ground arith

  open_part :
      r.mode ≡ open_loop
      → (d : AdmissionDecision D) → admit_run fl r diagnostics ≡ ok d
      → admit_open_loop fl r diagnostics ≡ ok d
  unfolding admit_run
  open_part m d h = ground arith

  warmup_bounds :
      (d : AdmissionDecision D)
      → admit_run fl r diagnostics ≡ ok d
      → (pos 0 ≤ℤ r.warmup_requests) × (r.warmup_requests ≤ℤ r.max_requests)
  unfolding admit_run
  warmup_bounds d h = ground arith

  -- The ceilings of an open-loop run.
  pub record WithinOpenCeilings : Type 0 where
    pub rate_positive : not_positive fl r.request_rate ≡ false
    pub rate_ceiling_positive : not_positive fl r.max_request_rate ≡ false
    pub rate_high : fl.lt r.max_request_rate r.request_rate ≡ false
    pub duration_low : pos 0 <ℤ r.duration
    pub in_flight_low : pos 0 <ℤ r.max_in_flight
    pub in_flight_high : r.max_in_flight ≤ℤ r.max_in_flight_ceiling
    pub warmup_low : pos 0 ≤ℤ r.warmup_requests
    pub warmup_high : r.warmup_requests ≤ℤ r.max_requests

  open_rates :
      (d : AdmissionDecision D)
      → admit_open_loop fl r diagnostics ≡ ok d
      → (not_positive fl r.request_rate ≡ false)
        × (not_positive fl r.max_request_rate ≡ false)
        × (fl.lt r.max_request_rate r.request_rate ≡ false)
        × (pos 0 <ℤ r.duration)
  unfolding admit_open_loop
  open_rates d h = ground arith

  open_bounds :
      (d : AdmissionDecision D)
      → admit_open_loop fl r diagnostics ≡ ok d
      → (d.transport_worker_limit ≡ r.max_in_flight)
        × (pos 0 <ℤ r.max_in_flight)
        × (r.max_in_flight ≤ℤ r.max_in_flight_ceiling)
        × (d.planned_arrivals ≤ℤ r.max_requests)
  unfolding admit_open_loop
  open_bounds d h = ground arith

  schedule_exists :
      (d : AdmissionDecision D)
      → admit_open_loop fl r diagnostics ≡ ok d
      → (offsets : List ℤ) × (duration_arrival_offsets fl r.request_rate r.duration ≡ ok offsets)
        × (planned_arrival_count fl r.request_rate r.duration ≡ ok d.planned_arrivals)
  unfolding admit_open_loop
  schedule_exists d h =
      elim (Result-cases (duration_arrival_offsets fl r.request_rate r.duration)) [
        | inl (e, k) ↦ absurd (ground arith)
        | inr (offsets, k) ↦ (offsets, k, ground arith)
      ]

  warmup_schedule_exists :
      (d : AdmissionDecision D)
      → admit_open_loop fl r diagnostics ≡ ok d
      → (offsets : List ℤ) × (arrival_offsets fl r.request_rate r.warmup_requests ≡ ok offsets)
  unfolding admit_open_loop
  warmup_schedule_exists d h =
      elim (Result-cases (arrival_offsets fl r.request_rate r.warmup_requests)) [
        | inl (e, k) ↦ absurd (ground arith)
        | inr (offsets, k) ↦ (offsets, k)
      ]

  -- An admitted open-loop run keeps to its ceilings: its rate is positive and not above its ceiling,
  -- as is the limit of its requests in flight; its duration is positive; its warmup requests and its
  -- planned arrivals are not more than the requests allowed. Its transport has as many workers as
  -- requests in flight; it has a warmup schedule, and a measurement schedule with as many arrivals
  -- as the decision plans.
  pub admit_open_sound :
      r.mode ≡ open_loop
      → (d : AdmissionDecision D) → admit_run fl r diagnostics ≡ ok d
      → WithinOpenCeilings
        × (d.transport_worker_limit ≡ r.max_in_flight)
        × (d.planned_arrivals ≤ℤ r.max_requests)
        × ((offsets : List ℤ) × (duration_arrival_offsets fl r.request_rate r.duration ≡ ok offsets)
            × (d.planned_arrivals ≡ pos (length offsets)))
        × ((offsets : List ℤ) × (arrival_offsets fl r.request_rate r.warmup_requests ≡ ok offsets))
  admit_open_sound m d h =
      let inner : admit_open_loop fl r diagnostics ≡ ok d = open_part m d h in
      let (offsets, e, planned) = schedule_exists d inner in
      let (size, _, _) = duration_schedule_sound fl r.request_rate r.duration offsets e in
      let (limit, low, high, few) = open_bounds d inner in
      let (rate, ceiling, slow, long) = open_rates d inner in
      let (warm, cool) = warmup_bounds d h in
      (
        record {
          rate_positive = rate;
          rate_ceiling_positive = ceiling;
          rate_high = slow;
          duration_low = long;
          in_flight_low = low;
          in_flight_high = high;
          warmup_low = warm;
          warmup_high = cool;
        },
        limit,
        few,
        (offsets, e, cc),
        warmup_schedule_exists d inner,
      )
