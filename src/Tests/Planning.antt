-- ===== src/Tests/Planning.antt =====
-- Runs to admit, an arrival schedule and request identifiers.
use llm_serving_performance.Benchmark.Admission.Accepted.{
  WithinOpenCeilings, WithinCeilings, closed_decision, admit_closed_accepts, admit_closed_refuses,
  admit_open_sound,
}
use llm_serving_performance.Benchmark.Schedule.Ordered.{AllBefore, Ordered, duration_schedule_sound}
use llm_serving_performance.Prelude.{none, ℕ, ◌≡◌, refl, arith, some, List, [], ◌∷◌, length}
use llm_serving_performance.Prelude.Int.{ℤ, pos, ◌≤ℤ◌}
use llm_serving_performance.Prelude.Results.{ok}
use llm_serving_performance.Floats.Whole.{whole}
use llm_serving_performance.Benchmark.Types.{measured, open_loop, unset_mode}
use llm_serving_performance.Benchmark.Ids.{phase_request_id}
use llm_serving_performance.Benchmark.Ids.Injective.{phase_request_id_inj}
use llm_serving_performance.Benchmark.Schedule.{
  planned_arrival_count, arrival_offsets, duration_arrival_offsets,
}
use llm_serving_performance.Benchmark.Admission.{AdmissionRequest, AdmissionDecision, admit_run}

-- What the machine reports, which decides nothing.
abbrev diagnostics : ℕ
diagnostics = 8

-- An old plan with no mode: four requests on at most three workers, after one warmup request.
abbrev closed_request : AdmissionRequest whole
closed_request = record {
  mode = unset_mode;
  concurrency = pos 3;
  requests = pos 4;
  warmup_requests = pos 1;
  request_rate = pos 0;
  duration = pos 0;
  max_in_flight = pos 0;
  max_concurrency = pos 8;
  max_requests = pos 10;
  max_request_rate = pos 0;
  max_in_flight_ceiling = pos 0;
}

closed_within : WithinCeilings whole closed_request diagnostics
closed_within = record {
  warmup_low = omega arith;
  warmup_high = omega arith;
  concurrency_low = omega arith;
  concurrency_high = omega arith;
  requests_low = omega arith;
  requests_high = omega arith;
}

admit_closed_accepts_example :
    admit_run whole closed_request diagnostics
    ≡ ok (closed_decision whole closed_request diagnostics)
admit_closed_accepts_example =
    admit_closed_accepts whole closed_request diagnostics refl closed_within

closed_admitted :
    admit_run whole closed_request diagnostics
    ≡ ok (closed_decision whole closed_request diagnostics)
unfolding admit_run
closed_admitted = refl

admit_closed_refuses_example : WithinCeilings whole closed_request diagnostics
admit_closed_refuses_example =
    admit_closed_refuses whole closed_request diagnostics refl
      (closed_decision whole closed_request diagnostics) closed_admitted

-- Two arrivals a second for two seconds.
abbrev open_request : AdmissionRequest whole
open_request = record {
  mode = open_loop;
  concurrency = pos 0;
  requests = pos 0;
  warmup_requests = pos 1;
  request_rate = pos 2;
  duration = pos 2000000000;
  max_in_flight = pos 3;
  max_concurrency = pos 8;
  max_requests = pos 10;
  max_request_rate = pos 5;
  max_in_flight_ceiling = pos 4;
}

abbrev open_decision : AdmissionDecision ℕ
open_decision = record {
  mode = open_loop;
  worker_count = pos 0;
  warmup_worker_count = pos 0;
  measurement_worker_count = pos 0;
  transport_worker_limit = pos 3;
  planned_arrivals = pos 4;
  diagnostics = diagnostics;
}

open_admitted : admit_run whole open_request diagnostics ≡ ok open_decision
unfolding admit_run planned_arrival_count duration_arrival_offsets arrival_offsets
open_admitted = refl

admit_open_sound_example :
    WithinOpenCeilings whole open_request diagnostics
    × (pos 3 ≡ pos 3)
    × (pos 4 ≤ℤ pos 10)
    × ((offsets : List ℤ) × (duration_arrival_offsets whole (pos 2) (pos 2000000000) ≡ ok offsets)
        × (pos 4 ≡ pos (length offsets)))
    × ((offsets : List ℤ) × (arrival_offsets whole (pos 2) open_request.warmup_requests
          ≡ ok offsets))
admit_open_sound_example =
    admit_open_sound whole open_request diagnostics refl open_decision open_admitted

abbrev half_second_apart : List ℤ
half_second_apart = pos 0 ∷ pos 500000000 ∷ pos 1000000000 ∷ pos 1500000000 ∷ []

scheduled : duration_arrival_offsets whole (pos 2) (pos 2000000000) ≡ ok half_second_apart
unfolding duration_arrival_offsets planned_arrival_count arrival_offsets
scheduled = refl

duration_schedule_sound_example :
    (planned_arrival_count whole (pos 2) (pos 2000000000) ≡ ok (pos 4))
    × Ordered none half_second_apart
    × AllBefore (pos 2000000000) half_second_apart
duration_schedule_sound_example =
    duration_schedule_sound whole (pos 2) (pos 2000000000) half_second_apart scheduled

-- "req-000007".
abbrev seventh : List ℕ
seventh = b'r' ∷ b'e' ∷ b'q' ∷ b'-' ∷ b'0' ∷ b'0' ∷ b'0' ∷ b'0' ∷ b'0' ∷ b'7' ∷ []

identified : phase_request_id measured (pos 7) ≡ some seventh
unfolding phase_request_id
identified = refl

phase_request_id_inj_example : pos 7 ≡ pos 7
phase_request_id_inj_example =
    phase_request_id_inj measured (pos 7) (pos 7) seventh identified identified
