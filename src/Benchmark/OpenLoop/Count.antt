-- ===== src/Benchmark/OpenLoop/Count.antt =====
-- What is counted over the requests and the records of the open-loop machine.
use llm_serving_performance.Prelude.{
  Option, if◌then◌else◌, none, some, ◌-◌, ◌==◌, ℕ, ◌+◌, ◌≡◌, refl, true, List, [], ◌∷◌, arith,
}
use llm_serving_performance.Benchmark.ClosedLoop.Count.{is_other, same, has_sequence}
use llm_serving_performance.Prelude.Sums.{sum_by}
use llm_serving_performance.Benchmark.Types.{
  ArrivalDisposition, started, client_limited, scheduler_limited,
}
use llm_serving_performance.Benchmark.Arrivals.{ArrivalRecord, CompletedRequest}
use llm_serving_performance.Benchmark.OpenLoop.Defs.{
  Request, in_runner, answered, counted, slot_held, sending, done, Pool,
}
use llm_serving_performance.Benchmark.OpenLoop.Step.{all_done}

-- 1 for a request between `active.Add(1)` and `active.Add(-1)`.
abbrev pub is_active : Request → ℕ
is_active (in_runner l) = 1
is_active (answered l err late actual) = 1
is_active (counted r) = 1
is_active _ = 0

-- 1 for a request that holds a slot of the semaphore.
abbrev pub has_slot : Request → ℕ
has_slot (sending r) = 0
has_slot done = 0
has_slot _ = 1

-- 1 for a request that has not sent its result.
abbrev pub in_hand : Request → ℕ
in_hand done = 0
in_hand _ = 1

abbrev pub holds_arrival : ℕ → Request → ℕ
holds_arrival q (in_runner l) = same q l.sequence
holds_arrival q (answered l err late actual) = same q l.sequence
holds_arrival q (counted r) = same q r.sequence
holds_arrival q (slot_held r) = same q r.sequence
holds_arrival q (sending r) = same q r.sequence
holds_arrival q done = 0

abbrev pub record_with : ℕ → ArrivalRecord → ℕ
record_with q a = same q a.sequence

-- How often an arrival is dropped, in a request's hands, in the channel or collected.
unfoldable pub arrival_occupancy : ℕ → Pool → ℕ
arrival_occupancy q o =
    sum_by (record_with q) o.dropped
    + sum_by (holds_arrival q) o.requests
    + sum_by (has_sequence q) o.results
    + sum_by (has_sequence q) o.collected

abbrev pub was_started : ArrivalDisposition → ℕ
was_started started = 1
was_started _ = 0

abbrev pub was_client_limited : ArrivalDisposition → ℕ
was_client_limited client_limited = 1
was_client_limited _ = 0

abbrev pub was_scheduler_limited : ArrivalDisposition → ℕ
was_scheduler_limited scheduler_limited = 1
was_scheduler_limited _ = 0

abbrev pub is_started_record : ArrivalRecord → ℕ
is_started_record a = was_started a.disposition

abbrev pub is_client_record : ArrivalRecord → ℕ
is_client_record a = was_client_limited a.disposition

abbrev pub is_scheduler_record : ArrivalRecord → ℕ
is_scheduler_record a = was_scheduler_limited a.disposition

-- Once every request is done none of them holds an arrival or waits to send.
pub all_done-in_hand : (rs : List Request) → all_done rs ≡ true → sum_by in_hand rs ≡ 0
unfolding sum_by
all_done-in_hand [] h = refl
all_done-in_hand (done ∷ rs) h = omega (arith, all_done-in_hand rs h)
all_done-in_hand (r ∷ rs) h = cc

pub all_done-holds :
    (q : ℕ) (rs : List Request) → all_done rs ≡ true → sum_by (holds_arrival q) rs ≡ 0
unfolding sum_by
all_done-holds q [] h = refl
all_done-holds q (done ∷ rs) h = omega (arith, all_done-holds q rs h)
all_done-holds q (r ∷ rs) h = cc

-- 1 for a result whose outcome is none of the five, or whose arrival record is not that of a
-- started request with its sequence.
abbrev pub bad_arrival : ℕ → Option ArrivalRecord → ℕ
bad_arrival q none = 1
bad_arrival q (some a) = if a.sequence == q then 1 - was_started a.disposition else 1

abbrev pub unsound_result : CompletedRequest → ℕ
unsound_result r = is_other r.outcome + bad_arrival r.sequence r.arrival

abbrev pub unsound : Request → ℕ
unsound (counted r) = unsound_result r
unsound (slot_held r) = unsound_result r
unsound (sending r) = unsound_result r
unsound _ = 0
