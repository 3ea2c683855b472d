-- ===== src/Benchmark/Schedule.antt =====
-- The open-loop arrival schedule, internal/benchmark/schedule.go. Durations are nanoseconds.
pub mod Ordered
use llm_serving_performance.Prelude.{
  ℕ, zero, suc, ◌+◌, Bool, true, false, ◌||◌, Option, none, some, List, [], ◌∷◌, length,
  if◌then◌else◌,
}
use llm_serving_performance.Prelude.Int.{ℤ, pos, negsuc, ltb_ℤ, leb_ℤ, max_int64}
use llm_serving_performance.Prelude.Results.{Result, ok, err, ◌>>=◌, ◌>>◌, refuse_if}
use llm_serving_performance.Floats.{Floats, zero_float, not_finite, not_positive}

-- The sequences that an error names are kept.
pub data ScheduleErr : Type 0 where
  bad_rate bad_duration count_overflows count_not_positive negative_count : ScheduleErr
  offset_overflows offsets_decrease not_before_boundary : ℕ → ScheduleErr

abbrev pub nanoseconds_per_second : ℤ
nanoseconds_per_second = pos 1000000000

abbrev pub decreases : Option ℤ → ℤ → Bool
decreases none offset = false
decreases (some before) offset = ltb_ℤ offset before

module _ (fl : Floats) where
  open fl use {Float, of_int, to_int, mul, div, ceil, floor, lt, le, is_nan, is_inf}

  unfoldable pub planned_arrival_count : Float → ℤ → Result ScheduleErr ℤ
  planned_arrival_count rate duration = do
    refuse_if (not_positive fl rate) bad_rate
    refuse_if (leb_ℤ duration (pos 0)) bad_duration
    let product = mul rate (div (of_int duration) (of_int nanoseconds_per_second))
    refuse_if (not_positive fl product || le (of_int (pos max_int64)) product) count_overflows
    let count = to_int (ceil product)
    refuse_if (leb_ℤ count (pos 0)) count_not_positive
    ok count

  -- The mathematical offset of an index.
  abbrev pub offset_nanoseconds : Float → ℕ → Float
  offset_nanoseconds rate index =
      floor (div (mul (of_int (pos index)) (of_int nanoseconds_per_second)) rate)

  -- The loop of `ArrivalOffsets`, with the rounds left and the offset before.
  unfoldable pub offsets_from : Float → ℕ → ℕ → Option ℤ → Result ScheduleErr (List ℤ)
  offsets_from rate zero index before = ok []
  offsets_from rate (suc left) index before =
      let nanoseconds = offset_nanoseconds rate index in
      let offset = to_int nanoseconds in
      let rest = offsets_from rate left (index + 1) (some offset) in
      do
        refuse_if
            (not_finite fl nanoseconds
              || (lt nanoseconds (zero_float fl) || lt (of_int (pos max_int64)) nanoseconds))
            (offset_overflows (index + 1))
        refuse_if (decreases before offset) (offsets_decrease (index + 1))
        offsets ← rest
        ok (offset ∷ offsets)

  unfoldable pub arrival_offsets : Float → ℤ → Result ScheduleErr (List ℤ)
  unfolding offsets_from
  arrival_offsets rate (negsuc n) = do refuse_if (not_positive fl rate) bad_rate; err negative_count
  arrival_offsets rate (pos count) = do
    refuse_if (not_positive fl rate) bad_rate
    offsets_from rate count 0 none

-- The loop over the boundary in `DurationArrivalOffsets`.
unfoldable pub check_boundary : ℤ → ℕ → List ℤ → Result ScheduleErr (Unit {0})
check_boundary duration sequence [] = ok tt
check_boundary duration sequence (offset ∷ offsets) =
    let rest = check_boundary duration (sequence + 1) offsets in
    if leb_ℤ duration offset then err (not_before_boundary sequence) else rest

module _ (fl : Floats) where
  open fl use {Float}

  unfoldable pub duration_arrival_offsets : Float → ℤ → Result ScheduleErr (List ℤ)
  unfolding check_boundary
  duration_arrival_offsets rate duration = do
    count ← planned_arrival_count fl rate duration
    offsets ← arrival_offsets fl rate count
    check_boundary duration 1 offsets
    ok offsets
