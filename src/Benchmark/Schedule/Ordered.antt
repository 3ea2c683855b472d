-- ===== src/Benchmark/Schedule/Ordered.antt =====
-- A schedule that is handed out has the planned length, does not decrease and ends before the
-- duration's boundary.
use llm_serving_performance.Prelude.{
  inr, inl, ℕ, zero, suc, ◌+◌, ◌≡◌, refl, Option, none, some, List, [], ◌∷◌, length, arith,
}
use llm_serving_performance.Benchmark.Schedule.{
  offset_nanoseconds, planned_arrival_count, offsets_from, arrival_offsets, check_boundary,
  duration_arrival_offsets,
}
use llm_serving_performance.Prelude.Int.{ℤ, pos, negsuc, ◌≤ℤ◌, ◌<ℤ◌}
use llm_serving_performance.Prelude.Results.{ok, Ensures, ensured, Result-cases}
use llm_serving_performance.Floats.{Floats}

-- No offset is before the one in front of it.
abbrev pub Ordered : Option ℤ → List ℤ → Type 0
Ordered before [] = Unit {0}
Ordered none (o ∷ os) = Ordered (some o) os
Ordered (some b) (o ∷ os) = (b ≤ℤ o) × Ordered (some o) os

abbrev pub AllBefore : ℤ → List ℤ → Type 0
AllBefore d [] = Unit {0}
AllBefore d (o ∷ os) = (o <ℤ d) × AllBefore d os

check_boundary-AllBefore :
    (d : ℤ) (sequence : ℕ) (offsets : List ℤ)
    → Ensures (λ u. AllBefore d offsets) (check_boundary d sequence offsets)
unfolding check_boundary
check_boundary-AllBefore d sequence [] = tt
check_boundary-AllBefore d sequence (o ∷ rest) =
    ground (arith, check_boundary-AllBefore d (sequence + 1) rest)

module _ (fl : Floats) where
  open fl use {Float}

  offsets_from-Ordered :
      (rate : Float) (left index : ℕ) (before : Option ℤ)
      → Ensures
          (λ offsets. (length offsets ≡ left) × Ordered before offsets)
          (offsets_from fl rate left index before)
  unfolding offsets_from
  offsets_from-Ordered rate zero index none = (refl, tt)
  offsets_from-Ordered rate zero index (some b) = (refl, tt)
  offsets_from-Ordered rate (suc left) index before =
      let offset = fl.to_int (offset_nanoseconds fl rate index) in
      ground (arith, offsets_from-Ordered rate left (index + 1) (some offset))

  arrival_offsets-Ordered :
      (rate : Float) (count : ℤ)
      → Ensures
          (λ offsets. (pos (length offsets) ≡ count) × Ordered none offsets)
          (arrival_offsets fl rate count)
  unfolding arrival_offsets
  arrival_offsets-Ordered rate (negsuc n) = ground arith
  arrival_offsets-Ordered rate (pos n) = ground (arith, offsets_from-Ordered rate n 0 none)

  duration_arrival_offsets-Ordered :
      (rate : Float) (duration : ℤ)
      → Ensures
          (λ offsets.
            (planned_arrival_count fl rate duration ≡ ok (pos (length offsets)))
            × Ordered none offsets
            × AllBefore duration offsets)
          (duration_arrival_offsets fl rate duration)
  unfolding duration_arrival_offsets
  duration_arrival_offsets-Ordered rate duration =
      elim (Result-cases (planned_arrival_count fl rate duration)) [
        | inl (e, h) ↦ rw h tt
        | inr (count, h) ↦ elim (Result-cases (arrival_offsets fl rate count)) [
          | inl (e, k) ↦ rw (h, k) tt
          | inr (offsets, k) ↦
              let (size, ordered) = ensured _ _ (arrival_offsets-Ordered rate count) k in
              ground (arith, check_boundary-AllBefore duration 1 offsets)
        ]
      ]

  -- A measurement schedule that is handed out has exactly the planned number of offsets, none of
  -- them before the one in front of it and each strictly before the end of the duration.
  pub duration_schedule_sound :
      (rate : Float) (duration : ℤ) (offsets : List ℤ)
      → duration_arrival_offsets fl rate duration ≡ ok offsets
      → (planned_arrival_count fl rate duration ≡ ok (pos (length offsets)))
        × Ordered none offsets
        × AllBefore duration offsets
  duration_schedule_sound rate duration offsets h =
      ensured _ _ (duration_arrival_offsets-Ordered rate duration) h
