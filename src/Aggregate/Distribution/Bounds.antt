-- ===== src/Aggregate/Distribution/Bounds.antt =====
-- A summary of a distribution never indexes out of range, and its percentiles are in order.
use llm_serving_performance.Prelude.{
  ℕ, zero, suc, ◌≤◌, ◌<◌, ◌≡◌, refl, sym, ap, ◌∙◌, true, false, some, List, [], ◌∷◌, length,
  get_elem?, arith, String, Bool-cases, inl, inr,
}
use llm_serving_performance.Prelude.Int.{ℤ, pos, pos_part, ◌-ℤ◌, ltb_ℤ}
use text.Mathlib.Text.{◌==◌ as str_eq}
use llm_serving_performance.Prelude.Results.{Returns}
use llm_serving_performance.Prelude.Sort.{sort_by, length-sort_by}
use llm_serving_performance.Floats.{Floats, OrderLaws, RankLaws, max_exact, not_finite}
use llm_serving_performance.Aggregate.Distribution.{
  Distribution, DistributionStats, rank_index, nearest_rank, describe, all_finite,
  summarize_samples, summarize_distribution, at_index, mean_of,
}
use llm_serving_performance.Aggregate.Distribution.Ranks.{
  Numbers, Sorted, all_finite-Numbers, sort-Numbers, sort-Sorted, Sorted-get_elem?, rank_index_lem,
}

get_elem?-some {ℓ} :
    {A : Type ℓ} (xs : List A) (i : ℕ) → i < length xs → (x : A) × (get_elem? xs i ≡ some x)
get_elem?-some [] i h = elim h [ ]
get_elem?-some (x ∷ xs) zero h = (x, refl)
get_elem?-some (x ∷ xs) (suc i) h = get_elem?-some xs i (omega arith)

module _ (fl : Floats) (order : OrderLaws fl) (ranks : RankLaws fl) where
  open fl use {Float, le}

  -- The minimum, the percentiles and the maximum, in this order.
  pub record InOrder (s : DistributionStats fl) : Type 0 where
    pub minimum_p50 : le s.minimum s.p50 ≡ true
    pub p50_p90 : le s.p50 s.p90 ≡ true
    pub p90_p95 : le s.p90 s.p95 ≡ true
    pub p95_p99 : le s.p95 s.p99 ≡ true
    pub p99_maximum : le s.p99 s.maximum ≡ true

  -- A percentile is the element at its rank's index.
  nearest_rank_lem :
      (xs : List Float) (n p : ℕ)
      → length xs ≡ suc n
      → p ≤ 100
      → suc n ≤ max_exact
      → (x : Float) × (nearest_rank fl xs p ≡ some x)
        × (get_elem? xs (pos_part (rank_index fl (suc n) p)) ≡ some x)
  unfolding nearest_rank
  nearest_rank_lem xs n p size h m =
      let (whole, _, top) = rank_index_lem fl ranks p p n (omega arith) h m in
      let (x, e) = get_elem?-some xs (pos_part (rank_index fl (suc n) p)) (omega arith) in
      let at : at_index fl xs (rank_index fl (suc n) p) ≡ some x =
        ap (at_index fl xs) (sym whole) ∙ e in
      (x, ap (λ k. at_index fl xs (rank_index fl k p)) size ∙ at, e)

  last_index : (n : ℕ) → pos (suc n) -ℤ pos 1 ≡ pos n
  unfolding ◌-ℤ◌
  last_index n = ground arith

  describe_lem :
      (xs : List Float) (average : Float) (n : ℕ)
      → length xs ≡ suc n
      → suc n ≤ max_exact
      → Numbers fl xs
      → Sorted fl xs
      → (s : DistributionStats fl) × (describe fl xs average ≡ some s)
        × (s.sample_count ≡ length xs)
        × InOrder s
  unfolding describe
  describe_lem xs average n size m num sorted =
      let (x0, e0) = get_elem?-some xs 0 (omega arith) in
      let (x1, r1, e1) = nearest_rank_lem xs n 50 size (omega arith) m in
      let (x2, r2, e2) = nearest_rank_lem xs n 90 size (omega arith) m in
      let (x3, r3, e3) = nearest_rank_lem xs n 95 size (omega arith) m in
      let (x4, r4, e4) = nearest_rank_lem xs n 99 size (omega arith) m in
      let (x5, e5) = get_elem?-some xs n (omega arith) in
      let last : at_index fl xs (pos (length xs) -ℤ pos 1) ≡ some x5 =
        ap (λ k. at_index fl xs (pos k -ℤ pos 1)) size ∙ ap (at_index fl xs) (last_index n) ∙ e5 in
      let (_, a, _) = rank_index_lem fl ranks 50 90 n (omega arith) (omega arith) m in
      let (_, b, _) = rank_index_lem fl ranks 90 95 n (omega arith) (omega arith) m in
      let (_, c, top) = rank_index_lem fl ranks 95 99 n (omega arith) (omega arith) m in
      (
        record {
          sample_count = length xs;
          mean = average;
          minimum = x0;
          p50 = x1;
          p90 = x2;
          p95 = x3;
          p99 = x4;
          maximum = x5;
        },
        ground arith,
        refl,
        record {
          minimum_p50 = Sorted-get_elem? fl order xs _ _ x0 x1 num sorted (omega arith) e0 e1;
          p50_p90 = Sorted-get_elem? fl order xs _ _ x1 x2 num sorted a e1 e2;
          p90_p95 = Sorted-get_elem? fl order xs _ _ x2 x3 num sorted b e2 e3;
          p95_p99 = Sorted-get_elem? fl order xs _ _ x3 x4 num sorted c e3 e4;
          p99_maximum = Sorted-get_elem? fl order xs _ _ x4 x5 num sorted top e4 e5;
        },
      )

  -- The summary of samples: unavailable if there are none, else with their number and in order.
  abbrev pub Summarizes : List Float → Distribution fl → Type 0
  Summarizes [] d = d.available ≡ false
  Summarizes (x ∷ xs) d =
      (d.available ≡ true) × (d.stats.sample_count ≡ suc (length xs)) × InOrder d.stats

  samples_lem :
      (x : Float) (xs : List Float) (unavailable : ℤ) (unit : String)
      → suc (length xs) ≤ max_exact
      → Returns (Summarizes (x ∷ xs)) (summarize_samples fl (x ∷ xs) unavailable unit)
  unfolding summarize_samples
  samples_lem x xs unavailable unit m = elim (Bool-cases (all_finite fl (x ∷ xs))) [
    | inl finite ↦
        let sorted = sort_by le (x ∷ xs) in
        let size = length-sort_by le (x ∷ xs) in
        let num = all_finite-Numbers fl (x ∷ xs) finite in
        let (s, e, count, in_order) =
          describe_lem sorted (mean_of fl sorted) (length xs) size m (sort-Numbers fl (x ∷ xs) num)
            (sort-Sorted fl order (x ∷ xs) num) in
        elim (Bool-cases (not_finite fl (mean_of fl sorted))) [
          | inl bad ↦ rw (finite, bad) tt
          | inr good ↦ rw (finite, good, e) (refl, count ∙ size, in_order)
        ]
    | inr bad ↦ rw bad tt
  ]

  -- A summary of at most 2 ^ 53 samples never indexes out of range. If it is not an error, it is
  -- unavailable exactly for no samples, counts all samples otherwise, and has minimum, percentiles
  -- and maximum in order.
  pub summarize_distribution_sound :
      (samples : List Float) (unavailable : ℤ) (unit reason : String)
      → length samples ≤ max_exact
      → Returns (Summarizes samples) (summarize_distribution fl samples unavailable unit reason)
  unfolding summarize_distribution
  summarize_distribution_sound [] unavailable unit reason m = ground arith
  summarize_distribution_sound (x ∷ xs) unavailable unit reason m =
      elim (Bool-cases (ltb_ℤ unavailable (pos 0))) [
        | inl a ↦ rw a tt
        | inr a ↦ elim (Bool-cases (str_eq unit "")) [
          | inl b ↦ rw (a, b) tt
          | inr b ↦ rw (a, b) (samples_lem x xs unavailable unit m)
        ]
      ]
