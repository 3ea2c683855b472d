-- ===== src/Aggregate/Distribution/Ranks.antt =====
-- Sorted lists of floats, and the percentile ranks.
use llm_serving_performance.Prelude.{
  ◌∙◌, if◌then◌else◌, ap, ℕ, zero, suc, ◌≤◌, ◌≡◌, true, false, some, List, [], ◌∷◌, get_elem?,
  arith,
}
use mathlib.Core.Path.{subst}
use llm_serving_performance.Prelude.Int.{◌-ℤ◌, ltb_ℤ, ℤ, pos, ◌≤ℤ◌, pos_part}
use llm_serving_performance.Prelude.Sort.{insert_by, sort_by}
use llm_serving_performance.Floats.{Floats, OrderLaws, RankLaws, max_exact}
use llm_serving_performance.Aggregate.Distribution.{rank_index, all_finite}

module _ (fl : Floats) where
  open fl use {Float, le, is_nan}

  abbrev pub Numbers : List Float → Type 0
  Numbers [] = Unit {0}
  Numbers (x ∷ xs) = (is_nan x ≡ false) × Numbers xs

  -- Each element is at most the next.
  abbrev pub Sorted : List Float → Type 0
  Sorted [] = Unit {0}
  Sorted (x ∷ []) = Unit {0}
  Sorted (x ∷ y ∷ ys) = (le x y ≡ true) × Sorted (y ∷ ys)

  pub all_finite-Numbers : (xs : List Float) → all_finite fl xs ≡ true → Numbers xs
  unfolding all_finite
  all_finite-Numbers [] h = tt
  all_finite-Numbers (x ∷ xs) h = ground (arith, all_finite-Numbers xs)

  insert-Numbers :
      (x : Float) (ys : List Float) → is_nan x ≡ false → Numbers ys → Numbers (insert_by le x ys)
  unfolding insert_by
  insert-Numbers x [] n h = (n, tt)
  insert-Numbers x (y ∷ ys) n h = ground (arith, insert-Numbers x ys)

  pub sort-Numbers : (xs : List Float) → Numbers xs → Numbers (sort_by le xs)
  unfolding sort_by
  sort-Numbers [] h = tt
  sort-Numbers (x ∷ xs) h = insert-Numbers x (sort_by le xs) h.0 (sort-Numbers xs h.1)

  module _ (laws : OrderLaws fl) where
    le_of_not : (x y : Float) → is_nan x ≡ false → is_nan y ≡ false → le x y ≡ false → le y x ≡ true
    le_of_not x y h k e = ground (arith, laws.le_total x y h k)

    insert-Sorted :
        (x : Float) (ys : List Float)
        → is_nan x ≡ false
        → Numbers ys
        → Sorted ys
        → Sorted (insert_by le x ys)
    unfolding insert_by
    insert-Sorted x [] n h s = tt
    insert-Sorted x (y ∷ []) n h s = ground (arith, le_of_not x y n h.0)
    insert-Sorted x (y ∷ z ∷ zs) n h s =
        ground (arith, le_of_not x y n h.0, insert-Sorted x (z ∷ zs) n h.1 s.1)

    pub sort-Sorted : (xs : List Float) → Numbers xs → Sorted (sort_by le xs)
    unfolding sort_by
    sort-Sorted [] h = tt
    sort-Sorted (x ∷ xs) h =
        insert-Sorted x (sort_by le xs) h.0 (sort-Numbers xs h.1) (sort-Sorted xs h.1)

    le_self : (x : Float) → is_nan x ≡ false → le x x ≡ true
    le_self x h = ground (arith, laws.le_total x x h h)

    head_le :
        (x : Float) (xs : List Float) (j : ℕ) (y : Float)
        → Numbers (x ∷ xs)
        → Sorted (x ∷ xs)
        → get_elem? (x ∷ xs) j ≡ some y
        → le x y ≡ true
    head_le x xs zero y n s e = ground (arith, le_self x n.0)
    head_le x [] (suc j) y n s e = cc
    head_le x (z ∷ zs) (suc j) y n s e = laws.le_trans x z y s.0 (head_le z zs j y n.1 s.1 e)

    Sorted-tail : (x : Float) (xs : List Float) → Sorted (x ∷ xs) → Sorted xs
    Sorted-tail x [] s = tt
    Sorted-tail x (y ∷ ys) s = s.1

    -- Positions in order hold values in order.
    pub Sorted-get_elem? :
        (xs : List Float) (i j : ℕ) (x y : Float)
        → Numbers xs
        → Sorted xs
        → i ≤ j
        → get_elem? xs i ≡ some x
        → get_elem? xs j ≡ some y
        → le x y ≡ true
    Sorted-get_elem? [] i j x y n s h d e = cc
    Sorted-get_elem? (z ∷ zs) zero j x y n s h d e =
        let same : z ≡ x = cc in rw (← same) (head_le z zs j y n s e)
    Sorted-get_elem? (z ∷ zs) (suc i) zero x y n s h d e = absurd (omega arith)
    Sorted-get_elem? (z ∷ zs) (suc i) (suc j) x y n s h d e =
        Sorted-get_elem? zs i j x y n.1 (Sorted-tail z zs s) (omega arith) d e

  module _ (laws : RankLaws fl) where
    open fl use {of_int, to_int, literal, mul, ceil}

    abbrev scaled : ℕ → ℕ → Float
    scaled p n = mul (literal p 100) (of_int (pos n))

    ceil_zero : (p n : ℕ) → n ≤ max_exact → le (of_int (pos 0)) (ceil (scaled p n)) ≡ true
    ceil_zero p n h = rw (laws.ceil_whole 0) at (laws.ceil_mono _ _ (laws.scale_nonneg p n h))

    ceil_top : (p n : ℕ) → p ≤ 100 → n ≤ max_exact → le (ceil (scaled p n)) (of_int (pos n)) ≡ true
    ceil_top p n k h = rw (laws.ceil_whole n) at (
        rw (laws.scale_one n h) at (laws.ceil_mono _ _ (laws.scale_mono p 100 n k (omega arith) h)))

    rank_mono :
        (p q n : ℕ)
        → p ≤ q
        → q ≤ 100
        → n ≤ max_exact
        → to_int (ceil (scaled p n)) ≤ℤ to_int (ceil (scaled q n))
    rank_mono p q n h k m =
        laws.to_int_mono _ _ n (ceil_zero p n m) (laws.ceil_mono _ _ (laws.scale_mono p q n h k m))
          (ceil_top q n k m) m

    rank_top : (p n : ℕ) → p ≤ 100 → n ≤ max_exact → to_int (ceil (scaled p n)) ≤ℤ pos n
    rank_top p n k m =
        let whole : to_int (ceil (scaled 100 n)) ≡ pos n =
          ap to_int (ap ceil (laws.scale_one n m) ∙ laws.ceil_whole n) ∙ laws.to_int_whole n m in
        subst (λ z. to_int (ceil (scaled p n)) ≤ℤ z) whole (rank_mono p 100 n k (omega arith) m)

    clip : ℤ → ℤ
    clip rank = let index = rank -ℤ pos 1 in if ltb_ℤ index (pos 0) then pos 0 else index

    clip_position :
        (a b : ℤ) (n : ℕ)
        → a ≤ℤ b
        → b ≤ℤ pos (suc n)
        → (pos (pos_part (clip a)) ≡ clip a)
          × (pos_part (clip a) ≤ pos_part (clip b))
          × (pos_part (clip b) ≤ n)
    unfolding clip ◌-ℤ◌
    clip_position a b n h k = ground arith

    -- For percentiles in order the indices are in order, and the last one is within the list.
    pub rank_index_lem :
        (p q n : ℕ)
        → p ≤ q
        → q ≤ 100
        → suc n ≤ max_exact
        → (pos (pos_part (rank_index fl (suc n) p)) ≡ rank_index fl (suc n) p)
          × (pos_part (rank_index fl (suc n) p) ≤ pos_part (rank_index fl (suc n) q))
          × (pos_part (rank_index fl (suc n) q) ≤ n)
    unfolding rank_index clip
    rank_index_lem p q n h k m =
        clip_position (to_int (ceil (scaled p (suc n)))) (to_int (ceil (scaled q (suc n)))) n
          (rank_mono p q (suc n) h k m) (rank_top q (suc n) k m)
