-- ===== src/Experiment/Planned.antt =====
-- What a plan that is built promises.
use llm_serving_performance.Experiment.Plan.{
  count_points, or_overflow, build_inputs, too_many_points, Load, SweepPlan, build_plan, check_axes,
  concurrency_loads, or_single, plan_inputs, plan_loads, plan_outputs, point_counts, rate_loads,
}
use llm_serving_performance.Prelude.{
  none, some, Bool-cases, false, if◌then◌else◌, inl, inr, sym, ℕ, ◌∙◌, List, Option, [], ap, arith,
  length, length-append, refl, suc, ◌*◌, ◌∷◌, ◌≡◌,
}
use llm_serving_performance.Prelude.Results.{
  ensured, Ensures->>=, Ensures-after, Ensures-refuse_if, Ensures, ok,
}
use llm_serving_performance.Prelude.Int.{ltb_ℤ, pos, ℤ, ◌≤ℤ◌}
use llm_serving_performance.Experiment.Product.{
  checked_product, checked_product-eq, max_one, product,
}
use llm_serving_performance.Experiment.Grid.{
  Covers-length, build_inputs-Covers, Covers, grid, row, rows,
}
use llm_serving_performance.Benchmark.Types.{is_closed_loop}
use native.Mathlib.Nat.{mul-one}
use llm_serving_performance.Floats.{Floats}
use llm_serving_performance.Config.Types.{Config}
use llm_serving_performance.Config.Text.{Text, Url}

module _ (fl : Floats) where
  open fl use {Float}

  length-row : (i o : ℤ) (ls : List (Load fl)) → length (row fl i o ls) ≡ length ls
  unfolding row
  length-row i o [] = refl
  length-row i o (l ∷ ls) = ap suc (length-row i o ls)

  length-rows :
      (i : ℤ) (os : List ℤ) (ls : List (Load fl)) → length (rows fl i os ls) ≡ length os * length ls
  unfolding rows
  length-rows i [] ls = omega arith
  length-rows i (o ∷ os) ls = grind (
    arith,
    length-append (row fl i o ls) (rows fl i os ls),
    length-row i o ls,
    length-rows i os ls,
  )

  length-grid :
      (is os : List ℤ) (ls : List (Load fl))
      → length (grid fl is os ls) ≡ length is * (length os * length ls)
  unfolding grid
  length-grid [] os ls = omega arith
  length-grid (i ∷ is) os ls = grind (
    arith,
    length-append (rows fl i os ls) (grid fl is os ls),
    length-rows i os ls,
    length-grid is os ls,
  )

  length-or_single {ℓ} :
      {A : Type ℓ} (xs : List A) (a : A) → length (or_single fl xs a) ≡ max_one (length xs)
  length-or_single [] a = refl
  length-or_single (x ∷ xs) a = ground arith

  length-concurrency_loads : (ns : List ℤ) → length (concurrency_loads fl ns) ≡ length ns
  length-concurrency_loads [] = refl
  length-concurrency_loads (n ∷ ns) = ap suc (length-concurrency_loads ns)

  length-rate_loads : (rs : List Float) → length (rate_loads fl rs) ≡ length rs
  length-rate_loads [] = refl
  length-rate_loads (r ∷ rs) = ap suc (length-rate_loads rs)

  length-plan_loads :
      (c : Config fl)
      → length (plan_loads fl c) ≡ (
          if is_closed_loop c.benchmark.mode
          then max_one (length c.experiment.concurrency_values)
          else max_one (length c.experiment.request_rate_values))
  unfolding plan_loads
  length-plan_loads c = elim (Bool-cases (is_closed_loop c.benchmark.mode)) [
    | inl e ↦ rw e (
        length-concurrency_loads
          (or_single fl c.experiment.concurrency_values c.benchmark.concurrency)
        ∙ length-or_single c.experiment.concurrency_values c.benchmark.concurrency)
    | inr e ↦ rw e (
        length-rate_loads
          (or_single fl c.experiment.request_rate_values c.benchmark.open_loop.request_rate)
        ∙ length-or_single c.experiment.request_rate_values c.benchmark.open_loop.request_rate)
  ]

  -- The grid is as large as the code has computed.
  grid_size :
      (c : Config fl)
      → length (grid fl (plan_inputs fl c) (plan_outputs fl c) (plan_loads fl c))
        ≡ product (point_counts fl c)
  unfolding plan_inputs plan_outputs plan_loads point_counts product
  grid_size c =
      let loads = length-plan_loads c in
      rw
        (
          length-grid (plan_inputs fl c) (plan_outputs fl c) (plan_loads fl c),
          length-or_single c.experiment.input_token_values c.workload.input_tokens,
          length-or_single c.experiment.output_token_values c.request.max_output_tokens,
          loads,
          mul-one,
        )
        refl

module _ (fl : Floats) (parse : Text → Option Url) {D : Type 0} (diagnostics : D)
    (base : Config fl) where
  count_points-product :
      Ensures (λ n. n ≡ product (point_counts fl base)) (count_points fl parse diagnostics base)
  unfolding count_points
  count_points-product =
      Ensures-after (λ n. n ≡ product (point_counts fl base)) (check_axes fl parse diagnostics base)
        (λ u. or_overflow fl (checked_product (point_counts fl base)))
        (λ u. counted (point_counts fl base) (checked_product (point_counts fl base)) refl)
    where
      counted :
          (l : List ℕ) (o : Option ℕ)
          → checked_product l ≡ o
          → Ensures (λ n. n ≡ product l) (or_overflow fl o)
      counted l none e = tt
      counted l (some n) e = checked_product-eq l n e

  -- A plan that is built is the grid of its axes: its points are numbered from one and stand for
  -- every combination of an input, an output and a load, in the order of the axes; each has a
  -- configuration that passes the static validation; and there are as many points as the product
  -- of the counts, which is at most the configured maximum.
  pub build_plan-Covers :
      (plan : SweepPlan fl)
      → build_plan fl parse diagnostics base ≡ ok plan
      → Covers fl parse diagnostics base 1
          (grid fl (plan_inputs fl base) (plan_outputs fl base) (plan_loads fl base))
          plan.points
        × (length plan.points ≡ product (point_counts fl base))
        × (pos (length plan.points) ≤ℤ base.experiment.max_points)
  unfolding build_plan
  build_plan-Covers plan h = ensured Promised (build_plan fl parse diagnostics base) whole h
    where
      Promised : SweepPlan fl → Type 0
      Promised plan =
          Covers fl parse diagnostics base 1
            (grid fl (plan_inputs fl base) (plan_outputs fl base) (plan_loads fl base)) plan.points
          × (length plan.points ≡ product (point_counts fl base))
          × (pos (length plan.points) ≤ℤ base.experiment.max_points)

      within :
          (n k : ℕ)
          → ltb_ℤ base.experiment.max_points (pos n) ≡ false
          → n ≡ k
          → pos k ≤ℤ base.experiment.max_points
      within n k few e = ground arith

      whole : Ensures Promised (build_plan fl parse diagnostics base)
      whole =
          Ensures->>= (λ n. n ≡ product (point_counts fl base)) Promised
            (count_points fl parse diagnostics base) _ count_points-product
            (λ n e.
              Ensures-refuse_if Promised (ltb_ℤ base.experiment.max_points (pos n)) too_many_points
                _
                (λ few.
                  Ensures->>=
                    (Covers fl parse diagnostics base 1
                      (grid fl (plan_inputs fl base) (plan_outputs fl base) (plan_loads fl base)))
                    Promised (build_inputs fl parse diagnostics base (plan_inputs fl base) []) _
                    (build_inputs-Covers fl parse diagnostics base (plan_inputs fl base) [] [] tt)
                    (λ points covered.
                      let size =
                        Covers-length fl parse diagnostics base 1 _ points covered
                        ∙ grid_size fl base in
                      (covered, size, within n (length points) few (e ∙ sym size)))))
