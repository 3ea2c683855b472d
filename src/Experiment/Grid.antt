-- ===== src/Experiment/Grid.antt =====
-- The points of a plan are the grid of its axes.
use llm_serving_performance.Prelude.Results.{Ensures, Ensures->>=, Result-cases, ok}
use llm_serving_performance.Prelude.{
  Option, ap, arith, inl, inr, length, refl, suc, List, [], ℕ, ◌++◌, ◌+◌, ◌∷◌, ◌≡◌,
}
use llm_serving_performance.Experiment.Plan.{
  build_inputs, build_loads, build_outputs, build_point, plan_loads, plan_outputs, Load, Point,
  resolved_config,
}
use llm_serving_performance.Executor.Static.{validate_static}
use llm_serving_performance.Config.Text.{Text, Url}
use llm_serving_performance.Benchmark.Admission.{AdmissionDecision}
use mathlib.Core.Path.{subst}
use mathlib.Core.List.{append-nil, append_assoc}
use llm_serving_performance.Prelude.Int.{ℤ}
use llm_serving_performance.Floats.{Floats}
use llm_serving_performance.Config.Types.{Config}

module _ (fl : Floats) where
  open fl use {Float}

  -- Every combination of an input, an output and a load, with the load running fastest.
  pub record Cell : Type 0 where
    pub cell_input : ℤ
    pub cell_output : ℤ
    pub cell_load : Load fl

  unfoldable pub row : ℤ → ℤ → List (Load fl) → List Cell
  row input output [] = []
  row input output (l ∷ ls) =
      record { cell_input = input; cell_output = output; cell_load = l } ∷ row input output ls

  unfoldable pub rows : ℤ → List ℤ → List (Load fl) → List Cell
  rows input [] loads = []
  rows input (o ∷ os) loads = row input o loads ++ rows input os loads

  unfoldable pub grid : List ℤ → List ℤ → List (Load fl) → List Cell
  grid [] outputs loads = []
  grid (i ∷ is) outputs loads = rows i outputs loads ++ grid is outputs loads

module _ (fl : Floats) (parse : Text → Option Url) {D : Type 0} (diagnostics : D)
    (base : Config fl) where
  -- The points that stand for the cells, numbered from an index on, each with a configuration that
  -- passes the static validation.
  abbrev pub Covers : ℕ → List (Cell fl) → List (Point fl) → Type 0
  Covers k [] [] = Unit {0}
  Covers k [] (p ∷ ps) = ⊥
  Covers k (c ∷ cs) [] = ⊥
  Covers k (c ∷ cs) (p ∷ ps) =
      (p.index ≡ k)
      × (p.config ≡ resolved_config fl base c.cell_load c.cell_input c.cell_output)
      × ((d : AdmissionDecision D) × (validate_static fl parse diagnostics p.config ≡ ok d))
      × Covers (k + 1) cs ps

  pub Covers-length :
      (k : ℕ) (cs : List (Cell fl)) (ps : List (Point fl)) → Covers k cs ps → length ps ≡ length cs
  Covers-length k [] [] v = refl
  Covers-length k [] (p ∷ ps) v = absurd v
  Covers-length k (c ∷ cs) [] v = absurd v
  Covers-length k (c ∷ cs) (p ∷ ps) (a, b, d, v) = ap suc (Covers-length (k + 1) cs ps v)

  Covers-append :
      (k : ℕ) (cs : List (Cell fl)) (ps : List (Point fl)) (c : Cell fl) (p : Point fl)
      → Covers k cs ps
      → p.index ≡ k + length ps
      → p.config ≡ resolved_config fl base c.cell_load c.cell_input c.cell_output
      → ((d : AdmissionDecision D) × (validate_static fl parse diagnostics p.config ≡ ok d))
      → Covers k (cs ++ c ∷ []) (ps ++ p ∷ [])
  Covers-append k [] [] c p v i e d = (omega (arith, i), e, d, tt)
  Covers-append k [] (q ∷ ps) c p v i e d = absurd v
  Covers-append k (b ∷ cs) [] c p v i e d = absurd v
  Covers-append k (b ∷ cs) (q ∷ ps) c p (x, y, z, v) i e d =
      (x, y, z, Covers-append (k + 1) cs ps c p v (omega (arith, i)) e d)

  build_point-Covers :
      (input output : ℤ) (l : Load fl) (cs : List (Cell fl)) (ps : List (Point fl))
      → Covers 1 cs ps
      → Ensures
          (λ p.
            Covers 1
              (cs ++ record { cell_input = input; cell_output = output; cell_load = l } ∷ [])
              (ps ++ p ∷ []))
          (build_point fl parse diagnostics base (length ps + 1) l input output)
  unfolding build_point
  build_point-Covers input output l cs ps v =
      elim (Result-cases
        (validate_static fl parse diagnostics (resolved_config fl base l input output))) [
          | inl (e, k) ↦ rw k tt
          | inr (d, k) ↦ rw k (Covers-append 1 cs ps _ _ v (omega arith) refl (d, k))
        ]

  build_loads-Covers :
      (input output : ℤ) (ls : List (Load fl)) (cs : List (Cell fl)) (ps : List (Point fl))
      → Covers 1 cs ps
      → Ensures
          (Covers 1 (cs ++ row fl input output ls))
          (build_loads fl parse diagnostics base input output ls ps)
  unfolding build_loads row
  build_loads-Covers input output [] cs ps v = rw (append-nil cs) v
  build_loads-Covers input output (l ∷ ls) cs ps v =
      let c : Cell fl = record { cell_input = input; cell_output = output; cell_load = l } in
      Ensures->>= (λ p. Covers 1 (cs ++ c ∷ []) (ps ++ p ∷ []))
        (Covers 1 (cs ++ c ∷ row fl input output ls))
        (build_point fl parse diagnostics base (length ps + 1) l input output)
        (λ p. build_loads fl parse diagnostics base input output ls (ps ++ p ∷ []))
        (build_point-Covers input output l cs ps v)
        (λ p w.
          subst
            (λ x.
              Ensures (Covers 1 x)
                (build_loads fl parse diagnostics base input output ls (ps ++ p ∷ [])))
            (append_assoc cs (c ∷ []) (row fl input output ls))
            (build_loads-Covers input output ls (cs ++ c ∷ []) (ps ++ p ∷ []) w))

  build_outputs-Covers :
      (input : ℤ) (os : List ℤ) (cs : List (Cell fl)) (ps : List (Point fl))
      → Covers 1 cs ps
      → Ensures
          (Covers 1 (cs ++ rows fl input os (plan_loads fl base)))
          (build_outputs fl parse diagnostics base input os ps)
  unfolding build_outputs rows
  build_outputs-Covers input [] cs ps v = rw (append-nil cs) v
  build_outputs-Covers input (o ∷ os) cs ps v =
      let now : List (Cell fl) = row fl input o (plan_loads fl base) in
      let later : List (Cell fl) = rows fl input os (plan_loads fl base) in
      Ensures->>= (Covers 1 (cs ++ now)) (Covers 1 (cs ++ (now ++ later)))
        (build_loads fl parse diagnostics base input o (plan_loads fl base) ps)
        (λ more. build_outputs fl parse diagnostics base input os more)
        (build_loads-Covers input o (plan_loads fl base) cs ps v)
        (λ more w.
          subst (λ x. Ensures (Covers 1 x) (build_outputs fl parse diagnostics base input os more))
            (append_assoc cs now later) (build_outputs-Covers input os (cs ++ now) more w))

  pub build_inputs-Covers :
      (is : List ℤ) (cs : List (Cell fl)) (ps : List (Point fl))
      → Covers 1 cs ps
      → Ensures
          (Covers 1 (cs ++ grid fl is (plan_outputs fl base) (plan_loads fl base)))
          (build_inputs fl parse diagnostics base is ps)
  unfolding build_inputs grid
  build_inputs-Covers [] cs ps v = rw (append-nil cs) v
  build_inputs-Covers (i ∷ is) cs ps v =
      let now : List (Cell fl) = rows fl i (plan_outputs fl base) (plan_loads fl base) in
      let later : List (Cell fl) = grid fl is (plan_outputs fl base) (plan_loads fl base) in
      Ensures->>= (Covers 1 (cs ++ now)) (Covers 1 (cs ++ (now ++ later)))
        (build_outputs fl parse diagnostics base i (plan_outputs fl base) ps)
        (λ more. build_inputs fl parse diagnostics base is more)
        (build_outputs-Covers i (plan_outputs fl base) cs ps v)
        (λ more w.
          subst (λ x. Ensures (Covers 1 x) (build_inputs fl parse diagnostics base is more))
            (append_assoc cs now later) (build_inputs-Covers is (cs ++ now) more w))
