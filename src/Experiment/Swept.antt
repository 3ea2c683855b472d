-- ===== src/Experiment/Swept.antt =====
-- What the loop over the points of a sweep leaves behind.
use llm_serving_performance.Experiment.Stepped.{
  AllBelow, IsNumbered, run_point-cases, new_records-executed, Finished, GoesOn, Stops, Swept,
  going, length-new_records,
}
use llm_serving_performance.Prelude.Sums.{sum_by-append, sum_by-concat, sum_by}
use llm_serving_performance.Experiment.Run.{fresh_record, run_points, new_records}
use llm_serving_performance.Experiment.Types.{PointEnv, PointRecord, RunState}
use llm_serving_performance.Prelude.{
  if◌then◌else◌, ◌∙◌, length-append, sym, arith, inl, inr, true, ◌+◌, ◌||◌, ◌⊎◌, Bool, List, [], ap,
  false, length, refl, suc, ℕ, ◌++◌, ◌∷◌, ◌≡◌,
}
use mathlib.Core.List.{append-nil}
use mathlib.Core.Path.{subst}
use llm_serving_performance.Floats.{Floats}
use llm_serving_performance.Experiment.Plan.{Point}
use llm_serving_performance.Experiment.Counted.{cancelled_record, executed_record, waiting_record}

module _ (fl : Floats) {S : Type 0} (Q : Type 0) where
  after_point :
      (env : ℕ → PointEnv fl S) (ps : List (Point fl)) (finished : List (PointRecord fl))
      (summaries : List (ℕ × S)) (p : Point fl)
      → (Q → p.index ≡ length finished + 1)
      → Finished fl Q finished summaries
      → (x : RunState fl S × Bool)
      → Stops fl Q (going fl Q finished (fresh_record fl p ∷ new_records fl ps) summaries) x
        ⊎ GoesOn fl Q p.index finished (new_records fl ps) summaries x
      → ((c : PointRecord fl) (longer : List (ℕ × S))
          → Finished fl Q (finished ++ c ∷ []) longer
          → Swept fl Q (length (finished ++ c ∷ []) + length ps) (
              run_points fl env
                (length (finished ++ c ∷ []))
                ps
                (going fl Q (finished ++ c ∷ []) (new_records fl ps) longer)))
      → Swept fl Q
          (length finished + suc (length ps))
          (if x.1 then run_points fl env (length finished + 1) ps x.0 else x.0)
  unfolding sum_by
  after_point env ps finished summaries p number v x (inl stop) again =
      let all : List (PointRecord fl) = finished ++ fresh_record fl p ∷ new_records fl ps in
      let size : length all ≡ length finished + suc (length ps) = omega (
        arith,
        length-append finished (fresh_record fl p ∷ new_records fl ps),
        length-new_records fl ps,
      ) in
      let sums : sum_by (executed_record fl) all ≡ sum_by (executed_record fl) finished = omega (
        arith,
        sum_by-concat (executed_record fl) finished (fresh_record fl p ∷ new_records fl ps),
        new_records-executed fl ps,
      ) in
      rw (stop.stopped) (record {
        kept = stop.same_size ∙ size;
        summed = λ q. omega (arith, stop.same_sums q, sums, (v.summed q).0);
        whole = λ c f. absurd (unflagged c f stop.flagged);
      })
    where
      unflagged : {a b : Bool} → a ≡ false → b ≡ false → (a || b) ≡ true → ⊥
      unflagged a b h = ground arith
  after_point env ps finished summaries p number v x (inr g) again =
      let c : PointRecord fl = g.changed in
      let one : length (finished ++ c ∷ []) ≡ length finished + 1 =
        length-append finished (c ∷ []) in
      let w : Finished fl Q (finished ++ c ∷ []) g.longer = record {
        none_waits =
            omega
              (arith, sum_by-append (waiting_record fl) finished c, v.none_waits, g.not_waiting);
        none_cancelled = omega (
          arith,
          sum_by-append (cancelled_record fl) finished c,
          v.none_cancelled,
          g.not_cancelled,
        );
        summed = λ q. (
          omega (
            arith,
            sum_by-append (executed_record fl) finished c,
            (v.summed q).0,
            (g.counted q).0,
          ),
          subst (λ k. AllBelow (k + 1) g.longer) (number q ∙ sym one) (g.counted q).1,
        );
      } in
      let here = again c g.longer w in
      let moved =
        subst
          (λ k.
            Swept fl Q (k + length ps) (
              run_points fl env k ps
                (going fl Q (finished ++ c ∷ []) (new_records fl ps) g.longer)))
          one here in
      let counted =
        subst
          (λ k. Swept fl Q k (
            run_points fl env (length finished + 1) ps
              (going fl Q (finished ++ c ∷ []) (new_records fl ps) g.longer)))
          (shift (length finished) (length ps)) moved in
      subst
        (λ y.
          Swept fl Q (length finished + suc (length ps))
            (if y.1 then run_points fl env (length finished + 1) ps y.0 else y.0))
        (sym g.result) counted
    where
      shift : (a b : ℕ) → a + 1 + b ≡ a + suc b
      shift a b = omega arith

  -- From a point on, with all points before it finished.
  pub run_points-Swept :
      (env : ℕ → PointEnv fl S) (ps : List (Point fl)) (finished : List (PointRecord fl))
      (summaries : List (ℕ × S))
      → (Q → IsNumbered (length finished + 1) ps)
      → Finished fl Q finished summaries
      → Swept fl Q (length finished + length ps) (
          run_points fl env
            (length finished)
            ps
            (going fl Q finished (new_records fl ps) summaries))
  unfolding run_points new_records
  run_points-Swept env [] finished summaries numbered v = record {
    kept = length-append finished [];
    summed = λ q. (v.summed q).0 ∙ ap (sum_by (executed_record fl)) (sym (append-nil finished));
    whole = λ c f. (
      ap (sum_by (waiting_record fl)) (append-nil finished) ∙ v.none_waits,
      ap (sum_by (cancelled_record fl)) (append-nil finished) ∙ v.none_cancelled,
    );
  }
  run_points-Swept env (p ∷ ps) finished summaries numbered v =
      let number : Q → p.index ≡ length finished + 1 = λ q. (numbered q).0 in
      after_point env ps finished summaries p number v _
        (run_point-cases fl Q finished (new_records fl ps) (fresh_record fl p) summaries refl
          p.index (λ q. subst (λ k. AllBelow k summaries) (sym (number q)) (v.summed q).1)
          (env (length finished)))
        (λ c longer w.
          run_points-Swept env ps (finished ++ c ∷ []) longer
            (λ q.
              subst (λ k. IsNumbered (k + 1) ps) (sym (length-append finished (c ∷ [])))
                (numbered q).1)
            w)
