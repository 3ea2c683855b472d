-- ===== src/Experiment/Stepped.antt =====
-- What one point of a sweep does to the state of the loop: it is finished, or the loop is left.
use llm_serving_performance.Prelude.{
  ◌<◌, ◌==◌, if◌then◌else◌, Bool-cases, arith, inl, inr, length-set, true, ◌+◌, ◌||◌, ◌⊎◌, Bool,
  List, [], ap, false, get_elem?, length, refl, set, some, suc, ℕ, ◌++◌, ◌∷◌, ◌≡◌,
}
use llm_serving_performance.Experiment.Run.{
  put_summary, answer_point, finish_point, fail_point, new_records, run_point,
}
use llm_serving_performance.Prelude.Sums.{sum_by-set, sum_by}
use llm_serving_performance.Experiment.Types.{
  finished_with, failed_with, Answer, ChildResult, executed, is_run_cancelled, ExecuteFailure,
  is_preparation, preflight_failed, PointEnv, PointRecord, RunState,
}
use llm_serving_performance.Floats.{Floats}
use llm_serving_performance.Experiment.Plan.{Point}
use llm_serving_performance.Experiment.Counted.{cancelled_record, executed_record, waiting_record}

module _ {ℓ} {A : Type ℓ} where
  get_elem?-append :
      (xs : List A) (y : A) (ys : List A) → get_elem? (xs ++ y ∷ ys) (length xs) ≡ some y
  get_elem?-append [] y ys = refl
  get_elem?-append (x ∷ xs) y ys = get_elem?-append xs y ys

  set-append :
      (xs : List A) (y z : A) (ys : List A)
      → set (xs ++ y ∷ ys) (length xs) z ≡ (xs ++ z ∷ []) ++ ys
  set-append [] y z ys = refl
  set-append (x ∷ xs) y z ys = ap (λ l. x ∷ l) (set-append xs y z ys)

module _ (fl : Floats) where
  pub new_records-executed :
      (ps : List (Point fl)) → sum_by (executed_record fl) (new_records fl ps) ≡ 0
  unfolding new_records sum_by
  new_records-executed [] = refl
  new_records-executed (p ∷ ps) = omega (arith, new_records-executed ps)

  pub length-new_records : (ps : List (Point fl)) → length (new_records fl ps) ≡ length ps
  unfolding new_records
  length-new_records [] = refl
  length-new_records (p ∷ ps) = ap suc (length-new_records ps)

-- Points numbered from an index on.
abbrev pub IsNumbered : {fl : Floats} → ℕ → List (Point fl) → Type 0
IsNumbered k [] = Unit {0}
IsNumbered k (p ∷ ps) = (p.index ≡ k) × IsNumbered (k + 1) ps

abbrev pub AllBelow : {S : Type 0} → ℕ → List (ℕ × S) → Type 0
AllBelow k [] = Unit {0}
AllBelow k ((j, w) ∷ m) = (j < k) × AllBelow k m

below_next : {S : Type 0} (k : ℕ) (m : List (ℕ × S)) → AllBelow k m → AllBelow (k + 1) m
below_next k [] h = tt
below_next k ((j, w) ∷ m) (a, h) = (omega (arith, a), below_next k m h)

-- A key above all others is new.
put_summary-new :
    {S : Type 0} (k : ℕ) (v : S) (m : List (ℕ × S))
    → AllBelow k m
    → (length (put_summary k v m) ≡ length m + 1) × AllBelow (k + 1) (put_summary k v m)
unfolding put_summary
put_summary-new k v [] h = (refl, (omega arith, tt))
put_summary-new k v ((j, w) ∷ m) (a, h) =
    let (size, below) = put_summary-new k v m h in
    rw (other j k a) (omega (arith, size), (omega (arith, a), below))
  where
    other : (j k : ℕ) → j < k → (j == k) ≡ false
    other j k a = ground arith

-- What is said of the summaries holds if the points of the plan have the numbers that `Q` gives them.
module _ (fl : Floats) {S : Type 0} (Q : Type 0) where
  -- The points so far are finished, and each executed one has a summary.
  pub record Finished (finished : List (PointRecord fl)) (summaries : List (ℕ × S)) : Type 0 where
    pub none_waits : sum_by (waiting_record fl) finished ≡ 0
    pub none_cancelled : sum_by (cancelled_record fl) finished ≡ 0
    pub summed :
        Q
        → (length summaries ≡ sum_by (executed_record fl) finished)
          × AllBelow (length finished + 1) summaries

  -- The end of the loop: as many points as before; each executed one has a summary; and all are
  -- finished unless the loop was left.
  pub record Swept (count : ℕ) (s : RunState fl S) : Type 0 where
    pub kept : length s.records ≡ count
    pub summed : Q → length s.summaries ≡ sum_by (executed_record fl) s.records
    pub whole :
        s.cancelled ≡ false
        → s.fatal ≡ false
        → (sum_by (waiting_record fl) s.records ≡ 0) × (sum_by (cancelled_record fl) s.records ≡ 0)

  abbrev pub going : List (PointRecord fl) → List (PointRecord fl) → List (ℕ × S) → RunState fl S
  going finished rest summaries = record {
    records = finished ++ rest;
    summaries = summaries;
    cancelled = false;
    fatal = false;
  }

  -- The loop is left, with a flag.
  pub record Stops (s : RunState fl S) (x : RunState fl S × Bool) : Type 0 where
    pub stopped : x.1 ≡ false
    pub flagged : (x.0.cancelled || x.0.fatal) ≡ true
    pub same_size : length x.0.records ≡ length s.records
    pub same_sums :
        Q
        → length x.0.summaries + sum_by (executed_record fl) s.records
          ≡ length s.summaries + sum_by (executed_record fl) x.0.records

  -- Or it goes on, with this point finished.
  pub record GoesOn (index : ℕ) (finished rest : List (PointRecord fl)) (summaries : List (ℕ × S))
      (x : RunState fl S × Bool) : Type 0 where
    pub changed : PointRecord fl
    pub longer : List (ℕ × S)
    pub result : x ≡ (going (finished ++ changed ∷ []) rest longer, true)
    pub not_waiting : waiting_record fl changed ≡ 0
    pub not_cancelled : cancelled_record fl changed ≡ 0
    pub counted :
        Q
        → (length longer ≡ length summaries + executed_record fl changed)
          × AllBelow (index + 1) longer

  module _ (finished rest : List (PointRecord fl)) (r : PointRecord fl) (summaries : List (ℕ × S))
      (fresh : executed_record fl r ≡ 0) (index : ℕ) (below : Q → AllBelow index summaries) where
    sum-set :
        (q : PointRecord fl)
        → sum_by (executed_record fl) (set (finished ++ r ∷ rest) (length finished) q)
          ≡ sum_by (executed_record fl) (finished ++ r ∷ rest) + executed_record fl q
    sum-set q = omega (
      arith,
      fresh,
      sum_by-set (executed_record fl) (finished ++ r ∷ rest) (length finished) r q
          (get_elem?-append finished r rest),
    )

    fail_point-cases :
        (e : ExecuteFailure) (cancelled : Bool)
        → let s = going finished (r ∷ rest) summaries in
          let x = fail_point fl s (length finished) r e cancelled in
          Stops s x ⊎ GoesOn index finished rest summaries x
    unfolding fail_point
    fail_point-cases e cancelled = elim (Bool-cases (e.is_canceled_err || cancelled)) [
      | inl c ↦ inl (
          rw c (record {
            stopped = refl;
            flagged = refl;
            same_size = length-set (finished ++ r ∷ rest) (length finished) _;
            same_sums = λ q. omega (arith, sum-set _);
          }))
      | inr c ↦ elim (Bool-cases (is_preparation e.stage)) [
        | inl k ↦ inr (
            rw (c, k)
              (record {
                changed = record r {
                  point_status = preflight_failed;
                  error_class = "workload_preparation_error";
                  error = e.text;
                };
                longer = summaries;
                result =
                    ap (λ l. (record (going finished (r ∷ rest) summaries) { records = l }, true))
                      (set-append finished r _ rest);
                not_waiting = refl;
                not_cancelled = refl;
                counted = λ q. (omega arith, below_next index summaries (below q));
              }))
        | inr k ↦ inl (
            rw (c, k)
              (record { stopped = refl; flagged = refl; same_size = refl; same_sums = λ q. refl }))
      ]
    ]

    finish_point-cases :
        (c : ChildResult fl S) (cancelled : Bool)
        → let s = going finished (r ∷ rest) summaries in
          let x = finish_point fl s (length finished) index r c cancelled in
          Stops s x ⊎ GoesOn index finished rest summaries x
    unfolding finish_point
    finish_point-cases c cancelled =
        let done_record : PointRecord fl = record r {
          point_status = executed;
          run_id = some c.run_id;
          run_status = some c.run_status;
          error_class = c.error_class;
        } in
        let more : List (ℕ × S) = put_summary index c.summary summaries in
        let grown = λ (q : Q). put_summary-new index c.summary summaries (below q) in
        elim (Bool-cases (is_run_cancelled c.run_status || cancelled)) [
          | inl k ↦ inl (
              rw k (record {
                stopped = refl;
                flagged = refl;
                same_size = length-set (finished ++ r ∷ rest) (length finished) done_record;
                same_sums = λ q. omega (arith, sum-set done_record, (grown q).0);
              }))
          | inr k ↦ inr (
              rw k (record {
                changed = done_record;
                longer = more;
                result =
                    ap
                      (λ l. (
                        record (going finished (r ∷ rest) summaries) {
                          records = l;
                          summaries = more;
                        },
                        true,
                      ))
                      (set-append finished r done_record rest);
                not_waiting = refl;
                not_cancelled = refl;
                counted = grown;
              }))
        ]

    answer_point-cases :
        (a : Answer fl S) (cancelled : Bool)
        → let s = going finished (r ∷ rest) summaries in
          let x = answer_point fl s (length finished) index (some r) a cancelled in
          Stops s x ⊎ GoesOn index finished rest summaries x
    unfolding answer_point
    answer_point-cases (failed_with e) cancelled = fail_point-cases e cancelled
    answer_point-cases (finished_with c) cancelled = finish_point-cases c cancelled

    pub run_point-cases :
        (env : PointEnv fl S)
        → let s = going finished (r ∷ rest) summaries in
          let x = run_point fl s (length finished) index env in
          Stops s x ⊎ GoesOn index finished rest summaries x
    unfolding run_point
    run_point-cases env = by_flag env.cancelled_before
      where
        by_flag :
            (b : Bool)
            → let s = going finished (r ∷ rest) summaries in
              let x : RunState fl S × Bool =
                if b
                then (record s { cancelled = true }, false)
                else answer_point fl s
                    (length finished)
                    index
                    (get_elem? (finished ++ r ∷ rest) (length finished))
                    env.answer
                    env.cancelled_behind in
              Stops s x ⊎ GoesOn index finished rest summaries x
        by_flag true =
            inl (record { stopped = refl; flagged = refl; same_size = refl; same_sums = λ q. refl })
        by_flag false =
            rw (get_elem?-append finished r rest)
              (answer_point-cases env.answer env.cancelled_behind)
