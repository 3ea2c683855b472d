-- ===== src/Aggregate/Selection/Selected.antt =====
-- What a selection promises: the measured requests, each sequence once and all of them counted.
use llm_serving_performance.Prelude.Results.{
  Ensures-map, Ensures->>=, >>=-ok, ok, Ensures, ensured, Result-cases,
}
use llm_serving_performance.Prelude.{
  ℕ, suc, ◌≤◌, ◌≡◌, refl, sym, ap, ◌∙◌, String, true, false, Option, none, some, List, [], ◌∷◌,
  ◌++◌, length, if◌then◌else◌, arith, Bool-cases, inl, inr, length-append,
}
use llm_serving_performance.Prelude.Int.{ℤ, pos, ◌≤ℤ◌, ◌<ℤ◌, eqb_ℤ, eq_of_parts}
use llm_serving_performance.Prelude.Sums.{sum_by, sum_by-append}
use llm_serving_performance.Floats.{Floats}
use llm_serving_performance.Benchmark.Types.{
  RequestPhase, warmup, measured, other_phase, RequestOutcome,
}
use llm_serving_performance.Benchmark.Outcomes.{OutcomeCounts, total, increment_outcome}
use llm_serving_performance.Benchmark.Ids.{request_id}
use llm_serving_performance.Aggregate.Types.{Request}
use llm_serving_performance.Aggregate.Input.{Input}
use llm_serving_performance.Aggregate.Selection.{
  eqb_bytes, seen_sequence, wrong_id, valid_outcome, eqb_outcomes, Selection, no_selection, select,
  select_measured, select_one, select_all, validate_and_select_measured, check_input,
  check_selected,
}
use mathlib.Core.List.{append-nil, append_assoc}
use text.Mathlib.Text.{◌==◌ as str_eq}
use text.Mathlib.TextEquality.{eq_iff}

eqb_bytes-eq : (xs ys : List ℕ) → eqb_bytes xs ys ≡ true → xs ≡ ys
eqb_bytes-eq [] [] h = refl
eqb_bytes-eq [] (y ∷ ys) h = cc
eqb_bytes-eq (x ∷ xs) [] h = cc
eqb_bytes-eq (x ∷ xs) (y ∷ ys) h = ground (arith, eqb_bytes-eq xs ys)

eqb_ℤ-eq : (a b : ℤ) → eqb_ℤ a b ≡ true → a ≡ b
eqb_ℤ-eq a b h = eq_of_parts a b (ground arith)

wrong_id-eq : (o : Option (List ℕ)) (i : List ℕ) → wrong_id o i ≡ false → o ≡ some i
wrong_id-eq none i h = cc
wrong_id-eq (some e) i h = ground (arith, eqb_bytes-eq i e)

total-increment_valid :
    (n : OutcomeCounts) (o : RequestOutcome)
    → valid_outcome o ≡ true
    → total (increment_outcome n o) ≡ suc (total n)
unfolding total increment_outcome
total-increment_valid n o h = ground arith

eqb_outcomes-eq : (a b : OutcomeCounts) → eqb_outcomes a b ≡ true → a ≡ b
eqb_outcomes-eq a b h = ground arith

module _ (fl : Floats) where
  abbrev pub Every : (Request fl → Type 0) → List (Request fl) → Type 0
  Every P [] = Unit {0}
  Every P (r ∷ rs) = P r × Every P rs

  Every-append :
      (P : Request fl → Type 0) (rs : List (Request fl)) (r : Request fl)
      → Every P rs
      → P r
      → Every P (rs ++ (r ∷ []))
  Every-append P [] r h p = (p, tt)
  Every-append P (x ∷ rs) r h p = (h.0, Every-append P rs r h.1 p)

  -- A measured request of the run, with the identifier of its sequence, which is in range.
  pub record IsValid (run : String) (requested : ℤ) (r : Request fl) : Type 0 where
    pub phase : r.phase ≡ measured
    pub low : pos 0 <ℤ r.sequence
    pub high : r.sequence ≤ℤ requested
    pub run_id : r.metrics.run_id ≡ run
    pub id : request_id r.sequence ≡ some r.metrics.request_id

  abbrev pub is_for : ℤ → Request fl → ℕ
  is_for q r = if eqb_ℤ q r.sequence then 1 else 0

  abbrev pub if_measured : Request fl → RequestPhase → List (Request fl)
  if_measured r measured = r ∷ []
  if_measured r _ = []

  abbrev pub only_measured : List (Request fl) → List (Request fl)
  only_measured [] = []
  only_measured (r ∷ rs) = if_measured r r.phase ++ only_measured rs

  record Chosen (run : String) (requested : ℤ) (s : Selection fl) : Type 0 where
    once : (q : ℤ) → sum_by (is_for q) s.selected ≡ (if seen_sequence q s.sequences then 1 else 0)
    counted : total s.outcomes ≡ length s.selected
    valid : Every (IsValid run requested) s.selected

  measured_guards :
      (run : String) (requested : ℤ) (s s' : Selection fl) (r : Request fl)
      → select_measured fl run requested s r ≡ ok s'
      → (pos 0 <ℤ r.sequence)
        × (r.sequence ≤ℤ requested)
        × (seen_sequence r.sequence s.sequences ≡ false)
        × (str_eq r.metrics.run_id run ≡ true)
        × (wrong_id (request_id r.sequence) r.metrics.request_id ≡ false)
        × (valid_outcome r.outcome ≡ true)
        × (s' ≡ select fl s r)
  unfolding select_measured
  measured_guards run requested s s' r h = ground arith

  once-select :
      (s : Selection fl) (r : Request fl) (q : ℤ)
      → sum_by (is_for q) s.selected ≡ (if seen_sequence q s.sequences then 1 else 0)
      → seen_sequence r.sequence s.sequences ≡ false
      → sum_by (is_for q) (s.selected ++ (r ∷ []))
        ≡ (if seen_sequence q (r.sequence ∷ s.sequences) then 1 else 0)
  once-select s r q h new = elim (Bool-cases (eqb_ℤ q r.sequence)) [
    | inl e ↦
        let same : q ≡ r.sequence = eqb_ℤ-eq q r.sequence e in
        let unseen : seen_sequence q s.sequences ≡ false = rw same new in
        ground (arith, sum_by-append (is_for q) s.selected r)
    | inr e ↦ ground (arith, sum_by-append (is_for q) s.selected r)
  ]

  select-Chosen :
      (run : String) (requested : ℤ) (s : Selection fl) (r : Request fl)
      → r.phase ≡ measured
      → Chosen run requested s
      → Ensures
          (λ s'. Chosen run requested s' × (s' ≡ select fl s r))
          (select_measured fl run requested s r)
  select-Chosen run requested s r m c = elim (Result-cases (select_measured fl run requested s r)) [
    | inl (e, k) ↦ rw k tt
    | inr (s', k) ↦
        let (low, high, new, same_run, id, outcome, is) = measured_guards run requested s s' r k in
        rw (k, is)
          (
            record {
              once = λ q. once-select s r q (c.once q) new;
              counted =
                  total-increment_valid s.outcomes r.outcome outcome
                  ∙ ap suc c.counted
                  ∙ sym (length-append s.selected (r ∷ []) ∙ omega arith);
              valid = Every-append (IsValid run requested) s.selected r c.valid (record {
                phase = m;
                low = low;
                high = high;
                run_id = (eq_iff r.metrics.run_id run).0 same_run;
                id = wrong_id-eq (request_id r.sequence) r.metrics.request_id id;
              });
            },
            refl,
          )
  ]

  select_one-Chosen :
      (run : String) (requested : ℤ) (s : Selection fl) (r : Request fl) (p : RequestPhase)
      → r.phase ≡ p
      → Chosen run requested s
      → Ensures
          (λ s'. Chosen run requested s' × (s'.selected ≡ s.selected ++ if_measured r p))
          (select_one fl run requested s r p)
  unfolding select_one
  select_one-Chosen run requested s r warmup e c = (c, sym (append-nil s.selected))
  select_one-Chosen run requested s r (other_phase x) e c = tt
  select_one-Chosen run requested s r measured e c =
      Ensures-map _ _ (select_measured fl run requested s r)
        (λ s' h. (h.0, ap (λ u. u.selected) h.1)) (select-Chosen run requested s r e c)

  select_all-Chosen :
      (run : String) (requested : ℤ) (s : Selection fl) (rs : List (Request fl))
      → Chosen run requested s
      → Ensures
          (λ s'. Chosen run requested s' × (s'.selected ≡ s.selected ++ only_measured rs))
          (select_all fl run requested s rs)
  unfolding select_all
  select_all-Chosen run requested s [] c = (c, sym (append-nil s.selected))
  select_all-Chosen run requested s (r ∷ rs) c =
      Ensures->>= _ _ (select_one fl run requested s r r.phase) _
        (select_one-Chosen run requested s r r.phase refl c)
        (λ s' h.
          Ensures-map _ _ (select_all fl run requested s' rs)
            (λ t k. (
              k.0,
              k.1
                  ∙ ap (λ u. u ++ only_measured rs) h.1
                  ∙ append_assoc s.selected (if_measured r r.phase) (only_measured rs),
            ))
            (select_all-Chosen run requested s' rs h.0))

  none-Chosen : (run : String) (requested : ℤ) → Chosen run requested (no_selection fl)
  unfolding total sum_by
  none-Chosen run requested = record { once = λ q. refl; counted = refl; valid = tt }

  input_attempted :
      (i : Input fl) (u : Unit {0})
      → check_input fl i ≡ ok u
      → eqb_ℤ i.measurement.attempted i.measurement.completed ≡ true
  unfolding check_input
  input_attempted i u h = ground arith

  selected_guards :
      (i : Input fl) (s : Selection fl) (rs : List (Request fl)) (outcomes : OutcomeCounts)
      → check_selected fl i s ≡ ok (rs, outcomes)
      → (s.selected ≡ rs)
        × (s.outcomes ≡ outcomes)
        × (eqb_ℤ (pos (length rs)) i.measurement.completed ≡ true)
        × (eqb_outcomes outcomes i.measurement.outcomes ≡ true)
  unfolding check_selected
  selected_guards i s rs outcomes h = ground arith

  -- What is returned is the state at the end of the loop, checked against the lifecycle's numbers.
  returned_guards :
      (i : Input fl) (rs : List (Request fl)) (outcomes : OutcomeCounts)
      → validate_and_select_measured fl i ≡ ok (rs, outcomes)
      → (s : Selection fl) × (select_all fl i.run_id i.measurement.requested
            (no_selection fl)
            i.requests
          ≡ ok s)
        × (s.selected ≡ rs)
        × (s.outcomes ≡ outcomes)
        × (eqb_ℤ (pos (length rs)) i.measurement.completed ≡ true)
        × (eqb_ℤ i.measurement.attempted i.measurement.completed ≡ true)
        × (eqb_outcomes outcomes i.measurement.outcomes ≡ true)
  unfolding validate_and_select_measured
  returned_guards i rs outcomes h =
      let (u, k, h') = >>=-ok (check_input fl i) _ h in
      let (s, l, checked) =
        >>=-ok (select_all fl i.run_id i.measurement.requested (no_selection fl) i.requests) _ h' in
      let (is, counts, size, totals) = selected_guards i s rs outcomes checked in
      (s, l, is, counts, size, input_attempted i u k, totals)

  at_most_once :
      (q : ℤ) (seen : List ℤ) (n : ℕ) → n ≡ (if seen_sequence q seen then 1 else 0) → n ≤ 1
  at_most_once q seen n h = ground arith

  -- If the selection of an input succeeds, it is exactly the measured requests in their order. Each
  -- belongs to the run, has a sequence in the requested range and this sequence's identifier; no
  -- sequence occurs twice. Their number is the completed and the attempted one, and the outcome
  -- counters are the lifecycle's and add up to it.
  pub selection_sound :
      (i : Input fl) (rs : List (Request fl)) (outcomes : OutcomeCounts)
      → validate_and_select_measured fl i ≡ ok (rs, outcomes)
      → (rs ≡ only_measured i.requests)
        × Every (IsValid i.run_id i.measurement.requested) rs
        × ((q : ℤ) → sum_by (is_for q) rs ≤ 1)
        × (pos (length rs) ≡ i.measurement.completed)
        × (i.measurement.attempted ≡ i.measurement.completed)
        × (outcomes ≡ i.measurement.outcomes)
        × (total outcomes ≡ length rs)
  selection_sound i rs outcomes h =
      let run = i.run_id in
      let requested = i.measurement.requested in
      let (s, k, is, counts, size, attempted, totals) = returned_guards i rs outcomes h in
      let (c, all) =
        ensured _ _
          (select_all-Chosen run requested (no_selection fl) i.requests (none-Chosen run requested))
          k in
      (
        sym is ∙ all,
        rw (← is) c.valid,
        λ q. rw (← is) (at_most_once q s.sequences _ (c.once q)),
        eqb_ℤ-eq _ _ size,
        eqb_ℤ-eq _ _ attempted,
        eqb_outcomes-eq _ _ totals,
        ap total (sym counts) ∙ c.counted ∙ ap length is,
      )
