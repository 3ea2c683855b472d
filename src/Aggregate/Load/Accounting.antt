-- ===== src/Aggregate/Load/Accounting.antt =====
-- An open loop's summary accounts for every arrival of its plan.
use llm_serving_performance.Aggregate.Load.{
  bad_planned, measured_arrivals, Dispositions, seen_arrival, request_for, no_evidence,
  start_evidence, lag_is_negative, count_disposition, count_arrival, count_arrivals, counts_agree,
  check_open, bad_open, no_dispositions, dispositions_agree, load_open, load_open_of, load_closed,
  load_of_mode, populate_load_summary, open_loop_load, OpenLoopSummary, open_summary,
}
use llm_serving_performance.Prelude.Results.{
  Ensures-refuse_if, ok, Ensures, ensured, Ensures-map, Ensures->>=, >>=-ok, Ensures-last_guard,
  Ensures-wrap_err, wrap_err,
}
use llm_serving_performance.Prelude.{
  ltb, ℕ, ◌+◌, ◌≤◌, ◌<◌, ◌≡◌, refl, sym, ap, ◌∙◌, true, false, ◌||◌, not, Option, none, some, List,
  [], ◌∷◌, length, if◌then◌else◌, arith, ◌==◌, Bool-cases, inl, inr,
}
use mathlib.Core.Path.{subst}
use llm_serving_performance.Prelude.Int.{ℤ, pos, ◌≤ℤ◌, eqb_ℤ, eq_of_parts}
use llm_serving_performance.Prelude.Sums.{sum_by}
use llm_serving_performance.Floats.{Floats}
use llm_serving_performance.Benchmark.Types.{
  LoadMode, unset_mode, closed_loop, open_loop, other_mode, ArrivalDisposition, started,
  client_limited, scheduler_limited, other_disposition,
}
use llm_serving_performance.Benchmark.Arrivals.{ArrivalRecord, ArrivalCounts}
use llm_serving_performance.Benchmark.Schedule.{planned_arrival_count}
use llm_serving_performance.Aggregate.Types.{Request}
use llm_serving_performance.Aggregate.Input.{Input, OpenLoopInput, MeasurementInput}

-- 1 for an arrival with the sequence, or with the disposition.
abbrev pub arrives : ℕ → ArrivalRecord → ℕ
arrives q a = if q == a.sequence then 1 else 0

abbrev pub as_started : ArrivalDisposition → ℕ
as_started started = 1
as_started _ = 0

abbrev pub as_client_limited : ArrivalDisposition → ℕ
as_client_limited client_limited = 1
as_client_limited _ = 0

abbrev pub as_scheduler_limited : ArrivalDisposition → ℕ
as_scheduler_limited scheduler_limited = 1
as_scheduler_limited _ = 0

module _ (fl : Floats) (requests : List (Request fl)) where
  -- A started arrival has the request of its sequence, with its identifier and a lag that is not
  -- negative; any other has no request.
  abbrev pub HasEvidence : ArrivalRecord → ArrivalDisposition → Type 0
  HasEvidence a started =
      (start_evidence fl (request_for fl a.sequence requests) a ≡ true)
      × (lag_is_negative a.scheduler_lag_ns ≡ false)
  HasEvidence a (other_disposition _) = ⊥
  HasEvidence a _ = no_evidence fl (request_for fl a.sequence requests) a ≡ true

  -- An arrival of the plan, with its evidence.
  pub record IsAccounted (planned : ℕ) (a : ArrivalRecord) : Type 0 where
    pub low : 0 < a.sequence
    pub high : a.sequence ≤ planned
    pub evidence : HasEvidence a a.disposition

  abbrev pub EveryArrival : ℕ → List ArrivalRecord → Type 0
  EveryArrival planned [] = Unit {0}
  EveryArrival planned (a ∷ rest) = IsAccounted planned a × EveryArrival planned rest

  abbrev Counts : Dispositions → Dispositions → ArrivalDisposition → Type 0
  Counts d d' x =
      (d'.starts ≡ d.starts + as_started x)
      × (d'.client_limits ≡ d.client_limits + as_client_limited x)
      × (d'.scheduler_limits ≡ d.scheduler_limits + as_scheduler_limited x)

  count_disposition_lem :
      (d : Dispositions) (a : ArrivalRecord) (x : ArrivalDisposition)
      → Ensures
          (λ d'. (d'.sequences ≡ d.sequences) × Counts d d' x × HasEvidence a x)
          (count_disposition fl d (request_for fl a.sequence requests) a x)
  unfolding count_disposition
  count_disposition_lem d a started = ground arith
  count_disposition_lem d a client_limited = ground arith
  count_disposition_lem d a scheduler_limited = ground arith
  count_disposition_lem d a (other_disposition s) = tt

  count_arrival_lem :
      (planned : ℕ) (d : Dispositions) (a : ArrivalRecord)
      → Ensures
          (λ d'.
            (d'.sequences ≡ a.sequence ∷ d.sequences)
            × (seen_arrival a.sequence d.sequences ≡ false)
            × Counts d d' a.disposition
            × IsAccounted planned a)
          (count_arrival fl planned requests d a)
  unfolding count_arrival
  count_arrival_lem planned d a =
      Ensures-refuse_if _ ((a.sequence == 0) || ltb planned a.sequence) _ _ (λ inside.
        Ensures-refuse_if _ (seen_arrival a.sequence d.sequences) _ _ (λ new.
          Ensures-map _ _
            (count_disposition fl (record d { sequences = a.sequence ∷ d.sequences })
              (request_for fl a.sequence requests) a a.disposition)
            (λ d' h.
              let (same, counts, evidence) = h in
              (
                same,
                new,
                counts,
                record { low = ground arith; high = ground arith; evidence = evidence },
              ))
            (count_disposition_lem (record d { sequences = a.sequence ∷ d.sequences }) a
              a.disposition)))

  abbrev sum_of : (ArrivalDisposition → ℕ) → List ArrivalRecord → ℕ
  sum_of f arrivals = sum_by (λ a. f a.disposition) arrivals

  once-arrival :
      (q : ℕ) (a : ArrivalRecord) (rest : List ArrivalRecord) (seen : List ℕ)
      → seen_arrival a.sequence seen ≡ false
      → sum_by (arrives q) rest + (if seen_arrival q (a.sequence ∷ seen) then 1 else 0) ≤ 1
      → sum_by (arrives q) (a ∷ rest) + (if seen_arrival q seen then 1 else 0) ≤ 1
  unfolding sum_by
  once-arrival q a rest seen new h = elim (Bool-cases (q == a.sequence)) [
    | inl e ↦
        let same : q ≡ a.sequence = ground arith in
        let unseen : seen_arrival q seen ≡ false = rw same new in ground arith
    | inr e ↦ ground arith
  ]

  -- What the loop has found of the arrivals from a state on.
  record Tallied (planned : ℕ) (d d' : Dispositions) (arrivals : List ArrivalRecord) : Type 0 where
    starts : d'.starts ≡ d.starts + sum_of as_started arrivals
    client_limits : d'.client_limits ≡ d.client_limits + sum_of as_client_limited arrivals
    scheduler_limits :
        d'.scheduler_limits ≡ d.scheduler_limits + sum_of as_scheduler_limited arrivals
    once : (q : ℕ) → sum_by (arrives q) arrivals + (if seen_arrival q d.sequences then 1 else 0) ≤ 1
    accounted : EveryArrival planned arrivals

  count_arrivals-Tallied :
      (planned : ℕ) (d : Dispositions) (arrivals : List ArrivalRecord)
      → Ensures
          (λ d'. Tallied planned d d' arrivals)
          (count_arrivals fl planned requests d arrivals)
  unfolding count_arrivals sum_by
  count_arrivals-Tallied planned d [] = record {
    starts = omega arith;
    client_limits = omega arith;
    scheduler_limits = omega arith;
    once = λ q. ground arith;
    accounted = tt;
  }
  count_arrivals-Tallied planned d (a ∷ rest) =
      Ensures->>= _ _ (count_arrival fl planned requests d a) _ (count_arrival_lem planned d a)
        (λ d' h.
          let (seen, new, (s, c, l), accounted) = h in
          Ensures-map _ _ (count_arrivals fl planned requests d' rest)
            (λ t k. record {
              starts = omega (arith, k.starts, s);
              client_limits = omega (arith, k.client_limits, c);
              scheduler_limits = omega (arith, k.scheduler_limits, l);
              once = λ q. once-arrival q a rest d.sequences new (
                  subst (λ z. sum_by (arrives q) rest + (if seen_arrival q z then 1 else 0) ≤ 1)
                    seen (k.once q));
              accounted = (accounted, k.accounted);
            })
            (count_arrivals-Tallied planned d' rest))

  -- The accounting of an open loop: the numbers of its summary, and its arrivals one by one.
  pub record Accounts (m : MeasurementInput) (o : OpenLoopInput fl) (arrivals : List ArrivalRecord)
      (s : OpenLoopSummary fl) : Type 0 where
    pub split :
        s.planned_arrivals
        ≡ s.started_arrivals + s.client_limited_arrivals + s.scheduler_limited_arrivals
          + s.unprocessed_due_to_cancellation
    pub planned : pos s.planned_arrivals ≡ m.requested
    pub configured :
        planned_arrival_count fl o.configured_request_rate o.duration ≡ ok (pos s.planned_arrivals)
    pub in_flight : pos s.max_observed_in_flight ≤ℤ o.max_in_flight
    pub requested : s.started_arrivals ≡ length requests
    pub processed : s.processed_arrivals ≡ length arrivals
    pub started_sum : s.started_arrivals ≡ sum_of as_started arrivals
    pub client_limited_sum : s.client_limited_arrivals ≡ sum_of as_client_limited arrivals
    pub scheduler_limited_sum : s.scheduler_limited_arrivals ≡ sum_of as_scheduler_limited arrivals
    pub once : (q : ℕ) → sum_by (arrives q) arrivals ≤ 1
    pub accounted : EveryArrival s.planned_arrivals arrivals

  eqb_ℤ-eq : (a b : ℤ) → eqb_ℤ a b ≡ true → a ≡ b
  eqb_ℤ-eq a b h = eq_of_parts a b (ground arith)

  check_open_lem :
      (m : MeasurementInput) (o : OpenLoopInput fl) (c : ArrivalCounts)
      → Ensures
          (λ u.
            (pos c.planned ≡ m.requested)
            × (planned_arrival_count fl o.configured_request_rate o.duration ≡ ok (pos c.planned)))
          (check_open fl m o c)
  unfolding check_open
  check_open_lem m o c = Ensures-refuse_if _ (bad_open fl m o c) _ _ (λ configured.
      Ensures->>= _ _
        (wrap_err bad_planned (planned_arrival_count fl o.configured_request_rate o.duration)) _
        (Ensures-wrap_err bad_planned _)
        (λ n k. Ensures-last_guard _ (not (eqb_ℤ n o.planned_arrivals)) _ (λ same.
          let planned : pos c.planned ≡ o.planned_arrivals =
            eqb_ℤ-eq (pos c.planned) o.planned_arrivals (ground arith) in
          let requested : o.planned_arrivals ≡ m.requested =
            eqb_ℤ-eq o.planned_arrivals m.requested (ground arith) in
          let counted : n ≡ o.planned_arrivals = eqb_ℤ-eq n o.planned_arrivals (ground arith) in
          (planned ∙ requested, k ∙ ap ok (counted ∙ sym planned)))))

  counts_agree_lem :
      (c : ArrivalCounts) (max_in_flight : ℤ) (a r : ℕ)
      → not (counts_agree fl c max_in_flight a r) ≡ false
      → (c.processed ≡ a)
        × (c.planned
            ≡ c.started_count + c.client_limited_count + c.scheduler_limited_count
              + c.unprocessed_due_to_cancellation)
        × (c.started_count ≡ r)
        × (pos c.max_observed_in_flight ≤ℤ max_in_flight)
  unfolding counts_agree
  counts_agree_lem c max_in_flight a r h = ground arith

  dispositions_agree_lem :
      (d : Dispositions) (c : ArrivalCounts)
      → not (dispositions_agree fl d c) ≡ false
      → (d.starts ≡ c.started_count)
        × (d.client_limits ≡ c.client_limited_count)
        × (d.scheduler_limits ≡ c.scheduler_limited_count)
  dispositions_agree_lem d c h = ground arith

  load_open-Accounts :
      (m : MeasurementInput) (o : OpenLoopInput fl) (c : ArrivalCounts)
      (arrivals : List ArrivalRecord)
      → Ensures
          (λ l. (s : OpenLoopSummary fl) × (l ≡ open_loop_load s) × Accounts m o arrivals s)
          (load_open fl m o c arrivals requests)
  unfolding load_open open_summary
  load_open-Accounts m o c arrivals =
      Ensures->>= _ _ (check_open fl m o c) _ (check_open_lem m o c) (λ u checked.
        Ensures-refuse_if _ _ _ _ (λ agree.
          Ensures->>= _ _ (count_arrivals fl c.planned requests (no_dispositions fl) arrivals) _
            (count_arrivals-Tallied c.planned (no_dispositions fl) arrivals)
            (λ d t. Ensures-refuse_if _ _ _ _ (λ same.
              let (size, split, started_all, in_flight) =
                counts_agree_lem c o.max_in_flight (length arrivals) (length requests) agree in
              let (starts, clients, schedulers) = dispositions_agree_lem d c same in
              (
                open_summary fl o c,
                refl,
                record {
                  split = split;
                  planned = checked.0;
                  configured = checked.1;
                  in_flight = in_flight;
                  requested = started_all;
                  processed = size;
                  started_sum = omega (arith, t.starts, starts);
                  client_limited_sum = omega (arith, t.client_limits, clients);
                  scheduler_limited_sum = omega (arith, t.scheduler_limits, schedulers);
                  once = λ q. omega (arith, t.once q);
                  accounted = t.accounted;
                },
              )))))

  open_of-Accounts :
      (i : Input fl) (arrivals : List ArrivalRecord) (s : OpenLoopSummary fl)
      (o : Option (OpenLoopInput fl)) (c : Option ArrivalCounts)
      → load_open_of fl i arrivals requests o c ≡ ok (open_loop_load s)
      → (o' : OpenLoopInput fl) × (o ≡ some o') × Accounts i.measurement o' arrivals s
  open_of-Accounts i arrivals s none c h = cc
  open_of-Accounts i arrivals s (some o) none h = cc
  open_of-Accounts i arrivals s (some o) (some c) h =
      let r = load_open fl i.measurement o c arrivals requests in
      let same : r ≡ ok (open_loop_load s) = ground arith in
      let (s', e, a) = ensured _ _ (load_open-Accounts i.measurement o c arrivals) same in
      let equal : s' ≡ s = cc in (o, refl, subst (Accounts i.measurement o arrivals) equal a)

  of_mode :
      (i : Input fl) (arrivals : List ArrivalRecord) (s : OpenLoopSummary fl) (mode : LoadMode)
      → load_of_mode fl mode i arrivals requests ≡ ok (open_loop_load s)
      → (o : OpenLoopInput fl) × (i.load.open_loop_input ≡ some o)
        × Accounts i.measurement o arrivals s
  unfolding load_of_mode load_closed
  of_mode i arrivals s closed_loop h = absurd (ground arith)
  of_mode i arrivals s unset_mode h = cc
  of_mode i arrivals s (other_mode x) h = cc
  of_mode i arrivals s open_loop h =
      open_of-Accounts i arrivals s i.load.open_loop_input i.measurement.arrival_counts h

  -- A summary of an open loop accounts for its whole plan: planned arrivals are the started, the
  -- client-limited, the scheduler-limited and the unprocessed ones; they are as many as requested
  -- and as the rate and the duration plan; the started ones are as many as the measured requests;
  -- each disposition is counted exactly; no sequence arrives twice; each arrival is in the plan,
  -- and has a request, its identifier and a lag exactly if it was started.
  pub open_loop_accounted :
      (i : Input fl) (s : OpenLoopSummary fl)
      → populate_load_summary fl i requests ≡ ok (open_loop_load s)
      → (o : OpenLoopInput fl) × (arrivals : List ArrivalRecord) × (i.load.open_loop_input ≡ some o)
        × (measured_arrivals i.arrivals ≡ ok arrivals)
        × Accounts i.measurement o arrivals s
  unfolding populate_load_summary
  open_loop_accounted i s h =
      let (arrivals, k, found) = >>=-ok (measured_arrivals i.arrivals) _ h in
      let (o, e, a) = of_mode i arrivals s i.load.mode found in (o, arrivals, e, k, a)
