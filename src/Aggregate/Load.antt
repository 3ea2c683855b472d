-- ===== src/Aggregate/Load.antt =====
-- `populateLoadSummary` of internal/aggregate/calculate.go: the load of a run and, for an open loop,
-- the accounting of its arrivals. The map of requests by sequence keeps the last request of a
-- sequence; the map of seen sequences is a list.
pub mod Accounting
use llm_serving_performance.Prelude.Int.{negsuc, ℤ, pos, ltb_ℤ, leb_ℤ, eqb_ℤ}
use llm_serving_performance.Prelude.{
  ◌%◌, ◌/◌, ℕ, suc, ◌+◌, String, Bool, true, false, ◌||◌, ◌&&◌, not, Option, none, some, List, [],
  ◌∷◌, ◌++◌, length, if◌then◌else◌, ◌==◌, ltb,
}
use llm_serving_performance.Prelude.Results.{Result, ok, err, ◌>>=◌, ◌>>◌, refuse_if, wrap_err}
use llm_serving_performance.Floats.{Floats, not_positive}
use llm_serving_performance.Benchmark.Types.{
  LoadMode, closed_loop, open_loop, unset_mode, other_mode, RequestPhase, warmup, measured,
  other_phase, ArrivalDisposition, started, client_limited, scheduler_limited, other_disposition,
}
use llm_serving_performance.Benchmark.Arrivals.{ArrivalRecord, ArrivalCounts}
use llm_serving_performance.Benchmark.Schedule.{ScheduleErr, planned_arrival_count}
use llm_serving_performance.Aggregate.Types.{Request, Ratio, Rate, calculate_ratio, calculate_rate}
use llm_serving_performance.Aggregate.Input.{
  Input, LoadInput, ClosedLoopInput, OpenLoopInput, MeasurementInput,
}
use llm_serving_performance.Aggregate.Selection.{eqb_bytes}

pub data LoadErr : Type 0 where
  bad_arrival_phase bad_closed_evidence bad_closed_numbers : LoadErr
  open_incomplete bad_open_configuration planned_disagrees counts_inconsistent : LoadErr
  arrival_outside duplicate_arrival lacks_evidence negative_lag has_evidence : LoadErr
  bad_disposition dispositions_disagree bad_load_mode : LoadErr
  bad_planned : ScheduleErr → LoadErr

-- The measured arrivals of an input.
unfoldable pub measured_arrivals : List ArrivalRecord → Result LoadErr (List ArrivalRecord)
measured_arrivals [] = ok []
measured_arrivals (a ∷ rest_arrivals) =
    let rest = measured_arrivals rest_arrivals in
    elim a.phase [
      | warmup ↦ rest
      | measured ↦ rest >>= λ found. ok (a ∷ found)
      | other_phase _ ↦ err bad_arrival_phase
    ]

abbrev pub is_absent {ℓ} : {A : Type ℓ} → Option A → Bool
is_absent none = true
is_absent (some a) = false

abbrev pub same_id : Option (List ℕ) → List ℕ → Bool
same_id none expected = false
same_id (some id) expected = eqb_bytes id expected

abbrev pub lag_is_negative : Option ℤ → Bool
lag_is_negative none = false
lag_is_negative (some lag) = ltb_ℤ lag (pos 0)

-- The three counters of the loop over the arrivals, and the sequences it has seen.
pub record Dispositions : Type 0 where
  pub sequences : List ℕ
  pub starts : ℕ
  pub client_limits : ℕ
  pub scheduler_limits : ℕ

abbrev pub seen_arrival : ℕ → List ℕ → Bool
seen_arrival q [] = false
seen_arrival q (s ∷ ss) = (q == s) || seen_arrival q ss

module _ (fl : Floats) where
  open fl use {Float, of_int, add, div}

  abbrev pub request_for : ℕ → List (Request fl) → Option (Request fl)
  request_for q [] = none
  request_for q (r ∷ rs) = elim (request_for q rs) [
    | some found ↦ some found
    | none ↦ if eqb_ℤ (pos q) r.sequence then some r else none
  ]

  abbrev pub no_evidence : Option (Request fl) → ArrivalRecord → Bool
  no_evidence request a =
      is_absent request && (is_absent a.request_id && is_absent a.scheduler_lag_ns)

  abbrev pub start_evidence : Option (Request fl) → ArrivalRecord → Bool
  start_evidence none a = false
  start_evidence (some r) a =
      same_id a.request_id r.metrics.request_id && not (is_absent a.scheduler_lag_ns)

  -- The case of an arrival's disposition, with the request of its sequence.
  unfoldable pub count_disposition :
      Dispositions
      → Option (Request fl)
      → ArrivalRecord
      → ArrivalDisposition
      → Result LoadErr Dispositions
  count_disposition d request a started = do
    refuse_if (not (start_evidence request a)) lacks_evidence
    refuse_if (lag_is_negative a.scheduler_lag_ns) negative_lag
    ok (record d { starts = suc d.starts })
  count_disposition d request a client_limited = do
    refuse_if (not (no_evidence request a)) has_evidence
    ok (record d { client_limits = suc d.client_limits })
  count_disposition d request a scheduler_limited = do
    refuse_if (not (no_evidence request a)) has_evidence
    ok (record d { scheduler_limits = suc d.scheduler_limits })
  count_disposition d request a (other_disposition _) = err bad_disposition

  unfoldable pub count_arrival :
      ℕ → List (Request fl) → Dispositions → ArrivalRecord → Result LoadErr Dispositions
  unfolding count_disposition
  count_arrival planned requests d a = do
    refuse_if ((a.sequence == 0) || ltb planned a.sequence) arrival_outside
    refuse_if (seen_arrival a.sequence d.sequences) duplicate_arrival
    count_disposition (record d { sequences = a.sequence ∷ d.sequences })
        (request_for a.sequence requests) a a.disposition

  unfoldable pub count_arrivals :
      ℕ → List (Request fl) → Dispositions → List ArrivalRecord → Result LoadErr Dispositions
  unfolding count_arrival
  count_arrivals planned requests d [] = ok d
  count_arrivals planned requests d (a ∷ rest_arrivals) =
      count_arrival planned requests d a >>= λ d'. count_arrivals planned requests d' rest_arrivals

  -- The test of the counters against each other, the arrivals and the requests.
  unfoldable pub counts_agree : ArrivalCounts → ℤ → ℕ → ℕ → Bool
  counts_agree c max_in_flight arrivals requests =
      (c.processed == arrivals)
      && ((c.processed == c.started_count + c.client_limited_count + c.scheduler_limited_count)
          && ((c.planned == c.processed + c.unprocessed_due_to_cancellation)
              && ((c.started_count == requests)
                  && (leb_ℤ (pos c.max_observed_in_flight) max_in_flight
                      && not (ltb c.started_count c.max_observed_in_flight)))))

  pub record ClosedLoopSummary : Type 0 where
    pub requested_concurrency : ℤ
    pub worker_count : ℤ
    pub max_observed_active : ℤ

  pub record OpenLoopSummary : Type 0 where
    pub configured_request_rate : Float
    pub admission_window_seconds : Float
    pub max_in_flight : ℤ
    pub planned_arrivals : ℕ
    pub processed_arrivals : ℕ
    pub started_arrivals : ℕ
    pub client_limited_arrivals : ℕ
    pub scheduler_limited_arrivals : ℕ
    pub unprocessed_due_to_cancellation : ℕ
    pub max_observed_in_flight : ℕ
    pub planned_arrival_rate : Rate fl
    pub actual_start_rate : Rate fl
    pub delivery_ratio : Ratio fl
    pub client_limited_ratio : Ratio fl
    pub scheduler_limited_ratio : Ratio fl
    pub cancellation_unprocessed_ratio : Ratio fl

  pub data LoadSummary : Type 0 where
    closed_loop_load : ClosedLoopSummary → LoadSummary
    open_loop_load : OpenLoopSummary → LoadSummary

  -- `Duration.Seconds()` of a duration that is not negative.
  abbrev pub duration_seconds : ℤ → Float
  duration_seconds (pos d) =
      add (of_int (pos (d / 1000000000)))
        (div (of_int (pos (d % 1000000000))) (of_int (pos 1000000000)))
  duration_seconds (negsuc d) = of_int (pos 0)

  abbrev share : ArrivalCounts → ℕ → Ratio fl
  share c n = calculate_ratio fl (pos n) (pos c.planned) "no open-loop arrivals were planned"

  abbrev open_rate : ℕ → Float → Rate fl
  open_rate n window =
      calculate_rate fl (pos n) window "requests/s" "open-loop admission window must be positive"

  unfoldable pub open_summary : OpenLoopInput fl → ArrivalCounts → OpenLoopSummary
  open_summary o c = record {
    configured_request_rate = o.configured_request_rate;
    admission_window_seconds = duration_seconds o.duration;
    max_in_flight = o.max_in_flight;
    planned_arrivals = c.planned;
    processed_arrivals = c.processed;
    started_arrivals = c.started_count;
    client_limited_arrivals = c.client_limited_count;
    scheduler_limited_arrivals = c.scheduler_limited_count;
    unprocessed_due_to_cancellation = c.unprocessed_due_to_cancellation;
    max_observed_in_flight = c.max_observed_in_flight;
    planned_arrival_rate = open_rate c.planned (duration_seconds o.duration);
    actual_start_rate = open_rate c.started_count (duration_seconds o.duration);
    delivery_ratio = share c c.started_count;
    client_limited_ratio = share c c.client_limited_count;
    scheduler_limited_ratio = share c c.scheduler_limited_count;
    cancellation_unprocessed_ratio = share c c.unprocessed_due_to_cancellation;
  }

  -- The closed loop's evidence and numbers.
  unfoldable pub load_closed : Input fl → List ArrivalRecord → Result LoadErr LoadSummary
  load_closed i arrivals = elim i.load.closed_loop_input [
    | none ↦ err bad_closed_evidence
    | some c ↦ do
      refuse_if
          (not (is_absent i.load.open_loop_input)
            || (not (is_absent i.measurement.arrival_counts) || ltb 0 (length arrivals)))
          bad_closed_evidence
      refuse_if
          (leb_ℤ c.requested_concurrency (pos 0)
            || (not (eqb_ℤ c.requested_requests i.measurement.requested)
                || (not (eqb_ℤ i.measurement.requested_concurrency c.requested_concurrency)
                    || (ltb_ℤ i.measurement.worker_count (pos 0)
                        || (ltb_ℤ i.measurement.max_observed_active (pos 0)
                            || ltb_ℤ i.measurement.worker_count
                                i.measurement.max_observed_active)))))
          bad_closed_numbers
      ok (
          closed_loop_load (record {
            requested_concurrency = c.requested_concurrency;
            worker_count = i.measurement.worker_count;
            max_observed_active = i.measurement.max_observed_active;
          }))
  ]

  abbrev pub bad_open : MeasurementInput → OpenLoopInput fl → ArrivalCounts → Bool
  bad_open m o c =
      not_positive fl o.configured_request_rate
      || (leb_ℤ o.duration (pos 0)
          || (leb_ℤ o.max_in_flight (pos 0)
              || (not (eqb_ℤ o.planned_arrivals m.requested)
                  || not (eqb_ℤ (pos c.planned) o.planned_arrivals))))

  -- The configuration of an open loop against the planned arrivals.
  unfoldable pub check_open :
      MeasurementInput → OpenLoopInput fl → ArrivalCounts → Result LoadErr (Unit {0})
  check_open m o c = do
    refuse_if (bad_open m o c) bad_open_configuration
    planned ← wrap_err bad_planned (planned_arrival_count fl o.configured_request_rate o.duration)
    refuse_if (not (eqb_ℤ planned o.planned_arrivals)) planned_disagrees

  abbrev pub no_dispositions : Dispositions
  no_dispositions = record { sequences = []; starts = 0; client_limits = 0; scheduler_limits = 0 }

  abbrev pub dispositions_agree : Dispositions → ArrivalCounts → Bool
  dispositions_agree d c =
      (d.starts == c.started_count)
      && ((d.client_limits == c.client_limited_count)
          && (d.scheduler_limits == c.scheduler_limited_count))

  unfoldable pub load_open :
      MeasurementInput
      → OpenLoopInput fl
      → ArrivalCounts
      → List ArrivalRecord
      → List (Request fl)
      → Result LoadErr LoadSummary
  unfolding check_open counts_agree count_arrivals open_summary
  load_open m o c arrivals requests = do
    check_open m o c
    refuse_if (not (counts_agree c o.max_in_flight (length arrivals) (length requests)))
        counts_inconsistent
    d ← count_arrivals c.planned requests no_dispositions arrivals
    refuse_if (not (dispositions_agree d c)) dispositions_disagree
    ok (open_loop_load (open_summary o c))

  abbrev pub load_open_of :
      Input fl
      → List ArrivalRecord
      → List (Request fl)
      → Option (OpenLoopInput fl)
      → Option ArrivalCounts
      → Result LoadErr LoadSummary
  load_open_of i arrivals requests (some o) (some c) =
      if is_absent i.load.closed_loop_input
      then load_open i.measurement o c arrivals requests
      else err open_incomplete
  load_open_of i arrivals requests _ _ = err open_incomplete

  unfoldable pub load_of_mode :
      LoadMode → Input fl → List ArrivalRecord → List (Request fl) → Result LoadErr LoadSummary
  unfolding load_closed load_open
  load_of_mode closed_loop i arrivals requests = load_closed i arrivals
  load_of_mode open_loop i arrivals requests =
      load_open_of i arrivals requests i.load.open_loop_input i.measurement.arrival_counts
  load_of_mode _ i arrivals requests = err bad_load_mode

  -- With the measured requests of the selection.
  unfoldable pub populate_load_summary : Input fl → List (Request fl) → Result LoadErr LoadSummary
  unfolding measured_arrivals load_of_mode
  populate_load_summary i requests = do
    arrivals ← measured_arrivals i.arrivals
    load_of_mode i.load.mode i arrivals requests
