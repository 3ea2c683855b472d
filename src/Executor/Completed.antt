-- ===== src/Executor/Completed.antt =====
-- When `classifyRun` calls a run completed, with the metadata that `Execute` gives it.
use llm_serving_performance.Benchmark.Outcomes.{failed}
use llm_serving_performance.Prelude.{
  Bool, Option, String, arith, false, if◌then◌else◌, length, ltb, none, not, refl, some, sym, true,
  ℕ, ◌&&◌, ◌==◌, ◌||◌, ◌↔◌, ◌∙◌, ◌≡◌,
}
use llm_serving_performance.Executor.Classify.{
  PhaseMetadata, RunError, RunStatus, classify_run, is_open_loop, lifecycle_error, load_limited,
  phase_metadata, run_cancelled, run_completed, run_failed,
}
use llm_serving_performance.Benchmark.Types.{
  Err, LoadMode, closed_loop, is_canceled, is_closed_loop, is_drain_timeout, open_loop, other_mode,
  unset_mode,
}
use llm_serving_performance.Benchmark.Coordinator.{LifecycleResult}
use llm_serving_performance.Benchmark.Arrivals.{ArrivalCounts, PhaseResult}

-- The last phases of a run are free of drops unless the parent was cancelled.
abbrev pub NoDrops : Bool → ArrivalCounts → Type 0
NoDrops true c = Unit {0}
NoDrops false c = (c.client_limited_count ≡ 0) × (c.scheduler_limited_count ≡ 0)

abbrev pub HasDelivered : LoadMode → LifecycleResult → Type 0
HasDelivered closed_loop r =
    (length r.warmup.completed ≡ r.warmup.requested_requests)
    × (length r.measurement.completed ≡ r.measurement.requested_requests)
HasDelivered open_loop r = NoDrops r.drain_result.parent_cancelled r.measurement.arrival_counts
HasDelivered _ r = Unit {0}

-- What a completed run has delivered.
pub record IsDelivered (r : LifecycleResult) (error : Option Err) : Type 0 where
  pub no_error : error ≡ none
  pub warmup_clean : failed r.warmup.outcomes ≡ 0
  pub measurement_clean : failed r.measurement.outcomes ≡ 0
  pub delivered : HasDelivered r.load_mode r

abbrev pub status_of : LifecycleResult → Option Err → RunStatus
status_of r e = (classify_run r e (phase_metadata r.warmup) (phase_metadata r.measurement)).0

abbrev ladder :
    Bool → Bool → Bool → Bool → (x y z w v : RunError × String) → RunStatus × (RunError × String)
ladder a b c d x y z w v =
    if a
    then (run_failed, x)
    else if b
    then (run_failed, y)
    else if c
    then (run_failed, z)
    else if d
    then (run_failed, w)
    else (run_completed, v)

ladder_lem :
    (a b c d : Bool) (x y z w v : RunError × String)
    → ((ladder a b c d x y z w v).0 ≡ run_completed)
      ↔ ((a ≡ false) × ((b ≡ false) × ((c ≡ false) × (d ≡ false))))
ladder_lem true b c d x y z w v = (λ h. cc, λ (h, _). cc)
ladder_lem false true c d x y z w v = (λ h. cc, λ (_, (h, _)). cc)
ladder_lem false false true d x y z w v = (λ h. cc, λ (_, (_, (h, _))). cc)
ladder_lem false false false true x y z w v = (λ h. cc, λ (_, (_, (_, h))). cc)
ladder_lem false false false false x y z w v = (λ h. (refl, (refl, (refl, refl))), λ h. refl)

no_drops :
    (cancelled : Bool) (c : ArrivalCounts)
    → ((not cancelled && (ltb 0 c.client_limited_count || ltb 0 c.scheduler_limited_count)) ≡ false)
      ↔ NoDrops cancelled c
no_drops true c = (λ h. tt, λ h. refl)
no_drops false c = (λ h. (ground arith, ground arith), λ (a, b). ground arith)

all_attempted : (a b c d : ℕ) → ((not (a == b) || not (c == d)) ≡ false) ↔ ((a ≡ b) × (c ≡ d))
all_attempted a b c d = (λ h. (ground arith, ground arith), λ (p, q). ground arith)

-- The two tests on the load stand for what a run has delivered.
load_tests :
    (m : LoadMode) (r : LifecycleResult)
    → (((is_open_loop m
            && (not r.drain_result.parent_cancelled
                && (ltb 0 r.measurement.arrival_counts.client_limited_count
                    || ltb 0 r.measurement.arrival_counts.scheduler_limited_count)))
          ≡ false)
        × ((is_closed_loop m
              && (not (length r.warmup.completed == r.warmup.requested_requests)
                  || not (length r.measurement.completed == r.measurement.requested_requests)))
            ≡ false))
      ↔ HasDelivered m r
load_tests closed_loop r =
    let (there, back) = all_attempted _ _ _ _ in (λ h. there h.1, λ h. (refl, back h))
load_tests open_loop r =
    let (there, back) = no_drops r.drain_result.parent_cancelled r.measurement.arrival_counts in
    (λ h. there h.0, λ h. (back h, refl))
load_tests unset_mode r = (λ h. tt, λ h. (refl, refl))
load_tests (other_mode s) r = (λ h. tt, λ h. (refl, refl))

chosen :
    (b : Bool) (x y : PhaseMetadata) (f : PhaseMetadata → ℕ) (n : ℕ)
    → f x ≡ n
    → f y ≡ n
    → f (if b then x else y) ≡ n
chosen true x y f n p q = p
chosen false x y f n p q = q

-- The metadata of a phase has the counts of the phase, whatever its load.
metadata_counts :
    (r : PhaseResult)
    → ((phase_metadata r).failed_requests ≡ failed r.outcomes)
      × (((phase_metadata r).attempted ≡ length r.completed)
          × ((phase_metadata r).requested ≡ r.requested_requests))
unfolding phase_metadata
metadata_counts r =
    let open_mode = is_open_loop r.load_mode in
    (
      chosen open_mode _ _ (λ m. m.failed_requests) _ refl refl,
      (
        chosen open_mode _ _ (λ m. m.attempted) _ refl refl,
        chosen open_mode _ _ (λ m. m.requested) _ refl refl,
      ),
    )

abbrev falls_short : LoadMode → ℕ → ℕ → ℕ → ℕ → Bool
falls_short m a b c d = is_closed_loop m && (not (a == b) || not (c == d))

same_shortfall :
    (m : LoadMode) (a b c d a1 b1 c1 d1 : ℕ)
    → a ≡ a1
    → b ≡ b1
    → c ≡ c1
    → d ≡ d1
    → falls_short m a b c d ≡ falls_short m a1 b1 c1 d1
same_shortfall m a b c d a1 b1 c1 d1 p q r s = cc

is_none : (n : ℕ) → (ltb 0 n ≡ false) ↔ (n ≡ 0)
is_none n = (λ h. ground arith, λ h. ground arith)

abbrev ended : Bool → RunError × String → RunStatus × (RunError × String)
ended b x = if b then (run_cancelled, x) else (run_failed, x)

ended_lem : (b : Bool) (x : RunError × String) → (ended b x).0 ≡ run_completed → ⊥
ended_lem true x h = cc
ended_lem false x h = cc

-- A run is completed exactly if its lifecycle has ended without an error, no warmup or measured
-- request has failed, a closed loop has completed as many requests of each phase as were asked for,
-- and an open loop whose parent was not cancelled has dropped no arrival of its measurement.
pub completed_iff :
    (r : LifecycleResult) (error : Option Err)
    → (status_of r error ≡ run_completed) ↔ IsDelivered r error
unfolding classify_run
completed_iff r (some e) = (
  λ h. absurd (
      ended_lem
        (is_canceled (some e)
          || (r.drain_result.parent_cancelled && not (is_drain_timeout (some e))))
        (lifecycle_error e, "") h),
  λ h. absurd (some-none h.no_error),
)
  where
    some-none : some e ≡ none → ⊥
    some-none q = cc
completed_iff r none =
    let w = phase_metadata r.warmup in
    let m = phase_metadata r.measurement in
    let (w_failed, (w_attempted, w_requested)) = metadata_counts r.warmup in
    let (m_failed, (m_attempted, m_requested)) = metadata_counts r.measurement in
    let (there, back) =
      ladder_lem (load_limited r) (ltb 0 w.failed_requests) (ltb 0 m.failed_requests)
        (falls_short r.load_mode w.attempted w.requested m.attempted m.requested) _ _ _ _ _ in
    let same_test =
      same_shortfall r.load_mode _ _ _ _ _ _ _ _ w_attempted w_requested m_attempted m_requested in
    let (loads, unloads) = load_tests r.load_mode r in
    (
      λ h.
          let (a, (b, (c, d))) = there h in
          record {
            no_error = refl;
            warmup_clean = sym w_failed ∙ (is_none _).0 b;
            measurement_clean = sym m_failed ∙ (is_none _).0 c;
            delivered = loads (a, sym same_test ∙ d);
          },
      λ h.
          let (a, d) = unloads h.delivered in
          back (
            a,
            (
              (is_none _).1 (w_failed ∙ h.warmup_clean),
              ((is_none _).1 (m_failed ∙ h.measurement_clean), same_test ∙ d),
            ),
          ),
    )
