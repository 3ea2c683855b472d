-- ===== src/Benchmark/OpenLoop/Invariant.antt =====
-- The invariant of the open-loop machine, and the steps of its main goroutine.
use llm_serving_performance.Benchmark.OpenLoop.Placed.{
  IsPlaced, IsPlaced-le, IsPlaced-outside, is_ended, is_past, is_scheduling, main_step-finished,
  main_step-outside,
}
use mathlib.Core.Path.{subst}
use llm_serving_performance.Prelude.{
  ◌⊎◌, ap, sym, ◌∙◌, ◌≢◌, Bool-cases, List, inl, inr, refl, ◌∷◌, [], arith, false, length, true, ℕ,
  ◌+◌, ◌≡◌,
}
use llm_serving_performance.Benchmark.OpenLoop.Step.{
  deadline_passed, proceed, wait_until, waits, arrive, MainAction, all_done, main_step,
}
use llm_serving_performance.Benchmark.OpenLoop.Slots.{start_request-IsSlotted, IsSlotted}
use llm_serving_performance.Benchmark.OpenLoop.Defs.{
  Pool, next_arrival, returned, Wait, Main, OpenPlan, OpenState, at_deadline, closing, draining,
  ended, joining, left, scheduling,
}
use llm_serving_performance.Benchmark.OpenLoop.Arriving.{
  overdue-IsTallied, start_request-IsTallied, start_request-frame,
}
use llm_serving_performance.Benchmark.OpenLoop.Accounts.{IsTallied}
use llm_serving_performance.Prelude.Int.{◌+ℤ◌, ℤ}

pub record OpenInv (p : OpenPlan) (s : OpenState) : Type 0 where
  pub slotted : IsSlotted p s.pool
  pub tallied : IsTallied p s.pool
  pub placed : IsPlaced p s.main s.pool.processed
  pub past : s.launched ≡ is_past s.main
  pub closed : s.results_closed ≡ true → (s.launched ≡ true) × (all_done s.pool.requests ≡ true)
  pub finished : is_ended s.main ≡ true → (s.results_closed ≡ true) × (s.pool.results ≡ [])

pub next_arrival-facts :
    (p : OpenPlan) (i : ℕ) (rest : List ℤ)
    → i + length rest ≡ length p.schedule
    → IsPlaced p (next_arrival i rest) i
      × (is_past (next_arrival i rest) ≡ false)
      × (is_ended (next_arrival i rest) ≡ false)
next_arrival-facts p i [] h = (omega arith, refl, refl)
next_arrival-facts p i (x ∷ rest) h = ((refl, omega (arith, h)), refl, refl)

-- A state that differs in its place and its pool, before the drain.
before_drain :
    (p : OpenPlan) (s : OpenState) (m : Main) (o : Pool)
    → OpenInv p s
    → is_past s.main ≡ false
    → is_past m ≡ false
    → is_ended m ≡ false
    → IsSlotted p o
    → IsTallied p o
    → IsPlaced p m o.processed
    → OpenInv p (record s { main = m; pool = o })
before_drain p s m o v now later going slotted tallied placed =
    let idle : s.launched ≡ false = v.past ∙ now in
    record {
      slotted = slotted;
      tallied = tallied;
      placed = placed;
      past = idle ∙ sym later;
      closed = λ c. absurd (true-ne-false (sym (v.closed c).0 ∙ idle));
      finished = λ h. absurd (true-ne-false (sym h ∙ going));
    }
  where
    true-ne-false : true ≢ false
    true-ne-false e = cc

arrive-Inv :
    (p : OpenPlan) (s : OpenState) (i : ℕ) (offset : ℤ) (rest : List ℤ) (now : ℤ)
    → s.pool.processed ≡ i
    → i + 1 + length rest ≡ length p.schedule
    → is_past s.main ≡ false
    → OpenInv p s
    → OpenInv p (arrive p s i offset rest now)
unfolding arrive
arrive-Inv p s i offset rest now n whole early v =
    let (placed, before, going) = next_arrival-facts p (i + 1) rest whole in
    let processed = (start_request-frame p s.pool (i + 1) offset).0 in
    elim (Bool-cases (deadline_passed p.deadline now)) [
      | inl e ↦ rw e (
          before_drain p s left _ v early refl refl
            (record {
              slots = v.slotted.slots;
              counted_active = v.slotted.counted_active;
              within = v.slotted.within;
              topped = v.slotted.topped;
            })
            (overdue-IsTallied p s.pool i offset rest n whole v.tallied) (omega arith))
      | inr e ↦ rw e (
          before_drain p s (next_arrival (i + 1) rest) _ v early before going
            (processed-IsSlotted p _ _ (start_request-IsSlotted p s.pool (i + 1) offset v.slotted))
            (start_request-IsTallied p s.pool i offset n v.tallied)
            (subst (IsPlaced p (next_arrival (i + 1) rest)) (sym (ap (λ k. k + 1) (processed ∙ n)))
              placed))
    ]
  where
    processed-IsSlotted :
        (p : OpenPlan) (o : Pool) (k : ℕ) → IsSlotted p o → IsSlotted p (record o { processed = k })
    processed-IsSlotted p o k h = record {
      slots = h.slots;
      counted_active = h.counted_active;
      within = h.within;
      topped = h.topped;
    }

-- Within the loop.
scheduling-Inv :
    (p : OpenPlan) (s : OpenState) (i : ℕ) (offset : ℤ) (rest : List ℤ) (w : Wait) (a : MainAction)
    → s.main ≡ scheduling i offset rest w
    → OpenInv p s
    → OpenInv p (main_step p s (scheduling i offset rest w) a)
unfolding main_step
scheduling-Inv p s i offset rest w (waits a) e v =
    before_drain p s
      (scheduling i offset rest (wait_until s.parent_err (p.started_at +ℤ offset) w a)) s.pool v
      (ap is_past e) refl refl v.slotted v.tallied
      (subst (λ m. IsPlaced p m s.pool.processed) e v.placed)
scheduling-Inv p s i offset rest (returned false) (proceed now) e v =
    before_drain p s left s.pool v (ap is_past e) refl refl v.slotted v.tallied
      (IsPlaced-le p s.main s.pool.processed v.placed)
scheduling-Inv p s i offset rest (returned true) (proceed now) e v =
    let (n, whole) = subst (λ m. IsPlaced p m s.pool.processed) e v.placed in
    arrive-Inv p s i offset rest now n whole (ap is_past e) v
scheduling-Inv p s i offset rest w a e v = v

outside-Inv :
    (p : OpenPlan) (s : OpenState) (m : Main) (a : MainAction)
    → s.main ≡ m
    → is_scheduling m ≡ false
    → OpenInv p s
    → OpenInv p (main_step p s m a)
outside-Inv p s m a e o v =
    let (pool, out, past, kept, closed) = main_step-outside p s m a o in
    record {
      slotted = rw pool v.slotted;
      tallied = rw pool v.tallied;
      placed = rw pool (IsPlaced-outside p _ _ (out e) (IsPlaced-le p s.main _ v.placed));
      past = past e (v.past ∙ ap is_past e);
      closed = λ c.
          let (started, all) = v.closed (sym closed ∙ c) in
          (kept started, ap (λ o. all_done o.requests) pool ∙ all);
      finished = λ h.
          let (shut, nothing) = over h (Bool-cases (is_ended m)) in
          (closed ∙ shut, ap (λ o. o.results) pool ∙ nothing);
    }
  where
    over :
        is_ended (main_step p s m a).main ≡ true
        → (is_ended m ≡ true) ⊎ (is_ended m ≡ false)
        → (s.results_closed ≡ true) × (s.pool.results ≡ [])
    over h (inl b) = v.finished (ap is_ended e ∙ b)
    over h (inr b) = main_step-finished p s m a e b h

pub main_step-Inv :
    (p : OpenPlan) (s : OpenState) (m : Main) (a : MainAction)
    → s.main ≡ m
    → OpenInv p s
    → OpenInv p (main_step p s m a)
main_step-Inv p s (scheduling i offset rest w) a e v = scheduling-Inv p s i offset rest w a e v
main_step-Inv p s left a e v = outside-Inv p s left a e refl v
main_step-Inv p s (at_deadline d w) a e v = outside-Inv p s (at_deadline d w) a e refl v
main_step-Inv p s closing a e v = outside-Inv p s closing a e refl v
main_step-Inv p s draining a e v = outside-Inv p s draining a e refl v
main_step-Inv p s joining a e v = outside-Inv p s joining a e refl v
main_step-Inv p s ended a e v = outside-Inv p s ended a e refl v
