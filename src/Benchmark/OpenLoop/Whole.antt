-- ===== src/Benchmark/OpenLoop/Whole.antt =====
-- What an open-loop phase without an error promises.
use llm_serving_performance.Prelude.{
  Bool-cases, List, [], ap, arith, inl, inr, refl, sym, ℕ, ◌+◌, ◌∙◌, ◌∷◌, Bool, Option, false,
  length, true, ◌≡◌,
}
use llm_serving_performance.Benchmark.OpenLoop.Step.{
  MainAction, arrive, deadline_passed, expire_drain, main_step, parent_seen, proceed, start_drain,
  start_request, waits, WaitAction, wait_until,
}
use llm_serving_performance.Benchmark.OpenLoop.Placed.{is_scheduling, IsPlaced}
use llm_serving_performance.Benchmark.OpenLoop.Defs.{
  ended, blocked, closing, draining, joining, next_arrival, Main, OpenPlan, OpenState, Wait,
  at_deadline, left, looking, returned, scheduling,
}
use llm_serving_performance.Benchmark.ClosedLoop.Step.{is_some_err}
use llm_serving_performance.Prelude.Int.{◌+ℤ◌, ℤ}
use llm_serving_performance.Benchmark.OpenLoop.Invariant.{OpenInv}
use llm_serving_performance.Benchmark.OpenLoop.Arriving.{start_request-frame}
use mathlib.Core.Path.{subst}
use llm_serving_performance.Benchmark.Types.{Err}

abbrev gave_up : Wait → Bool
gave_up (returned false) = true
gave_up _ = false

abbrev pub gives_up : Main → Bool
gives_up (scheduling i offset rest w) = gave_up w
gives_up (at_deadline d w) = gave_up w
gives_up _ = false

abbrev pub is_left : Main → Bool
is_left left = true
is_left _ = false

abbrev pub is_behind : Main → Bool
is_behind (scheduling i offset rest w) = false
is_behind left = false
is_behind _ = true

-- A wait gives up, and the loop stops early, only for a cancelled parent; then the phase reports it.
pub record IsWhole (p : OpenPlan) (s : OpenState) : Type 0 where
  pub cancelled : gives_up s.main ≡ true → is_some_err s.parent_err ≡ true
  pub at_left :
      is_left s.main ≡ true
      → is_some_err s.parent_err ≡ false
      → s.pool.processed ≡ length p.schedule
  pub behind :
      is_behind s.main ≡ true
      → is_some_err s.phase_err ≡ false
      → s.pool.processed ≡ length p.schedule

wait_until-gives_up :
    (parent : Option Err) (target : ℤ) (w : Wait) (a : WaitAction)
    → (gave_up w ≡ true → is_some_err parent ≡ true)
    → gave_up (wait_until parent target w a) ≡ true
    → is_some_err parent ≡ true
unfolding wait_until
wait_until-gives_up parent target looking a h e = ground arith
wait_until-gives_up parent target blocked a h e = ground arith
wait_until-gives_up parent target (returned b) a h e = ground arith

main_step-parent_err :
    (p : OpenPlan) (s : OpenState) (m : Main) (a : MainAction)
    → (main_step p s m a).parent_err ≡ s.parent_err
unfolding main_step arrive parent_seen start_drain expire_drain
main_step-parent_err p s m a = ground arith

waiting-IsWhole :
    (p : OpenPlan) (s : OpenState) (m : Main)
    → is_behind m ≡ is_behind s.main
    → is_left m ≡ false
    → (gives_up m ≡ true → is_some_err s.parent_err ≡ true)
    → IsWhole p s
    → IsWhole p (record s { main = m })
waiting-IsWhole p s m e l g v = record {
  cancelled = g;
  at_left = λ h. ground arith;
  behind = λ h. v.behind (sym e ∙ h);
}

arrive-IsWhole :
    (p : OpenPlan) (s : OpenState) (i : ℕ) (offset : ℤ) (rest : List ℤ) (now : ℤ)
    → s.pool.processed ≡ i
    → i + 1 + length rest ≡ length p.schedule
    → IsWhole p (arrive p s i offset rest now)
unfolding arrive
arrive-IsWhole p s i offset rest now n whole = elim (Bool-cases (deadline_passed p.deadline now)) [
  | inl e ↦ rw e (record { cancelled = λ h. cc; at_left = λ h g. refl; behind = λ h. cc })
  | inr e ↦ rw e (next rest whole)
]
  where
    next :
        (l : List ℤ)
        → i + 1 + length l ≡ length p.schedule
        → let o = start_request p s.pool (i + 1) offset in
          IsWhole p (record s {
            main = next_arrival (i + 1) l;
            pool = record o { processed = o.processed + 1 };
          })
    next [] e = record {
      cancelled = λ h. cc;
      at_left = λ h g. omega (arith, (start_request-frame p s.pool (i + 1) offset).0, n, e);
      behind = λ h. cc;
    }
    next (x ∷ l) e = record { cancelled = λ h. cc; at_left = λ h. cc; behind = λ h. cc }

-- Behind the loop.
outside-whole :
    (p : OpenPlan) (s : OpenState) (m : Main) (a : MainAction)
    → is_scheduling m ≡ false
    → s.main ≡ m
    → (gives_up m ≡ true → is_some_err s.parent_err ≡ true)
    → (is_left m ≡ true → is_some_err s.parent_err ≡ false → s.pool.processed ≡ length p.schedule)
    → (is_behind m ≡ true → is_some_err s.phase_err ≡ false → s.pool.processed ≡ length p.schedule)
    → let t = main_step p s m a in
      (gives_up t.main ≡ true → is_some_err t.parent_err ≡ true)
      × (is_left t.main ≡ true
          → is_some_err t.parent_err ≡ false
          → t.pool.processed ≡ length p.schedule)
      × (is_behind t.main ≡ true
          → is_some_err t.phase_err ≡ false
          → t.pool.processed ≡ length p.schedule)
unfolding main_step parent_seen start_drain expire_drain
outside-whole p s (scheduling i offset rest w) a o e c l b = cc
outside-whole p s left a o e c l b = (ground arith, ground arith, ground arith)
outside-whole p s (at_deadline d w) (waits a) o e c l b =
    (wait_until-gives_up s.parent_err d w a c, ground arith, ground arith)
outside-whole p s (at_deadline d w) a o e c l b = (ground arith, ground arith, ground arith)
outside-whole p s closing a o e c l b = (ground arith, ground arith, ground arith)
outside-whole p s draining a o e c l b = (ground arith, ground arith, ground arith)
outside-whole p s joining a o e c l b = (ground arith, ground arith, ground arith)
outside-whole p s ended a o e c l b = (ground arith, ground arith, ground arith)

outside-IsWhole :
    (p : OpenPlan) (s : OpenState) (m : Main) (a : MainAction)
    → is_scheduling m ≡ false
    → s.main ≡ m
    → IsWhole p s
    → IsWhole p (main_step p s m a)
outside-IsWhole p s m a o e h =
    let (cancelled, at_left, behind) =
      outside-whole p s m a o e (λ g. h.cancelled (ap gives_up e ∙ g))
        (λ g. h.at_left (ap is_left e ∙ g)) (λ g. h.behind (ap is_behind e ∙ g)) in
    record { cancelled = cancelled; at_left = at_left; behind = behind }

pub main_step-IsWhole :
    (p : OpenPlan) (s : OpenState) (m : Main) (a : MainAction)
    → s.main ≡ m
    → OpenInv p s
    → IsWhole p s
    → IsWhole p (main_step p s m a)
unfolding main_step
main_step-IsWhole p s (scheduling i offset rest w) (waits a) e v h =
    waiting-IsWhole p s
      (scheduling i offset rest (wait_until s.parent_err (p.started_at +ℤ offset) w a))
      (ap is_behind (sym e)) refl
      (wait_until-gives_up s.parent_err (p.started_at +ℤ offset) w a
        (λ g. h.cancelled (ap gives_up e ∙ g)))
      h
main_step-IsWhole p s (scheduling i offset rest (returned false)) (proceed now) e v h = record {
  cancelled = λ g. cc;
  at_left = λ g f. absurd (clash (h.cancelled (ap gives_up e)) f);
  behind = λ g. cc;
}
  where
    clash : {b : Bool} → b ≡ true → b ≡ false → ⊥
    clash t f = cc
main_step-IsWhole p s (scheduling i offset rest (returned true)) (proceed now) e v h =
    let (n, whole) = subst (λ m. IsPlaced p m s.pool.processed) e v.placed in
    arrive-IsWhole p s i offset rest now n whole
main_step-IsWhole p s (scheduling i offset rest w) a e v h = h
main_step-IsWhole p s left a e v h = outside-IsWhole p s left a refl e h
main_step-IsWhole p s (at_deadline d w) a e v h = outside-IsWhole p s (at_deadline d w) a refl e h
main_step-IsWhole p s closing a e v h = outside-IsWhole p s closing a refl e h
main_step-IsWhole p s draining a e v h = outside-IsWhole p s draining a refl e h
main_step-IsWhole p s joining a e v h = outside-IsWhole p s joining a refl e h
main_step-IsWhole p s ended a e v h = outside-IsWhole p s ended a refl e h
