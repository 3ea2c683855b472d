-- ===== src/Benchmark/OpenLoop/Placed.antt =====
-- Where the main goroutine of the open-loop machine is.
use llm_serving_performance.Prelude.{
  Bool-cases, List, inl, inr, refl, ◌&&◌, ◌∷◌, [], Bool, arith, false, length, true, ℕ, ◌+◌, ◌≡◌,
  ◌≤◌,
}
use llm_serving_performance.Benchmark.OpenLoop.Step.{arrive, is_empty, join, MainAction, main_step}
use llm_serving_performance.Benchmark.OpenLoop.Defs.{
  Main, OpenPlan, OpenState, at_deadline, closing, draining, ended, joining, left, scheduling,
}
use llm_serving_performance.Benchmark.Arrivals.{CompletedRequest}

abbrev pub is_past : Main → Bool
is_past draining = true
is_past joining = true
is_past ended = true
is_past _ = false

abbrev pub is_ended : Main → Bool
is_ended ended = true
is_ended _ = false

abbrev pub is_scheduling : Main → Bool
is_scheduling (scheduling i offset rest w) = true
is_scheduling _ = false

-- In the loop the index is the number of processed arrivals, and the rest of the schedule follows.
abbrev pub IsPlaced : OpenPlan → Main → ℕ → Type 0
IsPlaced p (scheduling i offset rest w) n = (n ≡ i) × (i + 1 + length rest ≡ length p.schedule)
IsPlaced p _ n = n ≤ length p.schedule

pub IsPlaced-le : (p : OpenPlan) (m : Main) (n : ℕ) → IsPlaced p m n → n ≤ length p.schedule
IsPlaced-le p (scheduling i offset rest w) n h = omega (arith, h.0, h.1)
IsPlaced-le p left n h = h
IsPlaced-le p (at_deadline d w) n h = h
IsPlaced-le p closing n h = h
IsPlaced-le p draining n h = h
IsPlaced-le p joining n h = h
IsPlaced-le p ended n h = h

pub IsPlaced-outside :
    (p : OpenPlan) (m : Main) (n : ℕ)
    → is_scheduling m ≡ false
    → n ≤ length p.schedule
    → IsPlaced p m n
IsPlaced-outside p (scheduling i offset rest w) n e h = cc
IsPlaced-outside p left n e h = h
IsPlaced-outside p (at_deadline d w) n e h = h
IsPlaced-outside p closing n e h = h
IsPlaced-outside p draining n e h = h
IsPlaced-outside p joining n e h = h
IsPlaced-outside p ended n e h = h

-- A step that handles no arrival leaves the pool alone, and the loop is never entered again.
pub main_step-outside :
    (p : OpenPlan) (s : OpenState) (m : Main) (a : MainAction)
    → is_scheduling m ≡ false
    → ((main_step p s m a).pool ≡ s.pool)
      × (s.main ≡ m → is_scheduling (main_step p s m a).main ≡ false)
      × (s.main ≡ m
          → s.launched ≡ is_past m
          → (main_step p s m a).launched ≡ is_past (main_step p s m a).main)
      × (s.launched ≡ true → (main_step p s m a).launched ≡ true)
      × ((main_step p s m a).results_closed ≡ s.results_closed)
unfolding main_step
main_step-outside p s (scheduling i offset rest w) a e = cc
main_step-outside p s left a e =
    (ground arith, ground arith, ground arith, ground arith, ground arith)
main_step-outside p s (at_deadline d w) a e =
    (ground arith, ground arith, ground arith, ground arith, ground arith)
main_step-outside p s closing a e =
    (ground arith, ground arith, ground arith, ground arith, ground arith)
main_step-outside p s draining a e =
    (ground arith, ground arith, ground arith, ground arith, ground arith)
main_step-outside p s joining a e =
    (ground arith, ground arith, ground arith, ground arith, ground arith)
main_step-outside p s ended a e =
    (ground arith, ground arith, ground arith, ground arith, ground arith)

is_empty-nil : (rs : List CompletedRequest) → is_empty rs ≡ true → rs ≡ []
is_empty-nil [] h = refl
is_empty-nil (r ∷ rs) h = cc

-- The phase ends only once the channel is closed and empty.
pub main_step-finished :
    (p : OpenPlan) (s : OpenState) (m : Main) (a : MainAction)
    → s.main ≡ m
    → is_ended m ≡ false
    → is_ended (main_step p s m a).main ≡ true
    → (s.results_closed ≡ true) × (s.pool.results ≡ [])
unfolding main_step arrive
main_step-finished p s (scheduling i offset [] w) a e f h = ground arith
main_step-finished p s (scheduling i offset (x ∷ rest) w) a e f h = ground arith
main_step-finished p s left a e f h = ground arith
main_step-finished p s (at_deadline d w) a e f h = ground arith
main_step-finished p s closing a e f h = ground arith
main_step-finished p s draining a e f h = ground arith
main_step-finished p s joining join e f h =
    elim (Bool-cases (s.results_closed && is_empty s.pool.results)) [
      | inl b ↦ (ground arith, is_empty-nil s.pool.results (ground arith))
      | inr b ↦ ground arith
    ]
main_step-finished p s joining a e f h = ground arith
main_step-finished p s ended a e f h = cc
