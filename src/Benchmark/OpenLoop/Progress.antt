-- ===== src/Benchmark/OpenLoop/Progress.antt =====
-- No reachable state of the open-loop machine is stuck: some steps lead to the end of the phase.
use llm_serving_performance.Prelude.Sums.{sum_by-set, sum_by, sum_by-append}
use llm_serving_performance.Prelude.{
  get_elem?, length-append, none, not, some, suc, sym, zero, ◌∙◌, ◌⊎◌, Bool, Bool-cases, List,
  Option, Option-cases, [], ap, arith, false, inl, inr, length, refl, true, ℕ, ◌*◌, ◌+◌, ◌<◌, ◌∷◌,
  ◌≡◌, ◌≢◌, ◌≤◌,
}
use llm_serving_performance.Benchmark.OpenLoop.Step.{
  RequestAction, all_done, answer, classify, close_results, collect, collect_result, deactivate,
  join, open_run, release, request, request_at, request_result, request_step, schedule_step, send,
  MainAction, OpenAction, arrive, deadline_passed, launch, launch_of, look, main_step, open_step,
  proceed, start_request, timer_fires, wait_until, waits, wake,
}
use llm_serving_performance.Benchmark.OpenLoop.Reached.{open_reached-Inv, open_step-Inv}
use llm_serving_performance.Benchmark.OpenLoop.Placed.{is_past, is_ended}
use llm_serving_performance.Benchmark.OpenLoop.Invariant.{OpenInv}
use llm_serving_performance.Benchmark.OpenLoop.Defs.{
  open_initial, Main, OpenPlan, OpenState, Pool, Request, Wait, answered, at_deadline, blocked,
  closing, counted, done, draining, ended, in_runner, joining, left, looking, next_arrival,
  returned, scheduling, sending, slot_held,
}
use llm_serving_performance.Benchmark.OpenLoop.Count.{in_hand}
use llm_serving_performance.Benchmark.Coordinator.{Coordinator}
use llm_serving_performance.Benchmark.ClosedLoop.Step.{is_some_err}
use llm_serving_performance.Benchmark.Arrivals.{CompletedRequest}
use mathlib.Core.Path.{subst}
use llm_serving_performance.Prelude.Int.{pos, saturate64-sub_self, ℤ, ◌+ℤ◌}
use llm_serving_performance.Benchmark.Types.{Err}
use llm_serving_performance.Benchmark.Ids.{phase_request_id}

abbrev wait_weight : Wait → ℕ
wait_weight looking = 2
wait_weight blocked = 3
wait_weight (returned b) = 1

abbrev main_weight : Main → ℕ
main_weight (scheduling i offset rest w) = 40 + 20 * (1 + length rest) + wait_weight w
main_weight left = 40
main_weight (at_deadline d w) = 20 + wait_weight w
main_weight closing = 10
main_weight draining = 8
main_weight joining = 6
main_weight ended = 0

abbrev request_weight : Request → ℕ
request_weight (in_runner l) = 7
request_weight (answered l error late actual) = 6
request_weight (counted r) = 5
request_weight (slot_held r) = 4
request_weight (sending r) = 3
request_weight done = 0

abbrev open_weight : Bool → ℕ
open_weight true = 0
open_weight false = 1

-- What is left to do.
unfoldable work_left : OpenState → ℕ
work_left s =
    main_weight s.main
    + sum_by request_weight s.pool.requests
    + length s.pool.results
    + open_weight s.results_closed

record Advance (p : OpenPlan) (s : OpenState) : Type 0 where
  step_taken : OpenAction
  less : work_left (open_step p s step_taken) < work_left s

start_request-work :
    (p : OpenPlan) (o : Pool) (q : ℕ) (offset : ℤ)
    → let t = start_request p o q offset in
      (sum_by request_weight t.requests ≤ sum_by request_weight o.requests + 7)
      × (t.results ≡ o.results)
unfolding start_request launch
start_request-work p o q offset = elim (Option-cases (phase_request_id p.phase (pos q))) [
  | inl e ↦ (ground arith, ground arith)
  | inr (id, e) ↦ (
    ground (arith, sum_by-append request_weight o.requests (in_runner (launch_of p q offset id))),
    ground arith,
  )
]

arrive-work :
    (p : OpenPlan) (s : OpenState) (i : ℕ) (offset : ℤ) (rest : List ℤ) (now : ℤ)
    → s.main ≡ scheduling i offset rest (returned true)
    → work_left (arrive p s i offset rest now) < work_left s
unfolding arrive work_left
arrive-work p s i offset rest now e =
    let (grown, same_results) = start_request-work p s.pool (i + 1) offset in
    let weight = ap main_weight e in
    elim (Bool-cases (deadline_passed p.deadline now)) [
      | inl d ↦ rw d (omega (arith, weight))
      | inr d ↦
          rw d (omega (arith, weight, grown, ap length same_results, next_weight (i + 1) rest))
    ]
  where
    next_weight : (k : ℕ) (l : List ℤ) → main_weight (next_arrival k l) ≤ 42 + 20 * length l
    next_weight k [] = omega arith
    next_weight k (x ∷ l) = omega arith

-- The clock's reading at which a wait is over.
wait_until-over :
    (parent : Option Err) (target : ℤ)
    → (b : Bool) × (wait_until parent target looking (look target) ≡ returned b)
unfolding wait_until
wait_until-over parent target = (not (is_some_err parent), rw (saturate64-sub_self target) refl)

-- The main goroutine, in every place but the last receives.
main-Advance :
    (p : OpenPlan) (s : OpenState) (m : Main)
    → s.main ≡ m
    → is_ended m ≡ false
    → m ≢ joining
    → (a : MainAction) × (work_left (main_step p s m a) < work_left s)
unfolding main_step work_left
main-Advance p s (scheduling i offset rest looking) e going n =
    let (b, over) = wait_until-over s.parent_err (p.started_at +ℤ offset) in
    (
      waits (look (p.started_at +ℤ offset)),
      omega (arith, ap main_weight e, ap (λ w. main_weight (scheduling i offset rest w)) over),
    )
main-Advance p s (scheduling i offset rest blocked) e going n =
    (waits wake, omega (arith, ap main_weight e))
main-Advance p s (scheduling i offset rest (returned false)) e going n =
    (proceed p.started_at, omega (arith, ap main_weight e))
main-Advance p s (scheduling i offset rest (returned true)) e going n =
    (proceed p.started_at, arrive-work p s i offset rest p.started_at e)
main-Advance p s left e going n = (proceed p.started_at, ground (arith, ap main_weight e))
main-Advance p s (at_deadline d looking) e going n =
    let (b, over) = wait_until-over s.parent_err d in
    (waits (look d), omega (arith, ap main_weight e, ap (λ w. main_weight (at_deadline d w)) over))
main-Advance p s (at_deadline d blocked) e going n = (waits wake, omega (arith, ap main_weight e))
main-Advance p s (at_deadline d (returned true)) e going n =
    (proceed p.started_at, ground (arith, ap main_weight e))
main-Advance p s (at_deadline d (returned false)) e going n =
    (proceed p.started_at, ground (arith, ap main_weight e))
main-Advance p s closing e going n = (proceed p.started_at, ground (arith, ap main_weight e))
main-Advance p s draining e going n = (timer_fires, ground (arith, ap main_weight e))
main-Advance p s joining e going n = absurd (n refl)
main-Advance p s ended e going n = cc

-- A request that is not done can take its next step, if the channel has room.
request-Advance :
    (p : OpenPlan) (s : OpenState) (o : Pool) (i : ℕ) (r : Request)
    → get_elem? o.requests i ≡ some r
    → in_hand r ≡ 1
    → length o.results < p.max_in_flight
    → (a : RequestAction) × (let t = request_step p s o i r a in
        sum_by request_weight t.requests + length t.results
        < sum_by request_weight o.requests + length o.results)
unfolding request_step
request-Advance p s o i (in_runner l) e h room = (
  answer none false none,
  omega
      (arith, sum_by-set request_weight o.requests i (in_runner l) (answered l none false none) e),
)
request-Advance p s o i (answered l error late actual) e h room = (
  classify,
  omega (
    arith,
    sum_by-set request_weight o.requests i (answered l error late actual)
        (counted (request_result p s l error late actual)) e,
  ),
)
request-Advance p s o i (counted r) e h room =
    (deactivate, omega (arith, sum_by-set request_weight o.requests i (counted r) (slot_held r) e))
request-Advance p s o i (slot_held r) e h room =
    (release, omega (arith, sum_by-set request_weight o.requests i (slot_held r) (sending r) e))
request-Advance p s o i (sending r) e h room = (
  send,
  ground (
    arith,
    sum_by-set request_weight o.requests i (sending r) done e,
    length-append o.results (r ∷ []),
  ),
)
request-Advance p s o i done e h room = cc

unfinished :
    (rs : List Request)
    → all_done rs ≡ false
    → (i : ℕ) × (r : Request) × (get_elem? rs i ≡ some r) × (in_hand r ≡ 1)
unfinished [] h = cc
unfinished (done ∷ rs) h = let (i, r, e, g) = unfinished rs h in (suc i, r, e, g)
unfinished (in_runner l ∷ rs) h = (0, _, refl, refl)
unfinished (answered l error late actual ∷ rs) h = (0, _, refl, refl)
unfinished (counted r ∷ rs) h = (0, _, refl, refl)
unfinished (slot_held r ∷ rs) h = (0, _, refl, refl)
unfinished (sending r ∷ rs) h = (0, _, refl, refl)

collect_result-work :
    (o : Pool) (r : CompletedRequest) (rest : List CompletedRequest)
    → o.results ≡ r ∷ rest
    → let t = collect_result o o.results in
      (sum_by request_weight t.requests ≡ sum_by request_weight o.requests)
      × (length t.results + 1 ≡ length o.results)
unfolding collect_result
collect_result-work o r rest e = (ground arith, ground arith)

-- The last receives: the collector, the requests, the goroutine that closes the channel.
joining-Advance :
    (p : OpenPlan) (s : OpenState)
    → 0 < p.max_in_flight
    → s.main ≡ joining
    → s.launched ≡ true
    → (l : List CompletedRequest) → s.pool.results ≡ l
    → (done_now closed_now : Bool) → all_done s.pool.requests ≡ done_now
    → s.results_closed ≡ closed_now
    → Advance p s
unfolding open_step work_left main_step
joining-Advance p s room e launched (r ∷ rest) l d c de ce =
    let (requests, results) = collect_result-work s.pool r rest l in
    record { step_taken = collect; less = omega (arith, requests, results) }
joining-Advance p s room e launched [] l false c de ce =
    let (i, r, at, h) = unfinished s.pool.requests de in
    let (a, less) = request-Advance p s s.pool i r at h (omega (arith, ap length l, room)) in
    record {
      step_taken = request i a;
      less =
          omega
            (arith, less, ap (λ x. work_left (record s { pool = request_at p s s.pool i a x })) at);
    }
joining-Advance p s room e launched [] l true false de ce = record {
  step_taken = close_results;
  less = ground (arith, ap open_weight ce);
}
joining-Advance p s room e launched [] l true true de ce = record {
  step_taken = schedule_step join;
  less =
      subst (λ m. work_left (main_step p s m join) < work_left s) (sym e)
        (ground (arith, ap main_weight e));
}

is_joining-cases : (m : Main) → (m ≡ joining) ⊎ (m ≢ joining)
is_joining-cases joining = inl refl
is_joining-cases (scheduling i offset rest w) = inr (λ e. cc)
is_joining-cases left = inr (λ e. cc)
is_joining-cases (at_deadline d w) = inr (λ e. cc)
is_joining-cases closing = inr (λ e. cc)
is_joining-cases draining = inr (λ e. cc)
is_joining-cases ended = inr (λ e. cc)

any-Advance :
    (p : OpenPlan) (s : OpenState)
    → 0 < p.max_in_flight
    → OpenInv p s
    → is_ended s.main ≡ false
    → Advance p s
unfolding open_step
any-Advance p s room v going = elim (is_joining-cases s.main) [
  | inl e ↦ joining-Advance p s room e (v.past ∙ ap is_past e) s.pool.results refl _ _ refl refl
  | inr n ↦
      let (a, less) = main-Advance p s s.main refl going n in
      record { step_taken = schedule_step a; less = less }
]

to_the_end :
    (p : OpenPlan) (fuel : ℕ) (s : OpenState)
    → 0 < p.max_in_flight
    → OpenInv p s
    → work_left s < fuel
    → (more : List OpenAction) × (is_ended (open_run p s more).main ≡ true)
unfolding open_run
to_the_end p zero s room v h = elim h [ ]
to_the_end p (suc fuel) s room v h = elim (Bool-cases (is_ended s.main)) [
  | inl over ↦ ([], over)
  | inr going ↦
      let next = any-Advance p s room v going in
      let (more, over) =
        to_the_end p fuel (open_step p s next.step_taken) room (open_step-Inv p s next.step_taken v)
          (omega (arith, next.less, h)) in
      (next.step_taken ∷ more, over)
]

-- With room for one request, the open-loop phase is never stuck: from every state that any steps
-- reach, some further steps lead to the end of the phase.
pub open_loop_can_end :
    (p : OpenPlan) (c : Coordinator) (parent : Option Err) (steps : List OpenAction)
    → 0 < p.max_in_flight
    → (more : List OpenAction) × (is_ended
          (open_run p (open_run p (open_initial p c parent) steps) more).main
        ≡ true)
open_loop_can_end p c parent steps room =
    let s = open_run p (open_initial p c parent) steps in
    to_the_end p (suc (work_left s)) s room (open_reached-Inv p c parent steps) (omega arith)
