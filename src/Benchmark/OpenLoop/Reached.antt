-- ===== src/Benchmark/OpenLoop/Reached.antt =====
-- Every step of the open-loop machine preserves the invariant.
use llm_serving_performance.Benchmark.OpenLoop.Placed.{IsPlaced}
use llm_serving_performance.Benchmark.OpenLoop.Invariant.{
  OpenInv, main_step-Inv, next_arrival-facts,
}
use llm_serving_performance.Prelude.Sums.{sum_by}
use mathlib.Core.Path.{subst}
use llm_serving_performance.Benchmark.Outcomes.{total}
use llm_serving_performance.Prelude.{
  Option, get_elem?, none, some, suc, zero, ap, sym, ◌∙◌, ◌≢◌, Bool-cases, List, inl, inr, refl,
  ◌&&◌, ◌∷◌, [], arith, false, true, ℕ, ◌≡◌,
}
use llm_serving_performance.Benchmark.Types.{Err}
use llm_serving_performance.Benchmark.OpenLoop.Step.{
  OpenAction, RequestAction, cancel_parent, close_results, collect, collect_result, open_run,
  open_step, request, request_at, request_step, schedule_step, all_done,
}
use llm_serving_performance.Benchmark.OpenLoop.Slots.{request_at-IsSlotted, IsSlotted}
use llm_serving_performance.Benchmark.OpenLoop.Defs.{
  Request, done, open_initial, Pool, OpenPlan, OpenState,
}
use llm_serving_performance.Benchmark.OpenLoop.Count.{arrival_occupancy}
use llm_serving_performance.Benchmark.OpenLoop.Arriving.{collect_result-IsTallied}
use llm_serving_performance.Benchmark.OpenLoop.Accounts.{
  request_at-IsTallied, request_step-frame, IsTallied,
}
use llm_serving_performance.Benchmark.Coordinator.{Coordinator}
use llm_serving_performance.Benchmark.Arrivals.{CompletedRequest}

-- A goroutine of a request that is done stays done.
all_done-get_elem? :
    (rs : List Request) (i : ℕ) (r : Request)
    → all_done rs ≡ true
    → get_elem? rs i ≡ some r
    → r ≡ done
all_done-get_elem? [] i r h e = cc
all_done-get_elem? (done ∷ rs) zero r h e = cc
all_done-get_elem? (done ∷ rs) (suc i) r h e = all_done-get_elem? rs i r h e
all_done-get_elem? (x ∷ rs) i r h e = cc

request_at-done :
    (p : OpenPlan) (s : OpenState) (o : Pool) (i : ℕ) (a : RequestAction) (r : Option Request)
    → get_elem? o.requests i ≡ r
    → all_done o.requests ≡ true
    → request_at p s o i a r ≡ o
unfolding request_step
request_at-done p s o i a none e h = refl
request_at-done p s o i a (some r) e h =
    ap (λ x. request_step p s o i x a) (all_done-get_elem? o.requests i r h e)

pub request_at-placed :
    (p : OpenPlan) (s : OpenState) (o : Pool) (i : ℕ) (a : RequestAction) (r : Option Request)
    → (request_at p s o i a r).processed ≡ o.processed
request_at-placed p s o i a none = refl
request_at-placed p s o i a (some r) = (request_step-frame p s o i r a).1

-- Only the channel's content can change it once the channel is closed.
pool-Inv :
    (p : OpenPlan) (s : OpenState) (o : Pool)
    → OpenInv p s
    → IsSlotted p o
    → IsTallied p o
    → o.processed ≡ s.pool.processed
    → (all_done s.pool.requests ≡ true → all_done o.requests ≡ true)
    → (all_done s.pool.requests ≡ true → s.pool.results ≡ [] → o.results ≡ [])
    → OpenInv p (record s { pool = o })
pool-Inv p s o v slotted tallied n all nothing = record {
  slotted = slotted;
  tallied = tallied;
  placed = subst (IsPlaced p s.main) (sym n) v.placed;
  past = v.past;
  closed = λ c. let (started, every) = v.closed c in (started, all every);
  finished = λ h. let (shut, empty) = v.finished h in (shut, nothing (v.closed shut).1 empty);
}

pub collect_result-kept :
    (o : Pool) (rs : List CompletedRequest)
    → ((collect_result o rs).processed ≡ o.processed)
      × ((collect_result o rs).requests ≡ o.requests)
      × ((collect_result o rs).semaphore ≡ o.semaphore)
      × ((collect_result o rs).active ≡ o.active)
      × ((collect_result o rs).max_active ≡ o.max_active)
      × (rs ≡ [] → (collect_result o rs).results ≡ o.results)
unfolding collect_result
collect_result-kept o [] = (refl, refl, refl, refl, refl, λ e. refl)
collect_result-kept o (r ∷ rest) = (refl, refl, refl, refl, refl, λ e. cc)

collect-Inv : (p : OpenPlan) (s : OpenState) → OpenInv p s → OpenInv p (open_step p s collect)
unfolding open_step
collect-Inv p s v =
    let (n, requests, semaphore, active, max_active, results) =
      collect_result-kept s.pool s.pool.results in
    pool-Inv p s (collect_result s.pool s.pool.results) v
      (record {
        slots = rw (semaphore, requests) v.slotted.slots;
        counted_active = rw (active, requests) v.slotted.counted_active;
        within = rw semaphore v.slotted.within;
        topped = rw max_active v.slotted.topped;
      })
      (collect_result-IsTallied p s.pool s.pool.results refl v.tallied) n
      (λ h. ap all_done requests ∙ h) (λ h e. results e ∙ e)

request-Inv :
    (p : OpenPlan) (s : OpenState) (i : ℕ) (a : RequestAction)
    → OpenInv p s
    → OpenInv p (open_step p s (request i a))
unfolding open_step
request-Inv p s i a v =
    let r : Option Request = get_elem? s.pool.requests i in
    pool-Inv p s (request_at p s s.pool i a r) v
      (request_at-IsSlotted p s s.pool i a r refl v.slotted)
      (request_at-IsTallied p s s.pool i a r refl v.tallied) (request_at-placed p s s.pool i a r)
      (λ h. ap (λ o. all_done o.requests) (request_at-done p s s.pool i a r refl h) ∙ h)
      (λ h e. ap (λ o. o.results) (request_at-done p s s.pool i a r refl h) ∙ e)

close-Inv : (p : OpenPlan) (s : OpenState) → OpenInv p s → OpenInv p (open_step p s close_results)
unfolding open_step
close-Inv p s v = elim (Bool-cases (s.launched && all_done s.pool.requests)) [
  | inl e ↦ rw e (record {
    slotted = v.slotted;
    tallied = v.tallied;
    placed = v.placed;
    past = v.past;
    closed = λ c. (ground arith, ground arith);
    finished = λ h. (refl, (v.finished h).1);
  })
  | inr e ↦ rw e v
]

cancel_parent-Inv :
    (p : OpenPlan) (s : OpenState) (e : Err)
    → OpenInv p s
    → OpenInv p (open_step p s (cancel_parent e))
unfolding open_step
cancel_parent-Inv p s e v = record {
  slotted = v.slotted;
  tallied = v.tallied;
  placed = v.placed;
  past = v.past;
  closed = v.closed;
  finished = v.finished;
}

pub open_step-Inv :
    (p : OpenPlan) (s : OpenState) (a : OpenAction) → OpenInv p s → OpenInv p (open_step p s a)
unfolding open_step
open_step-Inv p s (schedule_step a) v = main_step-Inv p s s.main a refl v
open_step-Inv p s (request i a) v = request-Inv p s i a v
open_step-Inv p s collect v = collect-Inv p s v
open_step-Inv p s close_results v = close-Inv p s v
open_step-Inv p s (cancel_parent e) v = cancel_parent-Inv p s e v

pub open_run-Inv :
    (p : OpenPlan) (s : OpenState) (steps : List OpenAction)
    → OpenInv p s
    → OpenInv p (open_run p s steps)
unfolding open_run
open_run-Inv p s [] v = v
open_run-Inv p s (a ∷ rest) v = open_run-Inv p (open_step p s a) rest (open_step-Inv p s a v)

pub open_initial-Inv :
    (p : OpenPlan) (c : Coordinator) (parent : Option Err) → OpenInv p (open_initial p c parent)
unfolding open_initial arrival_occupancy sum_by total
open_initial-Inv p c parent =
    let (placed, early, going) = next_arrival-facts p 0 p.schedule (omega arith) in
    record {
      slotted = record {
        slots = refl;
        counted_active = refl;
        within = omega arith;
        topped = omega arith;
      };
      tallied = record {
        once = λ q. ground arith;
        balanced = refl;
        limited = refl;
        gathered = λ q. refl;
        all_started = refl;
        one_each = refl;
        recorded = refl;
        sound = refl;
      };
      placed = placed;
      past = sym early;
      closed = λ c. cc;
      finished = λ h. absurd (true-ne-false (sym h ∙ going));
    }
  where
    true-ne-false : true ≢ false
    true-ne-false e = cc

-- Every state that the steps reach from the start of the phase satisfies the invariant.
pub open_reached-Inv :
    (p : OpenPlan) (c : Coordinator) (parent : Option Err) (steps : List OpenAction)
    → OpenInv p (open_run p (open_initial p c parent) steps)
open_reached-Inv p c parent steps =
    open_run-Inv p (open_initial p c parent) steps (open_initial-Inv p c parent)
