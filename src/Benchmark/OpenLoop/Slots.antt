-- ===== src/Benchmark/OpenLoop/Slots.antt =====
-- The slots of the semaphore and the number of active requests.
use llm_serving_performance.Prelude.{
  ltb→lt, ltb, ◌<◌, ℕ, ◌≤◌, ◌≡◌, some, none, inl, inr, List, [], ◌∷◌, get_elem?, arith, Option,
  Bool-cases,
}
use llm_serving_performance.Prelude.Int.{pos, ℤ}
use llm_serving_performance.Benchmark.OpenLoop.Step.{
  answer, classify, deactivate, launch_of, release, request_result, send, request_at, start_request,
  launch, request_step, RequestAction,
}
use llm_serving_performance.Benchmark.OpenLoop.Defs.{
  answered, counted, done, in_runner, sending, slot_held, OpenState, Pool, OpenPlan, Request,
}
use llm_serving_performance.Benchmark.OpenLoop.Count.{has_slot, is_active}
use llm_serving_performance.Benchmark.Ids.{phase_request_id}
use llm_serving_performance.Prelude.Sums.{sum_by, sum_by-set, sum_by-append}

-- The semaphore and the counter tell how many requests hold a slot and are active.
pub record IsSlotted (p : OpenPlan) (o : Pool) : Type 0 where
  pub slots : o.semaphore ≡ sum_by has_slot o.requests
  pub counted_active : o.active ≡ sum_by is_active o.requests
  pub within : o.semaphore ≤ p.max_in_flight
  pub topped : o.max_active ≤ p.max_in_flight

pub sum_by-active-le-slots : (rs : List Request) → sum_by is_active rs ≤ sum_by has_slot rs
unfolding sum_by
sum_by-active-le-slots [] = omega arith
sum_by-active-le-slots (r ∷ rs) = ground (arith, sum_by-active-le-slots rs)

pub active-le-in_flight : (p : OpenPlan) (o : Pool) → IsSlotted p o → o.active ≤ p.max_in_flight
active-le-in_flight p o v =
    omega (arith, v.slots, v.counted_active, v.within, sum_by-active-le-slots o.requests)

request_step-slots :
    (p : OpenPlan) (s : OpenState) (o : Pool) (i : ℕ) (r : Request) (a : RequestAction)
    → get_elem? o.requests i ≡ some r
    → IsSlotted p o
    → let t = request_step p s o i r a in
      (t.semaphore ≡ sum_by has_slot t.requests)
      × (t.active ≡ sum_by is_active t.requests)
      × (t.semaphore ≤ p.max_in_flight)
      × (t.max_active ≤ p.max_in_flight)
unfolding request_step
request_step-slots p s o i (in_runner l) (answer err late actual) h v = ground (
  arith,
  sum_by-set has_slot o.requests i (in_runner l) (answered l err late actual) h,
  sum_by-set is_active o.requests i (in_runner l) (answered l err late actual) h,
  v.slots,
  v.counted_active,
  v.within,
  v.topped,
)
request_step-slots p s o i (answered l err late actual) classify h v = ground (
  arith,
  sum_by-set has_slot o.requests i (answered l err late actual)
      (counted (request_result p s l err late actual)) h,
  sum_by-set is_active o.requests i (answered l err late actual)
      (counted (request_result p s l err late actual)) h,
  v.slots,
  v.counted_active,
  v.within,
  v.topped,
)
request_step-slots p s o i (counted r) deactivate h v = ground (
  arith,
  sum_by-set has_slot o.requests i (counted r) (slot_held r) h,
  sum_by-set is_active o.requests i (counted r) (slot_held r) h,
  v.slots,
  v.counted_active,
  v.within,
  v.topped,
)
request_step-slots p s o i (slot_held r) release h v = ground (
  arith,
  sum_by-set has_slot o.requests i (slot_held r) (sending r) h,
  sum_by-set is_active o.requests i (slot_held r) (sending r) h,
  v.slots,
  v.counted_active,
  v.within,
  v.topped,
)
request_step-slots p s o i (sending r) send h v = ground (
  arith,
  sum_by-set has_slot o.requests i (sending r) done h,
  sum_by-set is_active o.requests i (sending r) done h,
  v.slots,
  v.counted_active,
  v.within,
  v.topped,
)
request_step-slots p s o i r a h v = (v.slots, v.counted_active, v.within, v.topped)

pub request_at-IsSlotted :
    (p : OpenPlan) (s : OpenState) (o : Pool) (i : ℕ) (a : RequestAction) (r : Option Request)
    → get_elem? o.requests i ≡ r
    → IsSlotted p o
    → IsSlotted p (request_at p s o i a r)
request_at-IsSlotted p s o i a none h v = v
request_at-IsSlotted p s o i a (some r) h v =
    let (slots, active, within, topped) = request_step-slots p s o i r a h v in
    record { slots = slots; counted_active = active; within = within; topped = topped }

launch-IsSlotted :
    (p : OpenPlan) (o : Pool) (q : ℕ) (offset : ℤ) (id : Option (List ℕ))
    → o.semaphore < p.max_in_flight
    → IsSlotted p o
    → IsSlotted p (launch p o q offset id)
unfolding launch
launch-IsSlotted p o q offset none h v = v
launch-IsSlotted p o q offset (some id) h v = record {
  slots =
      omega
        (arith, sum_by-append has_slot o.requests (in_runner (launch_of p q offset id)), v.slots);
  counted_active = omega (
    arith,
    sum_by-append is_active o.requests (in_runner (launch_of p q offset id)),
    v.counted_active,
  );
  within = omega (arith, h);
  topped = ground (
    arith,
    v.topped,
    active-le-in_flight p o v,
    sum_by-active-le-slots o.requests,
    v.slots,
    v.counted_active,
    h,
  );
}

pub start_request-IsSlotted :
    (p : OpenPlan) (o : Pool) (q : ℕ) (offset : ℤ)
    → IsSlotted p o
    → IsSlotted p (start_request p o q offset)
unfolding start_request
start_request-IsSlotted p o q offset v = elim (Bool-cases (ltb o.semaphore p.max_in_flight)) [
  | inl e ↦ rw e (launch-IsSlotted p o q offset (phase_request_id p.phase (pos q)) (ltb→lt _ _ e) v)
  | inr e ↦ rw e (record {
    slots = v.slots;
    counted_active = v.counted_active;
    within = v.within;
    topped = v.topped;
  })
]
