-- ===== src/Benchmark/OpenLoop/Ordered.antt =====
-- The order of the arrivals in the result of an open-loop phase.
use llm_serving_performance.Benchmark.ClosedLoop.Count.{same, issued}
use llm_serving_performance.Prelude.Int.{ℤ}
use llm_serving_performance.Prelude.{
  Option, true, ◌++◌, ◌∙◌, Bool-cases, List, [], arith, if◌then◌else◌, inl, inr, leb, ltb, refl,
  suc, zero, ℕ, ◌&&◌, ◌+◌, ◌<◌, ◌∷◌, ◌≡◌, ◌≤◌,
}
use llm_serving_performance.Benchmark.Types.{Err}
use llm_serving_performance.Benchmark.OpenLoop.Step.{OpenAction, open_run}
use llm_serving_performance.Benchmark.OpenLoop.Result.{
  open_arrivals, open_end_phase, open_phase_result, by_sequence,
}
use llm_serving_performance.Benchmark.OpenLoop.Placed.{is_ended}
use llm_serving_performance.Benchmark.OpenLoop.Defs.{OpenPlan, open_initial}
use llm_serving_performance.Benchmark.OpenLoop.Accounting.{open_loop_accounts}
use llm_serving_performance.Benchmark.Coordinator.{Coordinator}
use llm_serving_performance.Prelude.Sums.{sum_by}
use llm_serving_performance.Prelude.Sort.{insert_by, sort_by}
use llm_serving_performance.Benchmark.OpenLoop.Count.{record_with}
use llm_serving_performance.Benchmark.Arrivals.{ArrivalRecord}

abbrev pub sequences : List ArrivalRecord → List ℕ
sequences [] = []
sequences (a ∷ l) = a.sequence ∷ sequences l

-- k, k + 1, …, n numbers.
unfoldable pub consecutive : ℕ → ℕ → List ℕ
consecutive k zero = []
consecutive k (suc n) = k ∷ consecutive (k + 1) n

-- No element is below the bound, and each is a bound of those behind it.
abbrev IsAbove : ℕ → List ArrivalRecord → Type 0
IsAbove k [] = Unit {0}
IsAbove k (a ∷ l) = (k ≤ a.sequence) × IsAbove k l

abbrev IsSorted : List ArrivalRecord → Type 0
IsSorted [] = Unit {0}
IsSorted (a ∷ l) = IsAbove a.sequence l × IsSorted l

IsAbove-weaken : (k m : ℕ) (l : List ArrivalRecord) → k ≤ m → IsAbove m l → IsAbove k l
IsAbove-weaken k m [] h v = tt
IsAbove-weaken k m (a ∷ l) h (x, v) = (omega (arith, h, x), IsAbove-weaken k m l h v)

IsAbove-insert_by :
    (k : ℕ) (a : ArrivalRecord) (l : List ArrivalRecord)
    → k ≤ a.sequence
    → IsAbove k l
    → IsAbove k (insert_by by_sequence a l)
unfolding insert_by
IsAbove-insert_by k a [] h v = (h, tt)
IsAbove-insert_by k a (b ∷ l) h (x, v) = elim (Bool-cases (by_sequence a b)) [
  | inl e ↦ rw e (h, (x, v))
  | inr e ↦ rw e (x, IsAbove-insert_by k a l h v)
]

insert_by-IsSorted :
    (a : ArrivalRecord) (l : List ArrivalRecord) → IsSorted l → IsSorted (insert_by by_sequence a l)
unfolding insert_by
insert_by-IsSorted a [] v = (tt, tt)
insert_by-IsSorted a (b ∷ l) (above, v) = elim (Bool-cases (by_sequence a b)) [
  | inl e ↦
      rw e ((ground arith, IsAbove-weaken a.sequence b.sequence l (ground arith) above), (above, v))
  | inr e ↦ rw e (IsAbove-insert_by b.sequence a l (ground arith) above, insert_by-IsSorted a l v)
]

sort_by-IsSorted : (l : List ArrivalRecord) → IsSorted (sort_by by_sequence l)
unfolding sort_by
sort_by-IsSorted [] = tt
sort_by-IsSorted (a ∷ l) = insert_by-IsSorted a (sort_by by_sequence l) (sort_by-IsSorted l)

-- A sequence below the bound does not occur.
IsAbove-absent :
    (k q : ℕ) (l : List ArrivalRecord) → IsAbove k l → q < k → sum_by (record_with q) l ≡ 0
unfolding sum_by
IsAbove-absent k q [] v h = refl
IsAbove-absent k q (a ∷ l) (x, v) h = ground (arith, IsAbove-absent k q l v h)

-- 1 within the n numbers from k on.
abbrev within_run : ℕ → ℕ → ℕ → ℕ
within_run k n q = if leb k q && ltb q (k + n) then 1 else 0

first_is :
    (a : ArrivalRecord) (l : List ArrivalRecord) (k n : ℕ)
    → IsAbove a.sequence l
    → ((q : ℕ) → sum_by (record_with q) (a ∷ l) ≡ within_run k (suc n) q)
    → a.sequence ≡ k
unfolding sum_by
first_is a l k n above h =
    let low : k ≤ a.sequence = ground (arith, h a.sequence) in
    let absent : k < a.sequence → sum_by (record_with k) l ≡ 0 =
      λ e. IsAbove-absent a.sequence k l above e in
    ground (arith, low, absent, h k)

rest_is :
    (count q x k n : ℕ)
    → x ≡ k
    → same q x + count ≡ within_run k (suc n) q
    → count ≡ within_run (k + 1) n q
rest_is count q x k n e h = ground arith

-- A sorted list with each of n consecutive numbers once is the list of them.
sorted_consecutive :
    (l : List ArrivalRecord) (k n : ℕ)
    → IsSorted l
    → ((q : ℕ) → sum_by (record_with q) l ≡ within_run k n q)
    → sequences l ≡ consecutive k n
unfolding sum_by consecutive
sorted_consecutive [] k zero v h = refl
sorted_consecutive [] k (suc n) v h = ground (arith, h k)
sorted_consecutive (a ∷ l) k zero v h = ground (arith, h a.sequence)
sorted_consecutive (a ∷ l) k (suc n) (above, v) h =
    let first = first_is a l k n above h in
    let tail : (q : ℕ) → sum_by (record_with q) l ≡ within_run (k + 1) n q =
      λ q. rest_is (sum_by (record_with q) l) q a.sequence k n first (h q) in
    rw (first, sorted_consecutive l (k + 1) n v tail) refl

-- The arrivals in the result of an ended open-loop phase are listed in the order of the schedule:
-- their sequences are 1, 2, … up to the number of processed arrivals.
pub open_arrivals_listed :
    (p : OpenPlan) (c : Coordinator) (parent : Option Err) (steps : List OpenAction) (at : ℤ)
    → is_ended (open_run p (open_initial p c parent) steps).main ≡ true
    → let r = (open_end_phase p (open_run p (open_initial p c parent) steps) at).0 in
      sequences r.arrivals ≡ consecutive 1 r.arrival_counts.processed
unfolding open_end_phase open_phase_result open_arrivals
open_arrivals_listed p c parent steps at h =
    let s = open_run p (open_initial p c parent) steps in
    let n = (open_end_phase p s at).0.arrival_counts.processed in
    sorted_consecutive (open_arrivals s) 1 n
      (sort_by-IsSorted (s.pool.dropped ++ s.pool.collected_arrivals))
      (λ q. (open_loop_accounts p c parent steps at q h).1 ∙ issued-run q n)
  where
    issued-run : (q n : ℕ) → issued q n ≡ within_run 1 n q
    issued-run q n = ground arith
