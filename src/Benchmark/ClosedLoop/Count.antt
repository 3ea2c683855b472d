-- ===== src/Benchmark/ClosedLoop/Count.antt =====
-- Sums over the workers, and what a step does to them.
use llm_serving_performance.Prelude.Sums.{sum_by}
use llm_serving_performance.Benchmark.ClosedLoop.Step.{all_exited}
use llm_serving_performance.Prelude.{true}
use llm_serving_performance.Prelude.{
  ℕ, zero, suc, ◌+◌, ◌≤◌, ◌≡◌, refl, some, List, [], ◌∷◌, length, get_elem?, arith, ◌==◌, leb, ltb,
  ◌&&◌, if◌then◌else◌,
}
use llm_serving_performance.Benchmark.Types.{RequestOutcome, other_outcome}
use llm_serving_performance.Benchmark.Arrivals.{CompletedRequest}
use llm_serving_performance.Benchmark.ClosedLoop.Defs.{
  Worker, idle, claiming, claimed, waiting, ready, running, answered, sending, exited, State,
}

-- 1 for a worker inside the runner.
abbrev pub is_running : Worker → ℕ
is_running (running q) = 1
is_running _ = 0

pub is_running-le : (w : Worker) → is_running w ≤ 1
is_running-le w = ground arith

abbrev pub same : ℕ → ℕ → ℕ
same q r = if q == r then 1 else 0

-- 1 for a worker that has claimed sequence q and not yet sent its result.
abbrev pub holds : ℕ → Worker → ℕ
holds q idle = 0
holds q claiming = 0
holds q exited = 0
holds q (claimed r) = same q r
holds q (waiting r) = same q r
holds q (ready r) = same q r
holds q (running r) = same q r
holds q (answered r err late) = same q r
holds q (sending c) = same q c.sequence

abbrev pub has_sequence : ℕ → CompletedRequest → ℕ
has_sequence q c = same q c.sequence

-- How often sequence q is in a worker's hands, in the channel or among the collected results.
unfoldable pub occupancy : ℕ → State → ℕ
occupancy q s =
    sum_by (holds q) s.workers
    + sum_by (has_sequence q) s.results
    + sum_by (has_sequence q) s.completed

-- 1 for the sequences 1 to n.
abbrev pub issued : ℕ → ℕ → ℕ
issued q n = if ltb 0 q && leb q n then 1 else 0

pub issued-suc : (q n : ℕ) → issued q (n + 1) ≡ issued q n + same q (n + 1)
issued-suc q n = ground arith

-- 1 for a worker that has started its request, or is about to, with sequence q.
abbrev pub started_with : ℕ → Worker → ℕ
started_with q (ready r) = same q r
started_with q (running r) = same q r
started_with q (answered r err late) = same q r
started_with q (sending c) = same q c.sequence
started_with q _ = 0

unfoldable pub started_count : ℕ → State → ℕ
started_count q s =
    sum_by (started_with q) s.workers
    + sum_by (has_sequence q) s.results
    + sum_by (has_sequence q) s.completed

abbrev pub is_other : RequestOutcome → ℕ
is_other (other_outcome _) = 1
is_other _ = 0

abbrev pub unclassified : Worker → ℕ
unclassified (sending c) = is_other c.outcome
unclassified _ = 0

abbrev pub unclassified_result : CompletedRequest → ℕ
unclassified_result c = is_other c.outcome

-- 1 for a worker that holds any sequence.
abbrev pub is_busy : Worker → ℕ
is_busy idle = 0
is_busy claiming = 0
is_busy exited = 0
is_busy _ = 1

abbrev pub has_exited : Worker → ℕ
has_exited exited = 1
has_exited _ = 0

-- Once every worker has ended none of them holds a sequence, and no index leads to another state.
pub all_exited-busy : (ws : List Worker) → all_exited ws ≡ true → sum_by is_busy ws ≡ 0
unfolding sum_by
all_exited-busy [] h = refl
all_exited-busy (exited ∷ ws) h = omega (arith, all_exited-busy ws h)
all_exited-busy (w ∷ ws) h = cc

pub all_exited-holds : (q : ℕ) (ws : List Worker) → all_exited ws ≡ true → sum_by (holds q) ws ≡ 0
unfolding sum_by
all_exited-holds q [] h = refl
all_exited-holds q (exited ∷ ws) h = omega (arith, all_exited-holds q ws h)
all_exited-holds q (w ∷ ws) h = cc

pub all_exited-count : (ws : List Worker) → all_exited ws ≡ true → sum_by has_exited ws ≡ length ws
unfolding sum_by
all_exited-count [] h = refl
all_exited-count (exited ∷ ws) h = omega (arith, all_exited-count ws h)
all_exited-count (w ∷ ws) h = cc

pub all_exited-get_elem? :
    (ws : List Worker) (i : ℕ) (w : Worker)
    → all_exited ws ≡ true
    → get_elem? ws i ≡ some w
    → w ≡ exited
all_exited-get_elem? [] i w h e = cc
all_exited-get_elem? (exited ∷ ws) zero w h e = cc
all_exited-get_elem? (exited ∷ ws) (suc i) w h e = all_exited-get_elem? ws i w h e
all_exited-get_elem? (v ∷ ws) i w h e = cc
