-- ===== src/Benchmark/Transitions/Path.antt =====
-- The log of a lifecycle is a path of legal transitions, numbered from 1.
use llm_serving_performance.Prelude.{
  ℕ, ◌+◌, ◌≡◌, refl, String, true, List, [], ◌∷◌, ◌++◌, length, arith, Bool-cases, inl, inr,
}
use llm_serving_performance.Prelude.Int.{ℤ}
use llm_serving_performance.Benchmark.Transitions.{
  LifecyclePhase, setup, PhaseTransition, LifecycleState, new_lifecycle_state, legal_transition,
  transition,
}

-- Entries numbered from n + 1 lead from one phase to another by legal transitions.
abbrev pub Steps : ℕ → LifecyclePhase → List PhaseTransition → LifecyclePhase → Type 0
Steps n p [] q = p ≡ q
Steps n p (t ∷ ts) q =
    (t.sequence ≡ n + 1) × (legal_transition p t.phase ≡ true) × Steps (n + 1) t.phase ts q

-- The log begins with `setup` and leads to the current phase.
abbrev pub IsLogged : LifecyclePhase → List PhaseTransition → Type 0
IsLogged q [] = ⊥
IsLogged q (t ∷ ts) = (t.sequence ≡ 1) × (t.phase ≡ setup) × Steps 1 setup ts q

Steps-snoc :
    (n : ℕ) (p q : LifecyclePhase) (ts : List PhaseTransition) (t : PhaseTransition)
    → Steps n p ts q
    → legal_transition q t.phase ≡ true
    → t.sequence ≡ n + length ts + 1
    → Steps n p (ts ++ t ∷ []) t.phase
Steps-snoc n p q [] t e l k = (omega arith, cc, refl)
Steps-snoc n p q (u ∷ ts) t (a, b, c) l k =
    (a, b, Steps-snoc (n + 1) u.phase q ts t c l (omega arith))

pub new-IsLogged :
    (at : ℤ) → IsLogged (new_lifecycle_state at).current (new_lifecycle_state at).transitions
unfolding new_lifecycle_state
new-IsLogged at = (refl, refl, refl)

IsLogged-snoc :
    (q : LifecyclePhase) (ts : List PhaseTransition) (t : PhaseTransition)
    → IsLogged q ts
    → legal_transition q t.phase ≡ true
    → t.sequence ≡ length ts + 1
    → IsLogged t.phase (ts ++ t ∷ [])
IsLogged-snoc q [] t h l k = absurd h
IsLogged-snoc q (u ∷ ts) t (a, b, c) l k = (a, b, Steps-snoc 1 setup q ts t c l (omega arith))

pub transition-IsLogged :
    (s : LifecycleState) (next : LifecyclePhase) (at : ℤ) (reason : String)
    → IsLogged s.current s.transitions
    → let s' = (transition s next at reason).0 in IsLogged s'.current s'.transitions
unfolding transition
transition-IsLogged s next at reason h = elim (Bool-cases (legal_transition s.current next)) [
  | inl ok ↦ rw ok (IsLogged-snoc s.current s.transitions _ h ok refl)
  | inr bad ↦ rw bad h
]
