-- ===== src/Benchmark/Ids/Injective.antt =====
-- Distinct requests of a run have distinct identifiers, beyond six digits too.
use llm_serving_performance.Prelude.{
  ℕ, zero, suc, ◌+◌, ◌-◌, ◌*◌, ◌/◌, ◌%◌, ◌<◌, ◌≡◌, refl, sym, ap, ◌∙◌, List, [], ◌∷◌, ◌++◌, some,
  length, replicate, arith, ltb, Bool-cases, inl, inr, ltb→lt,
}
use llm_serving_performance.Prelude.Int.{ℤ, pos, negsuc}
use llm_serving_performance.Benchmark.Types.{RequestPhase, warmup, measured, other_phase}
use llm_serving_performance.Benchmark.Ids.{
  decimal_onto, six_digits, request_id, warmup_request_id, phase_request_id,
}

-- The number that digits spell, after those read so far.
value : ℕ → List ℕ → ℕ
value acc [] = acc
value acc (d ∷ ds) = value (10 * acc + (d - b'0')) ds

-- Reading the digits of n before `acc` is reading `acc` from n on.
value-decimal :
    (fuel n : ℕ) (acc : List ℕ) → n < fuel → value 0 (decimal_onto fuel n acc) ≡ value n acc
unfolding value decimal_onto
value-decimal zero n acc h = elim h [ ]
value-decimal (suc fuel) n acc h = elim (Bool-cases (ltb n 10)) [
  | inl small ↦
      let e : 10 * 0 + (b'0' + n % 10 - b'0') ≡ n = omega (arith, ltb→lt n 10 small) in
      rw small (ap (λ k. value k acc) e)
  | inr big ↦
      let e : 10 * (n / 10) + (b'0' + n % 10 - b'0') ≡ n = omega arith in
      rw big (
        value-decimal fuel (n / 10) ((b'0' + n % 10) ∷ acc) (ground arith)
        ∙ ap (λ k. value k acc) e)
]

value-zeros : (k : ℕ) (ds : List ℕ) → value 0 (replicate k b'0' ++ ds) ≡ value 0 ds
unfolding value
value-zeros zero ds = refl
value-zeros (suc k) ds = value-zeros k ds

value-six_digits : (n : ℕ) → value 0 (six_digits n) ≡ n
unfolding six_digits value
value-six_digits n =
    value-zeros (6 - length (decimal_onto (suc n) n [])) (decimal_onto (suc n) n [])
    ∙ value-decimal (suc n) n [] (omega arith)

six_digits_inj : (m n : ℕ) → six_digits m ≡ six_digits n → m ≡ n
six_digits_inj m n e = sym (value-six_digits m) ∙ ap (value 0) e ∙ value-six_digits n

request_id_inj : (a b : ℤ) (r : List ℕ) → request_id a ≡ some r → request_id b ≡ some r → a ≡ b
unfolding request_id
request_id_inj (pos zero) b r h k = cc
request_id_inj (negsuc m) b r h k = cc
request_id_inj (pos (suc m)) (pos zero) r h k = cc
request_id_inj (pos (suc m)) (negsuc n) r h k = cc
request_id_inj (pos (suc m)) (pos (suc n)) r h k =
    let same : six_digits (suc m) ≡ six_digits (suc n) = cc in
    ap pos (six_digits_inj (suc m) (suc n) same)

warmup_request_id_inj :
    (a b : ℤ) (r : List ℕ) → warmup_request_id a ≡ some r → warmup_request_id b ≡ some r → a ≡ b
unfolding warmup_request_id
warmup_request_id_inj (pos zero) b r h k = cc
warmup_request_id_inj (negsuc m) b r h k = cc
warmup_request_id_inj (pos (suc m)) (pos zero) r h k = cc
warmup_request_id_inj (pos (suc m)) (negsuc n) r h k = cc
warmup_request_id_inj (pos (suc m)) (pos (suc n)) r h k =
    let same : six_digits (suc m) ≡ six_digits (suc n) = cc in
    ap pos (six_digits_inj (suc m) (suc n) same)

-- For each phase, two sequences that get the same identifier are the same sequence.
pub phase_request_id_inj :
    (p : RequestPhase) (a b : ℤ) (r : List ℕ)
    → phase_request_id p a ≡ some r
    → phase_request_id p b ≡ some r
    → a ≡ b
unfolding phase_request_id
phase_request_id_inj warmup a b r h k = warmup_request_id_inj a b r h k
phase_request_id_inj measured a b r h k = request_id_inj a b r h k
phase_request_id_inj (other_phase s) a b r h k = request_id_inj a b r h k

-- A positive sequence has an identifier.
pub phase_request_id-positive :
    (p : RequestPhase) (n : ℕ) → (r : List ℕ) × (phase_request_id p (pos (suc n)) ≡ some r)
unfolding phase_request_id request_id warmup_request_id
phase_request_id-positive warmup n = (_, refl)
phase_request_id-positive measured n = (_, refl)
phase_request_id-positive (other_phase s) n = (_, refl)

-- The identifier of the sequence behind an index.
pub phase_request_id-next :
    (p : RequestPhase) (i : ℕ) → (r : List ℕ) × (phase_request_id p (pos (i + 1)) ≡ some r)
phase_request_id-next p i =
    let (r, h) = phase_request_id-positive p i in
    (r, ap (λ n. phase_request_id p (pos n)) (one i) ∙ h)
  where
    one : (n : ℕ) → n + 1 ≡ suc n
    one n = omega arith
